-- ===== src/Base62/RoundTrip.antt =====
-- Encoding and decoding short codes (services/url-service/base62.go) are inverse to one another.
use mathlib.Core.List.{append-nil}
use native.Mathlib.Nat.{pow-suc, mul-le-mul_right}
use url_shortener_microservi.Prelude.{
  ℕ, zero, suc, ◌+◌, ◌-◌, ◌*◌, ◌/◌, ◌%◌, ◌^◌, ◌≤◌, ◌<◌, ◌≡◌, refl, sym, ap, ap₂, ◌∙◌, Text, [], ◌∷◌,
  ◌++◌, Option, none, some, ℤ, pos, abs, get_or, length, ◌==◌, arith, Bool, true, false, ◌&&◌,
  Option-cases, inl, inr,
}
use url_shortener_microservi.Base62.{
  base62_alphabet, short_code_length, char_of, fill, encode, ok, err, invalid_character, index_byte,
  decode_loop, decode,
}

-- Whether a search of the alphabet has found the position d.
found_at : ℕ → Option ℕ → Bool
found_at d none = false
found_at d (some i) = i == d

-- The digits below d are found at their own positions, checked one by one.
digits_found : ℕ → Bool
digits_found zero = true
digits_found (suc d) = found_at d (index_byte base62_alphabet (char_of d)) && digits_found d

all_digits_found : digits_found 62 ≡ true
unfolding digits_found found_at index_byte char_of
all_digits_found = refl

found_at-some : (d : ℕ) (o : Option ℕ) → found_at d o ≡ true → o ≡ some d
unfolding found_at
found_at-some d none h = cc
found_at-some d (some i) h = ground arith

index_of_digit :
    (n d : ℕ) → digits_found n ≡ true → d < n → index_byte base62_alphabet (char_of d) ≡ some d
unfolding digits_found
index_of_digit zero d h lt = absurd (omega arith)
index_of_digit (suc n) d h lt =
    ground (arith, index_of_digit n d, found_at-some d (index_byte base62_alphabet (char_of d)))

index-char_of : (d : ℕ) → d < 62 → index_byte base62_alphabet (char_of d) ≡ some d
index-char_of d h = index_of_digit 62 d all_digits_found h

-- The index that is found is in range, and the byte stands there.
index_byte_sound :
    (s : Text) (c i : ℕ) → index_byte s c ≡ some i → (i < length s) × (get_or s i 0 ≡ c)
unfolding index_byte
index_byte_sound [] c i h = cc
index_byte_sound (a ∷ s) c i h = ground (arith, index_byte_sound s c (i - 1))

char-index_byte : (c d : ℕ) → index_byte base62_alphabet c ≡ some d → (d < 62) × (char_of d ≡ c)
unfolding char_of
char-index_byte c d h = index_byte_sound base62_alphabet c d h

-- One digit of the decoding loop.
decode_loop-char_of :
    (acc d : ℕ) (cs : Text)
    → d < 62
    → decode_loop acc (char_of d ∷ cs) ≡ decode_loop (acc * 62 + d) cs
unfolding decode_loop
decode_loop-char_of acc d cs h = rw (index-char_of d h, decode_loop)

push_digit : (acc n p : ℕ) → (acc * p + n / 62) * 62 + n % 62 ≡ acc * (p * 62) + n
push_digit acc n p = grind arith

decode_loop-fill :
    (k acc n : ℕ) (buf : Text)
    → n < 62 ^ k
    → decode_loop acc (fill k n buf) ≡ decode_loop (acc * 62 ^ k + n) buf
unfolding fill
decode_loop-fill zero acc n buf h = ap (λ (m : ℕ). decode_loop m buf) (omega arith)
decode_loop-fill (suc k) acc n buf h =
    decode_loop-fill k acc (n / 62) (char_of (n % 62) ∷ buf) (omega (arith, pow-suc 62 k))
    ∙ decode_loop-char_of (acc * 62 ^ k + n / 62) (n % 62) buf (omega arith)
    ∙ ap (λ (m : ℕ). decode_loop m buf)
        (push_digit acc n (62 ^ k) ∙ ap (λ (p : ℕ). acc * p + n) (sym (pow-suc 62 k)))

length-fill : (k n : ℕ) (buf : Text) → length (fill k n buf) ≡ k + length buf
unfolding fill
length-fill zero n buf = omega arith
length-fill (suc k) n buf = omega (arith, length-fill k (n / 62) (char_of (n % 62) ∷ buf))

-- A short code has seven characters, whatever the number.
pub length-encode : (n : ℤ) → length (encode (some n)) ≡ short_code_length
unfolding encode
length-encode n = length-fill 7 (abs n % 62 ^ 7) []

decode-of_length : (s : Text) → length s ≡ 7 → decode s ≡ decode_loop 0 s
unfolding decode
decode-of_length s h = rw h

-- Decoding the short code of a number gives its absolute value modulo 62 ^ 7.
pub decode-encode : (n : ℤ) → decode (encode (some n)) ≡ ok (abs n % 62 ^ 7)
unfolding encode decode_loop
decode-encode n =
    decode-of_length _ (length-encode n)
    ∙ decode_loop-fill 7 0 (abs n % 62 ^ 7) [] (omega arith)
    ∙ ap (λ (m : ℕ). ok m) (omega arith)

decode_loop-invalid :
    (acc c : ℕ) (cs : Text)
    → index_byte base62_alphabet c ≡ none
    → decode_loop acc (c ∷ cs) ≡ err invalid_character
unfolding decode_loop
decode_loop-invalid acc c cs h = rw (h, decode_loop)

decode_loop-valid :
    (acc c d : ℕ) (cs : Text)
    → index_byte base62_alphabet c ≡ some d
    → decode_loop acc (c ∷ cs) ≡ decode_loop (acc * 62 + d) cs
unfolding decode_loop
decode_loop-valid acc c d cs h = rw (h, decode_loop)

-- A step of the loop of Decode that did not fail.
decode_loop-cons :
    (acc n c : ℕ) (cs : Text)
    → decode_loop acc (c ∷ cs) ≡ ok n
    → (d : ℕ) × (d < 62) × (char_of d ≡ c) × (decode_loop (acc * 62 + d) cs ≡ ok n)
decode_loop-cons acc n c cs h = elim (Option-cases (index_byte base62_alphabet c)) [
  | inl bad ↦ cc (decode_loop-invalid acc c cs bad)
  | inr (d, found) ↦
      let (small, char) = char-index_byte c d found in
      (d, small, char, sym (decode_loop-valid acc c d cs found) ∙ h)
]

fill_digit :
    (j acc d c : ℕ) (buf : Text)
    → d < 62
    → char_of d ≡ c
    → fill (suc j) (acc * 62 + d) buf ≡ fill j acc (c ∷ buf)
unfolding fill
fill_digit j acc d c buf h e =
    ap₂ (λ (q m : ℕ). fill j q (char_of m ∷ buf)) (omega arith) (omega arith)
    ∙ ap (λ (m : ℕ). fill j acc (m ∷ buf)) e

-- What the loop of Decode has read, the loop of Encode writes back.
fill-decode_loop :
    (cs : Text) (j acc n : ℕ) (buf : Text)
    → decode_loop acc cs ≡ ok n
    → fill (length cs + j) n buf ≡ fill j acc (cs ++ buf)
fill-decode_loop [] j acc n buf h =
    ap₂ (λ (k m : ℕ). fill k m buf) (omega arith) (unfold decode_loop in ground (arith, h))
fill-decode_loop (c ∷ cs) j acc n buf h =
    let (d, small, char, rest) = decode_loop-cons acc n c cs h in
    ap (λ (k : ℕ). fill k n buf) (omega arith)
    ∙ fill-decode_loop cs (suc j) (acc * 62 + d) n buf rest
    ∙ fill_digit j acc d c (cs ++ buf) small char

grow : (acc d n p q : ℕ) → d < 62 → q ≡ p * 62 → n < (acc * 62 + d + 1) * p → n < (acc + 1) * q
grow acc d n p q small e h =
    let wide : (acc * 62 + d + 1) * p ≤ (acc * 62 + 62) * p = mul-le-mul_right p (omega arith) in
    rw e (omega (arith, wide))

decode_loop_bound :
    (cs : Text) (acc n : ℕ) → decode_loop acc cs ≡ ok n → n < (acc + 1) * 62 ^ length cs
decode_loop_bound [] acc n h = unfold decode_loop in ground (arith, h)
decode_loop_bound (c ∷ cs) acc n h =
    let (d, small, char, rest) = decode_loop-cons acc n c cs h in
    grow acc d n (62 ^ length cs) (62 ^ suc (length cs)) small (pow-suc 62 (length cs))
      (decode_loop_bound cs (acc * 62 + d) n rest)

fill-zero : (s : Text) → fill 0 0 (s ++ []) ≡ s
unfolding fill
fill-zero s = append-nil s

decode-ok : (s : Text) (n : ℕ) → decode s ≡ ok n → (length s ≡ 7) × (decode_loop 0 s ≡ ok n)
unfolding decode
decode-ok s n h = ground arith

-- A decoded short code is below 62 ^ 7, and encoding the number gives the short code again.
pub encode-decode :
    (s : Text) (n : ℕ) → decode s ≡ ok n → (n < 62 ^ 7) × (encode (some (pos n)) ≡ s)
unfolding encode
encode-decode s n h =
    let (seven, read) = decode-ok s n h in
    let small : n < 62 ^ 7 = rw seven at (decode_loop_bound s 0 n read) in
    (
      small,
      ap (λ (m : ℕ). fill 7 m []) (omega arith)
          ∙ ap (λ (k : ℕ). fill k n []) (omega arith)
          ∙ fill-decode_loop s 0 0 n [] read
          ∙ fill-zero s,
    )
