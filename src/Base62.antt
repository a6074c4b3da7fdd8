-- ===== src/Base62.antt =====
-- services/url-service/base62.go and codegen.go: short codes as seven digits in base 62.
pub mod RoundTrip
use url_shortener_microservi.Prelude.{
  ℕ, zero, suc, ◌+◌, ◌*◌, ◌/◌, ◌%◌, ◌^◌, Text, bytes, List, [], ◌∷◌, Option, none, some, ℤ, pos,
  abs, get_or, length, ◌==◌, if◌then◌else◌,
}

abbrev pub base62_alphabet : Text
base62_alphabet = bytes "0123456789ABCDEFGHIJKLMNOPQRSTUVWXYZabcdefghijklmnopqrstuvwxyz"

abbrev pub short_code_length : ℕ
short_code_length = 7

-- base62Alphabet[rem], where rem is a remainder by 62
unfoldable pub char_of : ℕ → ℕ
char_of d = get_or base62_alphabet d 0

-- The loop of Encode: `i` positions are left to fill, and `buf` holds those to their right.
unfoldable pub fill : ℕ → ℕ → Text → Text
fill zero n buf = buf
fill (suc i) n buf = fill i (n / 62) (char_of (n % 62) ∷ buf)

-- `none` is the nil pointer.
unfoldable pub encode : Option ℤ → Text
encode none = []
encode (some n) = fill short_code_length (abs n % 62 ^ short_code_length) []

pub data DecodeError : Type 0 where
  invalid_length invalid_character : DecodeError

pub data Decoded : Type 0 where
  ok : ℕ → Decoded
  err : DecodeError → Decoded

-- strings.IndexByte, with `none` for -1
unfoldable pub index_byte : Text → ℕ → Option ℕ
index_byte [] c = none
index_byte (a ∷ s) c =
    let rest = index_byte s c in
    if a == c then some 0 else elim rest [ none ↦ none | some i ↦ some (suc i) ]

-- The loop of Decode over the bytes that are left.
unfoldable pub decode_loop : ℕ → Text → Decoded
decode_loop result [] = ok result
decode_loop result (c ∷ cs) = elim (index_byte base62_alphabet c) [
  | none ↦ err invalid_character
  | some idx ↦ decode_loop (result * 62 + idx) cs
]

unfoldable pub decode : Text → Decoded
decode s = if length s == short_code_length then decode_loop 0 s else err invalid_length

-- big.Int's SetBytes: the bytes as a number, the first byte highest.
unfoldable pub set_bytes : ℕ → Text → ℕ
set_bytes n [] = n
set_bytes n (b ∷ bs) = set_bytes (n * 256 + b) bs

-- cryptoRandGenerator.Generate; the eight random bytes are the argument.
unfoldable pub generate : Text → Text
generate random = encode (some (pos (set_bytes 0 random)))
