-- ===== src/Gateway/Decimal.antt =====
-- The decimal text of the Retry-After header (formatInt of gateway/handler.go).
use url_shortener_microservi.Prelude.{
  ℕ, zero, suc, ◌+◌, ◌-◌, ◌*◌, ◌/◌, ◌%◌, ◌≤◌, ◌≡◌, refl, ap, ◌∙◌, ℤ, pos, negsuc, Text, bytes, [],
  ◌∷◌, All, ◌==◌, if◌then◌else◌, arith, Bool-cases, inl, inr,
}

-- The loop, which runs at most n times on n.
format_loop : ℕ → ℕ → Text → Text
format_loop zero n s = s
format_loop (suc fuel) n s =
    let rest = format_loop fuel (n / 10) ((b'0' + n % 10) ∷ s) in if n == 0 then s else rest

-- A negative number is the empty text.
unfoldable pub format_int : ℤ → Text
unfolding format_loop
format_int (pos zero) = bytes "0"
format_int (pos (suc n)) = format_loop (suc n) (suc n) []
format_int (negsuc n) = []

-- The number that decimal digits stand for, after those that are read already.
pub decimal_value : ℕ → Text → ℕ
decimal_value acc [] = acc
decimal_value acc (c ∷ cs) = decimal_value (acc * 10 + (c - b'0')) cs

abbrev pub IsDigit : ℕ → Type 0
IsDigit c = (b'0' ≤ c) × (c ≤ b'9')

decimal_value-format_loop :
    (fuel n : ℕ) (s : Text) → n ≤ fuel → decimal_value 0 (format_loop fuel n s) ≡ decimal_value n s
unfolding format_loop
decimal_value-format_loop zero n s h = ap (λ (m : ℕ). decimal_value m s) (omega arith)
decimal_value-format_loop (suc fuel) n s h = elim (Bool-cases (n == 0)) [
  | inl stop ↦ rw stop (ap (λ (m : ℕ). decimal_value m s) (ground arith))
  | inr more ↦ rw more (
      decimal_value-format_loop fuel (n / 10) ((b'0' + n % 10) ∷ s) (ground arith)
      ∙ unfold decimal_value in ap (λ (m : ℕ). decimal_value m s) (omega arith))
]

format_loop-All : (fuel n : ℕ) (s : Text) → All IsDigit s → All IsDigit (format_loop fuel n s)
unfolding format_loop
format_loop-All zero n s h = h
format_loop-All (suc fuel) n s h = elim (Bool-cases (n == 0)) [
  | inl stop ↦ rw stop h
  | inr more ↦
      rw more (format_loop-All fuel (n / 10) ((b'0' + n % 10) ∷ s) ((omega arith, omega arith), h))
]

-- The text of a number that is not negative is made of decimal digits and stands for the number.
pub format_int-value :
    (n : ℕ) → All IsDigit (format_int (pos n)) × (decimal_value 0 (format_int (pos n)) ≡ n)
unfolding format_int decimal_value
format_int-value zero = ((omega arith, tt), refl)
format_int-value (suc n) = (
  format_loop-All (suc n) (suc n) [] tt,
  decimal_value-format_loop (suc n) (suc n) [] (omega arith),
)
