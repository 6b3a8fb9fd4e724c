-- ===== src/Ports/Numbers.antt =====
-- `str::parse::<u32>` reads what `to_string` writes.
use susun.Prelude.{
  ℕ, zero, suc, ◌+◌, ◌*◌, ◌-◌, ◌<◌, ◌≡◌, refl, ap, ◌∙◌, true, some, [], ◌∷◌, Text, arith, ltb,
  lt→ltb, Bool-cases, inl, inr, decimal, decimal_onto, starts_with_digit, decimal-starts_with_digit,
}
use Prim.Native.Nat.{◌/◌, ◌%◌}
use susun.Ports.{parse_digits, parse_u32}

abbrev power_of_ten : ℕ → ℕ
power_of_ten zero = 1
power_of_ten (suc k) = 10 * power_of_ten k

digit_step :
    (n : ℕ) (acc : Text)
    → n < 4294967296
    → parse_digits (n / 10) ((48 + n % 10) ∷ acc) ≡ parse_digits n acc
unfolding parse_digits
digit_step n acc fits =
    let same : n / 10 * 10 + (48 + n % 10 - 48) ≡ n = omega arith in
    rw (same, lt→ltb n 4294967296 fits) (ground arith)

parse_digits-decimal_onto :
    (fuel n : ℕ) (acc : Text)
    → n < power_of_ten fuel
    → n < 4294967296
    → parse_digits 0 (decimal_onto fuel n acc) ≡ parse_digits n acc
unfolding parse_digits decimal_onto
parse_digits-decimal_onto zero n acc small fits = ap (λ m. parse_digits m acc) (omega arith)
parse_digits-decimal_onto (suc fuel) n acc small fits = elim (Bool-cases (ltb n 10)) [
  | inl one_digit ↦ ground (arith, one_digit, lt→ltb n 4294967296 fits)
  | inr more ↦ rw more (
      parse_digits-decimal_onto fuel (n / 10) ((48 + n % 10) ∷ acc) (omega arith) (omega arith)
      ∙ digit_step n acc fits)
]

parse_u32-digits : (s : Text) → starts_with_digit s ≡ true → parse_u32 s ≡ parse_digits 0 s
unfolding parse_u32
parse_u32-digits [] h = ground (arith, h)
parse_u32-digits (c ∷ []) h = refl
parse_u32-digits (c ∷ d ∷ s) h = ground (arith, h)

-- A number that a `u32` holds is read back from its decimal digits.
pub parse_u32-decimal : (n : ℕ) → n < 4294967296 → parse_u32 (decimal n) ≡ some n
unfolding decimal parse_digits
parse_u32-decimal n fits =
    parse_u32-digits (decimal n) (decimal-starts_with_digit n)
    ∙ parse_digits-decimal_onto 10 n [] (omega arith) fits
