-- ===== src/Prelude/Decimal.antt =====
-- `to_string` of a `u32`: at most ten decimal digits.
use Prim.Native.Nat.{ℕ, zero, suc, ◌+◌, ◌/◌, ◌%◌}
use mathlib.Core.Path.{◌≡◌}
use mathlib.Core.Bool.{Bool, true, false}
use mathlib.Core.List.{[], ◌∷◌}
use native.Mathlib.Omega.{arith}
use susun.Prelude.Tests.{ltb, if◌then◌else◌, Bool-cases}
use susun.Prelude.Texts.{Text, is_ascii_digit}
use mathlib.Core.Logic.{inl, inr}

-- The digits of `n` in front of `acc`.
unfoldable pub decimal_onto : (fuel n : ℕ) → Text → Text
decimal_onto zero n acc = acc
decimal_onto (suc fuel) n acc =
    let rest = decimal_onto fuel (n / 10) ((48 + n % 10) ∷ acc) in
    if ltb n 10 then (48 + n) ∷ acc else rest

unfoldable pub decimal : ℕ → Text
unfolding decimal_onto
decimal n = decimal_onto 10 n []

abbrev pub starts_with_digit : Text → Bool
starts_with_digit [] = false
starts_with_digit (c ∷ s) = is_ascii_digit c

decimal_onto-starts_with_digit :
    (fuel n : ℕ) (acc : Text)
    → starts_with_digit acc ≡ true
    → starts_with_digit (decimal_onto fuel n acc) ≡ true
unfolding decimal_onto
decimal_onto-starts_with_digit zero n acc h = h
decimal_onto-starts_with_digit (suc fuel) n acc h = elim (Bool-cases (ltb n 10)) [
  | inl small ↦ ground (arith, small)
  | inr large ↦
      rw large (decimal_onto-starts_with_digit fuel (n / 10) ((48 + n % 10) ∷ acc) (ground arith))
]

pub decimal-starts_with_digit : (n : ℕ) → starts_with_digit (decimal n) ≡ true
unfolding decimal decimal_onto
decimal-starts_with_digit n = elim (Bool-cases (ltb n 10)) [
  | inl small ↦ ground (arith, small)
  | inr large ↦
      rw large (decimal_onto-starts_with_digit 9 (n / 10) ((48 + n % 10) ∷ []) (ground arith))
]
