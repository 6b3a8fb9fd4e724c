-- ===== src/Prelude/Texts.antt =====
-- Rust's `str` as the list of its characters' code points, with the tests of the standard library
-- that the parsers call.
use Prim.Native.Nat.{ℕ}
use Prim.Native.Char.{code}
use Prim.Native.String.{String}
use mathlib.Core.Path.{◌≡◌, refl}
use mathlib.Core.Logic.{inl, inr}
use mathlib.Core.Bool.{Bool, true, false, ◌&&◌, ◌||◌}
use mathlib.Core.List.{List, [], ◌∷◌, ◌++◌}
use mathlib.Core.Option.{Option, none, some}
use native.Mathlib.Omega.{arith}
use susun.Prelude.Tests.{leb, ◌==◌, if◌then◌else◌, Option-cases}

abbrev pub Text : Type 0
Text = List ℕ

abbrev pub text : String → Text
text String.[] = []
text (String.◌∷◌ c s) = code c ∷ text s

-- `char::is_ascii_alphabetic`
abbrev pub is_ascii_alphabetic : ℕ → Bool
is_ascii_alphabetic c = leb 65 c && leb c 90 || leb 97 c && leb c 122

-- `char::is_ascii_digit`
abbrev pub is_ascii_digit : ℕ → Bool
is_ascii_digit c = leb 48 c && leb c 57

-- `char::is_ascii_alphanumeric`
abbrev pub is_ascii_alphanumeric : ℕ → Bool
is_ascii_alphanumeric c = is_ascii_alphabetic c || is_ascii_digit c

-- `chars().all(test)`
abbrev pub all_chars : (ℕ → Bool) → Text → Bool
all_chars test [] = true
all_chars test (c ∷ s) = test c && all_chars test s

-- `s.starts_with(p)`
abbrev pub starts_with : Text → Text → Bool
starts_with [] s = true
starts_with (p ∷ ps) [] = false
starts_with (p ∷ ps) (c ∷ s) = p == c && starts_with ps s

-- `s.strip_prefix(p)`
abbrev pub strip_prefix : Text → Text → Option Text
strip_prefix [] s = some s
strip_prefix (p ∷ ps) [] = none
strip_prefix (p ∷ ps) (c ∷ s) = if p == c then strip_prefix ps s else none

-- A removed prefix and what is left make the text again.
pub strip_prefix-append : (p s r : Text) → strip_prefix p s ≡ some r → p ++ r ≡ s
strip_prefix-append [] s r h = ground arith
strip_prefix-append (p ∷ ps) [] r h = ground arith
strip_prefix-append (p ∷ ps) (c ∷ s) r h = ground (arith, strip_prefix-append ps s r)

-- `(&s[..i], &s[i..])` where `i` is the first position at which `test` holds, or the end.
abbrev pub span_until : (ℕ → Bool) → Text → Text × Text
span_until test [] = ([], [])
span_until test (c ∷ s) =
    let rest = span_until test s in if test c then ([], c ∷ s) else (c ∷ rest.0, rest.1)

pub span_until-append :
    (test : ℕ → Bool) (s : Text) → (span_until test s).0 ++ (span_until test s).1 ≡ s
span_until-append test [] = refl
span_until-append test (c ∷ s) = ground (arith, span_until-append test s)

-- `s.find(c)` used to cut: the text before the first `c`, and the text behind it.
abbrev pub split_once : ℕ → Text → Option (Text × Text)
split_once d [] = none
split_once d (c ∷ s) =
    let rest = split_once d s in
    if c == d then some ([], s) else elim rest [ none ↦ none | some (a, b) ↦ some (c ∷ a, b) ]

-- The two parts and the separator make the text again.
pub split_once-append : (d : ℕ) (s a b : Text) → split_once d s ≡ some (a, b) → a ++ d ∷ b ≡ s
split_once-append d [] a b h = ground arith
split_once-append d (c ∷ s) a b h = elim (Option-cases (split_once d s)) [
  | inl e ↦ ground arith
  | inr ((a', b'), e) ↦ ground (arith, split_once-append d s a' b')
]
