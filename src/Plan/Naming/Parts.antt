-- ===== src/Plan/Naming/Parts.antt =====
-- crates/susun-planner/src/naming.rs: the shape of the parts of a name.
use mathlib.Core.List.{reverse, reverse-append}
use susun.Prelude.{
  ℕ, ◌≡◌, refl, Bool, true, false, ◌&&◌, ◌||◌, List, [], ◌∷◌, ◌++◌, Text, leb, ◌==◌, arith,
  all_chars, is_ascii_digit, is_ascii_alphanumeric, Bool-cases, inl, inr, ◌⊎◌,
}
use susun.Plan.Naming.{
  dash, to_ascii_lowercase, normalize_chars, trim_dashes, normalize_part, normalize_parts,
}

-- A lower-case letter or a digit.
abbrev pub is_start : ℕ → Bool
is_start c = leb 97 c && leb c 122 || is_ascii_digit c

-- What a part holds, and a name, in which `_` may join the parts.
abbrev pub is_part_char : ℕ → Bool
is_part_char c = is_start c || c == dash

abbrev pub is_name_char : ℕ → Bool
is_name_char c = is_part_char c || c == 95

abbrev pub starts : Text → Bool
starts [] = false
starts (c ∷ s) = is_start c

module _ (test : ℕ → Bool) where
  pub all_chars-append :
      (s t : Text) → all_chars test (s ++ t) ≡ (all_chars test s && all_chars test t)
  all_chars-append [] t = refl
  all_chars-append (c ∷ s) t = ground (arith, all_chars-append s t)

  all_chars-reverse : (s : Text) → all_chars test (reverse s) ≡ all_chars test s
  all_chars-reverse [] = refl
  all_chars-reverse (c ∷ s) =
      rw (reverse-append (c ∷ []) s)
        (ground (arith, all_chars-append (reverse s) (c ∷ []), all_chars-reverse s))

is_start-to_ascii_lowercase :
    (c : ℕ) → is_ascii_alphanumeric c ≡ true → is_start (to_ascii_lowercase c) ≡ true
is_start-to_ascii_lowercase c h = ground arith

all_chars-normalize_chars :
    (p : Bool) (s : Text) → all_chars is_part_char (normalize_chars p s) ≡ true
unfolding normalize_chars
all_chars-normalize_chars p [] = refl
all_chars-normalize_chars p (c ∷ s) = elim (Bool-cases (is_ascii_alphanumeric c)) [
  | inl letter ↦
      rw (letter, normalize_chars)
        (ground (arith, is_start-to_ascii_lowercase c letter, all_chars-normalize_chars false s))
  | inr other ↦ elim (Bool-cases p) [
    | inl again ↦ rw (other, again, normalize_chars) (all_chars-normalize_chars true s)
    | inr first ↦
        rw (other, first, normalize_chars) (ground (arith, all_chars-normalize_chars true s))
  ]
]

all_chars-trim_dashes :
    (s : Text) → all_chars is_part_char s ≡ true → all_chars is_part_char (trim_dashes s) ≡ true
all_chars-trim_dashes [] h = refl
all_chars-trim_dashes (c ∷ s) h = elim (Bool-cases (c == dash)) [
  | inl trimmed ↦ rw (trimmed, trim_dashes) (all_chars-trim_dashes s (ground (arith, h)))
  | inr kept ↦ rw (kept, trim_dashes) h
]

trim_dashes-append :
    (s : Text) (c : ℕ) → (c == dash) ≡ false → trim_dashes (s ++ c ∷ []) ≡ trim_dashes s ++ c ∷ []
trim_dashes-append [] c h = rw (h, trim_dashes) refl
trim_dashes-append (d ∷ s) c h = elim (Bool-cases (d == dash)) [
  | inl trimmed ↦ rw (trimmed, trim_dashes) (trim_dashes-append s c h)
  | inr kept ↦ rw (kept, trim_dashes) refl
]

trim_dashes-first :
    (s : Text) (c : ℕ) (rest : Text) → trim_dashes s ≡ c ∷ rest → (c == dash) ≡ false
trim_dashes-first [] c rest h = cc
trim_dashes-first (d ∷ s) c rest h = elim (Bool-cases (d == dash)) [
  | inl trimmed ↦ trim_dashes-first s c rest (rw (trimmed, trim_dashes) at h)
  | inr kept ↦
      let same : d ∷ s ≡ c ∷ rest = rw (kept, trim_dashes) at h in ground (arith, same, kept)
]

-- A part, or a name.
pub record IsShaped (test : ℕ → Bool) (p : Text) : Type 0 where
  pub chars : all_chars test p ≡ true
  pub first : starts p ≡ true

trimmed_end :
    (t : Text)
    → all_chars is_part_char t ≡ true
    → ((c : ℕ) (rest : Text) → t ≡ c ∷ rest → (c == dash) ≡ false)
    → (reverse (trim_dashes (reverse t)) ≡ [])
      ⊎ IsShaped is_part_char (reverse (trim_dashes (reverse t)))
trimmed_end [] h f = inl refl
trimmed_end (c ∷ s) h f =
    let other = f c s refl in
    let eq : reverse (trim_dashes (reverse (c ∷ s))) ≡ c ∷ reverse (trim_dashes (reverse s)) =
      rw
        (
          reverse-append (c ∷ []) s,
          trim_dashes-append (reverse s) c other,
          reverse-append (trim_dashes (reverse s)) (c ∷ []),
        )
        refl in
    let rest : all_chars is_part_char (reverse s) ≡ true =
      ground (arith, all_chars-reverse is_part_char s, h) in
    inr (
      rw eq (record {
        chars = ground (
          arith,
          h,
          all_chars-reverse is_part_char (trim_dashes (reverse s)),
          all_chars-trim_dashes (reverse s) rest,
        );
        first = ground (arith, h, other);
      }))

normalize_part-shape :
    (p : Text) → (normalize_part p ≡ []) ⊎ IsShaped is_part_char (normalize_part p)
unfolding normalize_part
normalize_part-shape p =
    let t = trim_dashes (normalize_chars false p) in
    trimmed_end t
      (all_chars-trim_dashes (normalize_chars false p) (all_chars-normalize_chars false p))
      (λ c rest h. trim_dashes-first (normalize_chars false p) c rest h)

unfoldable pub AllShaped : List Text → Type 0
AllShaped [] = Unit
AllShaped (p ∷ parts) = IsShaped is_part_char p × AllShaped parts

pub normalize_parts-AllShaped : (parts : List Text) → AllShaped (normalize_parts parts)
unfolding normalize_parts AllShaped
normalize_parts-AllShaped [] = tt
normalize_parts-AllShaped (p ∷ parts) =
    kept (normalize_part p) (normalize_part-shape p) (normalize_parts-AllShaped parts)
  where
    kept :
        (n : Text)
        → (n ≡ []) ⊎ IsShaped is_part_char n
        → AllShaped (normalize_parts parts)
        → AllShaped
            (elim n [ [] ↦ normalize_parts parts | c ∷ s ↦ (c ∷ s) ∷ normalize_parts parts ])
    kept [] h rest = rest
    kept (c ∷ s) (inl h) rest = cc
    kept (c ∷ s) (inr shaped) rest = (shaped, rest)
