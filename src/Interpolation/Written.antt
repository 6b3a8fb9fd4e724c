-- ===== src/Interpolation/Written.antt =====
-- crates/susun-loader/src/interpolation/parser.rs: input that is written in the documented forms.
use mathlib.Core.List.{append_assoc, append-nil}
use susun.Prelude.{
  ◌≡◌, ◌≢◌, refl, ◌∙◌, ap, sym, true, false, not, ◌||◌, [], ◌∷◌, ◌++◌, arith, Text, ◌==◌, all_chars,
  is_ascii_alphanumeric, span_until,
}
use susun.Interpolation.Tokens.{
  Token, literal, escaped_dollar, substitute, with_default, required, unmatched_brace, invalid_expr,
  ends_name, first_valid, parse_operator, parse_braced, flush, scan, scan_braced, parse,
}
use susun.Interpolation.Coverage.{inner, spelling}

-- A name as the documentation gives it: `[A-Za-z_][A-Za-z0-9_]*`.
abbrev pub IsName : Text → Type 0
IsName name =
    (first_valid name ≡ true) × (all_chars (λ c. is_ascii_alphanumeric c || c == b'_') name ≡ true)

-- The operand ends at the first `}`, so it holds none.
abbrev pub IsOperand : Text → Type 0
IsOperand s = all_chars (λ c. not (c == b'}')) s ≡ true

-- The expressions of the documentation: a valid name, and an operand without a brace.
abbrev pub IsWritten : Token → Type 0
IsWritten escaped_dollar = Unit
IsWritten (substitute name) = IsName name
IsWritten (with_default name check_empty default) = IsName name × IsOperand default
IsWritten (required name check_empty message) = IsName name × IsOperand message
IsWritten _ = ⊥

span_until-name :
    (name rest : Text)
    → all_chars (λ c. is_ascii_alphanumeric c || c == b'_') name ≡ true
    → (span_until ends_name rest).0 ≡ []
    → (span_until ends_name rest).1 ≡ rest
    → span_until ends_name (name ++ rest) ≡ (name, rest)
span_until-name [] rest h e0 e1 = ground arith
span_until-name (c ∷ name) rest h e0 e1 = ground (arith, span_until-name name rest)

scan_braced-inner :
    (content s rest : Text)
    → all_chars (λ c. not (c == b'}')) s ≡ true
    → scan_braced content (s ++ b'}' ∷ rest) ≡ parse_braced (content ++ s) ∷ scan [] rest
unfolding scan
scan_braced-inner content [] rest h = rw append-nil
scan_braced-inner content (c ∷ s) rest h =
    ground (arith, scan_braced-inner (content ++ c ∷ []) s rest, append_assoc content (c ∷ []) s)

-- What stands behind the name does not start with a character of a name.
abbrev Ends : Text → Type 0
Ends rest = ((span_until ends_name rest).0 ≡ []) × ((span_until ends_name rest).1 ≡ rest)

parse_braced-name :
    (name rest : Text)
    → IsName name
    → Ends rest
    → parse_braced (name ++ rest) ≡ parse_operator name rest (name ++ rest)
unfolding parse_braced
parse_braced-name name rest h e = rw (span_until-name name rest h.1 e.0 e.1, h.0)

parse_braced-inner : (t : Token) → IsWritten t → t ≢ escaped_dollar → parse_braced (inner t) ≡ t
unfolding parse_operator
parse_braced-inner (literal s) h n = absurd h
parse_braced-inner escaped_dollar h n = absurd (n refl)
parse_braced-inner (substitute name) h n =
    ap parse_braced (sym (append-nil name)) ∙ parse_braced-name name [] h (refl, refl)
parse_braced-inner (with_default name true d) h n =
    parse_braced-name name (b':' ∷ b'-' ∷ d) h.0 (refl, refl)
parse_braced-inner (with_default name false d) h n =
    parse_braced-name name (b'-' ∷ d) h.0 (refl, refl)
parse_braced-inner (required name true d) h n =
    parse_braced-name name (b':' ∷ b'?' ∷ d) h.0 (refl, refl)
parse_braced-inner (required name false d) h n = parse_braced-name name (b'?' ∷ d) h.0 (refl, refl)
parse_braced-inner (unmatched_brace s) h n = absurd h
parse_braced-inner (invalid_expr s) h n = absurd h

name-IsOperand :
    (name : Text)
    → all_chars (λ c. is_ascii_alphanumeric c || c == b'_') name ≡ true
    → IsOperand name
name-IsOperand [] h = refl
name-IsOperand (c ∷ name) h = ground (arith, name-IsOperand name)

IsOperand-append : (s u : Text) → IsOperand s → IsOperand u → IsOperand (s ++ u)
IsOperand-append [] u hs hu = hu
IsOperand-append (c ∷ s) u hs hu = ground (arith, IsOperand-append s u)

inner-IsOperand : (t : Token) → IsWritten t → IsOperand (inner t)
inner-IsOperand (literal s) h = absurd h
inner-IsOperand escaped_dollar h = refl
inner-IsOperand (substitute name) h = name-IsOperand name h.1
inner-IsOperand (with_default name true d) h =
    IsOperand-append name (b':' ∷ b'-' ∷ d) (name-IsOperand name h.0.1) h.1
inner-IsOperand (with_default name false d) h =
    IsOperand-append name (b'-' ∷ d) (name-IsOperand name h.0.1) h.1
inner-IsOperand (required name true d) h =
    IsOperand-append name (b':' ∷ b'?' ∷ d) (name-IsOperand name h.0.1) h.1
inner-IsOperand (required name false d) h =
    IsOperand-append name (b'?' ∷ d) (name-IsOperand name h.0.1) h.1
inner-IsOperand (unmatched_brace s) h = absurd h
inner-IsOperand (invalid_expr s) h = absurd h

scan-braced :
    (t : Token) (rest : Text)
    → IsWritten t
    → t ≢ escaped_dollar
    → scan [] (b'$' ∷ b'{' ∷ (inner t ++ b'}' ∷ []) ++ rest) ≡ t ∷ scan [] rest
unfolding scan flush
scan-braced t rest h n = rw (
  append_assoc,
  scan_braced-inner [] (inner t) rest (inner-IsOperand t h),
  parse_braced-inner t h n,
)

-- An expression in one of the documented forms (and `$$`) is read as itself, whatever follows it:
-- the name is valid and the operand holds no closing brace.
pub parse-spelling :
    (t : Token) (rest : Text) → IsWritten t → parse (spelling t ++ rest) ≡ t ∷ parse rest
unfolding parse flush
parse-spelling (literal s) rest h = absurd h
parse-spelling escaped_dollar rest h = refl
parse-spelling (substitute name) rest h = scan-braced (substitute name) rest h (λ e. cc)
parse-spelling (with_default name b d) rest h = scan-braced (with_default name b d) rest h (λ e. cc)
parse-spelling (required name b d) rest h = scan-braced (required name b d) rest h (λ e. cc)
parse-spelling (unmatched_brace s) rest h = absurd h
parse-spelling (invalid_expr s) rest h = absurd h
