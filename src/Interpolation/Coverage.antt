-- ===== src/Interpolation/Coverage.antt =====
-- crates/susun-loader/src/interpolation/parser.rs: the input text of the tokens.
use susun.Prelude.{
  ◌≡◌, refl, sym, ◌∙◌, ap, true, false, List, [], ◌∷◌, ◌++◌, arith, Text, Bool-cases, inl, inr,
  span_until, span_until-append,
}
use mathlib.Core.List.{append_assoc, append-nil}
use susun.Interpolation.Tokens.{
  Token, literal, escaped_dollar, substitute, with_default, required, unmatched_brace, invalid_expr,
  ends_name, first_valid, parse_operator, parse_braced, flush, scan, after_dollar, scan_braced,
  parse,
}

-- What stands between the braces.
abbrev pub inner : Token → Text
inner (substitute name) = name
inner (with_default name true default) = name ++ (b':' ∷ b'-' ∷ default)
inner (with_default name false default) = name ++ (b'-' ∷ default)
inner (required name true message) = name ++ (b':' ∷ b'?' ∷ message)
inner (required name false message) = name ++ (b'?' ∷ message)
inner (unmatched_brace content) = content
inner (invalid_expr content) = content
inner _ = []

-- The text that a token was read from.
abbrev pub spelling : Token → Text
spelling (literal s) = s
spelling escaped_dollar = (b'$' ∷ b'$' ∷ [])
spelling (unmatched_brace content) = b'$' ∷ b'{' ∷ content
spelling t = b'$' ∷ b'{' ∷ (inner t ++ b'}' ∷ [])

abbrev pub render : List Token → Text
render [] = []
render (t ∷ ts) = spelling t ++ render ts

inner-parse_operator :
    (name rest content : Text)
    → name ++ rest ≡ content
    → inner (parse_operator name rest content) ≡ content
unfolding parse_operator
inner-parse_operator name [] content h = sym (append-nil name) ∙ h
inner-parse_operator name (c ∷ []) content h = ground arith
inner-parse_operator name (c ∷ d ∷ rest) content h = ground arith

spelling-parse_operator :
    (name rest content : Text)
    → spelling (parse_operator name rest content)
      ≡ b'$' ∷ b'{' ∷ (inner (parse_operator name rest content) ++ b'}' ∷ [])
unfolding parse_operator
spelling-parse_operator name [] content = refl
spelling-parse_operator name (c ∷ []) content = ground arith
spelling-parse_operator name (c ∷ d ∷ rest) content = ground arith

spelling-parse_braced :
    (content : Text) → spelling (parse_braced content) ≡ b'$' ∷ b'{' ∷ (content ++ b'}' ∷ [])
unfolding parse_braced
spelling-parse_braced content = elim (Bool-cases (first_valid (span_until ends_name content).0)) [
  | inl e ↦ rw e (
      spelling-parse_operator (span_until ends_name content).0 (span_until ends_name content).1
        content
      ∙ ap (λ s. b'$' ∷ b'{' ∷ (s ++ b'}' ∷ []))
          (inner-parse_operator (span_until ends_name content).0 (span_until ends_name content).1
            content (span_until-append ends_name content)))
  | inr e ↦ rw e
]

render-flush : (pending : Text) (ts : List Token) → render (flush pending ts) ≡ pending ++ render ts
unfolding flush
render-flush [] ts = refl
render-flush (c ∷ pending) ts = refl

mutual
  unfolding scan after_dollar scan_braced

  render-scan : (pending rest : Text) → render (scan pending rest) ≡ pending ++ rest
  render-scan pending [] = render-flush pending []
  render-scan pending (c ∷ rest) = ground (
    arith,
    render-flush pending (after_dollar rest),
    render-after_dollar rest,
    render-scan (pending ++ c ∷ []) rest,
    append_assoc pending (c ∷ []) rest,
  )

  render-after_dollar : (rest : Text) → render (after_dollar rest) ≡ b'$' ∷ rest
  render-after_dollar [] = refl
  render-after_dollar (c ∷ rest) =
      ground
        (arith, render-scan [] rest, render-scan (b'$' ∷ c ∷ []) rest, render-scan_braced [] rest)

  render-scan_braced :
      (content rest : Text) → render (scan_braced content rest) ≡ b'$' ∷ b'{' ∷ (content ++ rest)
  render-scan_braced content [] = refl
  render-scan_braced content (c ∷ rest) = ground (
    arith,
    spelling-parse_braced content,
    render-scan [] rest,
    render-scan_braced (content ++ c ∷ []) rest,
    append_assoc content (c ∷ []) rest,
    append_assoc content (b'}' ∷ []) rest,
  )

-- The tokens of a text, each spelled as it was read, make the text again: no character of the input
-- is dropped, added or moved.
pub render-parse : (input : Text) → render (parse input) ≡ input
unfolding parse
render-parse input = render-scan [] input
