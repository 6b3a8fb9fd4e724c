-- ===== src/Interpolation/Tokens.antt =====
-- crates/susun-loader/src/interpolation/parser.rs: the tokens of a Compose scalar.
-- A token's text is a slice of the input; positions in the input are not kept by the source, and
-- the loop's slice `input[literal_start..pos]` is the argument `pending` here.
use susun.Prelude.{
  ℕ, ◌≡◌, refl, Bool, true, false, not, ◌||◌, List, [], ◌∷◌, ◌++◌, Text, text, ◌==◌, if◌then◌else◌,
  is_ascii_alphabetic, is_ascii_alphanumeric, span_until, starts_with, drop,
}

pub data Token : Type 0 where
  literal : Text → Token
  escaped_dollar : Token
  substitute : (name : Text) → Token
  with_default : (name : Text) (check_empty : Bool) (default : Text) → Token
  required : (name : Text) (check_empty : Bool) (message : Text) → Token
  unmatched_brace : (content : Text) → Token
  invalid_expr : (content : Text) → Token

-- The characters at which the scan of the name stops.
abbrev pub ends_name : ℕ → Bool
ends_name c = not (is_ascii_alphanumeric c || c == b'_')

-- `name.starts_with(|c| c.is_ascii_alphabetic() || c == '_')`
abbrev pub first_valid : Text → Bool
first_valid [] = false
first_valid (c ∷ s) = is_ascii_alphabetic c || c == b'_'

-- The `match rest` of `parse_braced`, its arms in order.
unfoldable pub parse_operator : (name rest content : Text) → Token
parse_operator name [] content = substitute name
parse_operator name (c ∷ s) content =
    if starts_with ((b':' ∷ b'-' ∷ [])) (c ∷ s)
    then with_default name true (drop 2 (c ∷ s))
    else if starts_with ((b'-' ∷ [])) (c ∷ s)
    then with_default name false (drop 1 (c ∷ s))
    else if starts_with ((b':' ∷ b'?' ∷ [])) (c ∷ s)
    then required name true (drop 2 (c ∷ s))
    else if starts_with ((b'?' ∷ [])) (c ∷ s)
    then required name false (drop 1 (c ∷ s))
    else invalid_expr content

unfoldable pub parse_braced : Text → Token
unfolding parse_operator
parse_braced content =
    let (name, rest) = span_until ends_name content in
    if first_valid name then parse_operator name rest content else invalid_expr content

-- "Flush any preceding literal segment", in front of the tokens that follow.
unfoldable pub flush : Text → List Token → List Token
flush [] tokens = tokens
flush (c ∷ pending) tokens = literal (c ∷ pending) ∷ tokens

-- The main loop, the state after a `$`, and the inner loop that looks for `}`.
unfoldable mutual
  unfolding flush parse_braced

  pub scan : (pending rest : Text) → List Token
  scan pending [] = flush pending []
  scan pending (c ∷ rest) = elim (c == b'$') [
    | true ↦ flush pending (after_dollar rest)
    | false ↦ scan (pending ++ c ∷ []) rest
  ]

  -- In the last arm the source resets `literal_start` to the `$` and reads `c`, no `$`, again: its
  -- next round appends it to that literal.
  pub after_dollar : (rest : Text) → List Token
  after_dollar [] = literal ((b'$' ∷ [])) ∷ []
  after_dollar (c ∷ rest) = elim (c == b'$') [
    | true ↦ escaped_dollar ∷ scan [] rest
    | false ↦ elim (c == b'{') [ true ↦ scan_braced [] rest | false ↦ scan (b'$' ∷ c ∷ []) rest ]
  ]

  pub scan_braced : (content rest : Text) → List Token
  scan_braced content [] = unmatched_brace content ∷ []
  scan_braced content (c ∷ rest) = elim (c == b'}') [
    | true ↦ parse_braced content ∷ scan [] rest
    | false ↦ scan_braced (content ++ c ∷ []) rest
  ]

unfoldable pub parse : Text → List Token
unfolding scan after_dollar scan_braced
parse input = scan [] input

parse_test :
    parse (text "a$b$$${X:-y}${1}${Z?}${")
    ≡ literal (text "a")
      ∷ literal (text "$b")
      ∷ escaped_dollar
      ∷ with_default (text "X") true (text "y")
      ∷ invalid_expr (text "1")
      ∷ required (text "Z") false []
      ∷ unmatched_brace []
      ∷ []
unfolding parse
parse_test = refl
