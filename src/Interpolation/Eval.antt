-- ===== src/Interpolation/Eval.antt =====
-- crates/susun-loader/src/interpolation/eval.rs: the value of a tokenised scalar.
use susun.Prelude.{
  Bool, true, false, ◌&&◌, Option, none, some, List, [], ◌∷◌, ◌++◌, Text, text, if◌then◌else◌,
}
use susun.Source.{Span}
use susun.Diagnostics.{Diagnostic, error, new_diagnostic, with_label, primary_label}
use susun.Diagnostics.Report.{DiagnosticReport}
use susun.Diagnostics.Report
use susun.Environment.{EnvResolver, resolve}
use susun.Interpolation.Tokens.{
  Token, literal, escaped_dollar, substitute, with_default, required, unmatched_brace, invalid_expr,
  parse,
}

abbrev pub is_empty : Text → Bool
is_empty [] = true
is_empty (c ∷ s) = false

abbrev pub unwrap_or_empty : Option Text → Text
unwrap_or_empty none = []
unwrap_or_empty (some v) = v

-- The `match &value` that both `WithDefault` and `Required` make.
abbrev pub is_missing : Bool → Option Text → Bool
is_missing check_empty none = true
is_missing check_empty (some v) = check_empty && is_empty v

abbrev pub required_message : (name message : Text) → Text
required_message name [] = text "required variable `" ++ (name ++ text "` is not set")
required_message name (c ∷ message) = text "`" ++ (name ++ (text "` is not set: " ++ (c ∷ message)))

abbrev pub required_diagnostic : Span → (name message : Text) → Diagnostic
required_diagnostic span name message =
    with_label (new_diagnostic (text "SUS-ENV-001") error (required_message name message))
      (primary_label span (text "required here"))

-- One arm of the loop: what the token appends to the output, and the report after it.
unfoldable pub eval_token : EnvResolver → Span → Token → DiagnosticReport → Text × DiagnosticReport
eval_token env span (literal s) report = (s, report)
eval_token env span escaped_dollar report = (b'$' ∷ [], report)
eval_token env span (substitute name) report = (unwrap_or_empty (resolve env name), report)
eval_token env span (with_default name check_empty default) report =
    let value = resolve env name in
    (if is_missing check_empty value then default else unwrap_or_empty value, report)
eval_token env span (required name check_empty message) report =
    let value = resolve env name in
    if is_missing check_empty value
    then ([], Report.push report (required_diagnostic span name message))
    else (unwrap_or_empty value, report)
eval_token env span (unmatched_brace content) report = (b'$' ∷ b'{' ∷ content, report)
eval_token env span (invalid_expr content) report = (b'$' ∷ b'{' ∷ (content ++ b'}' ∷ []), report)

unfoldable pub eval_tokens :
    EnvResolver → Span → List Token → (output : Text) → DiagnosticReport → Text × DiagnosticReport
unfolding eval_token
eval_tokens env span [] output report = (output, report)
eval_tokens env span (t ∷ ts) output report =
    let (s, report') = eval_token env span t report in eval_tokens env span ts (output ++ s) report'

unfoldable pub interpolate : Text → EnvResolver → Span → DiagnosticReport → Text × DiagnosticReport
unfolding parse eval_tokens
interpolate input env span report = eval_tokens env span (parse input) [] report
