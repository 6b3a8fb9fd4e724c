-- ===== src/Interpolation/Outcome.antt =====
-- crates/susun-loader/src/interpolation/eval.rs: what interpolation reports.
use susun.Prelude.{◌≡◌, refl, Bool, false, ◌||◌, List, [], ◌∷◌, ◌++◌, arith, Text}
use susun.Source.{Span}
use susun.Diagnostics.{Diagnostic}
use susun.Diagnostics.Report.{DiagnosticReport, push, has_errors, any_error}
use susun.Environment.{EnvResolver, resolve}
use susun.Interpolation.Tokens.{Token, required, parse}
use susun.Interpolation.Eval.{is_missing, required_diagnostic, eval_token, eval_tokens, interpolate}

-- A required variable that is not set (or empty, where that counts).
abbrev pub lacks : EnvResolver → Token → Bool
lacks env (required name check_empty message) = is_missing check_empty (resolve env name)
lacks env _ = false

abbrev pub any_lacks : EnvResolver → List Token → Bool
any_lacks env [] = false
any_lacks env (t ∷ ts) = lacks env t || any_lacks env ts

any_error-append : (xs ys : List Diagnostic) → any_error (xs ++ ys) ≡ (any_error xs || any_error ys)
any_error-append [] ys = refl
any_error-append (x ∷ xs) ys = ground (arith, any_error-append xs ys)

module _ (env : EnvResolver) (span : Span) where
  eval_token-has_errors :
      (t : Token) (report : DiagnosticReport)
      → has_errors (eval_token env span t report).1 ≡ (has_errors report || lacks env t)
  unfolding eval_token has_errors push
  eval_token-has_errors (required name check_empty message) report = ground (
    arith,
    any_error-append report.diagnostics
        (record (required_diagnostic span name message) { ordinal = report.next_ordinal } ∷ []),
  )
  eval_token-has_errors _ report = ground arith

  eval_tokens-has_errors :
      (ts : List Token) (output : Text) (report : DiagnosticReport)
      → has_errors (eval_tokens env span ts output report).1
        ≡ (has_errors report || any_lacks env ts)
  unfolding eval_tokens
  eval_tokens-has_errors [] output report = ground arith
  eval_tokens-has_errors (t ∷ ts) output report =
      let (s, after) = eval_token env span t report in
      ground (arith, eval_token-has_errors t report, eval_tokens-has_errors ts (output ++ s) after)

  -- After interpolation the report has errors exactly if it had some before, or if the text holds a
  -- required variable that is missing.
  pub interpolate-has_errors :
      (input : Text) (report : DiagnosticReport)
      → has_errors (interpolate input env span report).1
        ≡ (has_errors report || any_lacks env (parse input))
  unfolding interpolate
  interpolate-has_errors input report = eval_tokens-has_errors (parse input) [] report
