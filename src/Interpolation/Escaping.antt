-- ===== src/Interpolation/Escaping.antt =====
-- crates/susun-loader/src/interpolation: text whose `$` are doubled.
use mathlib.Core.List.{append_assoc, append-nil}
use susun.Prelude.{◌≡◌, refl, List, [], ◌∷◌, ◌++◌, arith, Text, ◌==◌, if◌then◌else◌}
use susun.Source.{Span}
use susun.Diagnostics.Report.{DiagnosticReport}
use susun.Environment.{EnvResolver}
use susun.Interpolation.Tokens.{Token, flush, scan}
use susun.Interpolation.Eval.{eval_token, eval_tokens, interpolate}

-- Every `$` written twice.
abbrev pub escape : Text → Text
escape [] = []
escape (c ∷ s) = let rest = escape s in if c == b'$' then b'$' ∷ b'$' ∷ rest else c ∷ rest

module _ (env : EnvResolver) (span : Span) (report : DiagnosticReport) where
  eval-flush :
      (pending : Text) (ts : List Token) (output : Text)
      → eval_tokens env span (flush pending ts) output report
        ≡ eval_tokens env span ts (output ++ pending) report
  unfolding flush eval_tokens
  eval-flush [] ts output = rw append-nil
  eval-flush (c ∷ pending) ts output = refl

  eval-scan-escape :
      (s pending output : Text)
      → eval_tokens env span (scan pending (escape s)) output report
        ≡ (output ++ (pending ++ s), report)
  unfolding scan eval_tokens eval_token
  eval-scan-escape [] pending output = rw append-nil (eval-flush pending [] output)
  eval-scan-escape (c ∷ s) pending output = ground (
    arith,
    eval-flush pending (Token.escaped_dollar ∷ scan [] (escape s)) output,
    eval-scan-escape s [] ((output ++ pending) ++ b'$' ∷ []),
    eval-scan-escape s (pending ++ c ∷ []) output,
    append_assoc (output ++ pending) (b'$' ∷ []) s,
    append_assoc output pending (b'$' ∷ s),
    append_assoc pending (c ∷ []) s,
  )

  -- A text in which every `$` is doubled interpolates to the text, and no diagnostic is added.
  pub interpolate-escape : (s : Text) → interpolate (escape s) env span report ≡ (s, report)
  unfolding interpolate
  interpolate-escape s = eval-scan-escape s [] []
