-- ===== src/Interpolation/Examples.antt =====
-- Interpolation at some texts, and the theorems there.
use susun.Prelude.{◌≡◌, refl, true, false, none, [], ◌∷◌, ◌||◌, Text, text}
use susun.Source.{Span}
use susun.Diagnostics.Report.{DiagnosticReport, has_errors}
use susun.Environment.{EnvResolver, resolve, find_in}
use susun.Interpolation.Tokens.{
  Token, literal, escaped_dollar, with_default, parse, scan, after_dollar, scan_braced,
  parse_braced, parse_operator, flush,
}
use susun.Interpolation.Coverage.{render, render-parse}
use susun.Interpolation.Eval.{interpolate, eval_tokens, eval_token}
use susun.Interpolation.Escaping.{escape, interpolate-escape}
use susun.Interpolation.Outcome.{any_lacks, interpolate-has_errors}
use susun.Interpolation.Written.{IsWritten, parse-spelling}

-- `postgres://${HOST:-db}:$$PORT`
abbrev url : Text
url = text "pg://${HOST:-db}:$$PORT"

parse-url_test :
    parse url
    ≡ literal (text "pg://")
      ∷ with_default (text "HOST") true (text "db")
      ∷ literal (text ":")
      ∷ escaped_dollar
      ∷ literal (text "PORT")
      ∷ []
unfolding parse scan after_dollar scan_braced parse_braced parse_operator flush
parse-url_test = refl

-- Only `HOST` is set, in the `.env` file.
abbrev host_only : EnvResolver
host_only = record {
  process = λ _. none;
  env_file = [];
  dotenv =
      (record {
        key = text "HOST";
        value = text "here";
        key_span = record { source_id = 0; start = 0; end = 4 };
      })
      ∷ [];
}

abbrev here : Span
here = record { source_id = 0; start = 0; end = 9 }

abbrev no_report : DiagnosticReport
no_report = record { diagnostics = []; next_ordinal = 0 }

interpolate-url_test :
    interpolate url host_only here no_report ≡ (text "pg://here:$PORT", no_report)
unfolding interpolate eval_tokens eval_token resolve find_in parse scan after_dollar scan_braced
    parse_braced parse_operator flush
interpolate-url_test = refl

render-parse_example : render (parse (text "${A?}$x")) ≡ text "${A?}$x"
render-parse_example = render-parse (text "${A?}$x")

interpolate-escape_example :
    interpolate (escape (text "a$HOST")) host_only here no_report ≡ (text "a$HOST", no_report)
interpolate-escape_example = interpolate-escape host_only here no_report (text "a$HOST")

interpolate-has_errors_example :
    has_errors (interpolate (text "${PORT:?}") host_only here no_report).1
    ≡ (has_errors no_report || any_lacks host_only (parse (text "${PORT:?}")))
interpolate-has_errors_example = interpolate-has_errors host_only here (text "${PORT:?}") no_report

abbrev port_or_80 : Token
port_or_80 = with_default (text "PORT") false (text "80")

port_or_80-IsWritten : IsWritten port_or_80
port_or_80-IsWritten = ((refl, refl), refl)

parse-spelling_example : parse (text "${PORT-80}/$x") ≡ port_or_80 ∷ parse (text "/$x")
parse-spelling_example = parse-spelling port_or_80 (text "/$x") port_or_80-IsWritten
