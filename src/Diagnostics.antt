-- ===== src/Diagnostics.antt =====
-- crates/susun-diagnostics: diagnostics, and their labels
-- (src/code.rs, src/diagnostic.rs). The report is in the child module.
pub mod Report
use susun.Prelude.{ℕ, Bool, true, false, Option, none, List, [], ◌∷◌, ◌++◌, Text}
use susun.Source.{Span}

pub data Severity : Type 0 where
  note warning error : Severity

pub record Label : Type 0 where
  pub span : Span
  pub message : Text
  pub primary : Bool

abbrev pub primary_label : Span → Text → Label
primary_label span message = record { span = span; message = message; primary = true }

abbrev pub secondary_label : Span → Text → Label
secondary_label span message = record { span = span; message = message; primary = false }

pub record Diagnostic : Type 0 where
  pub code : Text
  pub severity : Severity
  pub message : Text
  pub labels : List Label
  pub help : Option Text
  pub ordinal : ℕ

abbrev pub new_diagnostic : Text → Severity → Text → Diagnostic
new_diagnostic code severity message = record {
  code = code;
  severity = severity;
  message = message;
  labels = [];
  help = none;
  ordinal = 0;
}

abbrev pub with_label : Diagnostic → Label → Diagnostic
with_label d label = record d { labels = d.labels ++ label ∷ [] }
