-- ===== src/Diagnostics/Report.antt =====
-- crates/susun-diagnostics/src/report.rs: the report that collects diagnostics.
use susun.Prelude.{ℕ, ◌+◌, Bool, true, false, ◌||◌, List, [], ◌∷◌, ◌++◌, length}
use susun.Diagnostics.{Severity, error, Diagnostic}

pub record DiagnosticReport : Type 0 where
  pub diagnostics : List Diagnostic
  pub next_ordinal : ℕ

abbrev pub new : DiagnosticReport
new = record { diagnostics = []; next_ordinal = 0 }

-- The counter is a `u64`, which no run fills.
unfoldable pub push : DiagnosticReport → Diagnostic → DiagnosticReport
push r d = record {
  diagnostics = r.diagnostics ++ record d { ordinal = r.next_ordinal } ∷ [];
  next_ordinal = r.next_ordinal + 1;
}

abbrev pub is_error : Severity → Bool
is_error error = true
is_error _ = false

abbrev pub any_error : List Diagnostic → Bool
any_error [] = false
any_error (d ∷ ds) = is_error d.severity || any_error ds

unfoldable pub has_errors : DiagnosticReport → Bool
has_errors r = any_error r.diagnostics

unfoldable pub len : DiagnosticReport → ℕ
len r = length r.diagnostics

unfoldable pub merge_from : DiagnosticReport → List Diagnostic → DiagnosticReport
unfolding push
merge_from r [] = r
merge_from r (d ∷ ds) = merge_from (push r d) ds

unfoldable pub merge : DiagnosticReport → DiagnosticReport → DiagnosticReport
unfolding merge_from
merge r other = merge_from r other.diagnostics
