-- ===== src/Checks/Baseline.antt =====
-- The one gate to an unchanged outcome (migration_validator/checks/baseline.py).
pub mod Laws
mod Tests
use migration_status_check.Base.{String, Bool, true, false, ◌&&◌, if◌then◌else◌}
use migration_status_check.Models.Status.{Outcome, broken, degraded, unchanged}
use migration_status_check.Checks.Framework.{CheckContext, baseline_measured}

abbrev pub is_bad : Outcome → Bool
is_bad broken = true
is_bad degraded = true
is_bad _ = false

-- `unchanged_or`
unfoldable pub unchanged_or : Outcome → CheckContext → String → Bool → Outcome
unchanged_or outcome ctx area same =
    if is_bad outcome
    then (if same && baseline_measured ctx area then unchanged else outcome)
    else outcome

abbrev pub unchanged_suffix : String
unchanged_suffix = ", stejne jako v baseline"

-- `suffix`
unfoldable pub suffix : Outcome → String
suffix unchanged = unchanged_suffix
suffix _ = ""
