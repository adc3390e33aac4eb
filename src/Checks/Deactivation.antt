-- ===== src/Checks/Deactivation.antt =====
-- The check of a service's deactivation (migration_validator/checks/deactivation.py).
pub mod Laws
mod Tests
use migration_status_check.Base.{
  String, Bool, true, false, Option, none, some, List, [], ◌∷◌, Result, returns, concat,
  show_option, map,
}
use migration_status_check.Models.Status.{Severity, critical, Outcome, broken, degraded, recovered}
use migration_status_check.Models.Scope.{Scope, is_deactivated, deactivation_reason}
use migration_status_check.Models.Finding.{Finding, finding}
use migration_status_check.Checks.Framework.{Check, CheckContext, Mode, both, deactivation_check_id}

abbrev pub active_text : String
active_text = "aktivni"

-- `deactivation_outcome`: no baseline (`none`) is not a baseline in which the service ran.
unfoldable pub deactivation_outcome : Bool → Option Bool → Option Outcome
deactivation_outcome false none = none
deactivation_outcome false (some false) = none
deactivation_outcome true (some false) = some broken
deactivation_outcome true none = some degraded
deactivation_outcome true (some true) = some degraded
deactivation_outcome false (some true) = some degraded

abbrev pub baseline_off : CheckContext → Option Bool
baseline_off ctx = elim ctx.baseline_scope [ none ↦ none | some s ↦ some (is_deactivated s) ]

abbrev pub baseline_reason : CheckContext → Option String
baseline_reason ctx = elim ctx.baseline_scope [ none ↦ none | some s ↦ deactivation_reason s ]

-- The finding of the check, by the branches of its `run`.
unfoldable pub deactivation_finding :
    Option Outcome → Bool → Option Bool → Option String → Option String → List Finding
deactivation_finding none off was reason was_reason = []
deactivation_finding (some o) true none reason was_reason =
    (record (finding o (
      concat (
        "sluzba je v konfiguraci deaktivovana ("
        ∷ show_option reason
        ∷ "), baseline neni k porovnani"
        ∷ []))) { label = some "Deaktivace"; value = reason })
    ∷ []
deactivation_finding (some o) true (some true) reason was_reason =
    (record (finding o (
      concat ("sluzba je deaktivovana (" ∷ show_option reason ∷ ") stejne jako v baseline" ∷ []))) {
        label = some "Deaktivace";
        value = reason;
        baseline_value = was_reason;
      })
    ∷ []
deactivation_finding (some o) true (some false) reason was_reason =
    (record (finding o (
      concat (
        "sluzba v baseline bezela, ted je deaktivovana ("
        ∷ show_option reason
        ∷ ") - migrace nedokoncena"
        ∷ []))) { label = some "Deaktivace"; value = reason; baseline_value = some active_text })
    ∷ []
deactivation_finding (some o) false was reason was_reason =
    (record (finding recovered (
      concat (
        "sluzba byla v baseline deaktivovana ("
        ∷ show_option was_reason
        ∷ "), ted je aktivni"
        ∷ []))) {
          label = some "Deaktivace";
          value = some active_text;
          baseline_value = was_reason;
        })
    ∷ []

-- `DeactivationStateCheck.run`
unfoldable pub run_deactivation : CheckContext → Result (List Finding)
unfolding deactivation_outcome deactivation_finding is_deactivated deactivation_reason
run_deactivation ctx = returns (
    deactivation_finding (deactivation_outcome (is_deactivated ctx.scope) (baseline_off ctx))
      (is_deactivated ctx.scope) (baseline_off ctx) (deactivation_reason ctx.scope)
      (baseline_reason ctx))

abbrev pub deactivation_check : Check
deactivation_check = record {
  id = deactivation_check_id;
  title = "Stav deaktivace sluzby";
  label = "Deaktivace";
  mode = both;
  requires = [];
  service_types = none;
  service_subtypes = none;
  excluded_subtypes = none;
  default_severity = critical;
  layer1 = true;
  order = 0;
  run = run_deactivation;
}
