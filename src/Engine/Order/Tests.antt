-- ===== src/Engine/Order/Tests.antt =====
-- Tests of the status of a scope.
use migration_status_check.Base.{◌≡◌, [], ◌∷◌, any, none}
use migration_status_check.Models.Status.{Status, Severity, skip, fail}
use migration_status_check.Models.Finding.{CheckResult}
use migration_status_check.Engine.Order.{scope_status}
use migration_status_check.Engine.Order.Laws.{is_fail, scope_status-is_fail}

abbrev row : Status → CheckResult
row s = record {
  id = "bgp_state";
  mode = "state";
  status = s;
  severity = Severity.critical;
  message = "";
  label = none;
  group = none;
  family = none;
  value = none;
  baseline_value = none;
  delta = none;
  baseline = none;
  subject = none;
  details = [];
}

scope_status-is_fail_example :
    is_fail (scope_status (row skip ∷ row fail ∷ []))
    ≡ any (λ r. is_fail r.status) (row skip ∷ row fail ∷ [])
scope_status-is_fail_example = scope_status-is_fail (row skip ∷ row fail ∷ [])
