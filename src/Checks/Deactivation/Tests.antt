-- ===== src/Checks/Deactivation/Tests.antt =====
-- A service that ran in the baseline and is off now.
use migration_status_check.Base.{◌≡◌, refl, true, false, none, some, [], List, map, returns}
use migration_status_check.Models.Status.{critical}
use migration_status_check.Models.Scope.{Scope, no_selectors, is_deactivated}
use migration_status_check.Models.Finding.{CheckResult}
use migration_status_check.Checks.Config.{options, enabled, severity}
use migration_status_check.Checks.Framework.{CheckContext, applies_to, run_check}
use migration_status_check.Checks.Framework.Blocking.{IsDue}
use migration_status_check.Checks.Deactivation.{baseline_off, deactivation_check}
use migration_status_check.Checks.Deactivation.Laws.{expected_statuses, deactivation_check-statuses}

abbrev before : Scope
before = record {
  id = "irb.15";
  kind = "service";
  key = none;
  selectors = no_selectors;
  routing_instance_active = true;
  interface_active = true;
}

abbrev now_off : CheckContext
now_off = record {
  scope = record before { routing_instance_active = false };
  subject = [];
  baseline = some [];
  config = record { raw = [] };
  failed_collectors = [];
  baseline_scope = some before;
  link = none;
  baseline_collectors = [];
}

due : IsDue deactivation_check now_off critical
unfolding enabled severity options applies_to
due = record { enabled_check = refl; applies = refl; severe = refl }

deactivation_check-statuses_example :
    (rows : List CheckResult) × (run_check deactivation_check now_off ≡ returns rows)
    × (map (λ row. row.status) rows
        ≡ expected_statuses (is_deactivated now_off.scope) (baseline_off now_off) critical)
deactivation_check-statuses_example = deactivation_check-statuses now_off critical due
