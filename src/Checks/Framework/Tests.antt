-- ===== src/Checks/Framework/Tests.antt =====
-- A check of one broken finding, run on a live service and on one that is deactivated.
use mathlib.Core.List.{Memᴰ}
use migration_status_check.Base.Dict
use migration_status_check.Base.{
  String, ◌≡◌, ◌↔◌, refl, true, false, none, some, [], ◌∷◌, map, returns, raises, List, ◌≢◌, arith,
  eq_iff, string_eq,
}
use migration_status_check.Models.Status.{Status, critical, broken, derive_status}
use migration_status_check.Models.Scope.{Scope, no_selectors, is_deactivated}
use migration_status_check.Models.Finding.{Finding, finding, CheckResult}
use migration_status_check.Models.Value.{str}
use migration_status_check.Checks.Config.{options, enabled, severity}
use migration_status_check.Checks.Framework.{
  Check, CheckContext, has_baseline, deactivation_check_id, state, applies_to, result_row,
  run_check,
}
use migration_status_check.Checks.Framework.Blocking.{
  IsDue, Blocked, no_baseline, off, failed, run_check-Blocked, run_check-measured,
}
use migration_status_check.Checks.Framework.Failure.{run_check-fail, run_check-raises_iff}

abbrev peer_down : Finding
peer_down = finding broken "peer down"

abbrev peers : Check
peers = record {
  id = "bgp_state";
  title = "BGP";
  label = "BGP";
  mode = state;
  requires = "bgp" ∷ [];
  service_types = none;
  service_subtypes = none;
  excluded_subtypes = none;
  default_severity = critical;
  layer1 = false;
  order = 0;
  run = λ ctx. returns (peer_down ∷ []);
}

abbrev live : Scope
live = record {
  id = "ge-0/0/2.113";
  kind = "service";
  key = none;
  selectors = no_selectors;
  routing_instance_active = true;
  interface_active = true;
}

abbrev context : CheckContext
context = record {
  scope = live;
  subject = [];
  baseline = none;
  config = record { raw = [] };
  failed_collectors = [];
  baseline_scope = none;
  link = none;
  baseline_collectors = [];
}

abbrev context_off : CheckContext
context_off = record context { scope = record live { interface_active = false } }

peers-IsDue : IsDue peers context critical
unfolding enabled severity options applies_to
peers-IsDue = record { enabled_check = refl; applies = refl; severe = refl }

peers-IsDue_off : IsDue peers context_off critical
unfolding enabled severity options applies_to
peers-IsDue_off = record { enabled_check = refl; applies = refl; severe = refl }

other_check : ◌≢◌ {A = String} "bgp_state" deactivation_check_id
other_check = ground (arith, eq_iff {A = String} "bgp_state" deactivation_check_id)

peers_off : Blocked peers context_off
unfolding is_deactivated
peers_off = off other_check refl

peers_free : ¬ Blocked peers context
unfolding is_deactivated Dict.get
peers_free (no_baseline m n) = cc
peers_free (off ne d) = cc
peers_free (failed area message m h) = cc

run_check-Blocked_example :
    (row : CheckResult) × (run_check peers context_off ≡ returns (row ∷ []))
    × (row.status ≡ Status.skip)
    × (row.id ≡ "bgp_state")
    × (row.label ≡ some "BGP")
run_check-Blocked_example = run_check-Blocked peers context_off critical peers-IsDue_off peers_off

run_check-measured_example :
    (run_check peers context ≡ returns (map (result_row peers critical) (peer_down ∷ [])))
    × (map (λ row. row.status) (map (result_row peers critical) (peer_down ∷ []))
        ≡ map (λ f. derive_status f.outcome critical) (peer_down ∷ []))
run_check-measured_example =
    run_check-measured peers context critical (peer_down ∷ []) peers-IsDue peers_free refl

run_check-fail_example :
    (findings : List Finding) × (f : Finding) × (peers.run context ≡ returns findings)
    × Memᴰ f findings
    × (f.outcome ≡ broken)
    × (severity context.config "bgp_state" critical ≡ returns critical)
unfolding run_check has_baseline result_row
run_check-fail_example =
    run_check-fail peers context (result_row peers critical peer_down ∷ [])
      (result_row peers critical peer_down) run_check-measured_example.0 (Memᴰ.head refl) refl

abbrev misconfigured : CheckContext
misconfigured = record context {
  config = record { raw = ("bgp_state", ("severity", str "hard") ∷ []) ∷ [] };
}

run_check-raises_iff_example :
    (run_check peers misconfigured ≡ raises "is not a valid Severity") ↔ (
      (enabled misconfigured.config "bgp_state" ≡ true)
      × (applies_to peers live ≡ true)
      × (severity misconfigured.config "bgp_state" critical ≡ raises "is not a valid Severity"))
run_check-raises_iff_example = run_check-raises_iff peers misconfigured "is not a valid Severity"
