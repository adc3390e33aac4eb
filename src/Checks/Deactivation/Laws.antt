-- ===== src/Checks/Deactivation/Laws.antt =====
-- The rows of the deactivation check, through the whole framework.
use migration_status_check.Base.{
  ◌≡◌, refl, ◌∙◌, Bool, true, false, Option, none, some, List, [], ◌∷◌, map, returns, String,
}
use migration_status_check.Models.Status.{
  Status, recv, warn, fail, Severity, critical, advisory, derive_status,
}
use migration_status_check.Models.Scope.{is_deactivated}
use migration_status_check.Models.Finding.{CheckResult}
use migration_status_check.Checks.Framework.{CheckContext, run_check}
use migration_status_check.Checks.Framework.Blocking.{
  IsDue, Blocked, no_baseline, off, failed, run_check-measured,
}
use migration_status_check.Checks.Deactivation.{
  deactivation_outcome, deactivation_finding, baseline_off, run_deactivation, deactivation_check,
}

-- The decided table: whether the service is off now, whether it was off in the baseline (`none`
-- if there is no baseline to compare with), and the severity of the check.
abbrev pub expected_statuses : Bool → Option Bool → Severity → List Status
expected_statuses true (some false) critical = fail ∷ []
expected_statuses true (some false) advisory = warn ∷ []
expected_statuses true (some true) sev = warn ∷ []
expected_statuses true none sev = warn ∷ []
expected_statuses false (some true) sev = recv ∷ []
expected_statuses false (some false) sev = []
expected_statuses false none sev = []

statuses_of_finding :
    (now : Bool) (was : Option Bool) (reason was_reason : Option String) (sev : Severity)
    → map
        (λ f. derive_status f.outcome sev)
        (deactivation_finding (deactivation_outcome now was) now was reason was_reason)
      ≡ expected_statuses now was sev
unfolding deactivation_finding deactivation_outcome derive_status
statuses_of_finding true (some false) reason was_reason critical = refl
statuses_of_finding true (some false) reason was_reason advisory = refl
statuses_of_finding true (some true) reason was_reason sev = refl
statuses_of_finding true none reason was_reason sev = refl
statuses_of_finding false (some true) reason was_reason sev = refl
statuses_of_finding false (some false) reason was_reason sev = refl
statuses_of_finding false none reason was_reason sev = refl

never-Blocked : (ctx : CheckContext) → ¬ Blocked deactivation_check ctx
never-Blocked ctx (no_baseline m n) = cc
never-Blocked ctx (off ne d) = ne refl
never-Blocked ctx (failed area message m h) = elim m [ ]

-- The deactivation check, where it is due, always measures, also on a deactivated service. A
-- service that is off now and ran in the baseline is FAIL at critical severity (WARN at advisory),
-- one that was off as well or has no baseline is WARN, one that came back is RECV, and a service
-- that is live and was not off before has no row.
pub deactivation_check-statuses :
    (ctx : CheckContext) (sev : Severity)
    → IsDue deactivation_check ctx sev
    → (rows : List CheckResult) × (run_check deactivation_check ctx ≡ returns rows)
      × (map (λ row. row.status) rows
          ≡ expected_statuses (is_deactivated ctx.scope) (baseline_off ctx) sev)
unfolding run_deactivation
deactivation_check-statuses ctx sev due =
    let (ran, same) =
      run_check-measured deactivation_check ctx sev _ due (never-Blocked ctx) refl in
    (_, ran, same ∙ statuses_of_finding (is_deactivated ctx.scope) (baseline_off ctx) _ _ sev)
