-- ===== src/Models/Status/Tests.antt =====
-- Tests and instances for the statuses.
use migration_status_check.Base.{◌≡◌, ◌↔◌, ◌⊎◌, refl, List, [], ◌∷◌}
use migration_status_check.Models.Status.{
  Status, Outcome, pass, recv, warn, fail, critical, advisory, ok, recovered, unchanged, degraded,
  broken, max_by_rank, worst, count_statuses, derive_status,
}
use migration_status_check.Models.Status.Laws.{derive_status-exact}

abbrev mixed : List Status
mixed = Status.info ∷ recv ∷ warn ∷ []

worst_of_mixed : worst (pass ∷ mixed) ≡ warn
unfolding worst max_by_rank
worst_of_mixed = refl

worst_of_none : worst [] ≡ Status.skip
unfolding worst
worst_of_none = refl

count_of_mixed : (count_statuses (pass ∷ mixed)).warn ≡ 1
unfolding count_statuses
count_of_mixed = refl

derive_status-exact_example :
    (derive_status degraded critical ≡ fail ↔ (degraded ≡ broken) × (critical ≡ critical))
    × (derive_status degraded critical ≡ warn
        ↔ (degraded ≡ degraded) ⊎ ((degraded ≡ broken) × (critical ≡ advisory)))
    × (derive_status degraded critical ≡ pass ↔ (degraded ≡ ok) ⊎ (degraded ≡ unchanged))
    × (derive_status degraded critical ≡ recv ↔ (degraded ≡ recovered))
    × (derive_status degraded critical ≡ Status.info ↔ (degraded ≡ Outcome.info))
    × (derive_status degraded critical ≡ Status.skip ↔ (degraded ≡ Outcome.skip))
derive_status-exact_example = derive_status-exact degraded critical
