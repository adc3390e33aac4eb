-- ===== src/Engine/Order/Laws.antt =====
-- The status of a scope from the statuses of its checks (`_run_scope` in
-- migration_validator/engine.py).
use migration_status_check.Base.{
  ◌≡◌, refl, ap, ◌∙◌, Bool, true, false, not, ◌||◌, List, [], ◌∷◌, map, filter, any, arith,
}
use migration_status_check.Models.Status.{
  Status, pass, recv, skip, warn, fail, info, worse, max_by_rank, worst,
}
use migration_status_check.Models.Finding.{CheckResult}
use migration_status_check.Engine.Order.{scope_status, status_or_skip, is_skip}

abbrev pub is_fail : Status → Bool
is_fail fail = true
is_fail _ = false

worse-is_fail : (a b : Status) → is_fail (worse a b) ≡ (is_fail a || is_fail b)
worse-is_fail pass b = ground arith
worse-is_fail recv b = ground arith
worse-is_fail skip b = ground arith
worse-is_fail warn b = ground arith
worse-is_fail fail b = ground arith
worse-is_fail info b = ground arith

max_by_rank-is_fail :
    (ss : List Status) (best : Status)
    → is_fail (max_by_rank best ss) ≡ (is_fail best || any is_fail ss)
unfolding max_by_rank
max_by_rank-is_fail [] best = ground arith
max_by_rank-is_fail (s ∷ ss) best =
    ground (arith, max_by_rank-is_fail ss (worse best s), worse-is_fail best s)

any-filter_skip :
    (ss : List Status) → any is_fail (filter (λ s. not (is_skip s)) ss) ≡ any is_fail ss
any-filter_skip [] = refl
any-filter_skip (skip ∷ ss) = any-filter_skip ss
any-filter_skip (pass ∷ ss) = any-filter_skip ss
any-filter_skip (recv ∷ ss) = any-filter_skip ss
any-filter_skip (warn ∷ ss) = any-filter_skip ss
any-filter_skip (info ∷ ss) = any-filter_skip ss
any-filter_skip (fail ∷ ss) = refl

any-map_status :
    (results : List CheckResult)
    → any is_fail (map (λ r. r.status) results) ≡ any (λ r. is_fail r.status) results
any-map_status [] = refl
any-map_status (r ∷ rs) = ap (λ b. is_fail r.status || b) (any-map_status rs)

status_or_skip-is_fail : (ss : List Status) → is_fail (status_or_skip ss) ≡ any is_fail ss
unfolding worst
status_or_skip-is_fail [] = refl
status_or_skip-is_fail (s ∷ ss) = max_by_rank-is_fail ss s

-- A scope is FAIL exactly when one of its checks has a FAIL row: no number of skipped or passed
-- rows hides it, and nothing else makes it.
pub scope_status-is_fail :
    (results : List CheckResult)
    → is_fail (scope_status results) ≡ any (λ r. is_fail r.status) results
unfolding scope_status
scope_status-is_fail results =
    status_or_skip-is_fail (filter (λ s. not (is_skip s)) (map (λ r. r.status) results))
    ∙ (any-filter_skip (map (λ r. r.status) results) ∙ any-map_status results)
