-- ===== src/Checks/Baseline/Laws.antt =====
-- When a bad outcome may count as unchanged.
use migration_status_check.Base.{
  ◌≡◌, ◌≢◌, ◌↔◌, ◌⊎◌, inl, inr, Bool, true, false, arith, String, none, Bool-cases, eq_false_of_ne,
  string_eq, if◌then◌else◌, ◌&&◌,
}
use migration_status_check.Base.Dict
use migration_status_check.Models.Status.{ok, recovered, Outcome, broken, degraded, unchanged}
use migration_status_check.Checks.Framework.{CheckContext, has_baseline, baseline_measured}
use migration_status_check.Checks.Baseline.{is_bad, unchanged_or}

abbrev gate : Outcome → Bool → Bool → Outcome
gate o same measured = if is_bad o then (if same && measured then unchanged else o) else o

gate_iff :
    (o : Outcome) (same measured : Bool)
    → (gate o same measured ≡ unchanged)
      ↔ ((o ≡ unchanged) ⊎ (((o ≡ broken) ⊎ (o ≡ degraded)) × (same ≡ true) × (measured ≡ true)))
gate_iff o same measured = (λ h. ground arith, λ h. ground arith)

gate_shut : (o : Outcome) (same : Bool) → gate o same false ≡ o
gate_shut o same = ground arith

unmeasured :
    (ctx : CheckContext) (area : String)
    → Dict.get ctx.baseline_collectors area ≡ none
    → area ≢ "ping"
    → baseline_measured ctx area ≡ false
unfolding baseline_measured
unmeasured ctx area missing ne = elim (Bool-cases (has_baseline ctx)) [
  | inl e ↦ rw (e, eq_false_of_ne area "ping" ne, missing)
  | inr e ↦ rw e
]

-- An outcome becomes UNCHANGED exactly when it is broken or degraded, the fault is the same as in
-- the baseline, and the baseline measured the area (or it was UNCHANGED before).
unchanged_or-unchanged_iff :
    (o : Outcome) (ctx : CheckContext) (area : String) (same : Bool)
    → (unchanged_or o ctx area same ≡ unchanged) ↔ (
        (o ≡ unchanged)
        ⊎ (((o ≡ broken) ⊎ (o ≡ degraded)) × (same ≡ true) × (baseline_measured ctx area ≡ true)))
unfolding unchanged_or
unchanged_or-unchanged_iff o ctx area same = gate_iff o same (baseline_measured ctx area)

-- A baseline without a record of the area's collector changes no outcome of that area (other than
-- the ping): no fault of the new device passes as one that the old device had.
pub unchanged_or-unmeasured :
    (o : Outcome) (ctx : CheckContext) (area : String) (same : Bool)
    → Dict.get ctx.baseline_collectors area ≡ none
    → area ≢ "ping"
    → unchanged_or o ctx area same ≡ o
unfolding unchanged_or
unchanged_or-unmeasured o ctx area same missing ne =
    rw (unmeasured ctx area missing ne) (gate_shut o same)

pub unchanged_or-broken :
    (ctx : CheckContext) (area : String) (same : Bool)
    → unchanged_or broken ctx area same ≡ unchanged
    → (same ≡ true) × (baseline_measured ctx area ≡ true)
unfolding unchanged_or
unchanged_or-broken ctx area same h = (ground (arith, h), ground (arith, h))

pub unchanged_or-bad :
    (ctx : CheckContext) (area : String) (same : Bool)
    → ¬ ((unchanged_or broken ctx area same ≡ ok) ⊎ (unchanged_or broken ctx area same ≡ recovered))
unfolding unchanged_or
unchanged_or-bad ctx area same (inl h) = ground (arith, h)
unchanged_or-bad ctx area same (inr h) = ground (arith, h)
