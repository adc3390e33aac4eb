-- ===== src/Checks/Framework/Blocking.antt =====
-- Which rows `run_check` gives (migration_validator/checks/base.py).
use mathlib.Core.List.{Memᴰ}
use migration_status_check.Base.Dict
use migration_status_check.Base.{
  String, ◌≡◌, ◌≢◌, ◌⊎◌, inl, inr, refl, ap, true, false, none, some, List, [], ◌∷◌, map, returns,
  arith, Bool-cases, Option-cases, string_eq, eq_iff,
}
use migration_status_check.Models.Status.{Status, Severity, derive_status}
use migration_status_check.Models.Scope.{is_deactivated}
use migration_status_check.Models.Finding.{Finding, CheckResult}
use migration_status_check.Checks.Config.{enabled, severity}
use migration_status_check.Checks.Framework.{
  Check, CheckContext, has_baseline, applies_to, is_compare, lacks_baseline, is_off,
  deactivation_check_id, first_failed, skip_rows, result_row, run_rows, after_collectors,
  guarded_rows, run_check,
}

-- The check is enabled, is meant for the scope, and its severity is well configured.
pub record IsDue (check : Check) (ctx : CheckContext) (sev : Severity) : Type 0 where
  pub enabled_check : enabled ctx.config check.id ≡ true
  pub applies : applies_to check ctx.scope ≡ true
  pub severe : severity ctx.config check.id check.default_severity ≡ returns sev

run_check_of_IsDue :
    (check : Check) (ctx : CheckContext) (sev : Severity)
    → IsDue check ctx sev
    → run_check check ctx ≡ returns (guarded_rows check ctx sev)
unfolding run_check
run_check_of_IsDue check ctx sev due = rw (due.enabled_check, due.applies, due.severe)

-- A reason for which a check must not measure: it compares and there is no baseline, the service
-- is deactivated, or a collector that it requires failed.
pub data Blocked (check : Check) (ctx : CheckContext) : Type 0 where
  no_baseline : is_compare check.mode ≡ true → has_baseline ctx ≡ false → Blocked check ctx
  off : check.id ≢ deactivation_check_id → is_deactivated ctx.scope ≡ true → Blocked check ctx
  failed :
      (area message : String)
      → Memᴰ area check.requires
      → Dict.get ctx.failed_collectors area ≡ some message
      → Blocked check ctx

abbrev pub OneSkip : Check → List CheckResult → Type 0
OneSkip check rows =
    (row : CheckResult) × (rows ≡ row ∷ [])
    × (row.status ≡ Status.skip)
    × (row.id ≡ check.id)
    × (row.label ≡ some check.label)

none_of_first_failed :
    (d : Dict.Dict String String) (area : String) (areas : List String)
    → Memᴰ area areas
    → first_failed d areas ≡ none
    → Dict.get d area ≡ none
unfolding first_failed
none_of_first_failed d area [] m h = elim m [ ]
none_of_first_failed d area (a ∷ areas) (Memᴰ.head e) h = ground (arith, e)
none_of_first_failed d area (a ∷ areas) (Memᴰ.tail m) h =
    none_of_first_failed d area areas m (ground arith)

failed-after_collectors :
    (check : Check) (ctx : CheckContext) (sev : Severity) (area message : String)
    → Memᴰ area check.requires
    → Dict.get ctx.failed_collectors area ≡ some message
    → OneSkip check
        (after_collectors check ctx sev (first_failed ctx.failed_collectors check.requires))
unfolding after_collectors skip_rows
failed-after_collectors check ctx sev area message m h =
    elim (Option-cases (first_failed ctx.failed_collectors check.requires)) [
      | inl e ↦ absurd (cc (h, none_of_first_failed ctx.failed_collectors area check.requires m e))
      | inr w ↦ rw w.1 (_, refl, refl, refl, refl)
    ]

lacks_baseline-guarded_rows :
    (check : Check) (ctx : CheckContext) (sev : Severity)
    → lacks_baseline check ctx ≡ true
    → OneSkip check (guarded_rows check ctx sev)
unfolding guarded_rows
lacks_baseline-guarded_rows check ctx sev e = rw e (_, refl, refl, refl, refl)

is_off-guarded_rows :
    (check : Check) (ctx : CheckContext) (sev : Severity)
    → lacks_baseline check ctx ≡ false
    → is_off check ctx ≡ true
    → OneSkip check (guarded_rows check ctx sev)
unfolding guarded_rows
is_off-guarded_rows check ctx sev e d = rw (e, d) (_, refl, refl, refl, refl)

guarded_rows_free :
    (check : Check) (ctx : CheckContext) (sev : Severity)
    → lacks_baseline check ctx ≡ false
    → is_off check ctx ≡ false
    → guarded_rows check ctx sev
      ≡ after_collectors check ctx sev (first_failed ctx.failed_collectors check.requires)
unfolding guarded_rows
guarded_rows_free check ctx sev e d = rw (e, d)

-- The rows of a check are those behind the collectors, or one SKIP.
pub OneSkip-or-free :
    (check : Check) (ctx : CheckContext) (sev : Severity)
    → OneSkip check (guarded_rows check ctx sev)
      ⊎ ((lacks_baseline check ctx ≡ false)
          × (is_off check ctx ≡ false)
          × (guarded_rows check ctx sev
              ≡ after_collectors check ctx sev (first_failed ctx.failed_collectors check.requires)))
OneSkip-or-free check ctx sev = elim (Bool-cases (lacks_baseline check ctx)) [
  | inl e ↦ inl (lacks_baseline-guarded_rows check ctx sev e)
  | inr e ↦ elim (Bool-cases (is_off check ctx)) [
    | inl d ↦ inl (is_off-guarded_rows check ctx sev e d)
    | inr d ↦ inr (e, d, guarded_rows_free check ctx sev e d)
  ]
]

Blocked-guarded_rows :
    (check : Check) (ctx : CheckContext) (sev : Severity)
    → Blocked check ctx
    → OneSkip check (guarded_rows check ctx sev)
Blocked-guarded_rows check ctx sev b = go b (OneSkip-or-free check ctx sev)
  where
    go :
        Blocked check ctx
        → OneSkip check (guarded_rows check ctx sev)
          ⊎ ((lacks_baseline check ctx ≡ false)
              × (is_off check ctx ≡ false)
              × (guarded_rows check ctx sev
                  ≡ after_collectors check ctx sev
                      (first_failed ctx.failed_collectors check.requires)))
        → OneSkip check (guarded_rows check ctx sev)
    go b (inl done) = done
    go (no_baseline m n) (inr (e, d, f)) = absurd (ground (arith, e, m, n))
    go (off ne k) (inr (e, d, f)) =
        absurd (ground (arith, d, k, eq_iff check.id deactivation_check_id))
    go (failed area message m h) (inr (e, d, f)) =
        rw f (failed-after_collectors check ctx sev area message m h)

-- A due check that is blocked gives exactly one row, a SKIP under the check's own id and label,
-- whatever its `run` would have measured.
pub run_check-Blocked :
    (check : Check) (ctx : CheckContext) (sev : Severity)
    → IsDue check ctx sev
    → Blocked check ctx
    → (row : CheckResult) × (run_check check ctx ≡ returns (row ∷ []))
      × (row.status ≡ Status.skip)
      × (row.id ≡ check.id)
      × (row.label ≡ some check.label)
run_check-Blocked check ctx sev due b =
    let (row, e, s, i, l) = Blocked-guarded_rows check ctx sev b in
    (row, rw (run_check_of_IsDue check ctx sev due) (ap returns e), s, i, l)

first_failed_sound :
    (d : Dict.Dict String String) (areas : List String) (p : String × String)
    → first_failed d areas ≡ some p
    → Memᴰ p.0 areas × (Dict.get d p.0 ≡ some p.1)
unfolding first_failed
first_failed_sound d [] p h = cc
first_failed_sound d (a ∷ areas) p h = elim (Option-cases (Dict.get d a)) [
  | inl e ↦ let (m, g) = first_failed_sound d areas p (ground arith) in (Memᴰ.tail m, g)
  | inr w ↦ (Memᴰ.head (ground (arith, w.1)), ground (arith, w.1))
]

free_tests :
    (check : Check) (ctx : CheckContext)
    → ¬ Blocked check ctx
    → (lacks_baseline check ctx ≡ false)
      × (is_off check ctx ≡ false)
      × (first_failed ctx.failed_collectors check.requires ≡ none)
free_tests check ctx free = (lacks, is_live, first)
  where
    lacks : lacks_baseline check ctx ≡ false
    lacks = elim (Bool-cases (lacks_baseline check ctx)) [
      | inl e ↦ absurd (free (no_baseline (ground arith) (ground arith)))
      | inr e ↦ e
    ]

    is_live : is_off check ctx ≡ false
    is_live = elim (Bool-cases (is_off check ctx)) [
      | inl e ↦ absurd (
          free (
            off (λ same. ground (arith, same, eq_iff check.id deactivation_check_id, e))
              (ground (arith, e))))
      | inr e ↦ e
    ]

    first : first_failed ctx.failed_collectors check.requires ≡ none
    first = elim (Option-cases (first_failed ctx.failed_collectors check.requires)) [
      | inl e ↦ e
      | inr w ↦
          let (m, g) = first_failed_sound ctx.failed_collectors check.requires w.0 w.1 in
          absurd (free (failed (w.0).0 (w.0).1 m g))
    ]

map-status :
    (check : Check) (sev : Severity) (findings : List Finding)
    → map (λ row. row.status) (map (result_row check sev) findings)
      ≡ map (λ f. derive_status f.outcome sev) findings
unfolding result_row
map-status check sev [] = refl
map-status check sev (f ∷ fs) = ap (◌∷◌ (derive_status f.outcome sev)) (map-status check sev fs)

-- A due check that nothing blocks and whose `run` returns gives one row for each finding, in
-- their order, with the status derived from the finding's outcome.
pub run_check-measured :
    (check : Check) (ctx : CheckContext) (sev : Severity) (findings : List Finding)
    → IsDue check ctx sev
    → ¬ Blocked check ctx
    → check.run ctx ≡ returns findings
    → (run_check check ctx ≡ returns (map (result_row check sev) findings))
      × (map (λ row. row.status) (map (result_row check sev) findings)
          ≡ map (λ f. derive_status f.outcome sev) findings)
unfolding after_collectors run_rows
run_check-measured check ctx sev findings due free ran =
    let (has, live, first) = free_tests check ctx free in
    (
      rw
          (
            run_check_of_IsDue check ctx sev due,
            guarded_rows_free check ctx sev has live,
            first,
            ran,
          )
          refl,
      map-status check sev findings,
    )
