-- ===== src/Checks/Framework/Failure.antt =====
-- Where a FAIL row comes from, and when `run_check` raises.
use mathlib.Core.List.{Memᴰ}
use migration_status_check.Base.{
  String, ◌≡◌, ◌↔◌, inl, inr, refl, ap, sym, ◌∙◌, Bool, true, false, not, Option, none, some, List,
  [], ◌∷◌, map, Result, returns, raises, ◌>>=◌, Result-cases, arith, string_eq, subst,
  if◌then◌else◌,
}
use migration_status_check.Models.Status.{fail, Severity, critical, Outcome, broken, derive_status}
use migration_status_check.Models.Finding.{Finding, CheckResult}
use migration_status_check.Checks.Config.{enabled, severity}
use migration_status_check.Checks.Framework.{
  Check, CheckContext, applies_to, result_row, run_rows, after_collectors, guarded_rows, run_check,
}
use migration_status_check.Checks.Framework.Blocking.{OneSkip, OneSkip-or-free}

mem-map :
    {A B : Type 0} (g : A → B) (xs : List A) (y : B)
    → Memᴰ y (map g xs)
    → (x : A) × Memᴰ x xs × (y ≡ g x)
mem-map g [] y m = elim m [ ]
mem-map g (x ∷ xs) y (Memᴰ.head e) = (x, Memᴰ.head refl, e)
mem-map g (x ∷ xs) y (Memᴰ.tail m) = let (z, mz, e) = mem-map g xs y m in (z, Memᴰ.tail mz, e)

-- The source of a FAIL row.
abbrev FailSource : Check → CheckContext → Severity → Type 0
FailSource check ctx sev =
    (findings : List Finding) × (f : Finding) × (check.run ctx ≡ returns findings)
    × Memᴰ f findings
    × (f.outcome ≡ broken)
    × (sev ≡ critical)

not_fail_of_OneSkip :
    (check : Check) (rows : List CheckResult) (row : CheckResult)
    → OneSkip check rows
    → Memᴰ row rows
    → row.status ≡ fail
    → ⊥
not_fail_of_OneSkip check rows row (skipped, e, status, _, _) m h =
    absurd (fails (subst (Memᴰ row) e m))
  where
    fails : Memᴰ row (skipped ∷ []) → ⊥
    fails (Memᴰ.head same) = ground (arith, same, status, h)
    fails (Memᴰ.tail m') = elim m' [ ]

broken_of_fail :
    (o : Outcome) (sev : Severity) → derive_status o sev ≡ fail → (o ≡ broken) × (sev ≡ critical)
unfolding derive_status
broken_of_fail o sev h = ground arith

fail-run_rows :
    (check : Check) (ctx : CheckContext) (sev : Severity) (r : Result (List Finding))
    (row : CheckResult)
    → check.run ctx ≡ r
    → Memᴰ row (run_rows check sev r)
    → row.status ≡ fail
    → FailSource check ctx sev
unfolding run_rows result_row derive_status
fail-run_rows check ctx sev (returns findings) row ran m h =
    let (f, mf, e) = mem-map (result_row check sev) findings row m in
    let (b, c) = broken_of_fail f.outcome sev (sym (ap (λ r. r.status) e) ∙ h) in
    (findings, f, ran, mf, b, c)
fail-run_rows check ctx sev (raises error) row ran m h =
    absurd (not_fail_of_OneSkip check _ row (_, refl, refl, refl, refl) m h)

fail-after_collectors :
    (check : Check) (ctx : CheckContext) (sev : Severity) (first : Option (String × String))
    (row : CheckResult)
    → Memᴰ row (after_collectors check ctx sev first)
    → row.status ≡ fail
    → FailSource check ctx sev
unfolding after_collectors
fail-after_collectors check ctx sev none row m h =
    fail-run_rows check ctx sev (check.run ctx) row refl m h
fail-after_collectors check ctx sev (some (area, message)) row m h =
    absurd (not_fail_of_OneSkip check _ row (_, refl, refl, refl, refl) m h)

fail-guarded_rows :
    (check : Check) (ctx : CheckContext) (sev : Severity) (row : CheckResult)
    → Memᴰ row (guarded_rows check ctx sev)
    → row.status ≡ fail
    → FailSource check ctx sev
fail-guarded_rows check ctx sev row m h = elim (OneSkip-or-free check ctx sev) [
  | inl one ↦ absurd (not_fail_of_OneSkip check _ row one m h)
  | inr free ↦ fail-after_collectors check ctx sev _ row (subst (Memᴰ row) free.2 m) h
]

returns_injective : (xs ys : List CheckResult) → returns xs ≡ returns ys → xs ≡ ys
returns_injective xs ys e = cc

not_mem_of_returns_nil :
    (rows : List CheckResult) (row : CheckResult) → returns [] ≡ returns rows → ¬ Memᴰ row rows
not_mem_of_returns_nil [] row e m = elim m [ ]
not_mem_of_returns_nil (r ∷ rows) row e m = cc

gate-mem :
    (b c : Bool) (r : Result (List CheckResult)) (rows : List CheckResult) (row : CheckResult)
    → (if not b then returns [] else if not c then returns [] else r) ≡ returns rows
    → Memᴰ row rows
    → r ≡ returns rows
gate-mem true true r rows row e m = e
gate-mem true false r rows row e m = absurd (not_mem_of_returns_nil rows row e m)
gate-mem false c r rows row e m = absurd (not_mem_of_returns_nil rows row e m)

mem-run_check :
    (check : Check) (ctx : CheckContext) (sev : Severity) (rows : List CheckResult)
    (row : CheckResult)
    → severity ctx.config check.id check.default_severity ≡ returns sev
    → run_check check ctx ≡ returns rows
    → Memᴰ row rows
    → Memᴰ row (guarded_rows check ctx sev)
unfolding run_check
mem-run_check check ctx sev rows row severe e m =
    let open_gate =
      gate-mem (enabled ctx.config check.id) (applies_to check ctx.scope) _ rows row e m in
    subst (Memᴰ row) (sym (returns_injective _ _ (rw severe at open_gate))) m

no_row :
    (check : Check) (ctx : CheckContext) (error : String) (rows : List CheckResult)
    (row : CheckResult)
    → severity ctx.config check.id check.default_severity ≡ raises error
    → run_check check ctx ≡ returns rows
    → Memᴰ row rows
    → ⊥
unfolding run_check
no_row check ctx error rows row severe e m =
    let open_gate =
      gate-mem (enabled ctx.config check.id) (applies_to check ctx.scope) _ rows row e m in
    cc (severe, open_gate)

-- A row of any check is FAIL only if the check really ran, one of its findings is BROKEN, and the
-- configured severity of the check is critical.
pub run_check-fail :
    (check : Check) (ctx : CheckContext) (rows : List CheckResult) (row : CheckResult)
    → run_check check ctx ≡ returns rows
    → Memᴰ row rows
    → row.status ≡ fail
    → (findings : List Finding) × (f : Finding) × (check.run ctx ≡ returns findings)
      × Memᴰ f findings
      × (f.outcome ≡ broken)
      × (severity ctx.config check.id check.default_severity ≡ returns critical)
run_check-fail check ctx rows row e m h =
    elim (Result-cases (severity ctx.config check.id check.default_severity)) [
      | inl w ↦
          let guarded : Memᴰ row (guarded_rows check ctx w.0) =
            mem-run_check check ctx w.0 rows row w.1 e m in
          let (findings, f, ran, mf, b, c) = fail-guarded_rows check ctx w.0 row guarded h in
          (findings, f, ran, mf, b, w.1 ∙ ap returns c)
      | inr w ↦ absurd (no_row check ctx w.0 rows row w.1 e m)
    ]

gate-raises :
    (b c : Bool) (r : Result (List CheckResult)) (error : String)
    → (if not b then returns [] else if not c then returns [] else r) ≡ raises error
    → (b ≡ true) × (c ≡ true) × (r ≡ raises error)
gate-raises true true r error e = (refl, refl, e)
gate-raises true false r error e = cc
gate-raises false c r error e = cc

raises_of_bind :
    (r : Result Severity) (f : Severity → List CheckResult) (error : String)
    → (r >>= λ sev. returns (f sev)) ≡ raises error
    → r ≡ raises error
raises_of_bind (returns sev) f error e = cc
raises_of_bind (raises error') f error e = cc

-- `run_check` raises exactly when the check is enabled and meant for the scope and its configured
-- severity is not valid, with that error; an exception of the check's own `run` never leaves it.
pub run_check-raises_iff :
    (check : Check) (ctx : CheckContext) (error : String)
    → (run_check check ctx ≡ raises error) ↔ (
        (enabled ctx.config check.id ≡ true)
        × (applies_to check ctx.scope ≡ true)
        × (severity ctx.config check.id check.default_severity ≡ raises error))
unfolding run_check
run_check-raises_iff check ctx error = (
  λ e.
      let (b, c, r) =
        gate-raises (enabled ctx.config check.id) (applies_to check ctx.scope) _ error e in
      (b, c, raises_of_bind (severity ctx.config check.id check.default_severity) _ error r),
  λ due. rw (due.0, due.1, due.2),
)
