-- ===== src/Checks/Ifaces/Laws.antt =====
-- When the check of the state of interfaces is content (migration_validator/checks/ifaces.py).
use migration_status_check.Base.Dict.{Dict}
use migration_status_check.Base.{
  String, Bool, true, false, not, ◌&&◌, Option, some, List, [], ◌∷◌, ◌++◌, all, ◌==◌, string_eq,
  option_eq, returns, ◌≡◌, refl, ap, Bool-cases, inl, inr, arith, eq_iff, ◌≢◌, ◌⊎◌,
}
use migration_status_check.Models.Value.{Value}
use migration_status_check.Models.Value.Access.{table_at}
use migration_status_check.Models.Status.{Outcome, ok, broken, unchanged}
use migration_status_check.Models.Finding.{Finding}
use migration_status_check.Checks.Framework.{CheckContext, baseline_measured}
use migration_status_check.Checks.Baseline.Laws.{unchanged_or-broken, unchanged_or-bad}
use migration_status_check.Checks.Bgp.{unknown}
use migration_status_check.Checks.Ifaces.{
  own_interfaces, state_in, state_before, state_outcome, state_row, state_rows, run_interface_state,
  state_rows_or_skip,
}

abbrev pub is_ok : Outcome → Bool
is_ok ok = true
is_ok _ = false

-- Both states of the interface are "up".
abbrev pub is_up : CheckContext → String → Bool
is_up ctx name = state_in ctx name "admin_status" == "up" && state_in ctx name "oper_status" == "up"

not_ok : (o : Outcome) → (¬ ((o ≡ ok) ⊎ (o ≡ Outcome.recovered))) → is_ok o ≡ false
not_ok ok h = absurd (h (inl refl))
not_ok Outcome.recovered h = refl
not_ok broken h = refl
not_ok unchanged h = refl
not_ok Outcome.degraded h = refl
not_ok Outcome.info h = refl
not_ok Outcome.skip h = refl

state_outcome-is_ok :
    (ctx : CheckContext) (state : String) (was_state : Option String)
    → is_ok (state_outcome ctx state was_state) ≡ (state == "up")
unfolding state_outcome
state_outcome-is_ok ctx state was_state = elim (Bool-cases (state == "up")) [
  | inl q ↦ rw q refl
  | inr q ↦ rw q (
      not_ok _
        (unchanged_or-bad ctx "interfaces" (not (state == unknown) && was_state == some state)))
]

all-append : (p : Finding → Bool) (xs ys : List Finding) → all p (xs ++ ys) ≡ (all p xs && all p ys)
all-append p [] ys = refl
all-append p (x ∷ xs) ys = ground (arith, all-append p xs ys)

state_rows-is_ok :
    (ctx : CheckContext) (names : List String)
    → all (λ f. is_ok f.outcome) (state_rows ctx names) ≡ all (is_up ctx) names
unfolding state_rows state_row
state_rows-is_ok ctx [] = refl
state_rows-is_ok ctx (name ∷ names) =
    let row_ok = λ (key : String).
      state_outcome-is_ok ctx (state_in ctx name key) (state_before ctx name key) in
    ground (arith, row_ok "admin_status", row_ok "oper_status", state_rows-is_ok ctx names)

state_outcome-unchanged :
    (ctx : CheckContext) (state : String) (was_state : Option String)
    → state_outcome ctx state was_state ≡ unchanged
    → (state ≢ unknown) × (was_state ≡ some state) × (baseline_measured ctx "interfaces" ≡ true)
unfolding state_outcome
state_outcome-unchanged ctx state was_state h = elim (Bool-cases (state == "up")) [
  | inl q ↦ absurd (ground (arith, q, h))
  | inr q ↦
      let (same, measured) =
        unchanged_or-broken ctx "interfaces" (not (state == unknown) && was_state == some state)
          (ground (arith, q, h)) in
      (
        λ e. ground (arith, same, (eq_iff state unknown).1 e),
        (eq_iff was_state (some state)).0 (ground (arith, same)),
        measured,
      )
]

rows_of_some :
    (ctx : CheckContext) (interfaces : Dict String Value)
    → interfaces ≢ []
    → state_rows_or_skip ctx interfaces ≡ state_rows ctx (own_interfaces ctx)
rows_of_some ctx [] h = absurd (h refl)
rows_of_some ctx (e ∷ es) h = refl

-- Where interfaces were collected, the check is content with all rows exactly if all interfaces of
-- the block are up, administratively and operationally; and a row of a state other than "up" is
-- UNCHANGED only if the state is known, the baseline had the same one, and the collector of the
-- baseline measured interfaces.
pub run_interface_state-is_up :
    (ctx : CheckContext)
    → table_at ctx.subject "interfaces" ≢ []
    → (fs : List Finding) × (run_interface_state ctx ≡ returns fs)
      × (all (λ f. is_ok f.outcome) fs ≡ all (is_up ctx) (own_interfaces ctx))
      × ((name : String) (column : String × String)
          → (state_row ctx name column).outcome ≡ unchanged
          → (state_in ctx name column.1 ≢ unknown)
            × (state_before ctx name column.1 ≡ some (state_in ctx name column.1))
            × (baseline_measured ctx "interfaces" ≡ true))
unfolding run_interface_state state_row
run_interface_state-is_up ctx measured = (
  state_rows ctx (own_interfaces ctx),
  ap returns (rows_of_some ctx (table_at ctx.subject "interfaces") measured),
  state_rows-is_ok ctx (own_interfaces ctx),
  λ name column h.
      state_outcome-unchanged ctx (state_in ctx name column.1) (state_before ctx name column.1) h,
)
