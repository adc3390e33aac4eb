-- ===== src/Checks/Bfd/Verdicts.antt =====
-- When a row of the check of BFD sessions is good, and how the check depends on BGP
-- (migration_validator/checks/bfd.py).
use migration_status_check.Base.Dict
use migration_status_check.Base.Dict.{Dict, is_some}
use migration_status_check.Base.Sort.{sorted_set}
use migration_status_check.Base.{
  String, true, not, ◌&&◌, Option, none, some, List, All, All-map, ◌==◌, string_eq, eq_iff, returns,
  arith, ◌≡◌, refl, ap, ◌∙◌, ◌⊎◌, inl, inr, Bool-cases,
}
use migration_status_check.Models.Value.{Value}
use migration_status_check.Models.Value.Access.{
  table_at, value_at, text_at, text_at_or, as_dict, text_or, py_str, or_null,
}
use migration_status_check.Models.Status.{Outcome, ok, recovered, broken, unchanged}
use migration_status_check.Models.Scope.Select.{Record}
use migration_status_check.Models.Finding.{Finding}
use migration_status_check.Checks.Framework.{CheckContext, has_baseline, baseline_measured}
use migration_status_check.Checks.Bgp.{established, unknown, baseline_table, baseline_state, up_row}
use migration_status_check.Checks.Bgp
use migration_status_check.Checks.Baseline.Laws.{unchanged_or-broken, unchanged_or-bad}
use migration_status_check.Checks.Bfd.{
  Measured, session_value, was, has_state, is_ambiguous, down_outcome, bfd_session_row,
  missing_outcome, bfd_missing_row, unclear_row, row_without, row_with, bfd_finding, measure,
  bfd_universe, run_bfd, no_session,
}

text_or_present : (o : Option Value) → text_or "" o ≡ established → text_or unknown o ≡ established
text_or_present none h = cc
text_or_present (some v) h = h

-- The state of BGP that the check of BFD reads is that of a session in the subject.
session_of_state :
    (o : Option Value)
    → text_at_or (as_dict (or_null o)) "state" "" ≡ established
    → (v : Value) × (o ≡ some v) × (text_at_or (as_dict v) "state" unknown ≡ established)
unfolding text_at_or Dict.get
session_of_state none h = cc
session_of_state (some v) h = (v, refl, text_or_present (Dict.get (as_dict v) "state") h)

bfd_missing_row-broken :
    (ctx : CheckContext) (peer : String) (m : Measured)
    → m.configured ≡ true
    → (bfd_missing_row ctx peer m).outcome ≡ broken
    → m.bgp_state ≡ established
unfolding bfd_missing_row
bfd_missing_row-broken ctx peer m c h = elim (Bool-cases (m.bgp_state == established)) [
  | inl q ↦ (eq_iff m.bgp_state established).0 q
  | inr q ↦ ground (arith, c, q, h)
]

row_without-broken :
    (ctx : CheckContext) (peer : String) (m : Measured) (n : Option Value)
    → m.configured ≡ true
    → (row_without ctx peer m n).outcome ≡ broken
    → m.bgp_state ≡ established
unfolding unclear_row
row_without-broken ctx peer m none c h = bfd_missing_row-broken ctx peer m c h
row_without-broken ctx peer m (some n) c h = cc

row_with-broken :
    (ctx : CheckContext) (peer : String) (m : Measured) (s : Option Record)
    → s ≡ none
    → m.configured ≡ true
    → (row_with ctx peer m s).outcome ≡ broken
    → m.bgp_state ≡ established
row_with-broken ctx peer m none e c h = row_without-broken ctx peer m m.ambiguous c h
row_with-broken ctx peer m (some s) e c h = cc

-- A session of BGP that is up is ok or recovered.
abbrev pub IsUp : Outcome → Type 0
IsUp o = (o ≡ ok) ⊎ (o ≡ recovered)

up_row-IsUp :
    (ctx : CheckContext) (peer state : String) (before : Option String)
    → IsUp (up_row ctx peer state before).outcome
unfolding up_row
up_row-IsUp ctx peer state none = inl refl
up_row-IsUp ctx peer state (some w) = elim (Bool-cases (w == state)) [
  | inl q ↦ inl (ground (arith, q))
  | inr q ↦ inr (ground (arith, q))
]

bgp_row-IsUp :
    (ctx : CheckContext) (peer : String) (v : Value)
    → text_at_or (as_dict v) "state" unknown ≡ established
    → IsUp (Bgp.session_row ctx peer v).outcome
unfolding Bgp.session_row
bgp_row-IsUp ctx peer v h =
    rw ((eq_iff (text_at_or (as_dict v) "state" unknown) established).1 h)
      (up_row-IsUp ctx peer _ (baseline_state ctx peer))

-- A fault of BGP is not reported a second time as a missing BFD session: where the check of BFD
-- calls the session of a configured peer broken for being absent, BGP has a session with the peer,
-- and the check of BGP finds that one up.
pub bfd_finding-session_row :
    (ctx : CheckContext) (peer : String)
    → (measure ctx peer).session ≡ none
    → (measure ctx peer).configured ≡ true
    → (bfd_finding ctx peer (measure ctx peer)).outcome ≡ broken
    → (v : Value) × (Dict.get (table_at ctx.subject "bgp") peer ≡ some v)
      × IsUp (Bgp.session_row ctx peer v).outcome
unfolding bfd_finding measure value_at
bfd_finding-session_row ctx peer absent c h =
    let m = measure ctx peer in
    let (v, found, up) =
      session_of_state (Dict.get (table_at ctx.subject "bgp") peer)
        (row_with-broken ctx peer m m.session absent c h) in
    (v, found, bgp_row-IsUp ctx peer v up)

-- A row is ok only for a session that is up.
abbrev pub PassesOnState : Finding → Type 0
PassesOnState r = r.outcome ≡ ok → r.value ≡ some "Up"

-- A row is unchanged only where the baseline measured BFD and has the same value.
abbrev pub PassesOnBaseline : CheckContext → Finding → Type 0
PassesOnBaseline ctx r =
    r.outcome ≡ unchanged → (baseline_measured ctx "bfd" ≡ true) × (r.baseline_value ≡ r.value)

abbrev pub IsJustified : CheckContext → Finding → Type 0
IsJustified ctx r = PassesOnState r × PassesOnBaseline ctx r

-- The sessions of the baseline have a state, as those of the collector do.
abbrev pub HasStates : CheckContext → Type 0
HasStates ctx =
    (peer : String) (s : Record) → (measure ctx peer).baseline ≡ some s → Dict.has s "state" ≡ true

abbrev HasState : Option Record → Type 0
HasState o = (s : Record) → o ≡ some s → Dict.has s "state" ≡ true

state_text : (o : Option Value) → is_some o ≡ true → text_or unknown o ≡ py_str (or_null o)
state_text none h = cc
state_text (some v) h = refl

same_text :
    (s : Record) → Dict.has s "state" ≡ true → text_at_or s "state" unknown ≡ text_at s "state"
unfolding text_at_or text_at value_at Dict.has
same_text s h = state_text (Dict.get s "state") h

measured-has_baseline :
    (ctx : CheckContext) (area : String)
    → baseline_measured ctx area ≡ true
    → has_baseline ctx ≡ true
unfolding baseline_measured
measured-has_baseline ctx area h = ground (arith, h)

-- The words of the baseline for a configured peer
was-of_session :
    (ctx : CheckContext) (m : Measured) (b : Option Record)
    → m.baseline ≡ b
    → m.configured ≡ true
    → HasState b
    → has_baseline ctx ≡ true
    → (state : String) → has_state b state ≡ true
    → was ctx m ≡ some state
unfolding was session_value
was-of_session ctx m none e c k u state h = cc
was-of_session ctx m (some s) e c k u state h =
    rw (e, c, u) (ap some (same_text s (k s refl) ∙ (eq_iff (text_at s "state") state).0 h))

was-of_none :
    (ctx : CheckContext) (m : Measured) (b : Option Record)
    → m.baseline ≡ b
    → m.configured ≡ true
    → m.bgp_state ≡ established
    → has_baseline ctx ≡ true
    → (not (is_some b) && not (is_ambiguous m.baseline_ambiguous)) ≡ true
    → was ctx m ≡ some no_session
unfolding was session_value
was-of_none ctx m none e c g u h = rw (e, c, u, g) (ground (arith, h))
was-of_none ctx m (some s) e c g u h = cc

down_row-PassesOnBaseline :
    (ctx : CheckContext) (m : Measured) (state : String)
    → m.configured ≡ true
    → HasState m.baseline
    → down_outcome ctx m state ≡ unchanged
    → (baseline_measured ctx "bfd" ≡ true) × (was ctx m ≡ some state)
unfolding down_outcome
down_row-PassesOnBaseline ctx m state c k h =
    let found =
      unchanged_or-broken ctx "bfd" (not (state == unknown) && has_state m.baseline state) h in
    (
      found.1,
      was-of_session ctx m m.baseline refl c k (measured-has_baseline ctx "bfd" found.1) state
          (ground (arith, found.0)),
    )

bfd_session_row-IsJustified :
    (ctx : CheckContext) (peer : String) (m : Measured) (s : Record)
    → HasState m.baseline
    → IsJustified ctx (bfd_session_row ctx peer m s)
unfolding bfd_session_row down_outcome
bfd_session_row-IsJustified ctx peer m s k =
    let state = text_at_or s "state" unknown in
    elim (Bool-cases m.configured) [
      | inl c ↦ elim (Bool-cases (state == "Up")) [
        | inl q ↦ simp (c, q) (λ h. ap some ((eq_iff state "Up").0 q), λ h. cc)
        | inr q ↦
            simp (c, q)
              (
                λ h. absurd (
                    unchanged_or-bad ctx "bfd"
                      (not (state == unknown) && has_state m.baseline state) (inl h)),
                λ h. down_row-PassesOnBaseline ctx m state c k h,
              )
      ]
      | inr c ↦ simp c (λ h. cc, λ h. cc)
    ]

bfd_missing_row-PassesOnBaseline :
    (ctx : CheckContext) (m : Measured)
    → m.configured ≡ true
    → m.bgp_state ≡ established
    → missing_outcome ctx m ≡ unchanged
    → (baseline_measured ctx "bfd" ≡ true) × (was ctx m ≡ some no_session)
unfolding missing_outcome
bfd_missing_row-PassesOnBaseline ctx m c g h =
    let found =
      unchanged_or-broken ctx "bfd"
        (not (is_some m.baseline) && not (is_ambiguous m.baseline_ambiguous)) h in
    (
      found.1,
      was-of_none ctx m m.baseline refl c g (measured-has_baseline ctx "bfd" found.1) found.0,
    )

bfd_missing_row-IsJustified :
    (ctx : CheckContext) (peer : String) (m : Measured)
    → IsJustified ctx (bfd_missing_row ctx peer m)
unfolding bfd_missing_row missing_outcome
bfd_missing_row-IsJustified ctx peer m = elim (Bool-cases m.configured) [
  | inl c ↦ elim (Bool-cases (m.bgp_state == established)) [
    | inl q ↦
        simp (c, q)
          (
            λ h. absurd (
                unchanged_or-bad ctx "bfd"
                  (not (is_some m.baseline) && not (is_ambiguous m.baseline_ambiguous)) (inl h)),
            λ h. bfd_missing_row-PassesOnBaseline ctx m c ((eq_iff m.bgp_state established).0 q) h,
          )
    | inr q ↦ simp (c, q) (λ h. cc, λ h. cc)
  ]
  | inr c ↦ simp c (λ h. cc, λ h. cc)
]

row_without-IsJustified :
    (ctx : CheckContext) (peer : String) (m : Measured) (n : Option Value)
    → IsJustified ctx (row_without ctx peer m n)
unfolding unclear_row
row_without-IsJustified ctx peer m none = bfd_missing_row-IsJustified ctx peer m
row_without-IsJustified ctx peer m (some n) = (λ h. cc, λ h. cc)

row_with-IsJustified :
    (ctx : CheckContext) (peer : String) (m : Measured) (s : Option Record)
    → HasState m.baseline
    → IsJustified ctx (row_with ctx peer m s)
row_with-IsJustified ctx peer m none k = row_without-IsJustified ctx peer m m.ambiguous
row_with-IsJustified ctx peer m (some s) k = bfd_session_row-IsJustified ctx peer m s k

-- The check returns, and where the sessions of the baseline have a state, no row of it is good
-- without a reason: a row is ok only if its session is Up, and it passes as unchanged only if the
-- baseline measured BFD and shows the same value for the peer.
pub run_bfd-IsJustified :
    (ctx : CheckContext)
    → HasStates ctx
    → (rows : List Finding) × (run_bfd ctx ≡ returns rows) × All (IsJustified ctx) rows
unfolding run_bfd bfd_finding
run_bfd-IsJustified ctx k = (
  _,
  refl,
  All-map (IsJustified ctx) (λ p. bfd_finding ctx p (measure ctx p))
      (λ p. row_with-IsJustified ctx p (measure ctx p) (measure ctx p).session (k p))
      (sorted_set (bfd_universe ctx)),
)
