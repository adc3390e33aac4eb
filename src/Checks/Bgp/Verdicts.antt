-- ===== src/Checks/Bgp/Verdicts.antt =====
-- When a row of the check of BGP sessions is good, and when the baseline excuses it
-- (migration_validator/checks/bgp.py).
use mathlib.Core.List.{Memᴰ}
use migration_status_check.Base.Dict
use migration_status_check.Base.Dict.{is_some}
use migration_status_check.Base.Sort.{sort_by-All, sorted_set-All, text_le}
use migration_status_check.Base.{
  sym, subst, ◌∙◌, ◌≢◌, eq_iff, Option-cases, All-map_of, All-of_mem, filter_sound, String, Bool,
  true, false, not, ◌&&◌, Option, none, some, List, [], ◌∷◌, map, All, All-map, All-append, ◌==◌,
  string_eq, option_eq, returns, arith, ◌≡◌, refl, ap, ◌⊎◌, inl, inr, Bool-cases, if◌then◌else◌,
}
use migration_status_check.Models.Value.{Value}
use migration_status_check.Models.Value.Access.{table_at, text_at_or, as_dict}
use migration_status_check.Models.Status.{ok, recovered, broken, degraded, unchanged}
use migration_status_check.Models.Finding.{Finding}
use migration_status_check.Checks.Framework.{CheckContext, baseline_measured}
use migration_status_check.Checks.Baseline.Laws.{unchanged_or-broken, unchanged_or-bad}
use migration_status_check.Checks.Deactivation.{deactivation_outcome}
use migration_status_check.Checks.Bgp.{
  state_of, has_changed, status_label, established, unknown, baseline_state, session_row, up_row,
  down_row, ambiguous_session_finding, baseline_table,
}
use migration_status_check.Checks.Bgp.Rows.{
  is_without_session, universe, run_sessions, run_bgp, rows_unless_empty, inactive_row, missing_row,
  off_row, gone_row, ambiguous_count, or_ambiguous, measured_peers, inactive_peers, without_session,
  was_missing, peer_was_off, outcome_of_off,
}

-- The subject has a session with the peer, in this state.
abbrev pub HasState : CheckContext → String → String → Type 0
HasState ctx peer state =
    (v : Value) × (Memᴰ (peer, v) (table_at ctx.subject "bgp")
      × (text_at_or (as_dict v) "state" unknown ≡ state))

-- The baseline has a session with the peer, in this state.
abbrev pub HadState : CheckContext → String → String → Type 0
HadState ctx peer state =
    (v : Value) × ((Dict.get (baseline_table ctx "bgp") peer ≡ some v)
      × (text_at_or (as_dict v) "state" unknown ≡ state))

-- The peer stands as in the baseline: its session is in the same known state, or it has none and had
-- none, not even one among several on its address.
abbrev pub IsAsBefore : CheckContext → String → Type 0
IsAsBefore ctx peer =
    ((state : String) × (HasState ctx peer state × (HadState ctx peer state × (state ≢ unknown))))
    ⊎ ((Dict.get (table_at ctx.subject "bgp") peer ≡ none)
        × ((Dict.get (baseline_table ctx "bgp") peer ≡ none)
            × (Dict.get (baseline_table ctx "bgp_ambiguous") peer ≡ none)))

-- A row that passes for the state of the session of its peer
abbrev pub PassesOnState : CheckContext → Finding → Type 0
PassesOnState ctx r =
    (r.outcome ≡ ok) ⊎ (r.outcome ≡ recovered)
    → (peer : String) × ((r.label ≡ some (status_label peer)) × HasState ctx peer established)

-- A row that passes for the baseline of its peer
abbrev pub PassesOnBaseline : CheckContext → Finding → Type 0
PassesOnBaseline ctx r =
    r.outcome ≡ unchanged
    → (baseline_measured ctx "bgp" ≡ true)
      × ((peer : String) × ((r.label ≡ some (status_label peer)) × IsAsBefore ctx peer))

abbrev pub IsJustified : CheckContext → Finding → Type 0
IsJustified ctx r = PassesOnState ctx r × PassesOnBaseline ctx r

some_text : {a b : String} → ◌≡◌ {A = Option String} (some a) (some b) → a ≡ b
some_text {a} h = ap (λ o. elim o [ none ↦ a | some t ↦ t ]) h

had_state :
    (ctx : CheckContext) (peer state : String)
    → baseline_state ctx peer ≡ some state
    → HadState ctx peer state
unfolding baseline_state
had_state ctx peer state h = elim (Option-cases (Dict.get (baseline_table ctx "bgp") peer)) [
  | inl q ↦ absurd (ground (arith, q, h))
  | inr (v, q) ↦ (v, (q, some_text (sym (ap state_of q) ∙ h)))
]

up_outcome : (b : Bool) → ¬ ((if b then recovered else ok) ≡ unchanged)
up_outcome true h = cc
up_outcome false h = cc

up_row-IsJustified :
    (ctx : CheckContext) (peer : String) (was : Option String)
    → HasState ctx peer established
    → IsJustified ctx (up_row ctx peer established was)
unfolding up_row
up_row-IsJustified ctx peer was has =
    (λ h. (peer, (refl, has)), λ h. absurd (up_outcome (has_changed established was) h))

same_state :
    (state : String) (was : Option String)
    → (not (state == unknown) && was == some state) ≡ true
    → (was ≡ some state) × (state ≢ unknown)
same_state state was h = (
  (option_eq.test_iff was (some state)).0 (ground (arith, h)),
  λ e. ground (arith, h, (eq_iff state unknown).1 e),
)

down_row-IsJustified :
    (ctx : CheckContext) (peer state : String)
    → HasState ctx peer state
    → IsJustified ctx (down_row ctx peer state (baseline_state ctx peer))
unfolding down_row
down_row-IsJustified ctx peer state has =
    let same = not (state == unknown) && baseline_state ctx peer == some state in
    (
      λ h. absurd (unchanged_or-bad ctx "bgp" same h),
      λ h.
          (let found = unchanged_or-broken ctx "bgp" same h in
            let (before, known) = same_state state (baseline_state ctx peer) found.0 in
            (
              found.1,
              (peer, (refl, inl (state, (has, (had_state ctx peer state before, known))))),
            )),
    )

session_row-IsJustified :
    (ctx : CheckContext) (peer : String) (v : Value)
    → Memᴰ (peer, v) (table_at ctx.subject "bgp")
    → IsJustified ctx (session_row ctx peer v)
unfolding session_row
session_row-IsJustified ctx peer v m =
    let state = text_at_or (as_dict v) "state" unknown in
    elim (Bool-cases (state == established)) [
      | inl q ↦
          let up = (eq_iff state established).0 q in
          rw q (
            subst (λ s. IsJustified ctx (up_row ctx peer s (baseline_state ctx peer))) (sym up)
              (up_row-IsJustified ctx peer (baseline_state ctx peer) (v, (m, up))))
      | inr q ↦ rw q (down_row-IsJustified ctx peer state (v, (m, refl)))
    ]

or_ambiguous-IsJustified :
    (ctx : CheckContext) (peer : String) (row : Finding) (count : Option Value)
    → IsJustified ctx row
    → IsJustified ctx (or_ambiguous ctx peer row count)
unfolding ambiguous_session_finding
or_ambiguous-IsJustified ctx peer row none h = h
or_ambiguous-IsJustified ctx peer row (some n) h =
    (λ h. elim h [ inl k ↦ cc | inr k ↦ cc ], λ k. cc)

off_bad :
    (was : Option Bool)
    → ((outcome_of_off (deactivation_outcome true was) ≡ broken)
        ⊎ (outcome_of_off (deactivation_outcome true was) ≡ degraded))
unfolding deactivation_outcome
off_bad none = inr refl
off_bad (some true) = inr refl
off_bad (some false) = inl refl

bad-IsJustified :
    (ctx : CheckContext) (r : Finding)
    → (r.outcome ≡ broken) ⊎ (r.outcome ≡ degraded)
    → IsJustified ctx r
bad-IsJustified ctx r (inl h) = (λ k. elim k [ inl e ↦ cc | inr e ↦ cc ], λ k. cc)
bad-IsJustified ctx r (inr h) = (λ k. elim k [ inl e ↦ cc | inr e ↦ cc ], λ k. cc)

off_row-IsJustified : (ctx : CheckContext) (peer : String) → IsJustified ctx (off_row ctx peer)
unfolding off_row
off_row-IsJustified ctx peer =
    bad-IsJustified ctx (off_row ctx peer) (off_bad (peer_was_off ctx peer))

none_of : (o : Option Value) → is_some o ≡ false → o ≡ none
none_of none h = refl
none_of (some v) h = cc

-- The peers without a session, the deactivated ones aside
without_get :
    (ctx : CheckContext) (peer : String)
    → is_without_session ctx peer ≡ true
    → Dict.get (table_at ctx.subject "bgp") peer ≡ none
unfolding Dict.has
without_get ctx peer h = none_of (Dict.get (table_at ctx.subject "bgp") peer) (ground (arith, h))

missing_before :
    (ctx : CheckContext) (peer : String)
    → was_missing ctx peer ≡ true
    → (Dict.get (baseline_table ctx "bgp") peer ≡ none)
      × (Dict.get (baseline_table ctx "bgp_ambiguous") peer ≡ none)
unfolding was_missing Dict.has
missing_before ctx peer h = (
  none_of (Dict.get (baseline_table ctx "bgp") peer) (ground (arith, h)),
  none_of (Dict.get (baseline_table ctx "bgp_ambiguous") peer) (ground (arith, h)),
)

gone_row-IsJustified :
    (ctx : CheckContext) (peer : String)
    → is_without_session ctx peer ≡ true
    → IsJustified ctx (gone_row ctx peer)
unfolding gone_row
gone_row-IsJustified ctx peer without = (
  λ h. absurd (unchanged_or-bad ctx "bgp" (was_missing ctx peer) h),
  λ h.
      (let found = unchanged_or-broken ctx "bgp" (was_missing ctx peer) h in
        (
          found.1,
          (peer, (refl, inr (without_get ctx peer without, missing_before ctx peer found.0))),
        )),
)

run_sessions-IsJustified : (ctx : CheckContext) → All (IsJustified ctx) (run_sessions ctx)
unfolding run_sessions inactive_row missing_row measured_peers without_session
run_sessions-IsJustified ctx =
    let peers = table_at ctx.subject "bgp" in
    All-append (IsJustified ctx) (map (λ e. session_row ctx e.0 e.1) (measured_peers ctx)) _
      (All-map_of (λ e. Memᴰ e peers) (IsJustified ctx) (λ e. session_row ctx e.0 e.1)
        (λ e m. session_row-IsJustified ctx e.0 e.1 m) (measured_peers ctx)
        (sort_by-All (λ e. Memᴰ e peers) (λ a b. text_le a.0 b.0) peers
          (All-of_mem (λ e. Memᴰ e peers) peers (λ e m. m))))
      (All-append (IsJustified ctx) (map (inactive_row ctx) (inactive_peers ctx)) _
        (All-map (IsJustified ctx) (inactive_row ctx)
          (λ p.
            or_ambiguous-IsJustified ctx p (off_row ctx p) (ambiguous_count ctx p)
              (off_row-IsJustified ctx p))
          (inactive_peers ctx))
        (All-map_of (λ p. is_without_session ctx p ≡ true) (IsJustified ctx) (missing_row ctx)
          (λ p w.
            or_ambiguous-IsJustified ctx p (gone_row ctx p) (ambiguous_count ctx p)
              (gone_row-IsJustified ctx p w))
          (without_session ctx)
          (sorted_set-All (λ p. is_without_session ctx p ≡ true) _
            (filter_sound (is_without_session ctx) (universe ctx)))))

rows_unless_empty-IsJustified :
    (ctx : CheckContext) (ps : List String)
    → (rows : List Finding) × (rows_unless_empty ctx ps ≡ returns rows) × All (IsJustified ctx) rows
rows_unless_empty-IsJustified ctx [] =
    (_, refl, ((λ h. elim h [ inl k ↦ cc | inr k ↦ cc ], λ k. cc), tt))
rows_unless_empty-IsJustified ctx (p ∷ ps) = (_, refl, run_sessions-IsJustified ctx)

-- The check returns, and no row of it is good without a reason: a row is ok or recovered only if it is
-- the row of a peer whose session is Established in the subject, and it passes as unchanged only if
-- the baseline measured BGP and the peer stands as in it: with a session in the same known state in
-- both, or with none in either, where the baseline does not count it as ambiguous.
pub run_bgp-IsJustified :
    (ctx : CheckContext)
    → (rows : List Finding) × (run_bgp ctx ≡ returns rows) × All (IsJustified ctx) rows
unfolding run_bgp
run_bgp-IsJustified ctx = rows_unless_empty-IsJustified ctx (universe ctx)
