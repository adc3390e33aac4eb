-- ===== src/Checks/Bgp/Laws.antt =====
-- The rows of the check of BGP sessions: which peers have one, and when a row is good
-- (migration_validator/checks/bgp.py).
use migration_status_check.Base.Dict
use migration_status_check.Base.Dict.{Dict}
use migration_status_check.Base.Sort.{sorted_set, distinct, text_le}
use migration_status_check.Base.Sort.Counts.{
  one_if, occurrences, count_by-sort_by, count_by-map, contains-append, contains-filter,
  contains-keys, occurrences-distinct, occurrences-filter, occurrences-keys,
}
use migration_status_check.Base.{
  String, false, Option, none, some, List, [], ◌∷◌, ◌++◌, map, filter, not, false, ◌||◌,
  if◌then◌else◌, contains, count_by-append, map-append, ◌==◌, string_eq, option_eq, returns, arith,
  ◌≡◌, ◌≢◌, refl, sym, ap, ◌∙◌, inl, inr, Bool-cases,
}
use migration_status_check.Models.Value.{Value}
use migration_status_check.Models.Value.Access.{text_at_or, as_dict}
use migration_status_check.Models.Finding.{Finding}
use migration_status_check.Checks.Framework.{CheckContext}
use migration_status_check.Checks.Bgp.{
  baseline_table, established, unknown, status_label, baseline_state, session_row, up_row, down_row,
  ambiguous_session_finding,
}
use migration_status_check.Checks.Bgp.Rows.{
  subject_peers, universe, inactive_peers, without_session, measured_peers, run_sessions, run_bgp,
  rows_unless_empty, inactive_row, missing_row, off_row, gone_row, ambiguous_count, or_ambiguous,
  is_without_session,
}

-- The row stands under the label of the peer.
abbrev IsOf : String → Finding → Type 0
IsOf peer r = r.label ≡ some (status_label peer)

up_row-IsOf :
    (ctx : CheckContext) (peer state : String) (was : Option String)
    → IsOf peer (up_row ctx peer state was)
unfolding up_row
up_row-IsOf ctx peer state was = refl

session_row-IsOf :
    (ctx : CheckContext) (peer : String) (v : Value) → IsOf peer (session_row ctx peer v)
unfolding session_row down_row
session_row-IsOf ctx peer v =
    elim (Bool-cases (text_at_or (as_dict v) "state" unknown == established)) [
      | inl q ↦ rw q (up_row-IsOf ctx peer _ (baseline_state ctx peer))
      | inr q ↦ rw q refl
    ]

or_ambiguous-IsOf :
    (ctx : CheckContext) (peer : String) (row : Finding) (count : Option Value)
    → IsOf peer row
    → IsOf peer (or_ambiguous ctx peer row count)
unfolding ambiguous_session_finding
or_ambiguous-IsOf ctx peer row none h = h
or_ambiguous-IsOf ctx peer row (some n) h = refl

inactive_row-IsOf : (ctx : CheckContext) (peer : String) → IsOf peer (inactive_row ctx peer)
unfolding inactive_row off_row
inactive_row-IsOf ctx peer =
    or_ambiguous-IsOf ctx peer (off_row ctx peer) (ambiguous_count ctx peer) refl

missing_row-IsOf : (ctx : CheckContext) (peer : String) → IsOf peer (missing_row ctx peer)
unfolding missing_row gone_row
missing_row-IsOf ctx peer =
    or_ambiguous-IsOf ctx peer (gone_row ctx peer) (ambiguous_count ctx peer) refl

-- The peers in the order of their rows
row_peers : CheckContext → List String
row_peers ctx = map (λ e. e.0) (measured_peers ctx) ++ (inactive_peers ctx ++ without_session ctx)

labels_of {ℓ} :
    {A : Type ℓ} (row : A → Finding) (peer : A → String)
    → ((x : A) → IsOf (peer x) (row x))
    → (xs : List A)
    → map (λ r. r.label) (map row xs) ≡ map (λ p. some (status_label p)) (map peer xs)
labels_of row peer h [] = refl
labels_of row peer h (x ∷ xs) = cc (h x, labels_of row peer h xs)

abbrev label_of : String → Option String
label_of p = some (status_label p)

labels-append :
    (rows more : List Finding) (ps qs : List String)
    → map (λ r. r.label) rows ≡ map label_of ps
    → map (λ r. r.label) more ≡ map label_of qs
    → map (λ r. r.label) (rows ++ more) ≡ map label_of (ps ++ qs)
labels-append rows more ps qs h k =
    map-append (λ r. r.label) rows more ∙ (cc (h, k) ∙ sym (map-append label_of ps qs))

map_id {ℓ} : {A : Type ℓ} (xs : List A) → map (λ x. x) xs ≡ xs
map_id [] = refl
map_id (x ∷ xs) = ap (◌∷◌ x) (map_id xs)

peer_labels :
    (row : String → Finding)
    → ((p : String) → IsOf p (row p))
    → (ps : List String) → map (λ r. r.label) (map row ps) ≡ map label_of ps
peer_labels row h ps = labels_of row (λ p. p) h ps ∙ ap (map label_of) (map_id ps)

row_peers-labels :
    (ctx : CheckContext)
    → map (λ r. r.label) (run_sessions ctx) ≡ map (λ p. some (status_label p)) (row_peers ctx)
unfolding run_sessions row_peers
row_peers-labels ctx =
    labels-append (map (λ e. session_row ctx e.0 e.1) (measured_peers ctx))
      (map (inactive_row ctx) (inactive_peers ctx) ++ map (missing_row ctx) (without_session ctx))
      (map (λ e. e.0) (measured_peers ctx)) (inactive_peers ctx ++ without_session ctx)
      (labels_of (λ e. session_row ctx e.0 e.1) (λ e. e.0) (λ e. session_row-IsOf ctx e.0 e.1)
        (measured_peers ctx))
      (labels-append (map (inactive_row ctx) (inactive_peers ctx))
        (map (missing_row ctx) (without_session ctx)) (inactive_peers ctx) (without_session ctx)
        (peer_labels (inactive_row ctx) (inactive_row-IsOf ctx) (inactive_peers ctx))
        (peer_labels (missing_row ctx) (missing_row-IsOf ctx) (without_session ctx)))

entry_keys : {V : Type 0} (d : Dict String V) → map (λ e. e.0) d ≡ Dict.keys d
entry_keys [] = refl
entry_keys (e ∷ d) = ap (◌∷◌ e.0) (entry_keys d)

occurrences-measured :
    (ctx : CheckContext) (p : String)
    → Dict.IsDict (subject_peers ctx)
    → occurrences p (map (λ e. e.0) (measured_peers ctx)) ≡ one_if (Dict.has (subject_peers ctx) p)
unfolding measured_peers
occurrences-measured ctx p u =
    count_by-map (λ x. x == p) (λ e. e.0) (measured_peers ctx)
    ∙ (count_by-sort_by (λ e. e.0 == p) (λ a b. text_le a.0 b.0) (subject_peers ctx)
        ∙ (sym (count_by-map (λ x. x == p) (λ e. e.0) (subject_peers ctx))
            ∙ (ap (occurrences p) (entry_keys (subject_peers ctx))
                ∙ occurrences-keys (subject_peers ctx) p u)))

occurrences-inactive :
    (ctx : CheckContext) (p : String)
    → occurrences p (inactive_peers ctx) ≡ (
        if Dict.has (subject_peers ctx) p
        then 0
        else occurrences p ctx.scope.selectors.bgp_neighbors_inactive)
unfolding inactive_peers
occurrences-inactive ctx p =
    let inactive = ctx.scope.selectors.bgp_neighbors_inactive in
    ground (
      arith,
      count_by-sort_by (λ x. x == p) text_le
          (filter (λ q. not (Dict.has (subject_peers ctx) q)) inactive),
      occurrences-filter (λ q. not (Dict.has (subject_peers ctx) q)) p inactive,
    )

occurrences-without_session :
    (ctx : CheckContext) (p : String)
    → occurrences p (without_session ctx)
      ≡ one_if (if is_without_session ctx p then contains (universe ctx) p else false)
unfolding without_session sorted_set
occurrences-without_session ctx p =
    let own = filter (is_without_session ctx) (universe ctx) in
    count_by-sort_by (λ x. x == p) text_le (distinct own)
    ∙ (occurrences-distinct p own
        ∙ ap one_if (contains-filter (is_without_session ctx) p (universe ctx)))

contains-universe :
    (ctx : CheckContext) (p : String)
    → contains (universe ctx) p ≡ (
        contains ctx.scope.selectors.bgp_neighbors p
        || (contains ctx.scope.selectors.bgp_neighbors_inactive p
            || (Dict.has (subject_peers ctx) p || Dict.has (baseline_table ctx "bgp") p)))
unfolding universe
contains-universe ctx p =
    let active = ctx.scope.selectors.bgp_neighbors in
    let inactive = ctx.scope.selectors.bgp_neighbors_inactive in
    let measured = Dict.keys (subject_peers ctx) in
    let before = Dict.keys (baseline_table ctx "bgp") in
    rw
      (
        contains-append active (inactive ++ (measured ++ before)) p,
        contains-append inactive (measured ++ before) p,
        contains-append measured before p,
        contains-keys (subject_peers ctx) p,
        contains-keys (baseline_table ctx "bgp") p,
      )
      refl

occurrences-row_peers :
    (ctx : CheckContext) (p : String)
    → Dict.IsDict (subject_peers ctx)
    → (occurrences p ctx.scope.selectors.bgp_neighbors_inactive
        ≡ one_if (contains ctx.scope.selectors.bgp_neighbors_inactive p))
    → occurrences p (row_peers ctx) ≡ one_if (contains (universe ctx) p)
unfolding row_peers
occurrences-row_peers ctx p u once =
    let measured = map (λ e. e.0) (measured_peers ctx) in
    ground (
      arith,
      count_by-append (λ x. x == p) measured (inactive_peers ctx ++ without_session ctx),
      count_by-append (λ x. x == p) (inactive_peers ctx) (without_session ctx),
      occurrences-measured ctx p u,
      occurrences-inactive ctx p,
      occurrences-without_session ctx p,
      contains-universe ctx p,
      once,
    )

rows_unless_empty-run :
    (ctx : CheckContext) (ps : List String)
    → ps ≢ []
    → rows_unless_empty ctx ps ≡ returns (run_sessions ctx)
rows_unless_empty-run ctx [] h = absurd (h refl)
rows_unless_empty-run ctx (p ∷ ps) h = refl

run_bgp-run_sessions :
    (ctx : CheckContext) → universe ctx ≢ [] → run_bgp ctx ≡ returns (run_sessions ctx)
unfolding run_bgp
run_bgp-run_sessions ctx h = rows_unless_empty-run ctx (universe ctx) h

-- Each peer that the configuration, the subject or the baseline knows has exactly one row, and no
-- other peer has one, where the subject has each address once and the configuration does not list
-- a deactivated peer twice.
pub run_bgp_complete :
    (ctx : CheckContext)
    → Dict.IsDict (subject_peers ctx)
    → ((p : String)
        → occurrences p ctx.scope.selectors.bgp_neighbors_inactive
          ≡ one_if (contains ctx.scope.selectors.bgp_neighbors_inactive p))
    → (universe ctx ≢ [])
    → (rows : List Finding) × (order : List String) × (run_bgp ctx ≡ returns rows)
      × (map (λ r. r.label) rows ≡ map (λ p. some (status_label p)) order)
      × ((p : String) → occurrences p order ≡ one_if (contains (universe ctx) p))
run_bgp_complete ctx u once some_peer = (
  run_sessions ctx,
  row_peers ctx,
  run_bgp-run_sessions ctx some_peer,
  row_peers-labels ctx,
  λ p. occurrences-row_peers ctx p u (once p),
)
