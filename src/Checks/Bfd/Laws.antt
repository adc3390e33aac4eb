-- ===== src/Checks/Bfd/Laws.antt =====
-- Which peers have a row in the check of BFD sessions
-- (migration_validator/checks/bfd.py).
use migration_status_check.Base.Dict
use migration_status_check.Base.Dict.{Dict, is_some}
use migration_status_check.Base.Sort.{sorted_set, distinct, text_le}
use migration_status_check.Base.Sort.Counts.{
  one_if, occurrences, count_by-sort_by, contains-append, contains-keys, occurrences-distinct,
}
use migration_status_check.Base.{
  String, Bool, ◌||◌, Option, none, some, List, [], ◌∷◌, ◌++◌, map, contains, ◌==◌, string_eq,
  returns, ◌≡◌, refl, ap, ◌∙◌, inl, inr, Bool-cases,
}
use migration_status_check.Models.Value.{Value}
use migration_status_check.Models.Value.Access.{table_at, text_at_or}
use migration_status_check.Models.Scope.Select.{Record}
use migration_status_check.Models.Finding.{Finding}
use migration_status_check.Checks.Framework.{CheckContext}
use migration_status_check.Checks.Bgp.{established, unknown, baseline_table}
use migration_status_check.Checks.Bfd.{
  Measured, bfd_label, bfd_session_row, bfd_missing_row, unclear_row, row_without, row_with,
  bfd_finding, intent, measure, bfd_universe, run_bfd,
}

abbrev IsOf : String → Finding → Type 0
IsOf peer r = r.label ≡ some (bfd_label peer)

bfd_session_row-IsOf :
    (ctx : CheckContext) (peer : String) (m : Measured) (s : Record)
    → IsOf peer (bfd_session_row ctx peer m s)
unfolding bfd_session_row
bfd_session_row-IsOf ctx peer m s = elim (Bool-cases m.configured) [
  | inl q ↦ elim (Bool-cases (text_at_or s "state" unknown == "Up")) [
    | inl r ↦ rw (q, r) refl
    | inr r ↦ rw (q, r) refl
  ]
  | inr q ↦ rw q refl
]

bfd_missing_row-IsOf :
    (ctx : CheckContext) (peer : String) (m : Measured) → IsOf peer (bfd_missing_row ctx peer m)
unfolding bfd_missing_row
bfd_missing_row-IsOf ctx peer m = elim (Bool-cases m.configured) [
  | inl q ↦ elim (Bool-cases (m.bgp_state == established)) [
    | inl r ↦ rw (q, r) refl
    | inr r ↦ rw (q, r) refl
  ]
  | inr q ↦ rw q refl
]

row_without-IsOf :
    (ctx : CheckContext) (peer : String) (m : Measured) (n : Option Value)
    → IsOf peer (row_without ctx peer m n)
unfolding unclear_row
row_without-IsOf ctx peer m none = bfd_missing_row-IsOf ctx peer m
row_without-IsOf ctx peer m (some n) = refl

row_with-IsOf :
    (ctx : CheckContext) (peer : String) (m : Measured) (s : Option Record)
    → IsOf peer (row_with ctx peer m s)
row_with-IsOf ctx peer m none = row_without-IsOf ctx peer m m.ambiguous
row_with-IsOf ctx peer m (some s) = bfd_session_row-IsOf ctx peer m s

labels_of :
    (row : String → Finding)
    → ((p : String) → IsOf p (row p))
    → (ps : List String) → map (λ r. r.label) (map row ps) ≡ map (λ p. some (bfd_label p)) ps
labels_of row h [] = refl
labels_of row h (p ∷ ps) = cc (h p, labels_of row h ps)

occurrences-sorted_set :
    (p : String) (xs : List String) → occurrences p (sorted_set xs) ≡ one_if (contains xs p)
unfolding sorted_set
occurrences-sorted_set p xs =
    count_by-sort_by (λ x. x == p) text_le (distinct xs) ∙ occurrences-distinct p xs

-- Is the peer one with BFD in the configuration, the subject or the baseline?
abbrev pub has_bfd : CheckContext → String → Bool
has_bfd ctx p =
    contains (intent ctx) p
    || (Dict.has (table_at ctx.subject "bfd") p || Dict.has (baseline_table ctx "bfd") p)

contains-bfd_universe :
    (ctx : CheckContext) (p : String) → contains (bfd_universe ctx) p ≡ has_bfd ctx p
unfolding bfd_universe
contains-bfd_universe ctx p =
    let measured = Dict.keys (table_at ctx.subject "bfd") in
    let before = Dict.keys (baseline_table ctx "bfd") in
    rw
      (
        contains-append (intent ctx) (measured ++ before) p,
        contains-append measured before p,
        contains-keys (table_at ctx.subject "bfd") p,
        contains-keys (baseline_table ctx "bfd") p,
      )
      refl

-- The rows of the check are those of the peers that the configuration, the subject or the baseline
-- has BFD for, each exactly once; a peer without BFD has no row.
pub run_bfd_complete :
    (ctx : CheckContext)
    → (rows : List Finding) × (order : List String) × (run_bfd ctx ≡ returns rows)
      × (map (λ r. r.label) rows ≡ map (λ p. some (bfd_label p)) order)
      × ((p : String) → occurrences p order ≡ one_if (has_bfd ctx p))
unfolding run_bfd bfd_finding
run_bfd_complete ctx = (
  _,
  sorted_set (bfd_universe ctx),
  refl,
  labels_of (λ p. bfd_finding ctx p (measure ctx p))
      (λ p. row_with-IsOf ctx p (measure ctx p) (measure ctx p).session)
      (sorted_set (bfd_universe ctx)),
  λ p. occurrences-sorted_set p (bfd_universe ctx) ∙ ap one_if (contains-bfd_universe ctx p),
)
