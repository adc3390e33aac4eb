-- ===== src/Scoping/Matcher/Holders.antt =====
-- The scopes that have a key of a rule, and the edges of a rule (`_index` and `match_scopes` in
-- migration_validator/scoping/matcher.py).
use migration_status_check.Base.Dict
use migration_status_check.Base.Dict.{Dict, is_some}
use migration_status_check.Base.{
  ℕ, nat_eq, ◌≡◌, refl, sym, ap, ◌∙◌, some, List, [], ◌∷◌, ◌++◌, ◌==◌, arith, Bool-cases, inl, inr,
  eq_iff, if◌then◌else◌, All-mem, ◌≢◌,
}
use migration_status_check.Models.Scope.{Scope}
use migration_status_check.Scoping.Matcher.{ScopeObject, entries, append_at}
use migration_status_check.Scoping.Matcher.Keys.{
  Key, key_eq, Rule, index_scope, index_from, index_by,
}
use migration_status_check.Scoping.Matcher.Match.{survey, Matching}
use migration_status_check.Scoping.Matcher.Covered.Candidates.{AreOf, survey-AreOf}
use mathlib.Core.List.{Memᴰ, append_assoc, append-nil}

-- The scopes that have a key, once for every time they have it
abbrev pub holders_of : Key → List Key → ScopeObject → List ScopeObject
holders_of k [] o = []
holders_of k (j ∷ js) o = if j == k then o ∷ holders_of k js o else holders_of k js o

abbrev pub holders : (Scope → List Key) → Key → List ScopeObject → List ScopeObject
holders keys_of k [] = []
holders keys_of k (o ∷ os) = holders_of k (keys_of o.scope) o ++ holders keys_of k os

entries-append_at :
    (d : Dict Key (List ScopeObject)) (j k : Key) (o : ScopeObject)
    → entries (append_at d j o) k ≡ (if j == k then entries d k ++ (o ∷ []) else entries d k)
unfolding entries append_at
entries-append_at d j k o = elim (Bool-cases (j == k)) [
  | inl q ↦ ground (arith, q, (eq_iff j k).0 q, Dict.get-put d j k (entries d j ++ (o ∷ [])))
  | inr q ↦ ground (arith, q, Dict.get-put d j k (entries d j ++ (o ∷ [])))
]

entries-index_scope :
    (js : List Key) (d : Dict Key (List ScopeObject)) (k : Key) (o : ScopeObject)
    → entries (index_scope d js o) k ≡ entries d k ++ holders_of k js o
unfolding index_scope
entries-index_scope [] d k o = sym (append-nil (entries d k))
entries-index_scope (j ∷ js) d k o = elim (Bool-cases (j == k)) [
  | inl q ↦ rw q (
      entries-index_scope js (append_at d j o) k o
      ∙ (ap (λ z. z ++ holders_of k js o) (entries-append_at d j k o ∙ rw q refl)
          ∙ append_assoc (entries d k) (o ∷ []) (holders_of k js o)))
  | inr q ↦ rw q (
      entries-index_scope js (append_at d j o) k o
      ∙ ap (λ z. z ++ holders_of k js o) (entries-append_at d j k o ∙ rw q refl))
]

entries-index_from :
    (keys_of : Scope → List Key) (os : List ScopeObject) (d : Dict Key (List ScopeObject)) (k : Key)
    → entries (index_from keys_of d os) k ≡ entries d k ++ holders keys_of k os
entries-index_from keys_of [] d k = sym (append-nil (entries d k))
entries-index_from keys_of (o ∷ os) d k =
    entries-index_from keys_of os (index_scope d (keys_of o.scope) o) k
    ∙ (ap (λ z. z ++ holders keys_of k os) (entries-index_scope (keys_of o.scope) d k o)
        ∙ append_assoc (entries d k) (holders_of k (keys_of o.scope) o) (holders keys_of k os))

-- The index has the holders of every key.
pub entries-index_by :
    (keys_of : Scope → List Key) (os : List ScopeObject) (k : Key)
    → entries (index_by keys_of os) k ≡ holders keys_of k os
unfolding index_by entries Dict.get
entries-index_by keys_of os k = entries-index_from keys_of os [] k

index_scope-IsDict :
    (js : List Key) (d : Dict Key (List ScopeObject)) (o : ScopeObject)
    → Dict.IsDict d
    → Dict.IsDict (index_scope d js o)
unfolding index_scope append_at
index_scope-IsDict [] d o u = u
index_scope-IsDict (j ∷ js) d o u =
    index_scope-IsDict js (append_at d j o) o (Dict.put-IsDict d j _ u)

index_from-IsDict :
    (keys_of : Scope → List Key) (os : List ScopeObject) (d : Dict Key (List ScopeObject))
    → Dict.IsDict d
    → Dict.IsDict (index_from keys_of d os)
index_from-IsDict keys_of [] d u = u
index_from-IsDict keys_of (o ∷ os) d u =
    index_from-IsDict keys_of os (index_scope d (keys_of o.scope) o)
      (index_scope-IsDict (keys_of o.scope) d o u)

get_of_mem :
    (d : Dict Key (List ScopeObject)) (k : Key) (v : List ScopeObject)
    → Dict.IsDict d
    → Memᴰ (k, v) d
    → Dict.get d k ≡ some v
unfolding Dict.get
get_of_mem [] k v u m = elim m [ ]
get_of_mem ((j, w) ∷ d) k v u (Memᴰ.head e) =
    let same : k ≡ j = ap (λ p. p.0) e in
    rw ((eq_iff j k).1 (sym same)) (ap some (sym (ap (λ p. p.1) e)))
get_of_mem ((j, w) ∷ d) k v u (Memᴰ.tail m) = elim (Bool-cases (j == k)) [
  | inl q ↦ absurd (All-mem (λ p. p.0 ≢ j) u.0 m (sym ((eq_iff j k).0 q)))
  | inr q ↦ rw q (get_of_mem d k v u.1 m)
]

-- The entry of the index is what the index gives for its key.
entries_of_mem :
    (keys_of : Scope → List Key) (os : List ScopeObject) (k : Key) (b : ScopeObject)
    → Memᴰ (k, b ∷ []) (index_by keys_of os)
    → entries (index_by keys_of os) k ≡ b ∷ []
unfolding entries index_by
entries_of_mem keys_of os k b m =
    rw (get_of_mem (index_from keys_of [] os) k (b ∷ []) (index_from-IsDict keys_of os [] tt) m)
      refl

-- A key that, of all the scopes that are left, one scope has on either side
abbrev pub IsEdge : Rule → List ScopeObject → List ScopeObject → ℕ → ℕ × ScopeObject → Type 0
IsEdge rule baseline subject i q =
    (k : Key) × ((b : ScopeObject) × ((holders rule.keys_of k baseline ≡ b ∷ [])
        × ((holders rule.keys_of k subject ≡ q.1 ∷ []) × (b.address ≡ i))))

pub survey-IsEdge :
    (rule : Rule) (m : Matching)
    → AreOf
        (IsEdge rule m.remaining.baseline m.remaining.subject)
        (survey rule m.remaining.baseline m.remaining.subject m.ambiguity).b_candidates
survey-IsEdge rule m =
    let baseline = m.remaining.baseline in
    survey-AreOf (IsEdge rule baseline m.remaining.subject) rule baseline m.remaining.subject
      m.ambiguity
      (λ k b s held alone. (
        k,
        (
          b,
          (
            sym (entries-index_by rule.keys_of baseline k)
                ∙ entries_of_mem rule.keys_of baseline k b held,
            (sym (entries-index_by rule.keys_of m.remaining.subject k) ∙ alone, refl),
          ),
        ),
      ))
