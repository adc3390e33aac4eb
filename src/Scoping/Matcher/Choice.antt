-- ===== src/Scoping/Matcher/Choice.antt =====
-- The scopes that a rule pairs have no other candidates (`match_scopes` in
-- migration_validator/scoping/matcher.py).
use migration_status_check.Base.Dict
use migration_status_check.Base.Dict.{Dict, is_some}
use migration_status_check.Base.{
  ℕ, ◌≤◌, ◌||◌, length, contains, true, false, Option-cases, subst, nat_eq, ◌≡◌, sym, ap, ◌∙◌,
  Option, none, some, List, [], ◌∷◌, arith, Bool-cases, inl, inr, ◌⊎◌, eq_iff, ◌≢◌,
}
use migration_status_check.Scoping.Matcher.{ScopeObject, entries, or_empty}
use migration_status_check.Scoping.Matcher.Keys.{Key, key_eq, Rule, index_by}
use migration_status_check.Scoping.Matcher.Match.{
  survey, only_partner, unless_blocked, partner, Matching,
}
use migration_status_check.Scoping.Matcher.Survey.{Survey, addresses}
use migration_status_check.Scoping.Matcher.Alone.{
  HasCandidate, IsCandidates, IsRecorded, contains-append, mem_of_get, some_value,
  survey-IsRecorded, survey-several,
}
use migration_status_check.Scoping.Matcher.Holders.{holders, entries-index_by}

-- Both sides have the key, and the two addresses are those of the only scopes that do.
abbrev pub IsSole : Rule → List ScopeObject → List ScopeObject → ℕ → ℕ → Key → Type 0
IsSole rule baseline subject i j k =
    (b : ScopeObject) × ((s : ScopeObject) × ((holders rule.keys_of k baseline ≡ b ∷ [])
        × ((holders rule.keys_of k subject ≡ s ∷ []) × ((b.address ≡ i) × (s.address ≡ j)))))

-- The two scopes share every key that one of them has and the other side has, too, and no other
-- scope has such a key: neither of them has a choice.
abbrev pub HasNoChoice : Rule → List ScopeObject → List ScopeObject → ℕ → ℕ → Type 0
HasNoChoice rule baseline subject i j =
    (k : Key)
    → holders rule.keys_of k baseline ≢ []
    → holders rule.keys_of k subject ≢ []
    → (contains (addresses (holders rule.keys_of k baseline)) i ≡ true)
      ⊎ (contains (addresses (holders rule.keys_of k subject)) j ≡ true)
    → IsSole rule baseline subject i j k

get_of_entries :
    (d : Dict Key (List ScopeObject)) (k : Key) (os : List ScopeObject)
    → entries d k ≡ os
    → os ≢ []
    → Dict.get d k ≡ some os
unfolding entries
get_of_entries d k os e ne = elim (Option-cases (Dict.get d k)) [
  | inl q ↦ absurd (ne (sym e ∙ ap or_empty q))
  | inr (ps, q) ↦ q ∙ ap some (sym (ap or_empty q) ∙ e)
]

unless_blocked-clear :
    (blocked : List ℕ) (found : Option (ℕ × ScopeObject)) (q : ℕ × ScopeObject)
    → unless_blocked blocked found ≡ some q
    → (contains blocked q.0 ≡ false) × (found ≡ some q)
unless_blocked-clear blocked none q h = cc h
unless_blocked-clear blocked (some r) q h = elim (Bool-cases (contains blocked r.0)) [
  | inl x ↦ absurd (ground (arith, x, h))
  | inr x ↦
      let same : ◌≡◌ {A = Option (ℕ × ScopeObject)} (some r) (some q) = ground (arith, x, h) in
      (subst (λ z. contains blocked z.0 ≡ false) (some_value same) x, same)
]

only_partner-only :
    (found : Option (Dict ℕ ScopeObject)) (q : ℕ × ScopeObject)
    → only_partner found ≡ some q
    → found ≡ some (q ∷ [])
only_partner-only none q h = cc h
only_partner-only (some []) q h = cc h
only_partner-only (some (r ∷ [])) q h = ap (λ z. some (z ∷ [])) (some_value h)
only_partner-only (some (r ∷ t ∷ d)) q h = cc h

-- A scope and its partner are not ambiguous, and the scope has no other candidate.
pub partner-clear :
    (blocked : List ℕ) (candidates : Dict ℕ (Dict ℕ ScopeObject)) (paired : List ℕ)
    (o : ScopeObject) (q : ℕ × ScopeObject)
    → partner blocked candidates paired o ≡ some q
    → (contains blocked o.address ≡ false)
      × (contains blocked q.0 ≡ false)
      × (Dict.get candidates o.address ≡ some (q ∷ []))
unfolding partner
partner-clear blocked candidates paired o q h =
    elim (Bool-cases (contains blocked o.address || contains paired o.address)) [
      | inl x ↦ absurd (ground (arith, x, h))
      | inr x ↦
          let (clear, found) =
            unless_blocked-clear blocked (only_partner (Dict.get candidates o.address)) q
              (ground (arith, x, h)) in
          (ground (arith, x), clear, only_partner-only (Dict.get candidates o.address) q found)
    ]

only_address : (b : ScopeObject) (i : ℕ) → contains (addresses (b ∷ [])) i ≡ true → b.address ≡ i
only_address b i h = (eq_iff b.address i).0 (ground (arith, h))

has_only : (q : ℕ × ScopeObject) (a : ℕ) → Dict.has (q ∷ []) a ≡ true → q.0 ≡ a
unfolding Dict.has Dict.get
has_only q a h = (eq_iff q.0 a).0 (ground (arith, h))

-- Two candidates of a scope that has at most one are the same.
same_candidate :
    (ps : Dict ℕ ScopeObject) (a b : ℕ)
    → length ps ≤ 1
    → Dict.has ps a ≡ true
    → Dict.has ps b ≡ true
    → a ≡ b
unfolding Dict.has Dict.get
same_candidate [] a b l h k = cc h
same_candidate (p ∷ []) a b l h k = sym (has_only p a h) ∙ has_only p b k
same_candidate (p ∷ q ∷ ps) a b l h k = absurd (omega (arith, l))

pub only_one : {a b : ScopeObject} → a ∷ [] ≡ b ∷ [] → a ≡ b
only_one {a} h = ap (λ os. elim os [ [] ↦ a | o ∷ rest ↦ o ]) h

none_has : (a : ℕ) → ¬ (is_some (Dict.get {V = ScopeObject} [] a) ≡ true)
unfolding Dict.get
none_has a h = cc h

has_entries :
    (d : Dict ℕ (Dict ℕ ScopeObject)) (i a : ℕ)
    → HasCandidate d i a
    → Dict.get d i ≡ some (entries d i)
unfolding entries Dict.has
has_entries d i a h = elim (Option-cases (Dict.get d i)) [
  | inl q ↦ absurd (none_has a (subst (λ o. is_some (Dict.get (or_empty o) a) ≡ true) q h))
  | inr (ps, q) ↦ q ∙ ap some (sym (ap or_empty q))
]

module _ (rule : Rule) (m : Matching) where
  abbrev old : List ScopeObject
  old = m.remaining.baseline

  abbrev new : List ScopeObject
  new = m.remaining.subject

  abbrev pub surveyed : Survey
  surveyed = survey rule m.remaining.baseline m.remaining.subject m.ambiguity

  -- What the survey recorded of a key that both sides have
  recorded :
      (k : Key)
      → holders rule.keys_of k old ≢ []
      → IsRecorded surveyed (holders rule.keys_of k old) (holders rule.keys_of k new)
  recorded k ne =
      subst (IsRecorded surveyed (holders rule.keys_of k old)) (entries-index_by rule.keys_of new k)
        (survey-IsRecorded rule old new m.ambiguity k (holders rule.keys_of k old) (
          mem_of_get (index_by rule.keys_of old) k (holders rule.keys_of k old) (
            get_of_entries (index_by rule.keys_of old) k (holders rule.keys_of k old)
              (entries-index_by rule.keys_of old k) ne)))

  module _ (i : ℕ) (q : ℕ × ScopeObject) (i_clear : contains surveyed.rule_ambiguous i ≡ false)
      (q_clear : contains surveyed.rule_ambiguous q.0 ≡ false)
      (only : Dict.get surveyed.b_candidates i ≡ some (q ∷ [])) where
    -- A key of one of the two scopes that both sides have is not marked: its scopes are candidates.
    pub recorded-IsCandidates :
        (k : Key)
        → holders rule.keys_of k old ≢ []
        → holders rule.keys_of k new ≢ []
        → (contains (addresses (holders rule.keys_of k old)) i ≡ true)
          ⊎ (contains (addresses (holders rule.keys_of k new)) q.0 ≡ true)
        → IsCandidates surveyed (holders rule.keys_of k old) (holders rule.keys_of k new)
    recorded-IsCandidates k b_some s_some meets =
        let both =
          contains-append (addresses (holders rule.keys_of k new))
            (addresses (holders rule.keys_of k old)) in
        elim (recorded k b_some) [
          | inl e ↦ absurd (s_some e)
          | inr (inl c) ↦ c
          | inr (inr marked) ↦ absurd (elim meets [
            | inl h ↦ cc (marked i (ground (arith, both i, h)), i_clear)
            | inr h ↦ cc (marked q.0 (ground (arith, both q.0, h)), q_clear)
          ])
        ]

    one_of_subject :
        (a b : ℕ)
        → HasCandidate surveyed.s_candidates q.0 a
        → HasCandidate surveyed.s_candidates q.0 b
        → a ≡ b
    one_of_subject a b h k =
        same_candidate (entries surveyed.s_candidates q.0) a b
          (survey-several rule old new m.ambiguity q.0 (entries surveyed.s_candidates q.0)
            (has_entries surveyed.s_candidates q.0 a h) q_clear)
          h k

    one_of_baseline : (a : ℕ) → HasCandidate surveyed.b_candidates i a → a ≡ q.0
    unfolding entries
    one_of_baseline a h = sym (has_only q a (subst (λ o. Dict.has (or_empty o) a ≡ true) only h))

    pub no_choice : HasCandidate surveyed.s_candidates q.0 i → HasNoChoice rule old new i q.0
    no_choice mutual_candidates k b_some s_some meets =
        let c = recorded-IsCandidates k b_some s_some meets in
        elim meets [
          | inl h ↦
              let at_i =
                only_address c.b i (subst (λ os. contains (addresses os) i ≡ true) c.b_alone h) in
              (
                c.b,
                (
                  c.s,
                  (
                    c.b_alone,
                    (
                      c.s_alone,
                      (
                        at_i,
                        one_of_baseline c.s.address (
                            subst (λ z. HasCandidate surveyed.b_candidates z c.s.address) at_i
                              c.of_b),
                      ),
                    ),
                  ),
                ),
              )
          | inr h ↦
              let at_q =
                only_address c.s q.0
                  (subst (λ os. contains (addresses os) q.0 ≡ true) c.s_alone h) in
              (
                c.b,
                (
                  c.s,
                  (
                    c.b_alone,
                    (
                      c.s_alone,
                      (
                        one_of_subject c.b.address i
                            (subst (λ z. HasCandidate surveyed.s_candidates z c.b.address) at_q
                              c.of_s)
                            mutual_candidates,
                        at_q,
                      ),
                    ),
                  ),
                ),
              )
        ]
