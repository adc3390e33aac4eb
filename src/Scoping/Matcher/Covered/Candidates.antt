-- ===== src/Scoping/Matcher/Covered/Candidates.antt =====
-- Where the candidates of a rule come from
-- (`match_scopes` in migration_validator/scoping/matcher.py).
use migration_status_check.Base.Dict
use migration_status_check.Base.Dict.{Dict}
use migration_status_check.Base.{
  Option, none, some, ap, arith, ℕ, ◌≡◌, refl, sym, subst, ◌∙◌, List, [], ◌∷◌, nat_eq, arith,
  Option-cases, inl, inr, All,
}
use migration_status_check.Scoping.Matcher.{ScopeObject, entries}
use migration_status_check.Scoping.Matcher.Keys.{Key, key_eq, Rule, index_by}
use migration_status_check.Scoping.Matcher.Survey.{
  Survey, Ambiguity, new_survey, add_candidate, add_edge, add_crowd, survey_key, survey_keys,
  spread, spread_all,
}
use migration_status_check.Scoping.Matcher.Match.{survey, only_partner, partner}
use mathlib.Core.List.{Memᴰ}

spread-b_candidates :
    (scopes : Dict ℕ ScopeObject) (i : ℕ) (ps : Dict ℕ ScopeObject) (v : Survey)
    → (spread scopes i ps v).b_candidates ≡ v.b_candidates
unfolding spread
spread-b_candidates scopes i ps v = ground arith

spread_all-b_candidates :
    (scopes : Dict ℕ ScopeObject) (d : Dict ℕ (Dict ℕ ScopeObject)) (v : Survey)
    → (spread_all scopes d v).b_candidates ≡ v.b_candidates
unfolding spread_all
spread_all-b_candidates scopes [] v = refl
spread_all-b_candidates scopes ((i, ps) ∷ rest) v =
    spread_all-b_candidates scopes rest (spread scopes i ps v) ∙ spread-b_candidates scopes i ps v

-- What holds of every edge of a key holds of every candidate: `P` takes the address of a baseline
-- scope, and the address and the object of its candidate.
module _ (P : ℕ → ℕ × ScopeObject → Type 0) where
  abbrev pub AreOf : Dict ℕ (Dict ℕ ScopeObject) → Type 0
  AreOf d = All (λ e. All (P e.0) e.1) d

  pub entries-AreOf : (d : Dict ℕ (Dict ℕ ScopeObject)) (i : ℕ) → AreOf d → All (P i) (entries d i)
  unfolding entries
  entries-AreOf d i a = elim (Option-cases (Dict.get d i)) [
    | inl q ↦ rw (q, All) tt
    | inr (ps, q) ↦ rw (q, All) (Dict.All-get (λ e. All (P e.0) e.1) d i a q)
  ]

  add_candidate-AreOf :
      (d : Dict ℕ (Dict ℕ ScopeObject)) (b s : ScopeObject)
      → P b.address (s.address, s)
      → AreOf d
      → AreOf (add_candidate d b s)
  unfolding add_candidate
  add_candidate-AreOf d b s h a =
      Dict.All-put (λ e. All (P e.0) e.1) d b.address _
        (Dict.All-put (P b.address) (entries d b.address) s.address s h
          (entries-AreOf d b.address a))
        a

  survey_key-AreOf :
      (bs ss : List ScopeObject) (v : Survey)
      → ((b s : ScopeObject) → bs ≡ b ∷ [] → ss ≡ s ∷ [] → P b.address (s.address, s))
      → AreOf v.b_candidates
      → AreOf (survey_key bs ss v).b_candidates
  unfolding add_edge add_crowd
  survey_key-AreOf bs [] v h a = a
  survey_key-AreOf [] (s ∷ ss) v h a = a
  survey_key-AreOf (b ∷ []) (s ∷ []) v h a =
      add_candidate-AreOf v.b_candidates b s (h b s refl refl) a
  survey_key-AreOf (b ∷ []) (s ∷ t ∷ ss) v h a = a
  survey_key-AreOf (b ∷ c ∷ bs) (s ∷ ss) v h a = a

  survey_keys-AreOf :
      (b_index s_index : Dict Key (List ScopeObject)) (v : Survey)
      → ((k : Key) (b s : ScopeObject)
          → Memᴰ (k, b ∷ []) b_index
          → entries s_index k ≡ s ∷ []
          → P b.address (s.address, s))
      → AreOf v.b_candidates
      → AreOf (survey_keys b_index s_index v).b_candidates
  unfolding survey_keys
  survey_keys-AreOf [] s_index v h a = a
  survey_keys-AreOf ((k, bs) ∷ rest) s_index v h a =
      survey_keys-AreOf rest s_index (survey_key bs (entries s_index k) v)
        (λ j b s m. h j b s (Memᴰ.tail m))
        (survey_key-AreOf bs (entries s_index k) v
          (λ b s p q. h k b s (Memᴰ.head (ap (λ z. (k, z)) (sym p))) q) a)

  -- A key that one scope has on either side makes them candidates, and nothing else does.
  pub survey-AreOf :
      (rule : Rule) (baseline subject : List ScopeObject) (before : Ambiguity)
      → ((k : Key) (b s : ScopeObject)
          → Memᴰ (k, b ∷ []) (index_by rule.keys_of baseline)
          → entries (index_by rule.keys_of subject) k ≡ s ∷ []
          → P b.address (s.address, s))
      → AreOf (survey rule baseline subject before).b_candidates
  unfolding survey
  survey-AreOf rule baseline subject before h =
      let keyed =
        survey_keys (index_by rule.keys_of baseline) (index_by rule.keys_of subject)
          (new_survey before) in
      let b_spread = spread_all keyed.b_scopes keyed.b_candidates keyed in
      subst AreOf
        (sym (
          spread_all-b_candidates b_spread.s_scopes b_spread.s_candidates b_spread
          ∙ spread_all-b_candidates keyed.b_scopes keyed.b_candidates keyed))
        (survey_keys-AreOf (index_by rule.keys_of baseline) (index_by rule.keys_of subject)
          (new_survey before) h tt)

abbrev pub IsOwnAddress : ℕ → ℕ × ScopeObject → Type 0
IsOwnAddress i p = p.0 ≡ p.1.address

abbrev pub AreOwn : Dict ℕ (Dict ℕ ScopeObject) → Type 0
AreOwn d = AreOf IsOwnAddress d

pub survey-AreOwn :
    (rule : Rule) (baseline subject : List ScopeObject) (before : Ambiguity)
    → AreOwn (survey rule baseline subject before).b_candidates
survey-AreOwn rule baseline subject before =
    survey-AreOf IsOwnAddress rule baseline subject before (λ k b s m q. refl)

module _ (P : ℕ → ℕ × ScopeObject → Type 0) where
  only_partner-of :
      (i : ℕ) (ps : Option (Dict ℕ ScopeObject)) (q : ℕ × ScopeObject)
      → ((d : Dict ℕ ScopeObject) → ps ≡ some d → All (P i) d)
      → only_partner ps ≡ some q
      → P i q
  only_partner-of i none q a h = cc
  only_partner-of i (some []) q a h = cc
  only_partner-of i (some (p ∷ [])) q a h =
      let same : p ≡ q = ground arith in subst (P i) same (a (p ∷ []) refl).0
  only_partner-of i (some (p ∷ r ∷ d)) q a h = cc

  -- The partner of a scope is one of its candidates.
  pub partner-of :
      (blocked : List ℕ) (candidates : Dict ℕ (Dict ℕ ScopeObject)) (paired : List ℕ)
      (o : ScopeObject) (q : ℕ × ScopeObject)
      → AreOf P candidates
      → partner blocked candidates paired o ≡ some q
      → P o.address q
  unfolding partner
  partner-of blocked candidates paired o q a h =
      elim (Option-cases (only_partner (Dict.get candidates o.address))) [
        | inl n ↦ absurd (ground (arith, n, h))
        | inr (r, n) ↦
            let same : r ≡ q = ground (arith, n, h) in
            only_partner-of o.address (Dict.get candidates o.address) q
              (λ d e. Dict.All-get (λ x. All (P x.0) x.1) candidates o.address a e)
              (n ∙ ap some same)
      ]
