-- ===== src/Scoping/Matcher/Survey.antt =====
-- The first pass of a rule: it decides every key for itself and collects the candidates, the rivals
-- and the ambiguities (`match_scopes` in migration_validator/scoping/matcher.py). A set of
-- addresses is a list.
use migration_status_check.Base.Dict
use migration_status_check.Base.Dict.{Dict}
use migration_status_check.Base.{
  ℕ, none, some, List, [], ◌∷◌, ◌++◌, map, filter, length, contains, ltb, if◌then◌else◌, nat_eq,
}
use migration_status_check.Scoping.Matcher.{
  ScopeObject, Reason, ambiguity_reason, append_at, entries,
}
use migration_status_check.Scoping.Matcher.Keys.{Key, key_eq}

-- By the address of a scope: the ambiguities in the order of the rules, with the rivals of each.
abbrev pub Ambiguity : Type 0
Ambiguity = Dict ℕ (List (Reason × List ScopeObject))

pub record Survey : Type 0 where
  pub rule_ambiguous : List ℕ
  pub b_scopes : Dict ℕ ScopeObject
  pub s_scopes : Dict ℕ ScopeObject
  pub b_candidates : Dict ℕ (Dict ℕ ScopeObject)
  pub s_candidates : Dict ℕ (Dict ℕ ScopeObject)
  pub b_rivals : Dict ℕ (Dict ℕ ScopeObject)
  pub s_rivals : Dict ℕ (Dict ℕ ScopeObject)
  pub ambiguity : Ambiguity

-- The start of a rule; the ambiguities of the rules before it are kept.
abbrev pub new_survey : Ambiguity → Survey
new_survey a = record {
  rule_ambiguous = [];
  b_scopes = [];
  s_scopes = [];
  b_candidates = [];
  s_candidates = [];
  b_rivals = [];
  s_rivals = [];
  ambiguity = a;
}

-- `d.update((id(s), s) for s in scopes)`
unfoldable pub put_all : Dict ℕ ScopeObject → List ScopeObject → Dict ℕ ScopeObject
put_all d [] = d
put_all d (o ∷ os) = put_all (Dict.put d o.address o) os

-- `for b in scopes: d.setdefault(id(b), {}).update((id(s), s) for s in others)`
unfoldable pub add_rivals :
    Dict ℕ (Dict ℕ ScopeObject) → List ScopeObject → List ScopeObject → Dict ℕ (Dict ℕ ScopeObject)
add_rivals d [] others = d
add_rivals d (o ∷ os) others =
    add_rivals (Dict.put d o.address (put_all (entries d o.address) others)) os others

-- `d.setdefault(id(b), {})[id(s)] = s`
unfoldable pub add_candidate :
    Dict ℕ (Dict ℕ ScopeObject) → ScopeObject → ScopeObject → Dict ℕ (Dict ℕ ScopeObject)
add_candidate d b s = Dict.put d b.address (Dict.put (entries d b.address) s.address s)

-- `for id in ids: ambiguity.setdefault(id, []).append(entry)`
unfoldable pub note_all : List ℕ → Reason × List ScopeObject → Ambiguity → Ambiguity
note_all [] entry a = a
note_all (i ∷ is) entry a = note_all is entry (append_at a i entry)

abbrev pub addresses : List ScopeObject → List ℕ
addresses os = map (λ o. o.address) os

-- `s_hits if len(s_hits) > 1 else b_hits`
abbrev pub crowd : List ScopeObject → List ScopeObject → List ScopeObject
crowd b_hits s_hits = if ltb 1 (length s_hits) then s_hits else b_hits

abbrev pub with_rivals : List ScopeObject → List ScopeObject → Survey → Survey
with_rivals b_hits s_hits v = record v {
  b_rivals = add_rivals v.b_rivals b_hits s_hits;
  s_rivals = add_rivals v.s_rivals s_hits b_hits;
}

-- A key with one scope on either side
unfoldable pub add_edge : ScopeObject → ScopeObject → Survey → Survey
add_edge b s v = record v {
  b_scopes = Dict.put v.b_scopes b.address b;
  s_scopes = Dict.put v.s_scopes s.address s;
  b_candidates = add_candidate v.b_candidates b s;
  s_candidates = add_candidate v.s_candidates s b;
}

-- A key with several scopes on a side
unfoldable pub add_crowd : List ScopeObject → List ScopeObject → Survey → Survey
add_crowd b_hits s_hits v =
    let reason = ambiguity_reason (crowd b_hits s_hits) in
    record v {
      rule_ambiguous = addresses s_hits ++ (addresses b_hits ++ v.rule_ambiguous);
      ambiguity =
          note_all (addresses s_hits) (reason, b_hits)
            (note_all (addresses b_hits) (reason, s_hits) v.ambiguity);
    }

-- One key, with the scopes that have it on either side
abbrev pub survey_key : List ScopeObject → List ScopeObject → Survey → Survey
survey_key b_hits [] v = v
survey_key (b ∷ []) (s ∷ []) v = add_edge b s (with_rivals (b ∷ []) (s ∷ []) v)
survey_key b_hits s_hits v = add_crowd b_hits s_hits (with_rivals b_hits s_hits v)

-- `for key, b_hits in baseline_index.items()`
unfoldable pub survey_keys :
    Dict Key (List ScopeObject) → Dict Key (List ScopeObject) → Survey → Survey
survey_keys [] subject_index v = v
survey_keys ((key, b_hits) ∷ rest) subject_index v =
    survey_keys rest subject_index (survey_key b_hits (entries subject_index key) v)

-- `[scopes[i]]`: the scope is always there, since a candidate is stored together with it.
abbrev pub stored : Dict ℕ ScopeObject → ℕ → List ScopeObject
stored scopes i = elim (Dict.get scopes i) [ none ↦ [] | some o ↦ o ∷ [] ]

abbrev pub partners_of : Dict ℕ ScopeObject → List ScopeObject
partners_of partners = map (λ p. p.1) partners

-- A scope with several partners is ambiguous, and so are they.
unfoldable pub spread : Dict ℕ ScopeObject → ℕ → Dict ℕ ScopeObject → Survey → Survey
spread scopes i partners v =
    let rivals = partners_of partners in
    let reason = ambiguity_reason rivals in
    if ltb 1 (length partners)
    then record v {
      rule_ambiguous = addresses rivals ++ (i ∷ v.rule_ambiguous);
      ambiguity =
          note_all (addresses rivals) (reason, stored scopes i)
            (append_at v.ambiguity i (reason, rivals));
    }
    else v

unfoldable pub spread_all : Dict ℕ ScopeObject → Dict ℕ (Dict ℕ ScopeObject) → Survey → Survey
spread_all scopes [] v = v
spread_all scopes ((i, partners) ∷ rest) v = spread_all scopes rest (spread scopes i partners v)

-- An edge with an ambiguous end is noted for both of its ends. `remaining` are the scopes of the
-- other side, `rivals` those that share a key with the scope.
unfoldable pub note_edge :
    List ℕ
    → Dict ℕ ScopeObject
    → Dict ℕ (Dict ℕ ScopeObject)
    → List ScopeObject
    → ℕ
    → Dict ℕ ScopeObject
    → Ambiguity
    → Ambiguity
note_edge blocked scopes rivals remaining i partners a =
    let shared = map (λ p. p.0) (entries rivals i) in
    let reason = ambiguity_reason (filter (λ o. contains shared o.address) remaining) in
    if contains blocked i
    then note_all (map (λ p. p.0) partners) (reason, stored scopes i)
        (append_at a i (reason, partners_of partners))
    else a

unfoldable pub note_edges :
    List ℕ
    → Dict ℕ ScopeObject
    → Dict ℕ (Dict ℕ ScopeObject)
    → List ScopeObject
    → Dict ℕ (Dict ℕ ScopeObject)
    → Ambiguity
    → Ambiguity
note_edges blocked scopes rivals remaining [] a = a
note_edges blocked scopes rivals remaining ((i, partners) ∷ rest) a =
    note_edges blocked scopes rivals remaining rest
      (note_edge blocked scopes rivals remaining i partners a)
