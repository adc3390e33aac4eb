-- ===== src/Scoping/Matcher.antt =====
-- The matching of the scopes of two snapshots (migration_validator/scoping/matcher.py). A scope is
-- an object: `address` is its `id(scope)`. The keys of a rule are tuples of texts, here lists.
pub mod Keys
pub mod Manual
pub mod Survey
pub mod Match
pub mod Covered
pub mod Alone
pub mod Holders
pub mod Choice
pub mod Unambiguous
mod Tests
use migration_status_check.Base.Dict
use migration_status_check.Base.Dict.{Dict}
use migration_status_check.Base.{ℕ, String, Option, none, some, List, [], ◌∷◌, ◌++◌, map, Eq}
use migration_status_check.Models.Scope.{Scope}

pub record ScopeObject : Type 0 where
  pub address : ℕ
  pub scope : Scope

-- `ambiguous ids` is the text "ambiguous: N kandidatu (ids)".
pub data Reason : Type 0 where
  no_candidate : Reason
  new_service : Reason
  ambiguous : List String → Reason

pub record MatchedPair : Type 0 where
  pub baseline : ScopeObject
  pub subject : ScopeObject
  pub method : String
  pub confidence : String

pub record UnmatchedScope : Type 0 where
  pub scope : ScopeObject
  pub reason : Reason

pub record MatchSet : Type 0 where
  pub pairs : List MatchedPair
  pub unmatched_baseline : List UnmatchedScope
  pub unmatched_subject : List UnmatchedScope

-- `_ambiguity_reason`
unfoldable pub ambiguity_reason : List ScopeObject → Reason
ambiguity_reason candidates = ambiguous (map (λ o. o.scope.id) candidates)

abbrev pub or_empty {ℓ} : {A : Type ℓ} → Option (List A) → List A
or_empty none = []
or_empty (some xs) = xs

module _ {ℓ κ} {K : Type ℓ} {V : Type κ} ⦃e : Eq K⦄ where
  -- `d.get(k, [])`
  unfoldable pub entries : Dict K (List V) → K → List V
  entries d k = or_empty (Dict.get d k)

  -- `d.setdefault(k, []).append(v)`
  unfoldable pub append_at : Dict K (List V) → K → V → Dict K (List V)
  append_at d k v = Dict.put d k (entries d k ++ (v ∷ []))
