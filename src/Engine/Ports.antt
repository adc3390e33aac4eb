-- ===== src/Engine/Ports.antt =====
-- The L1 port of a block, and the baseline of an L1 port by the votes of its paired children
-- (`_parent_port`, `_l1_baseline` in migration_validator/engine.py).
pub mod Laws
mod Tests
use migration_status_check.Base.Dict
use migration_status_check.Base.Dict.{Dict}
use migration_status_check.Base.{
  ℕ, suc, String, Bool, true, false, not, Option, none, some, List, [], ◌∷◌, ◌==◌, string_eq,
  nat_eq, find?, ltb, if◌then◌else◌,
}
use migration_status_check.Models.Scope.{Scope}
use migration_status_check.Models.Scope.Select.{head?}
use migration_status_check.Scoping.Linker.{is_only}
use migration_status_check.Scoping.Matcher.{MatchedPair}
use migration_status_check.Engine.Order.{ScopeResult, Link, l3, PeerRef}

-- The first peer that is among the results
unfoldable pub first_peer : Dict String ScopeResult → List PeerRef → Option ScopeResult
first_peer by_id [] = none
first_peer by_id (p ∷ ps) = elim (Dict.get by_id p.scope_id) [
  | none ↦ first_peer by_id ps
  | some r ↦ some r
]

abbrev pub or_else : Option ScopeResult → ScopeResult → ScopeResult
or_else none r = r
or_else (some p) r = p

abbrev pub bearer : Dict String ScopeResult → ScopeResult → Option Link → ScopeResult
bearer by_id r (some (l3 ps)) = or_else (first_peer by_id ps) r
bearer by_id r _ = r

-- `_parent_port`
unfoldable pub parent_port : Dict String ScopeResult → ScopeResult → Option String
parent_port by_id r = head? (bearer by_id r r.link).identity.physical_interfaces

abbrev pub count_of : Option ℕ → ℕ
count_of none = 0
count_of (some n) = n

-- `votes[parent] += 1`
unfoldable pub add_vote : Dict String ℕ → Option String → Dict String ℕ
add_vote votes none = votes
add_vote votes (some p) = Dict.put votes p (suc (count_of (Dict.get votes p)))

unfoldable pub count_votes : String → List MatchedPair → Dict String ℕ → Dict String ℕ
count_votes port [] votes = votes
count_votes port (p ∷ ps) votes = count_votes port ps (
    if is_only p.subject.scope.selectors.physical_interfaces port
    then add_vote votes (head? p.baseline.scope.selectors.physical_interfaces)
    else votes)

-- The name with the most votes and its votes; the first of equals
unfoldable pub leader : Dict String ℕ → Option (String × ℕ)
leader [] = none
leader ((name, n) ∷ rest) = elim (leader rest) [
  | none ↦ some (name, n)
  | some top ↦ if ltb n top.1 then some top else some (name, n)
]

-- Nobody else has as many votes.
unfoldable pub is_tied : String × ℕ → Dict String ℕ → Bool
is_tied top [] = false
is_tied top ((name, n) ∷ rest) =
    let more = is_tied top rest in
    if not (name == top.0) then (if n == top.1 then true else more) else more

-- `votes.most_common()` without a tie at the top
unfoldable pub winner : Dict String ℕ → Option String
winner votes = elim (leader votes) [
  | none ↦ none
  | some top ↦ if is_tied top votes then none else some top.0
]

-- `_l1_baseline` of the port of an L1 scope
unfoldable pub l1_baseline : String → List MatchedPair → List Scope → Option Scope
l1_baseline port pairs baseline_l1 = elim (winner (count_votes port pairs [])) [
  | none ↦ none
  | some top ↦ find? (λ s. is_only s.selectors.interfaces top) baseline_l1
]
