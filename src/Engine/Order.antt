-- ===== src/Engine/Order.antt =====
-- The links of the results and their order, an L2 block right after its L3 block
-- (`_link_payloads`, `_reorder_linked` in migration_validator/engine.py).
pub mod Laws
mod Tests
use migration_status_check.Base.Dict
use migration_status_check.Base.Dict.{Dict}
use migration_status_check.Base.Results.{Result, returns, raises, ◌>>=◌}
use migration_status_check.Base.{
  String, Bool, true, false, not, Option, none, some, List, [], ◌∷◌, ◌++◌, ◌==◌, string_eq, map,
  filter, contains, if◌then◌else◌,
}
use migration_status_check.Models.Status.{Status, worst, skip}
use migration_status_check.Models.Finding.{CheckResult}
use migration_status_check.Scoping.Linker.{ScopeLink}
use migration_status_check.Models.Scope.{ScopeKey}
use migration_status_check.Scoping.Matcher.{Reason, append_at, entries}

pub record PeerRef : Type 0 where
  pub scope_id : String
  pub interface : String
  pub instance_of : String

-- The dictionaries with role "l3" and role "l2"
pub data Link : Type 0 where
  l3 : List PeerRef → Link
  l2 : String → String → String → Link

-- `status` of a scope: a skipped check counts only if there is nothing else.
abbrev pub status_or_skip : List Status → Status
status_or_skip [] = skip
status_or_skip (s ∷ ss) = worst (s ∷ ss)

abbrev pub is_skip : Status → Bool
is_skip skip = true
is_skip _ = false

-- The status in `_run_scope`
unfoldable pub scope_status : List CheckResult → Status
scope_status results = status_or_skip (filter (λ s. not (is_skip s)) (map (λ r. r.status) results))

-- `status` is "matched" or "unmatched".
pub record MatchInfo : Type 0 where
  pub status : String
  pub method : Option String
  pub confidence : Option String
  pub baseline_interfaces : List String
  pub subject_interfaces : List String
  pub reason : Option Reason

-- The dictionary of `_identity`
pub record Identity : Type 0 where
  pub description : Option String
  pub service_type : Option String
  pub service_subtype : Option String
  pub routing_instance : Option String
  pub interfaces : List String
  pub physical_interfaces : List String
  pub ipv4 : List String
  pub ipv6 : List String
  pub virtual_gw_v4 : List String
  pub virtual_gw_v6 : List String
  pub l2_interfaces : List String

pub record ScopeResult : Type 0 where
  pub scope_id : String
  pub key : Option ScopeKey
  pub status : Status
  pub match_info : Option MatchInfo
  pub checks : List CheckResult
  pub identity : Identity
  pub link : Option Link

-- "master" is shown as the table inet.0.
abbrev pub shown_instance : String → String
shown_instance context = if context == "master" then "inet.0" else context

abbrev pub peer_of : ScopeLink → PeerRef
peer_of link = record {
  scope_id = link.l2_scope_id;
  interface = link.l2_interface;
  instance_of = link.l2_instance;
}

-- `payloads.setdefault(id, {"role": "l3", "peers": []})["peers"].append(peer)`: the payload of an L2
-- part has no peers.
abbrev pub add_peer : Option Link → PeerRef → Result Link
add_peer none p = returns (l3 (p ∷ []))
add_peer (some (l3 ps)) p = returns (l3 (ps ++ (p ∷ [])))
add_peer (some (l2 a b c)) p = raises "KeyError: 'peers'"

unfoldable pub add_payload : Dict String Link → ScopeLink → Result (Dict String Link)
add_payload payloads link =
    add_peer (Dict.get payloads link.l3_scope_id) (peer_of link) >>= λ l3_payload. returns (
      Dict.put (Dict.put payloads link.l3_scope_id l3_payload) link.l2_scope_id
        (l2 link.l3_scope_id link.irb_interface (shown_instance link.l3_context)))

unfoldable pub add_payloads : Dict String Link → List ScopeLink → Result (Dict String Link)
add_payloads payloads [] = returns payloads
add_payloads payloads (link ∷ links) = add_payload payloads link >>= λ ps. add_payloads ps links

-- `_link_payloads`
unfoldable pub link_payloads : List ScopeLink → Result (Dict String Link)
link_payloads links = add_payloads [] links

-- The L3 scope that a result hangs on, if it is an L2 part
abbrev pub peer_id : Option Link → Option String
peer_id (some (l2 id interface instance_of)) = some id
peer_id _ = none

-- The L3 scope behind which a result goes: one that is among the results
unfoldable pub anchor : List String → ScopeResult → Option String
anchor ids r = elim (peer_id r.link) [
  | none ↦ none
  | some id ↦ if contains ids id then some id else none
]

pub record Anchored : Type 0 where
  pub l2_after : Dict String (List ScopeResult)
  pub l2_ids : List String

unfoldable pub hang : Option String → ScopeResult → Anchored → Anchored
hang none r acc = acc
hang (some id) r acc = record {
  l2_after = append_at acc.l2_after id r;
  l2_ids = r.scope_id ∷ acc.l2_ids;
}

unfoldable pub hang_all : List String → List ScopeResult → Anchored → Anchored
hang_all ids [] acc = acc
hang_all ids (r ∷ rs) acc = hang_all ids rs (hang (anchor ids r) r acc)

unfoldable pub lay_out : Anchored → List ScopeResult → List ScopeResult
lay_out a [] = []
lay_out a (r ∷ rs) =
    let rest = lay_out a rs in
    if contains a.l2_ids r.scope_id then rest else r ∷ (entries a.l2_after r.scope_id ++ rest)

-- `_reorder_linked`
unfoldable pub reorder_linked : List ScopeResult → List ScopeResult
reorder_linked results =
    lay_out
      (hang_all (map (λ r. r.scope_id) results) results (record { l2_after = []; l2_ids = [] }))
      results
