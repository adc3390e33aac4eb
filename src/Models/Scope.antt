-- ===== src/Models/Scope.antt =====
-- Scopes: which services a snapshot holds and what they select
-- (migration_validator/models/scope.py).
pub mod Reason
pub mod Select
mod Tests
use migration_status_check.Base.Dict.{Dict}
use migration_status_check.Base.{
  String, Bool, true, false, not, ◌&&◌, ◌||◌, Option, none, some, List, [], ◌∷◌, ◌++◌, ◌==◌,
  string_eq, option_eq, contains, concat, if◌then◌else◌,
}
use migration_status_check.Models.Value.{Value}

abbrev pub layer1_service_type : String
layer1_service_type = "Layer1"

abbrev pub local_l2_subtype : String
local_l2_subtype = "local"

pub record ScopeKey : Type 0 where
  pub description : Option String
  pub service_type : String
  pub service_subtype : Option String

pub record Selectors : Type 0 where
  pub interfaces : List String
  pub physical_interfaces : List String
  pub routing_instances : List String
  pub bgp_neighbors : List String
  pub bgp_neighbors_inactive : List String
  pub local_ipv4 : List String
  pub local_ipv6 : List String
  pub virtual_gw_v4 : List String
  pub virtual_gw_v6 : List String
  pub vlans : List String
  pub bridge_domains : List String
  pub lag_members : List String
  pub l2_interfaces : List String
  pub static_routes : List (Dict String Value)
  pub bfd_peers : List (Dict String Value)
  pub protocols : List String
  pub mvpn_site : List String

abbrev pub no_selectors : Selectors
no_selectors = record {
  interfaces = [];
  physical_interfaces = [];
  routing_instances = [];
  bgp_neighbors = [];
  bgp_neighbors_inactive = [];
  local_ipv4 = [];
  local_ipv6 = [];
  virtual_gw_v4 = [];
  virtual_gw_v6 = [];
  vlans = [];
  bridge_domains = [];
  lag_members = [];
  l2_interfaces = [];
  static_routes = [];
  bfd_peers = [];
  protocols = [];
  mvpn_site = [];
}

-- `Selectors.matches_interface`
unfoldable pub matches_interface : Selectors → String → Bool
matches_interface s name = contains s.interfaces name || contains s.physical_interfaces name

-- `kind` is "service" or "layer1".
pub record Scope : Type 0 where
  pub id : String
  pub kind : String
  pub key : Option ScopeKey
  pub selectors : Selectors
  pub routing_instance_active : Bool
  pub interface_active : Bool

unfoldable pub is_deactivated : Scope → Bool
is_deactivated s = not (s.routing_instance_active && s.interface_active)

-- `Scope.service_type`
unfoldable pub service_type : Scope → Option String
service_type s = elim s.key [ none ↦ none | some k ↦ some k.service_type ]

-- `Scope.service_subtype`
unfoldable pub service_subtype : Scope → Option String
service_subtype s = elim s.key [ none ↦ none | some k ↦ k.service_subtype ]

abbrev pub is_empty {ℓ} : {A : Type ℓ} → List A → Bool
is_empty [] = true
is_empty (x ∷ xs) = false

-- `" + ".join(reasons)`
abbrev pub join_plus : List String → String
join_plus [] = ""
join_plus (r ∷ []) = r
join_plus (r ∷ rs) = concat (r ∷ " + " ∷ join_plus rs ∷ [])

-- The reasons of a deactivation, the container first.
unfoldable pub deactivation_reasons : Scope → List String
unfolding service_subtype
deactivation_reasons s =
    let is_local =
      service_subtype s == some local_l2_subtype && is_empty s.selectors.routing_instances in
    (if s.routing_instance_active then [] else (if is_local then "bridge-domain" else "RI") ∷ [])
    ++ (if s.interface_active then [] else "interface" ∷ [])

abbrev pub reason_text : List String → Option String
reason_text [] = none
reason_text (r ∷ rs) = some (concat (join_plus (r ∷ rs) ∷ " deactivated" ∷ []))

-- `Scope.deactivation_reason`: none for a live service.
unfoldable pub deactivation_reason : Scope → Option String
unfolding deactivation_reasons
deactivation_reason s = reason_text (deactivation_reasons s)
