-- ===== src/Models/Scope/Select.antt =====
-- Which facts of a device belong to a scope (`Scope.select`, `owns_bgp_peer`, `owns_bfd_session` in
-- migration_validator/models/scope.py).
pub mod Areas
pub mod Laws
mod Tests
use migration_status_check.Base.Dict
use migration_status_check.Base.Dict.{Dict}
use migration_status_check.Base.{
  ℕ, String, Bool, true, false, not, ◌&&◌, ◌||◌, Option, none, some, List, [], ◌∷◌, ◌++◌, map,
  filter, any, length, contains, ◌==◌, string_eq, option_eq, if◌then◌else◌,
}
use migration_status_check.Base.Integer.{pos}
use migration_status_check.Models.Value.{Value, null, int, str, truthy}
use migration_status_check.Models.Value.Access.{
  value_at, flag_at, text_at, is_text, py_str, of_dict,
}
use migration_status_check.Models.Scope.{
  Scope, Selectors, matches_interface, service_type, service_subtype,
}

abbrev pub Record : Type 0
Record = Dict String Value

abbrev pub head? : List String → Option String
head? [] = none
head? (x ∷ xs) = some x

-- `Scope.bgp_instance`
unfoldable pub bgp_instance : Scope → Option String
bgp_instance s =
    if service_type s == some "IPVPN" then head? s.selectors.routing_instances else none

-- `Scope.owns_bgp_peer`
unfoldable pub owns_bgp_peer : Scope → Record → Bool
owns_bgp_peer s r =
    (contains s.selectors.bgp_neighbors (text_at r "address")
      || contains s.selectors.bgp_neighbors_inactive (text_at r "address"))
    && is_text (value_at r "routing_instance") (bgp_instance s)

unfoldable pub is_transit_core : Scope → Bool
is_transit_core s = service_type s == some "Core" && service_subtype s == some "transit"

-- A session of the neighbor on an interface of the scope
unfoldable pub is_single_hop : Scope → String → Record → Bool
is_single_hop s neighbor r =
    flag_at r "interface"
    && (text_at r "neighbor" == neighbor && matches_interface s.selectors (text_at r "interface"))

-- `Scope.owns_bfd_session`: a session without an interface is multihop.
unfoldable pub owns_bfd_session : Scope → Record → List Record → Bool
owns_bfd_session s r records =
    if flag_at r "interface"
    then (contains s.selectors.bgp_neighbors (text_at r "neighbor") || is_transit_core s)
      && matches_interface s.selectors (text_at r "interface")
    else contains s.selectors.bgp_neighbors (text_at r "neighbor")
      && not (any (is_single_hop s (text_at r "neighbor")) records)

-- `grouped.setdefault(str(record.get(key)), []).append(record)`
unfoldable pub add_to_group :
    Dict String (List Record) → String → Record → Dict String (List Record)
add_to_group d k r = Dict.put d k (elim (Dict.get d k) [ none ↦ r ∷ [] | some rs ↦ rs ++ (r ∷ []) ])

unfoldable pub group_from :
    String → Dict String (List Record) → List Record → Dict String (List Record)
group_from key d [] = d
group_from key d (r ∷ rs) = group_from key (add_to_group d (text_at r key) r) rs

-- The view: the groups of one record
unfoldable pub view_of : Dict String (List Record) → Dict String Record
view_of [] = []
view_of ((k, r ∷ []) ∷ d) = (k, r) ∷ view_of d
view_of ((k, _) ∷ d) = view_of d

-- The groups of several records, with their number
unfoldable pub ambiguous_of : Dict String (List Record) → Dict String ℕ
ambiguous_of [] = []
ambiguous_of ((k, r ∷ s ∷ rs) ∷ d) = (k, length (r ∷ s ∷ rs)) ∷ ambiguous_of d
ambiguous_of ((k, _) ∷ d) = ambiguous_of d

-- `_by_key`
unfoldable pub by_key : List Record → String → Dict String Record × Dict String ℕ
by_key records key = (view_of (group_from key [] records), ambiguous_of (group_from key [] records))

pub record RouteKey : Type 0 where
  pub rib : String
  pub prefix : String
  pub protocol : String

abbrev pub route_type_or_static : Option Value → String
route_type_or_static none = "static"
route_type_or_static (some v) = py_str v

-- `record.get("protocol")`, or the `route_type` where it is None
abbrev pub protocol_of : Record → Value → String
protocol_of r null = route_type_or_static (Dict.get r "route_type")
protocol_of r v = py_str v

-- `route_key`
unfoldable pub route_key : Record → RouteKey
route_key r = record {
  rib = text_at r "rib";
  prefix = text_at r "prefix";
  protocol = protocol_of r (value_at r "protocol");
}

abbrev pub same_route : RouteKey → RouteKey → Bool
same_route a b = a.rib == b.rib && (a.prefix == b.prefix && a.protocol == b.protocol)

-- `route_key(record) in {route_key(route) for route in routes}`
unfoldable pub is_wanted : List Record → Record → Bool
is_wanted wanted r = any (λ w. same_route (route_key w) (route_key r)) wanted
