-- ===== src/Engine/Unassigned.antt =====
-- What the device has and no scope claims: BGP sessions, BFD sessions and routes
-- (`_unassigned_bgp_peers`, `_unassigned_bfd_sessions`, `_unassigned_static_routes` in
-- migration_validator/engine.py). The standard library's `ipaddress` networks are a parameter.
pub mod Laws
mod Tests
use Prim.Native.Char.{Char, code}
use text.Mathlib.Text.{starts_with}
use migration_status_check.Base.Dict
use migration_status_check.Base.Dict.{Dict}
use migration_status_check.Base.Sort.{sort_by, text_le}
use migration_status_check.Base.Address.{chars, split}
use migration_status_check.Base.{
  ℕ, String, Bool, true, false, not, ◌&&◌, ◌||◌, Option, none, some, List, [], ◌∷◌, ◌++◌, map,
  filter, any, contains, ◌==◌, nat_eq, string_eq, option_eq, if◌then◌else◌,
}
use migration_status_check.Models.Value.{Value, null, bool, str, truthy}
use migration_status_check.Models.Value.Access.{
  value_at, rows_at, flag_at, text_at, py_str, as_list, of_list, text_or,
}
use migration_status_check.Models.Scope.{Scope, service_type, service_subtype}
use migration_status_check.Models.Scope.Select.{
  Record, bgp_instance, owns_bgp_peer, owns_bfd_session, RouteKey, route_key, same_route, is_wanted,
}

-- `a <= b` of tuples of texts
abbrev pub texts_le : List String → List String → Bool
texts_le [] bs = true
texts_le (a ∷ xs) [] = false
texts_le (a ∷ xs) (b ∷ bs) = if a == b then texts_le xs bs else text_le a b

-- `str(value)`, or the empty text for an empty value
abbrev pub text_or_empty : Value → String
text_or_empty v = if truthy v then py_str v else ""

-- `_port_of`: what stands before the first dot
unfoldable pub port_of : String → String
port_of Prim.Native.String.[] = ""
port_of (Prim.Native.String.◌∷◌ c s) =
    let rest = port_of s in if code c == b'.' then "" else Prim.Native.String.◌∷◌ c rest

-- `_scope_interfaces`
unfoldable pub scope_interfaces : List Scope → List String
scope_interfaces [] = []
scope_interfaces (s ∷ ss) =
    s.selectors.interfaces ++ (s.selectors.physical_interfaces ++ scope_interfaces ss)

-- `_scope_instances`
unfoldable pub scope_instances : List Scope → List String
scope_instances [] = []
scope_instances (s ∷ ss) = s.selectors.routing_instances ++ scope_instances ss

-- `_interface_on_port`
unfoldable pub interface_on_port : String → String → List Scope → Bool
interface_on_port name port scopes = port_of name == port || contains (scope_interfaces scopes) name

-- Does the text begin with ".inet"?
abbrev pub begins_inet : String → Bool
begins_inet s = starts_with s ".inet"

abbrev pub push : Char → Option String → Option String
push c none = none
push c (some s) = some (Prim.Native.String.◌∷◌ c s)

-- What stands before the first ".inet", if there is one
unfoldable pub before_inet : String → Option String
before_inet Prim.Native.String.[] = none
before_inet (Prim.Native.String.◌∷◌ c s) =
    let rest = before_inet s in
    if begins_inet (Prim.Native.String.◌∷◌ c s) then some "" else push c rest

abbrev pub unless_empty : Option String → Option String
unless_empty none = none
unless_empty (some h) = if h == "" then none else some h

-- `_rib_instance`
unfoldable pub rib_instance : String → Option String
rib_instance rib = unless_empty (before_inet rib)

abbrev pub is_master : Scope → Bool
is_master s = bgp_instance s == none

abbrev pub in_instances : List Scope → Value → Bool
in_instances scopes (str i) = contains (scope_instances scopes) i
in_instances scopes v = false

-- `any(scope.owns_bgp_peer(record) for scope in scopes)`
abbrev pub is_owned_peer : List Scope → Record → Bool
is_owned_peer scopes r = any (λ s. owns_bgp_peer s r) scopes

abbrev pub peer_le : Record → Record → Bool
peer_le a b =
    texts_le
      (text_at a "address"
        ∷ text_or_empty (value_at a "routing_instance")
        ∷ text_or_empty (value_at a "local_interface")
        ∷ [])
      (text_at b "address"
        ∷ text_or_empty (value_at b "routing_instance")
        ∷ text_or_empty (value_at b "local_interface")
        ∷ [])

abbrev pub peer_entry : Record → Record
peer_entry r =
    ("peer", value_at r "address")
    ∷ ("routing_instance", value_at r "routing_instance")
    ∷ ("local_interface", value_at r "local_interface")
    ∷ ("snapshot", str "subject")
    ∷ []

-- `in_network peer local`: the address is in the network of the interface, and both are valid.
module _ (in_network : String → String → Bool) where
  -- `_peer_in_scope_subnets`
  unfoldable pub peer_in_scope_subnets : String → List Scope → Bool
  peer_in_scope_subnets peer scopes =
      any (λ s. any (in_network peer) (s.selectors.local_ipv4 ++ s.selectors.local_ipv6)) scopes

  -- `_on_port` of a BGP session
  unfoldable pub peer_on_port : Option String → List Scope → Record → Bool
  peer_on_port none scopes r = true
  peer_on_port (some port) scopes r =
      if flag_at r "routing_instance"
      then in_instances scopes (value_at r "routing_instance")
      else peer_in_scope_subnets (text_at r "address") (filter is_master scopes)

  -- `_unassigned_bgp_peers`
  unfoldable pub unassigned_bgp_peers : Record → List Scope → Option String → List Record
  unassigned_bgp_peers facts scopes port = map peer_entry (
      filter (λ r. not (is_owned_peer scopes r) && peer_on_port port scopes r)
        (sort_by peer_le (rows_at facts "bgp")))

-- The scopes that may own a BFD session
abbrev pub owners : List Scope → List Scope
owners scopes =
    filter (λ s. not (service_type s == some "Core" && service_subtype s == some "loopback")) scopes

abbrev pub is_owned_session : List Scope → List Record → Record → Bool
is_owned_session scopes records r = any (λ s. owns_bfd_session s r records) (owners scopes)

abbrev pub session_le : Record → Record → Bool
session_le a b =
    texts_le (text_at a "neighbor" ∷ text_or_empty (value_at a "interface") ∷ [])
      (text_at b "neighbor" ∷ text_or_empty (value_at b "interface") ∷ [])

abbrev pub session_entry : Record → Record
session_entry r =
    ("peer", value_at r "neighbor")
    ∷ ("interface", value_at r "interface")
    ∷ ("multihop", bool (flag_at r "multihop"))
    ∷ ("state", value_at r "state")
    ∷ ("snapshot", str "subject")
    ∷ []

abbrev pub session_on_port : Option String → List Scope → Record → Bool
session_on_port none scopes r = true
session_on_port (some port) scopes r =
    interface_on_port (text_or_empty (value_at r "interface")) port scopes

-- `_unassigned_bfd_sessions`
unfoldable pub unassigned_bfd_sessions : Record → List Scope → Option String → List Record
unassigned_bfd_sessions facts scopes port =
    let records = rows_at facts "bfd" in
    map session_entry (
      filter (λ r. not (is_owned_session scopes records r) && session_on_port port scopes r)
        (sort_by session_le records))

-- `assigned`: the routes of all scopes
unfoldable pub all_static_routes : List Scope → List Record
all_static_routes [] = []
all_static_routes (s ∷ ss) = s.selectors.static_routes ++ all_static_routes ss

abbrev pub is_instance_of : List Scope → Option String → Bool
is_instance_of scopes none = false
is_instance_of scopes (some i) = contains (scope_instances scopes) i

abbrev pub via_on_port : String → List Scope → Record → List Value → Bool
via_on_port port scopes r [] = is_instance_of scopes (rib_instance (text_at r "rib"))
via_on_port port scopes r (v ∷ vs) =
    any (λ name. interface_on_port (py_str name) port scopes) (v ∷ vs)

-- `_on_port` of a route
unfoldable pub route_on_port : Option String → List Scope → Record → Bool
route_on_port none scopes r = true
route_on_port (some port) scopes r = via_on_port port scopes r (as_list (value_at r "via"))

abbrev pub route_le : Record → Record → Bool
route_le a b =
    texts_le ((route_key a).rib ∷ (route_key a).prefix ∷ (route_key a).protocol ∷ [])
      ((route_key b).rib ∷ (route_key b).prefix ∷ (route_key b).protocol ∷ [])

abbrev pub route_entry : Record → Record
route_entry r =
    ("rib", value_at r "rib")
    ∷ ("prefix", value_at r "prefix")
    ∷ ("next_hop", of_list (as_list (value_at r "next_hop")))
    ∷ ("via", of_list (as_list (value_at r "via")))
    ∷ ("protocol", str (text_or "static" (Dict.get r "protocol")))
    ∷ ("snapshot", str "subject")
    ∷ []

-- `_unassigned_static_routes`
unfoldable pub unassigned_static_routes : Record → List Scope → Option String → List Record
unassigned_static_routes facts scopes port = map route_entry (
    filter (λ r. not (is_wanted (all_static_routes scopes) r) && route_on_port port scopes r)
      (sort_by route_le (rows_at facts "routes")))
