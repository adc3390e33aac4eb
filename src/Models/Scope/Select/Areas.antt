-- ===== src/Models/Scope/Select/Areas.antt =====
-- The areas of the facts, each cut to one scope (`Scope.select` in migration_validator/models/scope.py).
use migration_status_check.Base.Dict
use migration_status_check.Base.Dict.{Dict}
use migration_status_check.Base.{
  ℕ, String, Bool, false, ◌&&◌, ◌||◌, Option, none, some, List, [], ◌∷◌, map, filter, any, contains,
  ◌==◌, string_eq, option_eq, if◌then◌else◌,
}
use migration_status_check.Base.Integer.{pos}
use migration_status_check.Base.Sort.{sort_by, text_le}
use migration_status_check.Models.Value.{Value, bool, int, str, truthy}
use migration_status_check.Models.Value.Access.{
  value_at, table_at, rows_at, text_at, text_at_or, as_dict, is_text, of_dict, of_rows, py_str,
}
use migration_status_check.Models.Scope.{
  Scope, Selectors, matches_interface, service_type, service_subtype, local_l2_subtype,
}
use migration_status_check.Models.Scope.Select.{
  Record, owns_bgp_peer, owns_bfd_session, by_key, route_key, is_wanted, RouteKey,
}

-- `{name: data for name, data in (facts.get(area) or {}).items() if keep(name)}`
unfoldable pub kept_names : (String → Bool) → Record → String → Record
kept_names keep facts area = filter (λ e. keep e.0) (table_at facts area)

-- `[entry for entry in (facts.get(area) or []) if matches(str(entry.get("interface", "")))]`
unfoldable pub on_interfaces : Selectors → Record → String → List Record
on_interfaces s facts area =
    filter (λ r. matches_interface s (text_at_or r "interface" "")) (rows_at facts area)

-- `str(ac.get("name") or "")`
abbrev pub name_or_empty : Value → String
name_or_empty v = if truthy v then py_str v else ""

-- The attachment circuits of the scope in one instance
unfoldable pub own_circuits : Selectors → Value → Value
own_circuits s data_of = of_dict (
    Dict.put (as_dict data_of) "interfaces" (
      of_rows (
        filter (λ ac. matches_interface s (name_or_empty (value_at ac "name")))
          (rows_at (as_dict data_of) "interfaces"))))

unfoldable pub select_vpws : Selectors → Record → Record
select_vpws s facts =
    map (λ e. (e.0, own_circuits s e.1))
      (kept_names (contains s.routing_instances) facts "evpn_vpws")

abbrev pub is_in : List String → Value → Bool
is_in xs (str s) = contains xs s
is_in xs _ = false

abbrev pub first_match : Selectors → Record → Option (String × Value)
first_match s [] = none
first_match s ((name, state) ∷ rest) =
    if matches_interface s name then some (name, state) else first_match s rest

abbrev pub esi_entry : Record → String × Value → Record
esi_entry r p =
    ("resolved_status", value_at r "resolved_status")
    ∷ ("df_role", value_at r "df_role")
    ∷ ("interface", str p.0)
    ∷ ("status", value_at (as_dict p.1) "status")
    ∷ ("mode", value_at (as_dict p.1) "mode")
    ∷ []

abbrev pub add_esi_entry : Record → Option (String × Value) → Record → Record
add_esi_entry r none esi = esi
add_esi_entry r (some p) esi = Dict.put esi (text_at r "esi") (of_dict (esi_entry r p))

unfoldable pub add_esi : Selectors → Record → Record → Record
add_esi s r esi =
    if is_in s.routing_instances (value_at r "instance")
    then add_esi_entry r
        (first_match s (sort_by (λ a b. text_le a.0 b.0) (table_at r "interfaces"))) esi
    else esi

unfoldable pub select_esi : Selectors → List Record → Record → Record
select_esi s [] esi = esi
select_esi s (r ∷ rs) esi = select_esi s rs (add_esi s r esi)

-- The instances of the MAC counts: a local E-LAN reads the global one.
unfoldable pub is_mac_instance : Scope → String → Bool
is_mac_instance s name =
    contains s.selectors.routing_instances name
    || ((service_type s == some "E-LAN" && service_subtype s == some local_l2_subtype)
        && name == "default-switch")

-- `routes.setdefault(protocol, {}).setdefault(rib, {})[prefix] = record`
unfoldable pub add_route : Record → RouteKey → Record → Record
add_route routes key r =
    let of_protocol = table_at routes key.protocol in
    let of_rib = table_at of_protocol key.rib in
    Dict.put routes key.protocol
      (of_dict (Dict.put of_protocol key.rib (of_dict (Dict.put of_rib key.prefix (of_dict r)))))

unfoldable pub select_routes : List Record → List Record → Record → Record
select_routes wanted [] routes = routes
select_routes wanted (r ∷ rs) routes =
    select_routes wanted rs
      (if is_wanted wanted r then add_route routes (route_key r) r else routes)

abbrev pub instance_or_master : List String → String
instance_or_master [] = "master"
instance_or_master (i ∷ is) = i

-- `Scope._instance_table`
unfoldable pub instance_table : Scope → Record → String → Bool → Record
instance_table s facts area enabled =
    let name = instance_or_master s.selectors.routing_instances in
    let table = value_at (table_at facts area) name in
    if enabled && truthy table then (name, table) ∷ [] else []

unfoldable pub measures_multicast : Scope → Bool
measures_multicast s =
    (service_type s == some "Internet" || service_type s == some "IPVPN")
    || (service_type s == some "Core" && service_subtype s == some "loopback")

abbrev pub is_of_scope : Scope → Record → Bool
is_of_scope s r = is_text (value_at r "scope_id") (some s.id)

abbrev pub of_view : Dict String Record → Value
of_view d = of_dict (map (λ e. (e.0, of_dict e.1)) d)

abbrev pub of_counts : Dict String ℕ → Value
of_counts d = of_dict (map (λ e. (e.0, int (pos e.1))) d)

unfoldable pub own_bgp : Scope → Record → Dict String Record × Dict String ℕ
own_bgp s facts = by_key (filter (owns_bgp_peer s) (rows_at facts "bgp")) "address"

unfoldable pub own_bfd : Scope → Record → Dict String Record × Dict String ℕ
own_bfd s facts =
    let records = rows_at facts "bfd" in
    by_key (filter (λ r. owns_bfd_session s r records) records) "neighbor"

-- An area that is kept by the name of the interface
unfoldable pub named_area : Selectors → Record → String → String × Value
named_area s facts area = (area, of_dict (kept_names (matches_interface s) facts area))

-- `Scope.select`; the probes may be None.
unfoldable pub select : Scope → Record → Record → Record
select s facts probes =
    let sel = s.selectors in
    named_area sel facts "interfaces"
    ∷ ("arp", of_rows (on_interfaces sel facts "arp"))
    ∷ ("nd", of_rows (on_interfaces sel facts "nd"))
    ∷ ("bgp", of_view (own_bgp s facts).0)
    ∷ ("bgp_ambiguous", of_counts (own_bgp s facts).1)
    ∷ ("evpn_vpws", of_dict (select_vpws sel facts))
    ∷ ("evpn_esi", of_dict (select_esi sel (rows_at facts "evpn_esi") []))
    ∷ ("evpn_instance", of_dict (kept_names (contains sel.routing_instances) facts "evpn_instance"))
    ∷ ("evpn_mac", of_dict (kept_names (is_mac_instance s) facts "evpn_mac"))
    ∷ ("routes", of_dict (select_routes sel.static_routes (rows_at facts "routes") []))
    ∷ ("bfd", of_view (own_bfd s facts).0)
    ∷ ("bfd_ambiguous", of_counts (own_bfd s facts).1)
    ∷ (
      "optics",
      of_dict (
          kept_names (λ name. matches_interface sel name || contains sel.lag_members name) facts
            "optics"),
    )
    ∷ ("ping", of_rows (filter (is_of_scope s) (rows_at probes "ping")))
    ∷ ("ping_skipped", bool (any (is_of_scope s) (rows_at probes "ping_skipped")))
    ∷ (
      "isis_overview",
      of_dict (if service_subtype s == some "loopback" then table_at facts "isis_overview" else []),
    )
    ∷ named_area sel facts "igmp_group"
    ∷ ("multicast_route", of_dict (instance_table s facts "multicast_route" (measures_multicast s)))
    ∷ ("pim_join", of_dict (instance_table s facts "pim_join" (measures_multicast s)))
    ∷ ("mvpn_instance", of_dict (kept_names (contains sel.routing_instances) facts "mvpn_instance"))
    ∷ named_area sel facts "isis_adjacency"
    ∷ named_area sel facts "isis_interface"
    ∷ named_area sel facts "ldp_neighbor"
    ∷ named_area sel facts "pim_neighbor"
    ∷ named_area sel facts "mpls_interface"
    ∷ []
