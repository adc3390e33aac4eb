-- ===== src/Models/Scope/Select/Tests.antt =====
-- Tests of the selection of a scope's facts.
use migration_status_check.Base.Dict
use migration_status_check.Base.Dict.{Dict}
use migration_status_check.Base.{◌≡◌, refl, string_eq, true, none, some, List, [], ◌∷◌}
use migration_status_check.Models.Value.{Value, str, null}
use migration_status_check.Models.Value.Access.{of_rows, text_at, py_str, value_at, rows_at}
use migration_status_check.Models.Scope.{Scope, no_selectors, service_type}
use migration_status_check.Models.Scope.Select.{
  Record, by_key, bgp_instance, owns_bgp_peer, group_from, add_to_group, view_of,
}
use migration_status_check.Models.Scope.Select.Areas.{own_bgp}
use migration_status_check.Models.Scope.Select.Laws.{
  by_key_exact, own_bgp_disjoint, sole, several, keyed,
}

-- A service in the instance CUST-A, whose peer has an address that another instance uses too
abbrev vpn : Scope
vpn = record {
  id = "a";
  kind = "service";
  key = some (record { description = some "A"; service_type = "IPVPN"; service_subtype = none });
  selectors = record no_selectors {
    routing_instances = "CUST-A" ∷ [];
    bgp_neighbors = "10.0.0.1" ∷ [];
  };
  routing_instance_active = true;
  interface_active = true;
}

abbrev internet : Scope
internet = record vpn {
  id = "b";
  key = some (record { description = some "B"; service_type = "Internet"; service_subtype = none });
}

abbrev session_in : Value → Record
session_in instance_of = ("address", str "10.0.0.1") ∷ ("routing_instance", instance_of) ∷ []

abbrev sessions : List Record
sessions = session_in (str "CUST-A") ∷ session_in null ∷ []

abbrev facts : Record
facts = ("bgp", of_rows sessions) ∷ []

view_of_vpn : Dict.get (own_bgp vpn facts).0 "10.0.0.1" ≡ some (session_in (str "CUST-A"))
unfolding own_bgp by_key owns_bgp_peer bgp_instance service_type rows_at value_at text_at group_from
    add_to_group view_of Dict.get Dict.put py_str
view_of_vpn = refl

view_of_internet : Dict.get (own_bgp internet facts).0 "10.0.0.1" ≡ some (session_in null)
unfolding own_bgp by_key owns_bgp_peer bgp_instance service_type rows_at value_at text_at group_from
    add_to_group view_of Dict.get Dict.put py_str
view_of_internet = refl

by_key_exact_example :
    (Dict.get (by_key sessions "address").0 "10.0.0.1" ≡ sole (keyed sessions "address" "10.0.0.1"))
    × (Dict.get (by_key sessions "address").1 "10.0.0.1"
        ≡ several (keyed sessions "address" "10.0.0.1"))
by_key_exact_example = by_key_exact sessions "address" "10.0.0.1"

own_bgp_disjoint_example : bgp_instance vpn ≡ bgp_instance (record vpn { id = "c" })
unfolding own_bgp owns_bgp_peer bgp_instance service_type
own_bgp_disjoint_example =
    own_bgp_disjoint vpn (record vpn { id = "c" }) facts "10.0.0.1" (session_in (str "CUST-A"))
      view_of_vpn view_of_vpn
