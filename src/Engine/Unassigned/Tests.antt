-- ===== src/Engine/Unassigned/Tests.antt =====
-- Tests of what no scope claims.
use mathlib.Core.List.{Memᴰ}
use migration_status_check.Base.Dict
use migration_status_check.Base.{◌≡◌, ◌⊎◌, refl, String, Bool, false, true, none, some, [], ◌∷◌}
use migration_status_check.Models.Value.{str}
use migration_status_check.Models.Value.Access.{of_rows, rows_at, value_at}
use migration_status_check.Models.Scope.{Scope, no_selectors}
use migration_status_check.Models.Scope.Select.{Record, is_wanted}
use migration_status_check.Engine.Unassigned.{
  rib_instance, before_inet, port_of, peer_on_port, peer_entry, unassigned_bgp_peers,
  is_owned_session, session_on_port, session_entry, unassigned_bfd_sessions, all_static_routes,
  route_on_port, route_entry, unassigned_static_routes,
}
use migration_status_check.Engine.Unassigned.Laws.{
  Shows, bgp_session_visible, unassigned_bfd_sessions_complete, unassigned_static_routes_complete,
}

instance_of_rib : rib_instance "L3VPN.inet.0" ≡ some "L3VPN"
unfolding rib_instance before_inet
instance_of_rib = refl

no_instance : rib_instance "inet.0" ≡ none
unfolding rib_instance before_inet
no_instance = refl

port_of_unit : port_of "et-0/0/8.13" ≡ "et-0/0/8"
unfolding port_of
port_of_unit = refl

abbrev service : Scope
service = record {
  id = "a";
  kind = "service";
  key = some (record { description = some "A"; service_type = "Internet"; service_subtype = none });
  selectors = record no_selectors { bgp_neighbors = "10.0.0.1" ∷ [] };
  routing_instance_active = true;
  interface_active = true;
}

abbrev session : Record
session = ("address", str "10.9.9.9") ∷ ("neighbor", str "10.9.9.9") ∷ []

abbrev route : Record
route = ("rib", str "mgmt.inet.0") ∷ ("prefix", str "0.0.0.0/0") ∷ []

abbrev facts : Record
facts =
    ("bgp", of_rows (session ∷ []))
    ∷ ("bfd", of_rows (session ∷ []))
    ∷ ("routes", of_rows (route ∷ []))
    ∷ []

no_network : String → String → Bool
no_network peer local = false

session_measured : Memᴰ session (rows_at facts "bgp")
unfolding rows_at value_at Dict.get
session_measured = Memᴰ.head refl

bfd_measured : Memᴰ session (rows_at facts "bfd")
unfolding rows_at value_at Dict.get
bfd_measured = Memᴰ.head refl

route_measured : Memᴰ route (rows_at facts "routes")
unfolding rows_at value_at Dict.get
route_measured = Memᴰ.head refl

bgp_session_visible_example :
    ((s : Scope) × (Memᴰ s (service ∷ []) × Shows s facts session))
    ⊎ ((peer_on_port no_network none (service ∷ []) session ≡ false)
        ⊎ Memᴰ (peer_entry session) (unassigned_bgp_peers no_network facts (service ∷ []) none))
bgp_session_visible_example =
    bgp_session_visible no_network facts (service ∷ []) none session session_measured

unassigned_bfd_sessions_complete_example :
    (is_owned_session (service ∷ []) (rows_at facts "bfd") session ≡ true)
    ⊎ ((session_on_port none (service ∷ []) session ≡ false)
        ⊎ Memᴰ (session_entry session) (unassigned_bfd_sessions facts (service ∷ []) none))
unassigned_bfd_sessions_complete_example =
    unassigned_bfd_sessions_complete facts (service ∷ []) none session bfd_measured

unassigned_static_routes_complete_example :
    (is_wanted (all_static_routes (service ∷ [])) route ≡ true)
    ⊎ ((route_on_port none (service ∷ []) route ≡ false)
        ⊎ Memᴰ (route_entry route) (unassigned_static_routes facts (service ∷ []) none))
unassigned_static_routes_complete_example =
    unassigned_static_routes_complete facts (service ∷ []) none route route_measured
