-- ===== src/Scoping/Linker/Tests.antt =====
-- Tests of the links.
use migration_status_check.Base.{true, ◌≤◌, some, none, [], ◌∷◌}
use migration_status_check.Models.Scope.{Scope, no_selectors}
use migration_status_check.Scoping.Linker.{link_evpn}
use migration_status_check.Scoping.Linker.Laws.{links_to, link_evpn-links_to}

abbrev irb : Scope
irb = record {
  id = "l3";
  kind = "service";
  key = some (record { description = none; service_type = "Internet"; service_subtype = none });
  selectors = record no_selectors { interfaces = "irb.15" ∷ [] };
  routing_instance_active = true;
  interface_active = true;
}

abbrev transit : Scope
transit = record {
  id = "l2";
  kind = "service";
  key = some (record { description = none; service_type = "E-LAN"; service_subtype = none });
  selectors = record no_selectors { interfaces = "ae0.15" ∷ []; routing_instances = "EVPN" ∷ [] };
  routing_instance_active = true;
  interface_active = true;
}

link_evpn-links_to_example :
    links_to "l2"
      (link_evpn
        (irb ∷ transit ∷ [])
        (("EVPN", record { name = some "irb.15"; l3_context = some "master" } ∷ []) ∷ [])).links
    ≤ 1
link_evpn-links_to_example =
    link_evpn-links_to (irb ∷ transit ∷ [])
      (("EVPN", record { name = some "irb.15"; l3_context = some "master" } ∷ []) ∷ []) "l2"
