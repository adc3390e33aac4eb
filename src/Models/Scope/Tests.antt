-- ===== src/Models/Scope/Tests.antt =====
-- Tests of the scopes.
use migration_status_check.Base.{◌≡◌, refl, false, some}
use migration_status_check.Models.Scope.{Scope, no_selectors, deactivation_reason}

abbrev local_service : Scope
local_service = record {
  id = "lan";
  kind = "service";
  key =
      some (record {
        description = some "LAN";
        service_type = "E-LAN";
        service_subtype = some "local";
      });
  selectors = no_selectors;
  routing_instance_active = false;
  interface_active = false;
}

reason_of_local : deactivation_reason local_service ≡ some "bridge-domain + interface deactivated"
unfolding deactivation_reason
reason_of_local = refl
