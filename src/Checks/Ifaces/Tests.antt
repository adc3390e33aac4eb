-- ===== src/Checks/Ifaces/Tests.antt =====
-- Tests of the check of the state of interfaces.
use migration_status_check.Base.Dict
use migration_status_check.Base.{
  String, ◌≡◌, ◌≢◌, refl, true, false, none, some, List, [], ◌∷◌, all, returns, arith, string_eq,
}
use migration_status_check.Models.Value.{Value, str}
use migration_status_check.Models.Value.Access.{of_dict, table_at, value_at}
use migration_status_check.Models.Status.{unchanged}
use migration_status_check.Models.Scope.{no_selectors}
use migration_status_check.Models.Finding.{Finding}
use migration_status_check.Checks.Framework.{CheckContext, baseline_measured}
use migration_status_check.Checks.Bgp.{unknown}
use migration_status_check.Checks.Ifaces.{
  is_transit, qualified, ends_with_bracket, without_last, has_bracket, capitalize, lower,
  own_interfaces, state_in, state_before, state_row, run_interface_state,
}
use migration_status_check.Checks.Ifaces.Laws.{is_ok, is_up, run_interface_state-is_up}
use migration_status_check.Engine.Unassigned.{port_of}

abbrev states : String → String → Value
states admin oper = of_dict (("admin_status", str admin) ∷ ("oper_status", str oper) ∷ [])

abbrev context : CheckContext
context = record {
  scope = record {
    id = "s";
    kind = "service";
    key = none;
    selectors = record no_selectors { physical_interfaces = "ge-0/0/1" ∷ [] };
    routing_instance_active = true;
    interface_active = true;
  };
  subject =
      (
        "interfaces",
        of_dict (("ge-0/0/1", states "up" "up") ∷ ("ge-0/0/1.5", states "up" "down") ∷ []),
      )
      ∷ [];
  baseline = none;
  config = record { raw = [] };
  failed_collectors = [];
  baseline_scope = none;
  link = none;
  baseline_collectors = [];
}

transit_unit : is_transit "ae0.5" ≡ true
unfolding is_transit port_of
transit_unit = refl

loopback_is_not : is_transit "lo0.0" ≡ false
unfolding is_transit port_of
loopback_is_not = refl

qualified_twice : qualified "EVPN interface (ae0.224)" "EVPN-A" ≡ "EVPN interface (ae0.224, EVPN-A)"
unfolding qualified ends_with_bracket without_last has_bracket
qualified_twice = refl

capital_letter : capitalize "uP" ≡ "Up"
unfolding capitalize lower
capital_letter = refl

collected : table_at context.subject "interfaces" ≢ []
unfolding table_at value_at Dict.get
collected = ground arith

run_interface_state-is_up_example :
    (fs : List Finding) × (run_interface_state context ≡ returns fs)
    × (all (λ f. is_ok f.outcome) fs ≡ all (is_up context) (own_interfaces context))
    × ((name : String) (column : String × String)
        → (state_row context name column).outcome ≡ unchanged
        → (state_in context name column.1 ≢ unknown)
          × (state_before context name column.1 ≡ some (state_in context name column.1))
          × (baseline_measured context "interfaces" ≡ true))
run_interface_state-is_up_example = run_interface_state-is_up context collected
