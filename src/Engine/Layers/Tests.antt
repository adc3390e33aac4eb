-- ===== src/Engine/Layers/Tests.antt =====
-- Tests of the blocks under the L1 ports.
use migration_status_check.Base.Dict
use migration_status_check.Base.Dict.{Dict}
use migration_status_check.Base.Results.{returns, raises}
use migration_status_check.Base.Sort.{sort_by, insert_by}
use migration_status_check.Base.{
  string_eq, ◌≡◌, refl, Bool, String, none, some, List, [], ◌∷◌, count_by,
}
use migration_status_check.Models.Status.{Status}
use migration_status_check.Engine.Order.{ScopeResult}
use migration_status_check.Engine.Ports.{parent_port}
use migration_status_check.Engine.Layers.{
  group_by_layer1, l1_by_port, blocks, laid_out, is_l1, natural_from, key_le,
}
use migration_status_check.Engine.Layers.Laws.{
  HasOwnPorts, done, service, on_port, group_by_layer1-count_by,
}

abbrev block : String → String → List String → List String → ScopeResult
block name kind interfaces ports = record {
  scope_id = name;
  key = some (record { description = none; service_type = kind; service_subtype = none });
  status = Status.pass;
  match_info = none;
  checks = [];
  identity = record {
    description = none;
    service_type = some kind;
    service_subtype = none;
    routing_instance = none;
    interfaces = interfaces;
    physical_interfaces = ports;
    ipv4 = [];
    ipv6 = [];
    virtual_gw_v4 = [];
    virtual_gw_v6 = [];
    l2_interfaces = [];
  };
  link = none;
}

abbrev ae10 : ScopeResult
ae10 = block "ae10" "Layer1" ("ae10" ∷ []) []

abbrev ae2 : ScopeResult
ae2 = block "ae2" "Layer1" ("ae2" ∷ []) []

abbrev on_ae2 : ScopeResult
on_ae2 = block "ae2.5" "Internet" ("ae2.5" ∷ []) ("ae2" ∷ [])

abbrev loopback : ScopeResult
loopback = block "lo0.0" "Router" ("lo0.0" ∷ []) []

abbrev report : List ScopeResult
report = loopback ∷ ae10 ∷ on_ae2 ∷ ae2 ∷ []

-- ae2 stands before ae10, its service follows it, and the loopback is at the end.
group_of_report : group_by_layer1 report ≡ returns (ae2 ∷ on_ae2 ∷ ae10 ∷ loopback ∷ [])
unfolding group_by_layer1 l1_by_port is_l1 laid_out blocks sort_by Dict.put insert_by key_le
    natural_from parent_port Dict.has Dict.get
group_of_report = refl

-- An L1 result without an interface
group_without_port :
    group_by_layer1 (block "x" "Layer1" [] [] ∷ []) ≡ raises "IndexError: list index out of range"
unfolding group_by_layer1 l1_by_port is_l1
group_without_port = refl

own_ports : HasOwnPorts [] report
unfolding is_l1 Dict.has Dict.get Dict.put
own_ports = service {r = loopback} refl (
    on_port {l1 = []} {r = ae10} "ae10" [] refl refl refl (
      service {r = on_ae2} refl
        (on_port {l1 = Dict.put [] "ae10" ae10} {r = ae2} "ae2" [] refl refl refl (done _))))

group_by_layer1-count_by_example :
    (out : List ScopeResult) × ((group_by_layer1 report ≡ returns out)
      × ((p : ScopeResult → Bool) → count_by p out ≡ count_by p report))
group_by_layer1-count_by_example = group_by_layer1-count_by report own_ports
