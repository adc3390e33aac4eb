-- ===== src/Runs/Manifest/Tests.antt =====
-- A migration of one port, and the laws of its manifest at it.
use migration_status_check.Base.{
  String, ◌≡◌, ◌≢◌, refl, none, some, [], ◌∷◌, returns, arith, eq_iff, string_eq,
}
use migration_status_check.Runs.Manifest.{
  CaptureRecord, MappingEndpoint, RunManifest, check_kind_devices, check_kind_roles, add_mapping,
  extend_mapping, record_capture,
}
use migration_status_check.Runs.Manifest.Captures.{AreUnique, record_capture-AreUnique}
use migration_status_check.Runs.Manifest.Mappings.{IsFunctional, add_mapping-IsFunctional}

abbrev empty_run : RunManifest
empty_run = record {
  devices =
      ("MX1", record { host = "172.20.20.4"; platform = "junos"; role = "old" })
      ∷ ("PTX1", record { host = "172.20.20.5"; platform = "junos-evo"; role = "new" })
      ∷ [];
  interface_mapping = [];
  captures = [];
  kind = "migration";
  profile = none;
  group = none;
  created_by = none;
}

abbrev pub pre_capture : CaptureRecord
pre_capture = record {
  phase = "pre";
  device = "MX1";
  port = some "ge-0/0/2";
  snapshot = "pre.json";
  taken = "t1";
}

abbrev old_port : MappingEndpoint
old_port = record { node = "MX1"; port = "ge-0/0/2"; l2_switch = none }

abbrev new_port : MappingEndpoint
new_port = record { node = "PTX1"; port = "et-0/0/8"; l2_switch = none }

abbrev pub mapped_run : RunManifest
mapped_run = record empty_run { interface_mapping = record { old = old_port; new = new_port } ∷ [] }

mapping_added : add_mapping empty_run old_port new_port ≡ returns mapped_run
unfolding add_mapping extend_mapping
mapping_added = refl

empty-IsFunctional : IsFunctional empty_run.interface_mapping
empty-IsFunctional node port = omega arith

empty-AreUnique : AreUnique empty_run.captures
empty-AreUnique phase device port = omega arith

record_capture-AreUnique_example : AreUnique (record_capture empty_run pre_capture).captures
record_capture-AreUnique_example = record_capture-AreUnique empty_run pre_capture empty-AreUnique

add_mapping-IsFunctional_example : IsFunctional mapped_run.interface_mapping
add_mapping-IsFunctional_example =
    add_mapping-IsFunctional empty_run mapped_run old_port new_port mapping_added empty-IsFunctional

kinds_accepted : check_kind_devices empty_run.kind empty_run.devices ≡ returns tt
unfolding check_kind_devices check_kind_roles
kinds_accepted = refl

not_single : ◌≢◌ {A = String} "migration" "single"
not_single = ground (arith, eq_iff {A = String} "migration" "single")
