-- ===== src/Runs/Manifest/File/Tests.antt =====
-- A migration with captures, saved and loaded.
use migration_status_check.Base.Dict
use migration_status_check.Base.{
  String, ◌≡◌, ◌≢◌, refl, Option, none, some, [], ◌∷◌, Result, returns, Returns, arith, eq_iff,
  string_eq, option_eq,
}
use migration_status_check.Models.Value.{Value}
use migration_status_check.Models.Value.Access.{of_dict, value_at}
use migration_status_check.Runs.Manifest.{
  RunManifest, check_role, check_kind_roles, check_kind_devices,
}
use migration_status_check.Runs.Manifest.Loaded.{as_loaded, as_capture}
use migration_status_check.Runs.Manifest.Tests.{mapped_run, pre_capture}
use migration_status_check.Runs.Manifest.File.{
  load_manifest, save_manifest, manifest_data, load_capture, dump_capture, load_fields,
  load_devices, load_device, load_each, load_mapping_entry, load_endpoint,
}
use migration_status_check.Runs.Pairing.{plan_evaluations}
use migration_status_check.Runs.Pairing.Loaded.{plan_evaluations-load_manifest}
use migration_status_check.Runs.Manifest.File.Laws.{IsStorable, load_manifest-save_manifest}

abbrev captured_run : RunManifest
captured_run = record mapped_run {
  captures = pre_capture ∷ record pre_capture { device = "PTX1"; port = none } ∷ [];
  created_by = some "ann";
}

-- A file that holds what was dumped
abbrev dumped_text : Value → String
dumped_text v = "run.yml"

abbrev loaded_text : String → Result Value
loaded_text text = returns (of_dict (manifest_data captured_run))

not_all : ◌≢◌ {A = Option String} (some "ge-0/0/2") (some "all")
not_all = ground (arith, eq_iff {A = Option String} (some "ge-0/0/2") (some "all"))

whole_box : ◌≢◌ {A = Option String} none (some "all")
whole_box = ground arith

captured_run-IsStorable : IsStorable captured_run
captured_run-IsStorable = record { roles = (refl, (refl, tt)); ports = (not_all, (whole_box, tt)) }

captured_run_saved : save_manifest dumped_text captured_run ≡ returns "run.yml"
unfolding save_manifest check_kind_devices check_kind_roles
captured_run_saved = refl

-- A capture of a port that is named "all" is read back as a capture of the whole box.
port_all_lost :
    load_capture (dump_capture (record pre_capture { port = some "all" }))
    ≡ returns (as_capture (record pre_capture { port = none }))
unfolding load_capture value_at Dict.get
port_all_lost = refl

load_manifest-save_manifest_example :
    load_manifest loaded_text "runs/1/run.yml" "run.yml" ≡ returns (as_loaded captured_run)
load_manifest-save_manifest_example =
    load_manifest-save_manifest loaded_text dumped_text "runs/1/run.yml" "run.yml" captured_run refl
      captured_run-IsStorable captured_run_saved

captured_run_loaded :
    load_manifest loaded_text "runs/1/run.yml" "run.yml" ≡ returns (as_loaded captured_run)
unfolding load_manifest load_fields load_devices load_device load_each load_mapping_entry
    load_endpoint load_capture manifest_data value_at Dict.get check_role check_kind_roles
captured_run_loaded = refl

plan_evaluations-load_manifest_example : Returns (plan_evaluations captured_run none)
plan_evaluations-load_manifest_example =
    plan_evaluations-load_manifest loaded_text "runs/1/run.yml" "run.yml" captured_run none
      captured_run_loaded
