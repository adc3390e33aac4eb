-- ===== src/Runs/Pairing/Loaded.antt =====
-- Planning for a run.yml that was read (migration_validator/runs/manifest.py, pairing.py).
use migration_status_check.Base.{String, Option, List, Result, returns, Returns, ◌≡◌, ap, sym, ◌∙◌}
use migration_status_check.Models.Value.{Value}
use migration_status_check.Runs.Manifest.{RunManifest, check_kind_roles, check_kind_devices}
use migration_status_check.Runs.Manifest.Loaded.{as_loaded}
use migration_status_check.Runs.Manifest.File.{load_manifest}
use migration_status_check.Runs.Manifest.File.Laws.{roles_as_device}
use migration_status_check.Runs.Manifest.File.Rules.{load_manifest-IsValid}
use migration_status_check.Runs.Pairing.{plan_evaluations}
use migration_status_check.Runs.Pairing.Total.{plan_evaluations-Returns}

-- Let a run.yml load as a manifest whose unchecked fields are texts (or absent, where they may be).
-- Then planning the evaluations returns a plan under every filter of ports: it never meets two boxes
-- of one role.
pub plan_evaluations-load_manifest :
    (safe_load : String → Result Value) (path text : String) (m : RunManifest)
    (ports : Option (List String))
    → load_manifest safe_load path text ≡ returns (as_loaded m)
    → Returns (plan_evaluations m ports)
unfolding check_kind_devices
plan_evaluations-load_manifest safe_load path text m ports loaded =
    plan_evaluations-Returns m ports (
      ap (check_kind_roles m.kind) (sym (roles_as_device m.devices))
      ∙ (load_manifest-IsValid safe_load path text (as_loaded m) loaded).0)
