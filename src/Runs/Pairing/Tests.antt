-- ===== src/Runs/Pairing/Tests.antt =====
-- The plans of a single run and of a migration of one port.
use mathlib.Core.List.{Memᴰ}
use migration_status_check.Base.{
  ◌≡◌, refl, true, none, some, List, [], ◌∷◌, map, filter, All, returns,
}
use migration_status_check.Runs.Manifest.{
  CaptureRecord, RunManifest, check_kind_devices, check_kind_roles, find_capture, is_capture,
}
use migration_status_check.Runs.Pairing.{
  Evaluation, evaluation, plan_evaluations, plan_captures, plan_capture, plan_post, plan_rollback,
  find_pre_baseline, own_pre, plan_same_device, same_device_of, passes_port_filter, filter_port,
}
use migration_status_check.Runs.Pairing.Sources.{IsSound, plan_evaluations-IsSound}
use migration_status_check.Runs.Pairing.Plan.{is_after, plan_evaluations_complete}
use migration_status_check.Runs.Pairing.Single.{plan_evaluations-single}

abbrev pre_capture : CaptureRecord
pre_capture = record {
  phase = "pre";
  device = "MX1";
  port = none;
  snapshot = "pre.json";
  taken = "t1";
}

abbrev post_capture : CaptureRecord
post_capture = record {
  phase = "post";
  device = "MX1";
  port = none;
  snapshot = "post.json";
  taken = "t2";
}

abbrev back_capture : CaptureRecord
back_capture = record {
  phase = "rollback";
  device = "MX1";
  port = none;
  snapshot = "back.json";
  taken = "t3";
}

abbrev single_run : RunManifest
single_run = record {
  devices = ("MX1", record { host = "172.20.20.4"; platform = "junos"; role = "single" }) ∷ [];
  interface_mapping = [];
  captures = pre_capture ∷ post_capture ∷ back_capture ∷ [];
  kind = "single";
  profile = none;
  group = none;
  created_by = none;
}

abbrev single_plan : List Evaluation
single_plan =
    record (evaluation post_capture (some pre_capture)) { same_device = true }
    ∷ evaluation back_capture (some pre_capture)
    ∷ []

single_planned : plan_evaluations single_run none ≡ returns single_plan
unfolding plan_evaluations plan_captures plan_capture plan_post plan_rollback find_pre_baseline
    own_pre plan_same_device same_device_of passes_port_filter filter_port find_capture is_capture
single_planned = refl

plan_evaluations-IsSound_example : All (IsSound single_run) single_plan
plan_evaluations-IsSound_example =
    plan_evaluations-IsSound single_run none single_plan single_planned

single_valid : check_kind_devices single_run.kind single_run.devices ≡ returns tt
unfolding check_kind_devices check_kind_roles
single_valid = refl

plan_evaluations_complete_example :
    (e : Evaluation) × Memᴰ e single_plan × (e.subject ≡ post_capture)
plan_evaluations_complete_example =
    plan_evaluations_complete single_run post_capture single_plan (Memᴰ.tail (Memᴰ.head refl)) refl
      single_planned

plan_evaluations-single_example :
    map (λ e. e.subject) single_plan ≡ filter is_after single_run.captures
plan_evaluations-single_example = plan_evaluations-single single_run single_plan refl single_planned
