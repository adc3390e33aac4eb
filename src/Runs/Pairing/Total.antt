-- ===== src/Runs/Pairing/Total.antt =====
-- Whether planning a run raises (migration_validator/runs/pairing.py).
use migration_status_check.Base.{
  String, ◌≡◌, ◌≢◌, Option, none, some, List, [], ◌∷◌, string_eq, ◌==◌, returns, Returns,
  Returns-bind, arith, eq_iff, Bool-cases, inl, inr,
}
use migration_status_check.Runs.Manifest.{
  CaptureRecord, InterfaceMapping, RunManifest, device_with_role, check_kind_devices,
}
use migration_status_check.Runs.Manifest.Kinds.{device_with_role_safe}
use migration_status_check.Runs.Pairing.{
  paired_pre, old_box_pre, find_pre_baseline, or_old_box, steps_of, plan_steps, plan_post,
  plan_capture, plan_captures, plan_evaluations,
}

module _ (m : RunManifest) (valid : check_kind_devices m.kind m.devices ≡ returns tt) where
  or_old_box-Returns :
      m.kind ≢ "single" → (found : Option CaptureRecord) → Returns (or_old_box m found)
  unfolding old_box_pre
  or_old_box-Returns ne none =
      Returns-bind (device_with_role m "old") _ (device_with_role_safe m valid ne).0 (λ _. tt)
  or_old_box-Returns ne (some b) = tt

  -- `find_pre_baseline` raises for no node and port of a valid run.
  pub find_pre_baseline-Returns :
      (node : String) (port : Option String) → Returns (find_pre_baseline m node port)
  unfolding find_pre_baseline
  find_pre_baseline-Returns node port = elim (Bool-cases (m.kind == "single")) [
    | inl e ↦ rw e tt
    | inr e ↦ rw e (
        or_old_box-Returns (λ same. ground (arith, eq_iff m.kind "single"))
          (paired_pre m node port))
  ]

  plan_steps-Returns :
      (c : CaptureRecord) (ps : List InterfaceMapping) → Returns (plan_steps m c ps)
  plan_steps-Returns c [] =
      Returns-bind (find_pre_baseline m c.device c.port) _
        (find_pre_baseline-Returns c.device c.port) (λ _. tt)
  plan_steps-Returns c (p ∷ ps) = tt

  plan_post-Returns : (c : CaptureRecord) → Returns (plan_post m c)
  unfolding plan_post
  plan_post-Returns c = elim (Bool-cases (m.kind == "single")) [
    | inl e ↦ rw e (
        Returns-bind (find_pre_baseline m c.device c.port) _
          (find_pre_baseline-Returns c.device c.port) (λ _. tt))
    | inr e ↦ rw e (plan_steps-Returns c (steps_of m c))
  ]

  plan_capture-Returns : (c : CaptureRecord) → Returns (plan_capture m c)
  unfolding plan_capture
  plan_capture-Returns c = elim (Bool-cases (c.phase == "post")) [
    | inl e ↦ rw e (plan_post-Returns c)
    | inr e ↦ elim (Bool-cases (c.phase == "rollback")) [
      | inl f ↦ rw (e, f) tt
      | inr f ↦ rw (e, f) tt
    ]
  ]

  plan_captures-Returns : (cs : List CaptureRecord) → Returns (plan_captures m cs)
  unfolding plan_captures
  plan_captures-Returns [] = tt
  plan_captures-Returns (c ∷ cs) =
      Returns-bind (plan_capture m c) _ (plan_capture-Returns c)
        (λ here. Returns-bind (plan_captures m cs) _ (plan_captures-Returns cs) (λ _. tt))

-- For a manifest whose kind and devices `check_kind_devices` accepts, planning returns a plan,
-- under every filter of ports.
pub plan_evaluations-Returns :
    (m : RunManifest) (ports : Option (List String))
    → check_kind_devices m.kind m.devices ≡ returns tt
    → Returns (plan_evaluations m ports)
unfolding plan_evaluations
plan_evaluations-Returns m ports valid =
    Returns-bind (plan_captures m m.captures) _ (plan_captures-Returns m valid m.captures) (λ _. tt)
