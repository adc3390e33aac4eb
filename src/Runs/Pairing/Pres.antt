-- ===== src/Runs/Pairing/Pres.antt =====
-- Where the baselines of `find_pre_baseline` come from (migration_validator/runs/pairing.py).
use mathlib.Core.List.{Memᴰ}
use migration_status_check.Base.{
  String, ◌≡◌, inl, inr, refl, Option, none, some, string_eq, ◌==◌, Result, returns, raises,
  Ensures, Ensures-bind, find?, find?-mem, find?_sound, Bool-cases,
}
use migration_status_check.Runs.Manifest.{
  CaptureRecord, MappingEndpoint, RunDevice, RunManifest, find_capture, is_capture,
  device_with_role, paired_old,
}
use migration_status_check.Runs.Manifest.Captures.{is_capture_iff}
use migration_status_check.Runs.Pairing.{
  own_pre, paired_pre, old_box_pre, find_pre_baseline, or_else, or_old_box,
}

-- A baseline is a pre capture of the manifest.
abbrev pub IsPre : RunManifest → Option CaptureRecord → Type 0
IsPre m none = Unit
IsPre m (some b) = Memᴰ b m.captures × (b.phase ≡ "pre")

module _ (m : RunManifest) where
  find?-IsPre :
      (device : String) (port : Option String) (found : Option CaptureRecord)
      → find? (is_capture "pre" device port) m.captures ≡ found
      → IsPre m found
  find?-IsPre device port none h = tt
  find?-IsPre device port (some b) h = (
    find?-mem (is_capture "pre" device port) m.captures b h,
    ((is_capture_iff "pre" device port b).0
        (find?_sound (is_capture "pre" device port) m.captures b h)).0,
  )

  pub find_capture-IsPre :
      (device : String) (port : Option String) → IsPre m (find_capture m "pre" device port)
  unfolding find_capture
  find_capture-IsPre device port = find?-IsPre device port _ refl

  pub or_else-IsPre : (a b : Option CaptureRecord) → IsPre m a → IsPre m b → IsPre m (or_else a b)
  or_else-IsPre none b h k = k
  or_else-IsPre (some a) b h k = h

  paired-IsPre :
      (found : Option MappingEndpoint)
      → IsPre m
          (elim found [ none ↦ none | some old ↦ find_capture m "pre" old.node (some old.port) ])
  paired-IsPre none = tt
  paired-IsPre (some old) = find_capture-IsPre old.node (some old.port)

  paired_pre-IsPre : (node : String) (port : Option String) → IsPre m (paired_pre m node port)
  unfolding paired_pre
  paired_pre-IsPre node none = tt
  paired_pre-IsPre node (some port) = paired-IsPre (paired_old m node port)

  old_box_pre-IsPre : Ensures (IsPre m) (old_box_pre m)
  unfolding old_box_pre
  old_box_pre-IsPre =
      Ensures-bind (λ _. Unit {0}) (IsPre m) (device_with_role m "old") _
        (trivial (device_with_role m "old")) λ found _. box found
    where
      trivial : (r : Result (Option (String × RunDevice))) → Ensures (λ _. Unit {0}) r
      trivial (returns found) = tt
      trivial (raises e) = tt

      box :
          (found : Option (String × RunDevice))
          → IsPre m
              (elim found [ none ↦ none | some (node, device) ↦ find_capture m "pre" node none ])
      box none = tt
      box (some (node, device)) = find_capture-IsPre node none

  or_old_box-IsPre :
      (found : Option CaptureRecord) → IsPre m found → Ensures (IsPre m) (or_old_box m found)
  or_old_box-IsPre none h = old_box_pre-IsPre
  or_old_box-IsPre (some b) h = h

  pub find_pre_baseline-IsPre :
      (node : String) (port : Option String) → Ensures (IsPre m) (find_pre_baseline m node port)
  unfolding find_pre_baseline own_pre
  find_pre_baseline-IsPre node port = elim (Bool-cases (m.kind == "single")) [
    | inl e ↦ rw e (or_else-IsPre _ _ (find_capture-IsPre node port) (find_capture-IsPre node none))
    | inr e ↦ rw e (or_old_box-IsPre _ (paired_pre-IsPre node port))
  ]
