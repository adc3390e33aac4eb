-- ===== src/Runs/Pairing.antt =====
-- Which capture is evaluated against which (migration_validator/runs/pairing.py).
pub mod Plan
pub mod Pres
pub mod Sources
pub mod Total
pub mod Single
pub mod Loaded
mod Tests
use migration_status_check.Base.{
  String, Bool, true, false, not, ◌&&◌, ◌||◌, Option, none, some, List, [], ◌∷◌, ◌++◌, map, ◌==◌,
  string_eq, option_eq, Result, returns, raises, ◌>>=◌, if◌then◌else◌, filter, contains, concat,
  any,
}
use migration_status_check.Runs.Manifest.{
  CaptureRecord, InterfaceMapping, MappingEndpoint, RunManifest, find_capture, paired_old,
  device_with_role, at_endpoint,
}

pub record Evaluation : Type 0 where
  pub subject : CaptureRecord
  pub baseline : Option CaptureRecord
  pub reason : Option String
  pub step : Option InterfaceMapping
  pub same_device : Bool

-- An evaluation with the defaults of the dataclass.
abbrev pub evaluation : CaptureRecord → Option CaptureRecord → Evaluation
evaluation subject baseline = record {
  subject = subject;
  baseline = baseline;
  reason = none;
  step = none;
  same_device = false;
}

abbrev pub is_empty_filter : Option (List String) → Bool
is_empty_filter none = true
is_empty_filter (some []) = true
is_empty_filter (some (p ∷ ps)) = false

abbrev pub in_ports : Option String → Option (List String) → Bool
in_ports (some port) (some ports) = contains ports port
in_ports _ _ = false

-- `_passes_port_filter`
unfoldable pub passes_port_filter : Option String → Option (List String) → Bool
passes_port_filter port ports = if is_empty_filter ports then true else in_ports port ports

-- `a or b` of two captures
abbrev pub or_else {ℓ} : {A : Type ℓ} → Option A → Option A → Option A
or_else (some a) b = some a
or_else none b = b

-- `_own_pre`: the exact port first, then the whole box.
unfoldable pub own_pre : RunManifest → String → Option String → Option CaptureRecord
own_pre m node port = or_else (find_capture m "pre" node port) (find_capture m "pre" node none)

-- The baseline through the recorded pairing of the port.
unfoldable pub paired_pre : RunManifest → String → Option String → Option CaptureRecord
paired_pre m node none = none
paired_pre m node (some port) = elim (paired_old m node port) [
  | none ↦ none
  | some old ↦ find_capture m "pre" old.node (some old.port)
]

-- The capture of the whole old box.
unfoldable pub old_box_pre : RunManifest → Result (Option CaptureRecord)
old_box_pre m = device_with_role m "old" >>= λ found.
    returns (elim found [ none ↦ none | some (node, device) ↦ find_capture m "pre" node none ])

abbrev pub or_old_box : RunManifest → Option CaptureRecord → Result (Option CaptureRecord)
or_old_box m (some baseline) = returns (some baseline)
or_old_box m none = old_box_pre m

-- `find_pre_baseline`
unfoldable pub find_pre_baseline :
    RunManifest → String → Option String → Result (Option CaptureRecord)
find_pre_baseline m node port =
    if m.kind == "single"
    then returns (own_pre m node port)
    else or_old_box m (paired_pre m node port)

abbrev pub port_or_all : Option String → String
port_or_all none = "all"
port_or_all (some p) = if p == "" then "all" else p

-- The evaluation of a post capture of a single box.
abbrev pub single_evaluation : CaptureRecord → Option CaptureRecord → Evaluation
single_evaluation subject none = record (evaluation subject none) {
  reason =
      some (concat ("chybi pre snimek " ∷ subject.device ∷ ":" ∷ port_or_all subject.port ∷ []));
}
single_evaluation subject (some b) = record (evaluation subject (some b)) { same_device = true }

-- The evaluation of a post capture that no step maps.
abbrev pub box_evaluation : CaptureRecord → Option CaptureRecord → Evaluation
box_evaluation subject none = record (evaluation subject none) {
  reason = some "chybi pre snimek stareho boxu";
}
box_evaluation subject (some b) = evaluation subject (some b)

-- The steps whose new end is the port of the capture.
unfoldable pub steps_of : RunManifest → CaptureRecord → List InterfaceMapping
steps_of m subject = elim subject.port [
  | none ↦ []
  | some port ↦ filter (λ p. at_endpoint subject.device port p.new) m.interface_mapping
]

unfoldable pub step_baseline : RunManifest → InterfaceMapping → Option CaptureRecord
step_baseline m p =
    or_else (find_capture m "pre" p.old.node (some p.old.port))
      (find_capture m "pre" p.old.node none)

abbrev pub step_result : CaptureRecord → InterfaceMapping → Option CaptureRecord → Evaluation
step_result subject p none = record (evaluation subject none) {
  reason = some (concat ("chybi pre snimek " ∷ p.old.node ∷ ":" ∷ p.old.port ∷ []));
  step = some p;
}
step_result subject p (some b) = record (evaluation subject (some b)) { step = some p }

-- The evaluation of one migration step.
unfoldable pub step_evaluation : RunManifest → CaptureRecord → InterfaceMapping → Evaluation
step_evaluation m subject p = step_result subject p (step_baseline m p)

abbrev pub plan_steps :
    RunManifest → CaptureRecord → List InterfaceMapping → Result (List Evaluation)
plan_steps m subject [] =
    find_pre_baseline m subject.device subject.port >>= λ b. returns (box_evaluation subject b ∷ [])
plan_steps m subject (p ∷ ps) = returns (map (step_evaluation m subject) (p ∷ ps))

-- `_plan_post`
unfoldable pub plan_post : RunManifest → CaptureRecord → Result (List Evaluation)
plan_post m subject =
    if m.kind == "single"
    then (find_pre_baseline m subject.device subject.port >>= λ b.
        returns (single_evaluation subject b ∷ []))
    else plan_steps m subject (steps_of m subject)

abbrev pub rollback_evaluation : CaptureRecord → Option CaptureRecord → Evaluation
rollback_evaluation subject none = record (evaluation subject none) {
  reason = some "chybi puvodni pre snimek stejneho zarizeni a portu";
}
rollback_evaluation subject (some b) = evaluation subject (some b)

-- `_plan_rollback`
unfoldable pub plan_rollback : RunManifest → CaptureRecord → Evaluation
plan_rollback m subject =
    rollback_evaluation subject (find_capture m "pre" subject.device subject.port)

-- `(subject.snapshot, baseline.snapshot) in existing`
abbrev pub is_pair : String → String → Evaluation → Bool
is_pair subject baseline e = elim e.baseline [
  | none ↦ false
  | some b ↦ e.subject.snapshot == subject && b.snapshot == baseline
]

-- What `_plan_same_device` adds for a post capture with this pre capture of its own.
abbrev pub same_device_with :
    List Evaluation → CaptureRecord → Option CaptureRecord → List Evaluation
same_device_with planned capture none = []
same_device_with planned capture (some b) =
    if any (is_pair capture.snapshot b.snapshot) planned
    then []
    else record (evaluation capture (some b)) { same_device = true } ∷ []

-- What `_plan_same_device` adds for one capture.
unfoldable pub same_device_of : RunManifest → List Evaluation → CaptureRecord → List Evaluation
same_device_of m planned capture =
    if not (capture.phase == "post")
    then []
    else same_device_with planned capture (find_capture m "pre" capture.device capture.port)

-- `_plan_same_device`
unfoldable pub plan_same_device :
    RunManifest → List Evaluation → List CaptureRecord → List Evaluation
plan_same_device m planned [] = []
plan_same_device m planned (c ∷ cs) = same_device_of m planned c ++ plan_same_device m planned cs

-- `_filter_port`
unfoldable pub filter_port : Evaluation → Option String
filter_port e = elim e.step [ none ↦ e.subject.port | some p ↦ some p.old.port ]

-- What one capture contributes to the plan.
unfoldable pub plan_capture : RunManifest → CaptureRecord → Result (List Evaluation)
plan_capture m capture =
    if not (capture.phase == "post" || capture.phase == "rollback")
    then returns []
    else if capture.phase == "post"
    then plan_post m capture
    else returns (plan_rollback m capture ∷ [])

unfoldable pub plan_captures : RunManifest → List CaptureRecord → Result (List Evaluation)
plan_captures m [] = returns []
plan_captures m (c ∷ cs) =
    plan_capture m c >>= λ here. plan_captures m cs >>= λ rest. returns (here ++ rest)

abbrev pub with_same_device : RunManifest → List Evaluation → List Evaluation
with_same_device m planned = planned ++ plan_same_device m planned m.captures

-- `plan_evaluations`
unfoldable pub plan_evaluations : RunManifest → Option (List String) → Result (List Evaluation)
plan_evaluations m ports = plan_captures m m.captures >>= λ planned.
    returns (filter (λ e. passes_port_filter (filter_port e) ports) (with_same_device m planned))
