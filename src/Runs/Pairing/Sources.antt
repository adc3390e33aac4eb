-- ===== src/Runs/Pairing/Sources.antt =====
-- Where the subject and the baseline of a planned evaluation come from.
use mathlib.Core.List.{Memᴰ}
use migration_status_check.Base.{
  String, ◌≡◌, ◌⊎◌, inl, inr, refl, Bool, true, false, not, Option, none, some, List, [], ◌∷◌,
  string_eq, ◌==◌, returns, Ensures, Ensures-bind, of_Ensures, any, All, All-append, All-filter,
  All-map, All-of_mem, eq_iff, Bool-cases,
}
use migration_status_check.Runs.Manifest.{CaptureRecord, InterfaceMapping, RunManifest}
use migration_status_check.Runs.Pairing.{
  Evaluation, find_pre_baseline, single_evaluation, box_evaluation, step_result, step_baseline,
  step_evaluation, steps_of, plan_steps, plan_post, rollback_evaluation, plan_rollback, is_pair,
  same_device_with, same_device_of, plan_same_device, plan_capture, plan_captures, plan_evaluations,
}
use migration_status_check.Runs.Pairing.Pres.{
  IsPre, or_else-IsPre, find_capture-IsPre, find_pre_baseline-IsPre,
}

abbrev pub is_given : Option CaptureRecord → Bool
is_given none = false
is_given (some b) = true

abbrev pub has_reason : Option String → Bool
has_reason none = false
has_reason (some s) = true

-- The subject is a post or rollback capture of the run, the baseline, if there is one, a pre
-- capture of the run, and a reason stands exactly where the baseline is missing.
pub record IsSound (m : RunManifest) (e : Evaluation) : Type 0 where
  pub taken : Memᴰ e.subject m.captures
  pub after : (e.subject.phase ≡ "post") ⊎ (e.subject.phase ≡ "rollback")
  pub before : IsPre m e.baseline
  pub explained : has_reason e.reason ≡ not (is_given e.baseline)

module _ (m : RunManifest) where
  module _ (c : CaptureRecord) (taken : Memᴰ c m.captures) where
    single-IsSound :
        c.phase ≡ "post"
        → (b : Option CaptureRecord) → IsPre m b
        → IsSound m (single_evaluation c b)
    single-IsSound post none h = record {
      taken = taken;
      after = inl post;
      before = tt;
      explained = refl;
    }
    single-IsSound post (some b) h = record {
      taken = taken;
      after = inl post;
      before = h;
      explained = refl;
    }

    box-IsSound :
        c.phase ≡ "post" → (b : Option CaptureRecord) → IsPre m b → IsSound m (box_evaluation c b)
    box-IsSound post none h = record {
      taken = taken;
      after = inl post;
      before = tt;
      explained = refl;
    }
    box-IsSound post (some b) h = record {
      taken = taken;
      after = inl post;
      before = h;
      explained = refl;
    }

    step-IsSound :
        c.phase ≡ "post"
        → (p : InterfaceMapping) (b : Option CaptureRecord) → IsPre m b
        → IsSound m (step_result c p b)
    step-IsSound post p none h = record {
      taken = taken;
      after = inl post;
      before = tt;
      explained = refl;
    }
    step-IsSound post p (some b) h = record {
      taken = taken;
      after = inl post;
      before = h;
      explained = refl;
    }

    rollback-IsSound :
        c.phase ≡ "rollback"
        → (b : Option CaptureRecord) → IsPre m b
        → IsSound m (rollback_evaluation c b)
    rollback-IsSound back none h = record {
      taken = taken;
      after = inr back;
      before = tt;
      explained = refl;
    }
    rollback-IsSound back (some b) h = record {
      taken = taken;
      after = inr back;
      before = h;
      explained = refl;
    }

    plan_steps-IsSound :
        c.phase ≡ "post"
        → (ps : List InterfaceMapping) → Ensures (All (IsSound m)) (plan_steps m c ps)
    unfolding step_evaluation step_baseline
    plan_steps-IsSound post [] =
        Ensures-bind (IsPre m) (All (IsSound m)) (find_pre_baseline m c.device c.port) _
          (find_pre_baseline-IsPre m c.device c.port) (λ b h. (box-IsSound post b h, tt))
    plan_steps-IsSound post (p ∷ ps) =
        All-map (IsSound m) (step_evaluation m c)
          (λ q. step-IsSound post q _ (
            or_else-IsPre m _ _ (find_capture-IsPre m q.old.node (some q.old.port))
              (find_capture-IsPre m q.old.node none)))
          (p ∷ ps)

    plan_post-IsSound : c.phase ≡ "post" → Ensures (All (IsSound m)) (plan_post m c)
    unfolding plan_post
    plan_post-IsSound post = elim (Bool-cases (m.kind == "single")) [
      | inl e ↦ rw e (
          Ensures-bind (IsPre m) (All (IsSound m)) (find_pre_baseline m c.device c.port) _
            (find_pre_baseline-IsPre m c.device c.port) (λ b h. (single-IsSound post b h, tt)))
      | inr e ↦ rw e (plan_steps-IsSound post (steps_of m c))
    ]

    plan_capture-IsSound : Ensures (All (IsSound m)) (plan_capture m c)
    unfolding plan_capture plan_rollback
    plan_capture-IsSound = elim (Bool-cases (c.phase == "post")) [
      | inl e ↦ rw e (plan_post-IsSound ((eq_iff c.phase "post").0 e))
      | inr e ↦ elim (Bool-cases (c.phase == "rollback")) [
        | inl f ↦
            rw (e, f)
              (
                rollback-IsSound ((eq_iff c.phase "rollback").0 f) _
                    (find_capture-IsPre m c.device c.port),
                tt,
              )
        | inr f ↦ rw (e, f) tt
      ]
    ]

    same_device_with-IsSound :
        c.phase ≡ "post"
        → (planned : List Evaluation) (b : Option CaptureRecord) → IsPre m b
        → All (IsSound m) (same_device_with planned c b)
    same_device_with-IsSound post planned none h = tt
    same_device_with-IsSound post planned (some b) h =
        elim (Bool-cases (any (is_pair c.snapshot b.snapshot) planned)) [
          | inl e ↦ rw e tt
          | inr e ↦
              rw e (record { taken = taken; after = inl post; before = h; explained = refl }, tt)
        ]

    same_device_of-IsSound :
        (planned : List Evaluation) → All (IsSound m) (same_device_of m planned c)
    unfolding same_device_of
    same_device_of-IsSound planned = elim (Bool-cases (c.phase == "post")) [
      | inl e ↦ rw e (
          same_device_with-IsSound ((eq_iff c.phase "post").0 e) planned _
            (find_capture-IsPre m c.device c.port))
      | inr e ↦ rw e tt
    ]

  plan_captures-IsSound :
      (cs : List CaptureRecord)
      → All (λ c. Memᴰ c m.captures) cs
      → Ensures (All (IsSound m)) (plan_captures m cs)
  unfolding plan_captures
  plan_captures-IsSound [] h = tt
  plan_captures-IsSound (c ∷ cs) h =
      Ensures-bind (All (IsSound m)) (All (IsSound m)) (plan_capture m c) _
        (plan_capture-IsSound c h.0)
        (λ here sound.
          Ensures-bind (All (IsSound m)) (All (IsSound m)) (plan_captures m cs) _
            (plan_captures-IsSound cs h.1)
            (λ rest others. All-append (IsSound m) here rest sound others))

  plan_same_device-IsSound :
      (planned : List Evaluation) (cs : List CaptureRecord)
      → All (λ c. Memᴰ c m.captures) cs
      → All (IsSound m) (plan_same_device m planned cs)
  unfolding plan_same_device
  plan_same_device-IsSound planned [] h = tt
  plan_same_device-IsSound planned (c ∷ cs) h =
      All-append (IsSound m) (same_device_of m planned c) _ (same_device_of-IsSound c h.0 planned)
        (plan_same_device-IsSound planned cs h.1)

-- Every planned evaluation has a post or rollback capture of the run as its subject and, if it
-- has a baseline, a pre capture of the run; a reason is given exactly where the baseline is
-- missing.
pub plan_evaluations-IsSound :
    (m : RunManifest) (ports : Option (List String)) (es : List Evaluation)
    → plan_evaluations m ports ≡ returns es
    → All (IsSound m) es
plan_evaluations-IsSound m ports es planned =
    of_Ensures (All (IsSound m)) (plan_evaluations m ports)
      (unfold plan_evaluations in
        Ensures-bind (All (IsSound m)) (All (IsSound m)) (plan_captures m m.captures) _
          (plan_captures-IsSound m m.captures here)
          (λ ps sound.
            All-filter (IsSound m) _ _
              (All-append (IsSound m) ps _ sound (plan_same_device-IsSound m ps m.captures here))))
      planned
  where
    here : All (λ c. Memᴰ c m.captures) m.captures
    here = All-of_mem _ m.captures (λ c h. h)
