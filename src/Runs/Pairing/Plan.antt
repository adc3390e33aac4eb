-- ===== src/Runs/Pairing/Plan.antt =====
-- Which captures a plan covers (migration_validator/runs/pairing.py).
use mathlib.Core.List.{Memᴰ}
use migration_status_check.Base.{
  ◌≡◌, refl, sym, subst, inl, inr, Bool, true, ◌||◌, Option, none, some, List, [], ◌∷◌, string_eq,
  ◌==◌, returns, Ensures, Ensures-bind, Ensures-trivial, of_Ensures, filter, filter_all,
  mem-append_left, mem-append_right, arith, Bool-cases,
}
use migration_status_check.Runs.Manifest.{CaptureRecord, InterfaceMapping, RunManifest}
use migration_status_check.Runs.Pairing.{
  Evaluation, find_pre_baseline, single_evaluation, box_evaluation, step_result, step_evaluation,
  steps_of, plan_steps, plan_post, rollback_evaluation, plan_rollback, plan_capture, plan_captures,
  with_same_device, passes_port_filter, filter_port, plan_evaluations,
}

-- The captures that are evaluated.
abbrev pub is_after : CaptureRecord → Bool
is_after c = c.phase == "post" || c.phase == "rollback"

-- The plan has an evaluation of the capture.
abbrev pub HasSubject : CaptureRecord → List Evaluation → Type 0
HasSubject c es = (e : Evaluation) × Memᴰ e es × (e.subject ≡ c)

pub single-subject :
    (c : CaptureRecord) (b : Option CaptureRecord) → (single_evaluation c b).subject ≡ c
single-subject c none = refl
single-subject c (some b) = refl

box-subject : (c : CaptureRecord) (b : Option CaptureRecord) → (box_evaluation c b).subject ≡ c
box-subject c none = refl
box-subject c (some b) = refl

step-subject :
    (c : CaptureRecord) (p : InterfaceMapping) (b : Option CaptureRecord)
    → (step_result c p b).subject ≡ c
step-subject c p none = refl
step-subject c p (some b) = refl

pub rollback-subject :
    (c : CaptureRecord) (b : Option CaptureRecord) → (rollback_evaluation c b).subject ≡ c
rollback-subject c none = refl
rollback-subject c (some b) = refl

module _ (m : RunManifest) where
  plan_steps-HasSubject :
      (c : CaptureRecord) (ps : List InterfaceMapping) → Ensures (HasSubject c) (plan_steps m c ps)
  unfolding step_evaluation
  plan_steps-HasSubject c [] =
      Ensures-bind _ (HasSubject c) (find_pre_baseline m c.device c.port) _
        (Ensures-trivial (find_pre_baseline m c.device c.port))
        (λ b _. (box_evaluation c b, Memᴰ.head refl, box-subject c b))
  plan_steps-HasSubject c (p ∷ ps) = (step_evaluation m c p, Memᴰ.head refl, step-subject c p _)

  plan_post-HasSubject : (c : CaptureRecord) → Ensures (HasSubject c) (plan_post m c)
  unfolding plan_post
  plan_post-HasSubject c = elim (Bool-cases (m.kind == "single")) [
    | inl e ↦ rw e (
        Ensures-bind _ (HasSubject c) (find_pre_baseline m c.device c.port) _
          (Ensures-trivial (find_pre_baseline m c.device c.port))
          (λ b _. (single_evaluation c b, Memᴰ.head refl, single-subject c b)))
    | inr e ↦ rw e (plan_steps-HasSubject c (steps_of m c))
  ]

  plan_capture-HasSubject :
      (c : CaptureRecord) → is_after c ≡ true → Ensures (HasSubject c) (plan_capture m c)
  unfolding plan_capture plan_rollback
  plan_capture-HasSubject c after = elim (Bool-cases (c.phase == "post")) [
    | inl e ↦ rw e (plan_post-HasSubject c)
    | inr e ↦ elim (Bool-cases (c.phase == "rollback")) [
      | inl f ↦ rw (e, f) (plan_rollback m c, Memᴰ.head refl, rollback-subject c _)
      | inr f ↦ absurd (ground (arith, e, f, after))
    ]
  ]

  plan_captures-HasSubject :
      (c : CaptureRecord) (cs : List CaptureRecord)
      → is_after c ≡ true
      → Memᴰ c cs
      → Ensures (HasSubject c) (plan_captures m cs)
  unfolding plan_captures
  plan_captures-HasSubject c [] after i = elim i [ ]
  plan_captures-HasSubject c (d ∷ cs) after (Memᴰ.head same) =
      Ensures-bind (HasSubject c) (HasSubject c) (plan_capture m d) _
        (rw (← same) (plan_capture-HasSubject c after))
        (λ here (e, i, s).
          Ensures-bind _ (HasSubject c) (plan_captures m cs) _
            (Ensures-trivial (plan_captures m cs))
            (λ rest _. (e, mem-append_left e here rest i, s)))
  plan_captures-HasSubject c (d ∷ cs) after (Memᴰ.tail i) =
      Ensures-bind _ (HasSubject c) (plan_capture m d) _ (Ensures-trivial (plan_capture m d))
        (λ here _.
          Ensures-bind (HasSubject c) (HasSubject c) (plan_captures m cs) _
            (plan_captures-HasSubject c cs after i)
            (λ rest (e, j, s). (e, mem-append_right e here rest j, s)))

-- No filter of ports keeps every evaluation.
pub keep_all :
    (es : List Evaluation) → filter (λ e. passes_port_filter (filter_port e) none) es ≡ es
unfolding passes_port_filter
keep_all es = filter_all _ es (λ e. refl)

-- Without a filter of ports, every post and every rollback capture of the run is evaluated.
pub plan_evaluations_complete :
    (m : RunManifest) (c : CaptureRecord) (es : List Evaluation)
    → Memᴰ c m.captures
    → is_after c ≡ true
    → plan_evaluations m none ≡ returns es
    → (e : Evaluation) × Memᴰ e es × (e.subject ≡ c)
plan_evaluations_complete m c es i after planned =
    of_Ensures (HasSubject c) (plan_evaluations m none)
      (unfold plan_evaluations in
        Ensures-bind (HasSubject c) (HasSubject c) (plan_captures m m.captures) _
          (plan_captures-HasSubject m c m.captures after i)
          (λ ps (e, j, s). (
            e,
            subst (Memᴰ e) (sym (keep_all (with_same_device m ps))) (mem-append_left e ps _ j),
            s,
          )))
      planned
