-- ===== src/Runs/Pairing/Single.antt =====
-- The plan of a single run: one box, every capture against its own pre capture.
use mathlib.Core.List.{append-nil}
use migration_status_check.Base.{
  ◌≡◌, refl, ap, ◌∙◌, inl, inr, true, false, none, some, List, [], ◌∷◌, ◌++◌, map, string_eq, ◌==◌,
  returns, Ensures, Ensures-bind, of_Ensures, filter, any, any-append, map-append, arith, eq_iff,
  eq_refl, Bool-cases, Option-cases, All, All-map_imp,
}
use migration_status_check.Runs.Manifest.{CaptureRecord, RunManifest, find_capture}
use migration_status_check.Runs.Pairing.{
  Evaluation, own_pre, find_pre_baseline, single_evaluation, plan_post, plan_rollback, is_pair,
  same_device_of, plan_same_device, plan_capture, plan_captures, with_same_device, plan_evaluations,
}
use migration_status_check.Runs.Pairing.Plan.{is_after, keep_all, single-subject, rollback-subject}

-- The pair that `_plan_same_device` would add for the capture is in the plan.
abbrev Covered : RunManifest → List Evaluation → CaptureRecord → Type 0
Covered m es c =
    c.phase ≡ "post"
    → (b : CaptureRecord) → find_capture m "pre" c.device c.port ≡ some b
    → any (is_pair c.snapshot b.snapshot) es ≡ true

Covered-left :
    (m : RunManifest) (es fs : List Evaluation) (c : CaptureRecord)
    → Covered m es c
    → Covered m (es ++ fs) c
Covered-left m es fs c h post b found =
    rw (any-append (is_pair c.snapshot b.snapshot) es fs) (ground (arith, h post b found))

Covered-right :
    (m : RunManifest) (es fs : List Evaluation) (c : CaptureRecord)
    → Covered m fs c
    → Covered m (es ++ fs) c
Covered-right m es fs c h post b found =
    rw (any-append (is_pair c.snapshot b.snapshot) es fs) (ground (arith, h post b found))

not_post : (c : CaptureRecord) → (c.phase == "post") ≡ false → c.phase ≡ "post" → ⊥
not_post c e post = ground (arith, eq_iff c.phase "post")

filter_first :
    (c : CaptureRecord) (cs : List CaptureRecord)
    → filter is_after (c ∷ []) ++ filter is_after cs ≡ filter is_after (c ∷ cs)
filter_first c cs = elim (Bool-cases (is_after c)) [ inl e ↦ rw e | inr e ↦ rw e ]

module _ (m : RunManifest) (single : m.kind ≡ "single") where
  own-Covered :
      (c : CaptureRecord) → Covered m (single_evaluation c (own_pre m c.device c.port) ∷ []) c
  unfolding own_pre
  own-Covered c post b found = rw found (rw (eq_refl c.snapshot, eq_refl b.snapshot))

  plan_post_single :
      (c : CaptureRecord)
      → plan_post m c ≡ returns (single_evaluation c (own_pre m c.device c.port) ∷ [])
  unfolding plan_post find_pre_baseline
  plan_post_single c = rw single

  plan_capture_single :
      (c : CaptureRecord)
      → Ensures
          (λ es. (map (λ e. e.subject) es ≡ filter is_after (c ∷ [])) × Covered m es c)
          (plan_capture m c)
  unfolding plan_capture plan_rollback
  plan_capture_single c = elim (Bool-cases (c.phase == "post")) [
    | inl e ↦
        rw (e, plan_post_single c)
          (ap (λ d. d ∷ []) (single-subject c (own_pre m c.device c.port)), own-Covered c)
    | inr e ↦ elim (Bool-cases (c.phase == "rollback")) [
      | inl f ↦
          rw (e, f) (ap (λ d. d ∷ []) (rollback-subject c _), λ post. absurd (not_post c e post))
      | inr f ↦ rw (e, f) (refl, λ post. absurd (not_post c e post))
    ]
  ]

  plan_captures_single :
      (cs : List CaptureRecord)
      → Ensures
          (λ es. (map (λ e. e.subject) es ≡ filter is_after cs) × All (Covered m es) cs)
          (plan_captures m cs)
  unfolding plan_captures
  plan_captures_single [] = (refl, tt)
  plan_captures_single (c ∷ cs) =
      Ensures-bind _ _ (plan_capture m c) _ (plan_capture_single c) (λ here h.
        Ensures-bind _ _ (plan_captures m cs) _ (plan_captures_single cs) (λ rest k. (
          map-append (λ e. e.subject) here rest
              ∙ ap (λ l. l ++ map (λ e. e.subject) rest) h.0
              ∙ ap (λ l. filter is_after (c ∷ []) ++ l) k.0
              ∙ filter_first c cs,
          (
            Covered-left m here rest c h.1,
            All-map_imp (Covered m rest) (Covered m (here ++ rest))
                (λ d. Covered-right m here rest d) cs k.1,
          ),
        )))

  same_device_of_nil :
      (es : List Evaluation) (c : CaptureRecord) → Covered m es c → same_device_of m es c ≡ []
  unfolding same_device_of
  same_device_of_nil es c h = elim (Bool-cases (c.phase == "post")) [
    | inr e ↦ rw e
    | inl e ↦ elim (Option-cases (find_capture m "pre" c.device c.port)) [
      | inl none_found ↦ rw (e, none_found)
      | inr w ↦ rw (e, w.1, h ((eq_iff c.phase "post").0 e) w.0 w.1)
    ]
  ]

  plan_same_device_nil :
      (es : List Evaluation) (cs : List CaptureRecord)
      → All (Covered m es) cs
      → plan_same_device m es cs ≡ []
  unfolding plan_same_device
  plan_same_device_nil es [] h = refl
  plan_same_device_nil es (c ∷ cs) h =
      rw (same_device_of_nil es c h.0) (plan_same_device_nil es cs h.1)

-- In a single run, without a filter of ports, the plan has exactly one evaluation for each post
-- and each rollback capture, in the order in which they were captured: the pass over the same
-- device adds none.
pub plan_evaluations-single :
    (m : RunManifest) (es : List Evaluation)
    → m.kind ≡ "single"
    → plan_evaluations m none ≡ returns es
    → map (λ e. e.subject) es ≡ filter is_after m.captures
plan_evaluations-single m es single planned =
    of_Ensures (λ (fs : List Evaluation). map (λ e. e.subject) fs ≡ filter is_after m.captures)
      (plan_evaluations m none)
      (unfold plan_evaluations in
        Ensures-bind _ _ (plan_captures m m.captures) _ (plan_captures_single m single m.captures)
          (λ ps h.
            ap (map (λ e. e.subject)) (
              keep_all (with_same_device m ps)
              ∙ ap (λ l. ps ++ l) (plan_same_device_nil m single ps m.captures h.1)
              ∙ append-nil ps)
            ∙ h.0))
      planned
