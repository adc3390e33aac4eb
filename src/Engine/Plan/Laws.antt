-- ===== src/Engine/Plan/Laws.antt =====
-- What the loops of the evaluation leave: the jobs, the sections of the report and what is counted
-- (migration_validator/engine.py).
use mathlib.Core.List.{Memᴰ, append_assoc, append-nil}
use migration_status_check.Base.{
  filter-append, filter-mem, map-mem, subst, ◌+◌, String, Bool, true, false, not, List, [], ◌∷◌,
  ◌++◌, map, filter, length, length-append, map-append, arith, ◌≡◌, refl, sym, ap, ◌∙◌, inl, inr,
  Bool-cases,
}
use migration_status_check.Scoping.Matcher.{MatchedPair, UnmatchedScope, MatchSet}
use migration_status_check.Engine.Plan.{
  Job, Plan, Setting, unmatched_entry, in_profile, add_job, pair_job, plan_pairs, is_foreign,
  unmatched_job, add_unmatched, exclude, list_unmatched, plan_unmatched, plan_matched, empty_plan,
  is_new_service,
}

-- Is the job's scope in the profile?
abbrev pub is_chosen : Setting → Job → Bool
is_chosen e job = in_profile e.service_types job.scope

-- A service that belongs to this step, or there is no step.
abbrev pub is_own : Setting → List String → UnmatchedScope → Bool
is_own e ids u = not (is_foreign e ids u)

append_twice {ℓ} :
    {A : Type ℓ} (a b c us vs : List A) → b ≡ a ++ us → c ≡ b ++ vs → c ≡ a ++ (us ++ vs)
append_twice a b c us vs h k = k ∙ (ap (λ x. x ++ vs) h ∙ append_assoc a us vs)

module _ (e : Setting) where
  -- What a plan grows by: the jobs of the profile, and how many there were
  abbrev Grows : Plan → Plan → List Job → List UnmatchedScope → List UnmatchedScope → Type 0
  Grows before after jobs own foreign =
      (after.jobs ≡ before.jobs ++ filter (is_chosen e) jobs)
      × ((after.excluded ≡ before.excluded ++ map unmatched_entry foreign)
          × ((after.unmatched_subject ≡ before.unmatched_subject ++ map unmatched_entry own)
              × (length after.jobs + after.skipped
                  ≡ length before.jobs + before.skipped + length jobs)))

  add_job-Grows : (job : Job) (plan : Plan) → Grows plan (add_job e job plan) (job ∷ []) [] []
  unfolding add_job
  add_job-Grows job plan = elim (Bool-cases (in_profile e.service_types job.scope)) [
    | inl q ↦ rw q (
      refl,
      (
        sym (append-nil plan.excluded),
        (
          sym (append-nil plan.unmatched_subject),
          omega (arith, length-append plan.jobs (job ∷ [])),
        ),
      ),
    )
    | inr q ↦ rw q (
      sym (append-nil plan.jobs),
      (sym (append-nil plan.excluded), (sym (append-nil plan.unmatched_subject), omega arith)),
    )
  ]

  Grows-trans :
      (a b c : Plan) (js ks : List Job) (os ps fs gs : List UnmatchedScope)
      → Grows a b js os fs
      → Grows b c ks ps gs
      → Grows a c (js ++ ks) (os ++ ps) (fs ++ gs)
  Grows-trans a b c js ks os ps fs gs h k = (
    append_twice a.jobs b.jobs c.jobs (filter (is_chosen e) js) (filter (is_chosen e) ks) h.0 k.0
        ∙ ap (λ x. a.jobs ++ x) (sym (filter-append (is_chosen e) js ks)),
    (
      append_twice a.excluded b.excluded c.excluded (map unmatched_entry fs)
            (map unmatched_entry gs) h.1.0 k.1.0
          ∙ ap (λ x. a.excluded ++ x) (sym (map-append unmatched_entry fs gs)),
      (
        append_twice a.unmatched_subject b.unmatched_subject c.unmatched_subject
              (map unmatched_entry os) (map unmatched_entry ps) h.1.1.0 k.1.1.0
            ∙ ap (λ x. a.unmatched_subject ++ x) (sym (map-append unmatched_entry os ps)),
        omega (arith, h.1.1.1, k.1.1.1, length-append js ks),
      ),
    ),
  )

  same-Grows : (plan : Plan) → Grows plan plan [] [] []
  same-Grows plan = (
    sym (append-nil plan.jobs),
    (sym (append-nil plan.excluded), (sym (append-nil plan.unmatched_subject), omega arith)),
  )

  plan_pairs-Grows :
      (ps : List MatchedPair) (plan : Plan)
      → Grows plan (plan_pairs e ps plan) (map (pair_job e) ps) [] []
  unfolding plan_pairs
  plan_pairs-Grows [] plan = same-Grows plan
  plan_pairs-Grows (p ∷ ps) plan =
      let step = add_job e (pair_job e p) plan in
      Grows-trans plan step (plan_pairs e ps step) (pair_job e p ∷ []) (map (pair_job e) ps) [] []
        [] [] (add_job-Grows (pair_job e p) plan) (plan_pairs-Grows ps step)

  module _ (ids : List String) where
    abbrev own_of : List UnmatchedScope → List UnmatchedScope
    own_of us = filter (is_own e ids) us

    abbrev foreign_of : List UnmatchedScope → List UnmatchedScope
    foreign_of us = filter (is_foreign e ids) us

    exclude-Grows : (u : UnmatchedScope) (plan : Plan) → Grows plan (exclude u plan) [] [] (u ∷ [])
    exclude-Grows u plan =
        (sym (append-nil plan.jobs), (refl, (sym (append-nil plan.unmatched_subject), omega arith)))

    list_unmatched-Grows :
        (u : UnmatchedScope) (plan : Plan) → Grows plan (list_unmatched u plan) [] (u ∷ []) []
    list_unmatched-Grows u plan =
        (sym (append-nil plan.jobs), (sym (append-nil plan.excluded), (refl, omega arith)))

    add_foreign :
        (u : UnmatchedScope) (plan : Plan)
        → is_foreign e ids u ≡ true
        → Grows plan (add_unmatched e ids u plan) [] [] (u ∷ [])
    unfolding add_unmatched
    add_foreign u plan q = rw q (exclude-Grows u plan)

    add_own :
        (u : UnmatchedScope) (plan : Plan)
        → is_foreign e ids u ≡ false
        → Grows plan (add_unmatched e ids u plan) (unmatched_job e u ∷ []) (u ∷ []) []
    unfolding add_unmatched
    add_own u plan q =
        let more = add_job e (unmatched_job e u) plan in
        rw q (
          Grows-trans plan more (list_unmatched u more) (unmatched_job e u ∷ []) [] [] (u ∷ []) []
            [] (add_job-Grows (unmatched_job e u) plan) (list_unmatched-Grows u more))

    plan_unmatched-Grows :
        (us : List UnmatchedScope) (plan : Plan)
        → Grows plan
            (plan_unmatched e ids us plan)
            (map (unmatched_job e) (own_of us))
            (own_of us)
            (foreign_of us)
    unfolding plan_unmatched
    plan_unmatched-Grows [] plan = same-Grows plan
    plan_unmatched-Grows (u ∷ us) plan =
        let step = add_unmatched e ids u plan in
        let last = plan_unmatched e ids us step in
        elim (Bool-cases (is_foreign e ids u)) [
          | inl q ↦ rw q (
              Grows-trans plan step last [] (map (unmatched_job e) (own_of us)) [] (own_of us)
                (u ∷ []) (foreign_of us) (add_foreign u plan q) (plan_unmatched-Grows us step))
          | inr q ↦ rw q (
              Grows-trans plan step last (unmatched_job e u ∷ [])
                (map (unmatched_job e) (own_of us)) (u ∷ []) (own_of us) [] (foreign_of us)
                (add_own u plan q) (plan_unmatched-Grows us step))
        ]

abbrev pub matched_ids : MatchSet → List String
matched_ids m = map (λ p. p.subject.scope.id) m.pairs

-- What is evaluated if the profile lets everything through: the pairs, then the unmatched scopes of
-- the subject that are not left to another step
abbrev pub all_jobs : Setting → MatchSet → List Job
all_jobs e m =
    map (pair_job e) m.pairs
    ++ map (unmatched_job e) (filter (is_own e (matched_ids m)) m.unmatched_subject)

-- The loops of the evaluation neither lose nor repeat a scope of the subject: the scopes evaluated
-- are, in order, those of the pairs and of the unmatched scopes that do not belong to another step,
-- cut to the profile; what the profile cuts is counted as skipped; the unmatched scopes of another
-- step are exactly the excluded ones, and the others exactly the section of unmatched scopes, which
-- the profile does not cut.
pub plan_matched_exact :
    (e : Setting) (m : MatchSet)
    → ((plan_matched e m).jobs ≡ filter (is_chosen e) (all_jobs e m))
      × (((plan_matched e m).excluded
            ≡ map unmatched_entry (filter (is_foreign e (matched_ids m)) m.unmatched_subject))
          × (((plan_matched e m).unmatched_subject
                ≡ map unmatched_entry (filter (is_own e (matched_ids m)) m.unmatched_subject))
              × (length (plan_matched e m).jobs + (plan_matched e m).skipped
                  ≡ length (all_jobs e m))))
unfolding plan_matched
plan_matched_exact e m =
    let us = m.unmatched_subject in
    let ids = matched_ids m in
    let paired = plan_pairs e m.pairs empty_plan in
    let g =
      Grows-trans e empty_plan paired (plan_unmatched e ids us paired) (map (pair_job e) m.pairs)
        (map (unmatched_job e) (filter (is_own e ids) us)) [] (filter (is_own e ids) us) []
        (filter (is_foreign e ids) us) (plan_pairs-Grows e m.pairs empty_plan)
        (plan_unmatched-Grows e ids us paired) in
    (g.0, (g.1.0, (g.1.1.0, omega (arith, g.1.1.1))))

ambiguous_own :
    (e : Setting) (ids : List String) (u : UnmatchedScope)
    → is_new_service u.reason ≡ false
    → is_foreign e ids u ≡ false
unfolding is_foreign
ambiguous_own e ids u h = ground (arith, h)

-- A scope of the subject that is unmatched for another reason than being a new service, such as an
-- ambiguity, is listed as unmatched whatever the step and the profile are.
pub plan_matched-listed :
    (e : Setting) (m : MatchSet) (u : UnmatchedScope)
    → Memᴰ u m.unmatched_subject
    → is_new_service u.reason ≡ false
    → Memᴰ (unmatched_entry u) (plan_matched e m).unmatched_subject
plan_matched-listed e m u i h =
    subst (λ es. Memᴰ (unmatched_entry u) es) (sym (plan_matched_exact e m).1.1.0)
      (map-mem unmatched_entry (
        filter-mem (is_own e (matched_ids m)) u m.unmatched_subject i
          (ap not (ambiguous_own e (matched_ids m) u h))))
