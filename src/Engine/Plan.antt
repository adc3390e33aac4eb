-- ===== src/Engine/Plan.antt =====
-- Which scopes are evaluated against what, which are skipped by the profile and which are left out of
-- a migration step (the loops of `evaluate_snapshots` in migration_validator/engine.py). A job is one
-- call of `_run_scope`.
pub mod Laws
mod Tests
use migration_status_check.Base.Dict
use migration_status_check.Base.Dict.{Dict}
use migration_status_check.Base.Results.{Result, returns, raises, ◌>>=◌}
use migration_status_check.Base.{
  ℕ, suc, String, Bool, true, false, not, ◌&&◌, Option, none, some, List, [], ◌∷◌, ◌++◌, ◌==◌,
  string_eq, option_eq, map, filter, contains, if◌then◌else◌,
}
use migration_status_check.Models.Scope.{Scope, service_type}
use migration_status_check.Scoping.Matcher.{
  ScopeObject, MatchedPair, UnmatchedScope, MatchSet, Reason, no_candidate, new_service, ambiguous,
}
use migration_status_check.Engine.Order.{MatchInfo, Link, l3, l2, peer_id}
use migration_status_check.Engine.Ports.{l1_baseline}

pub record Job : Type 0 where
  pub scope : Scope
  pub baseline_scope : Option Scope
  pub match_info : Option MatchInfo
  pub link : Option Link

-- `_unmatched_entry`
pub record Entry : Type 0 where
  pub scope_id : String
  pub description : Option String
  pub service_type : Option String
  pub reason : Reason

unfoldable pub unmatched_entry : UnmatchedScope → Entry
unmatched_entry u = record {
  scope_id = u.scope.scope.id;
  description = elim u.scope.scope.key [ none ↦ none | some k ↦ k.description ];
  service_type = service_type u.scope.scope;
  reason = u.reason;
}

pub record Plan : Type 0 where
  pub jobs : List Job
  pub skipped : ℕ
  pub excluded : List Entry
  pub unmatched_subject : List Entry

abbrev pub empty_plan : Plan
empty_plan = record { jobs = []; skipped = 0; excluded = []; unmatched_subject = [] }

abbrev pub in_types : List String → Option String → Bool
in_types types none = false
in_types types (some t) = contains types t

-- `_in_profile`
unfoldable pub in_profile : Option (List String) → Scope → Bool
in_profile none s = true
in_profile (some types) s = if s.kind == "service" then in_types types (service_type s) else true

-- `_match_info`
unfoldable pub matched_info : MatchedPair → MatchInfo
matched_info p = record {
  status = "matched";
  method = some p.method;
  confidence = some p.confidence;
  baseline_interfaces = p.baseline.scope.selectors.interfaces;
  subject_interfaces = p.subject.scope.selectors.interfaces;
  reason = none;
}

abbrev pub unmatched_info : UnmatchedScope → MatchInfo
unmatched_info u = record {
  status = "unmatched";
  method = none;
  confidence = none;
  baseline_interfaces = [];
  subject_interfaces = u.scope.scope.selectors.interfaces;
  reason = some u.reason;
}

abbrev pub is_new_service : Reason → Bool
is_new_service new_service = true
is_new_service no_candidate = false
is_new_service (ambiguous ids) = false

-- The payloads of the links, the profile and whether there is a step
pub record Setting : Type 0 where
  pub links : Dict String Link
  pub service_types : Option (List String)
  pub has_step : Bool

abbrev pub link_of : Setting → Scope → Option Link
link_of e s = Dict.get e.links s.id

-- One job, or one more that the profile skips
unfoldable pub add_job : Setting → Job → Plan → Plan
add_job e job plan =
    if in_profile e.service_types job.scope
    then record plan { jobs = plan.jobs ++ (job ∷ []) }
    else record plan { skipped = suc plan.skipped }

-- The loop without a baseline
unfoldable pub plan_alone : Setting → List Scope → Plan → Plan
plan_alone e [] plan = plan
plan_alone e (s ∷ ss) plan = plan_alone e ss (
    add_job e (record { scope = s; baseline_scope = none; match_info = none; link = link_of e s })
      plan)

abbrev pub pair_job : Setting → MatchedPair → Job
pair_job e p = record {
  scope = p.subject.scope;
  baseline_scope = some p.baseline.scope;
  match_info = some (matched_info p);
  link = link_of e p.subject.scope;
}

-- The loop over the pairs
unfoldable pub plan_pairs : Setting → List MatchedPair → Plan → Plan
plan_pairs e [] plan = plan
plan_pairs e (p ∷ ps) plan = plan_pairs e ps (add_job e (pair_job e p) plan)

-- `link.get("peer_scope_id") in matched_subject_ids`
abbrev pub is_matched : List String → Option String → Bool
is_matched ids none = false
is_matched ids (some id) = contains ids id

unfoldable pub partner_matched : Setting → List String → Scope → Bool
partner_matched e ids s = is_matched ids (peer_id (link_of e s))

-- A service that belongs to another migration step
unfoldable pub is_foreign : Setting → List String → UnmatchedScope → Bool
is_foreign e ids u =
    e.has_step
    && (u.scope.scope.kind == "service"
        && (not (partner_matched e ids u.scope.scope) && is_new_service u.reason))

abbrev pub unmatched_job : Setting → UnmatchedScope → Job
unmatched_job e u = record {
  scope = u.scope.scope;
  baseline_scope = none;
  match_info = some (unmatched_info u);
  link = link_of e u.scope.scope;
}

abbrev pub exclude : UnmatchedScope → Plan → Plan
exclude u plan = record plan { excluded = plan.excluded ++ (unmatched_entry u ∷ []) }

abbrev pub list_unmatched : UnmatchedScope → Plan → Plan
list_unmatched u plan = record plan {
  unmatched_subject = plan.unmatched_subject ++ (unmatched_entry u ∷ []);
}

unfoldable pub add_unmatched : Setting → List String → UnmatchedScope → Plan → Plan
add_unmatched e ids u plan =
    if is_foreign e ids u
    then exclude u plan
    else list_unmatched u (add_job e (unmatched_job e u) plan)

-- The loop over the unmatched scopes of the subject
unfoldable pub plan_unmatched : Setting → List String → List UnmatchedScope → Plan → Plan
plan_unmatched e ids [] plan = plan
plan_unmatched e ids (u ∷ us) plan = plan_unmatched e ids us (add_unmatched e ids u plan)

abbrev pub l1_info : Scope → Option Scope → Option MatchInfo
l1_info s none = none
l1_info s (some b) = some (record {
  status = "matched";
  method = some "layer1-children";
  confidence = some "medium";
  baseline_interfaces = b.selectors.interfaces;
  subject_interfaces = s.selectors.interfaces;
  reason = none;
})

abbrev pub l1_job : Scope → Option Scope → Job
l1_job s b = record { scope = s; baseline_scope = b; match_info = l1_info s b; link = none }

abbrev pub l1_job_of : List MatchedPair → List Scope → Scope → List String → Result Job
l1_job_of pairs baseline_l1 s [] = raises "IndexError: list index out of range"
l1_job_of pairs baseline_l1 s (port ∷ ports) =
    returns (l1_job s (l1_baseline port pairs baseline_l1))

-- The loop over the L1 ports, which the profile never skips
unfoldable pub plan_l1 : List MatchedPair → List Scope → List Scope → Result (List Job)
plan_l1 pairs baseline_l1 [] = returns []
plan_l1 pairs baseline_l1 (s ∷ ss) = l1_job_of pairs baseline_l1 s s.selectors.interfaces >>= λ job.
    plan_l1 pairs baseline_l1 ss >>= λ jobs. returns (job ∷ jobs)

-- The plan of the services of two snapshots
unfoldable pub plan_matched : Setting → MatchSet → Plan
plan_matched e m =
    plan_unmatched e (map (λ p. p.subject.scope.id) m.pairs) m.unmatched_subject
      (plan_pairs e m.pairs empty_plan)
