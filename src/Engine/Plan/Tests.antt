-- ===== src/Engine/Plan/Tests.antt =====
-- Tests of the plan: a step with a foreign service and an ambiguous one.
use mathlib.Core.List.{Memᴰ}
use migration_status_check.Base.Dict
use migration_status_check.Base.{
  ◌≡◌, refl, ◌+◌, String, true, none, some, [], ◌∷◌, map, filter, length,
}
use migration_status_check.Models.Scope.{Scope, no_selectors, service_type}
use migration_status_check.Scoping.Matcher.{UnmatchedScope, MatchSet, new_service, ambiguous}
use migration_status_check.Engine.Plan.{
  Setting, plan_matched, plan_pairs, plan_unmatched, add_unmatched, add_job, in_profile, is_foreign,
  partner_matched, unmatched_entry,
}
use migration_status_check.Engine.Plan.Laws.{
  is_own, is_chosen, all_jobs, matched_ids, plan_matched_exact, plan_matched-listed,
}

abbrev service : String → Scope
service name = record {
  id = name;
  kind = "service";
  key =
      some (record { description = some name; service_type = "Internet"; service_subtype = none });
  selectors = no_selectors;
  routing_instance_active = true;
  interface_active = true;
}

abbrev foreign : UnmatchedScope
foreign = record { scope = record { address = 1; scope = service "a" }; reason = new_service }

abbrev unclear : UnmatchedScope
unclear = record {
  scope = record { address = 2; scope = service "b" };
  reason = ambiguous ("x" ∷ "y" ∷ []);
}

abbrev found : MatchSet
found = record { pairs = []; unmatched_baseline = []; unmatched_subject = foreign ∷ unclear ∷ [] }

-- A step with a profile that lets nothing through
abbrev setting : Setting
setting = record { links = []; service_types = some []; has_step = true }

excluded_of_step : map (λ x. x.scope_id) (plan_matched setting found).excluded ≡ "a" ∷ []
unfolding plan_matched plan_pairs plan_unmatched add_unmatched add_job in_profile is_foreign
    partner_matched unmatched_entry service_type Dict.get
excluded_of_step = refl

skipped_by_profile : (plan_matched setting found).skipped ≡ 1
unfolding plan_matched plan_pairs plan_unmatched add_unmatched add_job in_profile is_foreign
    partner_matched unmatched_entry service_type Dict.get
skipped_by_profile = refl

plan_matched_exact_example :
    ((plan_matched setting found).jobs ≡ filter (is_chosen setting) (all_jobs setting found))
    × (((plan_matched setting found).excluded
          ≡ map unmatched_entry
              (filter (is_foreign setting (matched_ids found)) found.unmatched_subject))
        × (((plan_matched setting found).unmatched_subject
              ≡ map unmatched_entry
                  (filter (is_own setting (matched_ids found)) found.unmatched_subject))
            × (length (plan_matched setting found).jobs + (plan_matched setting found).skipped
                ≡ length (all_jobs setting found))))
plan_matched_exact_example = plan_matched_exact setting found

plan_matched-listed_example :
    Memᴰ (unmatched_entry unclear) (plan_matched setting found).unmatched_subject
plan_matched-listed_example =
    plan_matched-listed setting found unclear (Memᴰ.tail (Memᴰ.head refl)) refl
