-- ===== src/Engine/Evaluate.antt =====
-- The evaluation of one snapshot, alone or against a baseline (`evaluate_snapshots` in
-- migration_validator/engine.py). The clock's reading is an argument. What
-- `ipaddress` knows of interfaces and networks, the identity of scopes that the matcher compares and
-- the registered checks are parameters.
use migration_status_check.Base.Dict.{Dict}
use migration_status_check.Base.Results.{Result, returns, ◌>>=◌}
use migration_status_check.Base.{
  ℕ, ◌+◌, String, Bool, true, false, not, ◌&&◌, Option, none, some, List, [], ◌++◌, map, flatten,
  filter, any, length, ◌==◌, string_eq, option_eq, if◌then◌else◌,
}
use migration_status_check.Models.Value.{Value, str}
use migration_status_check.Models.Value.Access.{table_at, rows_at, value_at, as_dict}
use migration_status_check.Models.Status.{Counts, count_statuses}
use migration_status_check.Models.Finding.{CheckResult, count_unchanged}
use migration_status_check.Models.Scope.{Scope}
use migration_status_check.Models.Scope.Select.{Record}
use migration_status_check.Models.Snapshot.{Snapshot}
use migration_status_check.Checks.Config.{CheckConfig}
use migration_status_check.Checks.Framework.{Check}
use migration_status_check.Scoping.Mapping.{Mapping}
use migration_status_check.Scoping.Matcher.{MatchSet}
use migration_status_check.Scoping.Matcher.Keys.{IpInterface}
use migration_status_check.Scoping.Matcher.Match.{match_scopes}
use migration_status_check.Scoping.Linker.{IrbEntry, link_scopes}
use migration_status_check.Engine.Order.{ScopeResult, link_payloads, reorder_linked}
use migration_status_check.Engine.Layers.{group_by_layer1}
use migration_status_check.Engine.Run.{run_jobs}
use migration_status_check.Engine.Plan.{
  Job, Entry, Plan, Setting, empty_plan, unmatched_entry, plan_alone, plan_matched, plan_l1,
}
use migration_status_check.Engine.Unassigned.{
  unassigned_bgp_peers, unassigned_bfd_sessions, unassigned_static_routes,
}

abbrev pub entry_text : Value → Option String
entry_text (str s) = some s
entry_text _ = none

abbrev pub irb_entry : Record → IrbEntry
irb_entry r = record {
  name = entry_text (value_at r "name");
  l3_context = entry_text (value_at r "l3_context");
}

-- The IRB entries of the instances of the fact `evpn_instance`
unfoldable pub irb_entries : Record → Dict String (List IrbEntry)
irb_entries facts =
    map (λ e. (e.0, map irb_entry (rows_at (table_at (as_dict e.1) "irb_interfaces") "entries")))
      (table_at facts "evpn_instance")

abbrev pub is_layer1 : Scope → Bool
is_layer1 s = s.kind == "layer1"

abbrev pub snapshot_scopes : Snapshot → List Scope
snapshot_scopes snapshot = map (λ o. o.scope) snapshot.scopes

pub record Summary : Type 0 where
  pub counts : Counts
  pub pass_unchanged : ℕ
  pub scopes_matched : ℕ
  pub unmatched_baseline : ℕ
  pub unmatched_subject : ℕ

pub record UnassignedParts : Type 0 where
  pub bgp_peers : List Record
  pub static_routes : List Record
  pub bfd_sessions : List Record

-- The record of a filtered run
pub record Filtered : Type 0 where
  pub service_types : List String
  pub scopes_shown : ℕ
  pub scopes_total : ℕ
  pub profile : Option String

pub record RunResult : Type 0 where
  pub evaluated_at : String
  pub summary : Summary
  pub scopes : List ScopeResult
  pub unmatched_baseline : List Entry
  pub unmatched_subject : List Entry
  pub unassigned : UnassignedParts
  pub filtered : Option Filtered
  pub profile : Option String
  pub excluded_services : Option (List Entry)
  pub no_services : Bool

-- The arguments of `evaluate_snapshots` beside the snapshots
pub record Request : Type 0 where
  pub mapping : Option Mapping
  pub config : CheckConfig
  pub now : String
  pub service_types : Option (List String)
  pub profile_name : Option String
  pub has_step : Bool
  pub port : Option String

-- What is to be evaluated, and the sections of the report
pub record Work : Type 0 where
  pub plan : Plan
  pub l1_jobs : List Job
  pub unmatched_baseline : List Entry
  pub matched : ℕ

abbrev pub check_statuses : List ScopeResult → List CheckResult
check_statuses rs = flatten (map (λ r. r.checks) rs)

abbrev pub filtered_record : Request → ℕ → ℕ → Option Filtered
filtered_record request shown skipped = elim request.service_types [
  | none ↦ none
  | some types ↦ some (record {
    service_types = types;
    scopes_shown = shown;
    scopes_total = shown + skipped;
    profile = elim request.profile_name [ none ↦ none | some p ↦ if p == "" then none else some p ];
  })
]

abbrev pub has_snapshot : Option Snapshot → Bool
has_snapshot none = false
has_snapshot (some b) = true

module _ (ip_interface : String → Option IpInterface) (same : Scope → Scope → Bool)
    (in_network : String → String → Bool) (checks : List Check) where
  abbrev pub matches_of : Request → Snapshot → Snapshot → MatchSet
  matches_of request subject baseline =
      match_scopes ip_interface same (filter (λ o. not (is_layer1 o.scope)) baseline.scopes)
        (filter (λ o. not (is_layer1 o.scope)) subject.scopes) request.mapping

  -- The loops up to the runs of the checks
  unfoldable pub work_of : Request → Setting → Snapshot → Option Snapshot → Result Work
  work_of request setting subject none = returns (record {
    plan = plan_alone setting (snapshot_scopes subject) empty_plan;
    l1_jobs = [];
    unmatched_baseline = [];
    matched = 0;
  })
  work_of request setting subject (some baseline) =
      let m = matches_of request subject baseline in
      plan_l1 m.pairs (filter is_layer1 (snapshot_scopes baseline))
        (filter is_layer1 (snapshot_scopes subject))
      >>= λ l1. returns (record {
        plan = plan_matched setting m;
        l1_jobs = l1;
        unmatched_baseline = map unmatched_entry m.unmatched_baseline;
        matched = length m.pairs;
      })

  unfoldable pub report : Request → Snapshot → Option Snapshot → Work → List ScopeResult → RunResult
  report request subject baseline work results = record {
    evaluated_at = request.now;
    summary = record {
      counts = count_statuses (map (λ c. c.status) (check_statuses results));
      pass_unchanged = count_unchanged (check_statuses results);
      scopes_matched = work.matched;
      unmatched_baseline = length work.unmatched_baseline;
      unmatched_subject = length work.plan.unmatched_subject;
    };
    scopes = results;
    unmatched_baseline = work.unmatched_baseline;
    unmatched_subject = work.plan.unmatched_subject;
    unassigned = record {
      bgp_peers =
          unassigned_bgp_peers in_network subject.facts (snapshot_scopes subject) request.port;
      static_routes = unassigned_static_routes subject.facts (snapshot_scopes subject) request.port;
      bfd_sessions = unassigned_bfd_sessions subject.facts (snapshot_scopes subject) request.port;
    };
    filtered = filtered_record request (length results) work.plan.skipped;
    profile = request.profile_name;
    excluded_services =
        if request.has_step && has_snapshot baseline then some work.plan.excluded else none;
    no_services = not (any (λ s. s.kind == "service") (snapshot_scopes subject));
  }

  -- `evaluate_snapshots`
  unfoldable pub evaluate_snapshots : Request → Snapshot → Option Snapshot → Result RunResult
  evaluate_snapshots request subject baseline =
      link_scopes (snapshot_scopes subject) (irb_entries subject.facts) >>= λ links.
      link_payloads links >>= λ payloads.
      work_of request
        (record {
          links = payloads;
          service_types = request.service_types;
          has_step = request.has_step;
        })
        subject baseline
      >>= λ work.
          run_jobs checks request.config subject baseline (work.plan.jobs ++ work.l1_jobs)
          >>= λ results. group_by_layer1 (reorder_linked results) >>= λ ordered.
              returns (report request subject baseline work ordered)
