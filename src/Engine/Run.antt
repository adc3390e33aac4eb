-- ===== src/Engine/Run.antt =====
-- The run of the checks on one scope (`_identity`, `_run_scope` in migration_validator/engine.py). The
-- registered checks, in the order of their rows, are an argument.
use migration_status_check.Base.Dict.{Dict}
use migration_status_check.Base.Results.{Result, returns, ◌>>=◌}
use migration_status_check.Base.{
  String, Option, none, some, List, [], ◌∷◌, ◌++◌, map, string_eq, option_eq,
}
use migration_status_check.Models.Value.{str}
use migration_status_check.Models.Value.Access.{of_rows}
use migration_status_check.Models.Finding.{CheckResult}
use migration_status_check.Models.Scope.{Scope, service_type, service_subtype}
use migration_status_check.Models.Scope.Select.{Record, head?}
use migration_status_check.Models.Scope.Select.Areas.{select}
use migration_status_check.Models.Snapshot.{Snapshot, failed_collectors_of}
use migration_status_check.Checks.Config.{CheckConfig}
use migration_status_check.Checks.Framework.{Check, CheckContext, run_check}
use migration_status_check.Engine.Order.{Identity, Link, l3, l2, PeerRef, ScopeResult, scope_status}
use migration_status_check.Engine.Align.{aligned_baseline_data}
use migration_status_check.Engine.Plan.{Job}

-- `_identity`
unfoldable pub identity_of : Scope → Identity
identity_of s = record {
  description = elim s.key [ none ↦ none | some k ↦ k.description ];
  service_type = service_type s;
  service_subtype = service_subtype s;
  routing_instance = head? s.selectors.routing_instances;
  interfaces = s.selectors.interfaces;
  physical_interfaces = s.selectors.physical_interfaces;
  ipv4 = s.selectors.local_ipv4;
  ipv6 = s.selectors.local_ipv6;
  virtual_gw_v4 = s.selectors.virtual_gw_v4;
  virtual_gw_v6 = s.selectors.virtual_gw_v6;
  l2_interfaces = s.selectors.l2_interfaces;
}

abbrev pub peer_value : PeerRef → Record
peer_value p =
    ("scope_id", str p.scope_id)
    ∷ ("interface", str p.interface)
    ∷ ("instance", str p.instance_of)
    ∷ []

-- The dictionary of a link, as the checks read it
unfoldable pub link_value : Link → Record
link_value (l3 ps) = ("role", str "l3") ∷ ("peers", of_rows (map peer_value ps)) ∷ []
link_value (l2 id interface instance_of) =
    ("role", str "l2")
    ∷ ("peer_scope_id", str id)
    ∷ ("peer_interface", str interface)
    ∷ ("peer_instance", str instance_of)
    ∷ []

abbrev pub link_record : Option Link → Option Record
link_record none = none
link_record (some l) = some (link_value l)

-- The baseline's data for a scope, if there is a baseline of it
abbrev pub baseline_data : Scope → Option Scope → Option Snapshot → Option Record
baseline_data s (some b) (some snapshot) =
    some (aligned_baseline_data b s snapshot.facts snapshot.probes)
baseline_data s _ _ = none

abbrev pub collectors_of : Option Scope → Option Snapshot → Dict String Record
collectors_of (some b) (some snapshot) = snapshot.capture.collectors
collectors_of _ _ = []

-- The context that the checks of a scope are given
unfoldable pub scope_context : CheckConfig → Snapshot → Option Snapshot → Job → CheckContext
scope_context config subject baseline job = record {
  scope = job.scope;
  subject = select job.scope subject.facts subject.probes;
  baseline = baseline_data job.scope job.baseline_scope baseline;
  config = config;
  failed_collectors = failed_collectors_of subject.capture.collectors;
  baseline_scope = job.baseline_scope;
  link = link_record job.link;
  baseline_collectors = collectors_of job.baseline_scope baseline;
}

-- `for check in all_checks(): results.extend(run_check(check, ctx))`
unfoldable pub run_checks : List Check → CheckContext → Result (List CheckResult)
run_checks [] ctx = returns []
run_checks (c ∷ cs) ctx =
    run_check c ctx >>= λ rows. run_checks cs ctx >>= λ more. returns (rows ++ more)

abbrev pub scope_result : Job → List CheckResult → ScopeResult
scope_result job rows = record {
  scope_id = job.scope.id;
  key = job.scope.key;
  status = scope_status rows;
  match_info = job.match_info;
  checks = rows;
  identity = identity_of job.scope;
  link = job.link;
}

-- `_run_scope`
unfoldable pub run_scope :
    List Check → CheckConfig → Snapshot → Option Snapshot → Job → Result ScopeResult
run_scope checks config subject baseline job =
    run_checks checks (scope_context config subject baseline job) >>= λ rows.
    returns (scope_result job rows)

unfoldable pub run_jobs :
    List Check → CheckConfig → Snapshot → Option Snapshot → List Job → Result (List ScopeResult)
run_jobs checks config subject baseline [] = returns []
run_jobs checks config subject baseline (job ∷ jobs) =
    run_scope checks config subject baseline job >>= λ r.
    run_jobs checks config subject baseline jobs >>= λ rs. returns (r ∷ rs)
