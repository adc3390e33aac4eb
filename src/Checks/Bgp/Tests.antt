-- ===== src/Checks/Bgp/Tests.antt =====
-- Tests of the check of BGP sessions.
use migration_status_check.Base.Dict
use migration_status_check.Base.Dict.{Dict}
use migration_status_check.Base.Sort.{sort_by, insert_by, sorted_set}
use migration_status_check.Base.Sort.Counts.{one_if, occurrences}
use migration_status_check.Base.{
  ◌≡◌, ◌≢◌, refl, String, string_eq, contains, true, none, some, List, [], ◌∷◌, map, All, returns,
}
use migration_status_check.Models.Value.{str}
use migration_status_check.Models.Value.Access.{of_dict, table_at, value_at, text_at_or, py_str}
use migration_status_check.Models.Status.{ok, broken}
use migration_status_check.Models.Scope.{Scope, no_selectors}
use migration_status_check.Models.Finding.{Finding}
use migration_status_check.Checks.Framework.{CheckContext, baseline_measured, has_baseline}
use migration_status_check.Checks.Baseline.{unchanged_or}
use migration_status_check.Checks.Bgp.{
  status_label, baseline_state, baseline_table, baseline_text, session_row, up_row,
}
use migration_status_check.Checks.Bgp.Rows.{
  subject_peers, universe, run_bgp, run_sessions, measured_peers, inactive_peers, without_session,
  missing_row, gone_row, was_missing,
}
use migration_status_check.Checks.Bgp.Laws.{run_bgp_complete}
use migration_status_check.Checks.Bgp.Verdicts.{IsJustified, run_bgp-IsJustified}

abbrev internet : Scope
internet = record {
  id = "a";
  kind = "service";
  key = some (record { description = some "A"; service_type = "Internet"; service_subtype = none });
  selectors = record no_selectors { bgp_neighbors = "10.0.0.1" ∷ "10.0.0.5" ∷ [] };
  routing_instance_active = true;
  interface_active = true;
}

-- One session is up, the other peer has none.
abbrev ctx : CheckContext
ctx = record {
  scope = internet;
  subject = ("bgp", of_dict (("10.0.0.1", of_dict (("state", str "Established") ∷ [])) ∷ [])) ∷ [];
  baseline = none;
  config = record { raw = [] };
  failed_collectors = [];
  baseline_scope = none;
  link = none;
  baseline_collectors = [];
}

outcomes : map (λ r. r.outcome) (run_sessions ctx) ≡ ok ∷ broken ∷ []
unfolding run_sessions measured_peers inactive_peers without_session sort_by insert_by sorted_set
    universe session_row up_row missing_row gone_row was_missing unchanged_or baseline_measured
    has_baseline baseline_state baseline_table baseline_text table_at value_at text_at_or py_str
    Dict.get Dict.has
outcomes = refl

peers-IsDict : Dict.IsDict (subject_peers ctx)
unfolding table_at value_at Dict.get
peers-IsDict = (tt, tt)

some_peer : universe ctx ≢ []
unfolding universe table_at value_at Dict.get
some_peer h = cc

run_bgp_complete_example :
    (rows : List Finding) × (order : List String) × (run_bgp ctx ≡ returns rows)
    × (map (λ r. r.label) rows ≡ map (λ p. some (status_label p)) order)
    × ((p : String) → occurrences p order ≡ one_if (contains (universe ctx) p))
run_bgp_complete_example = run_bgp_complete ctx peers-IsDict (λ p. refl) some_peer

run_bgp-IsJustified_example :
    (rows : List Finding) × (run_bgp ctx ≡ returns rows) × All (IsJustified ctx) rows
run_bgp-IsJustified_example = run_bgp-IsJustified ctx
