-- ===== src/Checks/Bfd/Tests.antt =====
-- Tests of the check of BFD sessions.
use migration_status_check.Base.Dict
use migration_status_check.Base.Dict.{Dict}
use migration_status_check.Base.Sort.Counts.{one_if, occurrences}
use migration_status_check.Base.{
  ◌≡◌, ◌==◌, refl, subst, String, string_eq, Bool, true, false, none, some, List, [], ◌∷◌, map, All,
  returns, if◌then◌else◌,
}
use migration_status_check.Models.Value.{Value, str}
use migration_status_check.Models.Value.Access.{
  of_dict, table_at, value_at, text_at, flag_at, text_at_or, py_str,
}
use migration_status_check.Models.Status.{broken}
use migration_status_check.Models.Scope.{Scope, no_selectors}
use migration_status_check.Models.Scope.Select.{Record}
use migration_status_check.Models.Finding.{Finding}
use migration_status_check.Checks.Framework.{CheckContext, baseline_measured, has_baseline}
use migration_status_check.Checks.Baseline.{unchanged_or}
use migration_status_check.Checks.Bgp.{established, baseline_table}
use migration_status_check.Checks.Bgp
use migration_status_check.Checks.Bfd.{
  present, bfd_finding, bfd_label, measure, intent, bfd_missing_row, missing_outcome, run_bfd,
}
use migration_status_check.Checks.Bfd.Laws.{has_bfd, run_bfd_complete}
use migration_status_check.Checks.Bfd.Verdicts.{
  IsJustified, HasStates, IsUp, run_bfd-IsJustified, bfd_finding-session_row,
}

abbrev service : Scope
service = record {
  id = "a";
  kind = "service";
  key = some (record { description = some "A"; service_type = "Internet"; service_subtype = none });
  selectors = record no_selectors {
    bgp_neighbors = "10.0.0.1" ∷ [];
    bfd_peers = (("peer", str "10.0.0.1") ∷ []) ∷ [];
  };
  routing_instance_active = true;
  interface_active = true;
}

abbrev up : Value
up = of_dict (("10.0.0.1", of_dict (("state", str "Up") ∷ [])) ∷ [])

-- BGP is up, the BFD session of the baseline is gone.
abbrev ctx : CheckContext
ctx = record {
  scope = service;
  subject = ("bgp", of_dict (("10.0.0.1", of_dict (("state", str "Established") ∷ [])) ∷ [])) ∷ [];
  baseline = some (("bfd", up) ∷ []);
  config = record { raw = [] };
  failed_collectors = [];
  baseline_scope = none;
  link = none;
  baseline_collectors = [];
}

abbrev session_up : Record
session_up = ("state", str "Up") ∷ []

session_of_some : (s : Record) → some session_up ≡ some s → session_up ≡ s
session_of_some s h = cc h

state_if :
    (b : Bool) (s : Record)
    → present (if b then some (of_dict session_up) else none) ≡ some s
    → Dict.has s "state" ≡ true
unfolding Dict.has Dict.get
state_if true s h =
    subst (λ (o : Record). Dict.has {K = String} {V = Value} o "state" ≡ true) (session_of_some s h)
      refl
state_if false s h = cc

ctx-HasStates : HasStates ctx
unfolding measure baseline_table table_at value_at Dict.get
ctx-HasStates p s h = state_if ("10.0.0.1" == p) s h

run_bfd_complete_example :
    (rows : List Finding) × (order : List String) × (run_bfd ctx ≡ returns rows)
    × (map (λ r. r.label) rows ≡ map (λ p. some (bfd_label p)) order)
    × ((p : String) → occurrences p order ≡ one_if (has_bfd ctx p))
run_bfd_complete_example = run_bfd_complete ctx

run_bfd-IsJustified_example :
    (rows : List Finding) × (run_bfd ctx ≡ returns rows) × All (IsJustified ctx) rows
run_bfd-IsJustified_example = run_bfd-IsJustified ctx ctx-HasStates

gone : (bfd_finding ctx "10.0.0.1" (measure ctx "10.0.0.1")).outcome ≡ broken
unfolding bfd_finding measure bfd_missing_row missing_outcome unchanged_or baseline_measured
    has_baseline intent baseline_table table_at value_at text_at flag_at text_at_or py_str Dict.get
gone = refl

no_session_now : (measure ctx "10.0.0.1").session ≡ none
unfolding measure table_at value_at Dict.get
no_session_now = refl

configured_now : (measure ctx "10.0.0.1").configured ≡ true
unfolding measure intent text_at flag_at value_at Dict.get py_str
configured_now = refl

bfd_finding-session_row_example :
    (v : Value) × (Dict.get (table_at ctx.subject "bgp") "10.0.0.1" ≡ some v)
    × IsUp (Bgp.session_row ctx "10.0.0.1" v).outcome
bfd_finding-session_row_example =
    bfd_finding-session_row ctx "10.0.0.1" no_session_now configured_now gone
