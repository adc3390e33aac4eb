-- ===== src/Checks/Bgp/Rows.antt =====
-- The rows of the peers without a session, and the whole run of the check
-- (`BgpSessionStateCheck.run` and `_AppliesToCoreLoopback` of migration_validator/checks/bgp.py).
use migration_status_check.Base.Dict
use migration_status_check.Base.Dict.{Dict, is_some}
use migration_status_check.Base.Sort.{sort_by, text_le, sorted, sorted_set}
use migration_status_check.Base.{
  String, Bool, true, false, not, ◌&&◌, Option, none, some, List, [], ◌∷◌, ◌++◌, map, filter,
  contains, concat, ◌==◌, Result, returns, string_eq, option_eq, if◌then◌else◌,
}
use migration_status_check.Models.Value.{Value}
use migration_status_check.Models.Value.Access.{table_at}
use migration_status_check.Models.Status.{critical, Outcome, broken, degraded}
use migration_status_check.Models.Scope.{Scope, service_type, service_subtype}
use migration_status_check.Models.Finding.{Finding, finding}
use migration_status_check.Checks.Framework.{is_unchanged, Check, CheckContext, both, applies_to}
use migration_status_check.Checks.Baseline.{unchanged_or, suffix}
use migration_status_check.Checks.Deactivation.{deactivation_outcome}
use migration_status_check.Checks.Bgp.{
  baseline_state, baseline_table, baseline_text, status_label, peer_family, not_in_service,
  ambiguous_session_finding, session_row,
}

abbrev pub deactivated_text : String
deactivated_text = "deaktivovan"

-- Was the peer deactivated in the baseline: none if the baseline does not know it.
unfoldable pub peer_was_off : CheckContext → String → Option Bool
peer_was_off ctx peer = elim ctx.baseline_scope [
  | none ↦ none
  | some s ↦
      if contains s.selectors.bgp_neighbors_inactive peer
      then some true
      else if contains s.selectors.bgp_neighbors peer
      then some false
      else none
]

-- A deactivated peer has an outcome in any case.
abbrev pub outcome_of_off : Option Outcome → Outcome
outcome_of_off none = degraded
outcome_of_off (some o) = o

abbrev pub is_broken : Outcome → Bool
is_broken broken = true
is_broken _ = false

abbrev pub was_off_text : Option Bool → Option String → Option String
was_off_text (some true) state = some deactivated_text
was_off_text _ state = state

-- The row of a deactivated peer
unfoldable pub off_row : CheckContext → String → Finding
off_row ctx peer =
    let outcome_of = outcome_of_off (deactivation_outcome true (peer_was_off ctx peer)) in
    record (finding outcome_of (
      if is_broken outcome_of
      then concat (
          "peer " ∷ peer
          ∷ " v baseline bezel, ted je v konfiguraci deaktivovan - migrace nedokoncena" ∷ [])
      else concat ("peer " ∷ peer ∷ " je v konfiguraci deaktivovan" ∷ []))) {
        label = some (status_label peer);
        family = peer_family peer;
        value = some deactivated_text;
        baseline_value = was_off_text (peer_was_off ctx peer) (baseline_state ctx peer);
      }

-- The count of the sessions on an ambiguous address
abbrev pub ambiguous_count : CheckContext → String → Option Value
ambiguous_count ctx peer = Dict.get (table_at ctx.subject "bgp_ambiguous") peer

-- An ambiguous address has its row of its own; any other has the row of the branch.
abbrev pub or_ambiguous : CheckContext → String → Finding → Option Value → Finding
or_ambiguous ctx peer row none = row
or_ambiguous ctx peer row (some n) = ambiguous_session_finding ctx peer n (baseline_text ctx peer)

unfoldable pub inactive_row : CheckContext → String → Finding
inactive_row ctx peer = or_ambiguous ctx peer (off_row ctx peer) (ambiguous_count ctx peer)

abbrev pub missing_value : Bool → String
missing_value configured = if configured then "bez session" else not_in_service

-- Neither the baseline's sessions nor its ambiguous addresses have the peer.
unfoldable pub was_missing : CheckContext → String → Bool
was_missing ctx peer =
    not (Dict.has (baseline_table ctx "bgp") peer)
    && not (Dict.has (baseline_table ctx "bgp_ambiguous") peer)

-- The row of a peer whose session is gone or never came
unfoldable pub gone_row : CheckContext → String → Finding
gone_row ctx peer =
    let configured = contains ctx.scope.selectors.bgp_neighbors peer in
    let outcome_of = unchanged_or broken ctx "bgp" (was_missing ctx peer) in
    record (finding outcome_of (
      concat (
        peer
        ∷ (if configured
            then ": nakonfigurovan, ale session neexistuje"
            else concat (": " ∷ not_in_service ∷ []))
        ∷ suffix outcome_of
        ∷ []))) {
          label = some (status_label peer);
          family = peer_family peer;
          value = some (missing_value configured);
          baseline_value =
              if is_unchanged outcome_of
              then some (missing_value configured)
              else baseline_text ctx peer;
        }

unfoldable pub missing_row : CheckContext → String → Finding
missing_row ctx peer = or_ambiguous ctx peer (gone_row ctx peer) (ambiguous_count ctx peer)

-- The sessions of the subject, by the address of the peer
abbrev pub subject_peers : CheckContext → Dict String Value
subject_peers ctx = table_at ctx.subject "bgp"

-- Every peer that the configuration, the subject or the baseline knows
unfoldable pub universe : CheckContext → List String
universe ctx =
    ctx.scope.selectors.bgp_neighbors
    ++ (ctx.scope.selectors.bgp_neighbors_inactive
        ++ (Dict.keys (subject_peers ctx) ++ Dict.keys (baseline_table ctx "bgp")))

-- The deactivated peers without a session
unfoldable pub inactive_peers : CheckContext → List String
inactive_peers ctx =
    sorted (
      filter (λ p. not (Dict.has (subject_peers ctx) p)) ctx.scope.selectors.bgp_neighbors_inactive)

abbrev pub is_without_session : CheckContext → String → Bool
is_without_session ctx p =
    not (Dict.has (subject_peers ctx) p)
    && not (contains ctx.scope.selectors.bgp_neighbors_inactive p)

-- The active peers without a session
unfoldable pub without_session : CheckContext → List String
without_session ctx = sorted_set (filter (is_without_session ctx) (universe ctx))

-- `sorted(peers)`, with the session of each
unfoldable pub measured_peers : CheckContext → Dict String Value
measured_peers ctx = sort_by (λ a b. text_le a.0 b.0) (subject_peers ctx)

-- The three loops of the run
unfoldable pub run_sessions : CheckContext → List Finding
run_sessions ctx =
    map (λ e. session_row ctx e.0 e.1) (measured_peers ctx)
    ++ (map (inactive_row ctx) (inactive_peers ctx) ++ map (missing_row ctx) (without_session ctx))

-- A service that no peer is known of says so.
abbrev pub rows_unless_empty : CheckContext → List String → Result (List Finding)
rows_unless_empty ctx [] =
    returns (
      record (finding Outcome.skip "sluzba nema zadne BGP peery") { value = some "zadny peer" }
      ∷ [])
rows_unless_empty ctx (p ∷ ps) = returns (run_sessions ctx)

-- `BgpSessionStateCheck.run`
unfoldable pub run_bgp : CheckContext → Result (List Finding)
run_bgp ctx = rows_unless_empty ctx (universe ctx)

abbrev pub bgp_session_check : Check
bgp_session_check = record {
  id = "bgp_session_state";
  title = "Stav BGP session";
  label = "BGP status";
  mode = both;
  requires = "bgp" ∷ [];
  service_types = some ("Internet" ∷ "IPVPN" ∷ []);
  service_subtypes = none;
  excluded_subtypes = none;
  default_severity = critical;
  layer1 = false;
  order = 0;
  run = run_bgp;
}

-- `_AppliesToCoreLoopback.applies_to`: of the Core services only the loopback
unfoldable pub bgp_applies_to : Check → Scope → Bool
bgp_applies_to check scope =
    if service_type scope == some "Core"
    then service_subtype scope == some "loopback"
    else applies_to check scope
