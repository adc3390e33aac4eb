-- ===== src/Checks/Bfd.antt =====
-- The check of the BFD sessions of a service (migration_validator/checks/bfd.py).
pub mod Laws
pub mod Verdicts
mod Tests
use migration_status_check.Base.Dict
use migration_status_check.Base.Dict.{Dict, is_some}
use migration_status_check.Base.Sort.{sorted_set}
use migration_status_check.Base.{
  ℕ, String, Bool, true, false, not, ◌&&◌, ◌||◌, Option, none, some, List, [], ◌∷◌, ◌++◌, map,
  filter, contains, concat, ◌==◌, Result, returns, string_eq, option_eq, if◌then◌else◌,
}
use migration_status_check.Models.Value.{Value, null, truthy}
use migration_status_check.Models.Value.Access.{
  table_at, value_at, as_dict, text_at, text_at_or, py_str, flag_at,
}
use migration_status_check.Models.Status.{Severity, critical, Outcome, ok, broken, degraded}
use migration_status_check.Models.Scope.{Scope, service_type}
use migration_status_check.Models.Scope.Select.{Record}
use migration_status_check.Models.Finding.{Finding, finding}
use migration_status_check.Checks.Framework.{
  Check, CheckContext, Mode, both, applies_to, has_baseline,
}
use migration_status_check.Checks.Baseline.{unchanged_or, suffix}
use migration_status_check.Checks.Bgp.{
  established, unknown, not_in_service, ambiguous_value, peer_family, baseline_table,
}

abbrev pub no_session : String
no_session = "bez session"

abbrev pub bgp_not_up : String
bgp_not_up = "BGP neni Established"

abbrev pub parser_missed : String
parser_missed = "parser nenasel konfiguraci"

-- `sessions.get(peer)`, where None is no session
abbrev pub present : Option Value → Option Record
present none = none
present (some null) = none
present (some v) = some (as_dict v)

-- What the check measures of one peer
pub record Measured : Type 0 where
  pub configured : Bool
  pub session : Option Record
  pub baseline : Option Record
  pub bgp_state : String
  pub ambiguous : Option Value
  pub baseline_ambiguous : Option Value

-- `_session_value`
unfoldable pub session_value : Option Record → Bool → String → String
session_value (some s) configured bgp_state =
    if configured then text_at_or s "state" unknown else parser_missed
session_value none configured bgp_state =
    if configured
    then (if bgp_state == established then no_session else bgp_not_up)
    else not_in_service

abbrev pub is_ambiguous : Option Value → Bool
is_ambiguous none = false
is_ambiguous (some n) = truthy n

abbrev pub ambiguous_text : Option Value → String
ambiguous_text none = "None"
ambiguous_text (some n) = ambiguous_value n

-- `was`: the baseline in the words of the row
unfoldable pub was : CheckContext → Measured → Option String
was ctx m =
    if not (is_some m.baseline) && is_ambiguous m.baseline_ambiguous
    then some (ambiguous_text m.baseline_ambiguous)
    else if has_baseline ctx
    then some (session_value m.baseline m.configured m.bgp_state)
    else none

abbrev pub state_unless_empty : Option Record → Option String
state_unless_empty none = none
state_unless_empty (some []) = none
state_unless_empty (some (e ∷ s)) = some (text_at (e ∷ s) "state")

-- `was_measured`: the state that the baseline has
abbrev pub was_measured : Measured → Option String
was_measured m = state_unless_empty m.baseline

abbrev pub has_state : Option Record → String → Bool
has_state none state = false
has_state (some s) state = text_at s "state" == state

abbrev pub bfd_label : String → String
bfd_label peer = concat ("BFD (" ∷ peer ∷ ")" ∷ [])

-- The finding of a peer, with the value and what the baseline had
abbrev pub peer_row :
    String → Outcome → String → String → Option String → Option Record → Option Record → Finding
peer_row peer o message value before baseline subject =
    record (finding o (concat (peer ∷ message ∷ []))) {
      label = some (bfd_label peer);
      family = peer_family peer;
      value = some value;
      baseline_value = before;
      baseline = baseline;
      subject = subject;
    }

-- A configured session that is not up
unfoldable pub down_outcome : CheckContext → Measured → String → Outcome
down_outcome ctx m state =
    unchanged_or broken ctx "bfd" (not (state == unknown) && has_state m.baseline state)

unfoldable pub bfd_session_row : CheckContext → String → Measured → Record → Finding
bfd_session_row ctx peer m s =
    let state = text_at_or s "state" unknown in
    let down = down_outcome ctx m state in
    if not m.configured
    then peer_row peer degraded
        (concat (
          ": BFD session existuje (" ∷ state ∷ "), ale parser ji nenasel v konfiguraci sluzby"
          ∷ []))
        parser_missed (was ctx m) none (some s)
    else if state == "Up"
    then peer_row peer ok (concat (": session " ∷ state ∷ [])) state (was ctx m) m.baseline (some s)
    else peer_row peer down (concat (": session " ∷ state ∷ ", ocekavano Up" ∷ suffix down ∷ []))
        state (was ctx m) m.baseline (some s)

-- Neither side can say that the session was missing before.
unfoldable pub missing_outcome : CheckContext → Measured → Outcome
missing_outcome ctx m =
    unchanged_or broken ctx "bfd"
      (not (is_some m.baseline) && not (is_ambiguous m.baseline_ambiguous))

abbrev pub or_unknown : String → String
or_unknown state = if state == "" then "neznamy" else state

unfoldable pub bfd_missing_row : CheckContext → String → Measured → Finding
bfd_missing_row ctx peer m =
    let missing = missing_outcome ctx m in
    if not m.configured
    then peer_row peer broken ": v baseline patril k teto sluzbe, v subjektu uz ne" not_in_service
        (was_measured m) m.baseline none
    else if not (m.bgp_state == established)
    then peer_row peer Outcome.skip
        (concat (": BFD nakonfigurovano, ale BGP je " ∷ or_unknown m.bgp_state ∷ [])) bgp_not_up
        (was ctx m) none none
    else peer_row peer missing
        (concat (": BFD nakonfigurovano, BGP bezi, ale session neexistuje" ∷ suffix missing ∷ []))
        no_session (was ctx m) none none

unfoldable pub unclear_row : String → Measured → Value → Finding
unclear_row peer m n =
    peer_row peer Outcome.skip
      (concat (
        ": stav BFD nelze urcit - multihop session na tuto adresu je "
        ∷ py_str n
        ∷ "x a RPC nenese VRF"
        ∷ []))
      (ambiguous_value n) (was_measured m) none none

abbrev pub row_without : CheckContext → String → Measured → Option Value → Finding
row_without ctx peer m (some n) = unclear_row peer m n
row_without ctx peer m none = bfd_missing_row ctx peer m

abbrev pub row_with : CheckContext → String → Measured → Option Record → Finding
row_with ctx peer m (some s) = bfd_session_row ctx peer m s
row_with ctx peer m none = row_without ctx peer m m.ambiguous

-- `BfdSessionStateCheck._finding`
unfoldable pub bfd_finding : CheckContext → String → Measured → Finding
bfd_finding ctx peer m = row_with ctx peer m m.session

-- The peers whose configuration has BFD
unfoldable pub intent : CheckContext → List String
intent ctx =
    map (λ i. text_at i "peer") (filter (λ i. flag_at i "peer") ctx.scope.selectors.bfd_peers)

unfoldable pub measure : CheckContext → String → Measured
measure ctx peer = record {
  configured = contains (intent ctx) peer;
  session = present (Dict.get (table_at ctx.subject "bfd") peer);
  baseline = present (Dict.get (baseline_table ctx "bfd") peer);
  bgp_state = text_at_or (as_dict (value_at (table_at ctx.subject "bgp") peer)) "state" "";
  ambiguous = Dict.get (table_at ctx.subject "bfd_ambiguous") peer;
  baseline_ambiguous = Dict.get (baseline_table ctx "bfd_ambiguous") peer;
}

-- `set(intent) | set(sessions) | set(baseline_sessions)`
unfoldable pub bfd_universe : CheckContext → List String
bfd_universe ctx =
    intent ctx ++ (Dict.keys (table_at ctx.subject "bfd") ++ Dict.keys (baseline_table ctx "bfd"))

-- `BfdSessionStateCheck.run`
unfoldable pub run_bfd : CheckContext → Result (List Finding)
run_bfd ctx =
    returns (map (λ peer. bfd_finding ctx peer (measure ctx peer)) (sorted_set (bfd_universe ctx)))

abbrev pub bfd_session_check : Check
bfd_session_check = record {
  id = "bfd_session_state";
  title = "Stav BFD session";
  label = "BFD";
  mode = both;
  requires = "bfd" ∷ "bgp" ∷ [];
  service_types = none;
  service_subtypes = none;
  excluded_subtypes = none;
  default_severity = critical;
  layer1 = false;
  order = 0;
  run = run_bfd;
}

-- `BfdSessionStateCheck.applies_to`: never a Core service
unfoldable pub bfd_applies_to : Check → Scope → Bool
bfd_applies_to check scope =
    if service_type scope == some "Core" then false else applies_to check scope
