-- ===== src/Checks/Bgp.antt =====
-- The check of the BGP sessions of a service (`BgpSessionStateCheck` of
-- migration_validator/checks/bgp.py).
pub mod Rows
pub mod Laws
pub mod Verdicts
mod Tests
use migration_status_check.Base.Dict
use migration_status_check.Base.Dict.{Dict}
use migration_status_check.Base.Sort.{sorted, sorted_set}
use migration_status_check.Base.Address.{ip_version}
use migration_status_check.Base.{
  ℕ, String, Bool, true, false, not, ◌&&◌, ◌||◌, Option, none, some, List, [], ◌∷◌, ◌++◌, map,
  filter, contains, concat, ◌==◌, Result, returns, string_eq, option_eq, if◌then◌else◌,
}
use migration_status_check.Models.Value.{Value, str}
use migration_status_check.Models.Value.Access.{table_at, as_dict, text_at_or, py_str}
use migration_status_check.Models.Status.{
  Severity, critical, Outcome, ok, recovered, broken, degraded, unchanged,
}
use migration_status_check.Models.Scope.{Scope, service_type, service_subtype}
use migration_status_check.Models.Scope.Select.{bgp_instance}
use migration_status_check.Models.Finding.{Finding, finding}
use migration_status_check.Checks.Framework.{Check, CheckContext, Mode, both, applies_to}
use migration_status_check.Checks.Baseline.{unchanged_or, suffix}
use migration_status_check.Checks.Deactivation.{deactivation_outcome}

abbrev pub established : String
established = "Established"

abbrev pub unknown : String
unknown = "unknown"

abbrev pub not_in_service : String
not_in_service = "v baseline patril k teto sluzbe, v subjektu uz ne"

-- `ambiguous_value`
unfoldable pub ambiguous_value : Value → String
ambiguous_value count = concat ("neznamy (nejednoznacne: " ∷ py_str count ∷ " session)" ∷ [])

-- `peer_family`
abbrev pub peer_family : String → Option ℕ
peer_family peer = ip_version peer

abbrev pub status_label : String → String
status_label peer = concat ("BGP status (" ∷ peer ∷ ")" ∷ [])

-- `(ctx.baseline or {}).get(area, {})`
unfoldable pub baseline_table : CheckContext → String → Dict String Value
baseline_table ctx area = elim ctx.baseline [ none ↦ [] | some b ↦ table_at b area ]

-- `str(d[peer].get("state", UNKNOWN)) if peer in d else None`
abbrev pub state_of : Option Value → Option String
state_of none = none
state_of (some v) = some (text_at_or (as_dict v) "state" unknown)

abbrev pub ambiguity_of : Option Value → Option String
ambiguity_of none = none
ambiguity_of (some n) = some (ambiguous_value n)

abbrev pub either_text {ℓ} : {A : Type ℓ} → Option A → Option A → Option A
either_text none o = o
either_text (some a) o = some a

-- The state of the session in the baseline
unfoldable pub baseline_state : CheckContext → String → Option String
baseline_state ctx peer = state_of (Dict.get (baseline_table ctx "bgp") peer)

-- What the baseline says of the peer: its state, or that it is ambiguous
unfoldable pub baseline_text : CheckContext → String → Option String
baseline_text ctx peer =
    either_text (baseline_state ctx peer)
      (ambiguity_of (Dict.get (baseline_table ctx "bgp_ambiguous") peer))

abbrev pub state_record : String → Dict String Value
state_record state = ("state", str state) ∷ []

-- `{"state": state} if state else None`
abbrev pub state_record? : Option String → Option (Dict String Value)
state_record? none = none
state_record? (some state) = if state == "" then none else some (state_record state)

-- `baseline_state is not None and baseline_state != state`
abbrev pub has_changed : String → Option String → Bool
has_changed state none = false
has_changed state (some was) = not (was == state)

abbrev pub up_message : String → String → Option String → String
up_message peer state none = concat (peer ∷ ": " ∷ established ∷ [])
up_message peer state (some was) =
    if not (was == state)
    then concat (peer ∷ ": stav se zmenil " ∷ was ∷ " -> " ∷ state ∷ [])
    else concat (peer ∷ ": " ∷ established ∷ [])

-- The row of a session that is up
unfoldable pub up_row : CheckContext → String → String → Option String → Finding
up_row ctx peer state was =
    record (finding (if has_changed state was then recovered else ok) (up_message peer state was)) {
      label = some (status_label peer);
      family = peer_family peer;
      value = some state;
      baseline_value = baseline_text ctx peer;
      baseline = state_record? was;
      subject = some (state_record state);
    }

-- The row of a session in another state
unfoldable pub down_row : CheckContext → String → String → Option String → Finding
down_row ctx peer state was =
    let outcome_of = unchanged_or broken ctx "bgp" (not (state == unknown) && was == some state) in
    record (finding outcome_of
      (concat (peer ∷ ": stav " ∷ state ∷ ", ocekavano " ∷ established ∷ suffix outcome_of ∷ []))) {
        label = some (status_label peer);
        family = peer_family peer;
        value = some state;
        baseline_value = baseline_text ctx peer;
        baseline = state_record? was;
        subject = some (state_record state);
      }

-- The row of a measured session
unfoldable pub session_row : CheckContext → String → Value → Finding
session_row ctx peer v =
    let state = text_at_or (as_dict v) "state" unknown in
    if state == established
    then up_row ctx peer state (baseline_state ctx peer)
    else down_row ctx peer state (baseline_state ctx peer)

-- `_ambiguous_session_finding`
unfoldable pub ambiguous_session_finding : CheckContext → String → Value → Option String → Finding
ambiguous_session_finding ctx peer count was =
    record (finding Outcome.skip (
      concat (
        peer
        ∷ ": stav nelze urcit - na adrese je "
        ∷ py_str count
        ∷ " BGP session v instanci "
        ∷ elim (bgp_instance ctx.scope) [
          | none ↦ "master"
          | some i ↦ if i == "" then "master" else i
        ]
        ∷ " (lisi se local-interface)"
        ∷ []))) {
          label = some (status_label peer);
          family = peer_family peer;
          value = some (ambiguous_value count);
          baseline_value = was;
        }
