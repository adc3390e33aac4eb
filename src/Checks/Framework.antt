-- ===== src/Checks/Framework.antt =====
-- The contract of a check and its execution (migration_validator/checks/base.py).
pub mod Blocking
pub mod Failure
mod Tests
use migration_status_check.Base.Dict
use migration_status_check.Base.Dict.{Dict}
use migration_status_check.Base.{
  ℕ, String, Bool, true, false, not, ◌&&◌, ◌||◌, Option, none, some, List, [], ◌∷◌, map, ◌==◌,
  Result, returns, raises, ◌>>=◌, string_eq, option_eq, if◌then◌else◌, contains, concat,
  show_option,
}
use migration_status_check.Models.Value.{Value, bool, str, truthy}
use migration_status_check.Models.Status.{Status, Severity, Outcome, derive_status}
use migration_status_check.Models.Scope.{
  Scope, is_deactivated, deactivation_reason, service_type, service_subtype,
}
use migration_status_check.Models.Finding.{
  Finding, CheckResult, skipped_because, skip_deactivated, unchanged_since_baseline, compared_mark,
  new_since_baseline_mark,
}
use migration_status_check.Checks.Config.{CheckConfig, enabled, severity}

pub data Mode : Type 0 where
  state compare both : Mode

abbrev pub mode_value : Mode → String
mode_value state = "state"
mode_value compare = "compare"
mode_value both = "both"

pub record CheckContext : Type 0 where
  pub scope : Scope
  pub subject : Dict String Value
  pub baseline : Option (Dict String Value)
  pub config : CheckConfig
  pub failed_collectors : Dict String String
  pub baseline_scope : Option Scope
  pub link : Option (Dict String Value)
  pub baseline_collectors : Dict String (Dict String Value)

unfoldable pub has_baseline : CheckContext → Bool
has_baseline ctx = elim ctx.baseline [ none ↦ false | some b ↦ true ]

abbrev pub is_str : String → Option Value → Bool
is_str s (some (str t)) = t == s
is_str s _ = false

abbrev pub is_truthy : Option Value → Bool
is_truthy none = false
is_truthy (some v) = truthy v

-- `self.baseline_collectors.get(area, {}).get("status") == "ok"`
abbrev pub collector_ok : Option (Dict String Value) → Bool
collector_ok none = false
collector_ok (some record_of) = is_str "ok" (Dict.get record_of "status")

abbrev pub pinged : Option (Dict String Value) → Bool
pinged none = false
pinged (some b) = is_truthy (Dict.get b "ping")

-- `CheckContext.baseline_measured`: there is a baseline, and it measured the area.
unfoldable pub baseline_measured : CheckContext → String → Bool
unfolding Dict.get
baseline_measured ctx area =
    if not (has_baseline ctx)
    then false
    else if area == "ping"
    then pinged ctx.baseline
    else collector_ok (Dict.get ctx.baseline_collectors area)

-- A check: its class attributes, and its `run`, which may raise.
pub record Check : Type 0 where
  pub id : String
  pub title : String
  pub label : String
  pub mode : Mode
  pub requires : List String
  pub service_types : Option (List String)
  pub service_subtypes : Option (List String)
  pub excluded_subtypes : Option (List String)
  pub default_severity : Severity
  pub layer1 : Bool
  pub order : ℕ
  pub run : CheckContext → Result (List Finding)

-- `x in xs` where `x` may be None
abbrev pub contains_option : List String → Option String → Bool
contains_option xs none = false
contains_option xs (some x) = contains xs x

-- A filter that is not set lets everything through.
abbrev pub admits : Option (List String) → Option String → Bool
admits none x = true
admits (some xs) x = contains_option xs x

abbrev pub excludes : Option (List String) → Option String → Bool
excludes none x = false
excludes (some xs) x = contains_option xs x

-- `Check.applies_to`
unfoldable pub applies_to : Check → Scope → Bool
unfolding service_type service_subtype
applies_to check scope =
    if scope.kind == "layer1"
    then check.layer1
    else if not (admits check.service_types (service_type scope))
    then false
    else if not (admits check.service_subtypes (service_subtype scope))
    then false
    else if excludes check.excluded_subtypes (service_subtype scope)
    then false
    else true

-- `details={SKIPPED_BECAUSE: skipped_because} if skipped_because else {}`
abbrev pub skip_details : Option String → Dict String Value
skip_details none = []
skip_details (some reason) = (skipped_because, str reason) ∷ []

-- `_skip`: one row of a check that did not run.
unfoldable pub skip_rows :
    Check → Severity → String → Option String → Option String → List CheckResult
unfolding derive_status
skip_rows check sev message value because =
    record {
      id = check.id;
      mode = mode_value check.mode;
      status = derive_status Outcome.skip sev;
      severity = sev;
      message = message;
      label = some check.label;
      group = none;
      family = none;
      value = value;
      baseline_value = none;
      delta = none;
      baseline = none;
      subject = none;
      details = skip_details because;
    }
    ∷ []

abbrev pub deactivation_check_id : String
deactivation_check_id = "deactivation_state"

abbrev pub mark_if : Bool → String → Value → Dict String Value → Dict String Value
mark_if b key v d = if b then Dict.put d key v else d

abbrev pub is_unchanged : Outcome → Bool
is_unchanged Outcome.unchanged = true
is_unchanged _ = false

-- `_details`: the marks of a finding, added to its own details.
unfoldable pub finding_details : Finding → Dict String Value
unfolding Dict.put
finding_details f = mark_if f.new_since_baseline new_since_baseline_mark (bool true) (
    mark_if (not f.compared) compared_mark (bool false)
      (mark_if (is_unchanged f.outcome) unchanged_since_baseline (bool true) f.details))

-- `finding.label or check.label`
abbrev pub label_or : Option String → String → String
label_or none default = default
label_or (some l) default = if l == "" then default else l

-- The row of a finding.
unfoldable pub result_row : Check → Severity → Finding → CheckResult
unfolding derive_status finding_details
result_row check sev f = record {
  id = check.id;
  mode = mode_value check.mode;
  status = derive_status f.outcome sev;
  severity = sev;
  message = f.message;
  label = some (label_or f.label check.label);
  group = f.group;
  family = f.family;
  value = f.value;
  baseline_value = f.baseline_value;
  delta = f.delta;
  baseline = f.baseline;
  subject = f.subject;
  details = finding_details f;
}

-- The first required area whose collector failed, with the collector's message.
unfoldable pub first_failed : Dict String String → List String → Option (String × String)
unfolding Dict.get
first_failed failed [] = none
first_failed failed (area ∷ areas) =
    let rest = first_failed failed areas in
    elim (Dict.get failed area) [ some message ↦ some (area, message) | none ↦ rest ]

-- The rows of a check that ran: a row for each finding, or one SKIP if it raised.
unfoldable pub run_rows : Check → Severity → Result (List Finding) → List CheckResult
unfolding result_row skip_rows
run_rows check sev (returns findings) = map (result_row check sev) findings
run_rows check sev (raises error) =
    skip_rows check sev (concat ("check selhal: " ∷ error ∷ [])) (some "check selhal") none

-- The rows once no collector that the check requires is known to have failed, or the SKIP for
-- the first one that has.
unfoldable pub after_collectors :
    Check → CheckContext → Severity → Option (String × String) → List CheckResult
unfolding run_rows
after_collectors check ctx sev none = run_rows check sev (check.run ctx)
after_collectors check ctx sev (some (area, message)) =
    skip_rows check sev (concat ("chybi data z collectoru '" ∷ area ∷ "': " ∷ message ∷ []))
      (some "collector selhal") none

abbrev pub is_compare : Mode → Bool
is_compare compare = true
is_compare _ = false

abbrev pub lacks_baseline : Check → CheckContext → Bool
lacks_baseline check ctx = is_compare check.mode && not (has_baseline ctx)

abbrev pub is_off : Check → CheckContext → Bool
is_off check ctx = not (check.id == deactivation_check_id) && is_deactivated ctx.scope

-- The part of `run_check` below the severity.
unfoldable pub guarded_rows : Check → CheckContext → Severity → List CheckResult
unfolding has_baseline is_deactivated deactivation_reason first_failed after_collectors skip_rows
guarded_rows check ctx sev =
    let reason = deactivation_reason ctx.scope in
    let rows = after_collectors check ctx sev (first_failed ctx.failed_collectors check.requires) in
    if lacks_baseline check ctx
    then skip_rows check sev "porovnavaci check bez baseline snapshotu" (some "bez baseline") none
    else if is_off check ctx
    then skip_rows check sev
        (concat ("sluzba je v konfiguraci deaktivovana (" ∷ show_option reason ∷ ")" ∷ [])) reason
        (some skip_deactivated)
    else rows

-- `run_check`
unfoldable pub run_check : Check → CheckContext → Result (List CheckResult)
unfolding enabled severity applies_to guarded_rows
run_check check ctx =
    let rows = severity ctx.config check.id check.default_severity >>= λ sev.
    returns (guarded_rows check ctx sev) in
    if not (enabled ctx.config check.id)
    then returns []
    else if not (applies_to check ctx.scope)
    then returns []
    else rows
