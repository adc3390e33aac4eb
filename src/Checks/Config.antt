-- ===== src/Checks/Config.antt =====
-- The configuration of the checks (`CheckConfig` of migration_validator/config.py).
pub mod Validation
mod Tests
use migration_status_check.Base.Dict
use migration_status_check.Base.Dict.{Dict}
use migration_status_check.Base.Integer.{pos, negsuc}
use migration_status_check.Base.{
  concat, ◌||◌, ◌>>=◌, String, Bool, true, false, Option, none, some, List, [], ◌∷◌, ◌==◌, Result,
  returns, raises, string_eq, if◌then◌else◌,
}
use migration_status_check.Models.Value.{
  Value, null, bool, int, real, nonfinite, str, dict, truthy, Fields, no_fields, field,
}
use migration_status_check.Models.Status.{Severity, critical, advisory}

abbrev pub Options : Type 0
Options = Dict String Value

-- The built-in options of the checks.
abbrev pub defaults : Dict String Options
defaults =
    (
      "interface_traffic",
      ("tolerance_percent", int (negsuc 59)) ∷ ("require_nonzero", bool true) ∷ [],
    )
    ∷ ("interface_optics_levels", ("tolerance_db", real (pos 20) 1) ∷ [])
    ∷ ("bgp_prefix_counts", ("tolerance_percent", int (negsuc 9)) ∷ [])
    ∷ ("evpn_mac_count", ("tolerance_percent", int (negsuc 59)) ∷ [])
    ∷ ("ping_reachability", ("count", int (pos 5)) ∷ [])
    ∷ ("traffic_ceased", ("enabled", bool false) ∷ ("max_residual_pps", int (pos 1)) ∷ [])
    ∷ []

abbrev pub or_empty : Option Options → Options
or_empty none = []
or_empty (some o) = o

-- `dict.update`
unfoldable pub update : Options → Options → Options
unfolding Dict.put
update d [] = d
update d ((k, v) ∷ rest) = update (Dict.put d k v) rest

pub record CheckConfig : Type 0 where
  pub raw : Dict String Options

-- The defaults of a check, overridden by the configuration.
unfoldable pub options : CheckConfig → String → Options
unfolding update Dict.get
options config check_id =
    update (or_empty (Dict.get defaults check_id)) (or_empty (Dict.get config.raw check_id))

-- `Severity(value)`
abbrev pub parse_severity : Value → Result Severity
parse_severity (str s) =
    if s == "critical"
    then returns critical
    else if s == "advisory"
    then returns advisory
    else raises "is not a valid Severity"
parse_severity v = raises "is not a valid Severity"

abbrev pub severity_option : Option Value → Severity → Result Severity
severity_option none default = returns default
severity_option (some v) default =
    let parsed = parse_severity v in if truthy v then parsed else returns default

-- `CheckConfig.severity`
unfoldable pub severity : CheckConfig → String → Severity → Result Severity
unfolding Dict.get
severity config check_id default =
    severity_option (Dict.get (options config check_id) "severity") default

abbrev pub flag_option : Option Value → Bool
flag_option none = true
flag_option (some v) = truthy v

-- `CheckConfig.enabled`
unfoldable pub enabled : CheckConfig → String → Bool
unfolding Dict.get
enabled config check_id = flag_option (Dict.get (options config check_id) "enabled")

-- The type of an option that `_validate_checks` expects.
pub data OptionType : Type 0 where
  boolean number text : OptionType

-- `option_type`: by the Python type of the default, a bool first.
unfoldable pub option_type : Value → OptionType
option_type (bool b) = boolean
option_type (int n) = number
option_type (real n k) = number
option_type (nonfinite x) = number
option_type _ = text

-- `option_matches_type`
unfoldable pub option_matches_type : Value → OptionType → Bool
option_matches_type (bool b) boolean = true
option_matches_type (int n) number = true
option_matches_type (real n k) number = true
option_matches_type (nonfinite x) number = true
option_matches_type (str s) text = true
option_matches_type _ _ = false

-- `isinstance(value, str) and value in _SEVERITY_VALUES`
abbrev pub is_severity : Value → Bool
is_severity (str s) = s == "advisory" || s == "critical"
is_severity _ = false

-- The expected type of an option that is not `severity`; none if nothing is expected.
abbrev pub expected_type : Options → String → Option OptionType
expected_type of_check key =
    if key == "enabled"
    then some boolean
    else elim (Dict.get of_check key) [ none ↦ none | some v ↦ some (option_type v) ]

abbrev pub matches_expected : Option OptionType → Value → Bool
matches_expected none v = true
matches_expected (some t) v = option_matches_type v t

-- One option of one check: whether `_validate_checks` lets it through.
unfoldable pub option_is_valid : Options → String → Value → Bool
unfolding option_type option_matches_type Dict.get
option_is_valid of_check key value =
    if key == "severity"
    then is_severity value
    else matches_expected (expected_type of_check key) value

-- The options of one check, as a dictionary, if all of them are valid.
unfoldable pub validate_options : String → Options → Fields → Result Options
unfolding option_is_valid
validate_options check_id of_check no_fields = returns []
validate_options check_id of_check (field key value rest) =
    let checked = validate_options check_id of_check rest in
    if option_is_valid of_check key value
    then (checked >>= λ o. returns ((key, value) ∷ o))
    else raises (concat ("check '" ∷ check_id ∷ "': volba '" ∷ key ∷ "'" ∷ []))

-- The overrides of one check: none counts as empty, and anything else must be a mapping.
unfoldable pub validate_overrides : String → Value → Result Options
unfolding validate_options Dict.get
validate_overrides check_id null = returns []
validate_overrides check_id (dict fields) =
    validate_options check_id (or_empty (Dict.get defaults check_id)) fields
validate_overrides check_id _ = raises (concat ("check '" ∷ check_id ∷ "': ocekavan mapping" ∷ []))

unfoldable pub validate_entries : Fields → Result (Dict String Options)
unfolding validate_overrides
validate_entries no_fields = returns []
validate_entries (field check_id overrides rest) =
    let others = validate_entries rest in
    validate_overrides check_id overrides >>= λ o.
    others >>= λ checks. returns ((check_id, o) ∷ checks)

-- `_validate_checks`: the section `checks` of a profile.
unfoldable pub validate_checks : Value → Result (Dict String Options)
unfolding validate_entries
validate_checks null = returns []
validate_checks (dict entries) = validate_entries entries
validate_checks _ = raises "sekce checks: ocekavan mapping"
