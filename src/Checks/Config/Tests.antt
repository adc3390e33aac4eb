-- ===== src/Checks/Config/Tests.antt =====
-- Tests of the configuration.
use migration_status_check.Base.Dict.{Dict}
use migration_status_check.Base.{String, ◌≡◌, refl, false, [], ◌∷◌, returns, Returns}
use migration_status_check.Models.Value.{Value, bool, str, dict, no_fields, field}
use migration_status_check.Models.Status.{critical, advisory}
use migration_status_check.Checks.Config.{Options, options, severity, enabled, validate_checks}
use migration_status_check.Checks.Config.Validation.{validate_checks-severity}

abbrev raw_section : Value
raw_section = dict (
    field "bgp_state"
      (dict (field "severity" (str "advisory") (field "enabled" (bool false) no_fields))) no_fields)

abbrev section : Dict String Options
section = ("bgp_state", ("severity", str "advisory") ∷ ("enabled", bool false) ∷ []) ∷ []

section_accepted : validate_checks raw_section ≡ returns section
unfolding validate_checks
section_accepted = refl

severity_of_section : severity (record { raw = section }) "bgp_state" critical ≡ returns advisory
unfolding severity options
severity_of_section = refl

ceased_is_off : enabled (record { raw = [] }) "traffic_ceased" ≡ false
unfolding enabled options
ceased_is_off = refl

validate_checks-severity_example :
    Returns (severity (record { raw = section }) "bgp_state" critical)
validate_checks-severity_example =
    validate_checks-severity raw_section section section_accepted "bgp_state" critical
