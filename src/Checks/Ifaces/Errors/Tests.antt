-- ===== src/Checks/Ifaces/Errors/Tests.antt =====
-- Tests of the error counters of an interface.
use migration_status_check.Base.Dict
use migration_status_check.Base.Integer.{pos_part, pos}
use migration_status_check.Base.{◌<◌, ◌↔◌, ◌≡◌, refl, none, some, [], ◌∷◌, string_eq, returns}
use migration_status_check.Models.Value.{int}
use migration_status_check.Models.Status.{ok, broken}
use migration_status_check.Checks.Ifaces.Errors.{
  Counters, errors_finding, nonzero_finding, total_of, counters_in, error_keys,
}
use migration_status_check.Checks.Ifaces.Errors.Laws.{
  HasCounter, HasGrown, errors_finding-is_broken,
}

abbrev counters : Counters
counters = ("input_errors", pos 3) ∷ ("output_errors", pos 0) ∷ []

abbrev baseline : Counters
baseline = ("input_errors", pos 3) ∷ []

-- The errors of the old interface are no fault of the new one.
old_errors : (errors_finding "ae0" "Interface errors" counters (some baseline)).outcome ≡ ok
unfolding errors_finding nonzero_finding total_of Dict.get
old_errors = refl

-- A counter that the record does not have is passed over.
two_counters :
    counters_in (("output_errors", int (pos 0)) ∷ ("input_errors", int (pos 3)) ∷ []) error_keys
    ≡ returns counters
unfolding counters_in Dict.get
two_counters = refl

errors_finding-is_broken_example :
    ((errors_finding "ae0" "Interface errors" counters none).outcome ≡ broken
      ↔ HasCounter (λ e. 0 < pos_part e.1) counters)
    × ((errors_finding "ae0" "Interface errors" counters (some baseline)).outcome ≡ broken
        ↔ HasCounter (HasGrown baseline) counters)
errors_finding-is_broken_example =
    errors_finding-is_broken "ae0" "Interface errors" counters baseline (refl, (refl, tt))
      (refl, tt)
