-- ===== src/Models/Finding.antt =====
-- Findings of checks and the results derived from them (migration_validator/models/result.py).
use migration_status_check.Base.Dict
use migration_status_check.Base.Dict.{Dict}
use migration_status_check.Base.{
  ℕ, String, Bool, true, false, Option, none, some, List, [], count_by, string_eq,
}
use migration_status_check.Models.Value.{Value, truthy}
use migration_status_check.Models.Status.{Status, Severity, Outcome}

-- The structural marks in `CheckResult.details`.
abbrev pub skipped_because : String
skipped_because = "skipped_because"

abbrev pub skip_deactivated : String
skip_deactivated = "service_deactivated"

abbrev pub unchanged_since_baseline : String
unchanged_since_baseline = "unchanged_since_baseline"

abbrev pub compared_mark : String
compared_mark = "compared"

abbrev pub new_since_baseline_mark : String
new_since_baseline_mark = "new_since_baseline"

pub record Finding : Type 0 where
  pub outcome : Outcome
  pub message : String
  pub label : Option String
  pub group : Option String
  pub family : Option ℕ
  pub value : Option String
  pub baseline_value : Option String
  pub delta : Option String
  pub compared : Bool
  pub new_since_baseline : Bool
  pub baseline : Option (Dict String Value)
  pub subject : Option (Dict String Value)
  pub details : Dict String Value

-- A finding with the defaults of the dataclass.
abbrev pub finding : Outcome → String → Finding
finding o m = record {
  outcome = o;
  message = m;
  label = none;
  group = none;
  family = none;
  value = none;
  baseline_value = none;
  delta = none;
  compared = true;
  new_since_baseline = false;
  baseline = none;
  subject = none;
  details = [];
}

pub record CheckResult : Type 0 where
  pub id : String
  pub mode : String
  pub status : Status
  pub severity : Severity
  pub message : String
  pub label : Option String
  pub group : Option String
  pub family : Option ℕ
  pub value : Option String
  pub baseline_value : Option String
  pub delta : Option String
  pub baseline : Option (Dict String Value)
  pub subject : Option (Dict String Value)
  pub details : Dict String Value

-- The truth of `details.get(key)`
unfoldable pub marked : String → Dict String Value → Bool
unfolding Dict.get
marked key d = elim (Dict.get d key) [ none ↦ false | some v ↦ truthy v ]

-- How many results are PASS only because the baseline had the same fault.
unfoldable pub count_unchanged : List CheckResult → ℕ
unfolding marked
count_unchanged checks = count_by (λ c. marked unchanged_since_baseline c.details) checks
