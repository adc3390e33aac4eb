-- ===== src/Checks/Config/Validation.antt =====
-- The severities of a configuration after `_validate_checks` (migration_validator/config.py).
use migration_status_check.Base.Dict
use migration_status_check.Base.Dict.{Dict}
use migration_status_check.Base.{
  String, ◌≡◌, refl, subst, inl, inr, true, false, Option, none, some, [], ◌∷◌, ◌==◌, returns,
  Returns, Ensures, Ensures-bind, of_Ensures, All, arith, string_eq, eq_iff, Bool-cases,
}
use migration_status_check.Models.Value.{Value, null, str, dict, truthy, Fields, no_fields, field}
use migration_status_check.Models.Status.{Severity}
use migration_status_check.Checks.Config.{
  Options, defaults, or_empty, update, options, parse_severity, severity_option, severity,
  is_severity, option_is_valid, validate_options, validate_overrides, validate_entries,
  validate_checks,
}

-- An entry under the key `severity` has a value that the enum knows.
abbrev IsSafeEntry : String × Value → Type 0
IsSafeEntry (k, v) = k ≡ "severity" → is_severity v ≡ true

abbrev IsSafe : Options → Type 0
IsSafe = All IsSafeEntry

put-IsSafe :
    (d : Options) (k : String) (v : Value) → IsSafeEntry (k, v) → IsSafe d → IsSafe (Dict.put d k v)
unfolding Dict.put
put-IsSafe [] k v h s = (h, tt)
put-IsSafe ((j, w) ∷ d) k v h s = elim (Bool-cases (j == k)) [
  | inl e ↦ rw e (h, s.1)
  | inr e ↦ rw e (s.0, put-IsSafe d k v h s.1)
]

update-IsSafe : (d e : Options) → IsSafe d → IsSafe e → IsSafe (update d e)
unfolding update
update-IsSafe d [] s t = s
update-IsSafe d ((k, v) ∷ e) s t = update-IsSafe (Dict.put d k v) e (put-IsSafe d k v t.0 s) t.1

get-IsSafe :
    (d : Options) (v : Value) → IsSafe d → Dict.get d "severity" ≡ some v → is_severity v ≡ true
unfolding Dict.get
get-IsSafe [] v s h = cc
get-IsSafe ((j, w) ∷ d) v s h = elim (Bool-cases (j == "severity")) [
  | inl e ↦
      subst (λ x. is_severity x ≡ true) {x = w} {y = v} (ground arith)
        (s.0 ((eq_iff j "severity").0 e))
  | inr e ↦ get-IsSafe d v s.1 (ground arith)
]

abbrev AreSafe : Dict String Options → Type 0
AreSafe = All (λ p. IsSafe p.1)

get-AreSafe : (d : Dict String Options) (k : String) → AreSafe d → IsSafe (or_empty (Dict.get d k))
unfolding Dict.get
get-AreSafe [] k s = tt
get-AreSafe ((j, o) ∷ d) k s = elim (Bool-cases (j == k)) [
  | inl e ↦ rw e s.0
  | inr e ↦ rw e (get-AreSafe d k s.1)
]

other_key {ℓ} : {A : Type ℓ} (k : String) → (k == "severity") ≡ false → k ≡ "severity" → A
other_key k differs same = absurd (ground (arith, eq_iff k "severity"))

defaults-AreSafe : AreSafe defaults
defaults-AreSafe = (
  (other_key "tolerance_percent" refl, (other_key "require_nonzero" refl, tt)),
  (
    (other_key "tolerance_db" refl, tt),
    (
      (other_key "tolerance_percent" refl, tt),
      (
        (other_key "tolerance_percent" refl, tt),
        (
          (other_key "count" refl, tt),
          ((other_key "enabled" refl, (other_key "max_residual_pps" refl, tt)), tt),
        ),
      ),
    ),
  ),
)

IsSafeEntry-of_valid :
    (of_check : Options) (key : String) (value : Value)
    → option_is_valid of_check key value ≡ true
    → IsSafeEntry (key, value)
unfolding option_is_valid
IsSafeEntry-of_valid of_check key value h same = ground (arith, eq_iff key "severity")

validate_options-IsSafe :
    (check_id : String) (of_check : Options) (fields : Fields)
    → Ensures IsSafe (validate_options check_id of_check fields)
unfolding validate_options
validate_options-IsSafe check_id of_check no_fields = tt
validate_options-IsSafe check_id of_check (field key value rest) =
    elim (Bool-cases (option_is_valid of_check key value)) [
      | inl e ↦ rw e (
          Ensures-bind IsSafe IsSafe (validate_options check_id of_check rest) _
            (validate_options-IsSafe check_id of_check rest)
            (λ o safe. (IsSafeEntry-of_valid of_check key value e, safe)))
      | inr e ↦ rw e tt
    ]

validate_overrides-IsSafe :
    (check_id : String) (overrides : Value) → Ensures IsSafe (validate_overrides check_id overrides)
unfolding validate_overrides
validate_overrides-IsSafe check_id null = tt
validate_overrides-IsSafe check_id (dict fields) = validate_options-IsSafe check_id _ fields
validate_overrides-IsSafe check_id _ = tt

validate_entries-AreSafe : (entries : Fields) → Ensures AreSafe (validate_entries entries)
unfolding validate_entries
validate_entries-AreSafe no_fields = tt
validate_entries-AreSafe (field check_id overrides rest) =
    Ensures-bind IsSafe AreSafe (validate_overrides check_id overrides) _
      (validate_overrides-IsSafe check_id overrides)
      (λ o safe.
        Ensures-bind AreSafe AreSafe (validate_entries rest) _ (validate_entries-AreSafe rest)
          (λ checks others. (safe, others)))

validate_checks-AreSafe : (raw : Value) → Ensures AreSafe (validate_checks raw)
unfolding validate_checks
validate_checks-AreSafe null = tt
validate_checks-AreSafe (dict entries) = validate_entries-AreSafe entries
validate_checks-AreSafe _ = tt

parse_severity-Returns : (v : Value) → is_severity v ≡ true → Returns (parse_severity v)
parse_severity-Returns (str s) h = elim (Bool-cases (s == "critical")) [
  | inl e ↦ rw e tt
  | inr e ↦ elim (Bool-cases (s == "advisory")) [
    | inl f ↦ rw (e, f) tt
    | inr f ↦ ground (arith, e, f, h)
  ]
]
parse_severity-Returns null h = cc
parse_severity-Returns _ h = cc

severity_option-Returns :
    (o : Option Value) (default : Severity)
    → ((v : Value) → o ≡ some v → is_severity v ≡ true)
    → Returns (severity_option o default)
severity_option-Returns none default h = tt
severity_option-Returns (some v) default h = elim (Bool-cases (truthy v)) [
  | inl e ↦ rw e (parse_severity-Returns v (h v refl))
  | inr e ↦ rw e tt
]

-- Under a configuration that `_validate_checks` accepted, every check has a severity, whatever
-- default the check brings: `CheckConfig.severity` raises for no check.
pub validate_checks-severity :
    (raw : Value) (checks : Dict String Options)
    → validate_checks raw ≡ returns checks
    → (check_id : String) (default : Severity)
    → Returns (severity (record { raw = checks }) check_id default)
unfolding severity options
validate_checks-severity raw checks accepted check_id default =
    severity_option-Returns _ default (λ v found.
      get-IsSafe (options (record { raw = checks }) check_id) v
        (update-IsSafe _ _ (get-AreSafe defaults check_id defaults-AreSafe) (
          get-AreSafe checks check_id
            (of_Ensures AreSafe (validate_checks raw) (validate_checks-AreSafe raw) accepted)))
        found)
