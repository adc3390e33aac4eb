-- ===== src/Checks/Ifaces/Errors.antt =====
-- The check of the error counters of interfaces (`InterfaceErrorsCheck` in
-- migration_validator/checks/ifaces.py). A counter that is no integer raises; the collector stores integers.
pub mod Laws
mod Tests
use migration_status_check.Base.Dict
use migration_status_check.Base.Dict.{Dict}
use migration_status_check.Base.Sort.{sorted}
use migration_status_check.Base.Decimal.{show_int}
use migration_status_check.Base.Integer.{ℤ, pos, leb_ℤ, pos_part, neg_part}
use migration_status_check.Base.{
  ℕ, ◌+◌, String, Bool, true, false, not, ◌&&◌, Option, none, some, List, [], ◌∷◌, ◌++◌, map,
  filter, any, concat, length, ltb, ◌==◌, Result, returns, raises, ◌>>=◌, nat_eq, string_eq,
  option_eq, if◌then◌else◌,
}
use migration_status_check.Models.Value.{Value, int, bool, truthy}
use migration_status_check.Models.Value.Access.{
  table_at, as_dict, text_at, value_at, rows_at, is_text,
}
use migration_status_check.Models.Status.{advisory, Outcome, ok, broken, degraded}
use migration_status_check.Models.Scope.Select.{Record}
use migration_status_check.Models.Finding.{Finding, finding}
use migration_status_check.Checks.Framework.{Check, CheckContext, both}
use migration_status_check.Checks.Bgp.{baseline_table}
use migration_status_check.Checks.Ifaces.{is_transit, is_physical, qualified, own_interfaces}

abbrev pub Counters : Type 0
Counters = Dict String ℤ

abbrev pub error_keys : List String
error_keys = "input_errors" ∷ "output_errors" ∷ "framing_errors" ∷ []

-- `", ".join(texts)`
abbrev pub joined : List String → String
joined [] = ""
joined (s ∷ []) = s
joined (s ∷ t ∷ ss) = concat (s ∷ ", " ∷ joined (t ∷ ss) ∷ [])

-- `_transit_interfaces`
unfoldable pub transit_interfaces : CheckContext → List String
transit_interfaces ctx = sorted (filter is_transit (Dict.keys (table_at ctx.subject "interfaces")))

-- `_no_transit_finding`
unfoldable pub no_transit_finding : List String → Finding
no_transit_finding names =
    let listed = if length names == 0 then "zadne rozhrani" else joined names in
    record (finding Outcome.skip
      (concat ("neni tranzitni rozhrani (" ∷ listed ∷ "), counter check se preskakuje" ∷ []))) {
        value = some "netranzitni rozhrani";
      }

abbrev pub link_unless : Bool → Option Record → Option Record
link_unless has_transit none = none
link_unless has_transit (some l) =
    if is_text (value_at l "role") (some "l3") && not has_transit then some l else none

-- `_l3_link_without_transit`
unfoldable pub l3_link_without_transit : CheckContext → Option Record
l3_link_without_transit ctx = link_unless (ltb 0 (length (transit_interfaces ctx))) ctx.link

abbrev pub int_of : Value → Result ℤ
int_of (int n) = returns n
int_of (bool true) = returns (pos 1)
int_of (bool false) = returns (pos 0)
int_of _ = raises "ValueError: invalid literal for int()"

abbrev pub with_counter : String → Option Value → Result Counters → Result Counters
with_counter key none rest = rest
with_counter key (some v) rest = int_of v >>= λ n. rest >>= λ more. returns ((key, n) ∷ more)

-- The counters that the record of the interface has
unfoldable pub counters_in : Dict String Value → List String → Result Counters
counters_in d [] = returns []
counters_in d (key ∷ keys) = with_counter key (Dict.get d key) (counters_in d keys)

abbrev pub unless_none : Counters → Option Counters
unless_none [] = none
unless_none (e ∷ es) = some (e ∷ es)

abbrev pub baseline_counters_of : Option Value → Result (Option Counters)
baseline_counters_of none = returns none
baseline_counters_of (some v) =
    if truthy v
    then (counters_in (as_dict v) error_keys >>= λ c. returns (unless_none c))
    else returns none

-- `_baseline_counters`
unfoldable pub baseline_counters : CheckContext → String → Result (Option Counters)
baseline_counters ctx name = baseline_counters_of (Dict.get (baseline_table ctx "interfaces") name)

abbrev pub is_null : ℤ → Bool
is_null n = pos_part n == 0 && neg_part n == 0

-- `_nonzero_text`
unfoldable pub nonzero_text : Counters → String
nonzero_text c =
    joined (map (λ e. concat (e.0 ∷ "=" ∷ show_int e.1 ∷ [])) (filter (λ e. not (is_null e.1)) c))

unfoldable pub total_of : (ℤ → ℕ) → Counters → ℕ
total_of part [] = 0
total_of part ((key, n) ∷ c) = part n + total_of part c

-- `sum(counters.values()) == 0`
abbrev pub sums_to_zero : Counters → Bool
sums_to_zero c = total_of pos_part c == total_of neg_part c

abbrev pub or_zero : Option ℤ → ℤ
or_zero none = pos 0
or_zero (some n) = n

-- `value > baseline.get(key, 0)`
abbrev pub has_grown : Counters → String × ℤ → Bool
has_grown baseline e = not (leb_ℤ e.1 (or_zero (Dict.get baseline e.0)))

abbrev pub of_counters : Counters → Dict String Value
of_counters c = map (λ e. (e.0, int e.1)) c

abbrev pub errors_value : Option Counters → Option String
errors_value none = none
errors_value (some []) = none
errors_value (some (e ∷ es)) =
    let text = nonzero_text (e ∷ es) in some (if text == "" then "bez chyb" else text)

abbrev pub values_if : Option Counters → Option (Dict String Value)
values_if none = none
values_if (some c) = some (of_counters c)

abbrev pub grown_text : Counters → String × ℤ → String
grown_text baseline e =
    concat (e.0 ∷ "=" ∷ show_int (or_zero (Dict.get baseline e.0)) ∷ " -> " ∷ show_int e.1 ∷ [])

abbrev pub errors_row : Outcome → String → String → String → Counters → Option Counters → Finding
errors_row outcome_of message label value counters baseline = record (finding outcome_of message) {
  label = some label;
  value = some value;
  subject = some (of_counters counters);
  baseline_value = errors_value baseline;
  baseline = values_if baseline;
}

-- The findings of counters that are not all zero
unfoldable pub nonzero_finding : String → String → Counters → Option Counters → Finding
nonzero_finding name label counters none =
    errors_row broken
      (concat (name ∷ ": chybove countery nenulove (" ∷ nonzero_text counters ∷ ")" ∷ [])) label
      (nonzero_text counters) counters none
nonzero_finding name label counters (some baseline) =
    let grown = filter (has_grown baseline) counters in
    let detail = nonzero_text counters in
    if length grown == 0
    then errors_row ok
        (concat (name ∷ ": chybove countery stejne jako baseline (" ∷ detail ∷ ")" ∷ [])) label
        detail counters (some baseline)
    else errors_row broken
        (concat (
          name
          ∷ ": chybove countery od baseline vzrostly ("
          ∷ joined (map (grown_text baseline) grown)
          ∷ ")"
          ∷ []))
        label detail counters (some baseline)

-- `_errors_finding`
unfoldable pub errors_finding : String → String → Counters → Option Counters → Finding
errors_finding name label counters baseline =
    if sums_to_zero counters
    then errors_row ok (concat (name ∷ ": bez chyb" ∷ [])) label "bez chyb" counters baseline
    else nonzero_finding name label counters baseline

abbrev pub not_measured : String → String → Finding
not_measured name label =
    record (finding degraded (
      concat (name ∷ ": chybove countery nebyly zmereny (rozhrani nevraci error countery)" ∷ []))) {
        label = some label;
        value = some "nezmereno";
        compared = false;
      }

unfoldable pub counted : CheckContext → String → String → Counters → Result Finding
counted ctx name label [] = returns (not_measured name label)
counted ctx name label (e ∷ es) =
    baseline_counters ctx name >>= λ baseline. returns (errors_finding name label (e ∷ es) baseline)

unfoldable pub errors_rows : CheckContext → List String → Result (List Finding)
errors_rows ctx [] = returns []
errors_rows ctx (name ∷ names) =
    let label =
      if ctx.scope.kind == "layer1"
      then "Interface errors"
      else qualified "Interface errors" name in
    counters_in (table_at (table_at ctx.subject "interfaces") name) error_keys >>= λ counters.
    counted ctx name label counters >>= λ row.
    errors_rows ctx names >>= λ rows. returns (row ∷ rows)

abbrev pub only_units : List String → Finding
only_units names =
    record (finding Outcome.skip (
      concat (
        "chybove countery nese jen fyzicke rozhrani, ve scope jsou jen unity ("
        ∷ joined names
        ∷ ")"
        ∷ []))) { value = some "jen unity" }

abbrev pub rows_of_names : CheckContext → List String → Result (List Finding)
rows_of_names ctx [] = returns (
    (if ltb 0 (length (transit_interfaces ctx))
      then only_units (transit_interfaces ctx)
      else no_transit_finding (sorted (Dict.keys (table_at ctx.subject "interfaces"))))
    ∷ [])
rows_of_names ctx (name ∷ names) = errors_rows ctx (name ∷ names)

-- The row that points to the L2 part
unfoldable pub pointer_row : Record → Finding
pointer_row link =
    let peers = rows_at link "peers" in
    let peer = joined (map (λ p. text_at p "interface") peers) in
    let blocks = if ltb 1 (length peers) then "bloky nize" else "blok nize" in
    record (finding Outcome.info
      (concat ("errors/traffic se meri na L2 casti (" ∷ peer ∷ ")" ∷ []))) {
        label = some "Interface errors / traffic";
        value = some (concat ("mereno na L2 (" ∷ peer ∷ ") - viz " ∷ blocks ∷ []));
        compared = false;
      }

abbrev pub errors_of : CheckContext → Option Record → Result (List Finding)
errors_of ctx (some link) = returns (pointer_row link ∷ [])
errors_of ctx none =
    if not (ctx.scope.kind == "layer1") && any is_transit ctx.scope.selectors.physical_interfaces
    then returns []
    else rows_of_names ctx
        (filter (λ name. is_transit name && is_physical name) (own_interfaces ctx))

-- `InterfaceErrorsCheck.run`
unfoldable pub run_interface_errors : CheckContext → Result (List Finding)
run_interface_errors ctx = errors_of ctx (l3_link_without_transit ctx)

abbrev pub interface_errors_check : Check
interface_errors_check = record {
  id = "interface_errors";
  title = "Chybove countery rozhrani";
  label = "Interface errors";
  mode = both;
  requires = "interfaces" ∷ [];
  service_types = none;
  service_subtypes = none;
  excluded_subtypes = none;
  default_severity = advisory;
  layer1 = true;
  order = 0;
  run = run_interface_errors;
}
