-- ===== src/Checks/Ifaces.antt =====
-- The interfaces of a block and the check of their state (migration_validator/checks/ifaces.py).
pub mod Laws
pub mod Errors
mod Tests
use Prim.Native.Char.{Char, code}
use text.Mathlib.Text.{starts_with}
use migration_status_check.Base.Dict
use migration_status_check.Base.Dict.{Dict}
use migration_status_check.Base.Sort.{sorted}
use migration_status_check.Base.Address.{chars}
use migration_status_check.Base.{
  ℕ, String, Bool, true, false, not, ◌&&◌, ◌||◌, Option, none, some, List, [], ◌∷◌, ◌++◌, map,
  filter, any, concat, ◌==◌, Result, returns, nat_eq, string_eq, option_eq, if◌then◌else◌,
}
use migration_status_check.Models.Value.{Value, str}
use migration_status_check.Models.Value.Access.{table_at, as_dict, text_at_or}
use migration_status_check.Models.Status.{critical, Outcome, ok, broken}
use migration_status_check.Models.Status
use migration_status_check.Models.Scope.Select.{Record}
use migration_status_check.Models.Finding.{Finding, finding}
use migration_status_check.Checks.Framework.{Check, CheckContext, both}
use migration_status_check.Checks.Baseline.{unchanged_or, suffix}
use migration_status_check.Checks.Bgp.{unknown, baseline_table}
use migration_status_check.Checks.Bfd.{present}
use migration_status_check.Engine.Unassigned.{port_of}

abbrev pub transit_prefixes : List String
transit_prefixes = "ge" ∷ "xe" ∷ "et" ∷ "ae" ∷ []

-- `is_transit`
unfoldable pub is_transit : String → Bool
is_transit interface = any (λ p. starts_with (port_of interface) p) transit_prefixes

unfoldable pub has_dot : String → Bool
has_dot Prim.Native.String.[] = false
has_dot (Prim.Native.String.◌∷◌ c s) = let rest = has_dot s in code c == b'.' || rest

-- `is_physical`
unfoldable pub is_physical : String → Bool
is_physical interface = not (has_dot interface)

-- `label.endswith(")")`, the label without its last character, and `" (" in label`
unfoldable pub ends_with_bracket : String → Bool
ends_with_bracket Prim.Native.String.[] = false
ends_with_bracket (Prim.Native.String.◌∷◌ c s) =
    let rest = ends_with_bracket s in if s == "" then code c == b')' else rest

unfoldable pub without_last : String → String
without_last Prim.Native.String.[] = ""
without_last (Prim.Native.String.◌∷◌ c s) =
    let rest = without_last s in if s == "" then "" else Prim.Native.String.◌∷◌ c rest

unfoldable pub has_bracket : String → Bool
has_bracket Prim.Native.String.[] = false
has_bracket (Prim.Native.String.◌∷◌ c s) =
    let rest = has_bracket s in starts_with (Prim.Native.String.◌∷◌ c s) " (" || rest

-- `qualified`
unfoldable pub qualified : String → String → String
qualified label interface =
    if ends_with_bracket label && has_bracket label
    then concat (without_last label ∷ ", " ∷ interface ∷ ")" ∷ [])
    else concat (label ∷ " (" ∷ interface ∷ ")" ∷ [])

-- `scope_interfaces`: the ports for a block of an L1 scope, the units for a service under a transit
-- port, and all of them for any other service.
unfoldable pub own_interfaces : CheckContext → List String
own_interfaces ctx =
    let names = sorted (Dict.keys (table_at ctx.subject "interfaces")) in
    if ctx.scope.kind == "layer1"
    then filter is_physical names
    else if any is_transit ctx.scope.selectors.physical_interfaces
    then filter (λ name. not (is_physical name)) names
    else names

abbrev pub letter_in : List Char → List Char → Char → Char
letter_in (a ∷ xs) (b ∷ ys) c = if code a == code c then b else letter_in xs ys c
letter_in _ _ c = c

abbrev pub small : List Char
small = chars "abcdefghijklmnopqrstuvwxyz"

abbrev pub capital : List Char
capital = chars "ABCDEFGHIJKLMNOPQRSTUVWXYZ"

unfoldable pub lower : String → String
lower Prim.Native.String.[] = ""
lower (Prim.Native.String.◌∷◌ c s) = Prim.Native.String.◌∷◌ (letter_in capital small c) (lower s)

-- `state.capitalize()`, for the letters of ASCII
unfoldable pub capitalize : String → String
capitalize Prim.Native.String.[] = ""
capitalize (Prim.Native.String.◌∷◌ c s) =
    Prim.Native.String.◌∷◌ (letter_in small capital c) (lower s)

-- A column of the report and the field of the interface that it shows
abbrev pub state_columns : List (String × String)
state_columns =
    ("Interface admin status", "admin_status")
    ∷ ("Interface operational status", "oper_status")
    ∷ []

-- `state` and `was_state`
abbrev pub state_in : CheckContext → String → String → String
state_in ctx name key = text_at_or (table_at (table_at ctx.subject "interfaces") name) key unknown

abbrev pub named_state : String → Option Record → Option String
named_state key none = none
named_state key (some r) = some (text_at_or r key unknown)

abbrev pub state_before : CheckContext → String → String → Option String
state_before ctx name key =
    named_state key (present (Dict.get (baseline_table ctx "interfaces") name))

unfoldable pub state_outcome : CheckContext → String → Option String → Outcome
state_outcome ctx state was_state =
    let changed =
      unchanged_or broken ctx "interfaces" (not (state == unknown) && was_state == some state) in
    if state == "up" then ok else changed

abbrev pub capitalize_if : Option String → Option String
capitalize_if none = none
capitalize_if (some s) = some (capitalize s)

-- A row of `InterfaceStateCheck.run`
unfoldable pub state_row : CheckContext → String → String × String → Finding
state_row ctx name (label, key) =
    let state = state_in ctx name key in
    let was_state = state_before ctx name key in
    let outcome_of = state_outcome ctx state was_state in
    record (finding outcome_of
      (concat (name ∷ ": " ∷ key ∷ " " ∷ state ∷ suffix outcome_of ∷ []))) {
        label = some (if ctx.scope.kind == "layer1" then label else qualified label name);
        value = some (capitalize state);
        baseline_value = capitalize_if was_state;
        subject = some ((key, str state) ∷ []);
      }

unfoldable pub state_rows : CheckContext → List String → List Finding
state_rows ctx [] = []
state_rows ctx (name ∷ names) = map (state_row ctx name) state_columns ++ state_rows ctx names

abbrev pub no_interface_data : Finding
no_interface_data = record (finding Outcome.skip "pro tento scope nejsou data o rozhranich") {
  value = some "bez dat";
}

abbrev pub state_rows_or_skip : CheckContext → Dict String Value → List Finding
state_rows_or_skip ctx [] = no_interface_data ∷ []
state_rows_or_skip ctx (e ∷ es) = state_rows ctx (own_interfaces ctx)

-- `InterfaceStateCheck.run`
unfoldable pub run_interface_state : CheckContext → Result (List Finding)
run_interface_state ctx = returns (state_rows_or_skip ctx (table_at ctx.subject "interfaces"))

abbrev pub interface_state_check : Check
interface_state_check = record {
  id = "interface_state";
  title = "Stav rozhrani";
  label = "Interface status";
  mode = both;
  requires = "interfaces" ∷ [];
  service_types = none;
  service_subtypes = none;
  excluded_subtypes = none;
  default_severity = critical;
  layer1 = true;
  order = 0;
  run = run_interface_state;
}
