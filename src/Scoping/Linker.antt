-- ===== src/Scoping/Linker.antt =====
-- The links of the L3 part of a service to its L2 transits (migration_validator/scoping/linker.py).
-- The fact `evpn_instance` is the IRB entries of each instance.
pub mod Laws
mod Tests
use Prim.Native.Char.{code}
use migration_status_check.Base.Dict
use migration_status_check.Base.Dict.{Dict}
use migration_status_check.Base.Results.{Result, returns, raises, ◌>>=◌}
use migration_status_check.Base.{
  String, Bool, true, false, not, ◌&&◌, ◌||◌, Option, none, some, List, [], ◌∷◌, ◌++◌, ◌==◌,
  string_eq, nat_eq, option_eq, contains, filter, find?, if◌then◌else◌,
}
use migration_status_check.Models.Scope.{
  Scope, service_type, service_subtype, local_l2_subtype, is_empty,
}
use migration_status_check.Scoping.Matcher.{append_at, entries}

abbrev pub local_l2_instance : String
local_l2_instance = "default-switch"

abbrev pub l2_service_type : String
l2_service_type = "E-LAN"

-- `scope.service_type in L3_SERVICE_TYPES`
unfoldable pub is_l3 : Scope → Bool
is_l3 s = service_type s == some "Internet" || service_type s == some "IPVPN"

unfoldable pub is_l2 : Scope → Bool
is_l2 s = service_type s == some l2_service_type

unfoldable pub is_local : Scope → Bool
is_local s = service_subtype s == some local_l2_subtype

pub record ScopeLink : Type 0 where
  pub l3_scope_id : String
  pub l2_scope_id : String
  pub irb_interface : String
  pub l2_interface : String
  pub l3_context : String
  pub l2_instance : String

pub record IrbEntry : Type 0 where
  pub name : Option String
  pub l3_context : Option String

-- `_unit`: what follows the first dot (46)
unfoldable pub unit_of : String → Option String
unit_of String.[] = none
unit_of (String.◌∷◌ c s) = if code c == 46 then some s else unit_of s

-- `_matching_interface`
unfoldable pub matching_interface : Scope → String → Option String
matching_interface s unit = find? (λ name. unit_of name == some unit) s.selectors.interfaces

abbrev pub is_some : Option String → Bool
is_some none = false
is_some (some x) = true

-- `_carries_unit`
unfoldable pub carries_unit : Scope → String → Bool
carries_unit s unit = contains s.selectors.vlans unit || is_some (matching_interface s unit)

abbrev pub is_only : List String → String → Bool
is_only (x ∷ []) y = x == y
is_only _ y = false

-- `_context_matches`
unfoldable pub context_matches : Scope → String → Bool
context_matches s context =
    if context == "master"
    then is_empty s.selectors.routing_instances
    else is_only s.selectors.routing_instances context

unfoldable pub index_interfaces :
    Dict String (List Scope) → List String → Scope → Dict String (List Scope)
index_interfaces index [] s = index
index_interfaces index (name ∷ names) s = index_interfaces (append_at index name s) names s

-- `l3_by_interface`
unfoldable pub index_l3 : Dict String (List Scope) → List Scope → Dict String (List Scope)
index_l3 index [] = index
index_l3 index (s ∷ ss) =
    index_l3 (if is_l3 s then index_interfaces index s.selectors.interfaces s else index) ss

abbrev pub or_text : Option String → String → String
or_text none t = t
or_text (some s) t = s

-- The links so far, and the L2 scopes that have one
pub record Linked : Type 0 where
  pub links : List ScopeLink
  pub linked_l2 : List String

-- One link, if the L2 scope has none so far and there is exactly one L3 candidate
unfoldable pub add_link :
    Scope → String → String → String → String → String → List Scope → Linked → Linked
add_link s instance_of first_interface irb_name context unit (l3 ∷ []) acc =
    if contains acc.linked_l2 s.id then acc else record {
      links =
          acc.links
          ++ (record {
            l3_scope_id = l3.id;
            l2_scope_id = s.id;
            irb_interface = irb_name;
            l2_interface = or_text (matching_interface s unit) first_interface;
            l3_context = context;
            l2_instance = instance_of;
          }
              ∷ []);
      linked_l2 = s.id ∷ acc.linked_l2;
    }
add_link s instance_of first_interface irb_name context unit _ acc = acc

abbrev pub link_unit :
    Dict String (List Scope)
    → Scope
    → String
    → String
    → String
    → String
    → Option String
    → Linked
    → Linked
link_unit l3 s instance_of first_interface irb_name context none acc = acc
link_unit l3 s instance_of first_interface irb_name context (some unit) acc =
    if context == "" || not (carries_unit s unit)
    then acc
    else add_link s instance_of first_interface irb_name context unit
        (filter (λ c. context_matches c context) (entries l3 irb_name)) acc

-- One IRB entry of the instance of a scope
unfoldable pub link_entry :
    Dict String (List Scope) → Scope → String → String → IrbEntry → Linked → Linked
link_entry l3 s instance_of first_interface entry acc =
    let irb_name = or_text entry.name "" in
    link_unit l3 s instance_of first_interface irb_name (or_text entry.l3_context "")
      (unit_of irb_name) acc

unfoldable pub link_entries :
    Dict String (List Scope) → Scope → String → String → List IrbEntry → Linked → Linked
link_entries l3 s instance_of first_interface [] acc = acc
link_entries l3 s instance_of first_interface (e ∷ es) acc =
    link_entries l3 s instance_of first_interface es
      (link_entry l3 s instance_of first_interface e acc)

abbrev pub link_members :
    Dict String (List Scope)
    → Dict String (List IrbEntry)
    → Scope
    → List String
    → List String
    → Linked
    → Linked
link_members l3 evpn s (i ∷ is) (name ∷ names) acc = link_entries l3 s i name (entries evpn i) acc
link_members l3 evpn s _ _ acc = acc

unfoldable pub link_scope :
    Dict String (List Scope) → Dict String (List IrbEntry) → Scope → Linked → Linked
link_scope l3 evpn s acc =
    if not (is_l2 s) || is_local s
    then acc
    else link_members l3 evpn s s.selectors.routing_instances s.selectors.interfaces acc

unfoldable pub link_each :
    Dict String (List Scope) → Dict String (List IrbEntry) → List Scope → Linked → Linked
link_each l3 evpn [] acc = acc
link_each l3 evpn (s ∷ ss) acc = link_each l3 evpn ss (link_scope l3 evpn s acc)

-- `names[0]`
abbrev pub first_of : List String → Result String
first_of [] = raises "list index out of range"
first_of (x ∷ xs) = returns x

abbrev pub context_of : List String → String
context_of [] = "master"
context_of (i ∷ is) = i

abbrev pub local_link : Scope → String → List Scope → Result (List ScopeLink)
local_link s name (l3 ∷ []) = first_of l3.selectors.interfaces >>= λ irb_name. returns (
    record {
      l3_scope_id = l3.id;
      l2_scope_id = s.id;
      irb_interface = irb_name;
      l2_interface = name;
      l3_context = context_of l3.selectors.routing_instances;
      l2_instance = local_l2_instance;
    }
    ∷ [])
local_link s name _ = returns []

abbrev pub local_links_of : List Scope → Scope → List String → Result (List ScopeLink)
local_links_of l3_scopes s [] = returns []
local_links_of l3_scopes s (name ∷ names) =
    local_link s name (filter (λ l3. contains l3.selectors.l2_interfaces name) l3_scopes)

-- The loop of `_link_local_scopes`
unfoldable pub link_local_from : List Scope → List Scope → Result (List ScopeLink)
link_local_from l3_scopes [] = returns []
link_local_from l3_scopes (s ∷ ss) =
    (if is_l2 s && is_local s
      then local_links_of l3_scopes s s.selectors.interfaces
      else returns [])
    >>= λ ls. link_local_from l3_scopes ss >>= λ rest. returns (ls ++ rest)

-- `_link_local_scopes`
unfoldable pub link_local_scopes : List Scope → Result (List ScopeLink)
link_local_scopes scopes = link_local_from (filter is_l3 scopes) scopes

-- The links of `link_scopes` that come from the EVPN instances
unfoldable pub link_evpn : List Scope → Dict String (List IrbEntry) → Linked
link_evpn scopes evpn =
    link_each (index_l3 [] scopes) evpn scopes (record { links = []; linked_l2 = [] })

-- `link_scopes`
unfoldable pub link_scopes : List Scope → Dict String (List IrbEntry) → Result (List ScopeLink)
link_scopes scopes evpn =
    link_local_scopes scopes >>= λ local. returns ((link_evpn scopes evpn).links ++ local)
