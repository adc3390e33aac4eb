-- ===== src/Scoping/Mapping.antt =====
-- The manual mapping of services and the ignored ones (migration_validator/scoping/mapping.py).
-- A selector is read from a mapping whose values are texts or null.
use migration_status_check.Base.Dict
use migration_status_check.Base.Dict.{Dict}
use migration_status_check.Base.Results.{Result, returns, raises}
use migration_status_check.Base.{
  String, Bool, true, false, ◌&&◌, Option, none, some, List, [], any, ◌==◌, string_eq, option_eq,
  contains, if◌then◌else◌,
}
use migration_status_check.Models.Scope.{Scope}

pub record Selector : Type 0 where
  pub description : Option String
  pub service_type : Option String
  pub interface : Option String
  pub routing_instance : Option String

-- A wish that is not there is met by everything.
abbrev pub met_by : Option String → (String → Bool) → Bool
met_by none test = true
met_by (some wish) test = test wish

-- `scope.key is not None and scope.key.description == wish`
unfoldable pub has_description : Scope → String → Bool
has_description s wish = elim s.key [ none ↦ false | some k ↦ k.description == some wish ]

-- `scope.key is not None and scope.key.service_type == wish`
unfoldable pub has_service_type : Scope → String → Bool
has_service_type s wish = elim s.key [ none ↦ false | some k ↦ k.service_type == wish ]

-- `Selector.matches`
unfoldable pub matches : Selector → Scope → Bool
matches selector s =
    met_by selector.description (has_description s)
    && (met_by selector.service_type (has_service_type s)
        && (met_by selector.interface (contains s.selectors.interfaces)
            && met_by selector.routing_instance (contains s.selectors.routing_instances)))

abbrev pub is_none : Option String → Bool
is_none none = true
is_none (some x) = false

-- `data.get(key)`, where null is as good as no entry.
abbrev pub text_of : Dict String (Option String) → String → Option String
text_of data_of key = elim (Dict.get data_of key) [ none ↦ none | some v ↦ v ]

abbrev pub selector_of : Dict String (Option String) → Selector
selector_of d = record {
  description = text_of d "description";
  service_type = text_of d "service_type";
  interface = text_of d "interface";
  routing_instance = text_of d "routing_instance";
}

-- `Selector.from_dict`
unfoldable pub from_dict : Dict String (Option String) → Result Selector
from_dict d =
    if is_none (selector_of d).description
      && (is_none (selector_of d).service_type
          && (is_none (selector_of d).interface && is_none (selector_of d).routing_instance))
    then raises
        "prazdny selektor v mapping.yml - uved description, service_type, interface nebo routing_instance"
    else returns (selector_of d)

pub record MappingRule : Type 0 where
  pub baseline : Selector
  pub subject : Selector
  pub note : Option String

pub record Mapping : Type 0 where
  pub mappings : List MappingRule
  pub ignore : List Selector

-- `Mapping.is_ignored`
unfoldable pub is_ignored : Mapping → Scope → Bool
is_ignored m s = any (λ selector. matches selector s) m.ignore

unfoldable pub empty_mapping : Mapping
empty_mapping = record { mappings = []; ignore = [] }
