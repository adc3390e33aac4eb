-- ===== src/Engine/Align.antt =====
-- The baseline's facts under the names that the interfaces have in the subject
-- (`_aligned_baseline_data` in migration_validator/engine.py).
pub mod Laws
pub mod Names
mod Tests
use migration_status_check.Base.Dict
use migration_status_check.Base.Dict.{Dict, is_some}
use migration_status_check.Base.{
  ℕ, String, Bool, true, false, not, ◌&&◌, Option, none, some, List, [], ◌∷◌, map, ◌==◌, string_eq,
  if◌then◌else◌,
}
use migration_status_check.Models.Value.{Value, str, truthy}
use migration_status_check.Models.Value.Access.{
  value_at, table_at, rows_at, flag_at, as_dict, as_list, of_dict, of_list, of_rows,
}
use migration_status_check.Models.Scope.{Scope, Selectors}
use migration_status_check.Models.Scope.Select.{Record}
use migration_status_check.Models.Scope.Select.Areas.{select}

-- `zip(xs, ys)`
abbrev pub zip : List String → List String → Dict String String
zip (x ∷ xs) (y ∷ ys) = (x, y) ∷ zip xs ys
zip _ _ = []

-- `dict(pairs)` and `d.update(pairs)`
unfoldable pub update_pairs {ℓ} : {V : Type ℓ} → Dict String V → Dict String V → Dict String V
update_pairs d [] = d
update_pairs d ((k, v) ∷ rest) = update_pairs (Dict.put d k v) rest

-- The names of the baseline's interfaces in the subject, by position
unfoldable pub rename_of : Selectors → Selectors → Dict String String
rename_of before now =
    update_pairs
      (update_pairs (update_pairs [] (zip before.interfaces now.interfaces))
        (zip before.physical_interfaces now.physical_interfaces))
      (zip before.lag_members now.lag_members)

abbrev pub or_same : Option String → String → String
or_same none name = name
or_same (some new) name = new

-- `rename.get(name, name)`
unfoldable pub renamed : Dict String String → String → String
renamed rename name = or_same (Dict.get rename name) name

-- `{rename.get(k, k): v for k, v in d.items()}`: a later key takes the place of an equal one.
unfoldable pub rename_keys_from {ℓ} :
    {V : Type ℓ} → Dict String String → Dict String V → Dict String V → Dict String V
rename_keys_from rename done [] = done
rename_keys_from rename done ((k, v) ∷ d) =
    rename_keys_from rename (Dict.put done (renamed rename k) v) d

unfoldable pub rename_keys {ℓ} : {V : Type ℓ} → Dict String String → Dict String V → Dict String V
rename_keys rename d = rename_keys_from rename [] d

abbrev pub renamed_value : Dict String String → Value → Value
renamed_value rename (str name) = str (renamed rename name)
renamed_value rename v = v

-- `{**entry, key: rename.get(entry[key], entry[key])} if key in entry else entry`
unfoldable pub rename_field : String → Dict String String → Record → Record
rename_field key rename entry =
    if Dict.has entry key
    then Dict.put entry key (renamed_value rename (value_at entry key))
    else entry

-- `data[area] = change(data[area])` if the area holds anything
unfoldable pub change_area : (Value → Value) → Record → String → Record
change_area change facts area =
    if flag_at facts area then Dict.put facts area (change (value_at facts area)) else facts

unfoldable pub change_areas : (Value → Value) → List String → Record → Record
change_areas change [] facts = facts
change_areas change (area ∷ areas) facts = change_areas change areas (change_area change facts area)

-- A table by interface
unfoldable pub in_keys : Dict String String → Value → Value
in_keys rename v = of_dict (rename_keys rename (as_dict v))

-- A list of records with the field `interface`
unfoldable pub in_list : Dict String String → Value → Value
in_list rename v = of_rows (map (λ r. rename_field "interface" rename (as_dict r)) (as_list v))

-- A table of such records
unfoldable pub in_table : Dict String String → Value → Value
in_table rename v =
    of_dict (map (λ e. (e.0, of_dict (rename_field "interface" rename (as_dict e.1)))) (as_dict v))

-- The MAC counts: the interfaces of each instance
abbrev pub in_mac_instance : Dict String String → Record → Record
in_mac_instance rename facts =
    Dict.put facts "interfaces" (of_dict (rename_keys rename (table_at facts "interfaces")))

unfoldable pub in_mac : Dict String String → Value → Value
in_mac rename v =
    of_dict (map (λ e. (e.0, of_dict (in_mac_instance rename (as_dict e.1)))) (as_dict v))

-- `_renamed_group`
unfoldable pub renamed_group : Dict String String → Value → Value
renamed_group rename group =
    if truthy group && Dict.has (as_dict group) "entries"
    then of_dict (
        Dict.put (as_dict group) "entries"
          (of_rows (map (rename_field "name" rename) (rows_at (as_dict group) "entries"))))
    else group

unfoldable pub change_group : Dict String String → String → Record → Record
change_group rename key facts =
    if Dict.has facts key
    then Dict.put facts key (renamed_group rename (value_at facts key))
    else facts

-- `_renamed_instance`
unfoldable pub renamed_instance : Dict String String → Record → Record
renamed_instance rename facts =
    change_group rename "irb_interfaces" (change_group rename "local_interfaces" facts)

unfoldable pub in_instance_table : Dict String String → Value → Value
in_instance_table rename v =
    of_dict (map (λ e. (e.0, of_dict (renamed_instance rename (as_dict e.1)))) (as_dict v))

-- `_RENAMED_KEY_AREAS`
abbrev pub renamed_key_areas : List String
renamed_key_areas =
    "isis_adjacency" ∷ "isis_interface" ∷ "ldp_neighbor" ∷ "pim_neighbor" ∷ "mpls_interface"
    ∷ "igmp_group" ∷ []

-- The areas, one after another
unfoldable pub rename_areas : Dict String String → Record → Record
rename_areas rename facts = change_areas (in_table rename) ("bfd" ∷ "evpn_esi" ∷ []) (
    change_areas (in_list rename) ("arp" ∷ "nd" ∷ []) (
      change_areas (in_keys rename) renamed_key_areas (
        change_area (in_instance_table rename)
          (change_area (in_keys rename)
            (change_area (in_mac rename)
              (Dict.put facts "interfaces" (in_keys rename (value_at facts "interfaces")))
              "evpn_mac")
            "optics")
          "evpn_instance")))

abbrev pub renamed_unless_empty : Dict String String → Record → Record
renamed_unless_empty [] facts = facts
renamed_unless_empty (e ∷ rename) facts = rename_areas (e ∷ rename) facts

-- `_aligned_baseline_data`
unfoldable pub aligned_baseline_data : Scope → Scope → Record → Record → Record
aligned_baseline_data baseline_scope scope facts probes =
    renamed_unless_empty (rename_of baseline_scope.selectors scope.selectors)
      (select baseline_scope facts probes)
