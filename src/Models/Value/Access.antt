-- ===== src/Models/Value/Access.antt =====
-- Reading dynamic values as the program does: dictionaries, lists and texts of a fact. A shape that
-- the collectors do not produce reads as empty.
use Prim.Native.Nat.{ℕ, suc}
use migration_status_check.Base.Dict
use migration_status_check.Base.Dict.{Dict}
use migration_status_check.Base.Decimal.{show_int, show_decimal}
use migration_status_check.Base.Integer.{ℤ, pos, negsuc}
use migration_status_check.Base.{
  String, ◌≡◌, refl, ap, Bool, true, false, Option, none, some, List, [], ◌∷◌, map, concat,
  string_eq,
}
use migration_status_check.Models.Value.{
  Value, Items, Fields, null, bool, int, real, nonfinite, str, seq, dict, no_fields, field,
  no_items, item, truthy, NonFinite, inf, neg_inf, nan,
}

abbrev pub entries_of : Fields → Dict String Value
entries_of no_fields = []
entries_of (field k v fs) = (k, v) ∷ entries_of fs

abbrev pub fields_of : Dict String Value → Fields
fields_of [] = no_fields
fields_of ((k, v) ∷ d) = field k v (fields_of d)

pub entries_of-fields_of : (d : Dict String Value) → entries_of (fields_of d) ≡ d
entries_of-fields_of [] = refl
entries_of-fields_of ((k, v) ∷ d) = ap (◌∷◌ (k, v)) (entries_of-fields_of d)

abbrev pub list_of : Items → List Value
list_of no_items = []
list_of (item v vs) = v ∷ list_of vs

abbrev pub items_of : List Value → Items
items_of [] = no_items
items_of (v ∷ vs) = item v (items_of vs)

pub list_of-items_of : (vs : List Value) → list_of (items_of vs) ≡ vs
list_of-items_of [] = refl
list_of-items_of (v ∷ vs) = ap (λ ws. v ∷ ws) (list_of-items_of vs)

abbrev pub as_dict : Value → Dict String Value
as_dict (dict fs) = entries_of fs
as_dict _ = []

abbrev pub as_list : Value → List Value
as_list (seq vs) = list_of vs
as_list _ = []

abbrev pub of_dict : Dict String Value → Value
of_dict d = dict (fields_of d)

abbrev pub of_list : List Value → Value
of_list vs = seq (items_of vs)

abbrev pub of_rows : List (Dict String Value) → Value
of_rows rs = of_list (map of_dict rs)

abbrev pub of_texts : List String → Value
of_texts ss = of_list (map str ss)

abbrev pub or_null : Option Value → Value
or_null none = null
or_null (some v) = v

-- `d.get(key)`, `d.get(key, {})` and `d.get(key) or []`
unfoldable pub value_at : Dict String Value → String → Value
value_at d key = or_null (Dict.get d key)

unfoldable pub table_at : Dict String Value → String → Dict String Value
table_at d key = as_dict (value_at d key)

unfoldable pub rows_at : Dict String Value → String → List (Dict String Value)
rows_at d key = map as_dict (as_list (value_at d key))

unfoldable pub flag_at : Dict String Value → String → Bool
flag_at d key = truthy (value_at d key)

abbrev pub show_sign : ℤ → ℕ → String
show_sign (pos n) k = show_decimal n k
show_sign (negsuc n) k = concat ("-" ∷ show_decimal (suc n) k ∷ [])

abbrev pub show_bool : Bool → String
show_bool true = "True"
show_bool false = "False"

abbrev pub show_nonfinite : NonFinite → String
show_nonfinite inf = "inf"
show_nonfinite neg_inf = "-inf"
show_nonfinite nan = "nan"

-- `str(value)`; inside a container a text is quoted, its escapes are left out.
unfoldable mutual
  pub py_str : Value → String
  py_str null = "None"
  py_str (bool b) = show_bool b
  py_str (int n) = show_int n
  py_str (real n k) = show_sign n k
  py_str (nonfinite x) = show_nonfinite x
  py_str (str s) = s
  py_str (seq vs) = concat ("[" ∷ repr_items vs ∷ "]" ∷ [])
  py_str (dict fs) = concat ("{" ∷ repr_fields fs ∷ "}" ∷ [])

  pub repr : Value → String
  repr null = "None"
  repr (bool b) = show_bool b
  repr (int n) = show_int n
  repr (real n k) = show_sign n k
  repr (nonfinite x) = show_nonfinite x
  repr (str s) = concat ("'" ∷ s ∷ "'" ∷ [])
  repr (seq vs) = concat ("[" ∷ repr_items vs ∷ "]" ∷ [])
  repr (dict fs) = concat ("{" ∷ repr_fields fs ∷ "}" ∷ [])

  pub repr_items : Items → String
  repr_items no_items = ""
  repr_items (item v no_items) = repr v
  repr_items (item v (item w vs)) = concat (repr v ∷ ", " ∷ repr_items (item w vs) ∷ [])

  pub repr_fields : Fields → String
  repr_fields no_fields = ""
  repr_fields (field k v no_fields) = concat ("'" ∷ k ∷ "': " ∷ repr v ∷ [])
  repr_fields (field k v (field j w fs)) =
      concat ("'" ∷ k ∷ "': " ∷ repr v ∷ ", " ∷ repr_fields (field j w fs) ∷ [])

-- `str(d.get(key))`
unfoldable pub text_at : Dict String Value → String → String
text_at d key = py_str (value_at d key)

abbrev pub text_or : String → Option Value → String
text_or default none = default
text_or default (some v) = py_str v

-- `str(d.get(key, default))`
unfoldable pub text_at_or : Dict String Value → String → String → String
text_at_or d key default = text_or default (Dict.get d key)

-- `d.get(key) == text` for an optional text
abbrev pub is_text : Value → Option String → Bool
is_text null none = true
is_text (str s) (some t) = string_eq.test s t
is_text _ _ = false
