-- ===== src/Models/Value.antt =====
-- The values of a dynamic dictionary: what YAML, JSON and the `Any` fields of the program hold.
pub mod Access
use migration_status_check.Base.Integer.{ℤ, pos}
use migration_status_check.Base.{ℕ, zero, String, Bool, true, false, not, ◌==◌, string_eq}

-- The floats that are no numbers
pub data NonFinite : Type 0 where
  inf neg_inf nan : NonFinite

-- `real n k` is n / 10 ^ k.
mutual
  pub data Value : Type 0 where
    null : Value
    bool : Bool → Value
    int : ℤ → Value
    real : ℤ → ℕ → Value
    nonfinite : NonFinite → Value
    str : String → Value
    seq : Items → Value
    dict : Fields → Value

  pub data Fields : Type 0 where
    no_fields : Fields
    field : (key : String) → Value → (rest : Fields) → Fields

  pub data Items : Type 0 where
    no_items : Items
    item : (first : Value) → (rest : Items) → Items

abbrev pub is_zero : ℤ → Bool
is_zero (pos zero) = true
is_zero _ = false

-- `bool(value)`
abbrev pub truthy : Value → Bool
truthy null = false
truthy (bool b) = b
truthy (int n) = not (is_zero n)
truthy (real n k) = not (is_zero n)
truthy (nonfinite x) = true
truthy (str s) = not (s == "")
truthy (seq no_items) = false
truthy (seq (item v vs)) = true
truthy (dict no_fields) = false
truthy (dict (field k v fs)) = true
