-- ===== src/Models/JsonSafe.antt =====
-- Floats that strict JSON has no token for (migration_validator/models/jsonsafe.py).
pub mod Laws
mod Tests
use migration_status_check.Base.{String, ◌==◌, string_eq, if◌then◌else◌}
use migration_status_check.Models.Value.{
  Value, Items, Fields, NonFinite, inf, neg_inf, nan, null, bool, int, real, nonfinite, str, seq,
  dict, no_fields, field, no_items, item,
}

abbrev pub token : NonFinite → String
token inf = "Inf"
token neg_inf = "-Inf"
token nan = "NaN"

-- `encode_nonfinite`
unfoldable mutual
  pub encode_nonfinite : Value → Value
  encode_nonfinite null = null
  encode_nonfinite (bool b) = bool b
  encode_nonfinite (int n) = int n
  encode_nonfinite (real n k) = real n k
  encode_nonfinite (nonfinite x) = str (token x)
  encode_nonfinite (str s) = str s
  encode_nonfinite (seq vs) = seq (encode_items vs)
  encode_nonfinite (dict fs) = dict (encode_fields fs)

  pub encode_items : Items → Items
  encode_items no_items = no_items
  encode_items (item v vs) = item (encode_nonfinite v) (encode_items vs)

  pub encode_fields : Fields → Fields
  encode_fields no_fields = no_fields
  encode_fields (field k v fs) = field k (encode_nonfinite v) (encode_fields fs)

-- `_TOKENS.get(value, value)`
unfoldable pub untoken : String → Value
untoken s =
    if s == "Inf"
    then nonfinite inf
    else if s == "-Inf"
    then nonfinite neg_inf
    else if s == "NaN"
    then nonfinite nan
    else str s

-- `decode_nonfinite`
unfoldable mutual
  pub decode_nonfinite : Value → Value
  decode_nonfinite null = null
  decode_nonfinite (bool b) = bool b
  decode_nonfinite (int n) = int n
  decode_nonfinite (real n k) = real n k
  decode_nonfinite (nonfinite x) = nonfinite x
  decode_nonfinite (str s) = untoken s
  decode_nonfinite (seq vs) = seq (decode_items vs)
  decode_nonfinite (dict fs) = dict (decode_fields fs)

  pub decode_items : Items → Items
  decode_items no_items = no_items
  decode_items (item v vs) = item (decode_nonfinite v) (decode_items vs)

  pub decode_fields : Fields → Fields
  decode_fields no_fields = no_fields
  decode_fields (field k v fs) = field k (decode_nonfinite v) (decode_fields fs)
