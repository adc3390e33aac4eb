-- ===== src/Models/JsonSafe/Laws.antt =====
-- What encoding and decoding do to a value (migration_validator/models/jsonsafe.py).
use migration_status_check.Base.{String, ◌≡◌, ◌≢◌, refl, ap, string_eq, eq_false_of_ne}
use migration_status_check.Models.Value.{
  NonFinite, inf, neg_inf, nan, Value, Items, Fields, null, bool, int, real, nonfinite, str, seq,
  dict, no_fields, field, no_items, item,
}
use migration_status_check.Models.JsonSafe.{
  token, untoken, encode_nonfinite, encode_items, encode_fields, decode_nonfinite, decode_items,
  decode_fields,
}

-- No text in it is one of the three tokens.
unfoldable mutual
  pub HasNoToken : Value → Type 0
  HasNoToken null = Unit
  HasNoToken (bool b) = Unit
  HasNoToken (int n) = Unit
  HasNoToken (real n k) = Unit
  HasNoToken (nonfinite x) = Unit
  HasNoToken (str s) = (s ≢ "Inf") × (s ≢ "-Inf") × (s ≢ "NaN")
  HasNoToken (seq vs) = ItemsHaveNoToken vs
  HasNoToken (dict fs) = FieldsHaveNoToken fs

  pub ItemsHaveNoToken : Items → Type 0
  ItemsHaveNoToken no_items = Unit
  ItemsHaveNoToken (item v vs) = HasNoToken v × ItemsHaveNoToken vs

  pub FieldsHaveNoToken : Fields → Type 0
  FieldsHaveNoToken no_fields = Unit
  FieldsHaveNoToken (field k v fs) = HasNoToken v × FieldsHaveNoToken fs

-- No float without a token of strict JSON is left.
mutual
  pub IsFinite : Value → Type 0
  IsFinite null = Unit
  IsFinite (bool b) = Unit
  IsFinite (int n) = Unit
  IsFinite (real n k) = Unit
  IsFinite (nonfinite x) = ⊥
  IsFinite (str s) = Unit
  IsFinite (seq vs) = ItemsAreFinite vs
  IsFinite (dict fs) = FieldsAreFinite fs

  pub ItemsAreFinite : Items → Type 0
  ItemsAreFinite no_items = Unit
  ItemsAreFinite (item v vs) = IsFinite v × ItemsAreFinite vs

  pub FieldsAreFinite : Fields → Type 0
  FieldsAreFinite no_fields = Unit
  FieldsAreFinite (field k v fs) = IsFinite v × FieldsAreFinite fs

mutual
  unfolding encode_nonfinite IsFinite

  encode_nonfinite-IsFinite : (v : Value) → IsFinite (encode_nonfinite v)
  encode_nonfinite-IsFinite null = tt
  encode_nonfinite-IsFinite (bool b) = tt
  encode_nonfinite-IsFinite (int n) = tt
  encode_nonfinite-IsFinite (real n k) = tt
  encode_nonfinite-IsFinite (nonfinite x) = tt
  encode_nonfinite-IsFinite (str s) = tt
  encode_nonfinite-IsFinite (seq vs) = encode_items-AreFinite vs
  encode_nonfinite-IsFinite (dict fs) = encode_fields-AreFinite fs

  encode_items-AreFinite : (vs : Items) → ItemsAreFinite (encode_items vs)
  encode_items-AreFinite no_items = tt
  encode_items-AreFinite (item v vs) = (encode_nonfinite-IsFinite v, encode_items-AreFinite vs)

  encode_fields-AreFinite : (fs : Fields) → FieldsAreFinite (encode_fields fs)
  encode_fields-AreFinite no_fields = tt
  encode_fields-AreFinite (field k v fs) = (encode_nonfinite-IsFinite v, encode_fields-AreFinite fs)

untoken-text : (s : String) → s ≢ "Inf" → s ≢ "-Inf" → s ≢ "NaN" → untoken s ≡ str s
unfolding untoken
untoken-text s a b c =
    rw (eq_false_of_ne s "Inf" a, eq_false_of_ne s "-Inf" b, eq_false_of_ne s "NaN" c) refl

untoken-token : (x : NonFinite) → untoken (token x) ≡ nonfinite x
unfolding untoken
untoken-token inf = refl
untoken-token neg_inf = refl
untoken-token nan = refl

mutual
  unfolding encode_nonfinite decode_nonfinite HasNoToken

  decode_value : (v : Value) → HasNoToken v → decode_nonfinite (encode_nonfinite v) ≡ v
  decode_value null h = refl
  decode_value (bool b) h = refl
  decode_value (int n) h = refl
  decode_value (real n k) h = refl
  decode_value (nonfinite x) h = untoken-token x
  decode_value (str s) (a, b, c) = untoken-text s a b c
  decode_value (seq vs) h = ap seq (decode_items_of vs h)
  decode_value (dict fs) h = ap dict (decode_fields_of fs h)

  decode_items_of : (vs : Items) → ItemsHaveNoToken vs → decode_items (encode_items vs) ≡ vs
  decode_items_of no_items h = refl
  decode_items_of (item v vs) h = cc (decode_value v h.0, decode_items_of vs h.1)

  decode_fields_of : (fs : Fields) → FieldsHaveNoToken fs → decode_fields (encode_fields fs) ≡ fs
  decode_fields_of no_fields h = refl
  decode_fields_of (field k v fs) h = cc (decode_value v h.0, decode_fields_of fs h.1)

-- What is encoded has a strict JSON form, and decoding it gives the value back, where none of the
-- value's own texts is one of the three tokens.
pub decode_nonfinite-encode_nonfinite :
    (v : Value)
    → HasNoToken v
    → IsFinite (encode_nonfinite v) × (decode_nonfinite (encode_nonfinite v) ≡ v)
decode_nonfinite-encode_nonfinite v h = (encode_nonfinite-IsFinite v, decode_value v h)
