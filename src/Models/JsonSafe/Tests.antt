-- ===== src/Models/JsonSafe/Tests.antt =====
-- Tests of the encoding of infinite floats.
use migration_status_check.Base.{String, ◌≡◌, ◌≢◌, ◌==◌, string_eq, false, arith, eq_iff, refl}
use migration_status_check.Base.Integer.{pos}
use migration_status_check.Models.Value.{
  Value, real, nonfinite, str, dict, field, no_fields, seq, item, no_items, neg_inf,
}
use migration_status_check.Models.JsonSafe.{encode_nonfinite, decode_nonfinite}
use migration_status_check.Models.JsonSafe.Laws.{
  HasNoToken, IsFinite, decode_nonfinite-encode_nonfinite,
}

-- The optical levels of a port without a module
abbrev levels : Value
levels = dict (
    field "rx" (nonfinite neg_inf)
      (field "lanes" (seq (item (str "up") (item (real (pos 21) 1) no_items))) no_fields))

encoded :
    encode_nonfinite (seq (item (nonfinite neg_inf) no_items)) ≡ seq (item (str "-Inf") no_items)
unfolding encode_nonfinite
encoded = refl

up_is_not : (t : String) → ("up" == t) ≡ false → ◌≢◌ {A = String} "up" t
up_is_not t q e = ground (arith, q, (eq_iff {A = String} "up" t).1 e)

levels-HasNoToken : HasNoToken levels
unfolding HasNoToken
levels-HasNoToken =
    (tt, (((up_is_not "Inf" refl, up_is_not "-Inf" refl, up_is_not "NaN" refl), (tt, tt)), tt))

decode_nonfinite-encode_nonfinite_example :
    IsFinite (encode_nonfinite levels) × (decode_nonfinite (encode_nonfinite levels) ≡ levels)
decode_nonfinite-encode_nonfinite_example =
    decode_nonfinite-encode_nonfinite levels levels-HasNoToken
