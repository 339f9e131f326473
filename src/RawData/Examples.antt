-- ===== src/RawData/Examples.antt =====
-- The theorems on fieldvalue.go at short messages.
use go_nmea_client.Common.{
  ℕ, ◌-◌, ◌^◌, ◌≡◌, refl, inl, inr, List, [], ◌∷◌, arith, ok, err, ltb, ◌==◌, if◌then◌else◌, All,
  IsByte,
}
use go_nmea_client.RawData.{
  no_data, out_of_range, reserved, special, extract, slice, mask_last, decimal_loop,
  decode_variable_int, decode_variable_uint, decode_bytes, decode_decimal,
}
use go_nmea_client.Common.Bits.{bit}
use go_nmea_client.RawData.Uint.{field, decode_variable_uint_lem}
use go_nmea_client.RawData.Text.{IsPair}

-- Two bytes and a half of it, from bit 4 on, is 0x5123.
abbrev packed : List ℕ
packed = 0x3f ∷ 0x12 ∷ 0x95 ∷ []

packed_bytes : All IsByte packed
packed_bytes = (omega arith, (omega arith, (omega arith, tt)))

decode_variable_uint-packed : decode_variable_uint packed 4 16 ≡ ok 0x5123
unfolding decode_variable_uint decode_variable_int slice special
decode_variable_uint-packed = refl

field-packed : field packed 4 16 ≡ 0x5123
unfolding field bit
field-packed = refl

decode_variable_uint_lem_example : decode_variable_uint packed 4 16 ≡ (
    if ltb 16 8
    then ok (field packed 4 16)
    else if field packed 4 16 == 2 ^ 16 - 1
    then err no_data
    else if field packed 4 16 == 2 ^ 16 - 2
    then err out_of_range
    else if field packed 4 16 == 2 ^ 16 - 3
    then err reserved
    else ok (field packed 4 16))
decode_variable_uint_lem_example =
    decode_variable_uint_lem packed 4 16 (omega arith) (omega arith) (omega arith) (omega arith)
      packed_bytes

-- "AB" and padding.
abbrev label : List ℕ
label = 0 ∷ 65 ∷ 66 ∷ 255 ∷ 255 ∷ []

-- 1234, the first byte left out.
abbrev digits : List ℕ
digits = 255 ∷ 12 ∷ 34 ∷ []

digits_pairs : All IsPair (34 ∷ 12 ∷ 255 ∷ [])
unfolding IsPair
digits_pairs = (inl (omega arith), (inl (omega arith), (inr refl, tt)))

decode_decimal-digits : decode_decimal digits 0 24 ≡ ok 1234
unfolding decode_decimal decode_bytes extract slice mask_last decimal_loop
decode_decimal-digits = refl
