-- ===== src/Canboat/Fields.antt =====
-- canboat/canboatpgns.go: `Field.Decode`.
use go_nmea_client.Common.{
  ℕ, ◌+◌, List, Bool, true, Result, ok, err, panic, ◌==◌, if◌then◌else◌, u64,
}
use go_nmea_client.RawData as RawData
use go_nmea_client.RawData.{
  decode_bytes, decode_variable_int, decode_variable_uint, decode_string_fix, decode_string_lz,
  decode_string_lau, decode_date, decode_decimal, decode_float,
}
use go_nmea_client.RawData.Values.{
  Floats, one, Value, string, bytes, float64, int64, uint64, duration, date_time, FieldValue,
  decode_time,
}
use go_nmea_client.Canboat.Database.{
  Field, FieldType, number, float, decimal, lookup, indirect_lookup, bit_lookup, time, date,
  string_fix, string_lz, string_lau, binary, reserved, spare, mmsi, variable,
}

-- What belongs to Go's library, an argument.
pub record Library : Type 0 where
  pub floats : Floats
  pub utf16 : Bool → List ℕ → Result RawData.Error (List ℕ)

pub data FieldError : Type 0 where
  unsupported_field_type : FieldError
  raw_data : RawData.Error → FieldError

-- `if err != nil { return ..., err }`, and the value under the field's id.
unfoldable pub named {ℓ} :
    {A : Type ℓ} → Field → (A → Value) → Result RawData.Error A → Result FieldError FieldValue
named f value (ok a) = ok (record { id = f.id; value = value a })
named f value (err e) = err (raw_data e)
named f value panic = panic

-- The same, for decoders that say how many bits they read.
unfoldable pub measured {ℓ} :
    {A : Type ℓ}
    → Field
    → (A → Value)
    → Result RawData.Error (A × ℕ)
    → Result FieldError FieldValue × ℕ
measured f value (ok (a, bits)) = (ok (record { id = f.id; value = value a }), bits)
measured f value (err e) = (err (raw_data e), 0)
measured f value panic = (panic, 0)

unfoldable pub signed_value : Floats → Field → ℕ → Value
signed_value fl f v =
    let sum = u64 (v + f.offset) in
    if f.resolution == one then int64 sum else float64 (fl.mul (fl.of_int64 sum) f.resolution)

unfoldable pub unsigned_value : Floats → Field → ℕ → Value
unsigned_value fl f v =
    let sum = u64 (v + f.offset) in
    if f.resolution == one then uint64 sum else float64 (fl.mul (fl.of_uint64 sum) f.resolution)

unfoldable pub decode_number : Floats → Field → List ℕ → ℕ → Result FieldError FieldValue
decode_number fl f raw offset =
    if f.signed
    then named f (signed_value fl f) (decode_variable_int raw offset f.bit_length true)
    else named f (unsigned_value fl f) (decode_variable_uint raw offset f.bit_length)

-- The switch over the types: the value, and the bits that were read.
unfoldable pub decode_as :
    Library → FieldType → Field → List ℕ → ℕ → Result FieldError FieldValue × ℕ
decode_as lib number f raw offset = (decode_number lib.floats f raw offset, f.bit_length)
decode_as lib lookup f raw offset = (decode_number lib.floats f raw offset, f.bit_length)
decode_as lib indirect_lookup f raw offset = (decode_number lib.floats f raw offset, f.bit_length)
decode_as lib bit_lookup f raw offset = (decode_number lib.floats f raw offset, f.bit_length)
decode_as lib reserved f raw offset =
    measured f bytes (decode_bytes raw offset f.bit_length f.bit_length_variable)
decode_as lib spare f raw offset =
    measured f bytes (decode_bytes raw offset f.bit_length f.bit_length_variable)
decode_as lib binary f raw offset =
    measured f bytes (decode_bytes raw offset f.bit_length f.bit_length_variable)
decode_as lib time f raw offset =
    (named f duration (decode_time lib.floats raw offset f.bit_length f.resolution), f.bit_length)
decode_as lib mmsi f raw offset =
    (named f uint64 (decode_variable_uint raw offset f.bit_length), f.bit_length)
decode_as lib string_fix f raw offset =
    (named f string (decode_string_fix raw offset f.bit_length), f.bit_length)
decode_as lib string_lz f raw offset = measured f string (decode_string_lz raw offset f.bit_length)
decode_as lib string_lau f raw offset = measured f string (decode_string_lau lib.utf16 raw offset)
decode_as lib date f raw offset =
    (named f date_time (decode_date raw offset f.bit_length), f.bit_length)
decode_as lib decimal f raw offset =
    (named f uint64 (decode_decimal raw offset f.bit_length), f.bit_length)
decode_as lib float f raw offset = (
  named f (λ v. float64 (lib.floats.of_float32 v)) (decode_float raw offset f.bit_length),
  f.bit_length,
)
decode_as lib variable f raw offset = (err unsupported_field_type, 0)

unfoldable pub field_decode : Library → Field → List ℕ → ℕ → Result FieldError FieldValue × ℕ
field_decode lib f raw offset = decode_as lib f.field_type f raw offset
