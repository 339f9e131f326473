-- ===== src/Canboat/Decoder/Messages.antt =====
-- canboat/decoder.go: the values of enumerations, and `Decode` as a whole.
use go_nmea_client.Common.{
  ℕ, List, [], ◌∷◌, Option, none, some, Bool, true, false, Result, ok, err, panic, ◌>>=◌, ltb, ◌==◌,
  ◌&&◌, ◌||◌, if◌then◌else◌, u32, map,
}
use go_nmea_client.Canbus.{CanBusHeader}
use go_nmea_client.Nmea.{RawMessage}
use go_nmea_client.RawData.Values as Values
use go_nmea_client.RawData.Values.{Value, uint64, enum, enums, FieldValue}
use go_nmea_client.Canboat as Canboat
use go_nmea_client.Canboat.{
  unknown_enum_type, unknown_enum_value, EnumValue, BitEnumValue, IndirectEnumValue, find_value,
  find_bit_values, find_indirect_value,
}
use go_nmea_client.Canboat.Database.{Field, FieldType, Pgn, lookup, indirect_lookup, bit_lookup}
use go_nmea_client.Canboat.Fields.{Library}
use go_nmea_client.Canboat.Decoder.{
  DecoderConfig, Decoder, DecodeError, not_uint64, no_indirect_field, enum_not_decoded, Decoded,
  find_pgn, decode,
}
use go_nmea_client.Canboat.Decoder.Repeated.{
  Item, single, value_set, singles, decode_with_repeated_fields,
}

-- "UNKNOWN ENUM VALUE", "UNKNOWN BIT ENUM VALUE", "UNKNOWN INDIRECT ENUM VALUE"
abbrev pub unknown_enum : List ℕ
unknown_enum =
    b'U' ∷ b'N' ∷ b'K' ∷ b'N' ∷ b'O' ∷ b'W' ∷ b'N' ∷ b' ' ∷ b'E' ∷ b'N' ∷ b'U' ∷ b'M' ∷ b' ' ∷ b'V'
    ∷ b'A' ∷ b'L' ∷ b'U' ∷ b'E' ∷ []

abbrev pub unknown_bit_enum : List ℕ
unknown_bit_enum =
    b'U' ∷ b'N' ∷ b'K' ∷ b'N' ∷ b'O' ∷ b'W' ∷ b'N' ∷ b' ' ∷ b'B' ∷ b'I' ∷ b'T' ∷ b' ' ∷ b'E' ∷ b'N'
    ∷ b'U' ∷ b'M' ∷ b' ' ∷ b'V' ∷ b'A' ∷ b'L' ∷ b'U' ∷ b'E' ∷ []

abbrev pub unknown_indirect_enum : List ℕ
unknown_indirect_enum =
    b'U' ∷ b'N' ∷ b'K' ∷ b'N' ∷ b'O' ∷ b'W' ∷ b'N' ∷ b' ' ∷ b'I' ∷ b'N' ∷ b'D' ∷ b'I' ∷ b'R' ∷ b'E'
    ∷ b'C' ∷ b'T' ∷ b' ' ∷ b'E' ∷ b'N' ∷ b'U' ∷ b'M' ∷ b' ' ∷ b'V' ∷ b'A' ∷ b'L' ∷ b'U' ∷ b'E' ∷ []

unfoldable pub enum_number : Value → Result DecodeError ℕ
enum_number (uint64 v) = ok v
enum_number _ = err not_uint64

unfoldable pub lookup_value : Field → ℕ → Result Canboat.Error EnumValue → Result DecodeError Value
lookup_value f val32 (ok ev) = ok (enum (record { value = ev.value; code = ev.name }))
lookup_value f val32 (err unknown_enum_value) =
    ok (enum (record { value = val32; code = unknown_enum }))
lookup_value f val32 (err unknown_enum_type) = err (enum_not_decoded f.id unknown_enum_type)
lookup_value f val32 panic = panic

abbrev pub bit_value : BitEnumValue → Values.EnumValue
bit_value ev = record { value = ev.bit; code = ev.name }

unfoldable pub bit_lookup_value :
    Field → ℕ → Result Canboat.Error (List BitEnumValue) → Result DecodeError Value
bit_lookup_value f val32 (ok evs) = ok (enums (map bit_value evs))
bit_lookup_value f val32 (err unknown_enum_value) =
    ok (enums (record { value = val32; code = unknown_bit_enum } ∷ []))
bit_lookup_value f val32 (err unknown_enum_type) = err (enum_not_decoded f.id unknown_enum_type)
bit_lookup_value f val32 panic = panic

unfoldable pub indirect_lookup_value :
    Field → ℕ → Result Canboat.Error IndirectEnumValue → Result DecodeError Value
indirect_lookup_value f val32 (ok ev) = ok (enum (record { value = val32; code = ev.name }))
indirect_lookup_value f val32 (err unknown_enum_value) =
    ok (enum (record { value = val32; code = unknown_indirect_enum }))
indirect_lookup_value f val32 (err unknown_enum_type) =
    err (enum_not_decoded f.id unknown_enum_type)
indirect_lookup_value f val32 panic = panic

-- The first field of the order; the field of a set has the order 0 and no value.
unfoldable pub indirect_number : ℕ → List Item → Result DecodeError ℕ
indirect_number order [] = err no_indirect_field
indirect_number order (single d ∷ items) =
    let rest = indirect_number order items in
    if order == d.field.order then enum_number d.value.value else rest
indirect_number order (value_set id groups ∷ items) =
    let rest = indirect_number order items in if order == 0 then err not_uint64 else rest

unfoldable pub enum_value_as :
    Decoder → FieldType → Field → ℕ → List Item → Value → Result DecodeError Value
enum_value_as d lookup f val32 items v =
    lookup_value f val32 (find_value d.lookups f.lookup_enumeration val32)
enum_value_as d bit_lookup f val32 items v =
    bit_lookup_value f val32 (find_bit_values d.bit_lookups f.lookup_bit_enumeration val32)
enum_value_as d indirect_lookup f val32 items v =
    indirect_number f.lookup_indirect_enumeration_field_order items >>= λ indirect.
    indirect_lookup_value f val32
      (find_indirect_value d.indirect_lookups f.lookup_indirect_enumeration val32 (u32 indirect))
enum_value_as d _ f val32 items v = ok v

unfoldable pub decode_to_enum : Decoder → Decoded → List Item → Result DecodeError FieldValue
decode_to_enum d df items = enum_number df.value.value >>= λ val.
    enum_value_as d df.field.field_type df.field (u32 val) items df.value.value >>= λ v.
    ok (record { id = df.value.id; value = v })

unfoldable pub is_lookup : FieldType → Bool
is_lookup lookup = true
is_lookup indirect_lookup = true
is_lookup bit_lookup = true
is_lookup _ = false

unfoldable pub post_process_field : Decoder → List Item → Decoded → Result DecodeError FieldValue
post_process_field d items df =
    if d.config.decode_lookups_to_enum_type && is_lookup df.field.field_type
    then decode_to_enum d df items
    else ok df.value

-- The fields of one group, among which an indirect field is looked for.
unfoldable pub post_process_all :
    Decoder → List Item → List Decoded → Result DecodeError (List FieldValue)
post_process_all d items [] = ok []
post_process_all d items (df ∷ dfs) = do
  v ← post_process_field d items df
  vs ← post_process_all d items dfs
  ok (v ∷ vs)

unfoldable pub post_process_groups :
    Decoder → List (List Decoded) → Result DecodeError (List (List FieldValue))
post_process_groups d [] = ok []
post_process_groups d (fs ∷ groups) = do
  vs ← post_process_all d (singles fs) fs
  rest ← post_process_groups d groups
  ok (vs ∷ rest)

-- A value of the message: of a field, or of a set of fields.
pub data Entry : Type 0 where
  entry : FieldValue → Entry
  fieldsets : List ℕ → List (List FieldValue) → Entry

unfoldable pub post_process_item : Decoder → List Item → Item → Result DecodeError Entry
post_process_item d items (single df) = post_process_field d items df >>= λ v. ok (entry v)
post_process_item d items (value_set id groups) =
    post_process_groups d groups >>= λ fs. ok (fieldsets id fs)

unfoldable pub post_process_items :
    Decoder → List Item → List Item → Result DecodeError (List Entry)
post_process_items d items [] = ok []
post_process_items d items (i ∷ rest) = do
  v ← post_process_item d items i
  vs ← post_process_items d items rest
  ok (v ∷ vs)

unfoldable pub post_process_fields : Decoder → List Item → Result DecodeError (List Entry)
post_process_fields d items = post_process_items d items items

pub record Message : Type 0 where
  pub node_name : ℕ
  pub header : CanBusHeader
  pub fields : List Entry

unfoldable pub decode_items :
    Library → DecoderConfig → ℕ → Pgn → RawMessage → Option (Result DecodeError (List Item))
decode_items lib config fuel pgn raw =
    if ltb 0 pgn.repeating_field_set1_start_field || ltb 0 pgn.repeating_field_set2_start_field
    then decode_with_repeated_fields lib config fuel pgn raw
    else some (decode lib config pgn raw >>= λ ds. ok (singles ds))

unfoldable pub message_of :
    Decoder
    → RawMessage
    → Option (Result DecodeError (List Item))
    → Option (Result DecodeError Message)
message_of d raw none = none
message_of d raw (some items) = some (
    items >>= λ is. post_process_fields d is >>= λ fields.
    ok (record { node_name = 0; header = raw.header; fields = fields }))

unfoldable pub decode_found :
    Library
    → Decoder
    → ℕ
    → RawMessage
    → Result DecodeError Pgn
    → Option (Result DecodeError Message)
decode_found lib d fuel raw (ok pgn) = message_of d raw (decode_items lib d.config fuel pgn raw)
decode_found lib d fuel raw (err e) = some (err e)
decode_found lib d fuel raw panic = some panic

-- `Decoder.Decode`, with fuel for the loop over repeating fields.
unfoldable pub decode_message :
    Library → Decoder → ℕ → RawMessage → Option (Result DecodeError Message)
decode_message lib d fuel raw = decode_found lib d fuel raw (find_pgn d.index raw)
