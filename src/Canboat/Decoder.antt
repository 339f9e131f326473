-- ===== src/Canboat/Decoder.antt =====
-- canboat/decoder.go: the index of PGNs, the decoding of one field and of a PGN without repeating fields.
pub mod Index
pub mod Offsets
pub mod Repeated
pub mod Rounds
pub mod Phases
pub mod Groups
pub mod Merged
pub mod Returns
pub mod Messages
pub mod Enums
mod Examples
use go_nmea_client.Common.{
  ℕ, ◌+◌, ◌*◌, List, [], ◌∷◌, ◌++◌, Option, none, some, Bool, true, false, Result, ok, err, panic,
  ◌>>=◌, ltb, ◌==◌, ◌&&◌, ◌||◌, not, if◌then◌else◌, u16, length,
}
use go_nmea_client.Nmea.{RawMessage}
use go_nmea_client.RawData as RawData
use go_nmea_client.RawData.{no_data, out_of_range}
use go_nmea_client.RawData.Values.{FieldValue}
use go_nmea_client.Canboat as Canboat
use go_nmea_client.Canboat.{Enum, BitEnum, IndirectEnum}
use go_nmea_client.Canboat.Database.{Field, FieldType, Pgn, reserved, spare, match}
use go_nmea_client.Canboat.Fields.{
  Library, FieldError, raw_data, unsupported_field_type, field_decode,
}

pub record CanboatSchema : Type 0 where
  pub pgns : List Pgn
  pub enums : List Enum
  pub indirect_enums : List IndirectEnum
  pub bit_enums : List BitEnum

pub record DecoderConfig : Type 0 where
  pub decode_reserved_fields : Bool
  pub decode_spare_fields : Bool
  pub decode_lookups_to_enum_type : Bool

-- `uniq` and `nonUniq`, maps by the number of the PGN.
pub record PgnIndex : Type 0 where
  pub unique : ℕ → Option Pgn
  pub non_unique : ℕ → Option (List Pgn)

pub record Decoder : Type 0 where
  pub config : DecoderConfig
  pub index : PgnIndex
  pub lookups : List Enum
  pub indirect_lookups : List IndirectEnum
  pub bit_lookups : List BitEnum

unfoldable pub put {ℓ} : {A : Type ℓ} → (ℕ → A) → ℕ → A → ℕ → A
put m key value n = if n == key then value else m n

abbrev pub group_of : Option (List Pgn) → Pgn → List Pgn
group_of none existing = existing ∷ []
group_of (some group) existing = group

-- One pass of the loop of `NewDecoder`.
unfoldable pub add_pgn : PgnIndex → Pgn → PgnIndex
add_pgn ix pgn = elim (ix.unique pgn.pgn) [
  | none ↦ record ix { unique = put ix.unique pgn.pgn (some pgn) }
  | some existing ↦ record {
    unique = put ix.unique pgn.pgn none;
    non_unique =
        put ix.non_unique pgn.pgn (some (group_of (ix.non_unique pgn.pgn) existing ++ (pgn ∷ [])));
  }
]

unfoldable pub add_pgns : PgnIndex → List Pgn → PgnIndex
add_pgns ix [] = ix
add_pgns ix (pgn ∷ pgns) = add_pgns (add_pgn ix pgn) pgns

abbrev pub empty_index : PgnIndex
empty_index = record { unique = λ n. none; non_unique = λ n. none }

unfoldable pub new_decoder_with_config : CanboatSchema → DecoderConfig → Decoder
new_decoder_with_config schema config = record {
  config = config;
  index = add_pgns empty_index schema.pgns;
  lookups = schema.enums;
  indirect_lookups = schema.indirect_enums;
  bit_lookups = schema.bit_enums;
}

unfoldable pub new_decoder : CanboatSchema → Decoder
new_decoder schema = new_decoder_with_config schema (record {
  decode_reserved_fields = false;
  decode_spare_fields = false;
  decode_lookups_to_enum_type = false;
})

pub data DecodeError : Type 0 where
  unknown_pgn not_uint64 no_indirect_field : DecodeError
  field_not_decoded : List ℕ → FieldError → DecodeError
  enum_not_decoded : List ℕ → Canboat.Error → DecodeError

-- `pgns.Match(raw.Data)`, which has no error of its own.
unfoldable pub matched : Result RawData.Error (Option Pgn) → Result DecodeError Pgn
matched (ok (some pgn)) = ok pgn
matched (ok none) = err unknown_pgn
matched (err e) = err unknown_pgn
matched panic = panic

unfoldable pub find_pgn : PgnIndex → RawMessage → Result DecodeError Pgn
find_pgn ix raw = elim (ix.unique raw.header.pgn) [
  | some pgn ↦ ok pgn
  | none ↦ elim (ix.non_unique raw.header.pgn) [
    | none ↦ err unknown_pgn
    | some pgns ↦ matched (match pgns raw.bytes)
  ]
]

pub record Decoded : Type 0 where
  pub field : Field
  pub value : FieldValue

unfoldable pub is_reserved : FieldType → Bool
is_reserved reserved = true
is_reserved _ = false

unfoldable pub is_spare : FieldType → Bool
is_spare spare = true
is_spare _ = false

unfoldable pub is_special : FieldError → Bool
is_special (raw_data no_data) = true
is_special (raw_data out_of_range) = true
is_special (raw_data RawData.reserved) = true
is_special _ = false

-- What `decodeSingleField` makes of the result of `Field.Decode`; nothing is `errValueIgnored`.
unfoldable pub settle :
    Field → Result FieldError FieldValue × ℕ → Result DecodeError (Option Decoded) × ℕ
settle f (ok value, bits) = (ok (some (record { field = f; value = value })), bits)
settle f (err e, bits) =
    if is_special e then (ok none, bits) else (err (field_not_decoded f.id e), 0)
settle f (panic, bits) = (panic, bits)

unfoldable pub decode_single_field :
    Library → DecoderConfig → Field → List ℕ → ℕ → Result DecodeError (Option Decoded) × ℕ
decode_single_field lib config f raw offset =
    if (is_reserved f.field_type && not config.decode_reserved_fields)
      || (is_spare f.field_type && not config.decode_spare_fields)
    then (ok none, f.bit_length)
    else settle f (field_decode lib f raw offset)

abbrev pub with_found : Option Decoded → List Decoded → List Decoded
with_found none rest = rest
with_found (some d) rest = d ∷ rest

-- The loop of `decode`, from a field on and at a bit of the message.
unfoldable pub decode_fields :
    Library → DecoderConfig → List ℕ → ℕ → List Field → ℕ → Result DecodeError (List Decoded)
decode_fields lib config raw count [] offset = ok []
decode_fields lib config raw count (f ∷ fields) offset =
    let (found, bits) = decode_single_field lib config f raw offset in
    let rest = decode_fields lib config raw count fields (u16 (offset + bits)) in
    if ltb offset count then (found >>= λ d. rest >>= λ ds. ok (with_found d ds)) else ok []

abbrev pub message_bit_count : List ℕ → ℕ
message_bit_count raw = u16 (length raw * 8)

-- The offset is that of the first field, which is read before the loop.
unfoldable pub decode_from :
    Library → DecoderConfig → List ℕ → List Field → Result DecodeError (List Decoded)
decode_from lib config raw [] = panic
decode_from lib config raw (f ∷ fields) =
    decode_fields lib config raw (message_bit_count raw) (f ∷ fields) f.bit_offset

unfoldable pub decode :
    Library → DecoderConfig → Pgn → RawMessage → Result DecodeError (List Decoded)
decode lib config pgn raw = decode_from lib config raw.bytes pgn.fields
