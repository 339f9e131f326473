-- ===== src/Canboat/Decoder/Examples.antt =====
-- The theorems on canboat/decoder.go and canboat/canboatpgns.go at small definitions.
use go_nmea_client.Common.{ℕ, ◌≡◌, refl, List, [], ◌∷◌, ◌++◌, false, ok, length, arith, ◌≤◌}
use go_nmea_client.Nmea.{RawMessage}
use go_nmea_client.RawData.{slice, special, decode_variable_int, decode_variable_uint}
use go_nmea_client.RawData.Values.{one, uint64}
use go_nmea_client.Canboat.{Enum}
use go_nmea_client.Canboat.Database.{Field, FieldType, number, lookup, Pgn, fast, filter_by_pgn}
use go_nmea_client.Canboat.Fields.{
  Library, field_decode, decode_as, decode_number, named, unsigned_value,
}
use go_nmea_client.Canboat.Decoder.{
  CanboatSchema, DecoderConfig, Decoder, Decoded, new_decoder_with_config, find_pgn, decode,
  message_bit_count, is_reserved, is_spare, settle, decode_single_field,
}
use go_nmea_client.Canboat.Decoder.Index.{chosen, new_decoder-find_pgn}
use go_nmea_client.Canboat.Decoder.Offsets.{is_fixed, IsLaidOut, decode_each, decode-each}
use go_nmea_client.Canboat.Decoder.Repeated.{
  singles, set_item, fieldset_1, decode_with_repeated_fields, repeat_from, repeat_loop,
  first_cursor, new_repetition, needs_count, up_to, is_within, place, advance, advance_in, round,
  count_groups, add_to_group, add_value, found_value, collected, items_of,
}
use go_nmea_client.Canboat.Decoder.Merged.{decode_with_repeated_fields_merges}

-- No field of the examples is a float or UTF-16 text.
abbrev library : Library
library = record {
  floats = record {
    of_int64 = λ n. n;
    of_uint64 = λ n. n;
    of_float32 = λ n. n;
    to_uint64 = λ n. n;
    mul = λ a b. a;
    div = λ a b. a;
    less = λ a b. false;
  };
  utf16 = λ big units. ok units;
}

abbrev field_at : ℕ → ℕ → FieldType → Field
field_at offset bits type = record {
  id = b'A' ∷ [];
  order = 1;
  match_value = 0;
  bit_length = bits;
  bit_offset = offset;
  bit_length_variable = false;
  signed = false;
  offset = 0;
  resolution = one;
  field_type = type;
  lookup_enumeration = b'E' ∷ [];
  lookup_bit_enumeration = [];
  lookup_indirect_enumeration = [];
  lookup_indirect_enumeration_field_order = 0;
}

abbrev pgn_with : ℕ → List Field → Pgn
pgn_with start fields = record {
  pgn = 126464;
  packet_type = fast;
  repeating_field_set1_size = start;
  repeating_field_set1_start_field = start;
  repeating_field_set1_count_field = 0;
  repeating_field_set2_size = 0;
  repeating_field_set2_start_field = 0;
  repeating_field_set2_count_field = 0;
  fields = fields;
  is_matchable = false;
}

abbrev two_bytes : Pgn
two_bytes = pgn_with 0 (field_at 0 8 number ∷ field_at 8 8 lookup ∷ [])

abbrev repeated_byte : Pgn
repeated_byte = pgn_with 1 (field_at 0 8 number ∷ [])

abbrev enums : List Enum
enums = record { name = b'E' ∷ []; values = [] } ∷ []

abbrev schema : CanboatSchema
schema = record {
  pgns = two_bytes ∷ repeated_byte ∷ two_bytes ∷ [];
  enums = enums;
  indirect_enums = [];
  bit_enums = [];
}

abbrev config : DecoderConfig
config = record {
  decode_reserved_fields = false;
  decode_spare_fields = false;
  decode_lookups_to_enum_type = false;
}

abbrev message : RawMessage
message = record {
  time = 0;
  header = record { pgn = 126464; priority = 6; source = 1; destination = 255 };
  bytes = 7 ∷ 9 ∷ [];
}

new_decoder-find_pgn_example :
    find_pgn (new_decoder_with_config schema config).index message
    ≡ chosen (filter_by_pgn schema.pgns 126464) message.bytes
new_decoder-find_pgn_example = new_decoder-find_pgn schema config message

two_bytes-IsLaidOut : IsLaidOut 0 two_bytes.fields
unfolding IsLaidOut is_fixed
two_bytes-IsLaidOut = (refl, refl, omega arith, (refl, refl, omega arith, tt))

decode-each_example :
    decode library config two_bytes message
    ≡ decode_each library config message.bytes (message_bit_count message.bytes) two_bytes.fields
decode-each_example =
    decode-each library config two_bytes message (field_at 0 8 number) (field_at 8 8 lookup ∷ [])
      refl two_bytes-IsLaidOut

abbrev decoder : Decoder
decoder = new_decoder_with_config schema config

abbrev byte_value : ℕ → Decoded
byte_value n = record {
  field = field_at 0 8 number;
  value = record { id = b'A' ∷ []; value = uint64 n };
}

decode_with_repeated_fields_merges_example :
    (ds : List Decoded) × (groups : List (List Decoded)) × (set_item fieldset_1
        ((byte_value 7 ∷ byte_value 9 ∷ []) ∷ [])
      ≡ singles ds ++ set_item fieldset_1 groups)
    × (length groups ≤ 1)
unfolding decode_with_repeated_fields repeat_from repeat_loop first_cursor new_repetition
    needs_count up_to is_within place advance advance_in round count_groups add_to_group add_value
    found_value collected items_of decode_single_field settle is_reserved is_spare field_decode
    decode_as decode_number named unsigned_value decode_variable_uint decode_variable_int slice
    special singles set_item
decode_with_repeated_fields_merges_example =
    decode_with_repeated_fields_merges library config 17 repeated_byte message
      (set_item fieldset_1 ((byte_value 7 ∷ byte_value 9 ∷ []) ∷ [])) (omega arith) refl refl

abbrev looked_up : Decoded
looked_up = record {
  field = field_at 8 8 lookup;
  value = record { id = b'A' ∷ []; value = uint64 9 };
}
