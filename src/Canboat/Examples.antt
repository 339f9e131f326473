-- ===== src/Canboat/Examples.antt =====
-- The theorems on canboat/enum.go and canboat/canboatpgns.go at short enumerations and variants.
use go_nmea_client.Common.{ℕ, ◌≡◌, refl, List, [], ◌∷◌, false, ok}
use go_nmea_client.Common.{some, true}
use go_nmea_client.RawData.{decode_variable_uint, decode_variable_int, slice, special}
use go_nmea_client.RawData.Values.{one}
use go_nmea_client.Canboat.Database.{
  Field, Pgn, number, fast, match, filter_by_pgn, pgn_is_match, fields_match, field_is_match,
  matches_value,
}
use go_nmea_client.Canboat.{
  Enum, BitEnum, BitEnumValue, IndirectEnum, same, has_bit, set_values, bit_loop, find_bit_values,
}

abbrev genders : List Enum
genders = record { name = b'G' ∷ []; values = record { name = b'F' ∷ []; value = 1 } ∷ [] } ∷ []

abbrev low : BitEnumValue
low = record { name = b'L' ∷ []; bit = 0 }

abbrev high : BitEnumValue
high = record { name = b'H' ∷ []; bit = 2 }

abbrev alarms : List BitEnum
alarms = record { name = b'A' ∷ []; values = low ∷ high ∷ [] } ∷ []

abbrev functions : List IndirectEnum
functions =
    record {
      name = b'D' ∷ [];
      values = record { name = b'F' ∷ []; indirect_value = 10; value = 1 } ∷ [];
    }
    ∷ []

find_bit_values-alarms : find_bit_values alarms (b'A' ∷ []) 6 ≡ ok (high ∷ [])
unfolding find_bit_values bit_loop set_values has_bit same
find_bit_values-alarms = refl

-- Two variants of PGN 130820, told apart by their first byte.
abbrev maker_field : ℕ → Field
maker_field n = record {
  id = b'M' ∷ [];
  order = 1;
  match_value = n;
  bit_length = 8;
  bit_offset = 0;
  bit_length_variable = false;
  signed = false;
  offset = 0;
  resolution = one;
  field_type = number;
  lookup_enumeration = [];
  lookup_bit_enumeration = [];
  lookup_indirect_enumeration = [];
  lookup_indirect_enumeration_field_order = 0;
}

abbrev variant : ℕ → Pgn
variant n = record {
  pgn = 130820;
  packet_type = fast;
  repeating_field_set1_size = 0;
  repeating_field_set1_start_field = 0;
  repeating_field_set1_count_field = 0;
  repeating_field_set2_size = 0;
  repeating_field_set2_start_field = 0;
  repeating_field_set2_count_field = 0;
  fields = maker_field n ∷ [];
  is_matchable = true;
}

second_matches :
    match (filter_by_pgn (variant 3 ∷ variant 7 ∷ []) 130820) (7 ∷ 0 ∷ []) ≡ ok (some (variant 7))
unfolding match filter_by_pgn pgn_is_match fields_match field_is_match matches_value
    decode_variable_uint decode_variable_int slice special
second_matches = refl
