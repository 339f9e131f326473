-- ===== src/N2kReader/Examples.antt =====
-- cmd/n2kreader at concrete messages, filters and lines.
use go_nmea_client.Common.{
  ℕ, ◌+◌, ◌%◌, ◌≡◌, ◌⊎◌, ◌↔◌, refl, List, [], ◌∷◌, ◌++◌, none, some, true, false, arith, ok, panic,
  leb, take, length, map, replicate, if◌then◌else◌,
}
use go_nmea_client.Canbus.{CanBusHeader}
use go_nmea_client.Nmea.{RawMessage}
use go_nmea_client.RawData.Values.{as_float64, int64, Floats}
use go_nmea_client.Canboat.Decoder.Messages.{Message, entry}
use go_nmea_client.Canboat.Text as CanboatText
use go_nmea_client.AddressMapper.Table.{new_address_mapper}
use go_nmea_client.Text.{
  Bytes, pos, codes, format_uint, format_digits, split, extend, atoi, magnitude, parse_uint,
  scan_uint, is_digit, to_unsigned, text_eq, trim_space, trim_left, trim_right, is_space,
}
use go_nmea_client.N2kReader.{
  MsgFilter, matches_header, parse_line, parse_msg_filters, filters_of, number, with_source,
}
use go_nmea_client.N2kReader.Filters.{Admitted, matches_header-Admitted}
use go_nmea_client.N2kReader.Lines.{line_of, parse_line-line_of, parse_line-marshal_raw_message}
use go_nmea_client.N2kReader.Csv as Csv
use go_nmea_client.N2kReader.Csv.{
  CsvPgnFields, Field, match_csv, parse_csv_fields_raw, field_text, parts_of, part_of, cut,
  first_index_byte, pgn_result, fields_of, field_of, starts_with, duration_in, join_with,
  last_index_byte, pgn_fields, time_field, find_fields, row_of, entry_text, find_entry, value_text,
  float_or_empty, text_or_empty,
}
use go_nmea_client.N2kReader.Csv.Rows.{IsRow, match_csv-IsRow}
use go_nmea_client.N2kReader.Stdin.{print_nodes, handle_stdio, command, ends_with}
use go_nmea_client.N2kReader.Loop as Loop
use go_nmea_client.N2kReader.Loop.{
  Options, State, Line, Received, end_of_file, failed, read_failed, finishing, run, is_accepted,
  is_allowed, json, canboat,
}
use go_nmea_client.N2kReader.Loop.Throttled.{passed, Spaced, passed-Spaced}
use go_nmea_client.N2kReader.Loop.Printed.{received, raw_lines, run-raw_lines, run-replicate-failed}

abbrev position : CanBusHeader
position = record { pgn = 129025; priority = 2; source = 35; destination = 255 }

abbrev from_gps : MsgFilter
from_gps = record { pgn = 129025; source = 35; has_source = true }

matches_header-Admitted_example :
    (matches_header (from_gps ∷ []) position ≡ true)
    ↔ ((from_gps ∷ [] ≡ []) ⊎ Admitted position (from_gps ∷ []))
matches_header-Admitted_example = matches_header-Admitted (from_gps ∷ []) position

filters_parsed :
    parse_msg_filters (codes "129025:35,59904")
    ≡ ok (from_gps ∷ record { pgn = 59904; source = 0; has_source = false } ∷ [])
unfolding parse_msg_filters filters_of split extend number atoi magnitude parse_uint scan_uint
    is_digit with_source to_unsigned
filters_parsed = refl

abbrev request : CanBusHeader
request = record { pgn = 59904; priority = 6; source = 256; destination = 255 }

abbrev request_data : List ℕ
request_data = 0 ∷ 238 ∷ 0 ∷ []

-- The digits of the text that are left behind the decoded bytes.
abbrev digits_left : List ℕ
digits_left = b'e' ∷ b'0' ∷ b'0' ∷ []

-- Source 256 becomes 0, and a length of four reads a byte that is not of the line.
parse_line-line_of_example : parse_line digits_left (line_of request 4 request_data) ≡ (
    if leb 4 (length (request_data ++ digits_left))
    then ok (record {
      time = 0;
      header = record request { source = 256 % 256; destination = 255 % 256 };
      bytes = take 4 (request_data ++ digits_left);
    })
    else panic)
parse_line-line_of_example = parse_line-line_of digits_left request 4 request_data (omega arith)

abbrev sighting : RawMessage
sighting = record { time = 1_000; header = position; bytes = 1 ∷ 2 ∷ 3 ∷ [] }

parse_line-marshal_raw_message_example :
    (text : Bytes) × (CanboatText.marshal_raw_message format_uint sighting
      ≡ format_uint 1_000 ++ (b',' ∷ text))
    × (parse_line [] text ≡ ok (record sighting { time = 0 }))
parse_line-marshal_raw_message_example =
    parse_line-marshal_raw_message format_uint [] sighting (omega arith) (omega arith) (omega arith)

abbrev floats : Floats
floats = record {
  of_int64 = λ n. n;
  of_uint64 = λ n. n;
  of_float32 = λ n. n;
  to_uint64 = λ n. n;
  mul = λ a b. a;
  div = λ a b. a;
  less = λ a b. false;
}

abbrev csv_library : Csv.Library
csv_library = record {
  parse_duration = λ s. none;
  hash = λ s. s;
  cut_time = λ d t. t;
  unix = λ t. t;
  unix_milli = λ t. t;
  unix_nano = λ t. t;
  floats = floats;
  float_text = λ n. some (format_uint n);
}

abbrev wanted_text : Bytes
wanted_text = codes "129025:_src,latitude"

abbrev sighting_file : CsvPgnFields
sighting_file = record {
  pgn = 129025;
  file_name = codes "129025__src,latitude.csv";
  names = codes "_src" ∷ codes "latitude" ∷ [];
  fields =
      record { name = codes "_src"; truncate = pos 0 }
      ∷ record { name = codes "latitude"; truncate = pos 0 }
      ∷ [];
}

abbrev seen : Message
seen = record {
  node_name = 0;
  header = position;
  fields = entry (record { id = codes "latitude"; value = int64 59 }) ∷ [];
}

wanted_parsed : parse_csv_fields_raw csv_library wanted_text ≡ ok (sighting_file ∷ [])
unfolding parse_csv_fields_raw parts_of split trim_space trim_right trim_left is_space extend
    part_of cut first_index_byte pgn_result parse_uint scan_uint is_digit fields_of field_of
    starts_with duration_in join_with last_index_byte pgn_fields time_field format_digits
    format_uint
wanted_parsed = refl

row_found :
    match_csv csv_library (sighting_file ∷ []) seen 5
    ≡ some (codes "35" ∷ codes "59" ∷ [], sighting_file)
unfolding match_csv find_fields row_of field_text text_eq format_uint entry_text format_digits
    find_entry value_text float_or_empty as_float64 text_or_empty
row_found = refl

match_csv-IsRow_example :
    (sighting_file.pgn ≡ position.pgn)
    × IsRow csv_library seen 5 (codes "35" ∷ codes "59" ∷ []) sighting_file
match_csv-IsRow_example =
    match_csv-IsRow csv_library wanted_text (sighting_file ∷ []) seen 5
      (codes "35" ∷ codes "59" ∷ []) sighting_file wanted_parsed row_found

-- A time field without parentheses.
no_parenthesis : parse_csv_fields_raw csv_library (codes "129025:_time_ms,latitude") ≡ panic
unfolding parse_csv_fields_raw parts_of split trim_space trim_right trim_left is_space extend
    part_of cut first_index_byte pgn_result parse_uint scan_uint is_digit fields_of field_of
    starts_with duration_in join_with last_index_byte pgn_fields time_field format_digits
    format_uint
no_parenthesis = refl

nodes_asked : handle_stdio true [] (codes " !nodes-details ") ≡ print_nodes true
unfolding handle_stdio trim_space trim_right trim_left is_space command starts_with ends_with
nodes_asked = refl

passed-Spaced_example :
    Spaced 100 (passed 100 [] (sighting ∷ record sighting { time = 1_050 } ∷ []))
passed-Spaced_example = passed-Spaced 100 (sighting ∷ record sighting { time = 1_050 } ∷ []) []

abbrev library : Loop.Library
library = record {
  utf16 = λ big_endian units. ok units;
  stamp = format_uint;
  unix_nano = λ t. t;
  json_raw = λ raw. [];
  json_decoded = λ msg. some [];
  to_base64 = λ s. s;
  decode = λ raw. none;
  csv = csv_library;
  is_written = λ file values. true;
}

abbrev options : Options
options = record {
  only_raw = true;
  no_show_pgn = false;
  has_mapper = false;
  output_format = canboat;
  throttle = 0;
  source_allow_filter = none;
  filters = from_gps ∷ [];
  csv_fields = [];
}

abbrev at_start : State
at_start = record {
  throttled = [];
  msg_count = 0;
  error_count_decode = 0;
  error_count_read = 0;
  nodes_by_source = [];
  address_mapper = new_address_mapper;
}

abbrev other : RawMessage
other = record { time = 1_000; header = record position { source = 36 }; bytes = 1 ∷ [] }

run-raw_lines_example :
    run library options at_start
      (map received ((sighting, 1, 2) ∷ (other, 3, 4) ∷ []) ++ (end_of_file ∷ []))
    ≡ (
      raw_lines library options [] ((sighting, 1, 2) ∷ (other, 3, 4) ∷ [])
          ++ (finishing (0 + 2 + 1) 0 ∷ []),
      none,
    )
run-raw_lines_example =
    run-raw_lines library options ((sighting, 1, 2) ∷ (other, 3, 4) ∷ []) at_start [] refl refl

run-replicate-failed_example :
    run library options at_start (replicate 21 failed ++ (end_of_file ∷ []))
    ≡ (replicate 21 read_failed, none)
run-replicate-failed_example =
    run-replicate-failed library options 20 at_start (end_of_file ∷ []) refl
