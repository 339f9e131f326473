-- ===== src/Canboat/Text/Examples.antt =====
-- canboat/inputoutput.go and canboat/device.go at concrete lines. A time is written here as its number.
use go_nmea_client.Common.{
  ℕ, ◌≤◌, ◌≡◌, refl, List, [], ◌∷◌, ◌++◌, Option, some, none, arith, Result, ok, err, panic, length,
}
use go_nmea_client.Nmea.{RawMessage}
use go_nmea_client.Actisense.N2kAscii.{lower_digit}
use go_nmea_client.Actisense.RawAscii.{hex_decode, digit, from_hex}
use go_nmea_client.Text.{
  Bytes, is_digit, NumError, codes, split, parse_uint, format_uint, format_digits, scan_uint,
  concat, extend,
}
use go_nmea_client.Canboat.Text.{
  wrapped, some_time, data_text, marshal_raw_message, unmarshal_string, unmarshal_parts,
}
use go_nmea_client.Canboat.Text.RoundTrip.{
  IsPrintable, IsStamp, unmarshal_string-marshal_raw_message,
}
use go_nmea_client.Canboat.Text.Bounds.{IsAccepted, unmarshal_string-IsAccepted}

unfoldable time_read : Result NumError ℕ → Option ℕ
time_read (ok n) = some n
time_read (err e) = none
time_read panic = none

abbrev read_time : Bytes → Option ℕ
read_time s = time_read (parse_uint 64 s)

abbrev request : RawMessage
request = record {
  time = 1675763711;
  header = record { pgn = 126208; priority = 6; source = 36; destination = 0 };
  bytes = 2 ∷ 130 ∷ 255 ∷ [];
}

abbrev line : Bytes
line = codes "1675763711,6,126208,36,0,3,02,82,ff"

marshal_request : marshal_raw_message format_uint request ≡ line
unfolding marshal_raw_message format_uint format_digits data_text lower_digit
marshal_request = refl

stamped : IsStamp format_uint read_time 1675763711
unfolding time_read format_uint format_digits parse_uint scan_uint is_digit
stamped = record {
  first = b'1';
  others = codes "675763711";
  starts = refl;
  digit_first = refl;
  no_comma = omega arith;
  read_back = refl;
}

printable : IsPrintable request
printable = ground arith

unmarshal_string-marshal_raw_message_example :
    unmarshal_string read_time (marshal_raw_message format_uint request) ≡ ok request
unmarshal_string-marshal_raw_message_example =
    unmarshal_string-marshal_raw_message format_uint read_time request printable (omega arith)
      stamped

unmarshal_string-IsAccepted_example :
    (7 ≤ length (split b',' (marshal_raw_message format_uint request)))
    × IsAccepted read_time (split b',' (marshal_raw_message format_uint request)) request
unmarshal_string-IsAccepted_example =
    unmarshal_string-IsAccepted read_time (marshal_raw_message format_uint request) request (
      unmarshal_string-marshal_raw_message format_uint read_time request printable (omega arith)
        stamped)

-- The length in a line is the number of its parts of data, and a part may be any digits: here one part
-- that is said to be one byte holds two.
parts_are_no_bytes :
    unmarshal_string read_time (codes "7,6,126208,36,0,1,0282")
    ≡ ok (record request { time = 7; bytes = 2 ∷ 130 ∷ [] })
unfolding unmarshal_string split extend time_read parse_uint unmarshal_parts wrapped scan_uint
    is_digit some_time hex_decode concat digit from_hex
parts_are_no_bytes = refl

abbrev file : List Bytes
file =
    codes "# a comment"
    ∷ []
    ∷ (codes "  " ++ (marshal_raw_message format_uint request ++ (13 ∷ [])))
    ∷ marshal_raw_message format_uint request
    ∷ []
