-- ===== src/Actisense/RawAscii/Examples.antt =====
-- The theorems on actisense/rawasciidevice.go at one line and one frame.
use go_nmea_client.Common.{
  ℕ, ◌+◌, ◌*◌, ◌≡◌, refl, List, [], ◌∷◌, some, ok, err, ◌==◌, if◌then◌else◌, arith,
}
use go_nmea_client.Canbus.{parse_can_id}
use go_nmea_client.Nmea.{RawFrame, RawMessage}
use go_nmea_client.Actisense.RawAscii.{
  odd_length, from_hex, digit, hex_decode, from_big_endian, padded, decode_hex_to_int, find_spaces,
  data_digits, frame_of, parse_received, parse_raw_ascii, hex_digits,
}
use go_nmea_client.Actisense.RawAscii.Hex.{decode_hex_to_int-hex_digits}

-- `0 R 15FD0800 FF 00 01 CA 6F FF FF FF` and a line feed.
abbrev line : List ℕ
line =
    b'0' ∷ b' ' ∷ b'R' ∷ b' ' ∷ b'1' ∷ b'5' ∷ b'F' ∷ b'D' ∷ b'0' ∷ b'8' ∷ b'0' ∷ b'0' ∷ b' ' ∷ b'F'
    ∷ b'F' ∷ b' ' ∷ b'0' ∷ b'0' ∷ b' ' ∷ b'0' ∷ b'1' ∷ b' ' ∷ b'C' ∷ b'A' ∷ b' ' ∷ b'6' ∷ b'F'
    ∷ b' ' ∷ b'F' ∷ b'F' ∷ b' ' ∷ b'F' ∷ b'F' ∷ b' ' ∷ b'F' ∷ b'F' ∷ 10 ∷ []

abbrev frame : RawFrame
frame = record {
  time = 3;
  header = parse_can_id 0x15fd0800;
  length = 8;
  bytes = 255 ∷ 0 ∷ 1 ∷ 0xca ∷ 0x6f ∷ 255 ∷ 255 ∷ 255 ∷ [];
}

parse_raw_ascii-line : parse_raw_ascii line 3 ≡ ok (some frame)
unfolding parse_raw_ascii find_spaces parse_received decode_hex_to_int padded hex_decode digit
    from_hex from_big_endian data_digits frame_of
parse_raw_ascii-line = refl

abbrev message : RawMessage
message = record { time = 3; header = frame.header; bytes = 1 ∷ 2 ∷ 3 ∷ [] }

decode_hex_to_int-hex_digits_example :
    decode_hex_to_int (hex_digits 6 0xfd0800) 4
    ≡ (if 6 + 1 == 4 * 2 then err odd_length else ok 0xfd0800)
decode_hex_to_int-hex_digits_example =
    decode_hex_to_int-hex_digits 6 4 0xfd0800 (omega arith) (omega arith)

-- An identifier of priority 2 without the zero in front.
seven_digits : decode_hex_to_int (hex_digits 7 0x9f80123) 4 ≡ err odd_length
seven_digits = decode_hex_to_int-hex_digits 7 4 0x9f80123 (omega arith) (omega arith)
