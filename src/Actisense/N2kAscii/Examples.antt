-- ===== src/Actisense/N2kAscii/Examples.antt =====
-- The theorems on actisense/n2kasciidevice.go at one line and one message.
use go_nmea_client.Common.{
  ℕ, ◌≡◌, refl, List, [], ◌∷◌, ◌++◌, Option, none, some, Bool, true, ok, err, panic, not, ◌&&◌,
  ◌==◌, arith, length, map, replicate,
}
use go_nmea_client.Text.{codes}
use go_nmea_client.Text.Parts.{Lacks}
use go_nmea_client.Nmea.{RawMessage}
use go_nmea_client.Actisense.N2kAscii.{
  is_hex_char, block_from, find_next_non_hex_block, parse_n2k_ascii, started, parse_line, time_end,
  block_or, slice, hex_result,
}
use go_nmea_client.Actisense.RawAscii.{
  index_byte, decode_hex_to_int, padded, digit, from_big_endian, from_hex, hex_decode,
}
use go_nmea_client.Actisense.N2kAscii.Reader.{
  N2kAsciiDevice, got, Outcome, on_read, append_read, with_line, returned, waits, panicked,
  after_line, left_over, read_n2k_message,
}
use go_nmea_client.Actisense.N2kAscii.Reader.Pieces.{
  Holds, IsLine, whole, received, after_turn, read_n2k_message-received,
}

-- ` 23FF7 `
abbrev text : List ℕ
text = b' ' ∷ b'2' ∷ b'3' ∷ b'F' ∷ b'F' ∷ b'7' ∷ b' ' ∷ []

find_next_non_hex_block-text : find_next_non_hex_block text 0 ≡ some (1, 5)
unfolding find_next_non_hex_block block_from is_hex_char
find_next_non_hex_block-text = refl

abbrev request : RawMessage
request = record {
  time = 0;
  header = record { pgn = 59904; priority = 6; source = 254; destination = 255 };
  bytes = 0 ∷ 0xee ∷ 0 ∷ [];
}

-- A device with a small buffer that has read nothing.
abbrev device : N2kAsciiDevice
device = record { read_buffer = replicate 60 0; read_index = 0 }

abbrev pieces : List (List ℕ × ℕ)
pieces = (codes "A173321.107 23", 1) ∷ ([], 2) ∷ (codes "FF7 1F513 012F", 3) ∷ []

abbrev last_piece : List ℕ
last_piece = codes "3070\r"

abbrev next_line : List ℕ
next_line = codes "A17"

abbrev no_feed : List ℕ → Bool
no_feed [] = true
no_feed (c ∷ s) = not (c == 10) && no_feed s

no_feed→Lacks : (s : List ℕ) → no_feed s ≡ true → Lacks 10 s
no_feed→Lacks [] h = tt
no_feed→Lacks (c ∷ s) h = (ground (arith, h), no_feed→Lacks s (ground (arith, h)))

device-Holds : Holds device []
device-Holds = record { counted = refl; stored = refl; fits = omega arith }

read_n2k_message-received_example :
    (buffer : List ℕ) × IsLine device
      (whole [] pieces last_piece)
      (last_piece ++ (10 ∷ next_line))
      next_line
      (length last_piece)
      buffer
    × (read_n2k_message device
          (map received pieces ++ (got (last_piece ++ (10 ∷ next_line)) 4 ∷ []))
        ≡ after_turn
            (after_line
              (left_over buffer (last_piece ++ (10 ∷ next_line)) (length last_piece))
              (parse_n2k_ascii buffer (length (whole [] pieces last_piece)) 4))
            [])
read_n2k_message-received_example =
    read_n2k_message-received device [] pieces last_piece next_line 4 [] device-Holds
      (
        no_feed→Lacks (codes "A173321.107 23") refl,
        (tt, (no_feed→Lacks (codes "FF7 1F513 012F") refl, tt)),
      )
      (no_feed→Lacks last_piece refl) (omega arith)

-- The message of the line, and nothing but it.
abbrev result_of : Outcome → Option RawMessage
result_of (returned (ok msg) d rest) = some msg
result_of (returned (err e) d rest) = none
result_of (returned panic d rest) = none
result_of (waits d) = none
result_of panicked = none

read_n2k_message-pieces :
    result_of (
      read_n2k_message device
        (map received pieces ++ (got (last_piece ++ (10 ∷ next_line)) 4 ∷ [])))
    ≡ some (record {
      time = 4;
      header = record { pgn = 0x1f513; priority = 7; source = 0x23; destination = 0xff };
      bytes = 0x01 ∷ 0x2f ∷ 0x30 ∷ 0x70 ∷ [];
    })
unfolding read_n2k_message on_read index_byte append_read with_line left_over after_line
    parse_n2k_ascii started parse_line time_end block_or find_next_non_hex_block block_from
    is_hex_char slice hex_result decode_hex_to_int padded digit from_big_endian from_hex hex_decode
read_n2k_message-pieces = refl
