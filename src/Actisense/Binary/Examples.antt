-- ===== src/Actisense/Binary/Examples.antt =====
-- The theorems on actisense/binaryreader.go at a short message.
use go_nmea_client.Common.{
  ℕ, ◌+◌, ◌≤◌, ◌<◌, ◌≡◌, ◌≢◌, refl, inl, List, [], ◌∷◌, false, arith, ok, length, replicate,
  overwrite_from, set, All, IsByte,
}
use go_nmea_client.Canbus.{parse_can_id}
use go_nmea_client.Nmea.{RawMessage}
use go_nmea_client.Actisense.{Config}
use go_nmea_client.Actisense.Messages.Formats.{
  IsNgt, ngt_message, IsN2k, n2k_message, IsRaw, raw_message, crc_byte,
}
use go_nmea_client.Actisense.Binary.{more, finished, read_raw_message, bst_packet, escape, dle, etx}
use go_nmea_client.Actisense.Binary.Framing.{events, framed, waiting, reading}
use go_nmea_client.Actisense.Binary.Receive.{read_ngt, read_raw}
use go_nmea_client.Actisense.Binary.Write.{bst_packet_never_ends}

abbrev config : Config
config = record {
  receive_data_timeout = 5_000_000_000;
  output_actisense_messages = false;
  is_n2k_writer = false;
}

abbrev buffer : List ℕ
buffer = replicate 1785 0

-- A heading, its data with a DLE.
abbrev heading : RawMessage
heading = record {
  time = 0;
  header = record { pgn = 127250; priority = 2; source = 11; destination = 255 };
  bytes = 16 ∷ 8 ∷ 255 ∷ [];
}

abbrev clock : List ℕ
clock = 1 ∷ 2 ∷ 3 ∷ 4 ∷ []

heading-IsNgt : IsNgt 0x93 heading clock
heading-IsNgt = record {
  command_fits = omega arith;
  pgn_fits = omega arith;
  priority_fits = omega arith;
  source_fits = omega arith;
  destination_fits = omega arith;
  time_fits = ground arith;
  length_fits = omega arith;
  bytes_fit = ground arith;
}

heading-IsN2k : IsN2k heading 18
heading-IsN2k = record {
  pgn_fits = omega arith;
  priority_fits = omega arith;
  length_fits = omega arith;
  group = refl;
}

heading-IsRaw : IsRaw 0x95 1 2 0x09f1120b (16 ∷ 8 ∷ 255 ∷ [])
heading-IsRaw = record {
  command_fits = omega arith;
  t0_fits = omega arith;
  t1_fits = omega arith;
  id_fits = omega arith;
  length_fits = omega arith;
  bytes_fit = ground arith;
}

ngt_fits : length (ngt_message 0x93 heading clock) ≤ length buffer
unfolding ngt_message
ngt_fits = omega arith

n2k_fits : length (n2k_message 0xd0 heading 18 0 clock) ≤ length buffer
unfolding n2k_message
n2k_fits = omega arith

raw_fits : length (raw_message 0x95 1 2 0x09f1120b (16 ∷ 8 ∷ 255 ∷ [])) ≤ length buffer
unfolding raw_message
raw_fits = omega arith

read_ngt_example :
    read_raw_message config
      (waiting buffer 0 0)
      (events 9 (framed (ngt_message 0x93 heading clock)))
    ≡ finished (ok (record heading { time = 9 }))
read_ngt_example = read_ngt config 9 buffer 0 0 0x93 heading clock (inl refl) heading-IsNgt ngt_fits

read_raw_example :
    read_raw_message config
      (waiting buffer 0 0)
      (events 9 (framed (raw_message 0x95 1 2 0x09f1120b (16 ∷ 8 ∷ 255 ∷ []))))
    ≡ finished
        (ok (record { time = 9; header = parse_can_id 0x09f1120b; bytes = 16 ∷ 8 ∷ 255 ∷ [] }))
read_raw_example =
    read_raw config 9 buffer 0 0 0x95 1 2 0x09f1120b (16 ∷ 8 ∷ 255 ∷ []) (inl refl) heading-IsRaw
      raw_fits

-- A raw message without data; its checksum is right.
abbrev spare : List ℕ
spare = 0x95 ∷ 5 ∷ 1 ∷ 2 ∷ 3 ∷ 4 ∷ 5 ∷ 87 ∷ []

-- A command with a DLE; the checksum is 90.
abbrev command : List ℕ
command = 0x94 ∷ 2 ∷ 16 ∷ []

-- A command whose checksum is DLE.
abbrev marked : List ℕ
marked = 0xa1 ∷ 0x4f ∷ []

command_bytes : All IsByte command
command_bytes = (omega arith, (omega arith, (omega arith, tt)))

command_plain : crc_byte command ≢ dle
unfolding crc_byte
command_plain e = absurd (omega (arith, e))

marked_bytes : All IsByte marked
marked_bytes = (omega arith, (omega arith, tt))

marked_crc : crc_byte marked ≡ dle
unfolding crc_byte
marked_crc = refl

marked_fits : length marked + 2 ≤ length buffer
marked_fits = omega arith

command_long : 3 < length (bst_packet command)
unfolding bst_packet escape
command_long = omega arith

bst_packet_never_ends_example :
    read_raw_message config (waiting buffer 0 0) (events 9 (bst_packet marked))
    ≡ more (reading (set (set (overwrite_from 0 buffer marked) 2 dle) 3 etx) 4 etx 9)
bst_packet_never_ends_example =
    bst_packet_never_ends config 9 marked buffer 0 0 marked_bytes marked_crc marked_fits
