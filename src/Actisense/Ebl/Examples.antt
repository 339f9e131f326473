-- ===== src/Actisense/Ebl/Examples.antt =====
-- The theorems on actisense/eblreader.go at the frame that its comment explains, PGN 129025.
use go_nmea_client.Common.{ℕ, ◌≤◌, ◌≡◌, refl, List, [], ◌∷◌, arith, ok, length, replicate, false}
use go_nmea_client.Canbus.{parse_can_id}
use go_nmea_client.Actisense.{Config}
use go_nmea_client.Actisense.Binary.{finished}
use go_nmea_client.Actisense.Binary.Framing.{events, waiting}
use go_nmea_client.Actisense.Ebl.{read_ebl_message}
use go_nmea_client.Actisense.Ebl.Framing.{framed, escape}
use go_nmea_client.Actisense.Ebl.Receive.{bst95_message, read_bst95}

abbrev config : Config
config = record {
  receive_data_timeout = 5_000_000_000;
  output_actisense_messages = false;
  is_n2k_writer = false;
}

abbrev buffer : List ℕ
buffer = replicate 1785 0

abbrev position : List ℕ
position = 0x3d ∷ 0x0d ∷ 0xb3 ∷ 0x22 ∷ 0x48 ∷ 0x32 ∷ 0x59 ∷ 0x0d ∷ []

framed-position :
    framed (0x07 ∷ 0x95 ∷ bst95_message 0x28 0x9a 0x09f80100 position)
    ≡ 0x1b ∷ 0x01 ∷ 0x07 ∷ 0x95 ∷ 0x0e ∷ 0x28 ∷ 0x9a ∷ 0x00 ∷ 0x01 ∷ 0xf8 ∷ 0x09 ∷ 0x3d ∷ 0x0d
      ∷ 0xb3 ∷ 0x22 ∷ 0x48 ∷ 0x32 ∷ 0x59 ∷ 0x0d ∷ 0x1b ∷ 0x0a ∷ []
unfolding framed escape bst95_message
framed-position = refl

position_fits : length (0x07 ∷ 0x95 ∷ bst95_message 0x28 0x9a 0x09f80100 position) ≤ length buffer
unfolding bst95_message
position_fits = omega arith

read_bst95_example :
    read_ebl_message config
      (waiting buffer 0 0)
      (events 9 (framed (0x07 ∷ 0x95 ∷ bst95_message 0x28 0x9a 0x09f80100 position)))
    ≡ finished (ok (record { time = 9; header = parse_can_id 0x09f80100; bytes = position }))
read_bst95_example =
    read_bst95 config 9 buffer 0 0 0x28 0x9a 0x09f80100 position (omega arith) (omega arith)
      position_fits
