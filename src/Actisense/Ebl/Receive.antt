-- ===== src/Actisense/Ebl/Receive.antt =====
-- actisense/eblreader.go from the bytes of a file to messages.
use go_nmea_client.Common.{
  ℕ, ◌+◌, ◌-◌, ◌*◌, ◌/◌, ◌%◌, ◌^◌, ◌≤◌, ◌<◌, ◌≡◌, ◌≢◌, ap, ◌∙◌, List, [], ◌∷◌, arith, ok, panic,
  length,
}
use go_nmea_client.Canbus.{parse_can_id}
use go_nmea_client.Actisense.{Config}
use go_nmea_client.Actisense.Slices.{at-lt, slice-le, slice-tail, fresh-copy}
use go_nmea_client.Actisense.Binary.{finished, conclude}
use go_nmea_client.Actisense.Binary.Framing.{events, waiting}
use go_nmea_client.Actisense.Binary.Receive.{take-overwrite}
use go_nmea_client.FastPacket.Blocks.{get_or-overwrite}
use go_nmea_client.Actisense.Ebl.{from_actisense_bst95_message, dispatch_bst, read_ebl_message}
use go_nmea_client.Actisense.Ebl.Framing.{framed, read_framed}

-- A BST-95 message: its length, two bytes of time, the CAN identifier and the data.
unfoldable pub bst95_message : ℕ → ℕ → ℕ → List ℕ → List ℕ
bst95_message t0 t1 id bytes =
    (length bytes + 6)
    ∷ t0
    ∷ t1
    ∷ id % 256
    ∷ id / 256 % 256
    ∷ id / 65536 % 256
    ∷ id / 16777216
    ∷ bytes

length-bst95_message :
    (t0 t1 id : ℕ) (bytes : List ℕ) → length (bst95_message t0 t1 id bytes) ≡ length bytes + 7
unfolding bst95_message
length-bst95_message t0 t1 id bytes = omega arith

-- The BST-95 parser never panics.
pub from_actisense_bst95_message_returns :
    (raw : List ℕ) (now : ℕ) → from_actisense_bst95_message raw now ≢ panic
unfolding from_actisense_bst95_message
from_actisense_bst95_message_returns raw now e = ground (
  arith,
  at-lt raw 0,
  at-lt raw 3,
  at-lt raw 4,
  at-lt raw 5,
  at-lt raw 6,
  slice-le raw 7 (length raw),
)

-- It reads the header from the identifier, and the data back.
pub from_actisense_bst95_message-bst95_message :
    (now t0 t1 id : ℕ) (bytes : List ℕ)
    → id < 2 ^ 32
    → 1 ≤ length bytes
    → from_actisense_bst95_message (bst95_message t0 t1 id bytes) now
      ≡ ok (record { time = now; header = parse_can_id id; bytes = bytes })
unfolding from_actisense_bst95_message bst95_message
from_actisense_bst95_message-bst95_message now t0 t1 id bytes id_fits some_data =
    let raw = bst95_message t0 t1 id bytes in
    let front =
      (length bytes + 6)
      ∷ t0
      ∷ t1
      ∷ id % 256
      ∷ id / 256 % 256
      ∷ id / 65536 % 256
      ∷ id / 16777216
      ∷ [] in
    ground (
      arith,
      at-lt raw 0,
      at-lt raw 3,
      at-lt raw 4,
      at-lt raw 5,
      at-lt raw 6,
      slice-tail front bytes 7 (length raw),
      fresh-copy (length raw - 7) bytes,
      ap parse_can_id (rebuilt id id_fits),
    )
  where
    rebuilt :
        (id : ℕ)
        → id < 2 ^ 32
        → (id % 256
              + id / 256 % 256 * 2 ^ 8 % 2 ^ 32
              + id / 65536 % 256 * 2 ^ 16 % 2 ^ 32
              + id / 16777216 * 2 ^ 24 % 2 ^ 32)
            % 2 ^ 32
          ≡ id
    rebuilt id h = omega arith

module _ (config : Config) (now : ℕ) (buffer : List ℕ) (current last : ℕ) where
  -- A BST-95 message with at least one data byte, behind the two bytes of its type, escaped and
  -- framed, is read as the message it carries where it fits the buffer.
  pub read_bst95 :
      (t0 t1 id : ℕ) (bytes : List ℕ)
      → id < 2 ^ 32
      → 1 ≤ length bytes
      → length (0x07 ∷ 0x95 ∷ bst95_message t0 t1 id bytes) ≤ length buffer
      → read_ebl_message config
          (waiting buffer current last)
          (events now (framed (0x07 ∷ 0x95 ∷ bst95_message t0 t1 id bytes)))
        ≡ finished (ok (record { time = now; header = parse_can_id id; bytes = bytes }))
  unfolding dispatch_bst conclude
  read_bst95 t0 t1 id bytes id_fits some_data fits =
      let raw = 0x07 ∷ 0x95 ∷ bst95_message t0 t1 id bytes in
      read_framed config now raw buffer current last fits
      ∙ ground (
        arith,
        length-bst95_message t0 t1 id bytes,
        get_or-overwrite buffer raw 0,
        get_or-overwrite buffer raw 1,
        take-overwrite buffer raw fits,
        from_actisense_bst95_message-bst95_message now t0 t1 id bytes id_fits some_data,
      )
