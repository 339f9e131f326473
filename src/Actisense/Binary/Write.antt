-- ===== src/Actisense/Binary/Write.antt =====
-- actisense/binaryreader.go: what `writeBstMessage` puts on the device, and what a reader of the same
-- framing makes of it.
use go_nmea_client.Common.{
  ℕ, ◌+◌, ◌-◌, ◌≤◌, ◌<◌, ◌≡◌, ◌≢◌, refl, ap, ◌∙◌, List, [], ◌∷◌, ◌++◌, map, arith, ok, u8, length,
  take, overwrite_from, All, IsByte, set,
}
use go_nmea_client.Actisense.{Config}
use go_nmea_client.Actisense.Crc.{crc, crc_check, crc_lem}
use go_nmea_client.Actisense.Messages.Formats.{crc_byte, crc_check-crc_byte}
use go_nmea_client.Actisense.Binary.{
  more, read_raw_message, escape, bst_packet, dle, stx, etx, write_bst_message, write_loop, wrote,
  again, written,
}
use go_nmea_client.Actisense.Binary.Framing.{
  events, framed, waiting, reading, read_cons, read_escaped, start_dle, start_stx, first_dle,
  escaped_dle, plain_byte, read_last, last_or,
}
use go_nmea_client.Common.{length-overwrite_from}
use go_nmea_client.Actisense.Binary.Framing.{length-set}
use native.Mathlib.Nat.{zero-add}
use mathlib.Core.List.{append_assoc, map-append}

escape-append : (xs ys : List ℕ) → escape (xs ++ ys) ≡ escape xs ++ escape ys
unfolding escape
escape-append [] ys = refl
escape-append (x ∷ xs) ys = ground (arith, escape-append xs ys)

packet_crc : (bytes : List ℕ) → All IsByte bytes → u8 (256 - crc bytes) ≡ crc_byte bytes
unfolding crc_byte
packet_crc bytes h = ap (λ c. u8 (256 - c)) (crc_lem bytes h)

escape_plain : (b : ℕ) → b ≢ dle → escape (b ∷ []) ≡ b ∷ []
unfolding escape
escape_plain b h = ground arith

-- Where the checksum byte is not DLE, the packet is the framed message with its checksum, and the
-- checksum is right.
pub bst_packet-framed :
    (bytes : List ℕ)
    → All IsByte bytes
    → crc_byte bytes ≢ dle
    → (bst_packet bytes ≡ framed (bytes ++ (crc_byte bytes ∷ [])))
      × (crc_check (bytes ++ (crc_byte bytes ∷ [])) ≡ ok tt)
unfolding bst_packet framed
bst_packet-framed bytes h plain = (
  rw
      (
        packet_crc bytes h,
        escape-append bytes (crc_byte bytes ∷ []),
        escape_plain (crc_byte bytes) plain,
        append_assoc,
      )
      refl,
  crc_check-crc_byte bytes h,
)

module _ (config : Config) (now : ℕ) where
  swallowed_end :
      (buffer : List ℕ) (n current last : ℕ)
      → n + 2 ≤ length buffer
      → read_raw_message config (reading buffer n current last) (events now (dle ∷ dle ∷ etx ∷ []))
        ≡ more (reading (set (set buffer n dle) (n + 1) etx) (n + 2) etx now)
  swallowed_end buffer n current last h =
      read_cons config now _ _ _ _ (first_dle config now buffer n current last)
      ∙ read_cons config now _ _ _ _ (escaped_dle config now buffer n now (omega arith))
      ∙ read_last config now _ _
      ∙ plain_byte config now (set buffer n dle) (n + 1) dle now etx
          (omega (arith, length-set buffer n dle)) (λ e. absurd (omega (arith, e)))
      ∙ ap (λ k. more (reading (set (set buffer n dle) (n + 1) etx) k etx now)) (omega arith)

  started :
      (bytes buffer : List ℕ) (current last : ℕ) (later : List ℕ)
      → length bytes ≤ length buffer
      → read_raw_message config
          (waiting buffer current last)
          (events now (dle ∷ stx ∷ (escape bytes ++ later)))
        ≡ read_raw_message config
            (reading
              (overwrite_from 0 buffer bytes)
              (0 + length bytes)
              (last_or stx bytes)
              (last_or now (map (λ _. now) bytes)))
            (events now later)
  started bytes buffer current last later h =
      read_cons config now _ _ _ _ (start_dle config now buffer current last)
      ∙ read_cons config now _ _ _ _ (start_stx config now buffer now)
      ∙ ap (read_raw_message config (reading buffer 0 stx now)) (map-append _ (escape bytes) later)
      ∙ read_escaped config now bytes buffer 0 stx now (events now later) (omega arith)

-- Where the checksum byte is DLE, a reader does not find the end of the packet: after the last byte it
-- is still inside the message, with the closing ETX taken for data.
pub bst_packet_never_ends :
    (config : Config) (now : ℕ) (bytes buffer : List ℕ) (current last : ℕ)
    → All IsByte bytes
    → crc_byte bytes ≡ dle
    → length bytes + 2 ≤ length buffer
    → read_raw_message config (waiting buffer current last) (events now (bst_packet bytes))
      ≡ more (
          reading
            (set (set (overwrite_from 0 buffer bytes) (length bytes) dle) (length bytes + 1) etx)
            (length bytes + 2)
            etx
            now)
unfolding bst_packet
bst_packet_never_ends config now bytes buffer current last h marked fits =
    rw (packet_crc bytes h, marked)
      (started config now bytes buffer current last (dle ∷ dle ∷ etx ∷ []) (omega arith)
        ∙ rw (zero-add (length bytes)) (
            swallowed_end config now (overwrite_from 0 buffer bytes) (length bytes) _ _
              (omega (arith, length-overwrite_from 0 buffer bytes))))

take-all : (xs : List ℕ) → take (length xs) xs ≡ xs
take-all [] = refl
take-all (x ∷ xs) = ap (λ t. x ∷ t) (take-all xs)

-- A device that takes the whole packet at once has exactly the packet.
pub write_bst_message_whole :
    (bytes : List ℕ)
    → write_bst_message bytes (wrote (length (bst_packet bytes)) ∷ []) ≡ (written, bst_packet bytes)
unfolding write_bst_message write_loop
write_bst_message_whole bytes = ground (arith, take-all (bst_packet bytes))

-- A device that first takes only a part of the packet has that part and then the packet from its
-- start again.
pub write_bst_message_repeats :
    (bytes : List ℕ) (k : ℕ)
    → k < length (bst_packet bytes)
    → write_bst_message bytes (again k ∷ wrote (length (bst_packet bytes)) ∷ [])
      ≡ (written, take k (bst_packet bytes) ++ bst_packet bytes)
unfolding write_bst_message write_loop
write_bst_message_repeats bytes k h = ground (arith, take-all (bst_packet bytes))
