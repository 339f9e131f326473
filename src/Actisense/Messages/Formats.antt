-- ===== src/Actisense/Messages/Formats.antt =====
-- The message formats of actisense/binaryreader.go, written from their fields, and what the parsers
-- read from them.
use go_nmea_client.Common.{
  ℕ, ◌+◌, ◌-◌, ◌*◌, ◌/◌, ◌%◌, ◌^◌, ◌<◌, ◌≡◌, ap, List, [], ◌∷◌, ◌++◌, arith, ok, ltb, if◌then◌else◌,
  length, length-append, get_or, u8, IsByte, All,
}
use go_nmea_client.Common.Bits.{bit_and_mask}
use go_nmea_client.Canbus.{parse_can_id}
use go_nmea_client.Nmea.{RawMessage}
use go_nmea_client.Actisense.Crc.{crc_check, crc_lem, sum, sum-append}
use go_nmea_client.Actisense.Slices.{at-lt, slice-middle, slice-tail, fresh-copy}
use go_nmea_client.Actisense.Messages.{
  from_actisense_ngt_binary_message, from_actisense_n2k_binary_message, from_raw_actisense_message,
  little_endian_uint32,
}

-- The byte that makes the sum of a message zero.
unfoldable pub crc_byte : List ℕ → ℕ
crc_byte bytes = u8 (256 - sum bytes % 256)

All-append : (xs ys : List ℕ) → All IsByte xs → All IsByte ys → All IsByte (xs ++ ys)
All-append [] ys h k = k
All-append (x ∷ xs) ys h k = (h.0, All-append xs ys h.1 k)

pub crc_check-crc_byte :
    (bytes : List ℕ) → All IsByte bytes → crc_check (bytes ++ (crc_byte bytes ∷ [])) ≡ ok tt
unfolding crc_check crc_byte
crc_check-crc_byte bytes h =
    let c = crc_byte bytes in
    ground (
      arith,
      crc_lem (bytes ++ (c ∷ [])) (All-append bytes (c ∷ []) h (omega arith)),
      sum-append bytes (c ∷ []),
    )

-- An NGT message: command, length, priority, PGN, destination, source, four bytes of time, the
-- number of data bytes and the data, closed by the checksum.
abbrev ngt_body : RawMessage → List ℕ → List ℕ
ngt_body m time =
    m.header.priority
    ∷ m.header.pgn % 256
    ∷ m.header.pgn / 256 % 256
    ∷ m.header.pgn / 65536
    ∷ m.header.destination
    ∷ m.header.source
    ∷ get_or time 0 0
    ∷ get_or time 1 0
    ∷ get_or time 2 0
    ∷ get_or time 3 0
    ∷ length m.bytes
    ∷ m.bytes

unfoldable pub ngt_message : ℕ → RawMessage → List ℕ → List ℕ
ngt_message command m time =
    let front = command ∷ (length m.bytes + 11) ∷ ngt_body m time in front ++ (crc_byte front ∷ [])

pub record IsNgt (command : ℕ) (m : RawMessage) (time : List ℕ) : Type 0 where
  pub command_fits : IsByte command
  pub pgn_fits : m.header.pgn < 2 ^ 24
  pub priority_fits : IsByte m.header.priority
  pub source_fits : IsByte m.header.source
  pub destination_fits : IsByte m.header.destination
  pub time_fits :
      All IsByte (get_or time 0 0 ∷ get_or time 1 0 ∷ get_or time 2 0 ∷ get_or time 3 0 ∷ [])
  pub length_fits : length m.bytes + 11 < 256
  pub bytes_fit : All IsByte m.bytes

ngt_front_bytes :
    (command : ℕ) (m : RawMessage) (time : List ℕ)
    → IsNgt command m time
    → All IsByte (command ∷ (length m.bytes + 11) ∷ ngt_body m time)
ngt_front_bytes command m time v = ground arith

-- The NGT parser reads the fields of a well-formed message back.
pub from_actisense_ngt_binary_message-ngt_message :
    (command now : ℕ) (m : RawMessage) (time : List ℕ)
    → IsNgt command m time
    → from_actisense_ngt_binary_message (ngt_message command m time) now
      ≡ ok (record m { time = now })
unfolding from_actisense_ngt_binary_message ngt_message
from_actisense_ngt_binary_message-ngt_message command now m time v =
    let front = command ∷ (length m.bytes + 11) ∷ ngt_body m time in
    let c = crc_byte front in
    let body = ngt_body m time ++ (c ∷ []) in
    let head =
      m.header.priority
      ∷ m.header.pgn % 256
      ∷ m.header.pgn / 256 % 256
      ∷ m.header.pgn / 65536
      ∷ m.header.destination
      ∷ m.header.source
      ∷ get_or time 0 0
      ∷ get_or time 1 0
      ∷ get_or time 2 0
      ∷ get_or time 3 0
      ∷ length m.bytes
      ∷ [] in
    ground (
      arith,
      slice-tail (command ∷ (length m.bytes + 11) ∷ []) body 2 (length (front ++ (c ∷ []))),
      length-append m.bytes (c ∷ []),
      at-lt body 10,
      at-lt body 1,
      at-lt body 2,
      at-lt body 3,
      at-lt body 5,
      at-lt body 4,
      at-lt body 0,
      crc_check-crc_byte front (ngt_front_bytes command m time v),
      slice-middle head m.bytes (c ∷ []) 11 (11 + length m.bytes),
      fresh-copy (length m.bytes) m.bytes,
    )

-- An N2K message: command, two bytes of length, destination, source, the PDU specific byte, the PDU
-- format, data page with priority, the control byte, four bytes of time, and the data.
abbrev n2k_front : ℕ → RawMessage → ℕ → ℕ → List ℕ → List ℕ
n2k_front command m ps control time =
    command
    ∷ (length m.bytes + 12) % 256
    ∷ (length m.bytes + 12) / 256
    ∷ m.header.destination
    ∷ m.header.source
    ∷ ps
    ∷ m.header.pgn / 256 % 256
    ∷ (m.header.pgn / 65536 + m.header.priority * 4)
    ∷ control
    ∷ get_or time 0 0
    ∷ get_or time 1 0
    ∷ get_or time 2 0
    ∷ get_or time 3 0
    ∷ []

unfoldable pub n2k_message : ℕ → RawMessage → ℕ → ℕ → List ℕ → List ℕ
n2k_message command m ps control time = n2k_front command m ps control time ++ m.bytes

-- An addressed PGN has a zero low byte; a broadcast one has it in the PDU specific byte.
pub record IsN2k (m : RawMessage) (ps : ℕ) : Type 0 where
  pub pgn_fits : m.header.pgn < 2 ^ 18
  pub priority_fits : m.header.priority < 8
  pub length_fits : length m.bytes + 12 < 65536
  pub group : m.header.pgn % 256 ≡ (if ltb (m.header.pgn / 256 % 256) 240 then 0 else ps)

-- The N2K parser reads the fields of a well-formed message back.
pub from_actisense_n2k_binary_message-n2k_message :
    (command now : ℕ) (m : RawMessage) (ps control : ℕ) (time : List ℕ)
    → IsN2k m ps
    → from_actisense_n2k_binary_message (n2k_message command m ps control time) now
      ≡ ok (record m { time = now })
unfolding from_actisense_n2k_binary_message n2k_message
from_actisense_n2k_binary_message-n2k_message command now m ps control time v =
    let front = n2k_front command m ps control time in
    let raw = front ++ m.bytes in
    let dprp = m.header.pgn / 65536 + m.header.priority * 4 in
    ground (
      arith,
      at-lt raw 1,
      at-lt raw 2,
      at-lt raw 3,
      at-lt raw 4,
      at-lt raw 5,
      at-lt raw 6,
      at-lt raw 7,
      bit_and_mask 3 (dprp / 4),
      bit_and_mask 2 dprp,
      slice-tail front m.bytes 13 (length raw),
      fresh-copy (length raw - 13) m.bytes,
    )

-- A raw message: command, length, two bytes of time, the CAN identifier and the data, closed by the
-- checksum.
abbrev raw_front : ℕ → ℕ → ℕ → ℕ → List ℕ → List ℕ
raw_front command t0 t1 id bytes =
    command
    ∷ (length bytes + 6)
    ∷ t0
    ∷ t1
    ∷ id % 256
    ∷ id / 256 % 256
    ∷ id / 65536 % 256
    ∷ id / 16777216
    ∷ bytes

unfoldable pub raw_message : ℕ → ℕ → ℕ → ℕ → List ℕ → List ℕ
raw_message command t0 t1 id bytes =
    let front = raw_front command t0 t1 id bytes in front ++ (crc_byte front ∷ [])

pub record IsRaw (command t0 t1 id : ℕ) (bytes : List ℕ) : Type 0 where
  pub command_fits : IsByte command
  pub t0_fits : IsByte t0
  pub t1_fits : IsByte t1
  pub id_fits : id < 2 ^ 32
  pub length_fits : length bytes + 6 < 256
  pub bytes_fit : All IsByte bytes

-- The raw parser reads the header from the identifier, and the data back.
pub from_raw_actisense_message-raw_message :
    (command now t0 t1 id : ℕ) (bytes : List ℕ)
    → IsRaw command t0 t1 id bytes
    → from_raw_actisense_message (raw_message command t0 t1 id bytes) now
      ≡ ok (record { time = now; header = parse_can_id id; bytes = bytes })
unfolding from_raw_actisense_message raw_message little_endian_uint32
from_raw_actisense_message-raw_message command now t0 t1 id bytes v =
    let front = raw_front command t0 t1 id bytes in
    let c = crc_byte front in
    let raw = front ++ (c ∷ []) in
    let id_bytes = id % 256 ∷ id / 256 % 256 ∷ id / 65536 % 256 ∷ id / 16777216 ∷ [] in
    let start = command ∷ (length bytes + 6) ∷ t0 ∷ t1 ∷ [] in
    ground (
      arith,
      length-append bytes (c ∷ []),
      at-lt raw 1,
      crc_check-crc_byte front (ground arith),
      slice-middle start id_bytes (bytes ++ (c ∷ [])) 4 8,
      slice-middle (start ++ id_bytes) bytes (c ∷ []) 8 (length raw - 1),
      fresh-copy (length bytes + 6 - 6) bytes,
      ap parse_can_id (rebuilt id v.id_fits),
    )
  where
    rebuilt :
        (id : ℕ)
        → id < 2 ^ 32
        → id % 256 + id / 256 % 256 * 2 ^ 8 + id / 65536 % 256 * 2 ^ 16 + id / 16777216 * 2 ^ 24
          ≡ id
    rebuilt id h = omega arith
