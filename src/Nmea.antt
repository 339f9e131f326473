-- ===== src/Nmea.antt =====
-- nmea.go: frames, messages, the PGN ranges and `MarshalRawMessage`.
-- A time is the number of nanoseconds since Go's zero time; `unix_nano`, the reading of a time as
-- nanoseconds since 1970, belongs to Go's library and is an argument where it is used.
pub mod Marshal
mod Examples
use go_nmea_client.Common.{
  ℕ, zero, suc, ◌+◌, List, [], ◌∷◌, Bool, leb, u8, ◌>>>◌, length, replicate, overwrite_from, set,
}
use go_nmea_client.Canbus.{CanBusHeader}

abbrev pub fast_raw_packet_max_size : ℕ
fast_raw_packet_max_size = 223

abbrev pub iso_tp_data_max_size : ℕ
iso_tp_data_max_size = 1785

-- `bytes` is the array `Data [8]byte`.
pub record RawFrame : Type 0 where
  pub time : ℕ
  pub header : CanBusHeader
  pub length : ℕ
  pub bytes : List ℕ

-- `bytes` is the slice `Data`.
pub record RawMessage : Type 0 where
  pub time : ℕ
  pub header : CanBusHeader
  pub bytes : List ℕ

unfoldable pub could_be_fast_packet : ℕ → Bool
could_be_fast_packet pgn = leb 0x01ed00 pgn

-- `binary.LittleEndian.PutUint32` and `PutUint64` write these bytes.
abbrev pub little_endian : ℕ → ℕ → List ℕ
little_endian zero v = []
little_endian (suc n) v = u8 v ∷ little_endian n (v >>> 8)

-- The second write starts at the first byte again, as in the source.
unfoldable pub marshal_raw_message : (ℕ → ℕ) → RawMessage → List ℕ
marshal_raw_message unix_nano raw =
    let b = replicate (8 + 2 + 3 + length raw.bytes) 0 in
    let with_time = overwrite_from 0 b (little_endian 8 (unix_nano raw.time)) in
    let with_pgn = overwrite_from 0 with_time (little_endian 4 raw.header.pgn) in
    let with_priority = set with_pgn 10 raw.header.priority in
    let with_source = set with_priority 11 raw.header.source in
    let with_destination = set with_source 12 raw.header.destination in
    overwrite_from 13 with_destination raw.bytes
