-- ===== src/Nmea/Marshal.antt =====
-- What `MarshalRawMessage` of nmea.go writes.
use go_nmea_client.Common.{
  ℕ, suc, ◌+◌, ◌/◌, ◌^◌, ◌≡◌, ◌∷◌, ◌++◌, arith, length, replicate, overwrite-full, length-replicate,
}
use go_nmea_client.Nmea.{RawMessage, marshal_raw_message, little_endian}

replicate_13 : (n : ℕ) → replicate {A = ℕ} (13 + n) 0 ≡ replicate 13 0 ++ replicate n 0
replicate_13 n =
    let e : 13 + n ≡ suc (suc (suc (suc (suc (suc (suc (suc (suc (suc (suc (suc (suc n)))))))))))) =
      omega arith in
    rw e

-- The bytes: the PGN, the upper half of the time, two zeros, priority, source and destination, and
-- the data. The lower half of the time is nowhere.
pub marshal_raw_message_layout :
    (unix_nano : ℕ → ℕ) (raw : RawMessage)
    → marshal_raw_message unix_nano raw
      ≡ little_endian 4 raw.header.pgn
        ++ little_endian 4 (unix_nano raw.time / 2 ^ 32)
        ++ 0 ∷ 0 ∷ raw.header.priority ∷ raw.header.source ∷ raw.header.destination ∷ raw.bytes
unfolding marshal_raw_message
marshal_raw_message_layout unix_nano raw = ground (
  arith,
  replicate_13 (length raw.bytes),
  overwrite-full (replicate (length raw.bytes) 0) raw.bytes (length-replicate _ 0),
)

-- Two messages that differ in the lower half of their times only are written alike.
pub marshal_raw_message_forgets_time :
    (unix_nano : ℕ → ℕ) (raw : RawMessage) (later : ℕ)
    → unix_nano raw.time / 2 ^ 32 ≡ unix_nano later / 2 ^ 32
    → marshal_raw_message unix_nano (record raw { time = later })
      ≡ marshal_raw_message unix_nano raw
marshal_raw_message_forgets_time unix_nano raw later h = ground (
  arith,
  marshal_raw_message_layout unix_nano raw,
  marshal_raw_message_layout unix_nano (record raw { time = later }),
)
