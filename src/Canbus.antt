-- ===== src/Canbus.antt =====
-- canbus.go: the header of a CAN bus frame, its 29-bit identifier and both conversions.
-- A uint32 is a number below 2 ^ 32 and a uint8 a number below 256; each conversion and each
-- shift of the source is written out.
pub mod Layout
pub mod RoundTrip
mod Examples
use go_nmea_client.Common.{ℕ, ◌+◌, ◌<◌, u8, u32, ◌<<◌, ◌>>>◌, bit_and, bit_or, ltb, if◌then◌else◌}

pub record CanBusHeader : Type 0 where
  pub pgn : ℕ
  pub priority : ℕ
  pub source : ℕ
  pub destination : ℕ

-- 0xff is broadcast to all.
abbrev pub address_global : ℕ
address_global = 255

abbrev pub address_null : ℕ
address_null = 254

-- `pf` is `uint8(h.PGN)`, the low byte of the PGN, as in the source.
unfoldable pub uint32 : CanBusHeader → ℕ
uint32 h =
    let pf = u8 h.pgn in
    let addressed = if ltb pf 240 then bit_or h.source (u32 (h.destination << 8)) else h.source in
    let with_pgn = bit_or addressed (u32 (h.pgn << 8)) in
    bit_or with_pgn (u32 (bit_and h.priority 7 << 26))

unfoldable pub parse_can_id : ℕ → CanBusHeader
parse_can_id can_id =
    let priority = u8 (bit_and (can_id >>> 26) 7) in
    let source = u8 can_id in
    let ps = u8 (can_id >>> 8) in
    let pdu_format = u8 (can_id >>> 16) in
    let r_and_dp = bit_and (u8 (can_id >>> 24)) 3 in
    let pgn = u32 (u32 (r_and_dp << 16) + u32 (pdu_format << 8)) in
    if ltb pdu_format 240
    then record { pgn = pgn; priority = priority; source = source; destination = ps }
    else record {
      pgn = u32 (pgn + ps);
      priority = priority;
      source = source;
      destination = address_global;
    }
