-- ===== src/Actisense/Messages.antt =====
-- actisense/binaryreader.go: the four parsers of unescaped messages.
-- `raw` is `message[0:n]`, a slice of the read buffer; where a parser slices past its length the
-- buffer behind it is an argument too.
pub mod Formats
pub mod Panics
use go_nmea_client.Common.{
  ℕ, ◌+◌, ◌-◌, List, [], ◌∷◌, ◌++◌, Bool, Result, ok, err, panic, ◌>>=◌, ◌>>◌, check, fail_if, ltb,
  leb, ◌==◌, not, if◌then◌else◌, length, get_or, take, drop, replicate, overwrite, u32, ◌<<◌, ◌>>>◌,
  bit_and, u8,
}
use go_nmea_client.Canbus.{CanBusHeader, parse_can_id}
use go_nmea_client.Nmea.{RawMessage}
use go_nmea_client.Actisense.{Error, too_short, length_mismatch, at, slice}
use go_nmea_client.Actisense.Crc.{crc_check}

abbrev pub fake_pgn_offset : ℕ
fake_pgn_offset = 0x40000

-- `len(raw) - 2 > payloadLen` assigns the same value again, so the test has no effect.
unfoldable pub from_ngt_message : List ℕ → ℕ → ℕ → Result Error RawMessage
from_ngt_message buffer n now = do
  fail_if (ltb n 14) too_short
  payload_len ← at (take n buffer) 1
  payload ← slice buffer 2 payload_len
  let bytes = overwrite (replicate payload_len 0) payload
  first ← at bytes 0
  ok (record {
    time = now;
    header = record {
      pgn = u32 (fake_pgn_offset + first);
      priority = 0;
      source = 0;
      destination = 0;
    };
    bytes = bytes;
  })

-- `data` of the source is `raw[2:]`.
unfoldable pub from_actisense_ngt_binary_message : List ℕ → ℕ → Result Error RawMessage
from_actisense_ngt_binary_message raw now = do
  body ← slice raw 2 (length raw)
  let len = length raw - 2
  fail_if (ltb len 11) too_short
  l ← at body 10
  let end = 11 + l
  fail_if (not (len == end + 1)) length_mismatch
  crc_check raw
  pgn0 ← at body 1
  pgn1 ← at body 2
  pgn2 ← at body 3
  payload ← slice body 11 end
  source ← at body 5
  destination ← at body 4
  priority ← at body 0
  ok (record {
    time = now;
    header = record {
      pgn = u32 (u32 (pgn0 + u32 (pgn1 << 8)) + u32 (pgn2 << 16));
      priority = priority;
      source = source;
      destination = destination;
    };
    bytes = overwrite (replicate l 0) payload;
  })

unfoldable pub from_actisense_n2k_binary_message : List ℕ → ℕ → Result Error RawMessage
from_actisense_n2k_binary_message raw now = do
  low ← at raw 1
  high ← at raw 2
  let len = u32 (low + u32 (high << 8))
  fail_if (not (len + 1 == length raw)) length_mismatch
  dst ← at raw 3
  src ← at raw 4
  dprp ← at raw 7
  let prio = bit_and (dprp >>> 2) 7
  let r_and_dp = bit_and dprp 3
  pdu_format ← at raw 6
  let group = u32 (u32 (r_and_dp << 16) + u32 (pdu_format << 8))
  pgn ← (if ltb pdu_format 240 then ok group else (at raw 5 >>= λ ps. ok (u32 (group + ps))))
  check (leb 13 (length raw))
  payload ← slice raw 13 (length raw)
  ok (record {
    time = now;
    header = record { pgn = pgn; priority = prio; source = src; destination = dst };
    bytes = overwrite (replicate (length raw - 13) 0) payload;
  })

-- `binary.LittleEndian.Uint32`
unfoldable pub little_endian_uint32 : List ℕ → ℕ
little_endian_uint32 b =
    get_or b 0 0 + (get_or b 1 0 << 8) + (get_or b 2 0 << 16) + (get_or b 3 0 << 24)

-- `make([]byte, dLen-6)` panics where `dLen` is below 6.
unfoldable pub from_raw_actisense_message : List ℕ → ℕ → Result Error RawMessage
from_raw_actisense_message raw now = do
  fail_if (ltb (length raw) 8) too_short
  d_len ← at raw 1
  fail_if (not (d_len + 3 == length raw)) length_mismatch
  crc_check raw
  id ← slice raw 4 8
  check (leb 6 d_len)
  payload ← slice raw 8 (length raw - 1)
  ok (record {
    time = now;
    header = parse_can_id (little_endian_uint32 id);
    bytes = overwrite (replicate (d_len - 6) 0) payload;
  })
