-- ===== src/Canbus/Layout.antt =====
-- The two conversions of canbus.go in plain arithmetic on the fields of the identifier.
use go_nmea_client.Common.{
  ℕ, ◌+◌, ◌*◌, ◌/◌, ◌%◌, ◌^◌, ◌<◌, ◌≡◌, ap, arith, bit_or, ltb, if◌then◌else◌,
}
use go_nmea_client.Common.Bits.{
  bit_and_mask, bit_or_split, bit_or-zero, zero-bit_or, bit_or_high, bit_or-lt,
}
use go_nmea_client.Canbus.{CanBusHeader, uint32, parse_can_id}

-- Field by field: priority is bits 26-28, the source bits 0-7; bits 8-25 hold the PGN, and where
-- bits 16-23 are below 240 its low byte is the destination instead.
pub parse_can_id_lem :
    (id : ℕ)
    → (parse_can_id id).priority ≡ id / 2 ^ 26 % 8
      × (parse_can_id id).source ≡ id % 256
      × (parse_can_id id).destination
        ≡ (if ltb (id / 2 ^ 16 % 256) 240 then id / 2 ^ 8 % 256 else 255)
      × (parse_can_id id).pgn
        ≡ id / 2 ^ 16 % 1024 * 256 + (if ltb (id / 2 ^ 16 % 256) 240 then 0 else id / 2 ^ 8 % 256)
unfolding parse_can_id
parse_can_id_lem id =
    ground (arith, bit_and_mask 3 (id / 2 ^ 26), bit_and_mask 2 (id / 2 ^ 24 % 256))

-- A header whose fields fit the identifier: 3 bits of priority, 18 bits of PGN, byte addresses.
pub record Fits (h : CanBusHeader) : Type 0 where
  pub priority_fits : h.priority < 8
  pub pgn_fits : h.pgn < 2 ^ 18
  pub source_fits : h.source < 256
  pub destination_fits : h.destination < 256

div_mod_256 : (p : ℕ) → p / 256 * 2 ^ 8 + p % 256 ≡ p
div_mod_256 p = omega arith

low_byte : (d p : ℕ) → d < 256 → bit_or d p ≡ p / 256 * 256 + bit_or d (p % 256)
low_byte d p h = ground (
  arith,
  bit_or_split 8 0 d (p / 256) (p % 256),
  zero-bit_or (p / 256),
  ap (λ (t : ℕ). bit_or d t) (div_mod_256 p),
)

merge_pgn : (s d p : ℕ) → s < 256 → bit_or (d * 2 ^ 8 + s) (p * 2 ^ 8) ≡ bit_or d p * 2 ^ 8 + s
merge_pgn s d p h = ground (arith, bit_or_split 8 d s p 0, bit_or-zero s)

-- The identifier as a sum of its fields. Where the low byte of the PGN is below 240 the
-- destination is merged into that byte by `|`.
pub uint32_lem :
    (h : CanBusHeader)
    → Fits h
    → uint32 h
      ≡ h.priority * 2 ^ 26
        + (h.pgn / 256 * 256
            + (if ltb (h.pgn % 256) 240 then bit_or h.destination (h.pgn % 256) else h.pgn % 256))
          * 2 ^ 8
        + h.source
unfolding uint32
uint32_lem h f = ground (
  arith,
  merge_pgn h.source h.destination h.pgn,
  merge_pgn h.source 0 h.pgn,
  low_byte h.destination h.pgn,
  zero-bit_or h.pgn,
  bit_and_mask 3 h.priority,
  bit_or-lt 8 h.destination (h.pgn % 256),
  bit_or_high 8 h.source h.destination,
  bit_or_high 26 ((h.pgn / 256 * 256 + bit_or h.destination (h.pgn % 256)) * 2 ^ 8 + h.source)
      h.priority,
  bit_or_high 26 (h.pgn * 2 ^ 8 + h.source) h.priority,
)
