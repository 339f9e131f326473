-- ===== src/Actisense/Messages/Panics.antt =====
-- Where the parsers of actisense/binaryreader.go panic: they read at fixed places before, or
-- without, a test of the length.
use go_nmea_client.Common.{
  ℕ, zero, suc, ◌+◌, ◌-◌, ◌*◌, ◌≤◌, ◌<◌, ◌≡◌, ◌≢◌, ◌↔◌, ◌⊎◌, List, [], ◌∷◌, arith, err, panic,
  length, get_or, All, IsByte, drop, length-take, length-drop,
}
use go_nmea_client.Actisense.{at, slice, length_mismatch}
use go_nmea_client.Actisense.Crc.{crc, crc_check}
use go_nmea_client.Actisense.Slices.{at-lt, slice-le}
use go_nmea_client.Actisense.Messages.{
  from_actisense_ngt_binary_message, from_actisense_n2k_binary_message, from_raw_actisense_message,
}

byte-at : (raw : List ℕ) (i : ℕ) → All IsByte raw → get_or raw i 0 < 256
byte-at [] i h = omega arith
byte-at (b ∷ raw) zero h = h.0
byte-at (b ∷ raw) (suc i) h = byte-at raw i h.1

-- The NGT parser panics on a message of no byte or one byte, and on no other.
pub from_actisense_ngt_binary_message_panics :
    (raw : List ℕ) (now : ℕ)
    → (from_actisense_ngt_binary_message raw now ≡ panic) ↔ (length raw < 2)
unfolding from_actisense_ngt_binary_message at slice crc_check
from_actisense_ngt_binary_message_panics raw now = (
  λ e. ground (arith, length-take (length raw - 2) (drop 2 raw), length-drop 2 raw),
  λ h. ground arith,
)

n2k_long :
    (raw : List ℕ) (now : ℕ) → 13 ≤ length raw → from_actisense_n2k_binary_message raw now ≢ panic
unfolding from_actisense_n2k_binary_message
n2k_long raw now h e = ground (
  arith,
  at-lt raw 1,
  at-lt raw 2,
  at-lt raw 3,
  at-lt raw 4,
  at-lt raw 5,
  at-lt raw 6,
  at-lt raw 7,
  slice-le raw 13 (length raw),
)

n2k_mismatch :
    (raw : List ℕ) (now : ℕ)
    → All IsByte raw
    → 3 ≤ length raw
    → get_or raw 1 0 + get_or raw 2 0 * 256 + 1 ≢ length raw
    → from_actisense_n2k_binary_message raw now ≡ err length_mismatch
unfolding from_actisense_n2k_binary_message
n2k_mismatch raw now h long wrong =
    ground (arith, at-lt raw 1, at-lt raw 2, byte-at raw 1 h, byte-at raw 2 h)

n2k_panic_cases :
    (raw : List ℕ) (now : ℕ)
    → All IsByte raw
    → from_actisense_n2k_binary_message raw now ≡ panic
    → (length raw < 3)
      ⊎ ((length raw < 13) × (get_or raw 1 0 + get_or raw 2 0 * 256 + 1 ≡ length raw))
n2k_panic_cases raw now h e = ground (arith, n2k_long raw now, n2k_mismatch raw now h)

-- The N2K parser panics on a message of less than three bytes, and on one of less than 13 bytes
-- whose length field is right; on no other.
pub from_actisense_n2k_binary_message_panics :
    (raw : List ℕ) (now : ℕ)
    → All IsByte raw
    → (from_actisense_n2k_binary_message raw now ≡ panic) ↔ (
        (length raw < 3)
        ⊎ ((length raw < 13) × (get_or raw 1 0 + get_or raw 2 0 * 256 + 1 ≡ length raw)))
unfolding from_actisense_n2k_binary_message at slice
from_actisense_n2k_binary_message_panics raw now h =
    (λ e. n2k_panic_cases raw now h e, λ c. ground (arith, byte-at raw 1 h, byte-at raw 2 h))

-- The raw parser panics on a message of eight bytes with a right length and checksum, which has no
-- data, and on no other.
pub from_raw_actisense_message_panics :
    (raw : List ℕ) (now : ℕ)
    → (from_raw_actisense_message raw now ≡ panic)
      ↔ ((length raw ≡ 8) × (get_or raw 1 0 ≡ 5) × (crc raw ≡ 0))
unfolding from_raw_actisense_message at slice crc_check
from_raw_actisense_message_panics raw now = (λ e. ground arith, λ h. ground arith)
