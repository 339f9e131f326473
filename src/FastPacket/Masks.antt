-- ===== src/FastPacket/Masks.antt =====
-- The frame masks of fastpacket.go as sets of frame numbers.
use go_nmea_client.Common.{
  ℕ, ◌+◌, ◌-◌, ◌/◌, ◌^◌, ◌≤◌, ◌≡◌, refl, min, true, arith, ltb, ◌==◌, not, if◌then◌else◌, all_below,
  all_below→true, ==→eq, bit_and, bit_or,
}
use go_nmea_client.Common.Bits.{bit, bit-low_ones, bit_and-pow, bit-le-one, bit-bit_or, bit-pow}
use go_nmea_client.FastPacket.{frame_count, complete_mask}
use native.Mathlib.Nat.{one-le-pow}

-- The number of frames that `Append` waits for.
unfoldable pub frames_awaited : ℕ → ℕ
frames_awaited len = if ltb 6 len then min 32 (1 + (len + 1) / 7) else 1

-- The number of frames that carry `len` bytes: 6 in the first and 7 in each other.
unfoldable pub frames_needed : ℕ → ℕ
frames_needed len = if ltb 6 len then 1 + (len - 6 + 6) / 7 else 1

mask_table :
    all_below 224 (λ len. complete_mask (frame_count len) == 2 ^ frames_awaited len - 1) ≡ true
unfolding all_below complete_mask frame_count frames_awaited
mask_table = refl

-- Up to 223 bytes the mask of a complete message has its lowest `frames_awaited` bits set.
pub complete_mask_lem :
    (len : ℕ) → len ≤ 223 → complete_mask (frame_count len) ≡ 2 ^ frames_awaited len - 1
complete_mask_lem len h = ==→eq _ _ (all_below→true 224 _ len mask_table (omega arith))

pub frames_awaited_bounds : (len : ℕ) → (1 ≤ frames_awaited len) × (frames_awaited len ≤ 32)
unfolding frames_awaited
frames_awaited_bounds len = ground arith

pub bit-complete_mask :
    (len k : ℕ)
    → len ≤ 223
    → bit (complete_mask (frame_count len)) k ≡ (if ltb k (frames_awaited len) then 1 else 0)
bit-complete_mask len k h = rw (complete_mask_lem len h) (bit-low_ones (frames_awaited len) k)

-- The test `mask & (1 << n) != 0` reads bit `n`.
pub seen-bit : (mask n : ℕ) → not (bit_and mask (2 ^ n) == 0) ≡ (bit mask n == 1)
seen-bit mask n = ground (arith, bit_and-pow mask n, bit-le-one mask n, one-le-pow n 2)

pub bit-mark : (mask n k : ℕ) → bit (bit_or mask (2 ^ n)) k ≡ (if n == k then 1 else bit mask k)
bit-mark mask n k = ground (arith, bit-bit_or mask (2 ^ n) k, bit-pow n k, bit-le-one mask k)
