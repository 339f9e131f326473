-- ===== src/FastPacket/Transfer/Step.antt =====
-- One frame: what `Append` of fastpacket.go does with a frame of the message.
use go_nmea_client.Common.{
  ℕ, zero, suc, ◌+◌, ◌-◌, ◌*◌, ◌/◌, ◌^◌, ◌<◌, ◌≤◌, ◌≡◌, refl, sym, ap, ◌∙◌, inr, List, [], ◌∷◌,
  false, arith, ◌==◌, if◌then◌else◌, length, get_or, bit_and, bit_or, take, overwrite,
  overwrite_from, length-overwrite, length-overwrite_from,
}
use go_nmea_client.Common.Bits.{bit, bit-zero, bit_and_mask, bit_or-lt, eq_of_bits}
use go_nmea_client.FastPacket.{
  Sequence, append, is_complete, begin, mark, store_first, store_next, frame_count, complete_mask,
}
use go_nmea_client.FastPacket.Masks.{seen-bit, bit-mark}
use go_nmea_client.FastPacket.Blocks.{
  chunk, first_index, length-chunk, get_or-chunk, get_or-overwrite, get_or-overwrite_from,
}
use native.Mathlib.Nat.{pow-le-pow_right, pow-suc, one-le-pow}
use go_nmea_client.FastPacket.Transfer.{
  Sent, IsSendable, Arrival, Holds, member, block, frame, frame_bytes,
}

-- The state after a frame that was not seen before.
pub store : Sent → Arrival → Sequence → Sequence
store s a m =
    let m' = mark (begin m (frame s a) s.counter) (frame s a) (2 ^ a.0) in
    if a.0 == 0 then store_first m' (frame s a) else store_next m' (frame s a) a.0

first_byte : (s : Sent) (k : ℕ) → get_or (frame_bytes s k) 0 0 ≡ s.counter * 32 + k
unfolding frame_bytes
first_byte s zero = omega arith
first_byte s (suc k) = refl

number_of : (s : Sent) (k : ℕ) → k < 32 → bit_and (get_or (frame_bytes s k) 0 0) 31 ≡ k
number_of s k h = rw (first_byte s k, bit_and_mask 5) (omega arith)

counter_of : (s : Sent) (k : ℕ) → k < 32 → get_or (frame_bytes s k) 0 0 / 2 ^ 5 ≡ s.counter
counter_of s k h = rw (first_byte s k) (omega arith)

-- `append` on a frame of the message.
pub append-frame :
    (s : Sent) (a : Arrival) (m : Sequence)
    → a.0 < 32
    → append m (frame s a) ≡ (
        if bit m.received_frames_mask a.0 == 1
        then (m, is_complete m)
        else (store s a m, is_complete (store s a m)))
unfolding append store frame
append-frame s a m h =
    rw (number_of s a.0 h, counter_of s a.0 h, seen-bit m.received_frames_mask a.0)

whole_chunk : (payload : ℕ → ℕ) → take 6 (chunk payload 0 6) ≡ chunk payload 0 6
unfolding chunk
whole_chunk payload = refl

store_mask :
    (s : Sent) (a : Arrival) (m : Sequence)
    → (store s a m).received_frames_mask ≡ bit_or m.received_frames_mask (2 ^ a.0)
unfolding store begin mark store_first store_next
store_mask s (k, t) m = ground arith

pub store_owner :
    (s : Sent) (a : Arrival) (m : Sequence)
    → ((store s a m).header ≡ (if m.received_frames_mask == 0 then s.header else m.header))
      × ((store s a m).sequence ≡ (if m.received_frames_mask == 0 then s.counter else m.sequence))
unfolding store begin mark store_first store_next frame
store_owner s (k, t) m = ground arith

pub store_time :
    (s : Sent) (a : Arrival) (m : Sequence) → (store s a m).last_received_frame_time ≡ a.1
unfolding store begin mark store_first store_next frame
store_time s (k, t) m = ground arith

store_first_lengths :
    (s : Sent) (t : ℕ) (m : Sequence)
    → ((store s (0, t) m).length ≡ s.len)
      × ((store s (0, t) m).complete_frames_mask ≡ complete_mask (frame_count s.len))
unfolding store begin mark store_first store_next frame
store_first_lengths s t m = (refl, refl)

store_next_lengths :
    (s : Sent) (k t : ℕ) (m : Sequence)
    → ((store s (suc k, t) m).length ≡ m.length)
      × ((store s (suc k, t) m).complete_frames_mask ≡ m.complete_frames_mask)
unfolding store begin mark store_first store_next frame
store_next_lengths s k t m = ground arith

store_first_bytes :
    (s : Sent) (t : ℕ) (m : Sequence)
    → (store s (0, t) m).bytes ≡ overwrite m.bytes (chunk s.payload 0 6)
unfolding store begin mark store_first store_next frame
store_first_bytes s t m = ground (arith, whole_chunk s.payload)

pred_suc : (k : ℕ) → suc k - 1 ≡ k
pred_suc k = omega arith

store_next_bytes :
    (s : Sent) (k t : ℕ) (m : Sequence)
    → (store s (suc k, t) m).bytes
      ≡ overwrite_from (6 + k * 7) m.bytes (chunk s.payload (6 + k * 7) 7)
unfolding store begin mark store_first store_next frame
store_next_bytes s k t m = ground (arith, ap (λ (j : ℕ). 6 + j * 7) (pred_suc k))

later_index :
    (payload : ℕ → ℕ) (i start : ℕ) → start ≤ i → payload (start + (i - start)) ≡ payload i
later_index payload i start h = ap payload (omega arith)

-- Frame `k` sets the bytes of its block to those of the payload, and no others.
pub store_content :
    (s : Sent) (a : Arrival) (m : Sequence) (i : ℕ)
    → length m.bytes ≡ 223
    → a.0 < 32
    → i < 223
    → get_or (store s a m).bytes i 0 ≡ (if block i == a.0 then s.payload i else get_or m.bytes i 0)
store_content s (zero, t) m i sized hk hi = rw (store_first_bytes s t m) (
    ground (
      arith,
      get_or-overwrite m.bytes (chunk s.payload 0 6) i,
      length-chunk s.payload 0 6,
      get_or-chunk s.payload 0 6 i,
      ap s.payload (first_index i),
    ))
store_content s (suc k, t) m i sized hk hi = rw (store_next_bytes s k t m) (
    ground (
      arith,
      get_or-overwrite_from (6 + k * 7) m.bytes (chunk s.payload (6 + k * 7) 7) i,
      length-chunk s.payload (6 + k * 7) 7,
      get_or-chunk s.payload (6 + k * 7) 7 (i - (6 + k * 7)),
      later_index s.payload i (6 + k * 7),
    ))

pub length-store :
    (s : Sent) (a : Arrival) (m : Sequence) → length (store s a m).bytes ≡ length m.bytes
length-store s (zero, t) m = rw (store_first_bytes s t m) (length-overwrite m.bytes _)
length-store s (suc k, t) m = rw (store_next_bytes s k t m) (length-overwrite_from _ m.bytes _)

pow_fits : (k : ℕ) → k < 32 → 2 ^ k < 2 ^ 32
pow_fits k h = omega (
  arith,
  pow-le-pow_right {n = 2} (omega arith) {i = suc k} {j = 32} h,
  pow-suc 2 k,
  one-le-pow k 2,
)

store_lengths :
    (s : Sent) (a : Arrival) (m : Sequence)
    → ((store s a m).length ≡ (if a.0 == 0 then s.len else m.length))
      × ((store s a m).complete_frames_mask
          ≡ (if a.0 == 0 then complete_mask (frame_count s.len) else m.complete_frames_mask))
store_lengths s (zero, t) m = store_first_lengths s t m
store_lengths s (suc k, t) m = ground (arith, store_next_lengths s k t m)

pub nothing_seen : (s : Sent) (m : Sequence) → Holds s [] m → m.received_frames_mask ≡ 0
nothing_seen s m v =
    eq_of_bits 32 _ 0 v.width (omega arith) (λ n l. v.received n ∙ sym (bit-zero n))

store_owned :
    (s : Sent) (a : Arrival) (seen : List Arrival) (m : Sequence)
    → Holds s seen m
    → ((store s a m).header ≡ s.header) × ((store s a m).sequence ≡ s.counter)
store_owned s a [] m v = ground (arith, store_owner s a m, nothing_seen s m v)
store_owned s a (b ∷ seen) m v = ground (arith, store_owner s a m, v.owner)

-- The sequence holds one frame more.
pub store-Holds :
    (s : Sent) (a : Arrival) (seen : List Arrival) (m : Sequence)
    → IsSendable s
    → a.0 < 32
    → member a.0 seen ≡ false
    → Holds s seen m
    → Holds s (a ∷ seen) (store s a m)
store-Holds s a seen m ok_s h new v = record {
  width = rw (store_mask s a m) (bit_or-lt 32 _ _ v.width (pow_fits a.0 h));
  received = λ n.
      rw (store_mask s a m) (ground (arith, bit-mark m.received_frames_mask a.0 n, v.received n));
  sized = rw (length-store s a m) v.sized;
  started = λ e. ground (arith, store_lengths s a m, v.started);
  unstarted = λ e. ground (arith, store_lengths s a m, v.unstarted);
  content = λ i l e. ground (arith, store_content s a m i v.sized h l, v.content i l);
  owner = inr (store_owned s a seen m v);
}
