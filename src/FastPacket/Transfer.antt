-- ===== src/FastPacket/Transfer.antt =====
-- The fast-packet protocol as fastpacket.go reads it: the frames of one message, and what a
-- sequence holds after it has seen some of them, in any order and with repetitions.
pub mod Step
use go_nmea_client.Common.{
  ℕ, zero, suc, ◌+◌, ◌-◌, ◌*◌, ◌/◌, ◌%◌, ◌^◌, ◌<◌, ◌≤◌, ◌≡◌, refl, sym, ap, ◌∙◌, ◌⊎◌, inl, inr,
  List, [], ◌∷◌, Bool, true, false, arith, ltb, ◌==◌, ◌||◌, not, if◌then◌else◌, Bool-cases, length,
  map, get_or, bit_and, bit_or, take, drop, overwrite, overwrite_from, length-overwrite,
  length-overwrite_from,
}
use go_nmea_client.Common.Bits.{bit, bit-zero, bit_and_mask, bit-le-one, bit_or-lt}
use go_nmea_client.Canbus.{CanBusHeader}
use go_nmea_client.Nmea.{RawFrame}
use go_nmea_client.FastPacket.{
  Sequence, append, is_complete, begin, mark, store_first, store_next, frame_count, complete_mask,
}
use go_nmea_client.FastPacket.Masks.{seen-bit, bit-mark}
use go_nmea_client.FastPacket.Blocks.{
  chunk, length-chunk, get_or-chunk, get_or-overwrite, get_or-overwrite_from,
}

-- A message to send: its header, the 3-bit counter of its frames, its length, and its bytes with
-- whatever fills the last frame behind them.
pub record Sent : Type 0 where
  pub header : CanBusHeader
  pub counter : ℕ
  pub len : ℕ
  pub payload : ℕ → ℕ

pub record IsSendable (s : Sent) : Type 0 where
  pub counter_fits : s.counter < 8
  pub len_fits : s.len ≤ 223

-- The eight bytes of frame `k`.
unfoldable pub frame_bytes : Sent → ℕ → List ℕ
frame_bytes s zero = s.counter * 32 ∷ s.len ∷ chunk s.payload 0 6
frame_bytes s (suc k) = (s.counter * 32 + suc k) ∷ chunk s.payload (6 + k * 7) 7

-- A frame number and the time at which that frame arrives.
abbrev pub Arrival : Type 0
Arrival = ℕ × ℕ

unfoldable pub frame : Sent → Arrival → RawFrame
unfolding frame_bytes
frame s a = record { time = a.1; header = s.header; length = 8; bytes = frame_bytes s a.0 }

abbrev pub member : ℕ → List Arrival → Bool
member n [] = false
member n (a ∷ rest) = n == a.0 || member n rest

-- The frame that carries byte `i` of the message.
abbrev pub block : ℕ → ℕ
block i = (i + 1) / 7

-- What the sequence holds once the frames `seen` have arrived.
pub record Holds (s : Sent) (seen : List Arrival) (m : Sequence) : Type 0 where
  pub width : m.received_frames_mask < 2 ^ 32
  pub received : (n : ℕ) → bit m.received_frames_mask n ≡ (if member n seen then 1 else 0)
  pub sized : length m.bytes ≡ 223
  pub started :
      member 0 seen ≡ true
      → (m.length ≡ s.len) × (m.complete_frames_mask ≡ complete_mask (frame_count s.len))
  pub unstarted : member 0 seen ≡ false → m.complete_frames_mask ≡ 0
  pub content : (i : ℕ) → i < 223 → member (block i) seen ≡ true → get_or m.bytes i 0 ≡ s.payload i
  pub owner : (seen ≡ []) ⊎ ((m.header ≡ s.header) × (m.sequence ≡ s.counter))

-- An empty sequence, such as `reset` leaves.
pub record IsEmpty (m : Sequence) : Type 0 where
  pub none_received : m.received_frames_mask ≡ 0
  pub none_awaited : m.complete_frames_mask ≡ 0
  pub array : length m.bytes ≡ 223

pub IsEmpty-Holds : (s : Sent) (m : Sequence) → IsEmpty m → Holds s [] m
IsEmpty-Holds s m e = record {
  width = omega (arith, e.none_received);
  received = λ n. rw e.none_received (bit-zero n);
  sized = e.array;
  started = λ h. cc;
  unstarted = λ h. e.none_awaited;
  content = λ i l h. cc;
  owner = inl refl;
}
