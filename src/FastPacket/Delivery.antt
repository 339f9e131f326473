-- ===== src/FastPacket/Delivery.antt =====
-- fastpacket.go from the sender's side: the frames that carry a message, and whether the receiver
-- ever reports it.
use go_nmea_client.Common.{
  ℕ, ◌+◌, ◌*◌, ◌%◌, ◌^◌, ◌<◌, ◌≤◌, ◌≡◌, ◌≢◌, ◌⊎◌, List, ◌∷◌, map, true, false, arith, ltb, lt→ltb,
  ok, All, get_or, bit_and, bit_or,
}
use go_nmea_client.Nmea.{RawFrame, RawMessage}
use go_nmea_client.FastPacket.{Sequence, append, as_message, begin, mark, store_first, store_next}
use go_nmea_client.FastPacket.Masks.{frames_awaited, frames_needed, seen-bit, bit-mark}
use go_nmea_client.FastPacket.Blocks.{chunk}
use go_nmea_client.FastPacket.Transfer.{Sent, IsSendable, Arrival, IsEmpty, member, frame}
use go_nmea_client.FastPacket.Reassembly.{feed, feed-complete_iff, feed-as_message}

-- The lengths at which `Append` waits for as many frames as carry the message.
abbrev pub IsCounted : ℕ → Type 0
IsCounted len = (len ≤ 6) ⊎ ((len + 1) % 7 ≢ 0) ⊎ (len ≡ 223)

awaited-needed : (len : ℕ) → len ≤ 223 → IsCounted len → frames_awaited len ≡ frames_needed len
unfolding frames_awaited frames_needed
awaited-needed len h c = ground arith

needed-lt-awaited :
    (j : ℕ)
    → 1 ≤ j
    → j ≤ 30
    → (frames_needed (6 + j * 7) < frames_awaited (6 + j * 7)) × (frames_needed (6 + j * 7) < 32)
unfolding frames_awaited frames_needed
needed-lt-awaited j lo hi = ground arith

module _ (s : Sent) (a : Arrival) (rest : List Arrival) (m : Sequence) (ok_s : IsSendable s)
    (numbered : All (λ b. b.0 < 32) (a ∷ rest)) (empty : IsEmpty m) where
  -- When the frames that arrived, in any order and with repetitions, are those that carry the
  -- message, the last `Append` reports it and it is read off as it was sent. The length is at most 6,
  -- or exactly 223, or not of the form 6 + 7 j.
  pub feed_delivers :
      IsCounted s.len
      → ((n : ℕ) → n < 32 → member n (a ∷ rest) ≡ ltb n (frames_needed s.len))
      → ((feed m false (map (frame s) (a ∷ rest))).1 ≡ true)
        × ((r : RawMessage) × (as_message (feed m false (map (frame s) (a ∷ rest))).0 ≡ ok r)
            × (r.header ≡ s.header)
            × (r.bytes ≡ chunk s.payload 0 s.len))
  feed_delivers counted same =
      let done =
        (feed-complete_iff s a rest m ok_s numbered empty).1
          λ n l. rw (awaited-needed s.len ok_s.len_fits counted) (same n l) in
      (done, feed-as_message s a rest m ok_s numbered empty done)

  -- A message of 6 + 7 j bytes, j from 1 to 30, is never reported from the frames that carry it:
  -- `Append` waits for one frame more.
  pub feed_never_completes :
      (j : ℕ)
      → 1 ≤ j
      → j ≤ 30
      → s.len ≡ 6 + j * 7
      → member (frames_needed s.len) (a ∷ rest) ≡ false
      → (feed m false (map (frame s) (a ∷ rest))).1 ≢ true
  feed_never_completes j lo hi len missing done =
      let (short, small) = needed-lt-awaited j lo hi in
      let fewer : frames_needed s.len < frames_awaited s.len = rw len short in
      let wanted =
        (feed-complete_iff s a rest m ok_s numbered empty).0 done (frames_needed s.len)
          (rw len small) in
      cc (wanted, missing, lt→ltb _ _ fewer)

-- A frame that the sequence has just taken changes nothing when it comes again.
pub append_repeat : (m : Sequence) (f : RawFrame) → (append (append m f).0 f).0 ≡ (append m f).0
unfolding append begin mark store_first store_next
append_repeat m f =
    let k = bit_and (get_or f.bytes 0 0) 31 in
    ground (
      arith,
      seen-bit m.received_frames_mask k,
      seen-bit (bit_or m.received_frames_mask (2 ^ k)) k,
      bit-mark m.received_frames_mask k k,
    )
