-- ===== src/FastPacket/Reassembly.antt =====
-- A whole message through `Append` of fastpacket.go: the frames in any order, with repetitions.
mod Feed
use go_nmea_client.Common.{
  ℕ, suc, ◌+◌, ◌/◌, ◌^◌, ◌<◌, ◌≤◌, ◌≡◌, ◌≢◌, ◌↔◌, refl, sym, ap, ◌∙◌, inl, inr, List, [], ◌∷◌, map,
  Bool, true, false, arith, ltb, ltb→lt, leb, ◌==◌, if◌then◌else◌, Bool-cases, Result, ok, check,
  ◌>>◌, All, length, replicate, length-replicate, overwrite, overwrite-full, take, ==→eq, eq→==,
}
use go_nmea_client.Common.Bits.{bit, bit-zero, eq_of_bits, bit-low_ones}
use go_nmea_client.Nmea.{RawFrame, RawMessage}
use go_nmea_client.FastPacket.{
  Sequence, append, is_complete, as_message, frame_count, complete_mask,
}
use go_nmea_client.FastPacket.Masks.{
  frames_awaited, frames_needed, bit-complete_mask, complete_mask_lem, frames_awaited_bounds,
}
use go_nmea_client.FastPacket.Blocks.{chunk, take-chunk, length-chunk, first_index}
use go_nmea_client.FastPacket.Transfer.{
  Sent, IsSendable, Arrival, Holds, IsEmpty, member, block, frame, IsEmpty-Holds,
}
unfoldable pub use Feed.{feed}
use Feed.{feed-Holds, feed-is_complete, append-is_complete, seen_after, member-seen_after}

abbrev IsNumbered : Arrival → Type 0
IsNumbered a = a.0 < 32

mask_fits : (count : ℕ) → complete_mask count < 2 ^ 32
unfolding complete_mask
mask_fits count = omega arith

complete→masks :
    (m : Sequence) → is_complete m ≡ true → m.complete_frames_mask ≡ m.received_frames_mask
unfolding is_complete
complete→masks m e = ==→eq _ _ e

masks→complete :
    (m : Sequence) → m.complete_frames_mask ≡ m.received_frames_mask → is_complete m ≡ true
unfolding is_complete
masks→complete m e = eq→== _ _ e

-- The masks of a sequence that holds frame 0 agree just when the frames seen are those awaited.
masks_agree :
    (s : Sent) (seen : List Arrival) (m : Sequence)
    → IsSendable s
    → Holds s seen m
    → member 0 seen ≡ true
    → (is_complete m ≡ true) ↔ ((n : ℕ) → n < 32 → member n seen ≡ ltb n (frames_awaited s.len))
masks_agree s seen m ok_s v first = (
  λ e n l. ground (
    arith,
    v.received n,
    v.started first,
    ap (λ (w : ℕ). bit w n) (complete→masks m e),
    ap (λ (w : ℕ). bit w n) (v.started first).1,
    bit-complete_mask s.len n ok_s.len_fits,
  ),
  λ same. masks→complete m (
      (v.started first).1
      ∙ eq_of_bits 32 _ _ (mask_fits _) v.width
          λ n l. ground (arith, v.received n, same n l, bit-complete_mask s.len n ok_s.len_fits)),
)

-- Without frame 0 it is not complete.
masks_differ :
    (s : Sent) (a : Arrival) (seen : List Arrival) (m : Sequence)
    → Holds s (a ∷ seen) m
    → member 0 (a ∷ seen) ≡ false
    → is_complete m ≡ true
    → ⊥
masks_differ s a seen m v no_first e =
    let mask : m.received_frames_mask ≡ 0 = sym (complete→masks m e) ∙ v.unstarted no_first in
    ground (arith, v.received a.0, ap (λ (w : ℕ). bit w a.0) mask, bit-zero a.0)

awaits_first : (s : Sent) → ltb 0 (frames_awaited s.len) ≡ true
awaits_first s = ground (arith, frames_awaited_bounds s.len)

complete_iff :
    (s : Sent) (seen : List Arrival) (m : Sequence)
    → IsSendable s
    → seen ≢ []
    → Holds s seen m
    → (is_complete m ≡ true) ↔ ((n : ℕ) → n < 32 → member n seen ≡ ltb n (frames_awaited s.len))
complete_iff s [] m ok_s some_seen v = absurd (some_seen refl)
complete_iff s (a ∷ seen) m ok_s some_seen v = elim (Bool-cases (member 0 (a ∷ seen))) [
  | inl first ↦ masks_agree s (a ∷ seen) m ok_s v first
  | inr no_first ↦ (
    λ e. absurd (masks_differ s a seen m v no_first e),
    λ same. absurd (ground (arith, same 0 (omega arith), awaits_first s)),
  )
]

seen_after-ne-nil : (seen arrivals : List Arrival) → seen ≢ [] → seen_after seen arrivals ≢ []
seen_after-ne-nil seen [] h = h
seen_after-ne-nil seen (a ∷ arrivals) h = seen_after-ne-nil (a ∷ seen) arrivals (λ e. cc)

awaited_block : (len i : ℕ) → len ≤ 223 → i < len → block i < frames_awaited len
unfolding frames_awaited
awaited_block len i h l = ground arith

-- The bytes of a sequence that holds every awaited frame.
as_message-Holds :
    (s : Sent) (seen : List Arrival) (m : Sequence)
    → IsSendable s
    → Holds s seen m
    → ((n : ℕ) → n < 32 → member n seen ≡ ltb n (frames_awaited s.len))
    → (r : RawMessage) × (as_message m ≡ ok r)
      × (r.header ≡ m.header)
      × (r.bytes ≡ chunk s.payload 0 s.len)
unfolding as_message
as_message-Holds s seen m ok_s v same =
    let first : member 0 seen ≡ true = same 0 (omega arith) ∙ awaits_first s in
    let len : m.length ≡ s.len = (v.started first).0 in
    let read : take s.len m.bytes ≡ chunk s.payload 0 s.len =
      take-chunk s.payload 0 s.len m.bytes (omega (arith, ok_s.len_fits, v.sized)) λ i l. ground (
        arith,
        v.content i,
        same (block i) (omega (arith, ok_s.len_fits)),
        awaited_block s.len i ok_s.len_fits l,
        ap s.payload (first_index i),
      ) in
    (
      record {
        time = m.last_received_frame_time;
        header = m.header;
        bytes = chunk s.payload 0 s.len;
      },
      rw (len, read)
          (ground (
            arith,
            overwrite-full (replicate s.len 0) (chunk s.payload 0 s.len)
                (length-replicate s.len 0 ∙ sym (length-chunk s.payload 0 s.len)),
          )),
      refl,
      refl,
    )

module _ (s : Sent) (a : Arrival) (rest : List Arrival) (m : Sequence) (ok_s : IsSendable s)
    (numbered : All IsNumbered (a ∷ rest)) (empty : IsEmpty m) where
  after : Sequence × Bool
  after = feed m false (map (frame s) (a ∷ rest))

  seen : List Arrival
  seen = seen_after [] (a ∷ rest)

  after-Holds : Holds s seen after.0
  unfolding after seen
  after-Holds = feed-Holds s (a ∷ rest) [] m false ok_s numbered (IsEmpty-Holds s m empty)

  flag : after.1 ≡ is_complete after.0
  unfolding after feed
  flag = feed-is_complete s rest _ _ numbered.1 (append-is_complete s a m numbered.0)

  member-seen : (n : ℕ) → member n seen ≡ member n (a ∷ rest)
  unfolding seen
  member-seen n = member-seen_after n [] (a ∷ rest)

  seen_complete :
      (is_complete after.0 ≡ true)
      ↔ ((n : ℕ) → n < 32 → member n seen ≡ ltb n (frames_awaited s.len))
  unfolding seen
  seen_complete =
      complete_iff s seen after.0 ok_s (seen_after-ne-nil (a ∷ []) rest (λ e. cc)) after-Holds

  same_header : after.0.header ≡ s.header
  unfolding seen
  same_header = elim after-Holds.owner [
    | inl nothing ↦ absurd (seen_after-ne-nil (a ∷ []) rest (λ e. cc) nothing)
    | inr (h, c) ↦ h
  ]

  -- The last `Append` reports a complete message exactly when the frames that arrived are those
  -- numbered below `frames_awaited`.
  pub feed-complete_iff :
      ((feed m false (map (frame s) (a ∷ rest))).1 ≡ true)
      ↔ ((n : ℕ) → n < 32 → member n (a ∷ rest) ≡ ltb n (frames_awaited s.len))
  unfolding after
  feed-complete_iff = (
    λ e n l. sym (member-seen n) ∙ seen_complete.0 (sym flag ∙ e) n l,
    λ same. flag ∙ seen_complete.1 (λ n l. member-seen n ∙ same n l),
  )

  -- Where it does, the message read off has the header of the frames and the bytes that were sent.
  pub feed-as_message :
      (feed m false (map (frame s) (a ∷ rest))).1 ≡ true
      → (r : RawMessage) × (as_message (feed m false (map (frame s) (a ∷ rest))).0 ≡ ok r)
        × (r.header ≡ s.header)
        × (r.bytes ≡ chunk s.payload 0 s.len)
  unfolding after
  feed-as_message done =
      let (r, read, header, bytes) =
        as_message-Holds s seen after.0 ok_s after-Holds (seen_complete.0 (sym flag ∙ done)) in
      (r, read, header ∙ same_header, bytes)
