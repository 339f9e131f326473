-- ===== src/FastPacket/Assembler/Calls.antt =====
-- `Assemble` of fastpacket.go call by call, over the frames of one message, where no other message is on
-- its way.
use go_nmea_client.Common.{
  ℕ, zero, suc, ◌+◌, ◌<◌, ◌≤◌, ◌≡◌, ◌⊎◌, inl, inr, refl, sym, ap, ◌∙◌, List, [], ◌∷◌, map, Bool,
  true, false, arith, ok, ltb, length,
}
use go_nmea_client.Common.Bits.{bit-zero}
use go_nmea_client.Nmea.{RawFrame, could_be_fast_packet}
use go_nmea_client.FastPacket.{Sequence, Target, append, reset, to}
use go_nmea_client.FastPacket.Transfer.{Sent, IsSendable, Arrival, frame, frame_bytes}
use go_nmea_client.FastPacket.Transfer.Step.{append-frame, store_owner, store_time}
use go_nmea_client.FastPacket.Reassembly.{feed}
use go_nmea_client.FastPacket.Assembler.{
  FastPacketAssembler, is_fast_packet, contains, matches, max_age, refresh, scan, swap_remove,
  choose, finish, assemble_fast, assemble,
}

-- A call of `Assemble`, with what the clock shows and the object of the pool.
pub record Call : Type 0 where
  pub now : ℕ
  pub item : Sequence
  pub frame : RawFrame

-- Calls that only the last of reports a message; `after` and `result` are the assembler and the target then.
pub data Runs (after : FastPacketAssembler) (result : Target)
    : FastPacketAssembler → Target → List Call → Type 0 where
  reports :
      {a : FastPacketAssembler} {target : Target} {c : Call}
      → assemble a c.now c.item c.frame target ≡ ok (after, result, true)
      → Runs after result a target (c ∷ [])
  waits :
      {a b : FastPacketAssembler} {target between : Target} {c : Call} {calls : List Call}
      → assemble a c.now c.item c.frame target ≡ ok (b, between, false)
      → Runs after result b between calls
      → Runs after result a target (c ∷ calls)

module _ (s : Sent) where
  pub record Owns (m : Sequence) : Type 0 where
    pub header_same : m.header ≡ s.header
    pub counter_same : m.sequence ≡ s.counter

  append-Owns :
      (a : Arrival) (m : Sequence)
      → a.0 < 32
      → (m.received_frames_mask ≡ 0) ⊎ Owns m
      → Owns (append m (frame s a)).0
  append-Owns a m h (inl empty) = record {
    header_same = ground (arith, append-frame s a m h, store_owner s a m, bit-zero a.0);
    counter_same = ground (arith, append-frame s a m h, store_owner s a m, bit-zero a.0);
  }
  append-Owns a m h (inr o) = record {
    header_same = ground (arith, append-frame s a m h, store_owner s a m, o.header_same);
    counter_same = ground (arith, append-frame s a m h, store_owner s a m, o.counter_same);
  }

  matches-Owns :
      (a : Arrival) (m : Sequence) → IsSendable s → a.0 < 32 → Owns m → matches (frame s a) m ≡ true
  unfolding matches frame frame_bytes
  matches-Owns (zero, t) m ok_s h o =
      ground (arith, o.header_same, o.counter_same, ok_s.counter_fits)
  matches-Owns (suc k, t) m ok_s h o =
      ground (arith, o.header_same, o.counter_same, ok_s.counter_fits)

  -- A frame sets the time, but for one that was seen before.
  append_time :
      (a : Arrival) (m : Sequence) (t0 : ℕ)
      → a.0 < 32
      → t0 ≤ a.1
      → (m.received_frames_mask ≡ 0) ⊎ (t0 ≤ m.last_received_frame_time)
      → t0 ≤ (append m (frame s a)).0.last_received_frame_time
  append_time a m t0 h late old =
      ground (arith, append-frame s a m h, store_time s a m, bit-zero a.0, old)

  -- The sequence that the next frame goes to: an object of the pool, reset, or the one in transfer.
  abbrev pub Ready : ℕ → FastPacketAssembler → Sequence → Sequence → Type 0
  Ready t0 a m item =
      ((a.in_transfer ≡ []) × (m ≡ reset item))
      ⊎ ((a.in_transfer ≡ m ∷ []) × Owns m × (t0 ≤ m.last_received_frame_time))

  Ready-unseen :
      (t0 : ℕ) (a : FastPacketAssembler) (m item : Sequence)
      → Ready t0 a m item
      → ((m.received_frames_mask ≡ 0) ⊎ Owns m)
        × ((m.received_frames_mask ≡ 0) ⊎ (t0 ≤ m.last_received_frame_time))
  unfolding reset
  Ready-unseen t0 a m item (inl (e, new)) =
      let empty : m.received_frames_mask ≡ 0 = ap (λ (x : Sequence). x.received_frames_mask) new in
      (inl empty, inl empty)
  Ready-unseen t0 a m item (inr (e, o, fresh)) = (inr o, inr fresh)

  refresh_fresh :
      (now t0 : ℕ) (m : Sequence)
      → now ≤ t0 + max_age
      → t0 ≤ m.last_received_frame_time
      → refresh now m ≡ m
  unfolding refresh
  refresh_fresh now t0 m h fresh =
      let e : ltb (m.last_received_frame_time + max_age) now ≡ false = ground (arith, h, fresh) in
      rw e refl

  assemble-Ready :
      (t0 : ℕ) (a : FastPacketAssembler) (m item : Sequence) (x : Arrival) (now : ℕ)
      (target : Target)
      → IsSendable s
      → x.0 < 32
      → now ≤ t0 + max_age
      → is_fast_packet a (frame s x) ≡ true
      → Ready t0 a m item
      → assemble a now item (frame s x) target ≡ finish a (m ∷ []) 0 (append m (frame s x)) target
  unfolding assemble assemble_fast scan choose
  assemble-Ready t0 a m item x now target ok_s h young fast (inl (e, new)) = rw (fast, e, new) refl
  assemble-Ready t0 a m item x now target ok_s h young fast (inr (e, o, fresh)) =
      rw (fast, e, matches-Owns x m ok_s h o, refresh_fresh now t0 m young fresh) refl

  -- A call with a frame of the message: the frame arrives from `t0` on, and the clock is at most 750 ms past
  -- that time.
  pub record IsCall (t0 : ℕ) (x : Arrival) (c : Call) : Type 0 where
    pub numbered : x.0 < 32
    pub same : c.frame ≡ frame s x
    pub late : t0 ≤ x.1
    pub young : c.now ≤ t0 + max_age
    pub array : length c.item.bytes ≡ 223

  abbrev pub AreCalls : ℕ → List Arrival → List Call → Type 0
  AreCalls t0 [] [] = Unit {0}
  AreCalls t0 [] (c ∷ calls) = ⊥
  AreCalls t0 (x ∷ arrivals) [] = ⊥
  AreCalls t0 (x ∷ arrivals) (c ∷ calls) = IsCall t0 x c × AreCalls t0 arrivals calls

  -- Only the last frame makes the sequence complete.
  abbrev pub Completes : Sequence → List Arrival → Type 0
  Completes m [] = ⊥
  Completes m (x ∷ []) = (append m (frame s x)).1 ≡ true
  Completes m (x ∷ y ∷ arrivals) =
      ((append m (frame s x)).1 ≡ false) × Completes (append m (frame s x)).0 (y ∷ arrivals)

  abbrev pub IsFast : FastPacketAssembler → Type 0
  IsFast a = (could_be_fast_packet s.header.pgn ≡ true) × (contains a.pgns s.header.pgn ≡ true)

  is_fast_packet-IsFast :
      (a : FastPacketAssembler) (x : Arrival) → IsFast a → is_fast_packet a (frame s x) ≡ true
  unfolding is_fast_packet frame
  is_fast_packet-IsFast a x h = rw (h.0, h.1) refl

  finish_done :
      (a : FastPacketAssembler) (m : Sequence) (r : Sequence × Bool) (target t : Target)
      → r.1 ≡ true
      → to r.0 target ≡ ok t
      → finish a (m ∷ []) 0 r target ≡ ok (record a { in_transfer = [] }, t, true)
  unfolding finish swap_remove
  finish_done a m (m', true) target t h e = rw e refl
  finish_done a m (m', false) target t h e = absurd (cc)

  finish_more :
      (a : FastPacketAssembler) (m : Sequence) (r : Sequence × Bool) (target : Target)
      → r.1 ≡ false
      → finish a (m ∷ []) 0 r target ≡ ok (record a { in_transfer = r.0 ∷ [] }, target, false)
  unfolding finish
  finish_more a m (m', true) target h = absurd (cc)
  finish_more a m (m', false) target h = refl

  assemble-IsCall :
      (t0 : ℕ) (a : FastPacketAssembler) (m : Sequence) (x : Arrival) (c : Call) (target : Target)
      → IsSendable s
      → IsFast a
      → IsCall t0 x c
      → Ready t0 a m c.item
      → assemble a c.now c.item c.frame target ≡ finish a (m ∷ []) 0 (append m (frame s x)) target
  assemble-IsCall t0 a m x c target ok_s fast k ready =
      ap (λ (f : RawFrame). assemble a c.now c.item f target) k.same
      ∙ assemble-Ready t0 a m c.item x c.now target ok_s k.numbered k.young
          (is_fast_packet-IsFast a x fast) ready

  pub runs :
      (t0 : ℕ) (a : FastPacketAssembler) (m : Sequence) (x : Arrival) (arrivals : List Arrival)
      (c : Call) (calls : List Call) (target t : Target)
      → IsSendable s
      → IsFast a
      → IsCall t0 x c
      → AreCalls t0 arrivals calls
      → Ready t0 a m c.item
      → Completes m (x ∷ arrivals)
      → to (feed m false (map (frame s) (x ∷ arrivals))).0 target ≡ ok t
      → Runs (record a { in_transfer = [] }) t a target (c ∷ calls)
  unfolding feed
  runs t0 a m x [] c (d ∷ calls) target t ok_s fast k ks ready done e = absurd ks
  runs t0 a m x (y ∷ arrivals) c [] target t ok_s fast k ks ready done e = absurd ks
  runs t0 a m x [] c [] target t ok_s fast k ks ready done e = reports (
      assemble-IsCall t0 a m x c target ok_s fast k ready
      ∙ finish_done a m (append m (frame s x)) target t done e)
  runs t0 a m x (y ∷ arrivals) c (d ∷ calls) target t ok_s fast k ks ready done e =
      let r = append m (frame s x) in
      let (unseen, old) = Ready-unseen t0 a m c.item ready in
      waits (assemble-IsCall t0 a m x c target ok_s fast k ready ∙ finish_more a m r target done.0)
        (runs t0 (record a { in_transfer = r.0 ∷ [] }) r.0 y arrivals d calls target t ok_s fast
          ks.0 ks.1
          (inr (refl, append-Owns x m k.numbered unseen, append_time x m t0 k.numbered k.late old))
          done.1
          (ap (λ (b : Bool). to (feed r.0 b (map (frame s) (y ∷ arrivals))).0 target) (sym done.0)
            ∙ e))
