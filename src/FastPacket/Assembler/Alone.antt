-- ===== src/FastPacket/Assembler/Alone.antt =====
-- `Assemble` of fastpacket.go over the frames of one message, where no other message is on its way: the
-- calls up to the one that reports it.
use mathlib.Core.List.{append_assoc}
use mathlib.Core.Path.{subst}
use go_nmea_client.Common.{
  ℕ, zero, suc, ◌<◌, ◌≡◌, inl, inr, refl, sym, ap, ◌∙◌, List, [], ◌∷◌, ◌++◌, map, Bool, true, false,
  arith, Result, ok, ltb, leb, ◌==◌, ==-refl, ◌||◌, if◌then◌else◌, Bool-cases, length, All,
  replicate, take, overwrite,
}
use go_nmea_client.Nmea.{RawFrame, RawMessage}
use go_nmea_client.FastPacket.{Sequence, Target, append, reset, to, as_message, fill, NoError}
use go_nmea_client.FastPacket.Masks.{frames_awaited, frames_needed}
use go_nmea_client.FastPacket.Blocks.{chunk}
use go_nmea_client.FastPacket.Transfer.{Sent, IsSendable, Arrival, IsEmpty, member, frame}
use go_nmea_client.FastPacket.Reassembly.{feed, feed-complete_iff}
use go_nmea_client.FastPacket.Delivery.{IsCounted, feed_delivers}
use go_nmea_client.FastPacket.Assembler.{FastPacketAssembler}
use go_nmea_client.FastPacket.Assembler.Calls.{Call, Runs, Completes, IsFast, AreCalls, runs}

feed_snoc :
    (m : Sequence) (done : Bool) (fs : List RawFrame) (f : RawFrame)
    → feed m done (fs ++ (f ∷ [])) ≡ append (feed m done fs).0 f
unfolding feed
feed_snoc m done [] f = refl
feed_snoc m done (g ∷ fs) f = feed_snoc (append m g).0 (append m g).1 fs f

map-snoc :
    (s : Sent) (xs : List Arrival) (y : Arrival)
    → map (frame s) (xs ++ (y ∷ [])) ≡ map (frame s) xs ++ (frame s y ∷ [])
map-snoc s [] y = refl
map-snoc s (x ∷ xs) y = ap (◌∷◌ (frame s x)) (map-snoc s xs y)

All-snoc :
    (P : Arrival → Type 0) (xs : List Arrival) (y : Arrival)
    → All P xs
    → P y
    → All P (xs ++ (y ∷ []))
All-snoc P [] y h p = (p, tt)
All-snoc P (x ∷ xs) y h p = (h.0, All-snoc P xs y h.1 p)

member-snoc :
    (n : ℕ) (xs : List Arrival) (y : Arrival) → member n (xs ++ (y ∷ [])) ≡ member n xs || n == y.0
member-snoc n [] y = ground arith
member-snoc n (x ∷ xs) y = ground (arith, member-snoc n xs y)

abbrev IsNumbered : Arrival → Type 0
IsNumbered a = a.0 < 32

module _ (s : Sent) (m : Sequence) (ok_s : IsSendable s) (empty : IsEmpty m) where
  abbrev after : List Arrival → Sequence × Bool
  after xs = feed m false (map (frame s) xs)

  after_snoc :
      (xs : List Arrival) (y : Arrival) → after (xs ++ (y ∷ [])) ≡ append (after xs).0 (frame s y)
  after_snoc xs y =
      ap (feed m false) (map-snoc s xs y) ∙ feed_snoc m false (map (frame s) xs) (frame s y)

  complete_has :
      (xs : List Arrival) (y : Arrival) (n : ℕ)
      → All IsNumbered (xs ++ (y ∷ []))
      → n < 32
      → (after (xs ++ (y ∷ []))).1 ≡ true
      → member n (xs ++ (y ∷ [])) ≡ ltb n (frames_awaited s.len)
  complete_has [] y n h small e = (feed-complete_iff s y [] m ok_s h empty).0 e n small
  complete_has (x ∷ xs) y n h small e =
      (feed-complete_iff s x (xs ++ (y ∷ [])) m ok_s h empty).0 e n small

  completes :
      (xs ys : List Arrival) (z : Arrival)
      → All IsNumbered xs
      → All IsNumbered ys
      → z.0 < 32
      → member z.0 xs ≡ false
      → member z.0 ys ≡ false
      → ltb z.0 (frames_awaited s.len) ≡ true
      → (after (xs ++ (ys ++ (z ∷ [])))).1 ≡ true
      → Completes s (after xs).0 (ys ++ (z ∷ []))
  completes xs [] z hx hy hz mx my needed e =
      ap (λ (r : Sequence × Bool). r.1) (sym (after_snoc xs z)) ∙ e
  completes xs (y ∷ ys) z hx hy hz mx my needed e =
      let seen = All-snoc IsNumbered xs y hx hy.0 in
      let unseen : member z.0 (xs ++ (y ∷ [])) ≡ false = ground (arith, member-snoc z.0 xs y) in
      let waiting : (append (after xs).0 (frame s y)).1 ≡ false =
        elim (Bool-cases (append (after xs).0 (frame s y)).1) [
          | inr n ↦ n
          | inl full ↦ absurd (
              cc (
                complete_has xs y z.0 seen hz
                    (ap (λ (r : Sequence × Bool). r.1) (after_snoc xs y) ∙ full),
                unseen,
                needed,
              ))
        ] in
      let later : Completes s (after (xs ++ (y ∷ []))).0 (ys ++ (z ∷ [])) =
        completes (xs ++ (y ∷ [])) ys z seen hy.1 hz unseen (ground arith) needed (
          ap (λ (ws : List Arrival). (after ws).1) (append_assoc xs (y ∷ []) (ys ++ (z ∷ [])))
          ∙ e) in
      step_Completes xs y ys z waiting (
        subst (λ (q : Sequence). Completes s q (ys ++ (z ∷ [])))
          (ap (λ (r : Sequence × Bool). r.0) (after_snoc xs y)) later)
    where
      step_Completes :
          (xs : List Arrival) (y : Arrival) (ys : List Arrival) (z : Arrival)
          → (append (after xs).0 (frame s y)).1 ≡ false
          → Completes s (append (after xs).0 (frame s y)).0 (ys ++ (z ∷ []))
          → Completes s (after xs).0 (y ∷ (ys ++ (z ∷ [])))
      step_Completes xs y [] z w l = (w, l)
      step_Completes xs y (x ∷ ys) z w l = (w, l)

abbrev message_held : Sequence → RawMessage
message_held m = record {
  time = m.last_received_frame_time;
  header = m.header;
  bytes = overwrite (replicate m.length 0) (take m.length m.bytes);
}

as_message-fits :
    (m : Sequence) (r : RawMessage)
    → as_message m ≡ ok r
    → (leb m.length 223 ≡ true) × (message_held m ≡ r)
unfolding as_message
as_message-fits m r e = elim (Bool-cases (leb m.length 223)) [
  | inr n ↦ absurd (ground (arith, e))
  | inl y ↦ (y, ok_eq (sym (as_message_lem y) ∙ e))
]
  where
    ok_eq : {x y : RawMessage} → ◌≡◌ {A = Result NoError RawMessage} (ok x) (ok y) → x ≡ y
    ok_eq h = cc

    as_message_lem : leb m.length 223 ≡ true → as_message m ≡ ok (message_held m)
    as_message_lem y = rw y refl

room :
    (n : ℕ) (target : Target)
    → target.capacity ≡ 0
    → target.message.bytes ≡ []
    → (if ltb target.capacity n then replicate n 0 else target.message.bytes) ≡ replicate n 0
room zero target no_room none_yet = ground arith
room (suc n) target no_room none_yet = ground arith

-- An empty target takes the message that the sequence gives.
to-as_message :
    (m : Sequence) (target : Target) (r : RawMessage)
    → target.capacity ≡ 0
    → target.message.bytes ≡ []
    → as_message m ≡ ok r
    → (t : Target) × (to m target ≡ ok t) × (t.message ≡ r)
unfolding to fill
to-as_message m target r no_room none_yet e =
    let (fits, same) = as_message-fits m r e in
    (fill m target, rw fits refl, rw (room m.length target no_room none_yet) same)

-- The frames of a message, with calls of `Assemble` for them: the last one has not come before, and up
-- to it only such frames arrive as the message needs, each at least once, in any order.
pub record IsDelivery (s : Sent) (t0 : ℕ) (front : List Arrival) (last : Arrival) (c : Call)
    (calls : List Call) : Type 0 where
  pub sendable : IsSendable s
  pub length_counted : IsCounted s.len
  pub frames : (n : ℕ) → n < 32 → member n (front ++ (last ∷ [])) ≡ ltb n (frames_needed s.len)
  pub last_new : member last.0 front ≡ false
  pub are_calls : AreCalls s t0 (front ++ (last ∷ [])) (c ∷ calls)

AreCalls-IsNumbered :
    (s : Sent) (t0 : ℕ) (xs : List Arrival) (calls : List Call)
    → AreCalls s t0 xs calls
    → All IsNumbered xs
AreCalls-IsNumbered s t0 [] calls h = tt
AreCalls-IsNumbered s t0 (x ∷ xs) [] h = absurd h
AreCalls-IsNumbered s t0 (x ∷ xs) (c ∷ calls) h =
    (h.0.numbered, AreCalls-IsNumbered s t0 xs calls h.1)

All-split :
    (xs : List Arrival) (y : Arrival)
    → All IsNumbered (xs ++ (y ∷ []))
    → All IsNumbered xs × (y.0 < 32)
All-split [] y h = (tt, h.0)
All-split (x ∷ xs) y h = ((h.0, (All-split xs y h.1).0), (All-split xs y h.1).1)

reset-IsEmpty : (item : Sequence) → length item.bytes ≡ 223 → IsEmpty (reset item)
unfolding reset
reset-IsEmpty item h = record { none_received = refl; none_awaited = refl; array = h }

delivered :
    (s : Sent) (m : Sequence) (front : List Arrival) (last : Arrival)
    → IsSendable s
    → IsEmpty m
    → All IsNumbered (front ++ (last ∷ []))
    → IsCounted s.len
    → ((n : ℕ) → n < 32 → member n (front ++ (last ∷ [])) ≡ ltb n (frames_needed s.len))
    → ((feed m false (map (frame s) (front ++ (last ∷ [])))).1 ≡ true)
      × ((r : RawMessage) × (as_message (feed m false (map (frame s) (front ++ (last ∷ [])))).0
            ≡ ok r)
          × (r.header ≡ s.header)
          × (r.bytes ≡ chunk s.payload 0 s.len))
delivered s m [] last ok_s empty h length_counted same =
    feed_delivers s last [] m ok_s h empty length_counted same
delivered s m (x ∷ front) last ok_s empty h length_counted same =
    feed_delivers s x (front ++ (last ∷ [])) m ok_s h empty length_counted same

-- An assembler with nothing in transfer that knows the PGN, one of the fast packets, delivers a message
-- to an empty target from the frames that carry it, when its counter is below 8 and its length is at
-- most 6, or exactly 223, or below that and not of the form 6 + 7 j. The frames arrive in any order and with
-- repetitions, only those that the message needs and the last of them not before; no frame comes before
-- a time, no call is more than 750 ms after it, and the pool gives arrays of 223 bytes. Each call before
-- the last frame reports nothing, and the call with it gives the message as it was sent and leaves
-- nothing in transfer.
pub assemble-Runs :
    (s : Sent) (t0 : ℕ) (front : List Arrival) (last : Arrival) (c : Call) (calls : List Call)
    (a : FastPacketAssembler) (target : Target)
    → IsDelivery s t0 front last c calls
    → IsFast s a
    → a.in_transfer ≡ []
    → target.capacity ≡ 0
    → target.message.bytes ≡ []
    → (t : Target) × Runs (record a { in_transfer = [] }) t a target (c ∷ calls)
      × (t.message.header ≡ s.header)
      × (t.message.bytes ≡ chunk s.payload 0 s.len)
unfolding feed
assemble-Runs s t0 front last c calls a target d fast none_there no_room none_yet =
    let m = reset c.item in
    let numbered = AreCalls-IsNumbered s t0 (front ++ (last ∷ [])) (c ∷ calls) d.are_calls in
    let empty = reset-IsEmpty c.item (pool front d.are_calls) in
    let (done, (r, read, header, bytes)) =
      delivered s m front last d.sendable empty numbered d.length_counted d.frames in
    let (t, wrote, same) =
      to-as_message (feed m false (map (frame s) (front ++ (last ∷ [])))).0 target r no_room
        none_yet read in
    let (before, small) = All-split front last numbered in
    let awaited : ltb last.0 (frames_awaited s.len) ≡ true =
      sym (complete_has s m d.sendable empty front last last.0 numbered small done)
      ∙ member-snoc last.0 front last
      ∙ ground (arith, ==-refl last.0) in
    let steps =
      completes s m d.sendable empty [] front last tt before small refl d.last_new awaited done in
    (
      t,
      go front d.are_calls steps wrote,
      ap (λ (x : RawMessage). x.header) same ∙ header,
      ap (λ (x : RawMessage). x.bytes) same ∙ bytes,
    )
  where
    pool :
        (front : List Arrival)
        → AreCalls s t0 (front ++ (last ∷ [])) (c ∷ calls)
        → length c.item.bytes ≡ 223
    pool [] h = h.0.array
    pool (x ∷ front) h = h.0.array

    go :
        (front : List Arrival)
        → AreCalls s t0 (front ++ (last ∷ [])) (c ∷ calls)
        → Completes s (reset c.item) (front ++ (last ∷ []))
        → {t : Target}
        → to (feed (reset c.item) false (map (frame s) (front ++ (last ∷ [])))).0 target ≡ ok t
        → Runs (record a { in_transfer = [] }) t a target (c ∷ calls)
    go [] h k {t} e =
        runs s t0 a (reset c.item) last [] c calls target t d.sendable fast h.0 h.1
          (inl (none_there, refl)) k e
    go (x ∷ front) h k {t} e =
        runs s t0 a (reset c.item) x (front ++ (last ∷ [])) c calls target t d.sendable fast h.0 h.1
          (inl (none_there, refl)) k e
