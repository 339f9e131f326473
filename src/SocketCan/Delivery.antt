-- ===== src/SocketCan/Delivery.antt =====
-- socketcan/device.go with the assembler of fastpacket.go: a message that is sent frame by frame is read.
use mathlib.Core.Path.{subst}
use go_nmea_client.Common.{
  ℕ, zero, suc, ◌+◌, ◌*◌, ◌<◌, ◌≤◌, ◌≡◌, refl, sym, ap, ◌∙◌, List, [], ◌∷◌, ◌++◌, Option, none,
  some, false, arith, Result, ok, ltb, length, take, replicate, overwrite, overwrite-full, All,
  IsByte,
}
use go_nmea_client.Nmea.{RawFrame, RawMessage}
use go_nmea_client.FastPacket.{Sequence, Target}
use go_nmea_client.FastPacket.Blocks.{chunk, length-chunk}
use go_nmea_client.FastPacket.Masks.{frames_needed}
use go_nmea_client.FastPacket.Delivery.{IsCounted}
use go_nmea_client.FastPacket.Transfer.{Sent, IsSendable, Arrival, member, frame, frame_bytes}
use go_nmea_client.FastPacket.Assembler.{FastPacketAssembler, assemble, max_age}
use go_nmea_client.FastPacket.Assembler.Calls.{Call, Runs, reports, waits, AreCalls, IsFast}
use go_nmea_client.FastPacket.Assembler.Alone.{IsDelivery, assemble-Runs}
use go_nmea_client.SocketCan.{
  Error, Read, filled, can_frame, read_raw_frame, Device, Round, returned, assembled, with_frame,
  with_read, step, read_rounds, read_raw_message, no_message,
}
use go_nmea_client.SocketCan.RoundTrip.{IsWhole, data_of, read_raw_frame-can_frame}
use go_nmea_client.SocketCan.Waiting.{IsQuiet, step-IsQuiet}

-- A round with the frame of a call.
record HasFrame (x : Round) (c : Call) : Type 0 where
  not_done : x.done ≡ false
  is_set : x.not_set ≡ none
  frame_read : read_raw_frame x.read x.frame_time ≡ ok c.frame
  same_now : x.assembler_now ≡ c.now
  same_item : x.item ≡ c.item

module _ (timeout start : ℕ) (left : List Round) where
  -- Rounds with the frames of the calls, among reads that time out in time.
  data Carries : List Round → List Call → Type 0 where
    ends : Carries left []
    quiet :
        {x : Round} {rounds : List Round} {c : Call} {calls : List Call}
        → IsQuiet timeout start x
        → Carries rounds (c ∷ calls)
        → Carries (x ∷ rounds) (c ∷ calls)
    brings :
        {x : Round} {rounds : List Round} {c : Call} {calls : List Call}
        → HasFrame x c
        → Carries rounds calls
        → Carries (x ∷ rounds) (c ∷ calls)

some_eq : {A : Type 0} {x y : A} → ◌≡◌ {A = Option A} (some x) (some y) → x ≡ y
some_eq h = cc

with_frame-assembled :
    (device : Device) (x : Round) (target : Target) (f : RawFrame) (a : FastPacketAssembler)
    → device.fast_packet_assembler ≡ some a
    → with_frame device x target f ≡ assembled device (assemble a x.assembler_now x.item f target)
unfolding with_frame
with_frame-assembled device x target f a = go device.fast_packet_assembler
  where
    go :
        (o : Option FastPacketAssembler)
        → o ≡ some a
        → (elim o [
          | some b ↦ assembled device (assemble b x.assembler_now x.item f target)
          | none ↦
              returned (ok (record { time = f.time; header = f.header; bytes = f.bytes })) device
        ])
          ≡ assembled device (assemble a x.assembler_now x.item f target)
    go (some b) h =
        ap
          (λ (d : FastPacketAssembler).
            assembled device (assemble d x.assembler_now x.item f target))
          (some_eq h)
    go none h = absurd (cc)

step-HasFrame :
    (device : Device) (start : ℕ) (target : Target) (x : Round) (c : Call) (a : FastPacketAssembler)
    → device.fast_packet_assembler ≡ some a
    → HasFrame x c
    → step device start target x ≡ assembled device (assemble a c.now c.item c.frame target)
unfolding step with_read
step-HasFrame device start target x c a e h =
    simp (h.not_done, h.is_set, h.frame_read) (with_frame-assembled device x target c.frame a e)
    ∙ ap (λ (now : ℕ). assembled device (assemble a now x.item c.frame target)) h.same_now
    ∙ ap (λ (item : Sequence). assembled device (assemble a c.now item c.frame target)) h.same_item

-- The loop makes the calls, and returns the message that the last of them reports.
read_rounds-Runs :
    (timeout start : ℕ) (left rounds : List Round) (calls : List Call)
    → Carries timeout start left rounds calls
    → (device : Device) (a after : FastPacketAssembler) (target result : Target)
    → device.receive_data_timeout ≡ timeout
    → device.fast_packet_assembler ≡ some a
    → Runs after result a target calls
    → read_rounds device start target rounds
      ≡ ok (some (ok result.message), record device { fast_packet_assembler = some after }, left)
unfolding read_rounds assembled
read_rounds-Runs timeout start left _ _ ends device a after target result t e r = elim r [ ]
read_rounds-Runs timeout start left _ _ (quiet {x} {rounds} {c} {calls} q more) device a after
      target result t e r =
    rw
      (
        read_rounds,
        step-IsQuiet device start target x (subst (λ (n : ℕ). IsQuiet n start x) (sym t) q),
      )
      (read_rounds-Runs timeout start left rounds (c ∷ calls) more device a after target result t e
        r)
read_rounds-Runs timeout start left _ _ (brings {x} {rounds} {c} h ends) device a after target
      result t e (reports o) =
    rw (read_rounds, step-HasFrame device start target x c a e h, o) refl
read_rounds-Runs timeout start left _ _ (brings {x} {rounds} {c} {calls} h more) device a after
      target result t e (waits {b = b} {between} o r) =
    rw (read_rounds, step-HasFrame device start target x c a e h, o)
      (read_rounds-Runs timeout start left rounds calls more
        (record device { fast_packet_assembler = some b }) b after between result t refl r)

-- A message whose frames a socket carries whole.
pub record IsCarried (s : Sent) : Type 0 where
  pub sendable : IsSendable s
  pub header_whole : IsWhole s.header
  pub payload_bytes : (i : ℕ) → s.payload i < 256

-- A round with what `SendFrame` has written for a frame of the message.
pub record IsReceived (s : Sent) (t0 : ℕ) (a : Arrival) (x : Round) : Type 0 where
  pub not_done : x.done ≡ false
  pub is_set : x.not_set ≡ none
  pub buffer : List ℕ
  pub sent : can_frame (frame s a) ≡ ok buffer
  pub received : x.read ≡ filled buffer
  pub arrives : x.frame_time ≡ a.1
  pub numbered : a.0 < 32
  pub late : t0 ≤ a.1
  pub young : x.assembler_now ≤ t0 + max_age
  pub array : length x.item.bytes ≡ 223

module _ (s : Sent) (t0 timeout start : ℕ) (left : List Round) where
  -- Rounds that receive the frames, among reads that time out in time; `left` are the rounds behind them.
  pub data Receives : List Round → List Arrival → Type 0 where
    ends : Receives left []
    quiet :
        {x : Round} {rounds : List Round} {a : Arrival} {arrivals : List Arrival}
        → IsQuiet timeout start x
        → Receives rounds (a ∷ arrivals)
        → Receives (x ∷ rounds) (a ∷ arrivals)
    receives :
        {x : Round} {rounds : List Round} {a : Arrival} {arrivals : List Arrival}
        → IsReceived s t0 a x
        → Receives rounds arrivals
        → Receives (x ∷ rounds) (a ∷ arrivals)

chunk-IsByte :
    (payload : ℕ → ℕ)
    → ((i : ℕ) → payload i < 256)
    → (from n : ℕ) → All IsByte (chunk payload from n)
unfolding chunk
chunk-IsByte payload h from zero = tt
chunk-IsByte payload h from (suc n) = (h from, chunk-IsByte payload h (suc from) n)

frame_bytes-IsByte : (s : Sent) (k : ℕ) → IsCarried s → k < 32 → All IsByte (frame_bytes s k)
unfolding frame_bytes
frame_bytes-IsByte s zero c h = (
  omega (arith, c.sendable.counter_fits),
  (omega (arith, c.sendable.len_fits), chunk-IsByte s.payload c.payload_bytes 0 6),
)
frame_bytes-IsByte s (suc k) c h =
    (omega (arith, c.sendable.counter_fits), chunk-IsByte s.payload c.payload_bytes (6 + k * 7) 7)

length-frame_bytes : (s : Sent) (k : ℕ) → length (frame_bytes s k) ≡ 8
unfolding frame_bytes
length-frame_bytes s zero = omega (arith, length-chunk s.payload 0 6)
length-frame_bytes s (suc k) = omega (arith, length-chunk s.payload (6 + k * 7) 7)

take-all : (xs : List ℕ) (n : ℕ) → length xs ≡ n → take n xs ≡ xs
take-all [] zero h = refl
take-all [] (suc n) h = refl
take-all (x ∷ xs) zero h = absurd (omega arith)
take-all (x ∷ xs) (suc n) h = ap (◌∷◌ x) (take-all xs n (omega arith))

-- The frame is read as it was sent.
read_raw_frame-frame :
    (s : Sent) (a : Arrival) (x : Round) (t0 : ℕ)
    → IsCarried s
    → IsReceived s t0 a x
    → read_raw_frame x.read x.frame_time ≡ ok (frame s a)
unfolding frame
read_raw_frame-frame s a x t0 c r =
    let bytes = frame_bytes-IsByte s a.0 c r.numbered in
    let eight = length-frame_bytes s a.0 in
    let (buffer, made, back) =
      read_raw_frame-can_frame (frame s a) x.frame_time c.header_whole (omega (arith, eight))
        (omega (arith, eight)) bytes in
    let same : buffer ≡ r.buffer = ok_eq (sym made ∙ r.sent) in
    let whole : data_of (frame s a) ≡ frame_bytes s a.0 =
      ap (overwrite (replicate 8 0)) (take-all (frame_bytes s a.0) 8 eight)
      ∙ overwrite-full (replicate 8 0) (frame_bytes s a.0) (sym eight) in
    ap (λ (y : Read). read_raw_frame y x.frame_time) (r.received ∙ ap filled (sym same))
    ∙ back
    ∙ (λ i. ok (record { time = r.arrives i; header = s.header; length = 8; bytes = whole i }))
  where
    ok_eq : {u v : List ℕ} → ◌≡◌ {A = Result Error (List ℕ)} (ok u) (ok v) → u ≡ v
    ok_eq h = cc

-- The frames of a message, in the order in which they arrive: the last one has not come before, and only
-- those that the message needs arrive, each at least once.
pub record IsComplete (s : Sent) (front : List Arrival) (last : Arrival) : Type 0 where
  pub length_counted : IsCounted s.len
  pub frames : (n : ℕ) → n < 32 → member n (front ++ (last ∷ [])) ≡ ltb n (frames_needed s.len)
  pub last_new : member last.0 front ≡ false

module _ (s : Sent) (t0 timeout start : ℕ) (left : List Round) (c : IsCarried s) where
  -- The calls that the rounds lead to.
  calls_of :
      (rounds : List Round) (arrivals : List Arrival)
      → Receives s t0 timeout start left rounds arrivals
      → (calls : List Call) × AreCalls s t0 arrivals calls × Carries timeout start left rounds calls
  calls_of _ _ ends = ([], tt, ends)
  calls_of _ _ (quiet {x} {rounds} {a} {arrivals} q more) =
      behind (calls_of rounds (a ∷ arrivals) more)
    where
      behind :
          (calls : List Call) × AreCalls s t0 (a ∷ arrivals) calls
            × Carries timeout start left rounds calls
          → (calls : List Call) × AreCalls s t0 (a ∷ arrivals) calls
            × Carries timeout start left (x ∷ rounds) calls
      behind ([], h, k) = absurd h
      behind (d ∷ calls, h, k) = (d ∷ calls, h, quiet q k)
  calls_of _ _ (receives {x} {rounds} {a} {arrivals} r more) =
      let (calls, h, k) = calls_of rounds arrivals more in
      let d : Call = record { now = x.assembler_now; item = x.item; frame = frame s a } in
      (
        d ∷ calls,
        (
          record {
            numbered = r.numbered;
            same = refl;
            late = r.late;
            young = r.young;
            array = r.array;
          },
          h,
        ),
        brings
            (record {
              not_done = r.not_done;
              is_set = r.is_set;
              frame_read = read_raw_frame-frame s a x t0 c r;
              same_now = refl;
              same_item = refl;
            })
            k,
      )

  some_calls :
      (front : List Arrival) (last : Arrival) (calls : List Call)
      → AreCalls s t0 (front ++ (last ∷ [])) calls
      → (d : Call) × (rest : List Call) × (calls ≡ d ∷ rest)
  some_calls [] last [] h = absurd h
  some_calls (x ∷ front) last [] h = absurd h
  some_calls front last (d ∷ rest) h = (d, rest, refl)

-- A device with an assembler that knows the PGN, one of the fast packets, and has nothing in transfer reads
-- a message that another one sends frame by frame with `SendFrame`. The fields of its header fit an
-- identifier, and it is addressed (a PDU format below 240) with a low byte 0 of the PGN, or sent to all from
-- format 240 on with a low byte of at least 240; its counter is below 8, its length at most 6, or exactly
-- 223, or below that and not of the form 6 + 7 j, and its payload is bytes. The frames come in any order and
-- repeated, only those that the message needs and the last one not before; no frame comes before a
-- time, the assembler is called at most 750 ms after it with arrays of 223 bytes, and any number of reads
-- between the frames time out in time. Then the call of `ReadRawMessage` returns the message as it was sent,
-- leaves nothing in transfer, and leaves the rounds behind the last frame to the next call.
pub read_raw_message-delivers :
    (s : Sent) (t0 start : ℕ) (device : Device) (a : FastPacketAssembler) (front : List Arrival)
    (last : Arrival) (rounds left : List Round)
    → IsCarried s
    → IsComplete s front last
    → device.fast_packet_assembler ≡ some a
    → IsFast s a
    → a.in_transfer ≡ []
    → Receives s t0 device.receive_data_timeout start left rounds (front ++ (last ∷ []))
    → (msg : RawMessage) × (read_raw_message device start rounds
        ≡ ok (
          some (ok msg),
          record device { fast_packet_assembler = some (record a { in_transfer = [] }) },
          left,
        ))
      × (msg.header ≡ s.header)
      × (msg.bytes ≡ chunk s.payload 0 s.len)
unfolding read_raw_message
read_raw_message-delivers s t0 start device a front last rounds left c k e fast none_there r =
    let timeout = device.receive_data_timeout in
    let (calls, h, carried) = calls_of s t0 timeout start left c rounds (front ++ (last ∷ [])) r in
    let (d, rest, same) = some_calls s t0 timeout start left c front last calls h in
    let delivery : IsDelivery s t0 front last d rest = record {
      sendable = c.sendable;
      length_counted = k.length_counted;
      frames = k.frames;
      last_new = k.last_new;
      are_calls = subst (AreCalls s t0 (front ++ (last ∷ []))) same h;
    } in
    let (t, ran, header, bytes) =
      assemble-Runs s t0 front last d rest a no_message delivery fast none_there refl refl in
    (
      t.message,
      read_rounds-Runs timeout start left rounds (d ∷ rest)
          (subst (Carries timeout start left rounds) same carried) device a
          (record a { in_transfer = [] }) no_message t refl e ran,
      header,
      bytes,
    )
