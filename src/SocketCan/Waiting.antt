-- ===== src/SocketCan/Waiting.antt =====
-- socketcan/device.go: when `ReadRawMessage` goes on waiting, and why it returns.
use mathlib.Core.Path.{subst}
use go_nmea_client.Common.{
  ℕ, ◌+◌, ◌≤◌, ◌<◌, ◌≡◌, ◌⊎◌, inl, inr, refl, ap, sym, List, [], ◌∷◌, ◌++◌, Option, none, some,
  true, false, Bool, Bool-cases, Option-cases, arith, Result, ok, err, panic, ltb, ltb→lt, All,
  if◌then◌else◌,
}
use go_nmea_client.Nmea.{RawFrame, RawMessage}
use go_nmea_client.FastPacket.{Target, NoError}
use go_nmea_client.FastPacket.Assembler.{FastPacketAssembler, assemble}
use go_nmea_client.SocketCan.{
  Error, read_timeout, write_timeout, remote_frame, error_frame, cancelled, not_implemented, socket,
  SocketError, would_block, interrupted, other, is_continuable_socket_err, Read, failed, filled,
  read_error, read_raw_frame, parse_frame, Device, Round, Step, returned, again, panicked,
  assembled, with_frame, is_timeout, with_error, with_read, step, read_rounds, read_raw_message,
  no_message,
}

-- A round whose read times out while there is still time.
pub record IsQuiet (timeout start : ℕ) (x : Round) : Type 0 where
  pub not_done : x.done ≡ false
  pub is_set : x.not_set ≡ none
  pub error : SocketError
  pub timed_out : x.read ≡ failed error
  pub continuable : is_continuable_socket_err error ≡ true
  pub in_time : x.now ≤ start + timeout

pub step-IsQuiet :
    (device : Device) (start : ℕ) (target : Target) (x : Round)
    → IsQuiet device.receive_data_timeout start x
    → step device start target x ≡ again device target
unfolding step with_read with_error is_timeout read_raw_frame read_error
step-IsQuiet device start target x q =
    let late : ltb (start + device.receive_data_timeout) x.now ≡ false =
      ground (arith, q.in_time) in
    rw (q.not_done, q.is_set, q.timed_out, q.continuable, late) refl

-- Reads that time out are passed over, as many as there are, while no more time has gone by since the
-- start of the call than the timeout of the device.
pub read_rounds-append :
    (device : Device) (start : ℕ) (target : Target) (quiet rounds : List Round)
    → All (IsQuiet device.receive_data_timeout start) quiet
    → read_rounds device start target (quiet ++ rounds) ≡ read_rounds device start target rounds
unfolding read_rounds
read_rounds-append device start target [] rounds h = refl
read_rounds-append device start target (x ∷ quiet) rounds h =
    rw (read_rounds, step-IsQuiet device start target x h.0)
      (read_rounds-append device start target quiet rounds h.1)

-- Why a call returns in a round.
unfoldable pub Cause : ℕ → ℕ → Round → Result Error RawMessage → Type 0
Cause timeout start x panic = ⊥
Cause timeout start x (ok msg) =
    (frame : RawFrame) × (read_raw_frame x.read x.frame_time ≡ ok frame)
Cause timeout start x (err read_timeout) =
    (read_raw_frame x.read x.frame_time ≡ err read_timeout) × (start + timeout < x.now)
Cause timeout start x (err write_timeout) = ⊥
Cause timeout start x (err remote_frame) = read_raw_frame x.read x.frame_time ≡ err remote_frame
Cause timeout start x (err error_frame) = read_raw_frame x.read x.frame_time ≡ err error_frame
Cause timeout start x (err cancelled) = x.done ≡ true
Cause timeout start x (err not_implemented) = ⊥
Cause timeout start x (err (socket e)) =
    (x.not_set ≡ some e) ⊎ (read_raw_frame x.read x.frame_time ≡ err (socket e))

-- What a step says: the call returns for a cause, or goes on with the timeout of the device.
unfoldable Told : ℕ → ℕ → Round → Step → Type 0
Told timeout start x panicked = Unit {0}
Told timeout start x (returned r device) = Cause timeout start x r
Told timeout start x (again device target) = device.receive_data_timeout ≡ timeout

assembled-Told :
    (device : Device) (start : ℕ) (x : Round) (frame : RawFrame)
    (r : Result NoError (FastPacketAssembler × Target × Bool))
    → read_raw_frame x.read x.frame_time ≡ ok frame
    → Told device.receive_data_timeout start x (assembled device r)
unfolding Told assembled Cause
assembled-Told device start x frame panic h = tt
assembled-Told device start x frame (err e) h = tt
assembled-Told device start x frame (ok (a, target, true)) h = (frame, h)
assembled-Told device start x frame (ok (a, target, false)) h = refl

with_frame-Told :
    (device : Device) (start : ℕ) (x : Round) (target : Target) (frame : RawFrame)
    → read_raw_frame x.read x.frame_time ≡ ok frame
    → Told device.receive_data_timeout start x (with_frame device x target frame)
unfolding Told with_frame Cause assembled
with_frame-Told device start x target frame h = elim (Option-cases device.fast_packet_assembler) [
  | inl nothing ↦ rw nothing (frame, h)
  | inr (a, e) ↦
      rw e (assembled-Told device start x frame (assemble a x.assembler_now x.item frame target) h)
]

-- The errors of a read.
IsReadError : Error → Type 0
IsReadError read_timeout = Unit {0}
IsReadError remote_frame = Unit {0}
IsReadError error_frame = Unit {0}
IsReadError (socket e) = Unit {0}
IsReadError write_timeout = ⊥
IsReadError cancelled = ⊥
IsReadError not_implemented = ⊥

err_eq : {A : Type 0} {d e : Error} → ◌≡◌ {A = Result Error A} (err d) (err e) → d ≡ e
err_eq h = cc

read_error-IsReadError : (e : SocketError) → IsReadError (read_error e)
unfolding read_error is_continuable_socket_err IsReadError
read_error-IsReadError would_block = tt
read_error-IsReadError interrupted = tt
read_error-IsReadError (other n) = tt

parse_frame_error :
    (buffer : List ℕ) (now : ℕ) (e : Error)
    → parse_frame buffer now ≡ err e
    → (e ≡ remote_frame) ⊎ (e ≡ error_frame)
unfolding parse_frame
parse_frame_error buffer now e h = ground (arith, h)

read_raw_frame-IsReadError :
    (r : Read) (now : ℕ) (e : Error) → read_raw_frame r now ≡ err e → IsReadError e
unfolding read_raw_frame IsReadError
read_raw_frame-IsReadError (failed d) now e h =
    subst IsReadError (err_eq h) (read_error-IsReadError d)
read_raw_frame-IsReadError (filled buffer) now e h = elim (parse_frame_error buffer now e h) [
  | inl same ↦ subst IsReadError (sym same) tt
  | inr same ↦ subst IsReadError (sym same) tt
]

with_error-Told :
    (device : Device) (start : ℕ) (x : Round) (target : Target) (e : Error)
    → read_raw_frame x.read x.frame_time ≡ err e
    → Told device.receive_data_timeout start x (with_error device start x target e)
unfolding Told with_error is_timeout Cause IsReadError
with_error-Told device start x target read_timeout h =
    elim (Bool-cases (ltb (start + device.receive_data_timeout) x.now)) [
      | inl late ↦ rw late (h, ltb→lt _ _ late)
      | inr early ↦ rw early refl
    ]
with_error-Told device start x target remote_frame h = h
with_error-Told device start x target error_frame h = h
with_error-Told device start x target (socket e) h = inr h
with_error-Told device start x target write_timeout h =
    absurd (read_raw_frame-IsReadError x.read x.frame_time write_timeout h)
with_error-Told device start x target cancelled h =
    absurd (read_raw_frame-IsReadError x.read x.frame_time cancelled h)
with_error-Told device start x target not_implemented h =
    absurd (read_raw_frame-IsReadError x.read x.frame_time not_implemented h)

with_read-Told :
    (device : Device) (start : ℕ) (x : Round) (target : Target) (r : Result Error RawFrame)
    → read_raw_frame x.read x.frame_time ≡ r
    → Told device.receive_data_timeout start x (with_read device start x target r)
unfolding Told with_read
with_read-Told device start x target panic h = tt
with_read-Told device start x target (err e) h = with_error-Told device start x target e h
with_read-Told device start x target (ok frame) h = with_frame-Told device start x target frame h

step-Told :
    (device : Device) (start : ℕ) (target : Target) (x : Round)
    → Told device.receive_data_timeout start x (step device start target x)
unfolding Told step Cause
step-Told device start target x = at_start x.done refl
  where
    when_set :
        (o : Option SocketError)
        → x.not_set ≡ o
        → Told device.receive_data_timeout start x (elim o [
          | some e ↦ returned (err (socket e)) device
          | none ↦ with_read device start x target (read_raw_frame x.read x.frame_time)
        ])
    when_set (some e) h = inl h
    when_set none h = with_read-Told device start x target (read_raw_frame x.read x.frame_time) refl

    at_start :
        (b : Bool)
        → x.done ≡ b
        → Told device.receive_data_timeout start x (
            if b then returned (err cancelled) device else (elim x.not_set [
              | some e ↦ returned (err (socket e)) device
              | none ↦ with_read device start x target (read_raw_frame x.read x.frame_time)
            ]))
    at_start true h = h
    at_start false h = when_set x.not_set refl

-- The round in which a call returns, and the cause of it.
pub record ReturnsFor (timeout start : ℕ) (rounds : List Round) (r : Result Error RawMessage)
    (left : List Round) : Type 0 where
  pub front : List Round
  pub last : Round
  pub splits : rounds ≡ front ++ (last ∷ left)
  pub cause : Cause timeout start last r

unfoldable Returns :
    ℕ
    → ℕ
    → List Round
    → Result Error (Option (Result Error RawMessage) × Device × List Round)
    → Type 0
Returns timeout start rounds panic = Unit {0}
Returns timeout start rounds (err e) = Unit {0}
Returns timeout start rounds (ok (none, device, left)) = Unit {0}
Returns timeout start rounds (ok (some r, device, left)) = ReturnsFor timeout start rounds r left

Returns-cons :
    (timeout start : ℕ) (x : Round) (rounds : List Round)
    (r : Result Error (Option (Result Error RawMessage) × Device × List Round))
    → Returns timeout start rounds r
    → Returns timeout start (x ∷ rounds) r
unfolding Returns
Returns-cons timeout start x rounds panic h = tt
Returns-cons timeout start x rounds (err e) h = tt
Returns-cons timeout start x rounds (ok (none, device, left)) h = tt
Returns-cons timeout start x rounds (ok (some r, device, left)) h = record {
  front = x ∷ h.front;
  last = h.last;
  splits = ap (◌∷◌ x) h.splits;
  cause = h.cause;
}

read_rounds-Returns :
    (device : Device) (start : ℕ) (target : Target) (rounds : List Round)
    → Returns device.receive_data_timeout start rounds (read_rounds device start target rounds)
unfolding Returns read_rounds Told
read_rounds-Returns device start target [] = tt
read_rounds-Returns device start target (x ∷ rounds) =
    go (λ d t. read_rounds-Returns d start t rounds) (step device start target x)
      (step-Told device start target x)
  where
    go :
        (later : (d : Device) (t : Target)
          → Returns d.receive_data_timeout start rounds (read_rounds d start t rounds))
        (s : Step)
        → Told device.receive_data_timeout start x s
        → Returns device.receive_data_timeout start (x ∷ rounds) (elim s [
          | returned r d ↦ ok (some r, d, rounds)
          | again d t ↦ read_rounds d start t rounds
          | panicked ↦ panic
        ])
    go later panicked h = tt
    go later (returned r d) h = record { front = []; last = x; splits = refl; cause = h }
    go later (again d t) h =
        Returns-cons device.receive_data_timeout start x rounds (read_rounds d start t rounds)
          (subst (λ (n : ℕ). Returns n start rounds (read_rounds d start t rounds)) h (later d t))

-- A call of `ReadRawMessage` returns in a round that gives it a reason: it returns a message only with
-- a frame that it has read, the timeout only when a read has timed out and more time has gone by since
-- the start than the timeout of the device, the cancellation only when the context is done, and any
-- other error only when the kernel or the frame has it.
pub read_raw_message-ReturnsFor :
    (device : Device) (start : ℕ) (rounds : List Round) (r : Result Error RawMessage)
    (after : Device) (left : List Round)
    → read_raw_message device start rounds ≡ ok (some r, after, left)
    → ReturnsFor device.receive_data_timeout start rounds r left
unfolding read_raw_message Returns
read_raw_message-ReturnsFor device start rounds r after left h =
    subst (Returns device.receive_data_timeout start rounds) h
      (read_rounds-Returns device start no_message rounds)
