-- ===== src/Actisense/RawAscii/Assembling.antt =====
-- actisense/rawasciidevice.go: `ReadRawMessage` with a fast-packet assembler, the loop `assembleRawMessage`.
-- Each call of the assembler comes with the time and the object of the pool that it gets.
use go_nmea_client.Common.{
  ℕ, suc, ◌<◌, ◌≡◌, refl, List, [], ◌∷◌, Option, none, some, Bool, true, false, Result, ok, err,
  panic, ◌>>=◌, length, arith, if◌then◌else◌, ◌==◌,
}
use go_nmea_client.Nmea.{RawFrame, RawMessage}
use go_nmea_client.FastPacket.{Sequence, Target, NoError}
use go_nmea_client.FastPacket.Assembler.{FastPacketAssembler, assemble}
use go_nmea_client.Actisense.RawAscii.{
  Error, LineReader, Read, Frames, add_read, after_line, parse_raw_ascii, read_raw_frame,
}

-- The message or the error that the loop ends with, if it does, and what is left.
pub record Loop : Type 0 where
  pub result : Option (Result Error RawMessage)
  pub assembler : FastPacketAssembler
  pub target : Target
  pub reader : LineReader
  pub reads : List Read

unfoldable pub loop_end :
    Option (Result Error RawMessage) → FastPacketAssembler → Target → LineReader → List Read → Loop
loop_end result a target r left = record {
  result = result;
  assembler = a;
  target = target;
  reader = r;
  reads = left;
}

-- What becomes of a frame: the message, or the next round of the loop.
unfoldable pub after_assemble :
    LineReader
    → List Read
    → (FastPacketAssembler → Target → Result Error Loop)
    → Result NoError (FastPacketAssembler × Target × Bool)
    → Result Error Loop
after_assemble r left again (ok (a, t, true)) = ok (loop_end (some (ok t.message)) a t r left)
after_assemble r left again (ok (a, t, false)) = again a t
after_assemble r left again (err e) = panic
after_assemble r left again panic = panic

-- The loop; `target` is the message `msg` that is made before it.
unfoldable pub assemble_raw_message :
    FastPacketAssembler → Target → LineReader → List Read → List (ℕ × Sequence) → Result Error Loop
assemble_raw_message a target r reads [] = ok (loop_end none a target r reads)
assemble_raw_message a target r reads ((now, item) ∷ items) =
    read_raw_frame r reads >>= λ (frame, r', left). elim frame [
      | none ↦ ok (loop_end none a target r' left)
      | some (err e) ↦ ok (loop_end (some (err e)) a target r' left)
      | some panic ↦ panic
      | some (ok f) ↦
          after_assemble r' left (λ b t. assemble_raw_message b t r' left items)
            (assemble a now item f target)
    ]

-- A call that ends has taken a read, and one that waits has taken all of them.
abbrev Consumes : ℕ → Frames RawFrame → Type 0
Consumes n (ok (none, r, left)) = left ≡ []
Consumes n (ok (some f, r, left)) = length left < n
Consumes n (err e) = Unit {0}
Consumes n panic = Unit {0}

Consumes-suc : (n : ℕ) (f : Frames RawFrame) → Consumes n f → Consumes (suc n) f
Consumes-suc n (ok (none, r, left)) h = h
Consumes-suc n (ok (some f, r, left)) h = omega (arith, h)
Consumes-suc n (err e) h = tt
Consumes-suc n panic h = tt

after_line-Consumes :
    (parsed : Result Error (Option RawFrame)) (r : LineReader) (reads : List Read)
    (rest : Frames RawFrame)
    → Consumes (length reads) rest
    → Consumes (suc (length reads)) (after_line parsed r reads rest)
unfolding after_line
after_line-Consumes (ok none) r reads rest h = Consumes-suc (length reads) rest h
after_line-Consumes (ok (some f)) r reads rest h = omega arith
after_line-Consumes (err e) r reads rest h = omega arith
after_line-Consumes panic r reads rest h = tt

read_raw_frame-Consumes :
    (r : LineReader) (reads : List Read) → Consumes (length reads) (read_raw_frame r reads)
unfolding read_raw_frame
read_raw_frame-Consumes r [] = refl
read_raw_frame-Consumes r (x ∷ reads) =
    go (if length x.buf == 0 then ok (none, r) else add_read r x.buf)
      (λ r'. read_raw_frame-Consumes r' reads)
  where
    go :
        (line : Result Error (Option (List ℕ) × LineReader))
        → ((r' : LineReader) → Consumes (length reads) (read_raw_frame r' reads))
        → Consumes (suc (length reads)) (
            line >>= λ (o, r').
            let rest = read_raw_frame r' reads in
            elim o [
              | none ↦ rest
              | some raw ↦ after_line (parse_raw_ascii raw x.now) r' reads rest
            ])
    go (ok (none, r')) ih = Consumes-suc (length reads) (read_raw_frame r' reads) (ih r')
    go (ok (some raw, r')) ih =
        after_line-Consumes (parse_raw_ascii raw x.now) r' reads (read_raw_frame r' reads) (ih r')
    go (err e) ih = tt
    go panic ih = tt

-- A loop that has not ended has taken all reads.
abbrev pub IsDrained : Result Error Loop → Type 0
IsDrained (ok l) = l.result ≡ none → l.reads ≡ []
IsDrained (err e) = Unit {0}
IsDrained panic = Unit {0}

after_assemble-IsDrained :
    (r : LineReader) (left : List Read) (again : FastPacketAssembler → Target → Result Error Loop)
    → ((a : FastPacketAssembler) (t : Target) → IsDrained (again a t))
    → (o : Result NoError (FastPacketAssembler × Target × Bool))
    → IsDrained (after_assemble r left again o)
unfolding after_assemble loop_end
after_assemble-IsDrained r left again h (ok (a, t, true)) = λ e. absurd (cc (e))
after_assemble-IsDrained r left again h (ok (a, t, false)) = h a t
after_assemble-IsDrained r left again h (err e) = tt
after_assemble-IsDrained r left again h panic = tt

-- With more objects of the pool than reads the loop never stops for want of them: it ends with a message,
-- an error or a panic, or has taken all reads.
pub assemble_raw_message-IsDrained :
    (items : List (ℕ × Sequence)) (a : FastPacketAssembler) (target : Target) (r : LineReader)
    (reads : List Read)
    → length reads < length items
    → IsDrained (assemble_raw_message a target r reads items)
unfolding assemble_raw_message loop_end
assemble_raw_message-IsDrained [] a target r reads h = absurd (omega (arith, h))
assemble_raw_message-IsDrained ((now, item) ∷ items) a target r reads h =
    go (read_raw_frame r reads) (read_raw_frame-Consumes r reads) (λ b t r' left shorter.
      assemble_raw_message-IsDrained items b t r' left (omega (arith, h, shorter)))
  where
    go :
        (o : Frames RawFrame)
        → Consumes (length reads) o
        → ((b : FastPacketAssembler) (t : Target) (r' : LineReader) (left : List Read)
            → length left < length reads
            → IsDrained (assemble_raw_message b t r' left items))
        → IsDrained (
            o >>= λ (frame, r', left). elim frame [
              | none ↦ ok (loop_end none a target r' left)
              | some (err e) ↦ ok (loop_end (some (err e)) a target r' left)
              | some panic ↦ panic
              | some (ok f) ↦
                  after_assemble r' left
                    (λ b t. assemble_raw_message b t r' left items)
                    (assemble a now item f target)
            ])
    go (ok (none, r', left)) c ih = λ e. c
    go (ok (some (ok f), r', left)) c ih =
        after_assemble-IsDrained r' left (λ b t. assemble_raw_message b t r' left items)
          (λ b t. ih b t r' left c) (assemble a now item f target)
    go (ok (some (err e), r', left)) c ih = λ e'. absurd (cc (e'))
    go (ok (some panic, r', left)) c ih = tt
    go (err e) c ih = tt
    go panic c ih = tt
