-- ===== src/FastPacket/Assembler.antt =====
-- fastpacket.go: `FastPacketAssembler.Assemble` over the sequences in transfer.
-- The lock makes one call one step. What `a.now()` returns and the object that `a.pool.Get()` hands
-- out, with whatever it held before, are arguments of the step. A pointer to a sequence in transfer
-- is its index.
pub mod Transfers
pub mod Refinement
pub mod Uniqueness
pub mod Calls
pub mod Alone
pub mod Safety
mod Examples
use go_nmea_client.Common.{
  ℕ, zero, suc, ◌+◌, ◌-◌, ◌/◌, ◌^◌, List, [], ◌∷◌, ◌++◌, Option, none, some, Bool, true, false,
  Result, ok, panic, ◌>>=◌, ◌>>◌, check, ltb, leb, ◌==◌, ◌&&◌, if◌then◌else◌, ◌>>>◌, length,
  replicate, overwrite, take, get_or, set,
}
use go_nmea_client.Nmea.{RawFrame, RawMessage, could_be_fast_packet}
use go_nmea_client.FastPacket.{Sequence, Target, NoError, append, reset, to}

pub record FastPacketAssembler : Type 0 where
  pub pgns : List ℕ
  pub in_transfer : List Sequence

unfoldable pub new_fast_packet_assembler : List ℕ → FastPacketAssembler
new_fast_packet_assembler pgns = record { pgns = pgns; in_transfer = [] }

unfoldable pub contains : List ℕ → ℕ → Bool
contains [] pgn = false
contains (p ∷ pgns) pgn = let rest = contains pgns pgn in if p == pgn then true else rest

unfoldable pub is_fast_packet : FastPacketAssembler → RawFrame → Bool
is_fast_packet a frame =
    if could_be_fast_packet frame.header.pgn then contains a.pgns frame.header.pgn else false

unfoldable pub fill_frame : RawFrame → Target → Target
fill_frame frame target =
    let grow = ltb target.capacity frame.length in
    let room = if grow then replicate frame.length 0 else target.message.bytes in
    record {
      message = record {
        time = frame.time;
        header = frame.header;
        bytes = overwrite room (take frame.length frame.bytes);
      };
      capacity = if grow then frame.length else target.capacity;
    }

-- A frame that is a whole message: `frame.Data[0:frame.Length]` panics over 8.
unfoldable pub copy_frame : RawFrame → Target → Result NoError Target
unfolding fill_frame
copy_frame frame target = check (leb frame.length 8) >> ok (fill_frame frame target)

-- 750 milliseconds.
abbrev pub max_age : ℕ
max_age = 750_000_000

unfoldable pub matches : RawFrame → Sequence → Bool
matches frame m =
    (m.header.source == frame.header.source)
    && (m.header.pgn == frame.header.pgn)
    && (m.sequence == (get_or frame.bytes 0 0 >>> 5))

-- `fp.lastReceivedFrameTime.Before(threshold)` with the threshold 750 ms before now.
unfoldable pub refresh : ℕ → Sequence → Sequence
refresh now m = if ltb (m.last_received_frame_time + max_age) now then reset m else m

-- The loop over the sequences in transfer: it resets each old match, and keeps the last index.
unfoldable pub scan : ℕ → RawFrame → List Sequence → ℕ → Option ℕ → List Sequence × Option ℕ
scan now frame [] i found = ([], found)
scan now frame (m ∷ ms) i found =
    let rest = scan now frame ms (i + 1) (if matches frame m then some i else found) in
    ((if matches frame m then refresh now m else m) ∷ rest.0, rest.1)

-- `inTransfer[idx] = inTransfer[len-1]; inTransfer = inTransfer[:len-1]`
unfoldable pub swap_remove : ℕ → List Sequence → Sequence → List Sequence
swap_remove idx ms other = take (length ms - 1) (set ms idx (get_or ms (length ms - 1) other))

-- The sequence for the frame: the one found, or an object of the pool, reset, at the end.
unfoldable pub choose : List Sequence × Option ℕ → Sequence → List Sequence × ℕ
choose (ms, some idx) item = (ms, idx)
choose (ms, none) item = (ms ++ (reset item ∷ []), length ms)

unfoldable pub finish :
    FastPacketAssembler
    → List Sequence
    → ℕ
    → Sequence × Bool
    → Target
    → Result NoError (FastPacketAssembler × Target × Bool)
finish a ms idx (m, true) target = do
  target' ← to m target
  ok (record a { in_transfer = swap_remove idx (set ms idx m) m }, target', true)
finish a ms idx (m, false) target = ok (record a { in_transfer = set ms idx m }, target, false)

unfoldable pub assemble_fast :
    FastPacketAssembler
    → ℕ
    → Sequence
    → RawFrame
    → Target
    → Result NoError (FastPacketAssembler × Target × Bool)
assemble_fast a now item frame target =
    let (ms, idx) = choose (scan now frame a.in_transfer 0 none) item in
    finish a ms idx (append (get_or ms idx item) frame) target

-- The message, if complete, is in the target.
unfoldable pub assemble :
    FastPacketAssembler
    → ℕ
    → Sequence
    → RawFrame
    → Target
    → Result NoError (FastPacketAssembler × Target × Bool)
assemble a now item frame target =
    if is_fast_packet a frame
    then assemble_fast a now item frame target
    else (copy_frame frame target >>= λ target'. ok (a, target', true))
