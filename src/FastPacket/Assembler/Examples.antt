-- ===== src/FastPacket/Assembler/Examples.antt =====
-- The theorems on the assembler of fastpacket.go, with one message on its way.
use go_nmea_client.Common.{
  ℕ, ◌+◌, ◌%◌, ◌<◌, ◌≤◌, inl, inr, ◌≡◌, refl, [], ◌∷◌, Bool, true, arith, ok, panic, replicate,
}
use go_nmea_client.Canbus.{CanBusHeader}
use go_nmea_client.Nmea.{RawFrame, could_be_fast_packet}
use go_nmea_client.FastPacket.{Sequence, Target}
use go_nmea_client.FastPacket.Assembler.{
  FastPacketAssembler, is_fast_packet, contains, matches, assemble,
}
use go_nmea_client.FastPacket.Masks.{frames_needed}
use go_nmea_client.FastPacket.Blocks.{chunk}
use go_nmea_client.FastPacket.Transfer.{Sent, frame}
use go_nmea_client.FastPacket.Assembler.Calls.{Call, Runs, IsCall, IsFast}
use go_nmea_client.FastPacket.Assembler.Alone.{IsDelivery, assemble-Runs}
use go_nmea_client.FastPacket.Assembler.Transfers.{count}
use go_nmea_client.FastPacket.Assembler.Refinement.{Assembled, assemble-Assembled}
use go_nmea_client.FastPacket.Assembler.Uniqueness.{IsUnique}
use go_nmea_client.FastPacket.Assembler.Safety.{IsValid, assemble_returns, assemble_panics}

abbrev position : CanBusHeader
position = record { pgn = 129029; priority = 3; source = 35; destination = 255 }

-- A sequence with the first frame of a message of ten bytes.
abbrev begun : Sequence
begun = record {
  header = position;
  last_received_frame_time = 6;
  sequence = 2;
  length = 10;
  complete_frames_mask = 3;
  received_frames_mask = 1;
  received_frames_count = 1;
  bytes = replicate 223 0;
}

abbrev receiver : FastPacketAssembler
receiver = record { pgns = 129029 ∷ []; in_transfer = begun ∷ [] }

abbrev second_frame : RawFrame
second_frame = record {
  time = 7;
  header = position;
  length = 8;
  bytes = 65 ∷ 6 ∷ 7 ∷ 8 ∷ 9 ∷ 255 ∷ 255 ∷ 255 ∷ [];
}

-- A first frame, of another counter, that announces 255 bytes.
abbrev long_frame : RawFrame
long_frame = record {
  time = 7;
  header = position;
  length = 8;
  bytes = 96 ∷ 255 ∷ 0 ∷ 1 ∷ 2 ∷ 3 ∷ 4 ∷ 5 ∷ [];
}

abbrev empty_target : Target
empty_target = record { message = record { time = 0; header = position; bytes = [] }; capacity = 0 }

second_frame_fast : is_fast_packet receiver second_frame ≡ true
unfolding is_fast_packet could_be_fast_packet contains
second_frame_fast = refl

long_frame_fast : is_fast_packet receiver long_frame ≡ true
unfolding is_fast_packet could_be_fast_packet contains
long_frame_fast = refl

one_match : count second_frame receiver.in_transfer ≡ 1
unfolding matches
one_match = refl

no_match : count long_frame receiver.in_transfer ≡ 0
unfolding matches
no_match = refl

receiver-IsUnique : IsUnique receiver.in_transfer
receiver-IsUnique g h = ground arith

receiver-IsValid : IsValid receiver
receiver-IsValid = record { unique = receiver-IsUnique; none_oversized = refl }

assemble-Assembled_example : Assembled receiver 7 begun second_frame empty_target
assemble-Assembled_example =
    assemble-Assembled receiver 7 begun second_frame empty_target second_frame_fast
      (omega (arith, one_match))

assemble_returns_example :
    (a' : FastPacketAssembler) × (target' : Target) × (done : Bool) × (assemble receiver 7 begun
        second_frame empty_target
      ≡ ok (a', target', done))
    × IsValid a'
assemble_returns_example =
    assemble_returns receiver 7 begun second_frame empty_target receiver-IsValid (omega arith)
      (omega arith)

abbrev returned :
    (a' : FastPacketAssembler) × (target' : Target) × (done : Bool) × (assemble receiver 7 begun
        second_frame empty_target
      ≡ ok (a', target', done))
    × IsValid a'
returned =
    assemble_returns receiver 7 begun second_frame empty_target receiver-IsValid (omega arith)
      (omega arith)

assemble_panics_example : assemble receiver 7 begun long_frame empty_target ≡ panic
assemble_panics_example =
    assemble_panics receiver 7 begun long_frame empty_target long_frame_fast no_match (omega arith)
      refl refl

-- Ten bytes in two frames, the second one first.
abbrev ten_bytes : Sent
ten_bytes = record { header = position; counter = 2; len = 10; payload = λ i. i % 256 }

abbrev call_of : ℕ × ℕ → Call
call_of a = record { now = a.1 + 1; item = begun; frame = frame ten_bytes a }

call_of-IsCall : (a : ℕ × ℕ) → a.0 < 32 → 5 ≤ a.1 → a.1 ≤ 100 → IsCall ten_bytes 5 a (call_of a)
call_of-IsCall a h late young = record {
  numbered = h;
  same = refl;
  late = late;
  young = omega arith;
  array = refl;
}

ten_bytes-IsDelivery :
    IsDelivery ten_bytes 5 ((1, 5) ∷ []) (0, 6) (call_of (1, 5)) (call_of (0, 6) ∷ [])
unfolding frames_needed
ten_bytes-IsDelivery = record {
  sendable = omega arith;
  length_counted = inr (inl (omega arith));
  frames = λ n h. ground arith;
  last_new = refl;
  are_calls = (
    call_of-IsCall (1, 5) (omega arith) (omega arith) (omega arith),
    (call_of-IsCall (0, 6) (omega arith) (omega arith) (omega arith), tt),
  );
}

abbrev idle : FastPacketAssembler
idle = record receiver { in_transfer = [] }

idle-IsFast : IsFast ten_bytes idle
unfolding could_be_fast_packet contains
idle-IsFast = (refl, refl)

assemble-Runs_example :
    (t : Target) × Runs idle t idle empty_target (call_of (1, 5) ∷ call_of (0, 6) ∷ [])
    × (t.message.header ≡ position)
    × (t.message.bytes ≡ chunk (λ i. i % 256) 0 10)
assemble-Runs_example =
    assemble-Runs ten_bytes 5 ((1, 5) ∷ []) (0, 6) (call_of (1, 5)) (call_of (0, 6) ∷ []) idle
      empty_target ten_bytes-IsDelivery idle-IsFast refl refl refl
