-- ===== src/SocketCan/Examples.antt =====
-- socketcan/ at concrete frames: a message of ten bytes in two frames.
use go_nmea_client.Common.{
  ℕ, ◌≤◌, ◌<◌, ◌≡◌, refl, inl, inr, List, [], ◌∷◌, none, some, true, false, arith, ok, err, panic,
  if◌then◌else◌, leb, ◌==◌, ◌/◌, ◌%◌, ◌^◌, get_or, replicate,
}
use go_nmea_client.Canbus.{CanBusHeader}
use go_nmea_client.Nmea.{RawFrame, RawMessage, could_be_fast_packet}
use go_nmea_client.FastPacket.{Sequence}
use go_nmea_client.FastPacket.Masks.{frames_needed}
use go_nmea_client.FastPacket.Blocks.{chunk}
use go_nmea_client.FastPacket.Transfer.{Sent, Arrival, frame}
use go_nmea_client.FastPacket.Assembler.{FastPacketAssembler, contains}
use go_nmea_client.FastPacket.Assembler.Calls.{IsFast}
use go_nmea_client.SocketCan.{
  cancelled, remote_frame, error_frame, would_block, failed, filled, can_frame, read_raw_frame,
  Device, Round, read_raw_message, is_continuable_socket_err, read_rounds, step,
}
use go_nmea_client.SocketCan.Frames.{read_raw_frame_lem, id_of, frame_in}
use go_nmea_client.SocketCan.RoundTrip.{
  IsWhole, data_of, buffer_of, can_frame_lem, read_raw_frame-can_frame,
}
use go_nmea_client.SocketCan.Waiting.{IsQuiet, ReturnsFor, read_raw_message-ReturnsFor}
use go_nmea_client.SocketCan.Delivery.{
  IsCarried, IsReceived, IsComplete, ends, quiet, receives, read_raw_message-delivers,
}

abbrev command : CanBusHeader
command = record { pgn = 126208; priority = 3; source = 35; destination = 17 }

command-IsWhole : IsWhole command
command-IsWhole = inl (ground arith)

abbrev short_frame : RawFrame
short_frame = record {
  time = 4;
  header = command;
  length = 3;
  bytes = 1 ∷ 2 ∷ 3 ∷ 0 ∷ 0 ∷ 0 ∷ 0 ∷ 0 ∷ [];
}

read_raw_frame-can_frame_example :
    (buffer : List ℕ) × (can_frame short_frame ≡ ok buffer)
    × (read_raw_frame (filled buffer) 9
        ≡ ok (record short_frame { time = 9; bytes = data_of short_frame }))
read_raw_frame-can_frame_example =
    read_raw_frame-can_frame short_frame 9 command-IsWhole (omega arith) (omega arith) (omega arith)

-- A remote request.
abbrev remote : List ℕ
remote = 35 ∷ 17 ∷ 237 ∷ 205 ∷ 8 ∷ replicate 11 0

read_raw_frame_lem_example : read_raw_frame (filled remote) 9 ≡ (
    if id_of remote / 2 ^ 30 % 2 == 1
    then err remote_frame
    else if id_of remote / 2 ^ 29 % 2 == 1
    then err error_frame
    else if leb (get_or remote 4 0) 8
    then ok (frame_in remote 9)
    else panic)
read_raw_frame_lem_example = read_raw_frame_lem remote 9 refl (omega arith)

abbrev sent : Sent
sent = record { header = command; counter = 2; len = 10; payload = λ i. i % 256 }

abbrev pooled : Sequence
pooled = record {
  header = command;
  last_received_frame_time = 0;
  sequence = 0;
  length = 0;
  complete_frames_mask = 0;
  received_frames_mask = 0;
  received_frames_count = 0;
  bytes = replicate 223 0;
}

abbrev idle_round : Round
idle_round = record {
  done = false;
  not_set = none;
  read = failed would_block;
  frame_time = 0;
  now = 5;
  assembler_now = 0;
  item = pooled;
}

abbrev round_of : Arrival → Round
round_of a = record idle_round {
  read = filled (buffer_of (frame sent a));
  frame_time = a.1;
  now = a.1;
  assembler_now = a.1;
}

abbrev receiver : FastPacketAssembler
receiver = record { pgns = 126208 ∷ []; in_transfer = [] }

abbrev device : Device
device = record {
  interface_name = [];
  receive_data_timeout = 5_000_000_000;
  fast_packet_assembler = some receiver;
}

sent-IsCarried : IsCarried sent
sent-IsCarried = record {
  sendable = omega arith;
  header_whole = command-IsWhole;
  payload_bytes = λ i. omega arith;
}

sent-IsComplete : IsComplete sent ((0, 6) ∷ []) (1, 7)
unfolding frames_needed
sent-IsComplete = record {
  length_counted = inr (inl (omega arith));
  frames = λ n h. ground arith;
  last_new = refl;
}

receiver-IsFast : IsFast sent receiver
unfolding could_be_fast_packet contains
receiver-IsFast = (refl, refl)

round_of-IsReceived :
    (a : Arrival) → a.0 < 32 → 6 ≤ a.1 → a.1 ≤ 100 → IsReceived sent 6 a (round_of a)
unfolding frame
round_of-IsReceived a h late young = record {
  not_done = refl;
  is_set = refl;
  buffer = buffer_of (frame sent a);
  sent = can_frame_lem (frame sent a) (omega arith);
  received = refl;
  arrives = refl;
  numbered = h;
  late = late;
  young = omega arith;
  array = refl;
}

idle_round-IsQuiet : IsQuiet 5_000_000_000 4 idle_round
unfolding is_continuable_socket_err
idle_round-IsQuiet = record {
  not_done = refl;
  is_set = refl;
  error = would_block;
  timed_out = refl;
  continuable = refl;
  in_time = omega arith;
}

abbrev rounds : List Round
rounds = round_of (0, 6) ∷ idle_round ∷ round_of (1, 7) ∷ idle_round ∷ []

read_raw_message-delivers_example :
    (msg : RawMessage) × (read_raw_message device 4 rounds
      ≡ ok (
        some (ok msg),
        record device { fast_packet_assembler = some (record receiver { in_transfer = [] }) },
        idle_round ∷ [],
      ))
    × (msg.header ≡ command)
    × (msg.bytes ≡ chunk (λ i. i % 256) 0 10)
read_raw_message-delivers_example =
    read_raw_message-delivers sent 6 4 device receiver ((0, 6) ∷ []) (1, 7) rounds (idle_round ∷ [])
      sent-IsCarried sent-IsComplete refl receiver-IsFast refl
      (receives (round_of-IsReceived (0, 6) (omega arith) (omega arith) (omega arith)) (
        quiet idle_round-IsQuiet
          (receives (round_of-IsReceived (1, 7) (omega arith) (omega arith) (omega arith)) ends)))

abbrev ended : Round
ended = record idle_round { done = true }

read_raw_message-ReturnsFor_example : ReturnsFor 5_000_000_000 4 (ended ∷ []) (err cancelled) []
read_raw_message-ReturnsFor_example =
    read_raw_message-ReturnsFor device 4 (ended ∷ []) (err cancelled) device []
      (unfold read_raw_message in unfold read_rounds in unfold step in refl)
