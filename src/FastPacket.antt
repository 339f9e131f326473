-- ===== src/FastPacket.antt =====
-- fastpacket.go: one fast-packet sequence in transfer (`fastPacketSequence`) with its operations
-- Append, Reset, To and As. The assembler over many sequences is FastPacket/Assembler.
-- A sequence is the state before and after each call; the 32-bit masks are numbers.
pub mod Masks
pub mod Blocks
pub mod Transfer
pub mod Reassembly
pub mod Delivery
pub mod Assembler
mod Examples
use go_nmea_client.Common.{
  ℕ, ◌+◌, ◌-◌, ◌*◌, ◌/◌, ◌^◌, List, Bool, true, false, Result, ok, panic, ◌>>◌, check, ltb, leb,
  ◌==◌, not, if◌then◌else◌, u8, u32, ◌<<◌, ◌>>>◌, bit_and, bit_or, length, replicate, overwrite,
  overwrite_from, take, drop, get_or,
}
use go_nmea_client.Canbus.{CanBusHeader}
use go_nmea_client.Nmea.{RawFrame, RawMessage, fast_raw_packet_max_size}

pub record Sequence : Type 0 where
  pub header : CanBusHeader
  pub last_received_frame_time : ℕ
  pub sequence : ℕ
  pub length : ℕ
  pub complete_frames_mask : ℕ
  pub received_frames_mask : ℕ
  pub received_frames_count : ℕ
  pub bytes : List ℕ

-- No frame carries this error: the operations below either succeed or panic.
pub data NoError : Type 0 where

-- A message to write into, with the capacity of the slice behind its data.
pub record Target : Type 0 where
  pub message : RawMessage
  pub capacity : ℕ

unfoldable pub is_complete : Sequence → Bool
is_complete m = m.complete_frames_mask == m.received_frames_mask

-- `frameCount`, in uint8 arithmetic.
unfoldable pub frame_count : ℕ → ℕ
frame_count len = if ltb 6 len then u8 (1 + u8 (len - 6 + 7) / 7) else 1

-- `^(0xFFFFFFFF << frameCount)`
unfoldable pub complete_mask : ℕ → ℕ
complete_mask count = 0xffff_ffff - u32 (0xffff_ffff << count)

-- The first frame that a sequence sees gives it its header and counter.
unfoldable pub begin : Sequence → RawFrame → ℕ → Sequence
begin m frame sequence =
    if m.received_frames_mask == 0
    then record m { header = frame.header; sequence = sequence }
    else m

unfoldable pub mark : Sequence → RawFrame → ℕ → Sequence
mark m frame frame_mask = record m {
  received_frames_mask = bit_or m.received_frames_mask frame_mask;
  received_frames_count = u8 (m.received_frames_count + 1);
  last_received_frame_time = frame.time;
}

-- Frame 0 has the length of the message in its second byte and six bytes of it.
unfoldable pub store_first : Sequence → RawFrame → Sequence
unfolding frame_count complete_mask
store_first m frame =
    let len = get_or frame.bytes 1 0 in
    record m {
      length = len;
      complete_frames_mask = complete_mask (frame_count len);
      bytes = overwrite m.bytes (take 6 (drop 2 frame.bytes));
    }

-- The others have seven bytes.
unfoldable pub store_next : Sequence → RawFrame → ℕ → Sequence
store_next m frame frame_nr = record m {
  bytes = overwrite_from (6 + (frame_nr - 1) * 7) m.bytes (drop 1 frame.bytes);
}

unfoldable pub append : Sequence → RawFrame → Sequence × Bool
append m frame =
    let sequence = get_or frame.bytes 0 0 >>> 5 in
    let frame_nr = bit_and (get_or frame.bytes 0 0) 31 in
    let frame_mask = 2 ^ frame_nr in
    let m' = mark (begin m frame sequence) frame frame_mask in
    let m'' = if frame_nr == 0 then store_first m' frame else store_next m' frame frame_nr in
    if ltb frame.length 2
    then (m, false)
    else if not (bit_and m.received_frames_mask frame_mask == 0)
    then (m, is_complete m)
    else (m'', is_complete m'')

-- The data is not reset: it will be overwritten.
unfoldable pub reset : Sequence → Sequence
reset m = record m {
  last_received_frame_time = 0;
  header = record { pgn = 0; priority = 0; source = 0; destination = 0 };
  sequence = 0;
  length = 0;
  complete_frames_mask = 0;
  received_frames_mask = 0;
  received_frames_count = 0;
}

-- A target with enough capacity keeps its own length, and `copy` stops at it.
unfoldable pub fill : Sequence → Target → Target
fill m target =
    let grow = ltb target.capacity m.length in
    let room = if grow then replicate m.length 0 else target.message.bytes in
    record {
      message = record {
        time = m.last_received_frame_time;
        header = m.header;
        bytes = overwrite room (take m.length m.bytes);
      };
      capacity = if grow then m.length else target.capacity;
    }

-- `m.data[0:m.length]` panics where the length is over the 223 bytes of the array.
unfoldable pub to : Sequence → Target → Result NoError Target
unfolding fill
to m target = check (leb m.length fast_raw_packet_max_size) >> ok (fill m target)

unfoldable pub as_message : Sequence → Result NoError RawMessage
as_message m =
    let filled = overwrite (replicate m.length 0) (take m.length m.bytes) in
    check (leb m.length fast_raw_packet_max_size)
    >> ok (record { time = m.last_received_frame_time; header = m.header; bytes = filled })
