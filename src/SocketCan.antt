-- ===== src/SocketCan.antt =====
-- socketcan/socketcan.go and socketcan/device.go: frames of a socket of the Linux kernel, sent and read, and
-- the device that makes messages of them. What the kernel's calls return, and what the clock shows, are
-- arguments.
pub mod Frames
pub mod RoundTrip
pub mod Waiting
pub mod Delivery
mod Examples
use go_nmea_client.Common.{
  ℕ, zero, suc, ◌+◌, ◌-◌, List, [], ◌∷◌, ◌++◌, Option, none, some, Bool, true, false, Result, ok,
  err, panic, ◌>>=◌, ◌>>◌, check, fail_if, ltb, leb, ◌==◌, ◌&&◌, not, if◌then◌else◌, u8, bit_and,
  bit_or, length, take, drop, set, get_or, replicate, overwrite, overwrite_from,
}
use Prim.Native.Nat.{bit_xor}
use go_nmea_client.Canbus.{CanBusHeader, uint32, parse_can_id}
use go_nmea_client.Nmea as Nmea
use go_nmea_client.Nmea.{RawFrame, RawMessage}
use go_nmea_client.RawData as RawData
use go_nmea_client.FastPacket.{Sequence, Target, NoError}
use go_nmea_client.FastPacket.Assembler.{FastPacketAssembler, assemble}
use go_nmea_client.Text.{Bytes, ℤ, pos, negsuc, codes}

-- The upper three bits of the identifier in a socket's frame.
abbrev pub can_id_mask : ℕ
can_id_mask = 0xe000_0000

abbrev pub can_id_err_flag : ℕ
can_id_err_flag = 0x2000_0000

abbrev pub can_id_rtr_flag : ℕ
can_id_rtr_flag = 0x4000_0000

abbrev pub can_id_eff_flag : ℕ
can_id_eff_flag = 0x8000_0000

-- What a call of the kernel fails with: EWOULDBLOCK, EINTR or another number.
pub data SocketError : Type 0 where
  would_block interrupted : SocketError
  other : ℕ → SocketError

unfoldable pub is_continuable_socket_err : SocketError → Bool
is_continuable_socket_err would_block = true
is_continuable_socket_err interrupted = true
is_continuable_socket_err (other n) = false

pub data Error : Type 0 where
  read_timeout write_timeout remote_frame error_frame cancelled not_implemented : Error
  socket : SocketError → Error

-- The sixteen bytes of `struct can_frame`; `raw.Data[:raw.Length]` panics over eight.
unfoldable pub can_frame : RawFrame → Result Error (List ℕ)
can_frame raw =
    let can_id = bit_or (uint32 raw.header) can_id_eff_flag in
    let with_id = overwrite_from 0 (replicate 16 0) (Nmea.little_endian 4 can_id) in
    let with_length = set with_id 4 raw.length in
    check (leb raw.length 8) >> ok (overwrite_from 8 with_length (take raw.length raw.bytes))

unfoldable pub written : Option SocketError → Result Error (Unit {0})
written none = ok tt
written (some e) = if is_continuable_socket_err e then err write_timeout else err (socket e)

-- `SendFrame`, with what `unix.Write` of the bytes returns.
unfoldable pub send_frame : (List ℕ → Option SocketError) → RawFrame → Result Error (Unit {0})
send_frame write raw = can_frame raw >>= λ bytes. written (write bytes)

-- What `unix.Read` returns: an error, or the buffer of sixteen bytes after it.
pub data Read : Type 0 where
  failed : SocketError → Read
  filled : List ℕ → Read

unfoldable pub read_error : SocketError → Error
read_error e = if is_continuable_socket_err e then read_timeout else socket e

-- The frame in the buffer. The end of the slice, `8+f.Length`, is a uint8.
unfoldable pub parse_frame : List ℕ → ℕ → Result Error RawFrame
parse_frame buffer now =
    let can_id = RawData.little_endian (take 4 buffer) in
    let len = get_or buffer 4 0 in
    let end = u8 (8 + len) in
    fail_if (not (bit_and can_id can_id_rtr_flag == 0)) remote_frame
    >> fail_if (not (bit_and can_id can_id_err_flag == 0)) error_frame
    >> check (leb 8 end && leb end (length buffer))
    >> ok (record {
      time = now;
      header = parse_can_id (bit_xor can_id can_id_mask);
      length = len;
      bytes = overwrite (replicate 8 0) (take (end - 8) (drop 8 buffer));
    })

-- `ReadRawFrame`
unfoldable pub read_raw_frame : Read → ℕ → Result Error RawFrame
read_raw_frame (failed e) now = err (read_error e)
read_raw_frame (filled buffer) now = parse_frame buffer now

-- A timeout of zero or less is not set.
pub record DeviceConfig : Type 0 where
  pub interface_name : Bytes
  pub receive_data_timeout : ℤ
  pub fast_packet_assembler : Option FastPacketAssembler

pub record Device : Type 0 where
  pub interface_name : Bytes
  pub receive_data_timeout : ℕ
  pub fast_packet_assembler : Option FastPacketAssembler

unfoldable pub name_or_can0 : Bytes → Bytes
name_or_can0 [] = codes "can0"
name_or_can0 (c ∷ name) = c ∷ name

-- Five seconds, where none is set.
unfoldable pub timeout_or_default : ℤ → ℕ
timeout_or_default (pos zero) = 5_000_000_000
timeout_or_default (pos (suc n)) = suc n
timeout_or_default (negsuc n) = 5_000_000_000

unfoldable pub new_device : DeviceConfig → Device
new_device config = record {
  interface_name = name_or_can0 config.interface_name;
  receive_data_timeout = timeout_or_default config.receive_data_timeout;
  fast_packet_assembler = config.fast_packet_assembler;
}

-- What one round of the loop of `ReadRawMessage` sees: whether the context is done, the error of the
-- setting of the timeout, the read, the two times that the clock shows, and for the assembler the time
-- and the object of the pool that it gets.
pub record Round : Type 0 where
  pub done : Bool
  pub not_set : Option SocketError
  pub read : Read
  pub frame_time : ℕ
  pub now : ℕ
  pub assembler_now : ℕ
  pub item : Sequence

-- A round ends the call, or the loop goes on.
pub data Step : Type 0 where
  returned : Result Error RawMessage → Device → Step
  again : Device → Target → Step
  panicked : Step

unfoldable pub assembled : Device → Result NoError (FastPacketAssembler × Target × Bool) → Step
assembled device panic = panicked
assembled device (err e) = panicked
assembled device (ok (a, target, true)) =
    returned (ok target.message) (record device { fast_packet_assembler = some a })
assembled device (ok (a, target, false)) =
    again (record device { fast_packet_assembler = some a }) target

unfoldable pub with_frame : Device → Round → Target → RawFrame → Step
with_frame device x target frame = elim device.fast_packet_assembler [
  | some a ↦ assembled device (assemble a x.assembler_now x.item frame target)
  | none ↦
      returned (ok (record { time = frame.time; header = frame.header; bytes = frame.bytes }))
        device
]

unfoldable pub is_timeout : Error → Bool
is_timeout read_timeout = true
is_timeout write_timeout = false
is_timeout remote_frame = false
is_timeout error_frame = false
is_timeout cancelled = false
is_timeout not_implemented = false
is_timeout (socket e) = false

-- A read that timed out ends the call only when too much time has gone by since its start.
unfoldable pub with_error : Device → ℕ → Round → Target → Error → Step
with_error device start x target e =
    if is_timeout e
    then (if ltb (start + device.receive_data_timeout) x.now
        then returned (err e) device
        else again device target)
    else returned (err e) device

unfoldable pub with_read : Device → ℕ → Round → Target → Result Error RawFrame → Step
with_read device start x target panic = panicked
with_read device start x target (err e) = with_error device start x target e
with_read device start x target (ok frame) = with_frame device x target frame

unfoldable pub step : Device → ℕ → Target → Round → Step
step device start target x = if x.done then returned (err cancelled) device else (elim x.not_set [
  | some e ↦ returned (err (socket e)) device
  | none ↦ with_read device start x target (read_raw_frame x.read x.frame_time)
])

-- The loop, over the rounds: the message or the error that it ends with, if it does, the device after
-- it, and the rounds left.
unfoldable pub read_rounds :
    Device
    → ℕ
    → Target
    → List Round
    → Result Error (Option (Result Error RawMessage) × Device × List Round)
read_rounds device start target [] = ok (none, device, [])
read_rounds device start target (x ∷ rounds) = elim (step device start target x) [
  | returned r d ↦ ok (some r, d, rounds)
  | again d t ↦ read_rounds d start t rounds
  | panicked ↦ panic
]

abbrev pub no_header : CanBusHeader
no_header = record { pgn = 0; priority = 0; source = 0; destination = 0 }

-- `msg := nmea.RawMessage{}`
abbrev pub no_message : Target
no_message = record { message = record { time = 0; header = no_header; bytes = [] }; capacity = 0 }

-- `ReadRawMessage`; `start` is the time at which it is called.
unfoldable pub read_raw_message :
    Device → ℕ → List Round → Result Error (Option (Result Error RawMessage) × Device × List Round)
read_raw_message device start rounds = read_rounds device start no_message rounds

-- `WriteRawMessage`
unfoldable pub write_raw_message : Device → RawMessage → Result Error (Unit {0})
write_raw_message device msg = err not_implemented
