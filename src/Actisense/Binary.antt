-- ===== src/Actisense/Binary.antt =====
-- actisense/binaryreader.go: the byte-wise reader of BinaryFormatDevice and its writer.
-- Reading is a function of the events on the device (see `Event`); it ends with `more`, the state in
-- which the loop waits, where the events run out. Log calls are left out.
pub mod Framing
pub mod Receive
pub mod Write
mod Examples
use go_nmea_client.Common.{
  ℕ, zero, suc, ◌+◌, ◌-◌, ◌%◌, List, [], ◌∷◌, ◌++◌, Option, none, some, Bool, true, false, Result,
  ok, err, panic, ltb, leb, ◌==◌, ◌&&◌, ◌||◌, if◌then◌else◌, u8, ◌>>>◌, length, get_or, set, take,
  replicate,
}
use go_nmea_client.Nmea.{RawMessage, iso_tp_data_max_size}
use go_nmea_client.Actisense.{
  Error, cancelled, read_failed, timed_out, Event, done, broken, idle, received, State,
  waiting_start_of_message, reading_message_data, processing_escape_sequence, Config,
}
use go_nmea_client.Actisense.Crc.{crc}
use go_nmea_client.Actisense.Messages.{
  from_ngt_message, from_actisense_ngt_binary_message, from_actisense_n2k_binary_message,
  from_raw_actisense_message,
}

abbrev pub stx : ℕ
stx = 0x02

abbrev pub etx : ℕ
etx = 0x03

abbrev pub dle : ℕ
dle = 0x10

-- The variables of the loop. `message` is the buffer with `index` bytes of a message.
pub record Reader : Type 0 where
  pub state : State
  pub message : List ℕ
  pub index : ℕ
  pub current : ℕ
  pub last_read : ℕ

pub data Step : Type 0 where
  more : Reader → Step
  finished : Result Error RawMessage → Step

unfoldable pub new_reader : ℕ → Reader
new_reader now = record {
  state = waiting_start_of_message;
  message = replicate iso_tp_data_max_size 0;
  index = 0;
  current = 0;
  last_read = now;
}

-- The `switch message[0]` at the end of a message: `none` where the message is discarded.
unfoldable pub dispatch : Config → List ℕ → ℕ → ℕ → Option (Result Error RawMessage)
dispatch config buffer n now =
    let command = get_or buffer 0 0 in
    let msg = take n buffer in
    if command == 0x93 || command == 0x94
    then some (from_actisense_ngt_binary_message msg now)
    else if command == 0xd0 || command == 0xd1
    then some (from_actisense_n2k_binary_message msg now)
    else if command == 0x95 || command == 0x96
    then some (from_raw_actisense_message msg now)
    else if command == 0xa0 && config.output_actisense_messages
    then some (from_ngt_message buffer n now)
    else none

-- `message[messageByteIndex] = currentByte; messageByteIndex++`, back in the reading state.
unfoldable pub store : Reader → Step
store r =
    if ltb r.index (length r.message)
    then more (record r {
      state = reading_message_data;
      message = set r.message r.index r.current;
      index = r.index + 1;
    })
    else finished panic

unfoldable pub discard : Reader → Step
discard r = more (record r { state = waiting_start_of_message; index = 0 })

unfoldable pub conclude : Reader → Option (Result Error RawMessage) → Step
conclude r none = discard r
conclude r (some result) = finished result

-- One pass of the switch, with `current` already set; `previous` is the byte before it.
unfoldable pub handle : Config → State → ℕ → Reader → ℕ → Step
handle config waiting_start_of_message previous r now =
    if previous == dle && r.current == stx
    then more (record r { state = reading_message_data })
    else more r
handle config reading_message_data previous r now =
    if r.current == dle then more (record r { state = processing_escape_sequence }) else store r
handle config processing_escape_sequence previous r now =
    if r.current == dle
    then store r
    else if r.current == etx
    then conclude r (dispatch config r.message r.index now)
    else discard r

unfoldable pub read_byte : Config → Reader → ℕ → ℕ → Step
read_byte config r b now =
    handle config r.state r.current (record r { current = b; last_read = now }) now

-- A read without a byte ends the loop only at the end of the input, after the timeout.
unfoldable pub read_nothing : Config → Reader → Bool → ℕ → Step
read_nothing config r at_eof now =
    if at_eof && ltb config.receive_data_timeout (now - r.last_read)
    then finished (err timed_out)
    else more r

unfoldable pub read_event : Config → Reader → Event → Step
read_event config r done = finished (err cancelled)
read_event config r broken = finished (err read_failed)
read_event config r (idle at_eof now) = read_nothing config r at_eof now
read_event config r (received b now) = read_byte config r b now

-- The loop.
unfoldable pub read_raw_message : Config → Reader → List Event → Step
read_raw_message config r [] = more r
read_raw_message config r (e ∷ events) = elim (read_event config r e) [
  | more r' ↦ read_raw_message config r' events
  | finished result ↦ finished result
]

-- `DLE` is doubled.
unfoldable pub escape : List ℕ → List ℕ
escape [] = []
escape (b ∷ bytes) = let rest = escape bytes in if b == dle then dle ∷ dle ∷ rest else b ∷ rest

-- `0 - crc(data)` in uint8. The checksum is not escaped.
unfoldable pub bst_packet : List ℕ → List ℕ
bst_packet bytes = dle ∷ stx ∷ (escape bytes ++ (u8 (256 - crc bytes) ∷ dle ∷ etx ∷ []))

-- The bytes that `WriteRawMessage` hands to `writeBstMessage`.
unfoldable pub send_buffer : Config → RawMessage → List ℕ
send_buffer config m =
    (if config.is_n2k_writer then 0xd1 else 0x94)
    ∷ u8 (length m.bytes + 6)
    ∷ m.header.priority
    ∷ u8 m.header.pgn
    ∷ u8 (m.header.pgn >>> 8)
    ∷ u8 (m.header.pgn >>> 16)
    ∷ m.header.destination
    ∷ u8 (length m.bytes)
    ∷ m.bytes

-- The `Receive All Transfer` message of `Initialize`.
abbrev pub clear_pgn_filter : List ℕ
clear_pgn_filter = 0xa1 ∷ 3 ∷ 0x11 ∷ 0x02 ∷ 0x00 ∷ []

-- What one `Write` on the device gives: the bytes taken, and the error EAGAIN or another.
pub data WriteOutcome : Type 0 where
  wrote : ℕ → WriteOutcome
  again : ℕ → WriteOutcome
  failed : WriteOutcome

pub data Written : Type 0 where
  written write_failure retries_exceeded writing : Written

-- The loop of `writeBstMessage`, which hands over the whole packet each time. With it, the bytes that
-- the device took; `writing` where the outcomes run out.
unfoldable pub write_loop : List ℕ → ℕ → ℕ → List WriteOutcome → Written × List ℕ
write_loop packet total retries [] = (writing, [])
write_loop packet total retries (failed ∷ outcomes) = (write_failure, [])
write_loop packet total retries (wrote n ∷ outcomes) =
    let rest = write_loop packet (total + n) retries outcomes in
    if leb (length packet) (total + n)
    then (written, take n packet)
    else if ltb 5 retries
    then (retries_exceeded, take n packet)
    else (rest.0, take n packet ++ rest.1)
write_loop packet total retries (again n ∷ outcomes) =
    let rest = write_loop packet (total + n) (retries + 1) outcomes in
    if leb (length packet) (total + n)
    then (written, take n packet)
    else if ltb 5 (retries + 1)
    then (retries_exceeded, take n packet)
    else (rest.0, take n packet ++ rest.1)

unfoldable pub write_bst_message : List ℕ → List WriteOutcome → Written × List ℕ
write_bst_message bytes outcomes = write_loop (bst_packet bytes) 0 0 outcomes

unfoldable pub write_raw_message : Config → RawMessage → List WriteOutcome → Written × List ℕ
write_raw_message config m outcomes = write_bst_message (send_buffer config m) outcomes

-- The configuration that the device keeps: any timeout above 0 becomes five seconds, as in the source.
unfoldable pub new_binary_device_with_config : Config → Config
new_binary_device_with_config config =
    if ltb 0 config.receive_data_timeout
    then record config { receive_data_timeout = 5_000_000_000 }
    else config

-- `Config{ReceiveDataTimeout: 150 * time.Millisecond}`
abbrev pub new_binary_device : Config
new_binary_device = new_binary_device_with_config (record {
  receive_data_timeout = 150_000_000;
  output_actisense_messages = false;
  is_n2k_writer = false;
})
