-- ===== src/Actisense/Ebl.antt =====
-- actisense/eblreader.go: the reader of EBL log files and its parser of BST-95 messages.
-- The variables of the loop and the results of a step are those of Binary. Of the byte before the
-- current one the source keeps only whether it was ESC.
pub mod Framing
pub mod Receive
mod Examples
use go_nmea_client.Common.{
  ℕ, ◌+◌, ◌-◌, List, [], ◌∷◌, Option, none, some, Bool, Result, ok, err, ◌>>=◌, ◌>>◌, fail_if, ltb,
  leb, ◌==◌, ◌&&◌, not, if◌then◌else◌, u32, ◌<<◌, length, get_or, take, drop, replicate, overwrite,
}
use go_nmea_client.Canbus.{parse_can_id}
use go_nmea_client.Nmea.{RawMessage}
use go_nmea_client.Actisense.{
  Error, cancelled, read_failed, too_short, length_mismatch, Event, done, broken, idle, received,
  State, waiting_start_of_message, reading_message_data, processing_escape_sequence, Config, at,
  slice,
}
use go_nmea_client.Actisense.Binary.{
  Reader, Step, more, finished, store, discard, conclude, read_nothing,
}

abbrev pub soh : ℕ
soh = 0x01

abbrev pub nl : ℕ
nl = 0x0a

abbrev pub esc : ℕ
esc = 0x1b

unfoldable pub from_actisense_bst95_message : List ℕ → ℕ → Result Error RawMessage
from_actisense_bst95_message raw now = do
  fail_if (ltb (length raw) 8) too_short
  len ← at raw 0
  fail_if (not (len == length raw - 1)) length_mismatch
  b3 ← at raw 3
  b4 ← at raw 4
  b5 ← at raw 5
  b6 ← at raw 6
  let can_id = u32 (b3 + u32 (b4 << 8) + u32 (b5 << 16) + u32 (b6 << 24))
  payload ← slice raw 7 (length raw)
  ok (record {
    time = now;
    header = parse_can_id can_id;
    bytes = overwrite (replicate (length raw - 7) 0) payload;
  })

-- The end of a message: `none` where it is of another type and is discarded.
unfoldable pub dispatch_bst : List ℕ → ℕ → ℕ → Option (Result Error RawMessage)
dispatch_bst buffer n now =
    if leb n 4
    then some (err too_short)
    else if get_or buffer 0 0 == 0x07 && get_or buffer 1 0 == 0x95
    then some (from_actisense_bst95_message (drop 2 (take n buffer)) now)
    else none

-- One pass of the switch, with `current` already set.
unfoldable pub handle_ebl : State → Bool → Reader → ℕ → Step
handle_ebl waiting_start_of_message previous_was_escape r now =
    if previous_was_escape && r.current == soh
    then more (record r { state = reading_message_data })
    else more r
handle_ebl reading_message_data previous_was_escape r now =
    if r.current == esc then more (record r { state = processing_escape_sequence }) else store r
handle_ebl processing_escape_sequence previous_was_escape r now =
    if r.current == esc
    then store r
    else if r.current == nl
    then conclude r (dispatch_bst r.message r.index now)
    else discard r

unfoldable pub read_ebl_byte : Reader → ℕ → ℕ → Step
read_ebl_byte r b now =
    handle_ebl r.state (r.current == esc) (record r { current = b; last_read = now }) now

unfoldable pub read_ebl_event : Config → Reader → Event → Step
read_ebl_event config r done = finished (err cancelled)
read_ebl_event config r broken = finished (err read_failed)
read_ebl_event config r (idle at_eof now) = read_nothing config r at_eof now
read_ebl_event config r (received b now) = read_ebl_byte r b now

-- The loop.
unfoldable pub read_ebl_message : Config → Reader → List Event → Step
read_ebl_message config r [] = more r
read_ebl_message config r (e ∷ events) = elim (read_ebl_event config r e) [
  | more r' ↦ read_ebl_message config r' events
  | finished result ↦ finished result
]

-- As for the binary device.
unfoldable pub new_ebl_format_device_with_config : Config → Config
new_ebl_format_device_with_config config =
    if ltb 0 config.receive_data_timeout
    then record config { receive_data_timeout = 5_000_000_000 }
    else config
