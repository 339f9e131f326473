-- ===== src/Actisense.antt =====
-- The readers and writers of actisense/: here of the binary formats (Binary).
-- What its parts share is here: the results of reading, and access to slices with Go's run-time checks.
pub mod Crc
pub mod Slices
pub mod Messages
pub mod Binary
pub mod Ebl
pub mod RawAscii
pub mod N2kAscii
use go_nmea_client.Common.{
  ℕ, ◌+◌, ◌-◌, List, [], ◌∷◌, Bool, Result, ok, err, panic, ◌>>◌, check, ltb, leb, length, get_or,
  take, drop, ◌&&◌,
}

-- The errors that reading returns, one constructor for each place.
pub data Error : Type 0 where
  cancelled read_failed timed_out : Error
  too_short length_mismatch invalid_crc : Error

-- What one call of `Read` on the device, with the test of the context before it, can give: the
-- context is done, an error that ends the read, no byte (with or without io.EOF), or a byte. The
-- number is the clock after the call.
pub data Event : Type 0 where
  done : Event
  broken : Event
  idle : Bool → ℕ → Event
  received : ℕ → ℕ → Event

-- `raw[i]`
unfoldable pub at : List ℕ → ℕ → Result Error ℕ
at raw i = check (ltb i (length raw)) >> ok (get_or raw i 0)

-- `raw[from:to]` of a slice whose length is its capacity.
unfoldable pub slice : List ℕ → ℕ → ℕ → Result Error (List ℕ)
slice raw from to =
    check (leb from to && leb to (length raw)) >> ok (take (to - from) (drop from raw))

-- The states of the reader.
pub data State : Type 0 where
  waiting_start_of_message reading_message_data processing_escape_sequence : State

pub record Config : Type 0 where
  pub receive_data_timeout : ℕ
  pub output_actisense_messages : Bool
  pub is_n2k_writer : Bool
