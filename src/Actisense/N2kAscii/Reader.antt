-- ===== src/Actisense/N2kAscii/Reader.antt =====
-- actisense/n2kasciidevice.go: `ReadRawMessage`, which cuts lines from the reads of the device. The device
-- and the context are the list of what its reads give.
pub mod Pieces
use go_nmea_client.Common.{
  ℕ, ◌+◌, ◌-◌, ◌*◌, List, [], ◌∷◌, Option, none, some, true, false, Result, ok, err, panic, zero,
  suc, ◌≤◌, ◌≡◌, refl, ap, sym, ◌∙◌, ◌++◌, All, arith, length-append, map, leb, ◌==◌, if◌then◌else◌,
  length, take, drop, replicate, overwrite, overwrite_from,
}
use go_nmea_client.Nmea.{RawMessage, iso_tp_data_max_size}
use go_nmea_client.Actisense.RawAscii.{index_byte}
use go_nmea_client.Actisense.N2kAscii as N2kAscii
use go_nmea_client.Actisense.N2kAscii.{parse_n2k_ascii}

pub record N2kAsciiDevice : Type 0 where
  pub read_buffer : List ℕ
  pub read_index : ℕ

unfoldable pub new_n2k_ascii_device : N2kAsciiDevice
new_n2k_ascii_device = record {
  read_buffer = replicate (iso_tp_data_max_size * 2) 0;
  read_index = 0;
}

-- A round of the loop: the context is done, or what a read gives, with the time after it.
pub data Input : Type 0 where
  cancelled failed : Input
  got : List ℕ → ℕ → Input

pub data Error : Type 0 where
  context_done read_failed : Error
  bad_line : N2kAscii.Error → Error

-- The end of a call, or another round. Where the reads run out, the device is left waiting.
pub data Outcome : Type 0 where
  returned : Result Error RawMessage → N2kAsciiDevice → List Input → Outcome
  waits : N2kAsciiDevice → Outcome
  panicked : Outcome

-- A line with its end at an index of the read: the buffer with the line, and the number of its bytes.
unfoldable pub with_line : N2kAsciiDevice → List ℕ → ℕ → List ℕ × ℕ
with_line d buf end = (overwrite_from d.read_index d.read_buffer (take end buf), d.read_index + end)

-- The bytes behind the line start the next one.
unfoldable pub left_over : List ℕ → List ℕ → ℕ → N2kAsciiDevice
left_over buffer buf end = record {
  read_buffer = overwrite buffer (drop (end + 1) buf);
  read_index = length buf - (end + 1);
}

unfoldable pub append_read : N2kAsciiDevice → List ℕ → N2kAsciiDevice
append_read d buf = record {
  read_buffer = overwrite_from d.read_index d.read_buffer buf;
  read_index = d.read_index + length buf;
}

-- What a read does: the loop goes on, or the call returns.
pub data Turn : Type 0 where
  goes_on : N2kAsciiDevice → Turn
  gives : Result Error RawMessage → N2kAsciiDevice → Turn
  crashes : Turn

unfoldable pub after_line : N2kAsciiDevice → Result N2kAscii.Error (Option RawMessage) → Turn
after_line d (ok none) = goes_on d
after_line d (ok (some msg)) = gives (ok msg) d
after_line d (err e) = gives (err (bad_line e)) d
after_line d panic = crashes

-- A slice that would start or end behind the buffer is a panic.
unfoldable pub on_read : N2kAsciiDevice → List ℕ → ℕ → Turn
on_read d buf now = elim (index_byte buf 10) [
  | none ↦
      if length buf == 0
      then goes_on d
      else if leb d.read_index (length d.read_buffer)
      then goes_on (append_read d buf)
      else crashes
  | some end ↦
      let line = with_line d buf end in
      if leb line.1 (length d.read_buffer)
      then after_line (left_over line.0 buf end) (parse_n2k_ascii line.0 line.1 now)
      else crashes
]

-- `ReadRawMessage`
unfoldable pub read_n2k_message : N2kAsciiDevice → List Input → Outcome
read_n2k_message d [] = waits d
read_n2k_message d (cancelled ∷ rest) = returned (err context_done) d rest
read_n2k_message d (failed ∷ rest) = returned (err read_failed) d rest
read_n2k_message d (got buf now ∷ rest) = elim (on_read d buf now) [
  | goes_on d' ↦ read_n2k_message d' rest
  | gives r d' ↦ returned r d' rest
  | crashes ↦ panicked
]
