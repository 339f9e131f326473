-- ===== src/Canboat/Text.antt =====
-- canboat/inputoutput.go and canboat/device.go: messages as lines of text, written and read.
-- A time is made a text and read from one by Go's package `time`: two arguments.
pub mod RoundTrip
pub mod Bounds
pub mod Reader
mod Examples
use go_nmea_client.Common.{
  ℕ, ◌-◌, ◌/◌, ◌%◌, List, [], ◌∷◌, ◌++◌, Option, none, some, Bool, true, false, Result, ok, err,
  panic, ◌>>=◌, ◌>>◌, fail_if, ltb, ◌==◌, ◌||◌, not, if◌then◌else◌, length, drop, get_or,
}
use go_nmea_client.Nmea.{RawMessage}
use go_nmea_client.Actisense.RawAscii as RawAscii
use go_nmea_client.Actisense.RawAscii.{hex_decode}
use go_nmea_client.Actisense.N2kAscii.{lower_digit}
use go_nmea_client.Text.{Bytes, NumError, split, concat, trim_space, parse_uint, format_uint}

-- `%02x` of each byte, behind a comma.
unfoldable pub data_text : List ℕ → Bytes
data_text [] = []
data_text (b ∷ bytes) = b',' ∷ lower_digit (b / 16) ∷ lower_digit (b % 16) ∷ data_text bytes

-- `MarshalRawMessage`; its writes into a buffer have no error.
unfoldable pub marshal_raw_message : (ℕ → Bytes) → RawMessage → Bytes
marshal_raw_message stamp msg =
    stamp msg.time
    ++ (b','
        ∷ (format_uint msg.header.priority
            ++ (b','
                ∷ (format_uint msg.header.pgn
                    ++ (b','
                        ∷ (format_uint msg.header.source
                            ++ (b','
                                ∷ (format_uint msg.header.destination
                                    ++ (b','
                                        ∷ (format_uint (length msg.bytes)
                                            ++ data_text msg.bytes))))))))))

pub data Error : Type 0 where
  few_components length_mismatch bad_time : Error
  bad_length bad_priority bad_pgn bad_source bad_destination : NumError → Error
  bad_data : RawAscii.Error → Error

-- `fmt.Errorf("…, err: %w", err)`
unfoldable pub wrapped {ℓ} : {E : Type 0} {A : Type ℓ} → (E → Error) → Result E A → Result Error A
wrapped name (ok a) = ok a
wrapped name (err e) = err (name e)
wrapped name panic = panic

unfoldable pub some_time : Option ℕ → Result Error ℕ
some_time none = err bad_time
some_time (some t) = ok t

-- The parts of a line behind the test of their number.
unfoldable pub unmarshal_parts : (Bytes → Option ℕ) → List Bytes → Result Error RawMessage
unmarshal_parts parse_time parts = do
  d_len ← wrapped bad_length (parse_uint 16 (get_or parts 5 []))
  fail_if (not (length parts - 6 == d_len)) length_mismatch
  time ← some_time (parse_time (get_or parts 0 []))
  priority ← wrapped bad_priority (parse_uint 8 (get_or parts 1 []))
  pgn ← wrapped bad_pgn (parse_uint 32 (get_or parts 2 []))
  source ← wrapped bad_source (parse_uint 8 (get_or parts 3 []))
  destination ← wrapped bad_destination (parse_uint 8 (get_or parts 4 []))
  bytes ← wrapped bad_data (hex_decode (concat (drop 6 parts)))
  ok (record {
    time = time;
    header = record { pgn = pgn; priority = priority; source = source; destination = destination };
    bytes = bytes;
  })

-- `UnmarshalString`
unfoldable pub unmarshal_string : (Bytes → Option ℕ) → Bytes → Result Error RawMessage
unmarshal_string parse_time raw =
    let parts = split b',' raw in
    fail_if (ltb (length parts) 7) few_components >> unmarshal_parts parse_time parts

-- An empty line, or a comment.
unfoldable pub is_skipped : Bytes → Bool
is_skipped [] = true
is_skipped (c ∷ line) = c == b'#'

-- `ReadRawMessage` over the lines that the scanner still gives: the message or the error of a line,
-- or nothing at the end of the input, with the lines left. The error of the scanner itself is Go's.
unfoldable pub read_raw_message :
    (Bytes → Option ℕ) → List Bytes → Option (Result Error RawMessage) × List Bytes
read_raw_message parse_time [] = (none, [])
read_raw_message parse_time (text ∷ lines) =
    let line = trim_space text in
    let rest = read_raw_message parse_time lines in
    if is_skipped line then rest else (some (unmarshal_string parse_time line), lines)
