-- ===== src/Canboat/Text/RoundTrip.antt =====
-- canboat/inputoutput.go: a message that is written as a line is read back from it.
use go_nmea_client.Common.{
  ℕ, suc, ◌-◌, ◌/◌, ◌%◌, ◌^◌, ◌<◌, ◌≡◌, refl, ap, List, [], ◌∷◌, ◌++◌, Option, some, true, false,
  arith, ok, err, length, All, IsByte, ltb, eq→==, ◌==◌,
}
use go_nmea_client.Nmea.{RawMessage}
use go_nmea_client.Canbus.{CanBusHeader}
use go_nmea_client.Actisense.RawAscii.{hex_decode, digit, from_hex}
use go_nmea_client.Actisense.N2kAscii.{lower_digit}
use go_nmea_client.Text.{Bytes, split, concat, format_uint, is_digit}
use go_nmea_client.Text.Decimal.{parse_uint-format_uint, IsDigit, format_uint-IsDigit}
use go_nmea_client.Text.Parts.{Lacks, separated, split-separated}
use go_nmea_client.Canboat.Text.{
  data_text, marshal_raw_message, unmarshal_string, unmarshal_parts, wrapped, some_time,
  few_components,
}

-- The two digits of each byte.
unfoldable pub byte_texts : List ℕ → List Bytes
byte_texts [] = []
byte_texts (b ∷ bytes) = (lower_digit (b / 16) ∷ lower_digit (b % 16) ∷ []) ∷ byte_texts bytes

pub data_text-separated : (bytes : List ℕ) → data_text bytes ≡ separated b',' (byte_texts bytes)
unfolding data_text separated byte_texts
data_text-separated [] = refl
data_text-separated (b ∷ bytes) = rw (data_text-separated bytes) refl

pub length-byte_texts : (bytes : List ℕ) → length (byte_texts bytes) ≡ length bytes
unfolding byte_texts
length-byte_texts [] = refl
length-byte_texts (b ∷ bytes) = ap suc (length-byte_texts bytes)

pub byte_texts-Lacks : (bytes : List ℕ) → All (Lacks b',') (byte_texts bytes)
unfolding byte_texts lower_digit
byte_texts-Lacks [] = tt
byte_texts-Lacks (b ∷ bytes) = ((ground arith, (ground arith, tt)), byte_texts-Lacks bytes)

digit-lower_digit : (v : ℕ) → v < 16 → digit (lower_digit v) ≡ ok v
unfolding digit from_hex lower_digit
digit-lower_digit v h = ground arith

pub hex_decode-concat :
    (bytes : List ℕ) → All IsByte bytes → hex_decode (concat (byte_texts bytes)) ≡ ok bytes
unfolding byte_texts concat hex_decode
hex_decode-concat [] h = refl
hex_decode-concat (b ∷ bytes) h =
    rw
      (
        digit-lower_digit (b / 16) (omega (arith, h)),
        digit-lower_digit (b % 16) (omega arith),
        hex_decode-concat bytes h.1,
      )
      (ap (λ (v : ℕ). ok (v ∷ bytes)) (omega arith))

All-IsDigit-Lacks : (s : Bytes) → All IsDigit s → Lacks b',' s
unfolding is_digit
All-IsDigit-Lacks [] h = tt
All-IsDigit-Lacks (c ∷ s) h = (ground (arith, h.0), All-IsDigit-Lacks s h.1)

pub number-Lacks : (n : ℕ) → Lacks b',' (format_uint n)
number-Lacks n = All-IsDigit-Lacks (format_uint n) (format_uint-IsDigit n)

abbrev texts : (ℕ → Bytes) → RawMessage → List Bytes
texts stamp msg =
    format_uint msg.header.priority
    ∷ format_uint msg.header.pgn
    ∷ format_uint msg.header.source
    ∷ format_uint msg.header.destination
    ∷ format_uint (length msg.bytes)
    ∷ byte_texts msg.bytes

marshal_raw_message-separated :
    (stamp : ℕ → Bytes) (msg : RawMessage)
    → marshal_raw_message stamp msg ≡ stamp msg.time ++ separated b',' (texts stamp msg)
unfolding marshal_raw_message separated
marshal_raw_message-separated stamp msg = rw (data_text-separated msg.bytes) refl

-- The fields of a message that the format has room for.
pub record IsPrintable (msg : RawMessage) : Type 0 where
  pub priority_fits : msg.header.priority < 2 ^ 8
  pub pgn_fits : msg.header.pgn < 2 ^ 32
  pub source_fits : msg.header.source < 2 ^ 8
  pub destination_fits : msg.header.destination < 2 ^ 8
  pub data_fits : length msg.bytes < 2 ^ 16
  pub data_bytes : All IsByte msg.bytes

split-marshal_raw_message :
    (stamp : ℕ → Bytes) (msg : RawMessage)
    → Lacks b',' (stamp msg.time)
    → split b',' (marshal_raw_message stamp msg) ≡ stamp msg.time ∷ texts stamp msg
split-marshal_raw_message stamp msg h = rw (marshal_raw_message-separated stamp msg) (
    split-separated b',' (stamp msg.time) (texts stamp msg) h (
      number-Lacks _,
      (
        number-Lacks _,
        (number-Lacks _, (number-Lacks _, (number-Lacks _, byte_texts-Lacks msg.bytes))),
      ),
    ))

same_count : (n : ℕ) → (suc (suc (suc (suc (suc (suc n))))) - 6 == n) ≡ true
same_count n = eq→== _ _ (omega arith)

-- What a reader of times makes of the text of a time: the time, by digits and other characters that are
-- no commas.
pub record IsStamp (stamp : ℕ → Bytes) (parse_time : Bytes → Option ℕ) (time : ℕ) : Type 0 where
  pub first : ℕ
  pub others : Bytes
  pub starts : stamp time ≡ first ∷ others
  pub digit_first : IsDigit first
  pub no_comma : Lacks b',' (stamp time)
  pub read_back : parse_time (stamp time) ≡ some time

module _ (stamp : ℕ → Bytes) (parse_time : Bytes → Option ℕ) where
  unmarshal_parts-texts :
      (msg : RawMessage)
      → IsPrintable msg
      → parse_time (stamp msg.time) ≡ some msg.time
      → unmarshal_parts parse_time (stamp msg.time ∷ texts stamp msg) ≡ ok msg
  unfolding unmarshal_parts wrapped some_time
  unmarshal_parts-texts msg p t =
      rw
        (
          parse_uint-format_uint 16 (length msg.bytes) (omega arith) p.data_fits,
          length-byte_texts msg.bytes,
          same_count (length msg.bytes),
          t,
          parse_uint-format_uint 8 msg.header.priority (omega arith) p.priority_fits,
          parse_uint-format_uint 32 msg.header.pgn (omega arith) p.pgn_fits,
          parse_uint-format_uint 8 msg.header.source (omega arith) p.source_fits,
          parse_uint-format_uint 8 msg.header.destination (omega arith) p.destination_fits,
          hex_decode-concat msg.bytes p.data_bytes,
        )
        refl

  -- A message with data that has room in the format is read back from the line that is written for it,
  -- whatever its bytes are, where the text of its time is read back and has no comma.
  pub unmarshal_string-marshal_raw_message :
      (msg : RawMessage)
      → IsPrintable msg
      → 0 < length msg.bytes
      → IsStamp stamp parse_time msg.time
      → unmarshal_string parse_time (marshal_raw_message stamp msg) ≡ ok msg
  unfolding unmarshal_string
  unmarshal_string-marshal_raw_message msg p some_data t =
      let enough : ltb (length (stamp msg.time ∷ texts stamp msg)) 7 ≡ false =
        ground (arith, length-byte_texts msg.bytes) in
      rw (split-marshal_raw_message stamp msg t.no_comma, enough)
        (unmarshal_parts-texts msg p t.read_back)

  -- The line that is written for a message without data is refused: it has six parts.
  pub unmarshal_string-marshal_raw_message_empty :
      (time : ℕ) (header : CanBusHeader)
      → Lacks b',' (stamp time)
      → unmarshal_string parse_time
          (marshal_raw_message stamp (record { time = time; header = header; bytes = [] }))
        ≡ err few_components
  unfolding unmarshal_string byte_texts
  unmarshal_string-marshal_raw_message_empty time header h =
      rw (split-marshal_raw_message stamp (record { time = time; header = header; bytes = [] }) h)
        refl
