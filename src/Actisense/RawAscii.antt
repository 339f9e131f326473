-- ===== src/Actisense/RawAscii.antt =====
-- actisense/rawasciidevice.go: lines of the RAW ASCII format, read and written.
-- A read of the device is the bytes that it gives; the functions of Go's `encoding/hex` and `strconv`
-- that the source uses are written out.
pub mod Assembling
pub mod Lines
pub mod Hex
mod Examples
use go_nmea_client.Common.{
  ℕ, zero, suc, ◌+◌, ◌-◌, ◌*◌, ◌/◌, ◌%◌, List, [], ◌∷◌, ◌++◌, Option, none, some, Bool, true, false,
  Result, ok, err, panic, ◌>>=◌, ◌>>◌, check, ltb, leb, ◌==◌, ◌&&◌, ◌||◌, not, if◌then◌else◌, u8,
  length, take, drop, set, get_or, replicate, overwrite, overwrite_from,
}
use go_nmea_client.Canbus.{uint32, parse_can_id}
use go_nmea_client.Nmea.{RawFrame, RawMessage}

pub data Error : Type 0 where
  invalid_byte odd_length : Error

-- The values of the characters 0 to 9, a to f and A to F.
unfoldable pub from_hex : ℕ → Option ℕ
from_hex c =
    if leb b'0' c && leb c b'9'
    then some (c - b'0')
    else if leb b'a' c && leb c b'f'
    then some (c - b'a' + 10)
    else if leb b'A' c && leb c b'F'
    then some (c - b'A' + 10)
    else none

unfoldable pub digit : ℕ → Result Error ℕ
digit c = elim (from_hex c) [ none ↦ err invalid_byte | some v ↦ ok v ]

-- `hex.Decode`; a character without a partner is an error.
unfoldable pub hex_decode : List ℕ → Result Error (List ℕ)
hex_decode [] = ok []
hex_decode (p ∷ []) = digit p >>= λ high. err odd_length
hex_decode (p ∷ q ∷ src) = do
  high ← digit p
  low ← digit q
  bytes ← hex_decode src
  ok ((high * 16 + low) ∷ bytes)

-- `binary.BigEndian`
unfoldable pub from_big_endian : List ℕ → ℕ → ℕ
from_big_endian [] acc = acc
from_big_endian (b ∷ bytes) acc = from_big_endian bytes (acc * 256 + b)

-- A text that is too short gets zeros in front; the start of one that is too long is negative.
unfoldable pub padded : List ℕ → ℕ → Result Error (List ℕ)
padded raw dst_length =
    if (length raw + 1) / 2 == dst_length
    then ok raw
    else check (leb (length raw) (dst_length * 2))
      >> ok (replicate (dst_length * 2 - length raw) b'0' ++ raw)

unfoldable pub decode_hex_to_int : List ℕ → ℕ → Result Error ℕ
decode_hex_to_int raw dst_length = do
  digits ← padded raw dst_length
  bytes ← hex_decode digits
  ok (from_big_endian bytes 0)

pub record Spaces : Type 0 where
  pub space_index : ℕ
  pub previous_space_index : ℕ
  pub spaces_seen : ℕ

-- The loop over the bytes, up to the third space.
unfoldable pub find_spaces : List ℕ → ℕ → Spaces → Spaces
find_spaces [] i s = s
find_spaces (b ∷ raw) i s =
    let s' =
      if b == b' '
      then record {
        space_index = i;
        previous_space_index = s.space_index;
        spaces_seen = s.spaces_seen + 1;
      }
      else s in
    let rest = find_spaces raw (suc i) s' in
    if (b == b' ') && (s'.spaces_seen == 3) then s' else rest

-- The digits of the data; `hexBytes` has room for sixteen.
unfoldable pub data_digits : List ℕ → List ℕ → Result Error (List ℕ)
data_digits [] digits = ok digits
data_digits (b ∷ raw) digits =
    let rest = data_digits raw (if b == b' ' then digits else digits ++ (b ∷ [])) in
    if b == b' '
    then rest
    else if (b == 13) || (b == 10)
    then ok digits
    else check (ltb (length digits) 16) >> rest

-- The bytes of a line's data, from the third space on; all of `hexBytes` is decoded.
unfoldable pub frame_of : ℕ → ℕ → List ℕ → RawFrame
frame_of can_id now bytes = record {
  time = now;
  header = parse_can_id can_id;
  length = u8 (length bytes);
  bytes = overwrite (replicate 8 0) bytes;
}

abbrev pub from_start : Spaces
from_start = record { space_index = 0; previous_space_index = 0; spaces_seen = 0 }

unfoldable pub parse_received : List ℕ → ℕ → Spaces → Result Error (Option RawFrame)
parse_received raw now s = do
  can_id ←
      decode_hex_to_int
        (take (s.space_index - (s.previous_space_index + 1))
          (drop (s.previous_space_index + 1) raw))
        4
  digits ← data_digits (drop s.space_index raw) []
  bytes ← hex_decode (digits ++ replicate (16 - length digits) 0)
  ok (some (frame_of can_id now bytes))

-- `parseRawASCII`; nothing is a line to skip. The second space is not the first byte of the line, so there
-- is a byte in front of it.
unfoldable pub parse_raw_ascii : List ℕ → ℕ → Result Error (Option RawFrame)
parse_raw_ascii raw now =
    let s = find_spaces raw 0 from_start in
    if not (s.spaces_seen == 3)
    then ok none
    else if not (get_or raw (s.previous_space_index - 1) 0 == b'R')
    then ok none
    else parse_received raw now s

-- `readBuffer` and `readIndex`
pub record LineReader : Type 0 where
  pub read_buffer : List ℕ
  pub read_index : ℕ

unfoldable pub new_line_reader : LineReader
new_line_reader = record { read_buffer = replicate 100 0; read_index = 0 }

unfoldable pub index_byte : List ℕ → ℕ → Option ℕ
index_byte [] c = none
index_byte (b ∷ bytes) c =
    let rest = index_byte bytes c in
    if b == c then some 0 else (elim rest [ none ↦ none | some i ↦ some (suc i) ])

-- What a read adds: the line it ends, if it ends one, and the reader after it.
unfoldable pub add_read : LineReader → List ℕ → Result Error (Option (List ℕ) × LineReader)
add_read r buf = elim (index_byte buf 10) [
  | none ↦
      check (leb r.read_index (length r.read_buffer))
      >> ok (
        none,
        record {
          read_buffer = overwrite_from r.read_index r.read_buffer buf;
          read_index = r.read_index + length buf;
        },
      )
  | some i ↦
      let end = i + 1 in
      let buffer = overwrite_from r.read_index r.read_buffer (take end buf) in
      check (leb (r.read_index + end) (length r.read_buffer))
      >> ok (
        some (take (r.read_index + end) buffer),
        record { read_buffer = overwrite buffer (drop end buf); read_index = length buf - end },
      )
]

-- A read and the time at which it returns.
pub record Read : Type 0 where
  pub buf : List ℕ
  pub now : ℕ

-- The frame or the error that a read ends with, if it does; the reader after it, and the reads left.
abbrev pub Frames : Type 0 → Type 0
Frames A = Result Error (Option (Result Error A) × LineReader × List Read)

-- A line to skip, a frame or an error.
unfoldable pub after_line :
    Result Error (Option RawFrame) → LineReader → List Read → Frames RawFrame → Frames RawFrame
after_line (ok none) r reads rest = rest
after_line (ok (some f)) r reads rest = ok (some (ok f), r, reads)
after_line (err e) r reads rest = ok (some (err e), r, reads)
after_line panic r reads rest = panic

-- The loop of `ReadRawFrame`, over the reads; one that gives nothing is passed over.
unfoldable pub read_raw_frame : LineReader → List Read → Frames RawFrame
read_raw_frame r [] = ok (none, r, [])
read_raw_frame r (x ∷ reads) = do
  (line, r') ← if length x.buf == 0 then ok (none, r) else add_read r x.buf
  let rest = read_raw_frame r' reads
  elim line [ none ↦ rest | some raw ↦ after_line (parse_raw_ascii raw x.now) r' reads rest ]

-- `ReadRawMessage` without an assembler: all eight bytes of the frame.
unfoldable pub message_of_frame : RawFrame → RawMessage
message_of_frame frame = record { time = frame.time; header = frame.header; bytes = frame.bytes }

unfoldable pub to_message : Option (Result Error RawFrame) → Option (Result Error RawMessage)
to_message none = none
to_message (some frame) = some (frame >>= λ f. ok (message_of_frame f))

unfoldable pub read_raw_message : LineReader → List Read → Frames RawMessage
read_raw_message r reads = do
  (frame, r', rest) ← read_raw_frame r reads
  ok (to_message frame, r', rest)

-- The upper-case digits of `strconv.FormatUint(n, 16)`: as many as there are up to sixteen.
unfoldable pub hex_digit : ℕ → ℕ
hex_digit v = if ltb v 10 then v + b'0' else v - 10 + b'A'

unfoldable pub hex_digits : ℕ → ℕ → List ℕ
hex_digits zero n = []
hex_digits (suc k) n = hex_digits k (n / 16) ++ (hex_digit (n % 16) ∷ [])

unfoldable pub without_zeros : List ℕ → List ℕ
without_zeros [] = []
without_zeros (d ∷ []) = d ∷ []
without_zeros (d ∷ e ∷ digits) =
    let rest = without_zeros (e ∷ digits) in if d == b'0' then rest else d ∷ e ∷ digits

unfoldable pub format_hex : ℕ → List ℕ
format_hex n = without_zeros (hex_digits 16 n)

-- `00:00:00.000 S 00000000`, and eight places for bytes.
abbrev pub line_template : List ℕ
line_template =
    b'0' ∷ b'0' ∷ b':' ∷ b'0' ∷ b'0' ∷ b':' ∷ b'0' ∷ b'0' ∷ b'.' ∷ b'0' ∷ b'0' ∷ b'0' ∷ b' ' ∷ b'S'
    ∷ b' ' ∷ b'0' ∷ b'0' ∷ b'0' ∷ b'0' ∷ b'0' ∷ b'0' ∷ b'0' ∷ b'0' ∷ b' ' ∷ 0 ∷ 0 ∷ b' ' ∷ 0 ∷ 0
    ∷ b' ' ∷ 0 ∷ 0 ∷ b' ' ∷ 0 ∷ 0 ∷ b' ' ∷ 0 ∷ 0 ∷ b' ' ∷ 0 ∷ 0 ∷ b' ' ∷ 0 ∷ 0 ∷ b' ' ∷ 0 ∷ 0 ∷ 13
    ∷ 10 ∷ []

-- The loop over the bytes of the frame, which has eight.
unfoldable pub write_bytes : ℕ → ℕ → List ℕ → ℕ → List ℕ → Result Error (List ℕ)
write_bytes zero i bytes idx f = ok f
write_bytes (suc rounds) i bytes idx f = do
  check (ltb i 8)
  let v = get_or bytes i 0
  write_bytes rounds (suc i) bytes (idx + 3)
      (set (set f idx (hex_digit (v / 16))) (idx + 1) (hex_digit (v % 16)))

unfoldable pub end_line : ℕ → ℕ → List ℕ → List ℕ
end_line len idx f = if ltb len 8 then set (set f (idx - 1) 13) idx 10 else f

unfoldable pub to_raw_ascii_bytes : RawFrame → Result Error (List ℕ)
to_raw_ascii_bytes frame = do
  let id = format_hex (uint32 frame.header)
  let idx = 24 + frame.length * 3
  f ← write_bytes frame.length 0 frame.bytes 24 (overwrite_from (23 - length id) line_template id)
  ok (take (idx + 1) (end_line frame.length idx f))

-- `WriteRawMessage`, up to the bytes that it hands to the device.
unfoldable pub write_raw_message : RawMessage → Result Error (List ℕ)
write_raw_message msg = do
  check (leb (length msg.bytes) 8)
  to_raw_ascii_bytes (record {
    time = msg.time;
    header = msg.header;
    length = length msg.bytes;
    bytes = overwrite (replicate 8 0) msg.bytes;
  })
