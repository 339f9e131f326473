-- ===== src/Actisense/N2kAscii.antt =====
-- actisense/n2kasciidevice.go: the lines of the N2K ASCII format, parsed and written.
-- A line is the first bytes of the read buffer, and a slice of it may reach to the end of the buffer.
pub mod Blocks
pub mod Headers
pub mod Reader
mod Examples
use go_nmea_client.Common.{
  ℕ, zero, suc, ◌+◌, ◌-◌, ◌/◌, ◌%◌, List, [], ◌∷◌, ◌++◌, Option, none, some, Bool, true, false,
  Result, ok, err, panic, ◌>>=◌, ◌>>◌, check, fail_if, ltb, leb, ◌==◌, ◌&&◌, ◌||◌, not,
  if◌then◌else◌, u8, length, take, drop, get_or, replicate,
}
use go_nmea_client.Nmea.{RawMessage}
use go_nmea_client.Actisense.RawAscii as RawAscii
use go_nmea_client.Actisense.RawAscii.{decode_hex_to_int, hex_decode, without_zeros}

pub data Error : Type 0 where
  no_time no_header no_pgn no_data : Error
  not_hex : RawAscii.Error → Error

unfoldable pub is_hex_char : ℕ → Bool
is_hex_char c =
    (leb b'0' c && leb c b'9') || (leb b'a' c && leb c b'f') || (leb b'A' c && leb c b'F')

-- The loop of `findNextNonHexBlock` from an index on; `block` has the first and the last index found.
unfoldable pub block_from : List ℕ → ℕ → Option (ℕ × ℕ) → Option (ℕ × ℕ)
block_from [] i block = block
block_from (b ∷ raw) i none =
    let rest = block_from raw (suc i) (if is_hex_char b then some (i, i) else none) in rest
block_from (b ∷ raw) i (some (start, end)) =
    let rest = block_from raw (suc i) (some (start, i)) in
    if is_hex_char b then rest else some (start, end)

unfoldable pub find_next_non_hex_block : List ℕ → ℕ → Option (ℕ × ℕ)
find_next_non_hex_block raw from = block_from (drop from raw) from none

-- The loop over the time, from an index on: the last index of a digit or a point.
unfoldable pub time_end : List ℕ → ℕ → ℕ → ℕ
time_end [] i end = end
time_end (b ∷ raw) i end =
    let rest = time_end raw (suc i) i in
    if (leb b'0' b && leb b b'9') || (b == b'.') then rest else end

unfoldable pub hex_result {ℓ} : {A : Type ℓ} → Result RawAscii.Error A → Result Error A
hex_result (ok a) = ok a
hex_result (err e) = err (not_hex e)
hex_result panic = panic

unfoldable pub block_or : Error → Option (ℕ × ℕ) → Result Error (ℕ × ℕ)
block_or e none = err e
block_or e (some block) = ok block

-- `raw[from:to]`, up to the capacity of the buffer.
unfoldable pub slice : List ℕ → ℕ → ℕ → Result Error (List ℕ)
slice buffer from to =
    check (leb from to && leb to (length buffer)) >> ok (take (to - from) (drop from buffer))

-- The line behind the test of its start and its length.
unfoldable pub parse_line : List ℕ → List ℕ → ℕ → Result Error RawMessage
parse_line buffer raw now = do
  let time_part_end = time_end (drop 1 raw) 1 0
  fail_if (time_part_end == 0) no_time
  (header_start, header_end) ← block_or no_header (find_next_non_hex_block raw (time_part_end + 1))
  source_text ← slice buffer header_start (header_start + 2)
  source ← hex_result (decode_hex_to_int source_text 1)
  destination_text ← slice buffer (header_start + 2) (header_start + 4)
  destination ← hex_result (decode_hex_to_int destination_text 1)
  check (ltb (header_start + 4) (length raw))
  (pgn_start, pgn_end) ← block_or no_pgn (find_next_non_hex_block raw (header_end + 1))
  pgn_text ← slice buffer pgn_start (pgn_end + 1)
  pgn ← hex_result (decode_hex_to_int pgn_text 4)
  (data_start, data_end) ← block_or no_data (find_next_non_hex_block raw (pgn_end + 1))
  data_text ← slice buffer data_start (data_end + 1)
  bytes ← hex_result (hex_decode data_text)
  ok (record {
    time = now;
    header = record {
      pgn = pgn;
      priority = u8 (get_or raw (header_start + 4) 0 + 256 - b'0');
      source = source;
      destination = destination;
    };
    bytes = bytes;
  })

unfoldable pub started : Result Error RawMessage → Result Error (Option RawMessage)
started r = r >>= λ msg. ok (some msg)

-- `parseN2KAscii` of the first `len` bytes of the buffer; nothing is a line to skip.
unfoldable pub parse_n2k_ascii : List ℕ → ℕ → ℕ → Result Error (Option RawMessage)
parse_n2k_ascii buffer len now =
    let raw = take len buffer in
    check (ltb 0 (length raw))
    >> (if not (get_or raw 0 0 == b'A')
        then ok none
        else if ltb (length raw) 22
        then ok none
        else started (parse_line buffer raw now))

-- The lower-case digits of `strconv.FormatUint(n, 16)`.
unfoldable pub lower_digit : ℕ → ℕ
lower_digit v = if ltb v 10 then v + b'0' else v - 10 + b'a'

unfoldable pub lower_digits : ℕ → ℕ → List ℕ
lower_digits zero n = []
lower_digits (suc k) n = lower_digits k (n / 16) ++ (lower_digit (n % 16) ∷ [])

unfoldable pub format_lower : ℕ → List ℕ
format_lower n = without_zeros (lower_digits 16 n)

-- `strconv.FormatUint(n, 10)` of a byte.
unfoldable pub format_decimal : ℕ → List ℕ
format_decimal n = without_zeros ((n / 100 + b'0') ∷ (n / 10 % 10 + b'0') ∷ (n % 10 + b'0') ∷ [])

-- `%05x`
unfoldable pub padded_pgn : List ℕ → List ℕ
padded_pgn digits = replicate (5 - length digits) b'0' ++ digits

-- `hex.NewEncoder`
unfoldable pub encode_bytes : List ℕ → List ℕ
encode_bytes [] = []
encode_bytes (b ∷ bytes) = lower_digit (b / 16) ∷ lower_digit (b % 16) ∷ encode_bytes bytes

unfoldable pub format_n2k_address : ℕ → ℕ → List ℕ
format_n2k_address source destination = format_lower source ++ format_lower destination

-- `formatN2KASCII`. The text of the time is made by Go's library, an argument.
unfoldable pub format_n2k_ascii : (ℕ → List ℕ) → RawMessage → List ℕ
format_n2k_ascii stamp msg =
    stamp msg.time
    ++ (format_n2k_address msg.header.source msg.header.destination
        ++ (format_decimal msg.header.priority
            ++ (b' '
                ∷ (padded_pgn (format_lower msg.header.pgn)
                    ++ (b' ' ∷ (encode_bytes msg.bytes ++ (13 ∷ [])))))))
