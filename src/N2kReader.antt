-- ===== src/N2kReader.antt =====
-- cmd/n2kreader: the program that reads a device and prints its messages. Its flags, files and streams are
-- left out; the functions on their texts and the loop over the messages are modelled.
pub mod Filters
pub mod Lines
pub mod Stdin
pub mod Csv
pub mod Loop
mod Examples
use go_nmea_client.Common.{
  ℕ, ◌+◌, ◌*◌, List, [], ◌∷◌, ◌++◌, Bool, true, false, Result, ok, err, panic, ◌>>=◌, ◌>>◌, check,
  fail_if, ltb, leb, ◌==◌, ◌&&◌, ◌||◌, if◌then◌else◌, length, take, drop, get_or,
}
use go_nmea_client.Canbus.{CanBusHeader}
use go_nmea_client.Nmea.{RawMessage}
use go_nmea_client.Actisense.RawAscii as RawAscii
use go_nmea_client.Actisense.RawAscii.{hex_decode}
use go_nmea_client.Actisense.N2kAscii.{encode_bytes}
use go_nmea_client.Text.{
  Bytes, NumError, ℤ, pos, negsuc, split, concat, parse_uint, atoi, to_unsigned, format_uint,
}

pub data Error : Type 0 where
  invalid_input invalid_priority invalid_source invalid_destination : Error
  bad_number : NumError → Error
  bad_hex : RawAscii.Error → Error

unfoldable pub number : {A : Type 0} → Result NumError A → Result Error A
number (ok a) = ok a
number (err e) = err (bad_number e)
number panic = panic

unfoldable pub bytes_of : Result RawAscii.Error (List ℕ) → Result Error (List ℕ)
bytes_of (ok a) = ok a
bytes_of (err e) = err (bad_hex e)
bytes_of panic = panic

-- `n < min || n > max` with a smallest value of zero.
unfoldable pub is_outside : ℕ → ℤ → Bool
is_outside max (pos n) = ltb max n
is_outside max (negsuc n) = true

-- `parseUint8`; the result is cut to eight bits.
unfoldable pub parse_uint8 : Bytes → ℕ → Error → Result Error ℕ
parse_uint8 raw max invalid = do
  n ← number (atoi raw)
  fail_if (is_outside max n) invalid
  ok (to_unsigned 8 n)

-- `data[0:n]` reaches up to the capacity of the slice; what is behind its length is `spare`.
unfoldable pub first_bytes : List ℕ → List ℕ → ℤ → Result Error (List ℕ)
first_bytes data_bytes spare (negsuc n) = panic
first_bytes data_bytes spare (pos n) =
    check (leb n (length (data_bytes ++ spare))) >> ok (take n (data_bytes ++ spare))

-- The parts of a line of at least six.
unfoldable pub parse_parts : List ℕ → List Bytes → Result Error RawMessage
parse_parts spare parts = do
  priority ← parse_uint8 (get_or parts 0 []) 7 invalid_priority
  pgn ← number (atoi (get_or parts 1 []))
  source ← parse_uint8 (get_or parts 2 []) 256 invalid_source
  destination ← parse_uint8 (get_or parts 3 []) 256 invalid_destination
  data_len ← number (atoi (get_or parts 4 []))
  decoded ← bytes_of (hex_decode (concat (drop 5 parts)))
  bytes ← first_bytes decoded spare data_len
  ok (record {
    time = 0;
    header = record {
      pgn = to_unsigned 32 pgn;
      priority = priority;
      source = source;
      destination = destination;
    };
    bytes = bytes;
  })

-- `parseLine`. `spare` are the bytes behind the decoded ones in their array: those of the digits that have
-- not been overwritten, since `hex.DecodeString` decodes in place.
unfoldable pub parse_line : List ℕ → Bytes → Result Error RawMessage
parse_line spare line =
    let parts = split b',' line in
    fail_if (ltb (length parts) 6) invalid_input >> parse_parts spare parts

-- `marshalRawHexString`, of a time whose reading as nanoseconds since 1970 is not negative.
unfoldable pub marshal_raw_hex_string : (ℕ → ℕ) → RawMessage → ℕ → Bytes
marshal_raw_hex_string unix_nano raw name =
    format_uint (unix_nano raw.time)
    ++ (b','
        ∷ (format_uint name
            ++ (b','
                ∷ (format_uint raw.header.pgn
                    ++ (b','
                        ∷ (format_uint raw.header.priority
                            ++ (b','
                                ∷ (format_uint raw.header.source
                                    ++ (b','
                                        ∷ (format_uint raw.header.destination
                                            ++ (b','
                                                ∷ (format_uint (length raw.bytes)
                                                    ++ (b',' ∷ encode_bytes raw.bytes)))))))))))))

-- `string2intSlice` of an unsigned type of the width.
unfoldable pub numbers_of : ℕ → List Bytes → Result Error (List ℕ)
numbers_of bits [] = ok []
numbers_of bits (p ∷ parts) = do
  n ← number (atoi p)
  rest ← numbers_of bits parts
  ok (to_unsigned bits n ∷ rest)

unfoldable pub string2int_slice : ℕ → Bytes → Result Error (List ℕ)
string2int_slice bits s = numbers_of bits (split b',' s)

pub record MsgFilter : Type 0 where
  pub pgn : ℕ
  pub source : ℕ
  pub has_source : Bool

-- The source of a filter, behind the test for one.
unfoldable pub with_source : ℤ → List Bytes → Result Error MsgFilter
with_source pgn parts =
    if ltb 1 (length parts)
    then (number (parse_uint 8 (get_or parts 1 [])) >>= λ source.
        ok (record { pgn = to_unsigned 32 pgn; source = source; has_source = true }))
    else ok (record { pgn = to_unsigned 32 pgn; source = 0; has_source = false })

unfoldable pub filters_of : List Bytes → Result Error (List MsgFilter)
filters_of [] = ok []
filters_of (p ∷ texts) = do
  let parts = split b':' p
  pgn ← number (atoi (get_or parts 0 []))
  f ← with_source pgn parts
  rest ← filters_of texts
  ok (f ∷ rest)

-- `parseMsgFilters`
unfoldable pub parse_msg_filters : Bytes → Result Error (List MsgFilter)
parse_msg_filters s = filters_of (split b',' s)

unfoldable pub has_source_for : ℕ → List MsgFilter → Bool
has_source_for pgn [] = false
has_source_for pgn (f ∷ filters) =
    let rest = has_source_for pgn filters in if f.pgn == pgn && f.has_source then true else rest

-- `appendPGN`
unfoldable pub append_pgn : List MsgFilter → ℕ → List MsgFilter
append_pgn filters pgn =
    if has_source_for pgn filters
    then filters
    else filters ++ (record { pgn = pgn; source = 0; has_source = false } ∷ [])

-- The loop of `matches`.
unfoldable pub any_matches : List MsgFilter → CanBusHeader → Bool
any_matches [] header = false
any_matches (f ∷ filters) header =
    let rest = any_matches filters header in
    if f.pgn == header.pgn
    then (if f.has_source then (if f.source == header.source then true else rest) else true)
    else rest

-- `matches`; no filter means everything.
unfoldable pub matches_header : List MsgFilter → CanBusHeader → Bool
matches_header [] header = true
matches_header (f ∷ filters) header = any_matches (f ∷ filters) header

-- `Less` of `mfSorter`
unfoldable pub mf_less : MsgFilter → MsgFilter → Bool
mf_less f g = if f.pgn == g.pgn then ltb g.source f.source else ltb g.pgn f.pgn
