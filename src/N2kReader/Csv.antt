-- ===== src/N2kReader/Csv.antt =====
-- cmd/n2kreader/csv.go: the fields that are wanted in CSV files, parsed from the command line, and the rows
-- of values that messages give. Writing the files is left out; durations, checksums and the text of a
-- float belong to Go's library and are arguments.
pub mod Columns
pub mod Rows
use go_nmea_client.Common.{
  ℕ, zero, suc, ◌+◌, ◌-◌, List, [], ◌∷◌, ◌++◌, Option, none, some, Bool, true, false, Result, ok,
  err, panic, ◌>>=◌, ltb, ◌==◌, ◌&&◌, if◌then◌else◌, length, take, drop, map,
}
use go_nmea_client.RawData.Values.{Value, string, bytes, FieldValue, Floats, as_float64}
use go_nmea_client.Canboat.Decoder.Messages.{Message, Entry, entry, fieldsets}
use go_nmea_client.Text.{
  Bytes, NumError, ℤ, pos, negsuc, codes, text_eq, split, trim_space, parse_uint, format_uint,
}

pub record Field : Type 0 where
  pub name : Bytes
  pub truncate : ℤ

pub record CsvPgnFields : Type 0 where
  pub pgn : ℕ
  pub file_name : Bytes
  pub names : List Bytes
  pub fields : List Field

-- Go's library: `ParseDuration`, the checksum as hexadecimal text, the time cut to a multiple of a
-- duration, its readings since 1970, which are not negative, the arithmetic of floats and their text, of the finite ones.
pub record Library : Type 0 where
  pub parse_duration : Bytes → Option ℤ
  pub hash : Bytes → Bytes
  pub cut_time : ℕ → ℕ → ℕ
  pub unix : ℕ → ℕ
  pub unix_milli : ℕ → ℕ
  pub unix_nano : ℕ → ℕ
  pub floats : Floats
  pub float_text : ℕ → Option Bytes

-- The time of a row, cut where the field says so.
unfoldable pub truncated : Library → ℤ → ℕ → ℕ
truncated lib (pos zero) now = now
truncated lib (pos (suc n)) now = lib.cut_time (suc n) now
truncated lib (negsuc n) now = now

unfoldable pub find_entry : List Entry → Bytes → Option Entry
find_entry [] id = none
find_entry (entry f ∷ entries) id =
    let rest = find_entry entries id in if text_eq f.id id then some (entry f) else rest
find_entry (fieldsets name groups ∷ entries) id =
    let rest = find_entry entries id in
    if text_eq name id then some (fieldsets name groups) else rest

unfoldable pub text_or_empty : Option Bytes → Bytes
text_or_empty none = []
text_or_empty (some text) = text

unfoldable pub float_or_empty : Library → Option ℕ → Bytes
float_or_empty lib none = []
float_or_empty lib (some v) = text_or_empty (lib.float_text v)

unfoldable pub value_text : Library → Value → Bytes
value_text lib (string s) = s
value_text lib (bytes b) = b
value_text lib v = float_or_empty lib (as_float64 lib.floats v)

-- A field with groups of values has no text.
unfoldable pub entry_text : Library → Option Entry → Bytes
entry_text lib none = []
entry_text lib (some (entry f)) = value_text lib f.value
entry_text lib (some (fieldsets name groups)) = []

-- The value of one field: the `switch` over its name.
unfoldable pub field_text : Library → Message → ℕ → Field → Bytes
field_text lib msg now f =
    if text_eq f.name (codes "_node_name")
    then format_uint msg.node_name
    else if text_eq f.name (codes "_time")
    then format_uint (lib.unix (truncated lib f.truncate now))
    else if text_eq f.name (codes "_time_ms")
    then format_uint (lib.unix_milli (truncated lib f.truncate now))
    else if text_eq f.name (codes "_time_nano")
    then format_uint (lib.unix_nano (truncated lib f.truncate now))
    else if text_eq f.name (codes "_src")
    then format_uint msg.header.source
    else if text_eq f.name (codes "_dst")
    then format_uint msg.header.destination
    else if text_eq f.name (codes "_prio")
    then format_uint msg.header.priority
    else entry_text lib (find_entry msg.fields f.name)

unfoldable pub find_fields : List CsvPgnFields → ℕ → Option CsvPgnFields
find_fields [] pgn = none
find_fields (p ∷ wanted) pgn =
    let rest = find_fields wanted pgn in if p.pgn == pgn then some p else rest

unfoldable pub row_of : Library → Message → ℕ → CsvPgnFields → Option (List Bytes × CsvPgnFields)
row_of lib msg now found =
    let values = map (field_text lib msg now) found.fields in
    if ltb 1 (length values) then some (values, found) else none

-- `Match`
unfoldable pub match_csv :
    Library → List CsvPgnFields → Message → ℕ → Option (List Bytes × CsvPgnFields)
match_csv lib wanted msg now = elim (find_fields wanted msg.header.pgn) [
  | none ↦ none
  | some found ↦ row_of lib msg now found
]

pub data Error : Type 0 where
  bad_pgn : NumError → Error
  bad_time : Error

unfoldable pub starts_with : Bytes → Bytes → Bool
starts_with [] s = true
starts_with (c ∷ prefix) [] = false
starts_with (c ∷ prefix) (d ∷ s) = c == d && starts_with prefix s

-- `strings.IndexByte`
unfoldable pub first_index_byte : ℕ → Bytes → Option ℕ
first_index_byte c [] = none
first_index_byte c (d ∷ s) =
    let rest = first_index_byte c s in
    if d == c then some 0 else (elim rest [ none ↦ none | some i ↦ some (suc i) ])

-- `strings.LastIndexByte`
unfoldable pub last_index_byte : ℕ → Bytes → Option ℕ
last_index_byte c [] = none
last_index_byte c (d ∷ s) = elim (last_index_byte c s) [
  | some i ↦ some (suc i)
  | none ↦ if d == c then some 0 else none
]

-- `strings.Cut` at one byte.
unfoldable pub cut : ℕ → Bytes → Option (Bytes × Bytes)
cut c s = elim (first_index_byte c s) [ none ↦ none | some i ↦ some (take i s, drop (suc i) s) ]

unfoldable pub duration_in : Library → Bytes → ℕ → Option ℕ → Result Error ℤ
duration_in lib f start none = ok (pos 0)
duration_in lib f start (some end) =
    if ltb (start + 1) end
    then (elim (lib.parse_duration (take (end - (start + 1)) (drop (start + 1) f))) [
      | none ↦ err bad_time
      | some d ↦ ok d
    ])
    else ok (pos 0)

-- A time field up to its parenthesis. Without one, `f[0:start]` ends at index -1 and panics.
unfoldable pub time_field : Library → Bytes → Option ℕ → Result Error Field
time_field lib f none = panic
time_field lib f (some start) = duration_in lib f start (last_index_byte b')' f) >>= λ d.
    ok (record { name = take start f; truncate = d })

unfoldable pub field_of : Library → Bytes → Result Error Field
field_of lib f =
    if starts_with (codes "_time") f
    then time_field lib f (first_index_byte b'(' f)
    else ok (record { name = f; truncate = pos 0 })

unfoldable pub fields_of : Library → List Bytes → Result Error (List Field)
fields_of lib [] = ok []
fields_of lib (text ∷ texts) =
    let f = trim_space text in
    let rest = fields_of lib texts in
    elim f [ [] ↦ rest | c ∷ s ↦ field_of lib (c ∷ s) >>= λ one. rest >>= λ more. ok (one ∷ more) ]

unfoldable pub join_with : ℕ → List Bytes → Bytes
join_with c [] = []
join_with c (p ∷ []) = p
join_with c (p ∷ q ∷ parts) = p ++ (c ∷ join_with c (q ∷ parts))

unfoldable pub pgn_fields : Library → ℕ → List Field → CsvPgnFields
pgn_fields lib pgn fields =
    let names = map (λ (f : Field). f.name) fields in
    record {
      pgn = pgn;
      file_name = format_uint pgn ++ (b'_' ∷ (lib.hash (join_with b',' names) ++ codes ".csv"));
      names = names;
      fields = fields;
    }

unfoldable pub pgn_result : Result NumError ℕ → Result Error ℕ
pgn_result (ok n) = ok n
pgn_result (err e) = err (bad_pgn e)
pgn_result panic = panic

-- A part of the text, which may give nothing.
unfoldable pub part_of : Library → Bytes → Result Error (Option CsvPgnFields)
part_of lib p = elim (cut b':' p) [
  | none ↦ ok none
  | some (pgn_raw, fields_raw) ↦ pgn_result (parse_uint 32 (trim_space pgn_raw)) >>= λ pgn.
      fields_of lib (split b',' fields_raw) >>= λ fields. elim fields [
        | [] ↦ ok none
        | f ∷ more ↦ ok (some (pgn_fields lib pgn (f ∷ more)))
      ]
]

unfoldable pub parts_of : Library → List Bytes → Result Error (List CsvPgnFields)
parts_of lib [] = ok []
parts_of lib (p ∷ parts) =
    let rest = parts_of lib parts in
    part_of lib p >>= λ o. rest >>= λ more. ok (elim o [ none ↦ more | some c ↦ c ∷ more ])

-- `parseCSVFieldsRaw`; no parts is the nil slice.
unfoldable pub parse_csv_fields_raw : Library → Bytes → Result Error (List CsvPgnFields)
parse_csv_fields_raw lib raw = parts_of lib (split b';' (trim_space raw))
