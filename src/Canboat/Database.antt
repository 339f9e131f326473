-- ===== src/Canboat/Database.antt =====
-- canboat/canboatpgns.go: the definitions of PGNs, their validation and the choice among variants.
-- The fields of the records that no modelled code reads are left out, and so is JSON. A `Match` is the
-- number that `uint64(f.Match)` is.
use go_nmea_client.Common.{
  ℕ, List, [], ◌∷◌, Option, none, some, Bool, true, false, Result, ok, err, panic, ◌>>=◌, ◌==◌,
  ◌||◌, not, if◌then◌else◌,
}
use go_nmea_client.RawData.{Error, decode_variable_uint}
use go_nmea_client.Canboat.{same}

pub data FieldType : Type 0 where
  number float decimal lookup indirect_lookup bit_lookup time date : FieldType
  string_fix string_lz string_lau binary reserved spare mmsi variable : FieldType

pub data PacketType : Type 0 where
  iso fast single : PacketType

-- `offset` is the number that `uint64(f.Offset)` is, and `resolution` the bits of the float.
pub record Field : Type 0 where
  pub id : List ℕ
  pub order : ℕ
  pub match_value : ℕ
  pub bit_length : ℕ
  pub bit_offset : ℕ
  pub bit_length_variable : Bool
  pub signed : Bool
  pub offset : ℕ
  pub resolution : ℕ
  pub field_type : FieldType
  pub lookup_enumeration : List ℕ
  pub lookup_bit_enumeration : List ℕ
  pub lookup_indirect_enumeration : List ℕ
  pub lookup_indirect_enumeration_field_order : ℕ

-- The sizes and positions of the repeating fields are not negative.
pub record Pgn : Type 0 where
  pub pgn : ℕ
  pub packet_type : PacketType
  pub repeating_field_set1_size : ℕ
  pub repeating_field_set1_start_field : ℕ
  pub repeating_field_set1_count_field : ℕ
  pub repeating_field_set2_size : ℕ
  pub repeating_field_set2_start_field : ℕ
  pub repeating_field_set2_count_field : ℕ
  pub fields : List Field
  pub is_matchable : Bool

-- The errors of `Field.Validate`.
pub data Invalid : Type 0 where
  not_variable has_length wrong_bit_length no_enumeration : Invalid

unfoldable pub validate_type : FieldType → Field → Option Invalid
validate_type string_lau f =
    if not f.bit_length_variable
    then some not_variable
    else if not (f.bit_length == 0) || not (f.bit_offset == 0)
    then some has_length
    else none
validate_type mmsi f = if not (f.bit_length == 32) then some wrong_bit_length else none
validate_type date f = if not (f.bit_length == 16) then some wrong_bit_length else none
validate_type lookup f = if same f.lookup_enumeration [] then some no_enumeration else none
validate_type indirect_lookup f =
    if same f.lookup_indirect_enumeration [] then some no_enumeration else none
validate_type bit_lookup f = if same f.lookup_bit_enumeration [] then some no_enumeration else none
validate_type _ f = none

unfoldable pub validate : Field → Option Invalid
validate f = validate_type f.field_type f

-- An error is no match.
unfoldable pub matches_value : ℕ → Result Error ℕ → Result Error Bool
matches_value n (ok value) = ok (n == value)
matches_value n (err e) = ok false
matches_value n panic = panic

unfoldable pub field_is_match : List ℕ → Field → Result Error Bool
field_is_match raw f =
    matches_value f.match_value (decode_variable_uint raw f.bit_offset f.bit_length)

-- The loop over the fields, up to the first that does not match.
unfoldable pub fields_match : List ℕ → List Field → Result Error Bool
fields_match raw [] = ok true
fields_match raw (f ∷ fields) =
    let rest = fields_match raw fields in
    if f.match_value == 0
    then rest
    else (field_is_match raw f >>= λ yes. if yes then rest else ok false)

unfoldable pub pgn_is_match : List ℕ → Pgn → Result Error Bool
pgn_is_match raw p = if not p.is_matchable then ok false else fields_match raw p.fields

unfoldable pub match : List Pgn → List ℕ → Result Error (Option Pgn)
match [] raw = ok none
match (p ∷ pgns) raw =
    let rest = match pgns raw in
    if not p.is_matchable
    then rest
    else (pgn_is_match raw p >>= λ yes. if yes then ok (some p) else rest)

unfoldable pub filter_by_pgn : List Pgn → ℕ → List Pgn
filter_by_pgn [] pgn = []
filter_by_pgn (p ∷ pgns) pgn =
    let rest = filter_by_pgn pgns pgn in if p.pgn == pgn then p ∷ rest else rest

unfoldable pub is_fast : PacketType → Bool
is_fast iso = false
is_fast fast = true
is_fast single = false

unfoldable pub fast_packet_pgns : List Pgn → List ℕ
fast_packet_pgns [] = []
fast_packet_pgns (p ∷ pgns) =
    let rest = fast_packet_pgns pgns in if is_fast p.packet_type then p.pgn ∷ rest else rest

-- What `PGN.UnmarshalJSON` sets `IsMatchable` to.
unfoldable pub has_match : List Field → Bool
has_match [] = false
has_match (f ∷ fields) = let rest = has_match fields in if f.match_value == 0 then rest else true
