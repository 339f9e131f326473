-- ===== src/Canboat/Validation.antt =====
-- canboat/canboatpgns.go: `PGNs.Validate`.
use go_nmea_client.Common.{
  ℕ, suc, ◌+◌, ◌≡◌, refl, List, [], ◌∷◌, ◌++◌, Option, none, some, Bool, true, false, ltb, leb,
  ◌==◌, ◌&&◌, ◌||◌, not, if◌then◌else◌, All,
}
use go_nmea_client.Canboat.{same}
use go_nmea_client.Canboat.Database.{Field, FieldType, number, Pgn, Invalid, validate}

-- The errors of `PGNs.Validate`, in the order of the source.
pub data InvalidPgn : Type 0 where
  duplicate_field count_field1_no_number count_field2_no_number : ℕ → List ℕ → InvalidPgn
  start_before_count1 start_before_count2 : ℕ → InvalidPgn
  invalid_field : Invalid → InvalidPgn

unfoldable pub is_number : FieldType → Bool
is_number number = true
is_number _ = false

-- `_, ok := fields[f.ID]`
unfoldable pub has_id : List (List ℕ) → List ℕ → Bool
has_id [] id = false
has_id (x ∷ ids) id = let rest = has_id ids id in same x id || rest

unfoldable pub check_count_field : Pgn → ℕ → Field → List InvalidPgn
check_count_field pgn i f =
    if (pgn.repeating_field_set1_count_field == (i + 1)) && not (is_number f.field_type)
    then count_field1_no_number pgn.pgn f.id ∷ []
    else if (pgn.repeating_field_set2_count_field == (i + 1)) && not (is_number f.field_type)
    then count_field2_no_number pgn.pgn f.id ∷ []
    else []

-- The loop over the fields. `ids` is the map `fields`, into which the source puts nothing.
unfoldable pub check_fields : Pgn → List (List ℕ) → ℕ → List Field → List InvalidPgn
check_fields pgn ids i [] = []
check_fields pgn ids i (f ∷ fields) =
    let rest = check_fields pgn ids (suc i) fields in
    (if has_id ids f.id then duplicate_field pgn.pgn f.id ∷ [] else [])
    ++ (check_count_field pgn i f ++ rest)

unfoldable pub check_starts : Pgn → List InvalidPgn
check_starts pgn =
    if ltb 0 pgn.repeating_field_set1_start_field
      && leb pgn.repeating_field_set1_start_field pgn.repeating_field_set1_count_field
    then start_before_count1 pgn.pgn ∷ []
    else if ltb 0 pgn.repeating_field_set2_start_field
        && leb pgn.repeating_field_set2_start_field pgn.repeating_field_set2_count_field
    then start_before_count2 pgn.pgn ∷ []
    else []

unfoldable pub invalid_of : Option Invalid → List InvalidPgn
invalid_of none = []
invalid_of (some e) = invalid_field e ∷ []

unfoldable pub validate_fields : List Field → List InvalidPgn
validate_fields [] = []
validate_fields (f ∷ fields) = invalid_of (validate f) ++ validate_fields fields

unfoldable pub validate_pgns : List Pgn → List InvalidPgn
validate_pgns [] = []
validate_pgns (pgn ∷ pgns) =
    check_fields pgn [] 0 pgn.fields
    ++ (check_starts pgn ++ (validate_fields pgn.fields ++ validate_pgns pgns))

unfoldable pub is_duplicate : InvalidPgn → Bool
is_duplicate (duplicate_field pgn id) = true
is_duplicate _ = false

abbrev pub NoDuplicate : List InvalidPgn → Type 0
NoDuplicate errors = All (λ e. is_duplicate e ≡ false) errors

append-NoDuplicate :
    (xs ys : List InvalidPgn) → NoDuplicate xs → NoDuplicate ys → NoDuplicate (xs ++ ys)
append-NoDuplicate [] ys h k = k
append-NoDuplicate (x ∷ xs) ys h k = (h.0, append-NoDuplicate xs ys h.1 k)

-- Two tests, one after the other, of which none reports a duplicate.
one_of-NoDuplicate :
    (first second : Bool) (x y : InvalidPgn)
    → is_duplicate x ≡ false
    → is_duplicate y ≡ false
    → NoDuplicate (if first then x ∷ [] else if second then y ∷ [] else [])
one_of-NoDuplicate true second x y h k = (h, tt)
one_of-NoDuplicate false true x y h k = (k, tt)
one_of-NoDuplicate false false x y h k = tt

check_count_field-NoDuplicate :
    (pgn : Pgn) (i : ℕ) (f : Field) → NoDuplicate (check_count_field pgn i f)
unfolding check_count_field is_duplicate
check_count_field-NoDuplicate pgn i f =
    one_of-NoDuplicate
      ((pgn.repeating_field_set1_count_field == (i + 1)) && not (is_number f.field_type))
      ((pgn.repeating_field_set2_count_field == (i + 1)) && not (is_number f.field_type))
      (count_field1_no_number pgn.pgn f.id) (count_field2_no_number pgn.pgn f.id) refl refl

check_fields-NoDuplicate :
    (pgn : Pgn) (i : ℕ) (fields : List Field) → NoDuplicate (check_fields pgn [] i fields)
unfolding check_fields has_id
check_fields-NoDuplicate pgn i [] = tt
check_fields-NoDuplicate pgn i (f ∷ fields) =
    append-NoDuplicate (check_count_field pgn i f) _ (check_count_field-NoDuplicate pgn i f)
      (check_fields-NoDuplicate pgn (suc i) fields)

check_starts-NoDuplicate : (pgn : Pgn) → NoDuplicate (check_starts pgn)
unfolding check_starts is_duplicate
check_starts-NoDuplicate pgn =
    one_of-NoDuplicate
      (ltb 0 pgn.repeating_field_set1_start_field
        && leb pgn.repeating_field_set1_start_field pgn.repeating_field_set1_count_field)
      (ltb 0 pgn.repeating_field_set2_start_field
        && leb pgn.repeating_field_set2_start_field pgn.repeating_field_set2_count_field)
      (start_before_count1 pgn.pgn) (start_before_count2 pgn.pgn) refl refl

invalid_of-NoDuplicate : (e : Option Invalid) → NoDuplicate (invalid_of e)
unfolding invalid_of is_duplicate
invalid_of-NoDuplicate none = tt
invalid_of-NoDuplicate (some e) = (refl, tt)

validate_fields-NoDuplicate : (fields : List Field) → NoDuplicate (validate_fields fields)
unfolding validate_fields
validate_fields-NoDuplicate [] = tt
validate_fields-NoDuplicate (f ∷ fields) =
    append-NoDuplicate (invalid_of (validate f)) _ (invalid_of-NoDuplicate (validate f))
      (validate_fields-NoDuplicate fields)

-- `Validate` never reports a field ID that is twice in a PGN, whatever the definitions.
pub validate_pgns-NoDuplicate : (pgns : List Pgn) → NoDuplicate (validate_pgns pgns)
unfolding validate_pgns
validate_pgns-NoDuplicate [] = tt
validate_pgns-NoDuplicate (pgn ∷ pgns) =
    append-NoDuplicate (check_fields pgn [] 0 pgn.fields) _
      (check_fields-NoDuplicate pgn 0 pgn.fields)
      (append-NoDuplicate (check_starts pgn) _ (check_starts-NoDuplicate pgn) (
        append-NoDuplicate (validate_fields pgn.fields) _ (validate_fields-NoDuplicate pgn.fields)
          (validate_pgns-NoDuplicate pgns)))
