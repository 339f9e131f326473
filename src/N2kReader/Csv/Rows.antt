-- ===== src/N2kReader/Csv/Rows.antt =====
-- cmd/n2kreader/csv.go: the rows of a file fit its head.
use go_nmea_client.Common.{
  ℕ, ◌≤◌, ◌≡◌, refl, ap, sym, ◌∙◌, List, [], ◌∷◌, Option, none, some, true, false, arith, Result,
  ok, ◌>>=◌, >>=-eq-ok, ltb, ltb→lt, ◌==◌, ==→eq, Bool-cases, inl, inr, length, map, All,
}
use mathlib.Core.Path.{subst}
use go_nmea_client.Canboat.Decoder.Messages.{Message}
use go_nmea_client.Text.{Bytes, split, trim_space, parse_uint}
use go_nmea_client.N2kReader.Csv.Columns.{IsTable, map-IsTable}
use go_nmea_client.N2kReader.Csv.{
  Library, Field, CsvPgnFields, Error, field_text, find_fields, row_of, match_csv, pgn_fields,
  fields_of, part_of, pgn_result, cut, parts_of, parse_csv_fields_raw,
}

-- A file whose head has the names of its fields, in their order.
abbrev pub IsAligned : CsvPgnFields → Type 0
IsAligned c = c.names ≡ map (λ (f : Field). f.name) c.fields

pgn_fields-IsAligned :
    (lib : Library) (pgn : ℕ) (fields : List Field) → IsAligned (pgn_fields lib pgn fields)
unfolding pgn_fields
pgn_fields-IsAligned lib pgn fields = refl

abbrev IsPart : Option CsvPgnFields → Type 0
IsPart none = Unit {0}
IsPart (some c) = IsAligned c

ok_eq : {A : Type 0} {x y : A} → ◌≡◌ {A = Result Error A} (ok x) (ok y) → x ≡ y
ok_eq h = cc

part_of-IsPart :
    (lib : Library) (p : Bytes) (o : Option CsvPgnFields) → part_of lib p ≡ ok o → IsPart o
unfolding part_of
part_of-IsPart lib p o = go (cut b':' p)
  where
    some_fields :
        (pgn : ℕ) (fields : List Field)
        → ◌≡◌ {A = Result Error (Option CsvPgnFields)}
            (elim fields [ [] ↦ ok none | f ∷ more ↦ ok (some (pgn_fields lib pgn (f ∷ more))) ])
            (ok o)
        → IsPart o
    some_fields pgn [] e = subst IsPart (ok_eq e) tt
    some_fields pgn (f ∷ more) e = subst IsPart (ok_eq e) (pgn_fields-IsAligned lib pgn (f ∷ more))

    go :
        (c : Option (Bytes × Bytes))
        → ◌≡◌ {A = Result Error (Option CsvPgnFields)}
            (elim c [
              | none ↦ ok none
              | some (pgn_raw, fields_raw) ↦
                  pgn_result (parse_uint 32 (trim_space pgn_raw)) >>= λ pgn.
                  fields_of lib (split b',' fields_raw) >>= λ fields. elim fields [
                    | [] ↦ ok none
                    | f ∷ more ↦ ok (some (pgn_fields lib pgn (f ∷ more)))
                  ]
            ])
            (ok o)
        → IsPart o
    go none e = subst IsPart (ok_eq e) tt
    go (some (pgn_raw, fields_raw)) e =
        let (pgn, _, e1) = >>=-eq-ok (pgn_result (parse_uint 32 (trim_space pgn_raw))) _ e in
        let (fields, _, e2) = >>=-eq-ok (fields_of lib (split b',' fields_raw)) _ e1 in
        some_fields pgn fields e2

parts_of-IsAligned :
    (lib : Library) (parts : List Bytes) (wanted : List CsvPgnFields)
    → parts_of lib parts ≡ ok wanted
    → All IsAligned wanted
unfolding parts_of
parts_of-IsAligned lib [] wanted e = subst (All IsAligned) (ok_eq e) tt
parts_of-IsAligned lib (p ∷ parts) wanted e =
    let (o, e0, r0) = >>=-eq-ok (part_of lib p) _ e in
    let (more, e1, r1) = >>=-eq-ok (parts_of lib parts) _ r0 in
    subst (All IsAligned) (ok_eq r1)
      (joined o (part_of-IsPart lib p o e0) more (parts_of-IsAligned lib parts more e1))
  where
    joined :
        (o : Option CsvPgnFields)
        → IsPart o
        → (more : List CsvPgnFields) → All IsAligned more
        → All IsAligned (elim o [ none ↦ more | some c ↦ c ∷ more ])
    joined none h more hs = hs
    joined (some c) h more hs = (h, hs)

find_here :
    (c : CsvPgnFields) (wanted : List CsvPgnFields) (pgn : ℕ)
    → (c.pgn == pgn) ≡ true
    → find_fields (c ∷ wanted) pgn ≡ some c
unfolding find_fields
find_here c wanted pgn h = rw h refl

find_behind :
    (c : CsvPgnFields) (wanted : List CsvPgnFields) (pgn : ℕ)
    → (c.pgn == pgn) ≡ false
    → find_fields (c ∷ wanted) pgn ≡ find_fields wanted pgn
unfolding find_fields
find_behind c wanted pgn h = rw h refl

find_none : (pgn : ℕ) → find_fields [] pgn ≡ none
unfolding find_fields
find_none pgn = refl

some_eq : {A : Type 0} {x y : A} → ◌≡◌ {A = Option A} (some x) (some y) → x ≡ y
some_eq h = cc

find_fields-IsAligned :
    (wanted : List CsvPgnFields) (pgn : ℕ) (found : CsvPgnFields)
    → All IsAligned wanted
    → find_fields wanted pgn ≡ some found
    → IsAligned found × (found.pgn ≡ pgn)
find_fields-IsAligned [] pgn found h e = absurd (cc (find_none pgn, e))
find_fields-IsAligned (p ∷ wanted) pgn found h e = elim (Bool-cases (p.pgn == pgn)) [
  | inl y ↦
      subst (λ (c : CsvPgnFields). IsAligned c × (c.pgn ≡ pgn))
        (some_eq (sym (find_here p wanted pgn y) ∙ e)) (h.0, ==→eq p.pgn pgn y)
  | inr n ↦ find_fields-IsAligned wanted pgn found h.1 (sym (find_behind p wanted pgn n) ∙ e)
]

-- A row with its file: under each name of the head stands what that column shows.
pub record IsRow (lib : Library) (msg : Message) (now : ℕ) (values : List Bytes)
    (found : CsvPgnFields) : Type 0 where
  pub columns : IsTable lib msg now found.names found.fields values
  pub several : 2 ≤ length values

row_of-IsRow :
    (lib : Library) (msg : Message) (now : ℕ) (found : CsvPgnFields) (values : List Bytes)
    (c : CsvPgnFields)
    → IsAligned found
    → row_of lib msg now found ≡ some (values, c)
    → (found ≡ c) × IsRow lib msg now values c
unfolding row_of
row_of-IsRow lib msg now found values c names e =
    elim (Bool-cases (ltb 1 (length (map (field_text lib msg now) found.fields)))) [
      | inr n ↦ absurd (cc (small n, e))
      | inl y ↦
          let pair = some_eq (sym (large y) ∙ e) in
          let first : map (field_text lib msg now) found.fields ≡ values =
            ap (λ (r : List Bytes × CsvPgnFields). r.0) pair in
          let second : found ≡ c = ap (λ (r : List Bytes × CsvPgnFields). r.1) pair in
          (
            second,
            record {
              columns =
                  subst (λ (d : CsvPgnFields). IsTable lib msg now d.names d.fields values) second
                    (subst (IsTable lib msg now found.names found.fields) first (
                      subst
                        (λ (head : List Bytes).
                          IsTable lib msg now head found.fields
                            (map (field_text lib msg now) found.fields))
                        (sym names) (map-IsTable lib msg now found.fields)));
              several = omega (arith, ltb→lt _ _ y, ap length first);
            },
          )
    ]
  where
    small :
        ltb 1 (length (map (field_text lib msg now) found.fields)) ≡ false
        → row_of lib msg now found ≡ none
    small n = rw n refl

    large :
        ltb 1 (length (map (field_text lib msg now) found.fields)) ≡ true
        → row_of lib msg now found ≡ some (map (field_text lib msg now) found.fields, found)
    large y = rw y refl

match_csv-row_of :
    (lib : Library) (wanted : List CsvPgnFields) (msg : Message) (now : ℕ)
    (r : List Bytes × CsvPgnFields)
    → match_csv lib wanted msg now ≡ some r
    → (c : CsvPgnFields) × (find_fields wanted msg.header.pgn ≡ some c)
      × (row_of lib msg now c ≡ some r)
unfolding match_csv
match_csv-row_of lib wanted msg now r = go (find_fields wanted msg.header.pgn) refl
  where
    go :
        (o : Option CsvPgnFields)
        → find_fields wanted msg.header.pgn ≡ o
        → (elim o [ none ↦ none | some found ↦ row_of lib msg now found ]) ≡ some r
        → (c : CsvPgnFields) × (find_fields wanted msg.header.pgn ≡ some c)
          × (row_of lib msg now c ≡ some r)
    go none h e = absurd (cc)
    go (some c) h e = (c, h, e)

-- A row that a message gives belongs to a file of its PGN and has at least two values. With the files
-- that the command line asks for, there is one for each name in the head of the file, in the order of the
-- names, and each value is what its own column shows: a part of the header or the time of the message, the
-- value of the first field of the message with that name, or nothing.
pub match_csv-IsRow :
    (lib : Library) (raw : Bytes) (wanted : List CsvPgnFields) (msg : Message) (now : ℕ)
    (values : List Bytes) (found : CsvPgnFields)
    → parse_csv_fields_raw lib raw ≡ ok wanted
    → match_csv lib wanted msg now ≡ some (values, found)
    → (found.pgn ≡ msg.header.pgn) × IsRow lib msg now values found
unfolding parse_csv_fields_raw
match_csv-IsRow lib raw wanted msg now values found parsed e =
    let aligned = parts_of-IsAligned lib (split b';' (trim_space raw)) wanted parsed in
    let (c, hit, row) = match_csv-row_of lib wanted msg now (values, found) e in
    let (names, pgn) = find_fields-IsAligned wanted msg.header.pgn c aligned hit in
    let (same, is_row) = row_of-IsRow lib msg now c values found names row in
    (ap (λ (d : CsvPgnFields). d.pgn) (sym same) ∙ pgn, is_row)
