-- ===== src/N2kReader/Csv/Columns.antt =====
-- cmd/n2kreader/csv.go: what stands in a row under a name, said apart from the code.
use go_nmea_client.Common.{
  ℕ, zero, suc, ◌≡◌, ◌≢◌, refl, ap, sym, ◌∙◌, List, [], ◌∷◌, Option, none, some, true, false, ==→eq,
  ==-refl, Bool-cases, Option-cases, inl, inr, arith, All, map,
}
use go_nmea_client.RawData.Values.{
  EnumValue, Value, string, bytes, float64, int64, uint64, duration, date_time, enum, enums,
  FieldValue, as_float64,
}
use go_nmea_client.Canboat.Decoder.Messages.{Message, Entry, entry, fieldsets}
use go_nmea_client.Text.{Bytes, ℤ, pos, negsuc, codes, text_eq, format_uint}
use go_nmea_client.N2kReader.Csv.{
  Library, Field, truncated, find_entry, text_or_empty, float_or_empty, value_text, entry_text,
  field_text,
}

text_eq→eq : (s t : Bytes) → text_eq s t ≡ true → s ≡ t
unfolding text_eq
text_eq→eq [] [] h = refl
text_eq→eq [] (d ∷ t) h = absurd (cc h)
text_eq→eq (c ∷ s) [] h = absurd (cc h)
text_eq→eq (c ∷ s) (d ∷ t) h =
    (λ i. ==→eq c d (ground (arith, h)) i ∷ text_eq→eq s t (ground (arith, h)) i)

text_eq_refl : (s : Bytes) → text_eq s s ≡ true
unfolding text_eq
text_eq_refl [] = refl
text_eq_refl (c ∷ s) = rw (==-refl c, text_eq_refl s) refl

text_eq→ne : (s t : Bytes) → text_eq s t ≡ false → s ≢ t
text_eq→ne s t h e = absurd (cc (h, sym (ap (text_eq s) e) ∙ text_eq_refl s))

-- The time that a field shows of a moment: cut to the multiple of a duration only where that is positive.
pub data IsTime (lib : Library) (now : ℕ) : ℤ → ℕ → Type 0 where
  cut_to : {n : ℕ} → IsTime lib now (pos (suc n)) (lib.cut_time (suc n) now)
  not_cut : IsTime lib now (pos zero) now
  negative : {n : ℕ} → IsTime lib now (negsuc n) now

-- The text of a value: a text is itself, bytes are a text, a finite number is printed as a float, and all
-- else is empty.
pub data IsText (lib : Library) : Value → Bytes → Type 0 where
  of_string : {s : Bytes} → IsText lib (string s) s
  of_bytes : {b : Bytes} → IsText lib (bytes b) b
  of_number :
      {v : Value} {x : ℕ} {text : Bytes}
      → as_float64 lib.floats v ≡ some x
      → lib.float_text x ≡ some text
      → IsText lib v text
  not_finite :
      {v : Value} {x : ℕ}
      → as_float64 lib.floats v ≡ some x
      → lib.float_text x ≡ none
      → IsText lib v []
  of_enums : {vs : List EnumValue} → IsText lib (enums vs) []

-- A name that does not ask for a part of the header or for the time.
pub record IsOrdinary (name : Bytes) : Type 0 where
  pub no_node_name : name ≢ codes "_node_name"
  pub no_time : name ≢ codes "_time"
  pub no_time_ms : name ≢ codes "_time_ms"
  pub no_time_nano : name ≢ codes "_time_nano"
  pub no_src : name ≢ codes "_src"
  pub no_dst : name ≢ codes "_dst"
  pub no_prio : name ≢ codes "_prio"

abbrev pub id_of : Entry → Bytes
id_of (entry f) = f.id
id_of (fieldsets name groups) = name

-- The first field of a message with a name.
pub data IsFirst (name : Bytes) : List Entry → Entry → Type 0 where
  here : {e : Entry} {entries : List Entry} → id_of e ≡ name → IsFirst name (e ∷ entries) e
  behind :
      {e f : Entry} {entries : List Entry}
      → id_of e ≢ name
      → IsFirst name entries f
      → IsFirst name (e ∷ entries) f

-- What stands in the column of a field: a part of the header, the time, or the value of the field of
-- the message with that name, if it has one.
pub data IsColumn (lib : Library) (msg : Message) (now : ℕ) (f : Field) : Bytes → Type 0 where
  node_name : f.name ≡ codes "_node_name" → IsColumn lib msg now f (format_uint msg.node_name)
  seconds :
      {t : ℕ}
      → f.name ≡ codes "_time"
      → IsTime lib now f.truncate t
      → IsColumn lib msg now f (format_uint (lib.unix t))
  milliseconds :
      {t : ℕ}
      → f.name ≡ codes "_time_ms"
      → IsTime lib now f.truncate t
      → IsColumn lib msg now f (format_uint (lib.unix_milli t))
  nanoseconds :
      {t : ℕ}
      → f.name ≡ codes "_time_nano"
      → IsTime lib now f.truncate t
      → IsColumn lib msg now f (format_uint (lib.unix_nano t))
  source : f.name ≡ codes "_src" → IsColumn lib msg now f (format_uint msg.header.source)
  destination : f.name ≡ codes "_dst" → IsColumn lib msg now f (format_uint msg.header.destination)
  priority : f.name ≡ codes "_prio" → IsColumn lib msg now f (format_uint msg.header.priority)
  value :
      {v : FieldValue} {text : Bytes}
      → IsOrdinary f.name
      → IsFirst f.name msg.fields (entry v)
      → IsText lib v.value text
      → IsColumn lib msg now f text
  grouped :
      {name : Bytes} {fields : List (List FieldValue)}
      → IsOrdinary f.name
      → IsFirst f.name msg.fields (fieldsets name fields)
      → IsColumn lib msg now f []
  missing : IsOrdinary f.name → All (λ e. id_of e ≢ f.name) msg.fields → IsColumn lib msg now f []

-- A row under its head: each value stands under the name of its own column.
pub data IsTable (lib : Library) (msg : Message) (now : ℕ)
    : List Bytes → List Field → List Bytes → Type 0 where
  no_columns : IsTable lib msg now [] [] []
  column :
      {f : Field} {v : Bytes} {names values : List Bytes} {fields : List Field}
      → IsColumn lib msg now f v
      → IsTable lib msg now names fields values
      → IsTable lib msg now (f.name ∷ names) (f ∷ fields) (v ∷ values)

truncated-IsTime : (lib : Library) (d : ℤ) (now : ℕ) → IsTime lib now d (truncated lib d now)
unfolding truncated
truncated-IsTime lib (pos zero) now = not_cut
truncated-IsTime lib (pos (suc n)) now = cut_to
truncated-IsTime lib (negsuc n) now = negative

number-IsText :
    (lib : Library) (v : Value) (x : ℕ)
    → as_float64 lib.floats v ≡ some x
    → IsText lib v (text_or_empty (lib.float_text x))
unfolding text_or_empty
number-IsText lib v x e = elim (Option-cases (lib.float_text x)) [
  | inl nothing ↦ rw (text_or_empty, nothing) (not_finite e nothing)
  | inr (text, finite) ↦ rw (text_or_empty, finite) (of_number e finite)
]

value_text-IsText : (lib : Library) (v : Value) → IsText lib v (value_text lib v)
unfolding value_text float_or_empty as_float64
value_text-IsText lib (string s) = of_string
value_text-IsText lib (bytes b) = of_bytes
value_text-IsText lib (float64 x) = number-IsText lib (float64 x) _ refl
value_text-IsText lib (int64 x) = number-IsText lib (int64 x) _ refl
value_text-IsText lib (uint64 x) = number-IsText lib (uint64 x) _ refl
value_text-IsText lib (duration x) = number-IsText lib (duration x) _ refl
value_text-IsText lib (date_time x) = number-IsText lib (date_time x) _ refl
value_text-IsText lib (enum x) = number-IsText lib (enum x) _ refl
value_text-IsText lib (enums vs) = of_enums

-- What a search finds.
data Found (name : Bytes) (entries : List Entry) : Option Entry → Type 0 where
  first_one : {e : Entry} → IsFirst name entries e → Found name entries (some e)
  nowhere : All (λ e. id_of e ≢ name) entries → Found name entries none

Found-behind :
    (name : Bytes) (e : Entry) (entries : List Entry) (o : Option Entry)
    → id_of e ≢ name
    → Found name entries o
    → Found name (e ∷ entries) o
Found-behind name e entries _ other (first_one f) = first_one (behind other f)
Found-behind name e entries _ other (nowhere h) = nowhere (other, h)

find_entry-Found :
    (name : Bytes) (entries : List Entry) → Found name entries (find_entry entries name)
unfolding find_entry
find_entry-Found name [] = nowhere tt
find_entry-Found name (entry f ∷ entries) = elim (Bool-cases (text_eq f.id name)) [
  | inl y ↦ rw y (first_one (here (text_eq→eq f.id name y)))
  | inr n ↦ rw n (
      Found-behind name (entry f) entries _ (text_eq→ne f.id name n)
        (find_entry-Found name entries))
]
find_entry-Found name (fieldsets id groups ∷ entries) = elim (Bool-cases (text_eq id name)) [
  | inl y ↦ rw y (first_one (here (text_eq→eq id name y)))
  | inr n ↦ rw n (
      Found-behind name (fieldsets id groups) entries _ (text_eq→ne id name n)
        (find_entry-Found name entries))
]

entry_text-IsColumn :
    (lib : Library) (msg : Message) (now : ℕ) (f : Field)
    → IsOrdinary f.name
    → (o : Option Entry) → Found f.name msg.fields o
    → IsColumn lib msg now f (entry_text lib o)
unfolding entry_text
entry_text-IsColumn lib msg now f ordinary (some (entry v)) (first_one h) =
    value ordinary h (value_text-IsText lib v.value)
entry_text-IsColumn lib msg now f ordinary (some (fieldsets name fields)) (first_one h) =
    grouped ordinary h
entry_text-IsColumn lib msg now f ordinary none (nowhere h) = missing ordinary h

pub field_text-IsColumn :
    (lib : Library) (msg : Message) (now : ℕ) (f : Field)
    → IsColumn lib msg now f (field_text lib msg now f)
unfolding field_text
field_text-IsColumn lib msg now f = elim (Bool-cases (text_eq f.name (codes "_node_name"))) [
  | inl y ↦ simp y (node_name (text_eq→eq f.name _ y))
  | inr n1 ↦ elim (Bool-cases (text_eq f.name (codes "_time"))) [
    | inl y ↦ simp (n1, y) (seconds (text_eq→eq f.name _ y) (truncated-IsTime lib f.truncate now))
    | inr n2 ↦ elim (Bool-cases (text_eq f.name (codes "_time_ms"))) [
      | inl y ↦
          simp (n1, n2, y)
            (milliseconds (text_eq→eq f.name _ y) (truncated-IsTime lib f.truncate now))
      | inr n3 ↦ elim (Bool-cases (text_eq f.name (codes "_time_nano"))) [
        | inl y ↦
            simp (n1, n2, n3, y)
              (nanoseconds (text_eq→eq f.name _ y) (truncated-IsTime lib f.truncate now))
        | inr n4 ↦ elim (Bool-cases (text_eq f.name (codes "_src"))) [
          | inl y ↦ simp (n1, n2, n3, n4, y) (source (text_eq→eq f.name _ y))
          | inr n5 ↦ elim (Bool-cases (text_eq f.name (codes "_dst"))) [
            | inl y ↦ simp (n1, n2, n3, n4, n5, y) (destination (text_eq→eq f.name _ y))
            | inr n6 ↦ elim (Bool-cases (text_eq f.name (codes "_prio"))) [
              | inl y ↦ simp (n1, n2, n3, n4, n5, n6, y) (priority (text_eq→eq f.name _ y))
              | inr n7 ↦
                  simp (n1, n2, n3, n4, n5, n6, n7)
                    (entry_text-IsColumn lib msg now f
                      (record {
                        no_node_name = text_eq→ne f.name _ n1;
                        no_time = text_eq→ne f.name _ n2;
                        no_time_ms = text_eq→ne f.name _ n3;
                        no_time_nano = text_eq→ne f.name _ n4;
                        no_src = text_eq→ne f.name _ n5;
                        no_dst = text_eq→ne f.name _ n6;
                        no_prio = text_eq→ne f.name _ n7;
                      })
                      (find_entry msg.fields f.name) (find_entry-Found f.name msg.fields))
            ]
          ]
        ]
      ]
    ]
  ]
]

-- A row of the fields stands under their names.
pub map-IsTable :
    (lib : Library) (msg : Message) (now : ℕ) (fields : List Field)
    → IsTable lib msg now
        (map (λ (f : Field). f.name) fields)
        fields
        (map (field_text lib msg now) fields)
map-IsTable lib msg now [] = no_columns
map-IsTable lib msg now (f ∷ fields) =
    column (field_text-IsColumn lib msg now f) (map-IsTable lib msg now fields)
