-- ===== src/Canboat/Decoder/Repeated.antt =====
-- canboat/decoder.go: `decodeWithRepeatedFields`. A start or an end that is `math.MaxInt` is `none`; the
-- memory for the groups is not bounded.
use go_nmea_client.Common.{
  ℕ, zero, suc, ◌+◌, ◌-◌, ◌*◌, ◌/◌, ◌%◌, ◌^◌, List, [], ◌∷◌, ◌++◌, Option, none, some, Bool, true,
  Result, ok, err, panic, ◌>>=◌, ◌>>◌, check, ltb, leb, ◌==◌, ◌&&◌, not, if◌then◌else◌, u16, length,
  get_elem?, get_or, set,
}
use go_nmea_client.Nmea.{RawMessage}
use go_nmea_client.RawData.Values.{Value, uint64}
use go_nmea_client.Canboat.Database.{Field, Pgn}
use go_nmea_client.Canboat.Fields.{Library}
use go_nmea_client.Canboat.Decoder.{
  DecoderConfig, DecodeError, Decoded, decode_single_field, message_bit_count,
}

-- One of the two sets of repeating fields.
pub record Repetition : Type 0 where
  pub size : ℕ
  pub start_field : ℕ
  pub count_field : ℕ
  pub end_index : Option ℕ
  pub values : List (List Decoded)

unfoldable pub new_repetition : ℕ → ℕ → ℕ → Repetition
new_repetition size start_field count_field = record {
  size = size;
  start_field = start_field;
  count_field = count_field;
  end_index = if count_field == 0 then none else some 0;
  values = [];
}

unfoldable pub needs_count : ℕ → ℕ
needs_count count_field = if count_field == 0 then 0 else 1

unfoldable pub up_to : Option ℕ → ℕ → Bool
up_to none order = true
up_to (some last) order = leb order last

-- `isWithinRep1`; a set without a start field starts at `math.MaxInt`.
unfoldable pub is_within : ℕ → Repetition → Bool
is_within order rep =
    not (rep.start_field == 0) && leb rep.start_field order && up_to rep.end_index order

-- The variables of the loop.
pub record Cursor : Type 0 where
  pub bit_offset : ℕ
  pub needed : ℕ
  pub order : ℕ
  pub rep_order : ℕ
  pub group_index : ℕ
  pub rep1 : Repetition
  pub rep2 : Repetition
  pub fields : List Decoded

pub data Place : Type 0 where
  within1 within2 outside : Place

unfoldable pub place : Cursor → Place
place c =
    if is_within c.order c.rep1
    then within1
    else if is_within c.order c.rep2
    then within2
    else outside

-- The next field of a set: a set of size 0 is a division by 0.
unfoldable pub advance_in : Repetition → Cursor → Result DecodeError Cursor
advance_in rep c =
    let rep_order = if c.order == rep.start_field then 1 else c.rep_order + 1 in
    check (not (rep.size == 0))
    >> ok (record c {
      rep_order = rep_order;
      order = rep.start_field + rep_order % rep.size;
      group_index = (rep_order - 1) / rep.size;
    })

unfoldable pub advance : Place → Cursor → Result DecodeError Cursor
advance within1 c = advance_in c.rep1 c
advance within2 c = advance_in c.rep2 c
advance outside c = ok (record c { order = c.order + 1 })

-- `dfv.Value.Value.(uint64)`
unfoldable pub as_uint64 : Value → Result DecodeError ℕ
as_uint64 (uint64 v) = ok v
as_uint64 _ = panic

-- A count that is negative as an `int` is no capacity for `make`.
unfoldable pub counted : Repetition → Value → Result DecodeError Repetition
counted rep v = do
  count ← as_uint64 v
  check (ltb count (2 ^ 63))
  ok (record rep { values = []; end_index = some (count * rep.size + rep.start_field) })

unfoldable pub count_groups : Cursor → Decoded → Result DecodeError Cursor
count_groups c d =
    if c.needed == 0
    then ok c
    else if (c.order - 1) == c.rep1.count_field
    then (counted c.rep1 d.value.value >>= λ rep.
        ok (record c { rep1 = rep; needed = c.needed - 1 }))
    else if (c.order - 1) == c.rep2.count_field
    then (counted c.rep2 d.value.value >>= λ rep.
        ok (record c { rep2 = rep; needed = c.needed - 1 }))
    else ok c

-- A group is added unless the last one is meant; the index of the group may still be out of range.
unfoldable pub add_to_group :
    ℕ → List (List Decoded) → Decoded → Result DecodeError (List (List Decoded))
add_to_group index values d =
    let grown = if (index + 1) == length values then values else values ++ ([] ∷ []) in
    check (ltb index (length grown)) >> ok (set grown index (get_or grown index [] ++ (d ∷ [])))

unfoldable pub add_value : Place → Cursor → Decoded → Result DecodeError Cursor
add_value within1 c d = add_to_group c.group_index c.rep1.values d >>= λ values.
    ok (record c { rep1 = record c.rep1 { values = values } })
add_value within2 c d = add_to_group c.group_index c.rep2.values d >>= λ values.
    ok (record c { rep2 = record c.rep2 { values = values } })
add_value outside c d = ok (record c { fields = c.fields ++ (d ∷ []) })

unfoldable pub found_value : Place → Cursor → Option Decoded → Result DecodeError Cursor
found_value p c none = ok c
found_value p c (some d) = count_groups c d >>= λ c'. add_value p c' d

-- One pass of the loop, at a field.
unfoldable pub round : Library → DecoderConfig → List ℕ → Cursor → Field → Result DecodeError Cursor
round lib config raw c f =
    let (found, bits) = decode_single_field lib config f raw c.bit_offset in
    advance (place c) c >>= λ c'.
    found >>= λ d. found_value (place c) (record c' { bit_offset = u16 (c.bit_offset + bits) }) d

-- The field of the order, where there is one.
abbrev pub current : List Field → Cursor → Option Field
current fields c = get_elem? fields (c.order - 1)

-- The loop on fuel: `none` where that runs out.
unfoldable pub repeat_loop :
    Library
    → DecoderConfig
    → List ℕ
    → List Field
    → ℕ
    → ℕ
    → Result DecodeError Cursor
    → Option (Result DecodeError Cursor)
repeat_loop lib config raw fields count zero c = none
repeat_loop lib config raw fields count (suc fuel) (err e) = some (err e)
repeat_loop lib config raw fields count (suc fuel) panic = some panic
repeat_loop lib config raw fields count (suc fuel) (ok c) =
    if not (ltb c.bit_offset count) then some (ok c) else (elim (current fields c) [
      | none ↦ some (ok c)
      | some f ↦ repeat_loop lib config raw fields count fuel (round lib config raw c f)
    ])

unfoldable pub first_cursor : Pgn → Field → Cursor
first_cursor pgn f = record {
  bit_offset = f.bit_offset;
  needed =
      needs_count pgn.repeating_field_set1_count_field
      + needs_count pgn.repeating_field_set2_count_field;
  order = 1;
  rep_order = 0;
  group_index = 0;
  rep1 =
      new_repetition pgn.repeating_field_set1_size pgn.repeating_field_set1_start_field
        pgn.repeating_field_set1_count_field;
  rep2 =
      new_repetition pgn.repeating_field_set2_size pgn.repeating_field_set2_start_field
        pgn.repeating_field_set2_count_field;
  fields = [];
}

-- A value of a field, or the groups of a set.
pub data Item : Type 0 where
  single : Decoded → Item
  value_set : List ℕ → List (List Decoded) → Item

unfoldable pub singles : List Decoded → List Item
singles [] = []
singles (d ∷ ds) = single d ∷ singles ds

unfoldable pub set_item : List ℕ → List (List Decoded) → List Item
set_item id [] = []
set_item id (group ∷ groups) = value_set id (group ∷ groups) ∷ []

abbrev pub fieldset_1 : List ℕ
fieldset_1 = b'F' ∷ b'I' ∷ b'E' ∷ b'L' ∷ b'D' ∷ b'S' ∷ b'E' ∷ b'T' ∷ b'_' ∷ b'1' ∷ []

abbrev pub fieldset_2 : List ℕ
fieldset_2 = b'F' ∷ b'I' ∷ b'E' ∷ b'L' ∷ b'D' ∷ b'S' ∷ b'E' ∷ b'T' ∷ b'_' ∷ b'2' ∷ []

unfoldable pub items_of : Cursor → List Item
items_of c =
    singles c.fields ++ (set_item fieldset_1 c.rep1.values ++ set_item fieldset_2 c.rep2.values)

unfoldable pub collected :
    Option (Result DecodeError Cursor) → Option (Result DecodeError (List Item))
collected none = none
collected (some r) = some (r >>= λ c. ok (items_of c))

unfoldable pub repeat_from :
    Library
    → DecoderConfig
    → ℕ
    → Pgn
    → List Field
    → List ℕ
    → Option (Result DecodeError (List Item))
repeat_from lib config fuel pgn [] raw = some panic
repeat_from lib config fuel pgn (f ∷ fields) raw =
    collected (
      repeat_loop lib config raw (f ∷ fields) (message_bit_count raw) fuel
        (ok (first_cursor pgn f)))

unfoldable pub decode_with_repeated_fields :
    Library → DecoderConfig → ℕ → Pgn → RawMessage → Option (Result DecodeError (List Item))
decode_with_repeated_fields lib config fuel pgn raw =
    repeat_from lib config fuel pgn pgn.fields raw.bytes
