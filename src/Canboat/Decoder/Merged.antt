-- ===== src/Canboat/Decoder/Merged.antt =====
-- canboat/decoder.go: the groups that the loop over repeating fields makes of a message.
use go_nmea_client.Common.{
  ℕ, zero, suc, ◌≤◌, ◌<◌, ◌≡◌, ◌≢◌, refl, sym, ap, ◌∙◌, List, [], ◌∷◌, ◌++◌, Option, none, some,
  Result, ok, err, panic, ltb, Bool-cases, Option-cases, inl, inr, arith, length,
}
use mathlib.Core.Path.{subst}
use mathlib.Core.List.{append-nil}
use go_nmea_client.Nmea.{RawMessage}
use go_nmea_client.Canboat.Database.{Field, Pgn}
use go_nmea_client.Canboat.Fields.{Library}
use go_nmea_client.Canboat.Decoder.{DecoderConfig, DecodeError, Decoded, message_bit_count}
use go_nmea_client.Canboat.Decoder.Phases.{Phase}
use go_nmea_client.Canboat.Decoder.Groups.{OneGroup, ok_eq, round-OneGroup}
use go_nmea_client.Canboat.Decoder.Rounds.{loop_past, loop_at_end, loop_round}
use go_nmea_client.Canboat.Decoder.Repeated.{
  Cursor, round, current, repeat_loop, first_cursor, new_repetition, Item, singles, set_item,
  items_of, collected, repeat_from, decode_with_repeated_fields, fieldset_1,
}

none_some : {A : Type 0} {a : A} → ◌≢◌ {A = Option A} none (some a)
none_some e = cc

err_ok :
    {A : Type 0} {x : DecodeError} {a : A}
    → ◌≢◌ {A = Option (Result DecodeError A)} (some (err x)) (some (ok a))
err_ok e = cc

panic_ok : {A : Type 0} {a : A} → ◌≢◌ {A = Option (Result DecodeError A)} (some panic) (some (ok a))
panic_ok e = cc

some_eq :
    {A : Type 0} {a b : A}
    → ◌≡◌ {A = Option (Result DecodeError A)} (some (ok a)) (some (ok b))
    → a ≡ b
some_eq e = cc

repeat_loop-OneGroup :
    (lib : Library) (config : DecoderConfig) (raw : List ℕ) (fields : List Field) (count fuel : ℕ)
    (r : Result DecodeError Cursor) (c' : Cursor)
    → ((c : Cursor) → r ≡ ok c → OneGroup c)
    → repeat_loop lib config raw fields count fuel r ≡ some (ok c')
    → OneGroup c'
unfolding repeat_loop
repeat_loop-OneGroup lib config raw fields count zero r c' g e = absurd (none_some e)
repeat_loop-OneGroup lib config raw fields count (suc fuel) (err x) c' g e = absurd (err_ok e)
repeat_loop-OneGroup lib config raw fields count (suc fuel) panic c' g e = absurd (panic_ok e)
repeat_loop-OneGroup lib config raw fields count (suc fuel) (ok c) c' g e =
    elim (Bool-cases (ltb c.bit_offset count)) [
      | inr past ↦
          subst OneGroup (some_eq (sym (loop_past lib config raw fields count fuel c past) ∙ e))
            (g c refl)
      | inl inside ↦ elim (Option-cases (current fields c)) [
        | inl absent ↦
            subst OneGroup
              (some_eq (sym (loop_at_end lib config raw fields count fuel c inside absent) ∙ e))
              (g c refl)
        | inr (f, found) ↦
            repeat_loop-OneGroup lib config raw fields count fuel (round lib config raw c f) c'
              (λ c1 made. round-OneGroup lib config raw c f c1 (g c refl) made)
              (sym (loop_round lib config raw fields count fuel c f inside found) ∙ e)
      ]
    ]

first_cursor-OneGroup :
    (pgn : Pgn) (f : Field)
    → pgn.repeating_field_set1_count_field < pgn.repeating_field_set1_start_field
    → pgn.repeating_field_set2_start_field ≡ 0
    → OneGroup (first_cursor pgn f)
unfolding first_cursor new_repetition Phase
first_cursor-OneGroup pgn f k only = record {
  before = k;
  no_second = only;
  no_values = refl;
  few = omega arith;
  phase = inl (omega (arith, k));
}

collected_merges :
    (r : Option (Result DecodeError Cursor)) (items : List Item)
    → ((c : Cursor) → r ≡ some (ok c) → OneGroup c)
    → collected r ≡ some (ok items)
    → (ds : List Decoded) × (groups : List (List Decoded)) × (items
        ≡ singles ds ++ set_item fieldset_1 groups)
      × (length groups ≤ 1)
unfolding collected items_of set_item
collected_merges none items g e = absurd (none_some e)
collected_merges (some (err x)) items g e = absurd (err_ok e)
collected_merges (some panic) items g e = absurd (panic_ok e)
collected_merges (some (ok c)) items g e =
    let one = g c refl in
    (
      c.fields,
      c.rep1.values,
      sym (some_eq e) ∙ rw one.no_values (ap (λ t. singles c.fields ++ t) (append-nil _)),
      one.few,
    )

repeat_from_merges :
    (lib : Library) (config : DecoderConfig) (fuel : ℕ) (pgn : Pgn) (fields : List Field)
    (raw : List ℕ) (items : List Item)
    → pgn.repeating_field_set1_count_field < pgn.repeating_field_set1_start_field
    → pgn.repeating_field_set2_start_field ≡ 0
    → repeat_from lib config fuel pgn fields raw ≡ some (ok items)
    → (ds : List Decoded) × (groups : List (List Decoded)) × (items
        ≡ singles ds ++ set_item fieldset_1 groups)
      × (length groups ≤ 1)
unfolding repeat_from
repeat_from_merges lib config fuel pgn [] raw items k only e = absurd (panic_ok e)
repeat_from_merges lib config fuel pgn (f ∷ fields) raw items k only e =
    collected_merges
      (repeat_loop lib config raw (f ∷ fields) (message_bit_count raw) fuel
        (ok (first_cursor pgn f)))
      items
      (λ c ends.
        repeat_loop-OneGroup lib config raw (f ∷ fields) (message_bit_count raw) fuel
          (ok (first_cursor pgn f)) c
          (λ c0 same. subst OneGroup (ok_eq same) (first_cursor-OneGroup pgn f k only)) ends)
      e

-- Where a PGN has one set of repeating fields, which starts behind the field of its count, all the
-- repetitions of a message that decodes are in one group at most.
pub decode_with_repeated_fields_merges :
    (lib : Library) (config : DecoderConfig) (fuel : ℕ) (pgn : Pgn) (raw : RawMessage)
    (items : List Item)
    → pgn.repeating_field_set1_count_field < pgn.repeating_field_set1_start_field
    → pgn.repeating_field_set2_start_field ≡ 0
    → decode_with_repeated_fields lib config fuel pgn raw ≡ some (ok items)
    → (ds : List Decoded) × (groups : List (List Decoded)) × (items
        ≡ singles ds ++ set_item fieldset_1 groups)
      × (length groups ≤ 1)
unfolding decode_with_repeated_fields
decode_with_repeated_fields_merges lib config fuel pgn raw items k only e =
    repeat_from_merges lib config fuel pgn pgn.fields raw.bytes items k only e
