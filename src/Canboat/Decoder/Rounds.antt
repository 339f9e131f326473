-- ===== src/Canboat/Decoder/Rounds.antt =====
-- canboat/decoder.go: the loop over repeating fields ends.
use go_nmea_client.Common.{
  ℕ, zero, suc, ◌+◌, ◌*◌, ◌≤◌, ◌-◌, ◌≡◌, ◌≢◌, refl, sym, ap, ◌∙◌, List, [], ◌∷◌, Option, none, some,
  Bool, true, false, Result, ok, err, panic, ◌>>=◌, >>=-eq-ok, ltb, ◌==◌, if◌then◌else◌, Bool-cases,
  Option-cases, inl, inr, arith, u16, length, All, get_elem?,
}
use mathlib.Core.Path.{subst}
use go_nmea_client.Nmea.{RawMessage}
use go_nmea_client.Canboat.Database.{Field, Pgn}
use go_nmea_client.Canboat.Fields.{Library}
use go_nmea_client.Canboat.Decoder.{
  DecoderConfig, DecodeError, Decoded, decode_single_field, message_bit_count,
}
use go_nmea_client.Canboat.Decoder.Offsets.{is_fixed, decode_single_field-bits}
use go_nmea_client.Canboat.Decoder.Repeated.{
  Repetition, Cursor, Place, within1, within2, outside, place, advance, counted, count_groups,
  add_value, found_value, round, current, repeat_loop, first_cursor, Item, collected, repeat_from,
  decode_with_repeated_fields,
}

-- A field with a length of its own, of one bit at least and 4096 bytes at most.
abbrev pub IsMeasured : Field → Type 0
IsMeasured f = (is_fixed f.field_type ≡ true) × (1 ≤ f.bit_length) × (f.bit_length ≤ 32768)

bind_offset :
    {A : Type 0} (r : Result DecodeError A) (next : A → Cursor) (c' : Cursor)
    → (r >>= λ a. ok (next a)) ≡ ok c'
    → (a : A) × (next a ≡ c')
bind_offset r next c' e = let (a, got, done) = >>=-eq-ok r _ e in (a, cc)

counted_either-offset :
    (c : Cursor) (none_needed first second : Bool) (r1 r2 : Result DecodeError Repetition)
    (c' : Cursor)
    → (if none_needed
        then ok c
        else if first
        then (r1 >>= λ rep. ok (record c { rep1 = rep; needed = c.needed - 1 }))
        else if second
        then (r2 >>= λ rep. ok (record c { rep2 = rep; needed = c.needed - 1 }))
        else ok c)
      ≡ ok c'
    → c'.bit_offset ≡ c.bit_offset
counted_either-offset c true first second r1 r2 c' e = cc
counted_either-offset c false true second r1 r2 c' e =
    ap (λ (x : Cursor). x.bit_offset) (sym (bind_offset r1 _ c' e).1)
counted_either-offset c false false true r1 r2 c' e =
    ap (λ (x : Cursor). x.bit_offset) (sym (bind_offset r2 _ c' e).1)
counted_either-offset c false false false r1 r2 c' e = cc

count_groups-offset :
    (c : Cursor) (d : Decoded) (c' : Cursor)
    → count_groups c d ≡ ok c'
    → c'.bit_offset ≡ c.bit_offset
unfolding count_groups
count_groups-offset c d c' e =
    counted_either-offset c (c.needed == 0) ((c.order - 1) == c.rep1.count_field)
      ((c.order - 1) == c.rep2.count_field) (counted c.rep1 d.value.value)
      (counted c.rep2 d.value.value) c' e

add_value-offset :
    (p : Place) (c : Cursor) (d : Decoded) (c' : Cursor)
    → add_value p c d ≡ ok c'
    → c'.bit_offset ≡ c.bit_offset
unfolding add_value
add_value-offset within1 c d c' e = ap (λ (x : Cursor). x.bit_offset) (sym (bind_offset _ _ c' e).1)
add_value-offset within2 c d c' e = ap (λ (x : Cursor). x.bit_offset) (sym (bind_offset _ _ c' e).1)
add_value-offset outside c d c' e = cc

found_value-offset :
    (p : Place) (c : Cursor) (d : Option Decoded) (c' : Cursor)
    → found_value p c d ≡ ok c'
    → c'.bit_offset ≡ c.bit_offset
unfolding found_value
found_value-offset p c none c' e = cc
found_value-offset p c (some d) c' e =
    let (c1, counted1, added) = >>=-eq-ok (count_groups c d) _ e in
    add_value-offset p c1 d c' added ∙ count_groups-offset c d c1 counted1

round-offset :
    (lib : Library) (config : DecoderConfig) (raw : List ℕ) (c : Cursor) (f : Field) (c' : Cursor)
    → is_fixed f.field_type ≡ true
    → round lib config raw c f ≡ ok c'
    → c'.bit_offset ≡ u16 (c.bit_offset + f.bit_length)
unfolding round
round-offset lib config raw c f c' fixed e =
    let (c1, advanced, rest) = >>=-eq-ok (advance (place c) c) _ e in
    let (d, found, last) = >>=-eq-ok (decode_single_field lib config f raw c.bit_offset).0 _ rest in
    found_value-offset (place c) _ d c' last
    ∙ ap (λ b. u16 (c.bit_offset + b))
        (decode_single_field-bits lib config f raw c.bit_offset d fixed found)

not_found : (f : Field) → ◌≢◌ {A = Option Field} none (some f)
not_found f e = cc

found_first : (g f : Field) → ◌≡◌ {A = Option Field} (some g) (some f) → g ≡ f
found_first g f e = cc

All-get_elem? :
    (fields : List Field) (i : ℕ) (f : Field)
    → All IsMeasured fields
    → get_elem? fields i ≡ some f
    → IsMeasured f
All-get_elem? [] i f h e = absurd (not_found f e)
All-get_elem? (g ∷ fields) zero f h e = subst IsMeasured (found_first g f e) h.0
All-get_elem? (g ∷ fields) (suc i) f h e = All-get_elem? fields i f h.1 e

pub loop_past :
    (lib : Library) (config : DecoderConfig) (raw : List ℕ) (fields : List Field) (count fuel : ℕ)
    (c : Cursor)
    → ltb c.bit_offset count ≡ false
    → repeat_loop lib config raw fields count (suc fuel) (ok c) ≡ some (ok c)
unfolding repeat_loop
loop_past lib config raw fields count fuel c e = rw e refl

pub loop_at_end :
    (lib : Library) (config : DecoderConfig) (raw : List ℕ) (fields : List Field) (count fuel : ℕ)
    (c : Cursor)
    → ltb c.bit_offset count ≡ true
    → current fields c ≡ none
    → repeat_loop lib config raw fields count (suc fuel) (ok c) ≡ some (ok c)
unfolding repeat_loop
loop_at_end lib config raw fields count fuel c e f = rw (e, f, repeat_loop) refl

pub loop_round :
    (lib : Library) (config : DecoderConfig) (raw : List ℕ) (fields : List Field) (count fuel : ℕ)
    (c : Cursor) (f : Field)
    → ltb c.bit_offset count ≡ true
    → current fields c ≡ some f
    → repeat_loop lib config raw fields count (suc fuel) (ok c)
      ≡ repeat_loop lib config raw fields count fuel (round lib config raw c f)
unfolding repeat_loop
loop_round lib config raw fields count fuel c f e h = rw (e, h, repeat_loop) refl

repeat_loop_ends :
    (lib : Library) (config : DecoderConfig) (raw : List ℕ) (fields : List Field) (count fuel : ℕ)
    (r : Result DecodeError Cursor)
    → All IsMeasured fields
    → count ≤ 32768
    → 1 ≤ fuel
    → ((c : Cursor) → r ≡ ok c → count + 1 ≤ fuel + c.bit_offset)
    → (result : Result DecodeError Cursor) × (repeat_loop lib config raw fields count fuel r
        ≡ some result)
unfolding repeat_loop
repeat_loop_ends lib config raw fields count zero r h small some_fuel enough =
    absurd (omega (arith, some_fuel))
repeat_loop_ends lib config raw fields count (suc fuel) (err e) h small some_fuel enough =
    (err e, refl)
repeat_loop_ends lib config raw fields count (suc fuel) panic h small some_fuel enough =
    (panic, refl)
repeat_loop_ends lib config raw fields count (suc fuel) (ok c) h small some_fuel enough =
    elim (Bool-cases (ltb c.bit_offset count)) [
      | inr past ↦ (ok c, loop_past lib config raw fields count fuel c past)
      | inl inside ↦ elim (Option-cases (current fields c)) [
        | inl absent ↦ (ok c, loop_at_end lib config raw fields count fuel c inside absent)
        | inr (f, found) ↦
            let measured = All-get_elem? fields (c.order - 1) f h found in
            let (result, ends) =
              repeat_loop_ends lib config raw fields count fuel (round lib config raw c f) h small
                (ground (arith, enough c refl, inside))
                (λ c' e. ground (
                  arith,
                  enough c refl,
                  inside,
                  measured,
                  round-offset lib config raw c f c' measured.0 e,
                )) in
            (result, loop_round lib config raw fields count fuel c f inside found ∙ ends)
      ]
    ]

pub repeat_from_returns :
    (lib : Library) (config : DecoderConfig) (pgn : Pgn) (fields : List Field) (raw : List ℕ)
    → All IsMeasured fields
    → length raw ≤ 4096
    → (result : Result DecodeError (List Item)) × (repeat_from lib config
          (suc (length raw * 8))
          pgn
          fields
          raw
        ≡ some result)
unfolding repeat_from collected
repeat_from_returns lib config pgn [] raw h small = (panic, refl)
repeat_from_returns lib config pgn (f ∷ fields) raw h small =
    let (result, ends) =
      repeat_loop_ends lib config raw (f ∷ fields) (message_bit_count raw) (suc (length raw * 8))
        (ok (first_cursor pgn f)) h (omega (arith, small)) (omega arith)
        (λ c e. omega (arith, small)) in
    (_, ap collected ends)

-- On a message of at most 4096 bytes, and where every field has a length of its own of at least one
-- bit, the loop over repeating fields ends within one round for each bit of the message: with this
-- fuel, decoding gives a result.
pub decode_with_repeated_fields_returns :
    (lib : Library) (config : DecoderConfig) (pgn : Pgn) (raw : RawMessage)
    → All IsMeasured pgn.fields
    → length raw.bytes ≤ 4096
    → (result : Result DecodeError (List Item)) × (decode_with_repeated_fields lib config
          (suc (length raw.bytes * 8))
          pgn
          raw
        ≡ some result)
unfolding decode_with_repeated_fields
decode_with_repeated_fields_returns lib config pgn raw h small =
    repeat_from_returns lib config pgn pgn.fields raw.bytes h small
