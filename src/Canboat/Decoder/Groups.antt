-- ===== src/Canboat/Decoder/Groups.antt =====
-- canboat/decoder.go: one round of the loop keeps the repetitions of a set in one group.
use go_nmea_client.Common.{
  ℕ, ◌+◌, ◌-◌, ◌/◌, ◌%◌, ◌^◌, ◌≤◌, ◌<◌, ◌≡◌, ◌≢◌, refl, sym, ap, ◌∙◌, List, [], ◌∷◌, Option, none,
  some, Bool, true, false, Result, ok, ◌>>=◌, ◌>>◌, check, >>=-eq-ok, ltb, ◌==◌, not, if◌then◌else◌,
  Bool-cases, inl, inr, arith, length,
}
use mathlib.Core.Path.{subst}
use go_nmea_client.RawData.Values.{Value}
use go_nmea_client.Canboat.Database.{Field}
use go_nmea_client.Canboat.Fields.{Library}
use go_nmea_client.Canboat.Decoder.{DecoderConfig, DecodeError, Decoded, decode_single_field}
use go_nmea_client.Canboat.Decoder.Phases.{
  Phase, next_order, rep_order_bounds, Phase-outside, counted-Phase,
}
use go_nmea_client.Canboat.Decoder.Repeated.{
  Repetition, is_within, Cursor, Place, within1, within2, outside, place, advance_in, advance,
  as_uint64, counted, count_groups, add_to_group, add_value, found_value, round,
}

pub record OneGroup (c : Cursor) : Type 0 where
  pub before : c.rep1.count_field < c.rep1.start_field
  pub no_second : c.rep2.start_field ≡ 0
  pub no_values : c.rep2.values ≡ []
  pub few : length c.rep1.values ≤ 1
  pub phase : Phase c.rep1 c.order c.rep_order

apart : outside ≢ within1
apart e = cc

pub ok_eq : {A : Type 0} {a b : A} → ◌≡◌ {A = Result DecodeError A} (ok a) (ok b) → a ≡ b
ok_eq e = cc

add_to_group_first :
    (values : List (List Decoded)) (d : Decoded) (values' : List (List Decoded))
    → length values ≤ 1
    → add_to_group 0 values d ≡ ok values'
    → length values' ≤ 1
unfolding add_to_group
add_to_group_first [] d values' few e =
    subst (λ (v : List (List Decoded)). length v ≤ 1) (ok_eq e) (omega arith)
add_to_group_first (v ∷ []) d values' few e =
    subst (λ (v : List (List Decoded)). length v ≤ 1) (ok_eq e) (omega arith)
add_to_group_first (v ∷ w ∷ values) d values' few e = absurd (omega (arith, few))

abbrev next_rep_order : Repetition → Cursor → ℕ
next_rep_order rep c = if c.order == rep.start_field then 1 else c.rep_order + 1

abbrev moved : Repetition → Cursor → Cursor
moved rep c = record c {
  rep_order = next_rep_order rep c;
  order = rep.start_field + next_rep_order rep c % rep.size;
  group_index = (next_rep_order rep c - 1) / rep.size;
}

checked :
    (failing : Bool) (c c' : Cursor)
    → ◌≡◌ {A = Result DecodeError Cursor} (check (not failing) >> ok c) (ok c')
    → (failing ≡ false) × (c ≡ c')
checked true c c' e = cc
checked false c c' e = (refl, cc)

place_first : (c : Cursor) → is_within c.order c.rep1 ≡ true → place c ≡ within1
unfolding place
place_first c e = rw e refl

place_outside :
    (c : Cursor) → c.rep2.start_field ≡ 0 → is_within c.order c.rep1 ≡ false → place c ≡ outside
unfolding place is_within
place_outside c h e = ground (arith, h, e)

-- After the pass has moved on, and before the value is stored.
advance-OneGroup :
    (c c' : Cursor)
    → OneGroup c
    → advance (place c) c ≡ ok c'
    → OneGroup c' × ((place c ≡ within1) → c'.group_index ≡ 0)
unfolding advance advance_in Phase
advance-OneGroup c c' g e = elim (Bool-cases (is_within c.order c.rep1)) [
  | inl within ↦
      let (some_size, made) =
        checked (c.rep1.size == 0) (moved c.rep1 c) c'
          (ap (λ p. advance p c) (sym (place_first c within)) ∙ e) in
      let (low, high) = rep_order_bounds c.rep1 c.order c.rep_order g.phase within some_size in
      let (phase, first) = next_order c.rep1 (next_rep_order c.rep1 c) low high in
      subst (λ x. OneGroup x × ((place c ≡ within1) → x.group_index ≡ 0)) made
        (
          record {
            before = g.before;
            no_second = g.no_second;
            no_values = g.no_values;
            few = g.few;
            phase = phase;
          },
          λ at. first,
        )
  | inr outer ↦
      let at = place_outside c g.no_second outer in
      subst (λ x. OneGroup x × ((place c ≡ within1) → x.group_index ≡ 0))
        (ok_eq (ap (λ p. advance p c) (sym at) ∙ e))
        (
          record {
            before = g.before;
            no_second = g.no_second;
            no_values = g.no_values;
            few = g.few;
            phase = Phase-outside c.rep1 c.order c.rep_order g.before g.phase outer;
          },
          λ inside. absurd (apart (sym at ∙ inside)),
        )
]

checked_eq :
    (passed : Bool) (r r' : Repetition)
    → ◌≡◌ {A = Result DecodeError Repetition} (check passed >> ok r) (ok r')
    → r ≡ r'
checked_eq true r r' e = cc
checked_eq false r r' e = cc

counted_kept :
    (rep : Repetition) (v : Value) (rep' : Repetition)
    → counted rep v ≡ ok rep'
    → (rep'.start_field ≡ rep.start_field)
      × (rep'.count_field ≡ rep.count_field)
      × (rep'.values ≡ [])
unfolding counted
counted_kept rep v rep' e =
    let (count, number, rest) = >>=-eq-ok (as_uint64 v) _ e in
    subst
      (λ (r : Repetition).
        (r.start_field ≡ rep.start_field) × (r.count_field ≡ rep.count_field) × (r.values ≡ []))
      (checked_eq (ltb count (2 ^ 63)) _ rep' rest) (refl, refl, refl)

count_either-OneGroup :
    (c c' : Cursor) (v : Value) (none_needed first second : Bool)
    → OneGroup c
    → ((c.order - 1) == c.rep1.count_field) ≡ first
    → (if none_needed
        then ok c
        else if first
        then (counted c.rep1 v >>= λ rep. ok (record c { rep1 = rep; needed = c.needed - 1 }))
        else if second
        then (counted c.rep2 v >>= λ rep. ok (record c { rep2 = rep; needed = c.needed - 1 }))
        else ok c)
      ≡ ok c'
    → OneGroup c' × (c'.group_index ≡ c.group_index)
count_either-OneGroup c c' v true first second g e made =
    subst (λ x. OneGroup x × (x.group_index ≡ c.group_index)) (ok_eq made) (g, refl)
count_either-OneGroup c c' v false true second g e made =
    let (rep, ended, done) = >>=-eq-ok (counted c.rep1 v) _ made in
    let (start, count, empty) = counted_kept c.rep1 v rep ended in
    subst (λ x. OneGroup x × (x.group_index ≡ c.group_index)) (ok_eq done)
      (
        record {
          before = omega (arith, g.before, start, count);
          no_second = g.no_second;
          no_values = g.no_values;
          few = rw empty (omega arith);
          phase = counted-Phase c.rep1 rep c.order c.rep_order g.before start g.phase e;
        },
        refl,
      )
count_either-OneGroup c c' v false false true g e made =
    let (rep, ended, done) = >>=-eq-ok (counted c.rep2 v) _ made in
    let (start, count, empty) = counted_kept c.rep2 v rep ended in
    subst (λ x. OneGroup x × (x.group_index ≡ c.group_index)) (ok_eq done)
      (
        record {
          before = g.before;
          no_second = start ∙ g.no_second;
          no_values = empty;
          few = g.few;
          phase = g.phase;
        },
        refl,
      )
count_either-OneGroup c c' v false false false g e made =
    subst (λ x. OneGroup x × (x.group_index ≡ c.group_index)) (ok_eq made) (g, refl)

count_groups-OneGroup :
    (c c' : Cursor) (d : Decoded)
    → OneGroup c
    → count_groups c d ≡ ok c'
    → OneGroup c' × (c'.group_index ≡ c.group_index)
unfolding count_groups
count_groups-OneGroup c c' d g e =
    count_either-OneGroup c c' d.value.value (c.needed == 0) ((c.order - 1) == c.rep1.count_field)
      ((c.order - 1) == c.rep2.count_field) g refl e

not_second : (c : Cursor) → c.rep2.start_field ≡ 0 → place c ≢ within2
unfolding place is_within
not_second c h e = ground (arith, h, e)

add_value-OneGroup :
    (p : Place) (c c' : Cursor) (d : Decoded)
    → OneGroup c
    → (p ≡ within1 → c.group_index ≡ 0)
    → p ≢ within2
    → add_value p c d ≡ ok c'
    → OneGroup c'
unfolding add_value Phase
add_value-OneGroup within1 c c' d g index p e =
    let (values, added, made) = >>=-eq-ok (add_to_group c.group_index c.rep1.values d) _ e in
    let few =
      add_to_group_first c.rep1.values d values g.few
        (ap (λ i. add_to_group i c.rep1.values d) (sym (index refl)) ∙ added) in
    subst OneGroup (ok_eq made) (record {
      before = g.before;
      no_second = g.no_second;
      no_values = g.no_values;
      few = few;
      phase = g.phase;
    })
add_value-OneGroup within2 c c' d g index p e = absurd (p refl)
add_value-OneGroup outside c c' d g index p e = subst OneGroup (ok_eq e) (record {
  before = g.before;
  no_second = g.no_second;
  no_values = g.no_values;
  few = g.few;
  phase = g.phase;
})

found_value-OneGroup :
    (p : Place) (c c' : Cursor) (d : Option Decoded)
    → OneGroup c
    → (p ≡ within1 → c.group_index ≡ 0)
    → p ≢ within2
    → found_value p c d ≡ ok c'
    → OneGroup c'
unfolding found_value
found_value-OneGroup p c c' none g index only e = subst OneGroup (ok_eq e) g
found_value-OneGroup p c c' (some d) g index only e =
    let (c1, counts, added) = >>=-eq-ok (count_groups c d) _ e in
    let (g1, same) = count_groups-OneGroup c c1 d g counts in
    add_value-OneGroup p c1 c' d g1 (λ at. same ∙ index at) only added

at_bit : (c : Cursor) (bits : ℕ) → OneGroup c → OneGroup (record c { bit_offset = bits })
unfolding Phase
at_bit c bits g = record {
  before = g.before;
  no_second = g.no_second;
  no_values = g.no_values;
  few = g.few;
  phase = g.phase;
}

pub round-OneGroup :
    (lib : Library) (config : DecoderConfig) (raw : List ℕ) (c : Cursor) (f : Field) (c' : Cursor)
    → OneGroup c
    → round lib config raw c f ≡ ok c'
    → OneGroup c'
unfolding round
round-OneGroup lib config raw c f c' g e =
    let (c1, advanced, rest) = >>=-eq-ok (advance (place c) c) _ e in
    let (d, found, last) = >>=-eq-ok (decode_single_field lib config f raw c.bit_offset).0 _ rest in
    let (g1, index) = advance-OneGroup c c1 g advanced in
    found_value-OneGroup (place c) _ c' d (at_bit c1 _ g1) index (not_second c g.no_second) last
