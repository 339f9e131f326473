-- ===== src/Canboat/Decoder/Enums.antt =====
-- canboat/decoder.go: what becomes of the values of enumerations.
use go_nmea_client.Common.{
  ℕ, ◌≡◌, ◌≢◌, refl, sym, ap, ◌∙◌, List, [], ◌∷◌, Bool, true, false, Result, ok, err, panic, ◌>>=◌,
  u32, map, arith,
}
use go_nmea_client.RawData.Values as Values
use go_nmea_client.RawData.Values.{Value, uint64, enum, enums, FieldValue}
use go_nmea_client.Canboat as Canboat
use go_nmea_client.Canboat.{
  unknown_enum_type, unknown_enum_value, Enum, EnumValue, BitEnumValue, value_in, same, find_value,
  exists, find_bit_values, bit_enum_exists,
}
use go_nmea_client.Canboat.Lookups.{find_value-exists}
use go_nmea_client.Canboat.Database.{Field, lookup}
use go_nmea_client.Canboat.Decoder.{Decoder, enum_not_decoded, Decoded}
use go_nmea_client.Canboat.Decoder.Repeated.{Item, single, value_set}
use go_nmea_client.Canboat.Decoder.Messages.{
  enum_number, lookup_value, enum_value_as, decode_to_enum, post_process_field, post_process_all,
  post_process_groups, Entry, entry, fieldsets, post_process_item, post_process_items,
  post_process_fields,
}

-- An item as it was decoded.
unfoldable pub plain : Item → Entry
plain (single d) = entry d.value
plain (value_set id groups) =
    fieldsets id (map (λ (g : List Decoded). map (λ (d : Decoded). d.value) g) groups)

post_process_field_plain :
    (d : Decoder) (items : List Item) (df : Decoded)
    → d.config.decode_lookups_to_enum_type ≡ false
    → post_process_field d items df ≡ ok df.value
unfolding post_process_field
post_process_field_plain d items df off = rw off refl

post_process_all_plain :
    (d : Decoder) (items : List Item) (dfs : List Decoded)
    → d.config.decode_lookups_to_enum_type ≡ false
    → post_process_all d items dfs ≡ ok (map (λ (x : Decoded). x.value) dfs)
unfolding post_process_all
post_process_all_plain d items [] off = refl
post_process_all_plain d items (df ∷ dfs) off =
    rw (post_process_field_plain d items df off, post_process_all_plain d items dfs off) refl

post_process_groups_plain :
    (d : Decoder) (groups : List (List Decoded))
    → d.config.decode_lookups_to_enum_type ≡ false
    → post_process_groups d groups
      ≡ ok (map (λ (g : List Decoded). map (λ (x : Decoded). x.value) g) groups)
unfolding post_process_groups
post_process_groups_plain d [] off = refl
post_process_groups_plain d (g ∷ groups) off =
    rw (post_process_all_plain d _ g off, post_process_groups_plain d groups off) refl

post_process_item-plain :
    (d : Decoder) (items : List Item) (i : Item)
    → d.config.decode_lookups_to_enum_type ≡ false
    → post_process_item d items i ≡ ok (plain i)
unfolding post_process_item plain
post_process_item-plain d items (single df) off = rw (post_process_field_plain d items df off) refl
post_process_item-plain d items (value_set id groups) off =
    rw (post_process_groups_plain d groups off) refl

post_process_items-plain :
    (d : Decoder) (items rest : List Item)
    → d.config.decode_lookups_to_enum_type ≡ false
    → post_process_items d items rest ≡ ok (map plain rest)
unfolding post_process_items
post_process_items-plain d items [] off = refl
post_process_items-plain d items (i ∷ rest) off =
    rw (post_process_item-plain d items i off, post_process_items-plain d items rest off) refl

-- Without `DecodeLookupsToEnumType` the fields of a message are those that were decoded, group by
-- group, and there is no error.
pub post_process_fields-plain :
    (d : Decoder) (items : List Item)
    → d.config.decode_lookups_to_enum_type ≡ false
    → post_process_fields d items ≡ ok (map plain items)
unfolding post_process_fields
post_process_fields-plain d items off = post_process_items-plain d items items off

differ : ◌≢◌ {A = Bool} true false
differ e = cc

value_in_returns : (values : List EnumValue) (n : ℕ) → value_in values n ≢ panic
unfolding value_in
value_in_returns [] n e = cc
value_in_returns (v ∷ values) n e = ground (arith, e, value_in_returns values n)

find_value_returns :
    (lookups : List Enum) (name : List ℕ) (n : ℕ) → find_value lookups name n ≢ panic
unfolding find_value
find_value_returns [] name n e = cc
find_value_returns (x ∷ lookups) name n e =
    ground (arith, e, find_value_returns lookups name n, value_in_returns x.values n)

lookup_decoded :
    (f : Field) (id : List ℕ) (n : ℕ) (r : Result Canboat.Error EnumValue)
    → r ≢ err unknown_enum_type
    → r ≢ panic
    → (ev : Values.EnumValue) × (◌>>=◌ {B = FieldValue}
          (lookup_value f n r)
          (λ v. ok (record { id = id; value = v }))
        ≡ ok (record { id = id; value = enum ev }))
unfolding lookup_value
lookup_decoded f id n (ok ev) h k = (_, refl)
lookup_decoded f id n (err unknown_enum_value) h k = (_, refl)
lookup_decoded f id n (err unknown_enum_type) h k = absurd (h refl)
lookup_decoded f id n panic h k = absurd (k refl)

decode_to_enum_lookup :
    (d : Decoder) (df : Decoded) (items : List Item) (v : ℕ)
    → df.field.field_type ≡ lookup
    → df.value.value ≡ uint64 v
    → decode_to_enum d df items
      ≡ ◌>>=◌ {B = FieldValue}
          (lookup_value df.field (u32 v) (find_value d.lookups df.field.lookup_enumeration (u32 v)))
          (λ x. ok (record { id = df.value.id; value = x }))
unfolding decode_to_enum enum_number enum_value_as
decode_to_enum_lookup d df items v type value =
    ap
      (λ x. ◌>>=◌ {B = FieldValue} (enum_number x) (λ val.
        ◌>>=◌ {B = FieldValue} (enum_value_as d df.field.field_type df.field (u32 val) items x)
          (λ y. ok (record { id = df.value.id; value = y }))))
      value
    ∙ ap
        (λ t.
          ◌>>=◌ {B = FieldValue} (enum_value_as d t df.field (u32 v) items (uint64 v))
            (λ y. ok (record { id = df.value.id; value = y })))
        type

-- A lookup field with a number is decoded to a value of an enumeration, known or unknown, if the
-- enumeration that the field names exists, and is an error of an unknown type if not.
pub decode_to_enum-exists :
    (d : Decoder) (df : Decoded) (items : List Item) (v : ℕ)
    → df.field.field_type ≡ lookup
    → df.value.value ≡ uint64 v
    → (exists d.lookups df.field.lookup_enumeration ≡ true
        → (ev : Values.EnumValue) × (decode_to_enum d df items
            ≡ ok (record { id = df.value.id; value = enum ev })))
      × (exists d.lookups df.field.lookup_enumeration ≡ false
          → decode_to_enum d df items ≡ err (enum_not_decoded df.field.id unknown_enum_type))
unfolding lookup_value
decode_to_enum-exists d df items v type value =
    let name = df.field.lookup_enumeration in
    let is_unknown = find_value-exists d.lookups name (u32 v) in
    let step = decode_to_enum_lookup d df items v type value in
    (
      λ known.
          let (ev, decoded) =
            lookup_decoded df.field df.value.id (u32 v) (find_value d.lookups name (u32 v))
              (λ e. differ (sym known ∙ is_unknown.0 e))
              (find_value_returns d.lookups name (u32 v)) in
          (ev, step ∙ decoded),
      λ unknown.
          step
          ∙ ap
              (λ r.
                ◌>>=◌ {B = FieldValue} (lookup_value df.field (u32 v) r)
                  (λ x. ok (record { id = df.value.id; value = x })))
              (is_unknown.1 unknown),
    )
