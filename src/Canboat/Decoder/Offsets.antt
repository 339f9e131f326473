-- ===== src/Canboat/Decoder/Offsets.antt =====
-- canboat/decoder.go: the bits at which `decode` reads the fields.
use go_nmea_client.Common.{
  ℕ, ◌+◌, ◌<◌, ◌≡◌, ◌≢◌, refl, sym, ap, ◌∙◌, List, [], ◌∷◌, Option, none, Bool, true, false, Result,
  ok, err, panic, ◌>>=◌, ltb, ◌&&◌, ◌||◌, not, if◌then◌else◌, Bool-cases, inl, inr, arith, u16,
}
use go_nmea_client.Nmea.{RawMessage}
use go_nmea_client.RawData.Values.{FieldValue}
use go_nmea_client.Canboat.Database.{
  Field, FieldType, Pgn, number, float, decimal, lookup, indirect_lookup, bit_lookup, time, date,
  string_fix, string_lz, string_lau, binary, reserved, spare, mmsi, variable,
}
use go_nmea_client.Canboat.Fields.{Library, FieldError, decode_as, field_decode}
use go_nmea_client.Canboat.Decoder.{
  DecoderConfig, DecodeError, Decoded, is_reserved, is_spare, is_special, settle,
  decode_single_field, with_found, decode_fields, message_bit_count, decode_from, decode,
}

-- The types of which a field has the length that the database gives.
unfoldable pub is_fixed : FieldType → Bool
is_fixed reserved = false
is_fixed spare = false
is_fixed binary = false
is_fixed string_lz = false
is_fixed string_lau = false
is_fixed variable = false
is_fixed _ = true

decode_as-bits :
    (lib : Library) (t : FieldType) (f : Field) (raw : List ℕ) (offset : ℕ)
    → is_fixed t ≡ true
    → (decode_as lib t f raw offset).1 ≡ f.bit_length
unfolding is_fixed decode_as
decode_as-bits lib number f raw offset h = refl
decode_as-bits lib float f raw offset h = refl
decode_as-bits lib decimal f raw offset h = refl
decode_as-bits lib lookup f raw offset h = refl
decode_as-bits lib indirect_lookup f raw offset h = refl
decode_as-bits lib bit_lookup f raw offset h = refl
decode_as-bits lib time f raw offset h = refl
decode_as-bits lib date f raw offset h = refl
decode_as-bits lib string_fix f raw offset h = refl
decode_as-bits lib mmsi f raw offset h = refl
decode_as-bits lib string_lz f raw offset h = cc
decode_as-bits lib string_lau f raw offset h = cc
decode_as-bits lib binary f raw offset h = cc
decode_as-bits lib reserved f raw offset h = cc
decode_as-bits lib spare f raw offset h = cc
decode_as-bits lib variable f raw offset h = cc

settle-error :
    (f : Field) (x : FieldError) (bits : ℕ) (d : Option Decoded)
    → is_special x ≡ false
    → (settle f (err x, bits)).0 ≢ ok d
unfolding settle
settle-error f x bits d other e = ground (arith, other, e)

-- Unless the field is an error, the bits are those of `Field.Decode`.
settle-bits :
    (f : Field) (r : Result FieldError FieldValue) (bits : ℕ) (d : Option Decoded)
    → (settle f (r, bits)).0 ≡ ok d
    → (settle f (r, bits)).1 ≡ bits
unfolding settle
settle-bits f (ok v) bits d e = refl
settle-bits f (err x) bits d e = elim (Bool-cases (is_special x)) [
  | inl special ↦ rw special refl
  | inr other ↦ absurd (settle-error f x bits d other e)
]
settle-bits f panic bits d e = refl

bits_either :
    (f : Field) (skipped : Bool) (r : Result FieldError FieldValue × ℕ) (d : Option Decoded)
    → r.1 ≡ f.bit_length
    → (if skipped then (ok none, f.bit_length) else settle f r).0 ≡ ok d
    → (if skipped then (ok none, f.bit_length) else settle f r).1 ≡ f.bit_length
bits_either f true r d h e = refl
bits_either f false (r, bits) d h e = settle-bits f r bits d e ∙ h

pub decode_single_field-bits :
    (lib : Library) (config : DecoderConfig) (f : Field) (raw : List ℕ) (offset : ℕ)
    (d : Option Decoded)
    → is_fixed f.field_type ≡ true
    → (decode_single_field lib config f raw offset).0 ≡ ok d
    → (decode_single_field lib config f raw offset).1 ≡ f.bit_length
unfolding decode_single_field field_decode
decode_single_field-bits lib config f raw offset d fixed e =
    bits_either f
      ((is_reserved f.field_type && not config.decode_reserved_fields)
        || (is_spare f.field_type && not config.decode_spare_fields))
      (decode_as lib f.field_type f raw offset) d
      (decode_as-bits lib f.field_type f raw offset fixed) e

-- The fields lie one behind the other from a bit on, each at the offset and with the length that the
-- database gives, below 65536.
unfoldable pub IsLaidOut : ℕ → List Field → Type 0
IsLaidOut offset [] = Unit
IsLaidOut offset (f ∷ fields) =
    (f.bit_offset ≡ offset)
    × (is_fixed f.field_type ≡ true)
    × (offset + f.bit_length < 65536)
    × IsLaidOut (offset + f.bit_length) fields

-- Every field by itself, at its own offset in the database, up to the end of the message.
unfoldable pub decode_each :
    Library → DecoderConfig → List ℕ → ℕ → List Field → Result DecodeError (List Decoded)
decode_each lib config raw count [] = ok []
decode_each lib config raw count (f ∷ fields) =
    let rest = decode_each lib config raw count fields in
    if ltb f.bit_offset count
    then ((decode_single_field lib config f raw f.bit_offset).0 >>= λ d.
        rest >>= λ ds. ok (with_found d ds))
    else ok []

add_found-eq :
    (first : Result DecodeError (Option Decoded)) (rest rest' : Result DecodeError (List Decoded))
    → ((d : Option Decoded) → first ≡ ok d → rest ≡ rest')
    → (first >>= λ d. rest >>= λ ds. ok (with_found d ds))
      ≡ (first >>= λ d. rest' >>= λ ds. ok (with_found d ds))
add_found-eq (ok d) rest rest' h = ap (λ r. r >>= λ ds. ok (with_found d ds)) (h d refl)
add_found-eq (err e) rest rest' h = refl
add_found-eq panic rest rest' h = refl

decode_fields-each :
    (lib : Library) (config : DecoderConfig) (raw : List ℕ) (count offset : ℕ) (fields : List Field)
    → IsLaidOut offset fields
    → decode_fields lib config raw count fields offset ≡ decode_each lib config raw count fields
unfolding decode_fields decode_each IsLaidOut
decode_fields-each lib config raw count offset [] h = refl
decode_fields-each lib config raw count offset (f ∷ fields) h =
    let first = decode_single_field lib config f raw offset in
    let next : (d : Option Decoded)
        → first.0 ≡ ok d
        → decode_fields lib config raw count fields (u16 (offset + first.1))
          ≡ decode_each lib config raw count fields =
      λ d e.
        let bits = decode_single_field-bits lib config f raw offset d (h.1) e in
        let here : u16 (offset + first.1) ≡ offset + f.bit_length =
          ap (λ b. u16 (offset + b)) bits ∙ omega (arith, h.2) in
        ap (decode_fields lib config raw count fields) here
        ∙ decode_fields-each lib config raw count (offset + f.bit_length) fields (h.3) in
    ap (λ r. if ltb offset count then r else ok []) (add_found-eq first.0 _ _ next)
    ∙ ap
        (λ o.
          if ltb o count
          then ((decode_single_field lib config f raw o).0 >>= λ d.
              decode_each lib config raw count fields >>= λ ds. ok (with_found d ds))
          else ok [])
        (sym (h.0))

-- Where the fields of a PGN have types of a fixed length and lie one behind the other, below bit 65536,
-- `decode` gives every field as read by itself at its own offset in the database, up to the end of
-- the message.
pub decode-each :
    (lib : Library) (config : DecoderConfig) (pgn : Pgn) (raw : RawMessage) (f : Field)
    (fields : List Field)
    → pgn.fields ≡ f ∷ fields
    → IsLaidOut f.bit_offset (f ∷ fields)
    → decode lib config pgn raw
      ≡ decode_each lib config raw.bytes (message_bit_count raw.bytes) pgn.fields
unfolding decode decode_from
decode-each lib config pgn raw f fields e h =
    ap (decode_from lib config raw.bytes) e
    ∙ decode_fields-each lib config raw.bytes (message_bit_count raw.bytes) f.bit_offset
        (f ∷ fields) h
    ∙ ap (decode_each lib config raw.bytes (message_bit_count raw.bytes)) (sym e)
