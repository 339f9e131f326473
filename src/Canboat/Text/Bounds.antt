-- ===== src/Canboat/Text/Bounds.antt =====
-- canboat/inputoutput.go: what holds of a line that is accepted and of its message.
use go_nmea_client.Common.{
  ℕ, ◌-◌, ◌*◌, ◌^◌, ◌≤◌, ◌<◌, ◌≡◌, refl, ap, ◌∙◌, List, [], ◌∷◌, Option, some, none, true, false,
  arith, Result, ok, >>=-eq-ok, err, panic, ◌>>◌, fail_if, length, get_or, drop, ltb, not, ◌==◌,
  Bool,
}
use go_nmea_client.Nmea.{RawMessage}
use go_nmea_client.Actisense.RawAscii.{hex_decode, digit}
use go_nmea_client.Text.{Bytes, split, concat, parse_uint}
use go_nmea_client.Text.Decimal.{parse_uint_fits}
use go_nmea_client.Canboat.Text.{
  unmarshal_string, unmarshal_parts, wrapped, some_time, Error, bad_length, bad_priority, bad_pgn,
  bad_source, bad_destination, bad_data, length_mismatch, few_components,
}

wrapped-ok :
    {E A : Type 0} (name : E → Error) (r : Result E A) (a : A) → wrapped name r ≡ ok a → r ≡ ok a
unfolding wrapped
wrapped-ok name (ok b) a e = cc
wrapped-ok name (err x) a e = absurd (cc)
wrapped-ok name panic a e = absurd (cc)

passed :
    {A : Type 0} (test : Bool) (e : Error) (next : Result Error A) (a : A)
    → (fail_if test e >> next) ≡ ok a
    → (test ≡ false) × (next ≡ ok a)
passed true e next a h = absurd (cc)
passed false e next a h = (refl, h)

-- Two characters for each byte.
length-hex_decode : (src bytes : List ℕ) → hex_decode src ≡ ok bytes → length src ≡ 2 * length bytes
unfolding hex_decode
length-hex_decode [] bytes e = ground arith
length-hex_decode (p ∷ []) bytes e = let (h, _, e') = >>=-eq-ok (digit p) _ e in absurd (cc)
length-hex_decode (p ∷ q ∷ src) bytes e =
    let (high, e1, r1) = >>=-eq-ok (digit p) _ e in
    let (low, e2, r2) = >>=-eq-ok (digit q) _ r1 in
    let (rest, e3, r3) = >>=-eq-ok (hex_decode src) _ r2 in
    ground (arith, length-hex_decode src rest e3, r3)

-- What a line says of its message.
pub record IsAccepted (parse_time : Bytes → Option ℕ) (parts : List Bytes) (msg : RawMessage)
    : Type 0 where
  pub parts_counted : parse_uint 16 (get_or parts 5 []) ≡ ok (length parts - 6)
  pub has_time : parse_time (get_or parts 0 []) ≡ some msg.time
  pub priority_fits : msg.header.priority < 2 ^ 8
  pub pgn_fits : msg.header.pgn < 2 ^ 32
  pub source_fits : msg.header.source < 2 ^ 8
  pub destination_fits : msg.header.destination < 2 ^ 8
  pub two_digits : length (concat (drop 6 parts)) ≡ 2 * length msg.bytes

some_time-ok : (o : Option ℕ) (t : ℕ) → some_time o ≡ ok t → o ≡ some t
unfolding some_time
some_time-ok none t e = absurd (cc)
some_time-ok (some x) t e = cc

count_eq : (n d : ℕ) → not (n == d) ≡ false → d ≡ n
count_eq n d h = ground arith

unmarshal_parts-IsAccepted :
    (parse_time : Bytes → Option ℕ) (parts : List Bytes) (msg : RawMessage)
    → unmarshal_parts parse_time parts ≡ ok msg
    → IsAccepted parse_time parts msg
unfolding unmarshal_parts
unmarshal_parts-IsAccepted parse_time parts msg e =
    let (d, e0, r0) = >>=-eq-ok (wrapped bad_length (parse_uint 16 (get_or parts 5 []))) _ e in
    let (same, r1) = passed (not (length parts - 6 == d)) length_mismatch _ msg r0 in
    let (t, e2, r2) = >>=-eq-ok (some_time (parse_time (get_or parts 0 []))) _ r1 in
    let (p, e3, r3) = >>=-eq-ok (wrapped bad_priority (parse_uint 8 (get_or parts 1 []))) _ r2 in
    let (g, e4, r4) = >>=-eq-ok (wrapped bad_pgn (parse_uint 32 (get_or parts 2 []))) _ r3 in
    let (s, e5, r5) = >>=-eq-ok (wrapped bad_source (parse_uint 8 (get_or parts 3 []))) _ r4 in
    let (x, e6, r6) = >>=-eq-ok (wrapped bad_destination (parse_uint 8 (get_or parts 4 []))) _ r5 in
    let (b, e7, r7) = >>=-eq-ok (wrapped bad_data (hex_decode (concat (drop 6 parts)))) _ r6 in
    let made : record {
      time = t;
      header = record { pgn = g; priority = p; source = s; destination = x };
      bytes = b;
    }
        ≡ msg =
      cc in
    record {
      parts_counted = wrapped-ok bad_length _ d e0 ∙ ap ok (count_eq (length parts - 6) d same);
      has_time = some_time-ok _ t e2 ∙ ap (λ (m : RawMessage). some m.time) made;
      priority_fits = omega (
        arith,
        ap (λ (m : RawMessage). m.header.priority) made,
        parse_uint_fits 8 _ p (wrapped-ok bad_priority _ p e3),
      );
      pgn_fits = omega (
        arith,
        ap (λ (m : RawMessage). m.header.pgn) made,
        parse_uint_fits 32 _ g (wrapped-ok bad_pgn _ g e4),
      );
      source_fits = omega (
        arith,
        ap (λ (m : RawMessage). m.header.source) made,
        parse_uint_fits 8 _ s (wrapped-ok bad_source _ s e5),
      );
      destination_fits = omega (
        arith,
        ap (λ (m : RawMessage). m.header.destination) made,
        parse_uint_fits 8 _ x (wrapped-ok bad_destination _ x e6),
      );
      two_digits = omega (
        arith,
        ap (λ (m : RawMessage). length m.bytes) made,
        length-hex_decode _ b (wrapped-ok bad_data _ b e7),
      );
    }

-- A line that is accepted has a time, at least one part of data, as many parts of data as its length
-- says, and two digits for each byte of the message; the fields of the message fit their types.
pub unmarshal_string-IsAccepted :
    (parse_time : Bytes → Option ℕ) (raw : Bytes) (msg : RawMessage)
    → unmarshal_string parse_time raw ≡ ok msg
    → (7 ≤ length (split b',' raw)) × IsAccepted parse_time (split b',' raw) msg
unfolding unmarshal_string
unmarshal_string-IsAccepted parse_time raw msg e =
    let (enough, r) = passed (ltb (length (split b',' raw)) 7) few_components _ msg e in
    (ground (arith, enough), unmarshal_parts-IsAccepted parse_time (split b',' raw) msg r)
