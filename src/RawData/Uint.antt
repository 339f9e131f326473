-- ===== src/RawData/Uint.antt =====
-- `decodeVariableInt` of fieldvalue.go, without a sign: what it makes of every field of a message.
use go_nmea_client.Common.{
  ℕ, zero, suc, ◌+◌, ◌-◌, ◌*◌, ◌/◌, ◌%◌, ◌^◌, ◌≤◌, ◌<◌, ◌≡◌, refl, ap, ◌∙◌, List, [], ◌∷◌, true,
  false, arith, ltb, leb, if◌then◌else◌, length, get_or, take, drop, replicate, overwrite, All,
  IsByte, ok, err, ◌>>◌, bit_and, u16, u64, ◌>>>◌, ◌==◌, Bool-cases, inl, inr, length-take,
  length-drop,
}
use go_nmea_client.Common.Bits.{
  bit, bit-zero, bit-le-one, bit-low_ones, eq_of_bits, bit-bit_and, bit-shift, bit_and_mask,
}
use native.Mathlib.Nat.{pow-suc, pow-le-pow_right, div-le_self, one-le-pow, mod-lt}
use go_nmea_client.RawData.{
  out_of_bounds, no_data, out_of_range, reserved, little_endian, special, decode_variable_int,
  decode_variable_uint, slice,
}
use go_nmea_client.FastPacket.Blocks.{get_or-overwrite}
use go_nmea_client.RawData.Bits.{message_bit, bit-little_endian}

-- The number in the `n` bits from `offset` on, the lowest bit first.
unfoldable pub field : List ℕ → ℕ → ℕ → ℕ
field raw offset zero = 0
field raw offset (suc n) = message_bit raw offset + 2 * field raw (suc offset) n

bit-message_bit : (raw : List ℕ) (i : ℕ) → message_bit raw i ≤ 1
bit-message_bit raw i = bit-le-one (get_or raw (i / 8) 0) (i % 8)

field-lt : (raw : List ℕ) (offset n : ℕ) → field raw offset n < 2 ^ n
unfolding field
field-lt raw offset zero = omega arith
field-lt raw offset (suc n) =
    omega (arith, pow-suc 2 n, field-lt raw (suc offset) n, bit-message_bit raw offset)

bit-field :
    (raw : List ℕ) (offset n k : ℕ)
    → bit (field raw offset n) k ≡ (if ltb k n then message_bit raw (offset + k) else 0)
unfolding bit field
bit-field raw offset zero k = ground (arith, bit-zero k)
bit-field raw offset (suc n) zero =
    let e : offset + 0 ≡ offset = omega arith in rw e (ground (arith, bit-message_bit raw offset))
bit-field raw offset (suc n) (suc k) =
    let half : (message_bit raw offset + 2 * field raw (suc offset) n) / 2
        ≡ field raw (suc offset) n =
      omega (arith, bit-message_bit raw offset) in
    let e : offset + suc k ≡ suc offset + k = omega arith in
    rw (half, e) (ground (arith, bit-field raw (suc offset) n k))

two_pow-le : (n m : ℕ) → n ≤ m → 2 ^ n ≤ 2 ^ m
two_pow-le n m h = pow-le-pow_right (omega arith) h

low_mask : (n : ℕ) → n ≤ 64 → (2 ^ 64 - 1) >>> (64 - n) ≡ 2 ^ n - 1
low_mask n h =
    eq_of_bits 64 _ _ (omega (arith, div-le_self (2 ^ 64 - 1) (2 ^ (64 - n))))
      (omega (arith, two_pow-le n 64 h))
      (λ k l.
        ground (
          arith,
          bit-shift (2 ^ 64 - 1) (64 - n) k,
          bit-low_ones 64 (64 - n + k),
          bit-low_ones n k,
        ))

field_bytes : List ℕ → ℕ → ℕ → List ℕ
field_bytes raw start n = overwrite (replicate 8 0) (take n (drop start raw))

get_or-slice :
    (raw : List ℕ) (start n i : ℕ)
    → i < n
    → get_or (take n (drop start raw)) i 0 ≡ get_or raw (start + i) 0
get_or-slice raw start zero i h = absurd (omega arith)
get_or-slice [] zero (suc n) i h = refl
get_or-slice [] (suc start) (suc n) i h = refl
get_or-slice (b ∷ raw) zero (suc n) zero h = refl
get_or-slice (b ∷ raw) zero (suc n) (suc i) h =
    ground (arith, get_or-slice raw zero n i (omega arith))
get_or-slice (b ∷ raw) (suc start) (suc n) i h = ground (arith, get_or-slice raw start (suc n) i h)

get_or-zeros : (n i : ℕ) → get_or (replicate n zero) i zero ≡ zero
get_or-zeros zero i = refl
get_or-zeros (suc n) zero = refl
get_or-zeros (suc n) (suc i) = get_or-zeros n i

get_or-field_bytes :
    (raw : List ℕ) (start n i : ℕ)
    → n ≤ 8
    → start + n ≤ length raw
    → i < 8
    → get_or (field_bytes raw start n) i 0 ≡ (if ltb i n then get_or raw (start + i) 0 else 0)
unfolding field_bytes
get_or-field_bytes raw start n i h l m = ground (
  arith,
  get_or-overwrite (replicate 8 0) (take n (drop start raw)) i,
  length-take n (drop start raw),
  length-drop start raw,
  get_or-slice raw start n i,
  get_or-zeros 8 i,
)

All-zeros : (n : ℕ) → All IsByte (replicate n 0)
All-zeros zero = tt
All-zeros (suc n) = (omega arith, All-zeros n)

All-take : (n : ℕ) (xs : List ℕ) → All IsByte xs → All IsByte (take n xs)
All-take zero xs h = tt
All-take (suc n) [] h = tt
All-take (suc n) (x ∷ xs) (hx, h) = (hx, All-take n xs h)

All-drop : (n : ℕ) (xs : List ℕ) → All IsByte xs → All IsByte (drop n xs)
All-drop zero xs h = h
All-drop (suc n) [] h = tt
All-drop (suc n) (x ∷ xs) (_, h) = All-drop n xs h

All-overwrite :
    (dst src : List ℕ) → All IsByte dst → All IsByte src → All IsByte (overwrite dst src)
All-overwrite [] src h k = tt
All-overwrite (d ∷ dst) [] h k = h
All-overwrite (d ∷ dst) (s ∷ src) (_, h) (hs, k) = (hs, All-overwrite dst src h k)

-- What `decodeVariableInt` reads as a number, before the mask.
bit-field_bytes :
    (raw : List ℕ) (offset n k : ℕ)
    → n ≤ 8
    → offset / 8 + n ≤ length raw
    → All IsByte raw
    → offset % 8 + k < n * 8
    → bit (little_endian (field_bytes raw (offset / 8) n) >>> (offset % 8)) k
      ≡ message_bit raw (offset + k)
unfolding field_bytes
bit-field_bytes raw offset n k h l bytes m =
    let is_bytes : All IsByte (field_bytes raw (offset / 8) n) =
      All-overwrite (replicate 8 0) _ (All-zeros 8)
        (All-take n _ (All-drop (offset / 8) raw bytes)) in
    let e : offset / 8 + (offset % 8 + k) / 8 ≡ (offset + k) / 8 = omega arith in
    let e' : (offset % 8 + k) % 8 ≡ (offset + k) % 8 = omega arith in
    let byte : get_or (field_bytes raw (offset / 8) n) ((offset % 8 + k) / 8) 0
        ≡ get_or raw ((offset + k) / 8) 0 =
      ground (
        arith,
        get_or-field_bytes raw (offset / 8) n ((offset % 8 + k) / 8) h l,
        ap (λ t. get_or raw t 0) e,
      ) in
    bit-shift (little_endian (field_bytes raw (offset / 8) n)) (offset % 8) k
    ∙ bit-little_endian (field_bytes raw (offset / 8) n) (offset % 8 + k) is_bytes
    ∙ ap (λ t. bit t ((offset % 8 + k) % 8)) byte
    ∙ ap (bit (get_or raw ((offset + k) / 8) 0)) e'

-- The masked value is the field.
value_lem :
    (raw : List ℕ) (offset bits n : ℕ)
    → n ≤ 8
    → offset / 8 + n ≤ length raw
    → All IsByte raw
    → bits ≤ 64
    → offset % 8 + bits ≤ n * 8
    → bit_and (little_endian (field_bytes raw (offset / 8) n) >>> (offset % 8)) (2 ^ bits - 1)
      ≡ field raw offset bits
value_lem raw offset bits n h l bytes small m =
    eq_of_bits 64 _ _
      (omega (
        arith,
        bit_and_mask bits (little_endian (field_bytes raw (offset / 8) n) >>> (offset % 8)),
        one-le-pow bits 2,
        mod-lt (little_endian (field_bytes raw (offset / 8) n) >>> (offset % 8)) {m = 2 ^ bits}
            (omega (arith, one-le-pow bits 2)),
        two_pow-le bits 64 small,
      ))
      (omega (arith, field-lt raw offset bits, two_pow-le bits 64 small))
      (λ k _. ground (
        arith,
        bit-bit_and (little_endian (field_bytes raw (offset / 8) n) >>> (offset % 8)) (2 ^ bits - 1)
            k,
        bit-low_ones bits k,
        bit-field raw offset bits k,
        bit-field_bytes raw offset n k h l bytes,
        bit-message_bit raw (offset + k),
        bit-le-one (little_endian (field_bytes raw (offset / 8) n) >>> (offset % 8)) k,
      ))

-- The number of the bits, with the test of the code for special values.
pub decode_variable_uint-special :
    (raw : List ℕ) (offset bits : ℕ)
    → 0 < bits
    → offset % 8 + bits ≤ 64
    → offset + bits ≤ length raw * 8
    → offset + bits + 7 < 65536
    → All IsByte raw
    → decode_variable_uint raw offset bits
      ≡ (special bits (2 ^ bits - 1) (field raw offset bits) >> ok (field raw offset bits))
unfolding decode_variable_uint decode_variable_int slice field_bytes
decode_variable_uint-special raw offset bits pos fits within small bytes =
    let last = (offset + bits + 7) / 8 in
    let n = last - offset / 8 in
    let e1 : ltb 64 bits ≡ false = ground arith in
    let e2 : leb (length raw) (u16 (u16 (offset + bits + 7) / 8 + 65535)) ≡ false = ground arith in
    let e3 : u16 (u16 (u16 (offset + bits + 7) / 8 + 65535) + 1) ≡ last = ground arith in
    let e4 : leb (offset / 8) last ≡ true = ground arith in
    let e5 : leb last (length raw) ≡ true = ground arith in
    let e6 = low_mask bits (omega arith) in
    let e7 =
      value_lem raw offset bits n (omega arith) (omega arith) bytes (omega arith) (omega arith) in
    rw (e1, e2, e3, e4, e5, e6, e7) refl

special_lem :
    (bits v : ℕ)
    → bits ≤ 64
    → (special bits (2 ^ bits - 1) v >> ok v) ≡ (
        if ltb bits 8
        then ok v
        else if v == 2 ^ bits - 1
        then err no_data
        else if v == 2 ^ bits - 2
        then err out_of_range
        else if v == 2 ^ bits - 3
        then err reserved
        else ok v)
unfolding special
special_lem bits v h = elim (Bool-cases (leb 8 bits)) [
  | inr n ↦ let short : ltb bits 8 ≡ true = ground (arith, n) in rw (n, short) refl
  | inl y ↦
      let long : ltb bits 8 ≡ false = ground (arith, y) in
      let some_low : 2 ^ 8 ≤ 2 ^ bits = two_pow-le 8 bits (ground (arith, y)) in
      let small : 2 ^ bits ≤ 2 ^ 64 = two_pow-le bits 64 h in
      let second : u64 (2 ^ bits - 1 + 2 ^ 64 - 1) ≡ 2 ^ bits - 2 =
        omega (arith, some_low, small) in
      let third : u64 (2 ^ bits - 1 + 2 ^ 64 - 2) ≡ 2 ^ bits - 3 = omega (arith, some_low, small) in
      rw (y, long, second, third)
        (elim (Bool-cases (v == 2 ^ bits - 1)) [
          | inl a ↦ rw a refl
          | inr a ↦ rw a (elim (Bool-cases (v == 2 ^ bits - 2)) [
            | inl b ↦ rw b refl
            | inr b ↦
                rw b
                  (elim (Bool-cases (v == 2 ^ bits - 3)) [ inl c ↦ rw c refl | inr c ↦ rw c refl ])
          ])
        ])
]

-- A field of 1 to 64 bits that lies within the message and touches at most eight of its bytes reads as
-- the number made of its bits. Only when it has eight bits or more and that number is the highest, the
-- second or the third highest of its length, the result is an error for it: no data, out of range, reserved.
pub decode_variable_uint_lem :
    (raw : List ℕ) (offset bits : ℕ)
    → 0 < bits
    → offset % 8 + bits ≤ 64
    → offset + bits ≤ length raw * 8
    → offset + bits + 7 < 65536
    → All IsByte raw
    → decode_variable_uint raw offset bits ≡ (
        if ltb bits 8
        then ok (field raw offset bits)
        else if field raw offset bits == 2 ^ bits - 1
        then err no_data
        else if field raw offset bits == 2 ^ bits - 2
        then err out_of_range
        else if field raw offset bits == 2 ^ bits - 3
        then err reserved
        else ok (field raw offset bits))
decode_variable_uint_lem raw offset bits pos fits within small bytes =
    decode_variable_uint-special raw offset bits pos fits within small bytes
    ∙ special_lem bits (field raw offset bits) (omega (arith, fits))

-- A field that ends after the message is an error, whatever it is about.
pub decode_variable_uint_outside :
    (raw : List ℕ) (offset bits : ℕ)
    → bits ≤ 64
    → 0 < bits
    → length raw * 8 < offset + bits
    → offset + bits + 7 < 65536
    → decode_variable_uint raw offset bits ≡ err out_of_bounds
unfolding decode_variable_uint decode_variable_int
decode_variable_uint_outside raw offset bits h pos outside small =
    let e1 : ltb 64 bits ≡ false = ground arith in
    let e2 : leb (length raw) (u16 (u16 (offset + bits + 7) / 8 + 65535)) ≡ true = ground arith in
    rw (e1, e2) refl
