-- ===== src/RawData/Aligned.antt =====
-- `DecodeBytes` of fieldvalue.go for fields of whole bytes.
use go_nmea_client.Common.{
  ℕ, zero, suc, ◌+◌, ◌-◌, ◌*◌, ◌/◌, ◌%◌, ◌≤◌, ◌<◌, ◌≡◌, refl, ap, List, [], ◌∷◌, true, false, arith,
  ltb, leb, ◌==◌, if◌then◌else◌, length, get_or, replicate, take, drop, overwrite, ok, err, u16,
  length-replicate, length-take, length-drop, overwrite-full, Bool-cases, inl, inr, ◌>>=◌,
}
use go_nmea_client.RawData.{out_of_bounds, at, slice, put, mask_last, extract, decode_bytes}

one_byte : (raw : List ℕ) (o : ℕ) → o < length raw → take 1 (drop o raw) ≡ get_or raw o 0 ∷ []
one_byte [] o h = absurd (omega arith)
one_byte (b ∷ raw) zero h = refl
one_byte (b ∷ raw) (suc o) h = one_byte raw o (omega arith)

extract_one :
    (raw : List ℕ) (o : ℕ)
    → o < length raw
    → o * 8 + 8 < 65536
    → extract raw (o * 8) 8 o ≡ ok (take 1 (drop o raw))
unfolding extract at put
extract_one raw o h small =
    let e1 : o * 8 / 8 == o ≡ true = ground arith in
    let e2 : o * 8 / 8 ≡ o = ground arith in
    let e3 : o * 8 % 8 ≡ 0 = omega arith in
    let e4 : ltb o (length raw) ≡ true = ground arith in
    let e5 : get_or raw o 0 / 1 ≡ get_or raw o 0 = omega arith in
    rw (one_byte raw o h, e1, e2, e3, e4, e5) refl

extract_many :
    (raw : List ℕ) (o n : ℕ)
    → 0 < n
    → o + suc n ≤ length raw
    → o * 8 + suc n * 8 < 65536
    → extract raw (o * 8) (suc n * 8) (o + n) ≡ ok (take (suc n) (drop o raw))
unfolding extract slice mask_last
extract_many raw o n pos h small =
    let e1 : (o * 8 / 8) == (o + n) ≡ false = ground arith in
    let e2 : o * 8 / 8 ≡ o = ground arith in
    let e3 : o * 8 % 8 ≡ 0 = omega arith in
    let e4 : u16 (o + n + 1) ≡ o + n + 1 = omega arith in
    let e5 : leb o (o + n + 1) ≡ true = ground arith in
    let e6 : leb (o + n + 1) (length raw) ≡ true = ground arith in
    let e7 : o + n + 1 - o ≡ suc n = omega arith in
    let e8 : u16 (suc n * 8 + 7) / 8 ≡ suc n = omega arith in
    let e9 : suc n * 8 % 8 ≡ 0 = omega arith in
    let full : overwrite (replicate (suc n) 0) (take (suc n) (drop o raw))
        ≡ take (suc n) (drop o raw) =
      overwrite-full (replicate (suc n) 0) (take (suc n) (drop o raw)) (
        omega (
          arith,
          length-replicate (suc n) zero,
          length-take (suc n) (drop o raw),
          length-drop o raw,
        )) in
    rw (e1, e2, e3, e4, e5, e6, e7, e8, e9, full) refl

extract_aligned :
    (raw : List ℕ) (o n : ℕ)
    → o + suc n ≤ length raw
    → o * 8 + suc n * 8 < 65536
    → extract raw (o * 8) (suc n * 8) (o + n) ≡ ok (take (suc n) (drop o raw))
extract_aligned raw o zero h small =
    let e : o + 0 ≡ o = omega arith in rw e (extract_one raw o (omega arith) (omega arith))
extract_aligned raw o (suc n) h small = extract_many raw o (suc n) (omega arith) h small

-- A field of `n` whole bytes that starts at byte `o` and lies within the message is those bytes; one
-- that ends after the message is an error.
pub decode_bytes_aligned :
    (raw : List ℕ) (o n : ℕ)
    → 0 < n
    → o * 8 + n * 8 < 65536
    → decode_bytes raw (o * 8) (n * 8) false
      ≡ (if leb (o + n) (length raw) then ok (take n (drop o raw), n * 8) else err out_of_bounds)
unfolding decode_bytes
decode_bytes_aligned raw o zero pos small = absurd (omega arith)
decode_bytes_aligned raw o (suc n) pos small =
    let e1 : u16 (o * 8 + suc n * 8 + 65535) / 8 ≡ o + n = omega arith in
    elim (Bool-cases (leb (o + suc n) (length raw))) [
      | inl y ↦
          let e2 : ltb (o + n) (length raw) ≡ true = ground arith in
          rw (y, e1, e2)
            (ap (λ m. m >>= λ r. ok (r, suc n * 8)) (extract_aligned raw o n (ground arith) small))
      | inr y ↦ let e2 : ltb (o + n) (length raw) ≡ false = ground arith in rw (y, e1, e2) refl
    ]
