-- ===== src/Actisense/RawAscii/Hex.antt =====
-- actisense/rawasciidevice.go: hexadecimal text, written and read again.
use mathlib.Core.List.{append-nil, append_assoc}
use native.Mathlib.Nat.{pow-suc}
use go_nmea_client.Common.{
  ℕ, zero, suc, ◌+◌, ◌-◌, ◌*◌, ◌/◌, ◌%◌, ◌^◌, ◌≤◌, ◌<◌, ◌≡◌, refl, ap, sym, ◌∙◌, List, [], ◌∷◌,
  ◌++◌, true, false, ok, err, arith, All, IsByte, length, length-append, replicate, leb, ◌==◌,
  ==→eq, if◌then◌else◌, Bool-cases, inl, inr,
}
use go_nmea_client.Actisense.RawAscii.{
  odd_length, from_hex, digit, hex_decode, from_big_endian, padded, decode_hex_to_int, hex_digit,
  hex_digits,
}

digit-hex_digit : (v : ℕ) → v < 16 → digit (hex_digit v) ≡ ok v
unfolding digit from_hex hex_digit
digit-hex_digit v h = ground arith

hex_decode_pair :
    (a b : ℕ) (src bytes : List ℕ)
    → a < 16
    → b < 16
    → hex_decode src ≡ ok bytes
    → hex_decode (hex_digit a ∷ hex_digit b ∷ src) ≡ ok ((a * 16 + b) ∷ bytes)
unfolding hex_decode
hex_decode_pair a b src bytes ha hb h = rw (digit-hex_digit a ha, digit-hex_digit b hb, h) refl

-- The two digits that are written for each byte.
unfoldable pub byte_digits : List ℕ → List ℕ
byte_digits [] = []
byte_digits (v ∷ bytes) = hex_digit (v / 16) ∷ hex_digit (v % 16) ∷ byte_digits bytes

-- The digits of the bytes of a frame decode to the bytes.
pub hex_decode-byte_digits :
    (bytes : List ℕ) → All IsByte bytes → hex_decode (byte_digits bytes) ≡ ok bytes
unfolding byte_digits hex_decode
hex_decode-byte_digits [] h = refl
hex_decode-byte_digits (v ∷ bytes) h =
    hex_decode_pair (v / 16) (v % 16) (byte_digits bytes) bytes (omega (arith, h)) (omega arith)
      (hex_decode-byte_digits bytes h.1)
    ∙ ap (λ x. ok (x ∷ bytes)) (omega arith)

-- One digit more has no partner.
hex_decode_odd :
    (bytes : List ℕ) (v : ℕ)
    → All IsByte bytes
    → v < 16
    → hex_decode (byte_digits bytes ++ (hex_digit v ∷ [])) ≡ err odd_length
unfolding byte_digits hex_decode
hex_decode_odd [] v h small = rw (digit-hex_digit v small) refl
hex_decode_odd (b ∷ bytes) v h small =
    rw
      (
        digit-hex_digit (b / 16) (omega (arith, h)),
        digit-hex_digit (b % 16) (omega arith),
        hex_decode_odd bytes v h.1 small,
      )
      refl

-- The last bytes of a number, the highest first.
abbrev big_endian : ℕ → ℕ → List ℕ
big_endian zero n = []
big_endian (suc d) n = big_endian d (n / 256) ++ (n % 256 ∷ [])

big_endian-IsByte : (d n : ℕ) → All IsByte (big_endian d n)
big_endian-IsByte zero n = tt
big_endian-IsByte (suc d) n = snoc (big_endian d (n / 256)) (big_endian-IsByte d (n / 256))
  where
    snoc : (xs : List ℕ) → All IsByte xs → All IsByte (xs ++ (n % 256 ∷ []))
    snoc [] h = (omega arith, tt)
    snoc (x ∷ xs) h = (h.0, snoc xs h.1)

byte_digits-snoc :
    (xs : List ℕ) (v : ℕ)
    → byte_digits (xs ++ (v ∷ []))
      ≡ byte_digits xs ++ (hex_digit (v / 16) ∷ hex_digit (v % 16) ∷ [])
unfolding byte_digits
byte_digits-snoc [] v = refl
byte_digits-snoc (x ∷ xs) v = rw (byte_digits-snoc xs v) refl

from_big_endian-snoc :
    (xs : List ℕ) (v acc : ℕ)
    → from_big_endian (xs ++ (v ∷ [])) acc ≡ from_big_endian xs acc * 256 + v
unfolding from_big_endian
from_big_endian-snoc [] v acc = refl
from_big_endian-snoc (x ∷ xs) v acc = from_big_endian-snoc xs v (acc * 256 + x)

double-suc : (d : ℕ) → suc d * 2 ≡ suc (suc (d * 2))
double-suc d = omega arith

from_big_endian_lem : (d n : ℕ) → n < 16 ^ (d * 2) → from_big_endian (big_endian d n) 0 ≡ n
from_big_endian_lem zero n h = unfold from_big_endian in omega (arith, h)
from_big_endian_lem (suc d) n h =
    let power : 16 ^ (suc d * 2) ≡ 256 * 16 ^ (d * 2) = power_two d in
    from_big_endian-snoc (big_endian d (n / 256)) (n % 256) 0
    ∙ ap (λ (x : ℕ). x * 256 + n % 256) (from_big_endian_lem d (n / 256) (omega (arith, h, power)))
    ∙ omega arith
  where
    power_two : (d : ℕ) → 16 ^ (suc d * 2) ≡ 256 * 16 ^ (d * 2)
    power_two d =
        ap (λ (k : ℕ). 16 ^ k) (double-suc d)
        ∙ omega (arith, pow-suc 16 (suc (d * 2)), pow-suc 16 (d * 2))

hex_digits-big_endian : (d n : ℕ) → hex_digits (d * 2) n ≡ byte_digits (big_endian d n)
unfolding hex_digits byte_digits
hex_digits-big_endian zero n = refl
hex_digits-big_endian (suc d) n =
    let high : n / 16 / 16 ≡ n / 256 = omega arith in
    let fourth : n / 16 % 16 ≡ n % 256 / 16 = omega arith in
    let third : n % 16 ≡ n % 256 % 16 = omega arith in
    ap (λ (k : ℕ). hex_digits k n) (double-suc d)
    ∙ append_assoc (hex_digits (d * 2) (n / 16 / 16)) (hex_digit (n / 16 % 16) ∷ [])
        (hex_digit (n % 16) ∷ [])
    ∙ (λ i. hex_digits (d * 2) (high i) ++ (hex_digit (fourth i) ∷ hex_digit (third i) ∷ []))
    ∙ ap (λ (x : List ℕ). x ++ (hex_digit (n % 256 / 16) ∷ hex_digit (n % 256 % 16) ∷ []))
        (hex_digits-big_endian d (n / 256))
    ∙ sym (byte_digits-snoc (big_endian d (n / 256)) (n % 256))

length-hex_digits : (k n : ℕ) → length (hex_digits k n) ≡ k
unfolding hex_digits
length-hex_digits zero n = refl
length-hex_digits (suc k) n =
    length-append (hex_digits k (n / 16)) (hex_digit (n % 16) ∷ [])
    ∙ omega (arith, length-hex_digits k (n / 16))

replicate-snoc :
    (j : ℕ) → ◌≡◌ {A = List ℕ} (replicate j b'0' ++ (b'0' ∷ [])) (b'0' ∷ replicate j b'0')
replicate-snoc zero = refl
replicate-snoc (suc j) = ap (◌∷◌ b'0') (replicate-snoc j)

hex_digits_zero : (j : ℕ) → hex_digits j 0 ≡ replicate j b'0'
unfolding hex_digits hex_digit
hex_digits_zero zero = refl
hex_digits_zero (suc j) =
    ap (λ (x : List ℕ). x ++ (b'0' ∷ [])) (hex_digits_zero j) ∙ replicate-snoc j

-- The digits in front of those of a number that fits are zeros.
hex_digits-add :
    (k j n : ℕ) → n < 16 ^ k → hex_digits (j + k) n ≡ replicate j b'0' ++ hex_digits k n
unfolding hex_digits
hex_digits-add zero j n h =
    let none_left : n ≡ 0 = omega (arith, h) in
    let same : j + 0 ≡ j = omega arith in
    (λ i. hex_digits (same i) (none_left i))
    ∙ hex_digits_zero j
    ∙ sym (append-nil (replicate j b'0'))
hex_digits-add (suc k) j n h =
    let more : j + suc k ≡ suc (j + k) = omega arith in
    ap (λ (m : ℕ). hex_digits m n) more
    ∙ ap (λ (x : List ℕ). x ++ (hex_digit (n % 16) ∷ []))
        (hex_digits-add k j (n / 16) (omega (arith, h, pow-suc 16 k)))
    ∙ append_assoc (replicate j b'0') (hex_digits k (n / 16)) (hex_digit (n % 16) ∷ [])

padded_short :
    (raw : List ℕ) (d : ℕ)
    → length raw + 1 < d * 2
    → padded raw d ≡ ok (replicate (d * 2 - length raw) b'0' ++ raw)
unfolding padded
padded_short raw d h =
    let fewer : ((length raw + 1) / 2 == d) ≡ false = ground (arith, h) in
    let room : leb (length raw) (d * 2) ≡ true = ground (arith, h) in rw (fewer, room) refl

padded_full : (raw : List ℕ) (d : ℕ) → (length raw + 1) / 2 ≡ d → padded raw d ≡ ok raw
unfolding padded
padded_full raw d h =
    let as_many : ((length raw + 1) / 2 == d) ≡ true = ground (arith, h) in rw as_many refl

decoded :
    (raw digits : List ℕ) (d n : ℕ)
    → padded raw d ≡ ok digits
    → digits ≡ hex_digits (d * 2) n
    → n < 16 ^ (d * 2)
    → decode_hex_to_int raw d ≡ ok n
unfolding decode_hex_to_int
decoded raw digits d n h e small =
    let bytes : hex_decode digits ≡ ok (big_endian d n) =
      ap hex_decode (e ∙ hex_digits-big_endian d n)
      ∙ hex_decode-byte_digits (big_endian d n) (big_endian-IsByte d n) in
    rw (h, bytes) (ap ok (from_big_endian_lem d n small))

decoded_odd : (e n : ℕ) → decode_hex_to_int (hex_digits (suc (e * 2)) n) (suc e) ≡ err odd_length
unfolding decode_hex_to_int hex_digits
decoded_odd e n =
    let full =
      padded_full (hex_digits (suc (e * 2)) n) (suc e)
        (omega (arith, length-hex_digits (suc (e * 2)) n)) in
    let odd : hex_decode (hex_digits (suc (e * 2)) n) ≡ err odd_length =
      ap (λ (x : List ℕ). hex_decode (x ++ (hex_digit (n % 16) ∷ [])))
        (hex_digits-big_endian e (n / 16))
      ∙ hex_decode_odd (big_endian e (n / 16)) (n % 16) (big_endian-IsByte e (n / 16))
          (omega arith) in
    rw (full, odd) refl

fits_more : (j k n : ℕ) → n < 16 ^ k → n < 16 ^ (j + k)
fits_more zero k n h =
    let same : 0 + k ≡ k = omega arith in omega (arith, h, ap (λ (m : ℕ). 16 ^ m) same)
fits_more (suc j) k n h =
    let more : suc j + k ≡ suc (j + k) = omega arith in
    omega (arith, fits_more j k n h, ap (λ (m : ℕ). 16 ^ m) more, pow-suc 16 (j + k))

-- `decodeHexToInt` reads any number from any digits of it that suffice and are at most as many as the
-- type of `d` bytes has: missing digits are zeros in front. Only when exactly one is missing, it fails with
-- an odd length instead.
pub decode_hex_to_int-hex_digits :
    (k d n : ℕ)
    → k ≤ d * 2
    → n < 16 ^ k
    → decode_hex_to_int (hex_digits k n) d ≡ (if k + 1 == d * 2 then err odd_length else ok n)
decode_hex_to_int-hex_digits k zero n few h =
    let none_there : k ≡ 0 = omega (arith, few) in
    rw none_there (
      decoded (hex_digits 0 n) (hex_digits 0 n) 0 n
        (padded_full (hex_digits 0 n) 0 (omega (arith, length-hex_digits 0 n))) refl
        (omega (arith, h, ap (λ (m : ℕ). 16 ^ m) none_there)))
decode_hex_to_int-hex_digits k (suc e) n few h = elim (Bool-cases (k + 1 == suc e * 2)) [
  | inl one ↦
      let odd : k ≡ suc (e * 2) = omega (arith, ==→eq (k + 1) (suc e * 2) one) in
      rw one (ap (λ (m : ℕ). decode_hex_to_int (hex_digits m n) (suc e)) odd ∙ decoded_odd e n)
  | inr more ↦
      let all : j + k ≡ suc e * 2 = omega (arith, few) in
      let fits : n < 16 ^ (suc e * 2) =
        omega (arith, fits_more j k n h, ap (λ (m : ℕ). 16 ^ m) all) in
      let count = length-hex_digits k n in
      rw more (elim (Bool-cases (k == suc e * 2)) [
        | inl full ↦
            let same : k ≡ suc e * 2 = ==→eq k (suc e * 2) full in
            decoded (hex_digits k n) (hex_digits k n) (suc e) n
              (padded_full (hex_digits k n) (suc e) (omega (arith, count, same)))
              (ap (λ (m : ℕ). hex_digits m n) same) fits
        | inr short ↦
            decoded (hex_digits k n) _ (suc e) n
              (padded_short (hex_digits k n) (suc e) (ground (arith, count, few, more, short)))
              (ap (λ (m : ℕ). replicate (suc e * 2 - m) b'0' ++ hex_digits k n) count
                ∙ sym (hex_digits-add k j n h)
                ∙ ap (λ (m : ℕ). hex_digits m n) all)
              fits
      ])
]
  where
    j : ℕ
    j = suc e * 2 - k
