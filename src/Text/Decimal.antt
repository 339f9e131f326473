-- ===== src/Text/Decimal.antt =====
-- Decimal numbers of package `strconv`: printed and read again, and the values that are read.
use native.Mathlib.Nat.{pow-suc, pow-le-pow_right, one-le-pow}
use go_nmea_client.Common.{
  ℕ, zero, suc, ◌+◌, ◌-◌, ◌*◌, ◌/◌, ◌%◌, ◌^◌, ◌≤◌, ◌<◌, ◌≡◌, ◌≢◌, refl, ◌∙◌, [], ◌∷◌, true, arith,
  inl, inr, ok, ltb, All, Bool-cases,
}
use go_nmea_client.Text.{Bytes, is_digit, scan_uint, parse_uint, format_digits, format_uint}

-- The last digit after the ones before it.
scan_last :
    (max n : ℕ) (out : Bytes)
    → n ≤ max
    → scan_uint max ((b'0' + n % 10) ∷ out) (n / 10) ≡ scan_uint max out n
unfolding scan_uint is_digit
scan_last max n out h = ground arith

scan_digits :
    (max rounds n : ℕ) (out : Bytes)
    → n < 10 ^ rounds
    → n ≤ max
    → 0 < rounds
    → scan_uint max (format_digits rounds n out) 0 ≡ scan_uint max out n
unfolding format_digits
scan_digits max zero n out h small pos = absurd (omega arith)
scan_digits max (suc zero) n out h small pos = ground (arith, scan_last max n out small)
scan_digits max (suc (suc rounds)) n out h small pos = elim (Bool-cases (ltb n 10)) [
  | inl y ↦ rw y (ground (arith, scan_last max n out small))
  | inr big ↦ rw big (
      scan_digits max (suc rounds) (n / 10) ((b'0' + n % 10) ∷ out)
        (omega (arith, pow-suc 10 (suc rounds))) (omega arith) (omega arith)
      ∙ scan_last max n out small)
]

parse_uint-cons : (bits : ℕ) (s : Bytes) → s ≢ [] → parse_uint bits s ≡ scan_uint (2 ^ bits - 1) s 0
unfolding parse_uint
parse_uint-cons bits [] h = absurd (h refl)
parse_uint-cons bits (c ∷ s) h = refl

format_digits-ne-nil : (rounds n : ℕ) (out : Bytes) → out ≢ [] → format_digits rounds n out ≢ []
unfolding format_digits
format_digits-ne-nil zero n out h = h
format_digits-ne-nil (suc rounds) n out h = elim (Bool-cases (ltb n 10)) [
  | inl y ↦ rw y (λ e. cc)
  | inr big ↦ rw big (format_digits-ne-nil rounds (n / 10) ((b'0' + n % 10) ∷ out) (λ e. cc))
]

pub format_uint-ne-nil : (n : ℕ) → format_uint n ≢ []
unfolding format_uint format_digits
format_uint-ne-nil n = elim (Bool-cases (ltb n 10)) [
  | inl y ↦ rw y (λ e. cc)
  | inr big ↦ rw big (format_digits-ne-nil 19 (n / 10) ((b'0' + n % 10) ∷ []) (λ e. cc))
]

below_u64 : (bits n : ℕ) → bits ≤ 64 → n < 2 ^ bits → n < 10 ^ 20
below_u64 bits n h small =
    let power : 2 ^ bits ≤ 2 ^ 64 = pow-le-pow_right (omega arith) h in omega (arith, power)

-- Every number of the width is read back from its decimal print.
pub parse_uint-format_uint :
    (bits n : ℕ) → bits ≤ 64 → n < 2 ^ bits → parse_uint bits (format_uint n) ≡ ok n
unfolding format_uint scan_uint
parse_uint-format_uint bits n h small =
    rw (parse_uint-cons bits (format_digits 20 n []) (format_uint-ne-nil n))
      (scan_digits (2 ^ bits - 1) 20 n [] (below_u64 bits n h small) (omega arith) (omega arith))

-- A character of a decimal number.
abbrev pub IsDigit : ℕ → Type 0
IsDigit c = is_digit c ≡ true

format_digits-IsDigit :
    (rounds n : ℕ) (out : Bytes) → All IsDigit out → All IsDigit (format_digits rounds n out)
unfolding format_digits is_digit
format_digits-IsDigit zero n out h = h
format_digits-IsDigit (suc rounds) n out h =
    let digit : is_digit (b'0' + n % 10) ≡ true = ground arith in
    elim (Bool-cases (ltb n 10)) [
      | inl y ↦ rw y (digit, h)
      | inr big ↦ rw big (format_digits-IsDigit rounds (n / 10) ((b'0' + n % 10) ∷ out) (digit, h))
    ]

pub format_uint-IsDigit : (n : ℕ) → All IsDigit (format_uint n)
unfolding format_uint
format_uint-IsDigit n = format_digits-IsDigit 20 n [] tt

scan_uint_bound : (max : ℕ) (s : Bytes) (n r : ℕ) → n ≤ max → scan_uint max s n ≡ ok r → r ≤ max
unfolding scan_uint
scan_uint_bound max [] n r h e = ground arith
scan_uint_bound max (c ∷ s) n r h e = ground (arith, scan_uint_bound max s (n * 10 + (c - b'0')) r)

-- A number that is read fits its width.
pub parse_uint_fits : (bits : ℕ) (s : Bytes) (r : ℕ) → parse_uint bits s ≡ ok r → r < 2 ^ bits
unfolding parse_uint
parse_uint_fits bits [] r e = absurd (cc)
parse_uint_fits bits (c ∷ s) r e = omega (
  arith,
  one-le-pow bits 2 (omega arith),
  scan_uint_bound (2 ^ bits - 1) (c ∷ s) 0 r (omega arith) e,
)
