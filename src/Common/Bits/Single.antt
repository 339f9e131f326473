-- ===== src/Common/Bits/Single.antt =====
-- The bits of a number one at a time: how `&` and `|` with `1 << n` read and set one.
use Prim.Native.Nat.{
  ℕ, zero, suc, ◌+◌, ◌-◌, ◌*◌, ◌/◌, ◌%◌, ◌^◌, ◌≤◌, ◌<◌, bit_and, bit_or, max, min,
}
use go_nmea_client.Common.Bits.Step.{bit_or_step, bit_and_step}
use go_nmea_client.Common.Bits.Fields.{bit_and-zero}
use go_nmea_client.Common.Tests.{◌==◌, ltb, if◌then◌else◌}
use mathlib.Core.Path.{◌≡◌, refl, sym, ap, ap₂, ◌∙◌}
use native.Mathlib.Nat.{
  pow-suc, one-le-pow, div-one, zero-add, mul_comm, suc-add, div-div-eq-div-mul,
}
use native.Mathlib.Omega.{arith}

-- Bit `k` of `a`, as 0 or 1.
unfoldable pub bit : ℕ → ℕ → ℕ
bit a zero = a % 2
bit a (suc k) = bit (a / 2) k

pub bit-le-one : (a k : ℕ) → bit a k ≤ 1
unfolding bit
bit-le-one a zero = omega arith
bit-le-one a (suc k) = bit-le-one (a / 2) k

pub bit-zero : (k : ℕ) → bit 0 k ≡ 0
unfolding bit
bit-zero zero = refl
bit-zero (suc k) = bit-zero k

pub bit-bit_or : (a b k : ℕ) → bit (bit_or a b) k ≡ max (bit a k) (bit b k)
unfolding bit
bit-bit_or a b zero = omega (arith, bit_or_step a b)
bit-bit_or a b (suc k) =
    let half : bit_or a b / 2 ≡ bit_or (a / 2) (b / 2) = omega (arith, bit_or_step a b) in
    rw half (bit-bit_or (a / 2) (b / 2) k)

pub bit-pow : (n k : ℕ) → bit (2 ^ n) k ≡ (if n == k then 1 else 0)
unfolding bit
bit-pow zero zero = refl
bit-pow zero (suc k) = ground (arith, bit-zero k)
bit-pow (suc n) zero = ground (arith, pow-suc 2 n)
bit-pow (suc n) (suc k) =
    let half : 2 ^ suc n / 2 ≡ 2 ^ n = omega (arith, pow-suc 2 n) in
    rw half (ground (arith, bit-pow n k))

-- `a & (1 << n)` is bit `n` in its place.
pub bit_and-pow : (a n : ℕ) → bit_and a (2 ^ n) ≡ bit a n * 2 ^ n
unfolding bit
bit_and-pow a zero = omega (arith, bit_and_step a 1, bit_and-zero (a / 2))
bit_and-pow a (suc n) =
    let half : 2 ^ suc n / 2 ≡ 2 ^ n = omega (arith, pow-suc 2 n) in
    omega (
      arith,
      bit_and_step a (2 ^ suc n),
      ap (λ (t : ℕ). bit_and (a / 2) t) half,
      bit_and-pow (a / 2) n,
      pow-suc 2 n,
      ap (λ (t : ℕ). bit (a / 2) n * t) (pow-suc 2 n),
    )

pub bit-low_ones : (n k : ℕ) → bit (2 ^ n - 1) k ≡ (if ltb k n then 1 else 0)
unfolding bit
bit-low_ones zero k = ground (arith, bit-zero k)
bit-low_ones (suc n) zero = ground (arith, pow-suc 2 n, one-le-pow n 2)
bit-low_ones (suc n) (suc k) =
    let half : (2 ^ suc n - 1) / 2 ≡ 2 ^ n - 1 = omega (arith, pow-suc 2 n, one-le-pow n 2) in
    rw half (ground (arith, bit-low_ones n k))

-- Numbers of `w` bits that agree on each bit are equal.
pub eq_of_bits : (w a b : ℕ) → a < 2 ^ w → b < 2 ^ w → ((k : ℕ) → k < w → bit a k ≡ bit b k) → a ≡ b
unfolding bit
eq_of_bits zero a b p q h = omega arith
eq_of_bits (suc w) a b p q h = omega (
  arith,
  h 0 (omega arith),
  eq_of_bits w (a / 2) (b / 2) (omega (arith, pow-suc 2 w)) (omega (arith, pow-suc 2 w))
      (λ k l. h (suc k) (omega arith)),
)

-- `a | b` stays within the width of its operands.
pub bit_or-lt : (w a b : ℕ) → a < 2 ^ w → b < 2 ^ w → bit_or a b < 2 ^ w
bit_or-lt zero a b p q =
    let ea : a ≡ 0 = omega arith in let eb : b ≡ 0 = omega arith in rw (ea, eb) (omega arith)
bit_or-lt (suc w) a b p q = omega (
  arith,
  bit_or_step a b,
  pow-suc 2 w,
  bit_or-lt w (a / 2) (b / 2) (omega (arith, pow-suc 2 w)) (omega (arith, pow-suc 2 w)),
)

pub bit-bit_and : (a b k : ℕ) → bit (bit_and a b) k ≡ min (bit a k) (bit b k)
unfolding bit
bit-bit_and a b zero = omega (arith, bit_and_step a b)
bit-bit_and a b (suc k) =
    let half : bit_and a b / 2 ≡ bit_and (a / 2) (b / 2) = omega (arith, bit_and_step a b) in
    rw half (bit-bit_and (a / 2) (b / 2) k)

next_bit : (a k : ℕ) → bit (a / 2) k ≡ bit a (suc k)
unfolding bit
next_bit a k = refl

halved : (a n : ℕ) → a / 2 ^ suc n ≡ a / 2 / 2 ^ n
halved a n =
    ap (λ t. a / t) (pow-suc 2 n ∙ mul_comm (2 ^ n) 2) ∙ sym (div-div-eq-div-mul a 2 (2 ^ n))

-- A shift to the right moves the bits down.
pub bit-shift : (a n k : ℕ) → bit (a / 2 ^ n) k ≡ bit a (n + k)
bit-shift a zero k = ap₂ bit (div-one a) (sym (zero-add k))
bit-shift a (suc n) k =
    ap (λ t. bit t k) (halved a n)
    ∙ bit-shift (a / 2) n k
    ∙ next_bit a (n + k)
    ∙ ap (bit a) (sym (suc-add n k))
