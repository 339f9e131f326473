-- ===== src/Common/Bits/Xor.antt =====
-- `^` with a mask of high ones leaves the low bits.
use Prim.Native.Nat.{ℕ, zero, suc, ◌+◌, ◌*◌, ◌/◌, ◌%◌, ◌^◌, ◌<◌, bit_xor, differ}
use go_nmea_client.Common.Bits.Step.{bit_xor_step}
use mathlib.Core.Path.{◌≡◌, refl, ap}
use native.Mathlib.Nat.{pow-suc}
use native.Mathlib.Omega.{arith}

double_power : (q k : ℕ) → q * 2 ^ suc k ≡ 2 * (q * 2 ^ k)
double_power q k = omega (arith, ap (λ (t : ℕ). q * t) (pow-suc 2 k))

differ-zero : (d : ℕ) → differ d 0 ≡ d
differ-zero zero = refl
differ-zero (suc d) = refl

-- `^` acts on the bits from `k` on where the other number has no lower bits.
pub bit_xor_high :
    (k q r p : ℕ) → r < 2 ^ k → bit_xor (q * 2 ^ k + r) (p * 2 ^ k) ≡ bit_xor q p * 2 ^ k + r
bit_xor_high zero q r p h =
    let left : q * 2 ^ 0 + r ≡ q = omega arith in
    let right : p * 2 ^ 0 ≡ p = omega arith in rw (left, right) (omega arith)
bit_xor_high (suc k) q r p h =
    let left : (q * 2 ^ suc k + r) / 2 ≡ q * 2 ^ k + r / 2 = omega (arith, double_power q k) in
    let right : (p * 2 ^ suc k) / 2 ≡ p * 2 ^ k = omega (arith, double_power p k) in
    let low : (p * 2 ^ suc k) % 2 ≡ 0 = omega (arith, double_power p k) in
    let digit : (q * 2 ^ suc k + r) % 2 ≡ r % 2 = omega (arith, double_power q k) in
    let half = bit_xor_high k q (r / 2) p (omega (arith, pow-suc 2 k)) in
    omega (
      arith,
      bit_xor_step (q * 2 ^ suc k + r) (p * 2 ^ suc k),
      ap (λ (t : ℕ). differ ((q * 2 ^ suc k + r) % 2) t) low,
      differ-zero ((q * 2 ^ suc k + r) % 2),
      digit,
      ap (λ (t : ℕ). bit_xor t ((p * 2 ^ suc k) / 2)) left,
      ap (λ (t : ℕ). bit_xor (q * 2 ^ k + r / 2) t) right,
      half,
      double_power (bit_xor q p) k,
    )
