-- ===== src/Common/Bits/Fields.antt =====
-- `|` of disjoint fields is a sum, and `&` with a mask of low ones is a remainder.
use Prim.Native.Nat.{
  ℕ, zero, suc, ◌+◌, ◌-◌, ◌*◌, ◌/◌, ◌%◌, ◌^◌, ◌<◌, bit_and, bit_or, bit_or-bitwise,
}
use go_nmea_client.Common.Bits.Step.{bit_or_step, bit_and_step}
use mathlib.Core.Path.{◌≡◌, refl, sym, ap, ◌∙◌}
use native.Mathlib.Nat.{
  pow-suc, one-le-pow, mod-lt, mod-eq_of_lt, mul-add-mod_self_left, div-add-mod,
}
use native.Mathlib.Omega.{arith}

bit_or-zero_bounded : (n a : ℕ) → a < n → bit_or a 0 ≡ a
bit_or-zero_bounded zero a h = absurd (omega arith)
bit_or-zero_bounded (suc n) zero h = refl
bit_or-zero_bounded (suc n) (suc a) h =
    omega (arith, bit_or_step (suc a) 0, bit_or-zero_bounded n (suc a / 2) (omega arith))

pub bit_or-zero : (a : ℕ) → bit_or a 0 ≡ a
bit_or-zero a = bit_or-zero_bounded (suc a) a (omega arith)

pub zero-bit_or : (a : ℕ) → bit_or 0 a ≡ a
zero-bit_or a = bit_or-bitwise 0 a

bit_and-zero_bounded : (n a : ℕ) → a < n → bit_and a 0 ≡ 0
bit_and-zero_bounded zero a h = absurd (omega arith)
bit_and-zero_bounded (suc n) zero h = refl
bit_and-zero_bounded (suc n) (suc a) h =
    omega (arith, bit_and_step (suc a) 0, bit_and-zero_bounded n (suc a / 2) (omega arith))

pub bit_and-zero : (a : ℕ) → bit_and a 0 ≡ 0
bit_and-zero a = bit_and-zero_bounded (suc a) a (omega arith)

double_pow : (q k : ℕ) → q * 2 ^ suc k ≡ 2 * (q * 2 ^ k)
double_pow q k = omega (arith, ap (λ (t : ℕ). q * t) (pow-suc 2 k))

-- `(high << k) | low` where `low` fits `k` bits.
pub bit_or_fields : (k high low : ℕ) → low < 2 ^ k → bit_or (high * 2 ^ k) low ≡ high * 2 ^ k + low
bit_or_fields zero high low h = ground (arith, bit_or-zero high)
bit_or_fields (suc k) high low h =
    let half = bit_or_fields k high (low / 2) (omega (arith, pow-suc 2 k)) in
    ground (arith, half, double_pow high k, bit_or_step (high * 2 ^ suc k) low)

low_digit : (k a : ℕ) → a % 2 ^ suc k ≡ a % 2 + 2 * (a / 2 % 2 ^ k)
low_digit k a =
    let low = a % 2 + 2 * (a / 2 % 2 ^ k) in
    let power = pow-suc 2 k in
    let small = mod-lt (a / 2) {m = 2 ^ k} (omega (arith, one-le-pow k 2)) in
    let split : 2 ^ suc k * (a / 2 / 2 ^ k) + low ≡ a =
      rw power (omega (arith, div-add-mod (a / 2) (2 ^ k))) in
    ap (λ t. t % 2 ^ suc k) (sym split)
    ∙ mul-add-mod_self_left (2 ^ suc k) (a / 2 / 2 ^ k) low
    ∙ mod-eq_of_lt (omega (arith, power, small))

-- `a & (1 << k - 1)` keeps the low `k` bits.
pub bit_and_mask : (k a : ℕ) → bit_and a (2 ^ k - 1) ≡ a % 2 ^ k
bit_and_mask zero a = rw (bit_and-zero a) (omega arith)
bit_and_mask (suc k) a =
    let power = pow-suc 2 k in
    let positive = one-le-pow k 2 in
    let halves : (2 ^ suc k - 1) / 2 ≡ 2 ^ k - 1 = omega (arith, power, positive) in
    ground (
      arith,
      power,
      positive,
      low_digit k a,
      bit_and_mask k (a / 2),
      bit_and_step a (2 ^ suc k - 1),
      halves,
    )

bit_or_comm_bounded : (n a b : ℕ) → a < n → b < n → bit_or a b ≡ bit_or b a
bit_or_comm_bounded zero a b p q = absurd (omega arith)
bit_or_comm_bounded (suc n) zero zero p q = refl
bit_or_comm_bounded (suc n) zero (suc b) p q =
    omega (arith, bit_or-zero (suc b), zero-bit_or (suc b))
bit_or_comm_bounded (suc n) (suc a) zero p q =
    omega (arith, bit_or-zero (suc a), zero-bit_or (suc a))
bit_or_comm_bounded (suc n) (suc a) (suc b) p q = omega (
  arith,
  bit_or_step (suc a) (suc b),
  bit_or_step (suc b) (suc a),
  bit_or_comm_bounded n (suc a / 2) (suc b / 2) (omega arith) (omega arith),
)

pub bit_or_comm : (a b : ℕ) → bit_or a b ≡ bit_or b a
bit_or_comm a b = bit_or_comm_bounded (suc (a + b)) a b (omega arith) (omega arith)

bit_or-both_zero : (r s : ℕ) → r ≡ 0 → s ≡ 0 → bit_or r s ≡ 0
bit_or-both_zero r s p q = rw (p, q) refl

-- `|` acts on the high fields and on the low fields of `k` bits apart.
pub bit_or_split :
    (k q r p s : ℕ)
    → r < 2 ^ k
    → s < 2 ^ k
    → bit_or (q * 2 ^ k + r) (p * 2 ^ k + s) ≡ bit_or q p * 2 ^ k + bit_or r s
bit_or_split zero q r p s hr hs =
    let left : q * 2 ^ 0 + r ≡ q = omega arith in
    let right : p * 2 ^ 0 + s ≡ p = omega arith in
    let low : bit_or r s ≡ 0 = bit_or-both_zero r s (omega arith) (omega arith) in
    rw (left, right, low) (omega arith)
bit_or_split (suc k) q r p s hr hs =
    let left : (q * 2 ^ suc k + r) / 2 ≡ q * 2 ^ k + r / 2 = omega (arith, double_pow q k) in
    let right : (p * 2 ^ suc k + s) / 2 ≡ p * 2 ^ k + s / 2 = omega (arith, double_pow p k) in
    omega (
      arith,
      bit_or_step (q * 2 ^ suc k + r) (p * 2 ^ suc k + s),
      ap (λ (t : ℕ). bit_or t ((p * 2 ^ suc k + s) / 2)) left,
      ap (λ (t : ℕ). bit_or (q * 2 ^ k + r / 2) t) right,
      bit_or_step r s,
      double_pow q k,
      double_pow p k,
      double_pow (bit_or q p) k,
      bit_or_split k q (r / 2) p (s / 2) (omega (arith, pow-suc 2 k)) (omega (arith, pow-suc 2 k)),
    )

pub bit_or_high : (k r q : ℕ) → r < 2 ^ k → bit_or r (q * 2 ^ k) ≡ q * 2 ^ k + r
bit_or_high k r q h = bit_or_comm r (q * 2 ^ k) ∙ bit_or_fields k q r h
