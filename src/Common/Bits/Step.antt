-- ===== src/Common/Bits/Step.antt =====
-- The recursion of `&`, `|` and `^` on the lowest binary digit, with no fuel.
use Prim.Native.Nat.{ℕ, zero, suc, ◌+◌, ◌*◌, ◌/◌, ◌%◌, ◌≤◌, bit_and, bit_or, bit_xor}
use Prim.Native.Nat.{
  min, max, differ, digits, bitwise, bit_and-bitwise, bit_or-bitwise, bit_xor-bitwise,
}
use mathlib.Core.Path.{◌≡◌, refl}
use native.Mathlib.Omega.{arith}

-- `digits` with more fuel than the first number needs.
spare_fuel :
    (rest : ℕ → ℕ) (op : ℕ → ℕ → ℕ) (k l x y : ℕ)
    → x ≤ l
    → x ≤ k
    → digits rest op k x y ≡ digits rest op l x y
spare_fuel rest op zero l (suc x) y hl hk = absurd (omega arith)
spare_fuel rest op k zero (suc x) y hl hk = absurd (omega arith)
spare_fuel rest op zero zero zero y hl hk = refl
spare_fuel rest op zero (suc l) zero y hl hk = refl
spare_fuel rest op (suc k) zero zero y hl hk = refl
spare_fuel rest op (suc k) (suc l) zero y hl hk = refl
spare_fuel rest op (suc k) (suc l) (suc x) y hl hk =
    let less : suc x / 2 ≤ k = omega arith in
    let less' : suc x / 2 ≤ l = omega arith in
    rw (spare_fuel rest op k l (suc x / 2) (y / 2) less' less)

lowest_digit :
    (rest : ℕ → ℕ) (op : ℕ → ℕ → ℕ) (x y : ℕ)
    → bitwise rest op (suc x) y ≡ op (suc x % 2) (y % 2) + 2 * bitwise rest op (suc x / 2) (y / 2)
lowest_digit rest op x y =
    let same = spare_fuel rest op x (suc x / 2) (suc x / 2) (y / 2) (omega arith) (omega arith) in
    omega (arith, same)

pub bit_or_step : (x y : ℕ) → bit_or x y ≡ max (x % 2) (y % 2) + 2 * bit_or (x / 2) (y / 2)
bit_or_step zero y = simp bit_or-bitwise (omega arith)
bit_or_step (suc x) y = simp bit_or-bitwise (lowest_digit (λ t. t) max x y)

pub bit_and_step : (x y : ℕ) → bit_and x y ≡ min (x % 2) (y % 2) + 2 * bit_and (x / 2) (y / 2)
bit_and_step zero y = simp bit_and-bitwise (omega arith)
bit_and_step (suc x) y = simp bit_and-bitwise (lowest_digit (λ t. 0) min x y)

pub bit_xor_step : (x y : ℕ) → bit_xor x y ≡ differ (x % 2) (y % 2) + 2 * bit_xor (x / 2) (y / 2)
bit_xor_step zero y = simp bit_xor-bitwise (omega arith)
bit_xor_step (suc x) y = simp bit_xor-bitwise (lowest_digit (λ t. t) differ x y)
