-- ===== src/RawData/Text.antt =====
-- The text and decimal decoders of fieldvalue.go.
use go_nmea_client.Common.{
  ℕ, zero, suc, ◌+◌, ◌*◌, ◌/◌, ◌%◌, ◌^◌, ◌≤◌, ◌<◌, ◌≡◌, ◌≢◌, ◌⊎◌, inl, inr, refl, ap, ◌∙◌, List, [],
  ◌∷◌, ◌++◌, Bool, true, false, arith, ltb, leb, ◌==◌, ◌||◌, ◌&&◌, if◌then◌else◌, length, take,
  drop, All, Bool-cases, ok, err, u64, length-append, length-take,
}
use mathlib.Core.List.{reverse, reverse-cons}
use native.Mathlib.Nat.{pow-le-pow_right, pow-suc, one-le-pow, mul-le-mul_left}
use go_nmea_client.RawData.{no_data, fix_length, decode_string_fix, decimal_loop, decode_decimal}
use go_nmea_client.RawData.Aligned.{decode_bytes_aligned}

-- A byte that does not end a fixed text.
unfoldable pub IsText : ℕ → Type 0
IsText b = (b ≢ 0) × (b ≢ 0xff) × (b ≢ b'@')

-- Where a fixed text stops.
unfoldable pub Stops : List ℕ → Type 0
Stops [] = Unit {0}
Stops (b ∷ bytes) = (b ≡ 0) ⊎ (b ≡ 0xff) ⊎ (b ≡ b'@')

-- The text ends at its first byte 0, 0xFF or '@', or with the bytes.
pub fix_length-splits :
    (bytes : List ℕ)
    → All IsText (take (fix_length bytes) bytes) × Stops (drop (fix_length bytes) bytes)
unfolding fix_length IsText Stops
fix_length-splits [] = (tt, tt)
fix_length-splits (b ∷ bytes) = elim (Bool-cases (b == 0xff || b == 0 || b == b'@')) [
  | inl y ↦ rw y (tt, ground arith)
  | inr n ↦ rw n ((ground arith, (fix_length-splits bytes).0), (fix_length-splits bytes).1)
]

-- The digits of a decimal, two to a byte, the lowest pair first; a byte 0xFF is left out.
unfoldable pub pairs_value : List ℕ → ℕ
pairs_value [] = 0
pairs_value (b ∷ bytes) = if b == 0xff then pairs_value bytes else b + 100 * pairs_value bytes

unfoldable pub IsPair : ℕ → Type 0
IsPair b = (b < 100) ⊎ (b ≡ 0xff)

unfoldable pub is_blank : List ℕ → Bool
is_blank [] = true
is_blank (b ∷ bytes) = b == 0xff && is_blank bytes

decimal_digit : (d b : ℕ) → d * (b % 10) + d * 10 * (b / 10) ≡ d * b
decimal_digit d b =
    let e : d * b ≡ d * (b % 10 + 10 * (b / 10)) = ap (λ t. d * t) (omega arith) in omega (arith, e)

-- Without wrap-around the loop sums the pairs.
decimal_loop-pairs :
    (bytes : List ℕ) (result digits : ℕ) (empty : Bool)
    → All IsPair bytes
    → result < digits
    → digits * 100 ^ length bytes ≤ 2 ^ 64
    → decimal_loop bytes result digits empty
      ≡ (if empty && is_blank bytes then err no_data else ok (result + digits * pairs_value bytes))
unfolding pairs_value is_blank decimal_loop IsPair
decimal_loop-pairs [] result digits empty h below small = ground arith
decimal_loop-pairs (b ∷ bytes) result digits empty (hb, h) below small =
    elim (Bool-cases (b == 0xff)) [
      | inl y ↦
          let shrink : digits * 100 ^ length bytes ≤ digits * 100 ^ suc (length bytes) =
            mul-le-mul_left digits (omega (arith, pow-suc 100 (length bytes))) in
          let e : decimal_loop bytes result digits empty ≡ _ =
            decimal_loop-pairs bytes result digits empty h below (omega (arith, shrink)) in
          rw y (ground (arith, e))
      | inr n ↦
          let pair : b < 100 = ground arith in
          let grown : digits * 100 * 100 ^ length bytes ≤ 2 ^ 64 =
            omega (arith, ap (λ t. digits * t) (pow-suc 100 (length bytes))) in
          let scaled : digits * 100 * 1 ≤ digits * 100 * 100 ^ length bytes =
            mul-le-mul_left (digits * 100) (one-le-pow (length bytes) 100 (omega arith)) in
          let hundred : digits * 100 ≤ 2 ^ 64 = omega arith in
          let product : digits * b ≤ digits * 99 = mul-le-mul_left digits (omega arith) in
          let low : digits * (b % 10) ≤ digits * 9 = mul-le-mul_left digits (omega arith) in
          let e1 : u64 (result + digits * (b % 10)) ≡ result + digits * (b % 10) = omega arith in
          let e2 : u64 (digits * 10) ≡ digits * 10 = omega arith in
          let e3 : u64 (u64 (result + digits * (b % 10)) + u64 (digits * 10) * (b / 10))
              ≡ result + digits * b =
            rw (e1, e2) (omega (arith, decimal_digit digits b)) in
          let e4 : u64 (u64 (digits * 10) * 10) ≡ digits * 100 = omega arith in
          let e5 : ltb 99 b ≡ false = ground arith in
          let rest =
            decimal_loop-pairs bytes (result + digits * b) (digits * 100) false h (omega arith)
              grown in
          let total : result + digits * b + digits * 100 * pairs_value bytes
              ≡ result + digits * (b + 100 * pairs_value bytes) =
            omega arith in
          rw (n, e3, e4, e5) (rest ∙ ap ok total ∙ ground arith)
    ]

take-drop : (n : ℕ) (xs : List ℕ) → xs ≡ take n xs ++ drop n xs
take-drop zero xs = refl
take-drop (suc n) [] = refl
take-drop (suc n) (x ∷ xs) = ap (λ t. x ∷ t) (take-drop n xs)

length-reverse : (xs : List ℕ) → length (reverse xs) ≡ length xs
length-reverse [] = refl
length-reverse (x ∷ xs) =
    omega
      (arith, ap length (reverse-cons x xs), length-append (reverse xs) (x ∷ []), length-reverse xs)

-- A fixed text of `n` whole bytes at byte `o` within the message always decodes, to the longest start
-- of its bytes in which no byte is 0, 0xFF or '@'.
pub decode_string_fix_aligned :
    (raw : List ℕ) (o n : ℕ)
    → 0 < n
    → o + n ≤ length raw
    → o * 8 + n * 8 < 65536
    → (text : List ℕ) × (rest : List ℕ) × (take n (drop o raw) ≡ text ++ rest)
      × All IsText text
      × Stops rest
      × (decode_string_fix raw (o * 8) (n * 8) ≡ ok text)
unfolding decode_string_fix
decode_string_fix_aligned raw o n pos within small =
    let bytes = take n (drop o raw) in
    let inside : leb (o + n) (length raw) ≡ true = ground arith in
    let found = fix_length-splits bytes in
    (
      take (fix_length bytes) bytes,
      drop (fix_length bytes) bytes,
      take-drop (fix_length bytes) bytes,
      found.0,
      found.1,
      rw (decode_bytes_aligned raw o n pos small, inside) refl,
    )

-- A decimal of one to nine whole bytes at byte `o` within the message, each byte a pair of digits or
-- 0xFF, decodes to the number with these digits, the first pair the highest, or to the error for no
-- data when every byte is 0xFF.
pub decode_decimal_aligned :
    (raw : List ℕ) (o n : ℕ)
    → 0 < n
    → n ≤ 9
    → o + n ≤ length raw
    → o * 8 + n * 8 < 65536
    → All IsPair (reverse (take n (drop o raw)))
    → decode_decimal raw (o * 8) (n * 8) ≡ (
        if is_blank (reverse (take n (drop o raw)))
        then err no_data
        else ok (pairs_value (reverse (take n (drop o raw)))))
unfolding decode_decimal
decode_decimal_aligned raw o n pos short within small pairs =
    let bytes = take n (drop o raw) in
    let inside : leb (o + n) (length raw) ≡ true = ground arith in
    let len : length (reverse bytes) ≤ 9 =
      omega (arith, length-reverse bytes, length-take n (drop o raw)) in
    let power : 100 ^ length (reverse bytes) ≤ 100 ^ 9 = pow-le-pow_right (omega arith) len in
    let sum =
      decimal_loop-pairs (reverse bytes) 0 1 true pairs (omega arith) (omega (arith, power)) in
    rw (decode_bytes_aligned raw o n pos small, inside) (sum ∙ ground arith)
