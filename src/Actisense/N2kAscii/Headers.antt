-- ===== src/Actisense/N2kAscii/Headers.antt =====
-- actisense/n2kasciidevice.go: the addresses that `formatN2KASCII` writes.
use go_nmea_client.Common.{
  ℕ, ◌+◌, ◌*◌, ◌/◌, ◌%◌, ◌≤◌, ◌<◌, ◌≡◌, refl, ap, ◌∙◌, List, [], ◌∷◌, ◌++◌, true, false, arith,
  ◌==◌, if◌then◌else◌,
}
use go_nmea_client.Nmea.{RawMessage}
use go_nmea_client.Actisense.RawAscii.{without_zeros}
use go_nmea_client.Actisense.N2kAscii.{
  lower_digit, lower_digits, format_lower, format_n2k_address, format_n2k_ascii,
}

-- A byte has two digits, or one if the first would be 0.
format_byte :
    (n : ℕ)
    → n < 256
    → format_lower n ≡ (
        if lower_digit (n / 16 % 16) == b'0'
        then lower_digit (n % 16) ∷ []
        else lower_digit (n / 16 % 16) ∷ lower_digit (n % 16) ∷ [])
unfolding format_lower lower_digits without_zeros lower_digit
format_byte n h =
    let none_left : n / 16 / 16 ≡ 0 = omega (arith, h) in
    ap
      (λ m.
        without_zeros
          ((lower_digits 14 m ++ (lower_digit (n / 16 % 16) ∷ [])) ++ (lower_digit (n % 16) ∷ [])))
      none_left

zero_digit : (n : ℕ) → n < 16 → (lower_digit (n / 16 % 16) == b'0') ≡ true
unfolding lower_digit
zero_digit n h = ground (arith, h)

some_digit :
    (a b : ℕ) → 1 ≤ a → a < 16 → b < 16 → (lower_digit ((a * 16 + b) / 16 % 16) == b'0') ≡ false
unfolding lower_digit
some_digit a b h k l = ground (arith, h, k, l)

format_one : (n : ℕ) → n < 16 → format_lower n ≡ lower_digit n ∷ []
format_one n h =
    format_byte n (omega (arith, h))
    ∙ rw (zero_digit n h) (ap (λ d. lower_digit d ∷ []) (omega (arith, h)))

format_two :
    (a b : ℕ)
    → 1 ≤ a
    → a < 16
    → b < 16
    → format_lower (a * 16 + b) ≡ lower_digit a ∷ lower_digit b ∷ []
format_two a b h k l =
    format_byte (a * 16 + b) (omega (arith, k, l))
    ∙ rw (some_digit a b h k l) (
        ap (λ d. lower_digit d ∷ lower_digit ((a * 16 + b) % 16) ∷ []) (omega (arith, k, l))
        ∙ ap (λ d. lower_digit a ∷ lower_digit d ∷ []) (omega (arith, l)))

-- Two messages that differ in their addresses only, from `a` to the address of the digits `b` and `c`, and
-- from the address of the digits `a` and `b` to `c`, are written as one line.
pub format_n2k_ascii_merges :
    (stamp : ℕ → List ℕ) (msg : RawMessage) (a b c : ℕ)
    → 1 ≤ a
    → a < 16
    → 1 ≤ b
    → b < 16
    → c < 16
    → format_n2k_ascii stamp
        (record msg { header = record msg.header { source = a; destination = b * 16 + c } })
      ≡ format_n2k_ascii stamp
          (record msg { header = record msg.header { source = a * 16 + b; destination = c } })
unfolding format_n2k_ascii format_n2k_address
format_n2k_ascii_merges stamp msg a b c ha ka hb kb kc =
    rw (format_one a ka, format_two b c hb kb kc, format_two a b ha ka kb, format_one c kc) refl
