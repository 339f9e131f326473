-- ===== src/RawData/Bits.antt =====
-- The bits of a message as fieldvalue.go counts them: bit `i` is bit `i % 8` of byte `i / 8`.
use go_nmea_client.Common.{
  ℕ, zero, suc, ◌+◌, ◌-◌, ◌*◌, ◌/◌, ◌%◌, ◌<◌, ◌≡◌, refl, sym, ap, ◌∙◌, List, [], ◌∷◌, arith, ltb,
  if◌then◌else◌, get_or, All, IsByte, Bool-cases, inl, inr,
}
use go_nmea_client.Common.Bits.{bit, bit-zero}
use go_nmea_client.RawData.{little_endian}

abbrev pub message_bit : List ℕ → ℕ → ℕ
message_bit raw i = bit (get_or raw (i / 8) 0) (i % 8)

next_byte : (i : ℕ) → suc (suc (suc (suc (suc (suc (suc (suc i))))))) - 8 ≡ i
next_byte i = omega arith

bit-add_byte :
    (b r i : ℕ) → b < 256 → bit (b + r * 256) i ≡ (if ltb i 8 then bit b i else bit r (i - 8))
unfolding bit
bit-add_byte b r zero h = omega arith
bit-add_byte b r (suc zero) h = omega arith
bit-add_byte b r (suc (suc zero)) h = omega arith
bit-add_byte b r (suc (suc (suc zero))) h = omega arith
bit-add_byte b r (suc (suc (suc (suc zero)))) h = omega arith
bit-add_byte b r (suc (suc (suc (suc (suc zero))))) h = omega arith
bit-add_byte b r (suc (suc (suc (suc (suc (suc zero)))))) h = omega arith
bit-add_byte b r (suc (suc (suc (suc (suc (suc (suc zero))))))) h = omega arith
bit-add_byte b r (suc (suc (suc (suc (suc (suc (suc (suc i)))))))) h =
    let halves : (b + r * 256) / 2 / 2 / 2 / 2 / 2 / 2 / 2 / 2 ≡ r = omega arith in
    rw halves (ground (arith, ap (bit r) (next_byte i)))

get_or-byte :
    (b : ℕ) (raw : List ℕ) (i : ℕ)
    → get_or (b ∷ raw) (i / 8) 0 ≡ (if ltb i 8 then b else get_or raw ((i - 8) / 8) 0)
get_or-byte b raw i = elim (Bool-cases (ltb i 8)) [
  | inl y ↦ let e : i / 8 ≡ 0 = ground arith in rw (e, y) refl
  | inr n ↦ let e : i / 8 ≡ suc ((i - 8) / 8) = ground arith in rw (e, n) refl
]

-- The number with the bytes of a message, lowest first, has the bits of the message.
pub bit-little_endian :
    (raw : List ℕ) (i : ℕ) → All IsByte raw → bit (little_endian raw) i ≡ message_bit raw i
bit-little_endian [] i h = bit-zero i ∙ sym (bit-zero (i % 8))
bit-little_endian (b ∷ raw) i (hb, h) = ground (
  arith,
  bit-add_byte b (little_endian raw) i hb,
  bit-little_endian raw (i - 8) h,
  get_or-byte b raw i,
)
