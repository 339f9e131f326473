-- ===== src/Canboat/Lookups.antt =====
-- canboat/enum.go: the lookups fail for an unknown type exactly where `Exists` says so.
use go_nmea_client.Common.{
  ℕ, ◌≡◌, ◌≢◌, ◌↔◌, inl, inr, refl, List, [], ◌∷◌, ◌++◌, false, arith, err, Bool-cases,
}
use go_nmea_client.Canboat.{
  unknown_enum_type, Enum, EnumValue, BitEnum, BitEnumValue, IndirectEnum, IndirectEnumValue, same,
  value_in, find_value, exists, set_values, is_empty, bit_loop, find_bit_values, bit_enum_exists,
  indirect_value_in, find_indirect_value, indirect_enum_exists,
}

value_in-known :
    (values : List EnumValue) (value : ℕ) → value_in values value ≢ err unknown_enum_type
unfolding value_in
value_in-known [] value e = cc
value_in-known (v ∷ values) value e = ground (arith, value_in-known values value)

-- `FindValue` of an enumeration reports an unknown type exactly where `Exists` is false.
pub find_value-exists :
    (enums : List Enum) (enum : List ℕ) (value : ℕ)
    → (find_value enums enum value ≡ err unknown_enum_type) ↔ (exists enums enum ≡ false)
unfolding find_value exists
find_value-exists [] enum value = (λ e. refl, λ e. refl)
find_value-exists (e ∷ enums) enum value = elim (Bool-cases (same e.name enum)) [
  | inl hit ↦ (λ h. ground (arith, value_in-known e.values value), λ h. ground arith)
  | inr miss ↦ rw miss (find_value-exists enums enum value)
]

indirect_value_in-known :
    (values : List IndirectEnumValue) (value indirect : ℕ)
    → indirect_value_in values value indirect ≢ err unknown_enum_type
unfolding indirect_value_in
indirect_value_in-known [] value indirect e = cc
indirect_value_in-known (v ∷ values) value indirect e =
    ground (arith, indirect_value_in-known values value indirect)

-- So does `FindValue` of an indirect enumeration.
pub find_indirect_value-exists :
    (enums : List IndirectEnum) (enum : List ℕ) (value indirect : ℕ)
    → (find_indirect_value enums enum value indirect ≡ err unknown_enum_type)
      ↔ (indirect_enum_exists enums enum ≡ false)
unfolding find_indirect_value indirect_enum_exists
find_indirect_value-exists [] enum value indirect = (λ e. refl, λ e. refl)
find_indirect_value-exists (e ∷ enums) enum value indirect = elim (Bool-cases (same e.name enum)) [
  | inl hit ↦
      (λ h. ground (arith, indirect_value_in-known e.values value indirect), λ h. ground arith)
  | inr miss ↦ rw miss (find_indirect_value-exists enums enum value indirect)
]

bit_loop-known :
    (enums : List BitEnum) (enum : List ℕ) (value : ℕ) (result : List BitEnumValue)
    → is_empty result ≡ false
    → bit_loop enums enum value result ≢ err unknown_enum_type
unfolding bit_loop
bit_loop-known [] enum value result some e = ground arith
bit_loop-known (b ∷ enums) enum value [] some e = cc
bit_loop-known (b ∷ enums) enum value (v ∷ result) some e = ground (
  arith,
  bit_loop-known enums enum value (v ∷ result),
  bit_loop-known enums enum value (v ∷ (result ++ set_values b.values value)),
)

bit_loop-exists :
    (enums : List BitEnum) (enum : List ℕ) (value : ℕ)
    → (bit_loop enums enum value [] ≡ err unknown_enum_type) ↔ (bit_enum_exists enums enum ≡ false)
unfolding bit_loop bit_enum_exists
bit_loop-exists [] enum value = (λ e. refl, λ e. refl)
bit_loop-exists (e ∷ enums) enum value = elim (Bool-cases (same e.name enum)) [
  | inl hit ↦ (
    λ h. ground (arith, bit_loop-known enums enum value (set_values e.values value)),
    λ h. ground arith,
  )
  | inr miss ↦ rw miss (bit_loop-exists enums enum value)
]

-- `FindValue` of a bit enumeration reports an unknown type exactly where the value is not 0 and
-- `Exists` is false.
pub find_bit_values-exists :
    (enums : List BitEnum) (enum : List ℕ) (value : ℕ)
    → (find_bit_values enums enum value ≡ err unknown_enum_type)
      ↔ ((value ≢ 0) × (bit_enum_exists enums enum ≡ false))
unfolding find_bit_values
find_bit_values-exists enums enum value =
    let loop = bit_loop-exists enums enum value in
    (λ h. ground (arith, loop), λ h. ground (arith, loop))
