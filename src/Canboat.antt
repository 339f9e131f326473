-- ===== src/Canboat.antt =====
-- canboat/enum.go: the lookups of enumerations in the Canboat database.
-- A name is the list of its bytes. The definitions of PGNs are in Database.
pub mod Text
pub mod Lookups
pub mod Database
pub mod Variants
pub mod Validation
pub mod Fields
pub mod Decoder
mod Examples
use go_nmea_client.Common.{
  ℕ, List, [], ◌∷◌, ◌++◌, Bool, true, false, Result, ok, err, ◌==◌, ◌&&◌, not, if◌then◌else◌, u32,
  ◌<<◌, bit_and,
}

pub data Error : Type 0 where
  unknown_enum_type unknown_enum_value : Error

pub record EnumValue : Type 0 where
  pub name : List ℕ
  pub value : ℕ

pub record Enum : Type 0 where
  pub name : List ℕ
  pub values : List EnumValue

pub record BitEnumValue : Type 0 where
  pub name : List ℕ
  pub bit : ℕ

pub record BitEnum : Type 0 where
  pub name : List ℕ
  pub values : List BitEnumValue

pub record IndirectEnumValue : Type 0 where
  pub name : List ℕ
  pub indirect_value : ℕ
  pub value : ℕ

pub record IndirectEnum : Type 0 where
  pub name : List ℕ
  pub values : List IndirectEnumValue

-- `==` of strings.
unfoldable pub same : List ℕ → List ℕ → Bool
same [] [] = true
same [] (c ∷ t) = false
same (b ∷ s) [] = false
same (b ∷ s) (c ∷ t) = b == c && same s t

unfoldable pub value_in : List EnumValue → ℕ → Result Error EnumValue
value_in [] value = err unknown_enum_value
value_in (v ∷ values) value =
    let rest = value_in values value in if v.value == value then ok v else rest

unfoldable pub find_value : List Enum → List ℕ → ℕ → Result Error EnumValue
find_value [] enum value = err unknown_enum_type
find_value (e ∷ enums) enum value =
    let rest = find_value enums enum value in
    if same e.name enum then value_in e.values value else rest

unfoldable pub exists : List Enum → List ℕ → Bool
exists [] enum = false
exists (e ∷ enums) enum = let rest = exists enums enum in if same e.name enum then true else rest

-- `(value & (1 << v.Bit)) != 0` in uint32 arithmetic.
unfoldable pub has_bit : ℕ → BitEnumValue → Bool
has_bit value v = not (bit_and value (u32 (1 << v.bit)) == 0)

unfoldable pub set_values : List BitEnumValue → ℕ → List BitEnumValue
set_values [] value = []
set_values (v ∷ values) value =
    let rest = set_values values value in if has_bit value v then v ∷ rest else rest

abbrev pub is_empty : List BitEnumValue → Bool
is_empty [] = true
is_empty (v ∷ values) = false

-- The loop goes on behind an enumeration of the name, and adds the values of a further one.
unfoldable pub bit_loop :
    List BitEnum → List ℕ → ℕ → List BitEnumValue → Result Error (List BitEnumValue)
bit_loop [] enum value result = if is_empty result then err unknown_enum_type else ok result
bit_loop (e ∷ enums) enum value result =
    let result' = if same e.name enum then result ++ set_values e.values value else result in
    let rest = bit_loop enums enum value result' in
    if same e.name enum && is_empty result' then err unknown_enum_value else rest

unfoldable pub find_bit_values : List BitEnum → List ℕ → ℕ → Result Error (List BitEnumValue)
find_bit_values enums enum value = if value == 0 then ok [] else bit_loop enums enum value []

unfoldable pub bit_enum_exists : List BitEnum → List ℕ → Bool
bit_enum_exists [] enum = false
bit_enum_exists (e ∷ enums) enum =
    let rest = bit_enum_exists enums enum in if same e.name enum then true else rest

unfoldable pub indirect_value_in : List IndirectEnumValue → ℕ → ℕ → Result Error IndirectEnumValue
indirect_value_in [] value indirect = err unknown_enum_value
indirect_value_in (v ∷ values) value indirect =
    let rest = indirect_value_in values value indirect in
    if v.value == value && v.indirect_value == indirect then ok v else rest

unfoldable pub find_indirect_value :
    List IndirectEnum → List ℕ → ℕ → ℕ → Result Error IndirectEnumValue
find_indirect_value [] enum value indirect = err unknown_enum_type
find_indirect_value (e ∷ enums) enum value indirect =
    let rest = find_indirect_value enums enum value indirect in
    if same e.name enum then indirect_value_in e.values value indirect else rest

unfoldable pub indirect_enum_exists : List IndirectEnum → List ℕ → Bool
indirect_enum_exists [] enum = false
indirect_enum_exists (e ∷ enums) enum =
    let rest = indirect_enum_exists enums enum in if same e.name enum then true else rest
