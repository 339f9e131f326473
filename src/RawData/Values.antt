-- ===== src/RawData/Values.antt =====
-- fieldvalue.go: the values of fields, `AsFloat64`, `FindByID` and `DecodeTime`.
-- A float is the number that its bits are, an `int64` the number of its two's complement.
use go_nmea_client.Common.{
  ℕ, ◌+◌, ◌*◌, ◌/◌, ◌%◌, List, [], ◌∷◌, Option, none, some, Bool, Result, ok, ◌>>=◌, ◌>>◌, check,
  not, ◌==◌, if◌then◌else◌, u64,
}
use go_nmea_client.Canboat.{same}
use go_nmea_client.RawData.{Error, decode_variable_uint}

-- Go's arithmetic of `float64`, an argument.
pub record Floats : Type 0 where
  pub of_int64 : ℕ → ℕ
  pub of_uint64 : ℕ → ℕ
  pub of_float32 : ℕ → ℕ
  pub to_uint64 : ℕ → ℕ
  pub mul : ℕ → ℕ → ℕ
  pub div : ℕ → ℕ → ℕ
  pub less : ℕ → ℕ → Bool

-- The bits of 1.
abbrev pub one : ℕ
one = 0x3ff0_0000_0000_0000

pub record EnumValue : Type 0 where
  pub value : ℕ
  pub code : List ℕ

-- What stands in `FieldValue.Value`; a date is the number of days since 1970-01-01.
pub data Value : Type 0 where
  string bytes : List ℕ → Value
  float64 int64 uint64 duration date_time : ℕ → Value
  enum : EnumValue → Value
  enums : List EnumValue → Value

pub record FieldValue : Type 0 where
  pub id : List ℕ
  pub value : Value

unfoldable pub as_float64 : Floats → Value → Option ℕ
as_float64 fl (float64 v) = some v
as_float64 fl (int64 v) = some (fl.of_int64 v)
as_float64 fl (uint64 v) = some (fl.of_uint64 v)
as_float64 fl (duration v) = some (fl.of_int64 v)
as_float64 fl (date_time days) = some (fl.of_int64 (u64 (days * 86_400_000_000_000)))
as_float64 fl (enum v) = some (fl.of_uint64 v.value)
as_float64 fl (string s) = none
as_float64 fl (bytes b) = none
as_float64 fl (enums vs) = none

unfoldable pub find_by_id : List FieldValue → List ℕ → Option FieldValue
find_by_id [] id = none
find_by_id (f ∷ fvs) id = let rest = find_by_id fvs id in if same f.id id then some f else rest

abbrev pub second : ℕ
second = 1_000_000_000

unfoldable pub decode_time : Floats → List ℕ → ℕ → ℕ → ℕ → Result Error ℕ
decode_time fl raw offset bits resolution = do
  raw_seconds ← decode_variable_uint raw offset bits
  let result = u64 (fl.to_uint64 (fl.mul (fl.of_uint64 raw_seconds) resolution) * second)
  let units_in_second = fl.to_uint64 (fl.div one resolution)
  if fl.less resolution one
      then check (not (units_in_second == 0))
        >> ok (u64 (result + u64 (second / units_in_second * (raw_seconds % units_in_second))))
      else ok result
