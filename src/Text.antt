-- ===== src/Text.antt =====
-- Texts as the packages `strings` and `strconv` of Go handle them, for the readers of lines and of the
-- command line: canboat/inputoutput.go, canboat/device.go, cmd/n2kreader. A text is its bytes.
pub mod Decimal
pub mod Parts
use Prim.Native.Char.{code}
use Prim.Native.String.{String}
use go_nmea_client.Common.{
  ℕ, zero, suc, ◌+◌, ◌-◌, ◌*◌, ◌/◌, ◌%◌, ◌^◌, List, [], ◌∷◌, ◌++◌, Bool, true, false, Result, ok,
  err, ◌>>=◌, ltb, leb, ◌==◌, ◌&&◌, ◌||◌, if◌then◌else◌,
}

abbrev pub Bytes : Type 0
Bytes = List ℕ

-- The bytes of an ASCII literal.
abbrev pub codes : String → Bytes
codes String.[] = []
codes (String.◌∷◌ c s) = code c ∷ codes s

unfoldable pub text_eq : Bytes → Bytes → Bool
text_eq [] [] = true
text_eq [] (d ∷ t) = false
text_eq (c ∷ s) [] = false
text_eq (c ∷ s) (d ∷ t) = c == d && text_eq s t

-- One more byte at the start of the first part.
unfoldable pub extend : ℕ → List Bytes → List Bytes
extend c [] = (c ∷ []) ∷ []
extend c (p ∷ parts) = (c ∷ p) ∷ parts

-- `strings.Split` with a separator of one byte: a text without it is one part.
unfoldable pub split : ℕ → Bytes → List Bytes
split sep [] = [] ∷ []
split sep (c ∷ s) = let rest = split sep s in if c == sep then [] ∷ rest else extend c rest

-- `strings.Join(parts, "")`
unfoldable pub concat : List Bytes → Bytes
concat [] = []
concat (p ∷ parts) = p ++ concat parts

-- The white space of ASCII.
unfoldable pub is_space : ℕ → Bool
is_space c = (leb 9 c && leb c 13) || (c == b' ')

unfoldable pub trim_left : Bytes → Bytes
trim_left [] = []
trim_left (c ∷ s) = let rest = trim_left s in if is_space c then rest else c ∷ s

unfoldable pub trim_right : Bytes → Bytes
trim_right [] = []
trim_right (c ∷ s) =
    let rest = trim_right s in
    if is_space c then (elim rest [ [] ↦ [] | d ∷ t ↦ c ∷ d ∷ t ]) else c ∷ rest

-- `strings.TrimSpace` of an ASCII text
unfoldable pub trim_space : Bytes → Bytes
trim_space s = trim_right (trim_left s)

-- `strconv.ErrSyntax` and `strconv.ErrRange`
pub data NumError : Type 0 where
  syntax range : NumError

unfoldable pub is_digit : ℕ → Bool
is_digit c = leb b'0' c && leb c b'9'

-- The loop of `ParseUint` to base 10 with the largest value allowed. The product of a value that is
-- allowed is below 2 ^ 68, and the source refuses it before it could wrap around.
unfoldable pub scan_uint : ℕ → Bytes → ℕ → Result NumError ℕ
scan_uint max [] n = ok n
scan_uint max (c ∷ s) n =
    let m = n * 10 + (c - b'0') in
    let rest = scan_uint max s m in
    if is_digit c then (if ltb max m then err range else rest) else err syntax

-- `strconv.ParseUint(s, 10, bits)`
unfoldable pub parse_uint : ℕ → Bytes → Result NumError ℕ
parse_uint bits [] = err syntax
parse_uint bits (c ∷ s) = scan_uint (2 ^ bits - 1) (c ∷ s) 0

-- `int`, a whole number of 64 bits; `negsuc n` is `- (n + 1)`.
pub data ℤ : Type 0 where
  pos negsuc : ℕ → ℤ

unfoldable pub minus : ℕ → ℤ
minus zero = pos zero
minus (suc n) = negsuc n

-- The digits behind the sign, read as a uint64 before the bound is tested.
unfoldable pub magnitude : ℕ → Bytes → Result NumError ℕ
magnitude max s = parse_uint 64 s >>= λ n. if ltb max n then err range else ok n

-- `strconv.Atoi`: a sign, if there is one, and digits.
unfoldable pub atoi : Bytes → Result NumError ℤ
atoi [] = err syntax
atoi (c ∷ s) =
    if c == b'-'
    then (magnitude (2 ^ 63) s >>= λ n. ok (minus n))
    else if c == b'+'
    then (magnitude (2 ^ 63 - 1) s >>= λ n. ok (pos n))
    else (magnitude (2 ^ 63 - 1) (c ∷ s) >>= λ n. ok (pos n))

-- `T(n)` for an unsigned type of the width.
unfoldable pub to_unsigned : ℕ → ℤ → ℕ
to_unsigned bits (pos n) = n % 2 ^ bits
to_unsigned bits (negsuc n) = 2 ^ bits - 1 - n % 2 ^ bits

-- The rounds of `FormatUint`, each with one more digit in front.
unfoldable pub format_digits : ℕ → ℕ → Bytes → Bytes
format_digits zero n out = out
format_digits (suc rounds) n out =
    let out' = (b'0' + n % 10) ∷ out in
    let rest = format_digits rounds (n / 10) out' in if ltb n 10 then out' else rest

-- `strconv.FormatUint(n, 10)`, and `strconv.Itoa(n)` where `n` is not negative: at most 20 digits.
unfoldable pub format_uint : ℕ → Bytes
format_uint n = format_digits 20 n []
