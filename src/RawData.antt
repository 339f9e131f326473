-- ===== src/RawData.antt =====
-- fieldvalue.go: the decoders of RawData, a message's bytes.
-- Offsets and lengths are uint16 numbers of bits and every sum of them wraps; a result is a value, one
-- of the errors or a panic. `string(bytes)` is left as the bytes. UTF-16 text is decoded by Go's
-- library, an argument where it is used. The time and floating point results are left to the caller:
-- a date is its number of days, a float its 32 bits.
pub mod Bits
pub mod Uint
pub mod Aligned
pub mod Text
pub mod Values
pub mod Hex
mod Examples
use mathlib.Core.List.{reverse}
use go_nmea_client.Common.{
  ℕ, zero, suc, ◌+◌, ◌-◌, ◌*◌, ◌/◌, ◌%◌, ◌^◌, List, [], ◌∷◌, Bool, true, false, Result, ok, err,
  panic, ◌>>=◌, ◌>>◌, check, fail_if, ltb, leb, ◌==◌, not, ◌&&◌, ◌||◌, if◌then◌else◌, u8, u16, u64,
  ◌<<◌, ◌>>>◌, bit_and, bit_or, length, get_or, set, take, drop, replicate, overwrite,
}

pub data Error : Type 0 where
  no_data out_of_range reserved : Error
  out_of_bounds too_long wrong_bit_length invalid_size invalid_encoding : Error
  too_many_digits undecodable : Error

-- `raw[i]`, and `raw[from:to]` of a slice.
unfoldable pub at : List ℕ → ℕ → Result Error ℕ
at raw i = check (ltb i (length raw)) >> ok (get_or raw i 0)

unfoldable pub slice : List ℕ → ℕ → ℕ → Result Error (List ℕ)
slice raw from to =
    check (leb from to && leb to (length raw)) >> ok (take (to - from) (drop from raw))

-- `result[i] = v`
unfoldable pub put : List ℕ → ℕ → ℕ → Result Error (List ℕ)
put result i v = check (ltb i (length result)) >> ok (set result i v)

-- The `for` loop over bytes that do not start at a byte border. `rounds` counts down to the end of
-- the loop at `i = length`. The int `remainingBits` is only tested against 0, so its values below 0
-- are 0 here.
unfoldable pub shift_loop : List ℕ → ℕ → ℕ → ℕ → ℕ → ℕ → List ℕ → Result Error (List ℕ)
shift_loop raw start start_bit zero i remaining result = ok result
shift_loop raw start start_bit (suc rounds) i remaining result = do
  current ← at raw (u16 (start + i))
  before ← at result (i - 1)
  let carried = u8 (bit_and current (255 >>> start_bit) << start_bit)
  result' ← put result (i - 1) (bit_or before carried)
  let left = remaining - 8
  result'' ← (if ltb 0 left then put result' i (current >>> start_bit) else ok result')
  shift_loop raw start start_bit rounds (i + 1) left result''

-- `x & (0xFF >> (8 - bits))` for `bits` of 1 to 7.
unfoldable pub keep_low : ℕ → ℕ → ℕ
keep_low bits x = bit_and x (255 >>> (8 - bits))

unfoldable pub mask_last : ℕ → List ℕ → Result Error (List ℕ)
mask_last bits result =
    if bits == 0
    then ok result
    else (at result (length result - 1) >>= λ last.
        put result (length result - 1) (keep_low bits last))

-- The three branches, with the end of the field known to lie within the data.
unfoldable pub extract : List ℕ → ℕ → ℕ → ℕ → Result Error (List ℕ)
extract raw offset bits end =
    let size = u16 (bits + 7) / 8 in
    let start = offset / 8 in
    let start_bit = offset % 8 in
    if start == end
    then (at raw start >>= λ b. put (replicate size 0) 0 (b >>> start_bit) >>= λ result.
        if bits % 8 == 0
        then ok result
        else (at result 0 >>= λ first. put result 0 (keep_low (bits % 8) first)))
    else if not (start_bit == 0)
    then (at raw start >>= λ b. put (replicate size 0) 0 (b >>> start_bit) >>= λ result.
        shift_loop raw start start_bit size 1 (bits - start_bit) result)
    else (slice raw start (u16 (end + 1)) >>= λ bytes.
        mask_last (bits % 8) (overwrite (replicate size 0) bytes))

-- `DecodeBytes`: the bytes and the number of bits read.
unfoldable pub decode_bytes : List ℕ → ℕ → ℕ → Bool → Result Error (List ℕ × ℕ)
decode_bytes raw offset bits is_variable_size =
    let end = u16 (offset + bits + 65535) / 8 in
    let size = length raw in
    let capped = u16 (bits + 65536 - u16 (u16 (offset + bits) + 65536 - u16 (size * 8))) in
    if ltb end size
    then (extract raw offset bits end >>= λ result. ok (result, bits))
    else if is_variable_size
    then (extract raw offset capped (u16 (size + 65535)) >>= λ result. ok (result, capped))
    else err out_of_bounds

-- `binary.LittleEndian.Uint64`, `Uint16` and `Uint32` of the first bytes.
abbrev pub little_endian : List ℕ → ℕ
little_endian [] = 0
little_endian (b ∷ bytes) = b + little_endian bytes * 256

-- The three values with a special meaning, for fields of at least eight bits.
unfoldable pub special : ℕ → ℕ → ℕ → Result Error (Unit {0})
special bits mask value =
    if leb 8 bits
    then (if value == mask
        then err no_data
        else if value == u64 (mask + 2 ^ 64 - 1)
        then err out_of_range
        else if value == u64 (mask + 2 ^ 64 - 2)
        then err reserved
        else ok tt)
    else ok tt

-- `decodeVariableInt`. The bytes are copied into eight, so a ninth is dropped.
unfoldable pub decode_variable_int : List ℕ → ℕ → ℕ → Bool → Result Error ℕ
decode_variable_int raw offset bits signed = do
  fail_if (ltb 64 bits) too_long
  let start = offset / 8
  let end = u16 (u16 (offset + bits + 7) / 8 + 65535)
  fail_if (leb (length raw) end) out_of_bounds
  bytes ← slice raw start (u16 (end + 1))
  let value = little_endian (overwrite (replicate 8 0) bytes) >>> (offset % 8)
  let mask = (2 ^ 64 - 1) >>> (64 - bits)
  let result = bit_and value mask
  let is_negative = signed && not (bit_and result (u64 (1 << u16 (bits + 65535))) == 0)
  special bits (if signed then mask >>> 1 else mask) result
  ok (if is_negative then bit_or result (2 ^ 64 - 1 - mask) else result)

unfoldable pub decode_variable_uint : List ℕ → ℕ → ℕ → Result Error ℕ
decode_variable_uint raw offset bits = decode_variable_int raw offset bits false

-- The loop of `DecodeStringFix`: up to the first 0xFF, 0 or '@'.
unfoldable pub fix_length : List ℕ → ℕ
fix_length [] = 0
fix_length (b ∷ bytes) =
    let rest = fix_length bytes in if b == 0xff || b == 0 || b == b'@' then 0 else suc rest

unfoldable pub decode_string_fix : List ℕ → ℕ → ℕ → Result Error (List ℕ)
decode_string_fix raw offset bits = do
  (bytes, _) ← decode_bytes raw offset bits false
  ok (take (fix_length bytes) bytes)

-- The loop of the UTF-8 case: up to the first 0 or 0xFF.
unfoldable pub usable_length : List ℕ → ℕ
usable_length [] = 0
usable_length (b ∷ bytes) =
    let rest = usable_length bytes in if b == 0 || b == 0xff then 0 else suc rest

-- The byte order mark, and the decoding by Go's library in one of two orders (true is big-endian).
unfoldable pub decode_utf16 :
    (Bool → List ℕ → Result Error (List ℕ)) → List ℕ → Result Error (List ℕ)
decode_utf16 decode bytes = do
  b0 ← at bytes 0
  b1 ← at bytes 1
  if b0 == 0xff && b1 == 0xfe
      then decode false (drop 2 bytes)
      else if b0 == 0xfe && b1 == 0xff
      then decode true (drop 2 bytes)
      else decode false bytes

-- What follows the two bytes of length and encoding.
unfoldable pub decode_lau_body :
    (Bool → List ℕ → Result Error (List ℕ)) → List ℕ → ℕ → List ℕ → ℕ → Result Error (List ℕ × ℕ)
decode_lau_body decode raw offset header len = do
  encoding ← at header 1
  (bytes, read) ← decode_bytes raw (u16 (offset + 16)) (u16 ((len - 2) * 8)) true
  if encoding == 0
      then (decode_utf16 decode bytes >>= λ s. ok (s, u16 (read + 16)))
      else if encoding == 1
      then ok (take (usable_length bytes) bytes, u16 (read + 16))
      else err invalid_encoding

unfoldable pub decode_string_lau :
    (Bool → List ℕ → Result Error (List ℕ)) → List ℕ → ℕ → Result Error (List ℕ × ℕ)
decode_string_lau decode raw offset = do
  (header, _) ← decode_bytes raw offset 16 false
  len ← at header 0
  if len == 2
      then ok ([], 16)
      else if ltb len 2
      then err invalid_size
      else decode_lau_body decode raw offset header len

unfoldable pub decode_string_lz : List ℕ → ℕ → ℕ → Result Error (List ℕ × ℕ)
decode_string_lz raw offset bits = do
  actual ← at raw (offset / 8)
  let field = u16 (bits + 7) / 8
  if actual == 0 && not (ltb field actual)
      then ok ([], 8)
      else decode_bytes raw (u16 (offset + 8))
          (u16 ((if ltb field actual then field else actual) * 8)) true

-- `DecodeDate`, up to the number of days since 1970-01-01.
unfoldable pub decode_date : List ℕ → ℕ → ℕ → Result Error ℕ
decode_date raw offset bits = do
  fail_if (not (bits == 16)) wrong_bit_length
  (bytes, _) ← decode_bytes raw offset bits false
  let days = little_endian (take 2 bytes)
  fail_if (days == 65535) no_data
  fail_if (days == 65534) out_of_range
  fail_if (days == 65533) reserved
  ok days

-- The loop of `DecodeDecimal`, over the bytes from the last one on.
unfoldable pub decimal_loop : List ℕ → ℕ → ℕ → Bool → Result Error ℕ
decimal_loop [] result digits empty = if empty then err no_data else ok result
decimal_loop (b ∷ bytes) result digits empty =
    let skip = b == 0xff in
    let result' = u64 (result + digits * (b % 10)) in
    let digits' = u64 (digits * 10) in
    let rest =
      decimal_loop bytes (if skip then result else u64 (result' + digits' * (b / 10)))
        (if skip then digits else u64 (digits' * 10)) (if skip then empty else false) in
    if not skip && ltb 99 b then err too_many_digits else rest

unfoldable pub decode_decimal : List ℕ → ℕ → ℕ → Result Error ℕ
decode_decimal raw offset bits = do
  (bytes, _) ← decode_bytes raw offset bits false
  decimal_loop (reverse bytes) 0 1 true

-- `DecodeFloat`, up to the bits of the float.
unfoldable pub decode_float : List ℕ → ℕ → ℕ → Result Error ℕ
decode_float raw offset bits = do
  fail_if (not (bits == 32)) wrong_bit_length
  (bytes, _) ← decode_bytes raw offset bits false
  let value = little_endian (take 4 bytes)
  fail_if (value == 0xffff_ffff) no_data
  fail_if (value == 0xffff_fffe) out_of_range
  fail_if (value == 0xffff_fffd) reserved
  ok value
