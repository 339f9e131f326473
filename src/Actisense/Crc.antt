-- ===== src/Actisense/Crc.antt =====
-- actisense/binaryreader.go: the checksum.
use go_nmea_client.Common.{
  ℕ, ◌+◌, ◌-◌, ◌%◌, ◌<◌, ◌≡◌, List, [], ◌∷◌, ◌++◌, arith, Result, ltb, ◌==◌, not, fail_if,
  if◌then◌else◌, u8, u16, IsByte, All,
}
use go_nmea_client.Actisense.{Error, invalid_crc}

-- One round of the loop, in uint16 arithmetic.
unfoldable pub crc_step : ℕ → ℕ → ℕ
crc_step crc d =
    if ltb 255 (u16 (crc + d)) then u16 (d + 65536 - u16 (256 + 65536 - crc)) else u16 (crc + d)

unfoldable pub crc_loop : ℕ → List ℕ → ℕ
unfolding crc_step
crc_loop crc [] = crc
crc_loop crc (d ∷ bytes) = crc_loop (crc_step crc d) bytes

unfoldable pub crc : List ℕ → ℕ
unfolding crc_loop
crc bytes = u8 (crc_loop 0 bytes)

unfoldable pub crc_check : List ℕ → Result Error (Unit {0})
unfolding crc
crc_check bytes = fail_if (not (crc bytes == 0)) invalid_crc

abbrev pub sum : List ℕ → ℕ
sum [] = 0
sum (d ∷ bytes) = d + sum bytes

pub sum-append : (xs ys : List ℕ) → sum (xs ++ ys) ≡ sum xs + sum ys
sum-append [] ys = omega arith
sum-append (x ∷ xs) ys = omega (arith, sum-append xs ys)

crc_step_lem : (c d : ℕ) → c < 256 → d < 256 → crc_step c d ≡ (c + d) % 256
unfolding crc_step
crc_step_lem c d hc hd = ground arith

crc_loop_lem :
    (c : ℕ) (bytes : List ℕ) → c < 256 → All IsByte bytes → crc_loop c bytes ≡ (c + sum bytes) % 256
unfolding crc_loop
crc_loop_lem c [] hc h = ground arith
crc_loop_lem c (d ∷ bytes) hc h =
    ground (arith, crc_step_lem c d hc h.0, crc_loop_lem ((c + d) % 256) bytes (omega arith) h.1)

-- The checksum of bytes is their sum modulo 256.
pub crc_lem : (bytes : List ℕ) → All IsByte bytes → crc bytes ≡ sum bytes % 256
unfolding crc
crc_lem bytes h = omega (arith, crc_loop_lem 0 bytes (omega arith) h)
