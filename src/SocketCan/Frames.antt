-- ===== src/SocketCan/Frames.antt =====
-- socketcan/socketcan.go: what is read of the bytes of a frame.
use Prim.Native.Nat.{bit_xor}
use go_nmea_client.Common.{
  ℕ, zero, suc, ◌+◌, ◌*◌, ◌/◌, ◌%◌, ◌^◌, ◌<◌, ◌≡◌, ap, sym, ◌∙◌, List, [], ◌∷◌, arith, ok, err,
  panic, leb, ◌==◌, if◌then◌else◌, length, get_or, take, drop, replicate, overwrite, bit_and, All,
  IsByte,
}
use go_nmea_client.Common.Bits.{bit_xor_high, bit, bit_and-pow, bit-shift}
use go_nmea_client.Canbus.{CanBusHeader, parse_can_id}
use go_nmea_client.Canbus.Layout.{parse_can_id_lem}
use go_nmea_client.Nmea.{RawFrame}
use go_nmea_client.RawData as RawData
use go_nmea_client.SocketCan.{
  remote_frame, error_frame, parse_frame, read_raw_frame, filled, can_id_mask,
}

header_eq :
    (g h : CanBusHeader)
    → g.pgn ≡ h.pgn
    → g.priority ≡ h.priority
    → g.source ≡ h.source
    → g.destination ≡ h.destination
    → g ≡ h
header_eq g h p q r s = λ i. record { pgn = p i; priority = q i; source = r i; destination = s i }

-- `^` with the mask leaves the 29 bits of the identifier, and the header is made of these.
parse_can_id-bit_xor : (id : ℕ) → parse_can_id (bit_xor id can_id_mask) ≡ parse_can_id (id % 2 ^ 29)
parse_can_id-bit_xor id =
    let x = bit_xor id can_id_mask in
    let low : x % 2 ^ 29 ≡ id % 2 ^ 29 = omega (
      arith,
      bit_xor_high 29 (id / 2 ^ 29) (id % 2 ^ 29) 7 (omega arith),
      ap (λ (t : ℕ). bit_xor t can_id_mask) (whole id),
    ) in
    header_eq (parse_can_id x) (parse_can_id (id % 2 ^ 29))
      (ground (arith, parse_can_id_lem x, parse_can_id_lem (id % 2 ^ 29), low))
      (ground (arith, parse_can_id_lem x, parse_can_id_lem (id % 2 ^ 29), low))
      (ground (arith, parse_can_id_lem x, parse_can_id_lem (id % 2 ^ 29), low))
      (ground (arith, parse_can_id_lem x, parse_can_id_lem (id % 2 ^ 29), low))
  where
    whole : (id : ℕ) → id / 2 ^ 29 * 2 ^ 29 + id % 2 ^ 29 ≡ id
    whole id = omega arith

flag_lem : (id n : ℕ) → bit_and id (2 ^ n) ≡ id / 2 ^ n % 2 * 2 ^ n
unfolding bit
flag_lem id n =
    let same : bit (id / 2 ^ n) 0 ≡ bit id (n + 0) = bit-shift id n 0 in
    let n_eq : n + 0 ≡ n = omega arith in
    bit_and-pow id n ∙ ap (λ (t : ℕ). t * 2 ^ n) (sym (same ∙ ap (bit id) n_eq))

get_or-IsByte : (bytes : List ℕ) (i : ℕ) → All IsByte bytes → get_or bytes i 0 < 256
get_or-IsByte [] i h = omega arith
get_or-IsByte (b ∷ bytes) zero h = h.0
get_or-IsByte (b ∷ bytes) (suc i) h = get_or-IsByte bytes i h.1

-- The identifier with its flags in the first four bytes of a buffer.
abbrev pub id_of : List ℕ → ℕ
id_of buffer = RawData.little_endian (take 4 buffer)

-- The frame in a buffer of at most eight bytes of data; the rest of its eight bytes is zero.
abbrev pub frame_in : List ℕ → ℕ → RawFrame
frame_in buffer now = record {
  time = now;
  header = parse_can_id (id_of buffer % 2 ^ 29);
  length = get_or buffer 4 0;
  bytes = overwrite (replicate 8 0) (take (get_or buffer 4 0) (drop 8 buffer));
}

-- Of the sixteen bytes that are read, bit 30 of the identifier makes the error for a remote request, else
-- bit 29 the error for an error message. Else a length of over eight makes the read panic, and with any
-- other length the frame is the low 29 bits of the identifier and the bytes of the data.
pub read_raw_frame_lem :
    (buffer : List ℕ) (now : ℕ)
    → length buffer ≡ 16
    → All IsByte buffer
    → read_raw_frame (filled buffer) now ≡ (
        if id_of buffer / 2 ^ 30 % 2 == 1
        then err remote_frame
        else if id_of buffer / 2 ^ 29 % 2 == 1
        then err error_frame
        else if leb (get_or buffer 4 0) 8
        then ok (frame_in buffer now)
        else panic)
unfolding read_raw_frame parse_frame
read_raw_frame_lem buffer now h bytes = rw parse_can_id-bit_xor (
    ground
      (arith, flag_lem (id_of buffer) 30, flag_lem (id_of buffer) 29, get_or-IsByte buffer 4 bytes))
