-- ===== src/SocketCan/RoundTrip.antt =====
-- socketcan/socketcan.go: a frame that is sent is read back.
use go_nmea_client.Common.{
  ℕ, zero, suc, ◌+◌, ◌/◌, ◌%◌, ◌^◌, ◌≤◌, ◌<◌, ◌≡◌, ◌⊎◌, inl, inr, refl, ap, ◌∙◌, List, [], ◌∷◌,
  true, false, arith, ok, leb, ◌==◌, ne→==, length, take, replicate, overwrite, length-overwrite,
  bit_or, All, IsByte, u8,
}
use go_nmea_client.Common.Bits.{bit_or_high, bit_or-lt}
use go_nmea_client.Canbus.{CanBusHeader, uint32, parse_can_id}
use go_nmea_client.Canbus.Layout.{Fits, uint32_lem}
use go_nmea_client.Canbus.RoundTrip.{IsAddressed, IsBroadcast, parse_can_id-uint32}
use go_nmea_client.Nmea.{RawFrame}
use go_nmea_client.SocketCan.{can_frame, read_raw_frame, filled, can_id_eff_flag}
use go_nmea_client.SocketCan.Frames.{read_raw_frame_lem, id_of}

-- A header that its identifier holds whole.
abbrev pub IsWhole : CanBusHeader → Type 0
IsWhole h = IsAddressed h ⊎ (IsBroadcast h × (240 ≤ h.pgn % 256))

IsWhole-Fits : (h : CanBusHeader) → IsWhole h → Fits h
IsWhole-Fits h (inl a) = a.fits
IsWhole-Fits h (inr (b, low)) = b.fits

uint32-lt : (h : CanBusHeader) → Fits h → uint32 h < 2 ^ 29
uint32-lt h f = ground (
  arith,
  uint32_lem h f,
  f.priority_fits,
  f.pgn_fits,
  f.source_fits,
  bit_or-lt 8 h.destination (h.pgn % 256) f.destination_fits (omega arith),
)

-- The identifier with the flag of the extended format.
abbrev pub sent_id : CanBusHeader → ℕ
sent_id h = bit_or (uint32 h) can_id_eff_flag

sent_id_lem : (h : CanBusHeader) → Fits h → (uint32 h < 2 ^ 29) × (sent_id h ≡ 2 ^ 31 + uint32 h)
sent_id_lem h f =
    let small = uint32-lt h f in (small, bit_or_high 31 (uint32 h) 1 (omega (arith, small)))

take-overwrite :
    (n : ℕ) (dst src : List ℕ)
    → n ≤ length dst
    → n ≤ length src
    → take n (overwrite dst (take n src)) ≡ take n src
take-overwrite zero dst src hd hs = refl
take-overwrite (suc n) [] src hd hs = absurd (omega arith)
take-overwrite (suc n) (d ∷ dst) [] hd hs = absurd (omega arith)
take-overwrite (suc n) (d ∷ dst) (s ∷ src) hd hs =
    ap (◌∷◌ s) (take-overwrite n dst src (omega arith) (omega arith))

overwrite-IsByte :
    (dst src : List ℕ) → All IsByte dst → All IsByte src → All IsByte (overwrite dst src)
overwrite-IsByte [] src hd hs = tt
overwrite-IsByte (d ∷ dst) [] hd hs = hd
overwrite-IsByte (d ∷ dst) (s ∷ src) hd hs = (hs.0, overwrite-IsByte dst src hd.1 hs.1)

take-IsByte : (n : ℕ) (bytes : List ℕ) → All IsByte bytes → All IsByte (take n bytes)
take-IsByte zero bytes h = tt
take-IsByte (suc n) [] h = tt
take-IsByte (suc n) (b ∷ bytes) h = (h.0, take-IsByte n bytes h.1)

-- The bytes of a frame, with zeros behind its data.
abbrev pub data_of : RawFrame → List ℕ
data_of raw = overwrite (replicate 8 0) (take raw.length raw.bytes)

-- The bytes that are sent for a frame.
abbrev pub buffer_of : RawFrame → List ℕ
buffer_of raw =
    let id = sent_id raw.header in
    u8 id
    ∷ u8 (id / 256)
    ∷ u8 (id / 256 / 256)
    ∷ u8 (id / 256 / 256 / 256)
    ∷ raw.length
    ∷ 0
    ∷ 0
    ∷ 0
    ∷ data_of raw

pub can_frame_lem : (raw : RawFrame) → raw.length ≤ 8 → can_frame raw ≡ ok (buffer_of raw)
unfolding can_frame
can_frame_lem raw h = let e : leb raw.length 8 ≡ true = ground arith in rw e refl

-- The sixteen bytes that are sent for a frame of at most eight bytes, whose header its identifier holds
-- whole, are read as that frame: its header, its length and its data, with zeros in the bytes behind it.
pub read_raw_frame-can_frame :
    (raw : RawFrame) (now : ℕ)
    → IsWhole raw.header
    → raw.length ≤ length raw.bytes
    → length raw.bytes ≤ 8
    → All IsByte raw.bytes
    → (buffer : List ℕ) × (can_frame raw ≡ ok buffer)
      × (read_raw_frame (filled buffer) now ≡ ok (record raw { time = now; bytes = data_of raw }))
read_raw_frame-can_frame raw now whole enough short bytes =
    let n = uint32 raw.header in
    let len : raw.length ≤ 8 = omega arith in
    let (small, id) = sent_id_lem raw.header (IsWhole-Fits raw.header whole) in
    let same : id_of (buffer_of raw) ≡ 2 ^ 31 + n = omega (arith, id, small) in
    let back : parse_can_id (id_of (buffer_of raw) % 2 ^ 29) ≡ raw.header =
      ap parse_can_id (omega (arith, same, small)) ∙ parse_can_id-uint32 raw.header whole in
    let kept : take raw.length (data_of raw) ≡ take raw.length raw.bytes =
      take-overwrite raw.length (replicate 8 0) raw.bytes (omega arith) (omega arith) in
    let no_rtr : (id_of (buffer_of raw) / 2 ^ 30 % 2 == 1) ≡ false =
      ne→== _ _ (omega (arith, same, small)) in
    let no_err : (id_of (buffer_of raw) / 2 ^ 29 % 2 == 1) ≡ false =
      ne→== _ _ (omega (arith, same, small)) in
    let fits : leb raw.length 8 ≡ true = ground arith in
    (
      buffer_of raw,
      can_frame_lem raw len,
      read_raw_frame_lem (buffer_of raw) now
            (omega (arith, length-overwrite (replicate 8 0) (take raw.length raw.bytes)))
            (
              omega arith,
              (
                omega arith,
                (
                  omega arith,
                  (
                    omega arith,
                    (
                      omega arith,
                      (
                        omega arith,
                        (
                          omega arith,
                          (
                            omega arith,
                            overwrite-IsByte (replicate 8 0) _ (omega arith)
                                (take-IsByte raw.length raw.bytes bytes),
                          ),
                        ),
                      ),
                    ),
                  ),
                ),
              ),
            )
          ∙ rw (no_rtr, no_err, fits, back, kept) refl,
    )
