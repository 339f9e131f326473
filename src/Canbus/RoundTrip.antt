-- ===== src/Canbus/RoundTrip.antt =====
-- How `Uint32` and `ParseCANID` of canbus.go fit together.
use go_nmea_client.Common.{
  ℕ, ◌+◌, ◌*◌, ◌/◌, ◌%◌, ◌^◌, ◌<◌, ◌≤◌, ◌≡◌, ◌≢◌, ◌⊎◌, inl, inr, arith, bit_or, all_below,
  all_below→true, ◌==◌, ==→eq, refl, ap, true,
}
use go_nmea_client.Common.Bits.{bit_or-zero}
use go_nmea_client.Canbus.{CanBusHeader, uint32, parse_can_id, address_global}
use go_nmea_client.Canbus.Layout.{Fits, uint32_lem, parse_can_id_lem}

-- The PDU format, bits 8 to 15 of the PGN.
abbrev pub pdu_format : CanBusHeader → ℕ
pdu_format h = h.pgn / 256 % 256

-- An addressed PGN (format below 240) has a zero low byte.
pub record IsAddressed (h : CanBusHeader) : Type 0 where
  pub fits : Fits h
  pub addressed : pdu_format h < 240
  pub low_byte_zero : h.pgn % 256 ≡ 0

-- A broadcast PGN keeps its group extension in the low byte.
pub record IsBroadcast (h : CanBusHeader) : Type 0 where
  pub fits : Fits h
  pub broadcast : 240 ≤ pdu_format h
  pub to_all : h.destination ≡ address_global

header_eq :
    (g h : CanBusHeader)
    → g.pgn ≡ h.pgn
    → g.priority ≡ h.priority
    → g.source ≡ h.source
    → g.destination ≡ h.destination
    → g ≡ h
header_eq g h p q r s = λ i. record { pgn = p i; priority = q i; source = r i; destination = s i }

addressed_round : (h : CanBusHeader) → IsAddressed h → parse_can_id (uint32 h) ≡ h
addressed_round h a =
    let n = uint32 h in
    let e : n ≡ h.priority * 2 ^ 26 + (h.pgn / 256 * 256 + h.destination) * 2 ^ 8 + h.source =
      ground (arith, uint32_lem h a.fits, bit_or-zero h.destination) in
    header_eq (parse_can_id n) h (ground (arith, parse_can_id_lem n))
      (ground (arith, parse_can_id_lem n)) (ground (arith, parse_can_id_lem n))
      (ground (arith, parse_can_id_lem n))

broadcast_round :
    (h : CanBusHeader) → IsBroadcast h → 240 ≤ h.pgn % 256 → parse_can_id (uint32 h) ≡ h
broadcast_round h b low =
    let n = uint32 h in
    let e : n ≡ h.priority * 2 ^ 26 + h.pgn * 2 ^ 8 + h.source =
      ground (arith, uint32_lem h b.fits) in
    header_eq (parse_can_id n) h (ground (arith, parse_can_id_lem n))
      (ground (arith, parse_can_id_lem n)) (ground (arith, parse_can_id_lem n))
      (ground (arith, parse_can_id_lem n))

-- A header that fits the identifier is read back whole, where it is addressed, or broadcast with a
-- low PGN byte of at least 240.
pub parse_can_id-uint32 :
    (h : CanBusHeader)
    → IsAddressed h ⊎ (IsBroadcast h × (240 ≤ h.pgn % 256))
    → parse_can_id (uint32 h) ≡ h
parse_can_id-uint32 h (inl a) = addressed_round h a
parse_can_id-uint32 h (inr (b, low)) = broadcast_round h b low

bit_or-all_ones_table : all_below 256 (λ p. bit_or 255 p == 255) ≡ true
unfolding all_below
bit_or-all_ones_table = refl

bit_or-all_ones : (p : ℕ) → p < 256 → bit_or 255 p ≡ 255
bit_or-all_ones p h = ==→eq _ _ (all_below→true 256 _ p bit_or-all_ones_table h)

-- For a broadcast header whose low PGN byte is below 240 the low byte is read back as 255, so the
-- PGN comes back changed.
pub uint32_loses_group :
    (h : CanBusHeader)
    → IsBroadcast h
    → h.pgn % 256 < 240
    → ((parse_can_id (uint32 h)).pgn ≡ h.pgn / 256 * 256 + 255)
      × ((parse_can_id (uint32 h)).pgn ≢ h.pgn)
uint32_loses_group h b low =
    let n = uint32 h in
    let whole : n ≡ h.priority * 2 ^ 26 + (h.pgn / 256 * 256 + 255) * 2 ^ 8 + h.source = ground (
      arith,
      uint32_lem h b.fits,
      ap (λ (d : ℕ). bit_or d (h.pgn % 256)) b.to_all,
      bit_or-all_ones (h.pgn % 256),
    ) in
    let e : (parse_can_id n).pgn ≡ h.pgn / 256 * 256 + 255 = ground (arith, parse_can_id_lem n) in
    (e, omega arith)

parse_can_id-Fits : (id : ℕ) → Fits (parse_can_id id)
parse_can_id-Fits id = record {
  priority_fits = ground (arith, parse_can_id_lem id);
  pgn_fits = ground (arith, parse_can_id_lem id);
  source_fits = ground (arith, parse_can_id_lem id);
  destination_fits = ground (arith, parse_can_id_lem id);
}

-- An identifier is rebuilt from its header, but for its three flag bits, where it is addressed or
-- its bits 8 to 15 are at least 240.
pub uint32-parse_can_id :
    (id : ℕ)
    → (id / 2 ^ 16 % 256 < 240) ⊎ (240 ≤ id / 2 ^ 8 % 256)
    → uint32 (parse_can_id id) ≡ id % 2 ^ 29
uint32-parse_can_id id h =
    let p = parse_can_id id in
    ground
      (arith, parse_can_id_lem id, uint32_lem p (parse_can_id-Fits id), bit_or-zero p.destination)
