-- ===== src/AddressMapper/Names.antt =====
-- `NodeName` of addressmapper/addressmapper.go: from the claim of an address and back to bytes.
use go_nmea_client.Common.{
  ℕ, ◌+◌, ◌-◌, ◌*◌, ◌/◌, ◌%◌, ◌<◌, ◌≡◌, ◌≢◌, refl, sym, ap, ◌∙◌, [], ◌∷◌, arith, ok, u16, ◌<<◌,
  ◌>>>◌, bit_and, bit_or, All, IsByte,
}
use go_nmea_client.Common.Bits.{bit_and_mask, bit_or_high, bit_or_fields}
use go_nmea_client.Nmea.{RawMessage}
use go_nmea_client.AddressMapper.{
  NodeName, name_bytes, name_of, big_endian, name_uint64, pgn60928_to_node_name,
}

maker_code :
    (b2 b3 : ℕ) → b2 < 256 → b3 < 256 → bit_or (u16 (b3 << 3)) (b2 >>> 5) ≡ b3 * 8 + b2 / 32
maker_code b2 b3 h2 h3 =
    ap (λ t. bit_or t (b2 >>> 5)) (omega arith) ∙ bit_or_fields 3 b3 (b2 / 32) (omega arith)

-- The bytes of a NAME that was read off eight bytes.
name_bytes-name_of :
    (b0 b1 b2 b3 b4 b5 b6 b7 : ℕ)
    → All IsByte (b0 ∷ b1 ∷ b2 ∷ b3 ∷ b4 ∷ b5 ∷ b6 ∷ b7 ∷ [])
    → name_bytes (name_of (b0 ∷ b1 ∷ b2 ∷ b3 ∷ b4 ∷ b5 ∷ b6 ∷ b7 ∷ []))
      ≡ b0 ∷ b1 ∷ bit_or (b2 % 32) (b3 / 32 * 8) ∷ b3 ∷ b4 ∷ b5 ∷ (b6 - b6 % 2) ∷ b7 ∷ []
unfolding name_bytes name_of
name_bytes-name_of b0 b1 b2 b3 b4 b5 b6 b7 h =
    let low = bit_and_mask 5 b2 in
    let middle : bit_or (bit_and b2 31) (b1 << 8) ≡ b1 * 256 + b2 % 32 =
      ap (λ t. bit_or t (b1 << 8)) low ∙ bit_or_high 8 (b2 % 32) b1 (omega arith) in
    let unique : bit_or (bit_or (bit_and b2 31) (b1 << 8)) (b0 << 16)
        ≡ b0 * 65536 + b1 * 256 + b2 % 32 =
      ap (λ t. bit_or t (b0 << 16)) middle
      ∙ bit_or_high 16 (b1 * 256 + b2 % 32) b0 (omega arith)
      ∙ omega arith in
    let maker = maker_code b2 b3 (omega arith) (omega arith) in
    let number = b0 * 65536 + b1 * 256 + b2 % 32 in
    let code = b3 * 8 + b2 / 32 in
    rw (unique, maker)
      (ground (
        arith,
        bit_and_mask 8 (number / 65536),
        bit_and_mask 8 (number / 256),
        bit_and_mask 5 number,
        bit_and_mask 3 (code / 256),
        bit_and_mask 8 (code / 8),
        bit_and_mask 3 b4,
        bit_and_mask 3 (b4 % 8),
        bit_and_mask 5 (b4 / 8),
        bit_and_mask 4 b7,
        bit_and_mask 4 (b7 % 16),
        bit_and_mask 3 (b7 / 16),
        bit_and_mask 3 (b7 / 16 % 8),
        bit_or_high 3 (b4 % 8) (b4 / 8),
        bit_or_high 4 (b7 % 16) (b7 / 16 % 8),
        bit_or_high 7 (b7 % 128) (b7 / 128),
      ))

-- An address claim of eight bytes always has a NAME, and its bytes are those of the claim, but for
-- the last bit of byte 6 and for byte 2, whose bits 3 to 7 are mixed with those of byte 3.
pub pgn60928_to_node_name_lem :
    (raw : RawMessage) (b0 b1 b2 b3 b4 b5 b6 b7 : ℕ)
    → raw.header.pgn ≡ 60928
    → raw.bytes ≡ b0 ∷ b1 ∷ b2 ∷ b3 ∷ b4 ∷ b5 ∷ b6 ∷ b7 ∷ []
    → All IsByte (b0 ∷ b1 ∷ b2 ∷ b3 ∷ b4 ∷ b5 ∷ b6 ∷ b7 ∷ [])
    → (n : NodeName) × (pgn60928_to_node_name raw ≡ ok n)
      × (name_bytes n
          ≡ b0 ∷ b1 ∷ bit_or (b2 % 32) (b3 / 32 * 8) ∷ b3 ∷ b4 ∷ b5 ∷ (b6 - b6 % 2) ∷ b7 ∷ [])
unfolding pgn60928_to_node_name
pgn60928_to_node_name_lem raw b0 b1 b2 b3 b4 b5 b6 b7 claim bytes h = (
  name_of raw.bytes,
  rw (claim, bytes) refl,
  rw bytes (name_bytes-name_of b0 b1 b2 b3 b4 b5 b6 b7 h),
)

-- Two claims that differ in the upper three bits of byte 2 only, the low bits of the manufacturer,
-- have one `Uint64`, though their manufacturers differ.
pub name_uint64_merges :
    (b0 b1 b2 c2 b3 b4 b5 b6 b7 : ℕ)
    → All IsByte (b0 ∷ b1 ∷ b2 ∷ b3 ∷ b4 ∷ b5 ∷ b6 ∷ b7 ∷ [])
    → c2 < 256
    → b2 % 32 ≡ c2 % 32
    → b2 ≢ c2
    → (name_uint64 (name_of (b0 ∷ b1 ∷ b2 ∷ b3 ∷ b4 ∷ b5 ∷ b6 ∷ b7 ∷ []))
        ≡ name_uint64 (name_of (b0 ∷ b1 ∷ c2 ∷ b3 ∷ b4 ∷ b5 ∷ b6 ∷ b7 ∷ [])))
      × ((name_of (b0 ∷ b1 ∷ b2 ∷ b3 ∷ b4 ∷ b5 ∷ b6 ∷ b7 ∷ [])).manufacturer
          ≢ (name_of (b0 ∷ b1 ∷ c2 ∷ b3 ∷ b4 ∷ b5 ∷ b6 ∷ b7 ∷ [])).manufacturer)
unfolding name_uint64 name_of
name_uint64_merges b0 b1 b2 c2 b3 b4 b5 b6 b7 h hc low differ =
    let other : All IsByte (b0 ∷ b1 ∷ c2 ∷ b3 ∷ b4 ∷ b5 ∷ b6 ∷ b7 ∷ []) = ground arith in
    (
      ap (λ t. big_endian t 0)
          (name_bytes-name_of b0 b1 b2 b3 b4 b5 b6 b7 h
            ∙ ap (λ t. b0 ∷ b1 ∷ bit_or t (b3 / 32 * 8) ∷ b3 ∷ b4 ∷ b5 ∷ (b6 - b6 % 2) ∷ b7 ∷ [])
                low
            ∙ sym (name_bytes-name_of b0 b1 c2 b3 b4 b5 b6 b7 other)),
      λ e. differ (omega (arith, e, maker_code b2 b3, maker_code c2 b3)),
    )
