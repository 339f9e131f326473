-- ===== src/AddressMapper/Examples.antt =====
-- The theorems on addressmapper/addressmapper.go at short claims.
use go_nmea_client.Common.{ℕ, zero, suc, ◌≢◌, inl, [], ◌∷◌, arith, replicate, All, IsByte}
use go_nmea_client.Common.Bits.{bit}
use go_nmea_client.Nmea.{RawMessage}
use go_nmea_client.RawData.Uint.{field}
use go_nmea_client.AddressMapper.Products.{IsUsual}

abbrev claim_message : RawMessage
claim_message = record {
  time = 0;
  header = record { pgn = 60928; priority = 6; source = 35; destination = 255 };
  bytes = 1 ∷ 2 ∷ 0x41 ∷ 0x22 ∷ 0 ∷ 130 ∷ 120 ∷ 192 ∷ [];
}

claim_bytes : All IsByte (1 ∷ 2 ∷ 0x41 ∷ 0x22 ∷ 0 ∷ 130 ∷ 120 ∷ 192 ∷ [])
claim_bytes = ground arith

claims_differ : ◌≢◌ {A = ℕ} 0x41 0x61
claims_differ e = absurd (omega (arith, e))

-- A product of which every byte is 49, the digit 1.
abbrev product : RawMessage
product = record {
  time = 0;
  header = record { pgn = 126996; priority = 6; source = 35; destination = 255 };
  bytes = replicate 134 49;
}

replicate-IsByte : (n : ℕ) → All IsByte (replicate n 49)
replicate-IsByte zero = tt
replicate-IsByte (suc n) = (omega arith, replicate-IsByte n)

version-IsUsual : IsUsual (field (replicate 134 49) 0 16)
unfolding IsUsual field bit
version-IsUsual = inl (omega arith)

code-IsUsual : IsUsual (field (replicate 134 49) 16 16)
unfolding IsUsual field bit
code-IsUsual = inl (omega arith)
