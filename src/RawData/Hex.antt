-- ===== src/RawData/Hex.antt =====
-- fieldvalue.go: `RawData.AsHex`, the digits of the data.
use go_nmea_client.Common.{
  ℕ, ◌≡◌, refl, ap, ◌∙◌, List, [], ◌∷◌, Option, none, some, ok, All, IsByte,
}
use go_nmea_client.Text.{Bytes, concat}
use go_nmea_client.Actisense.RawAscii.{hex_decode}
use go_nmea_client.Actisense.N2kAscii.{encode_bytes}
use go_nmea_client.Canboat.Text.RoundTrip.{byte_texts, hex_decode-concat}

-- A nil pointer gives the empty text.
unfoldable pub as_hex : Option (List ℕ) → Bytes
as_hex none = []
as_hex (some data_bytes) = encode_bytes data_bytes

pub encode_bytes-concat : (bytes : List ℕ) → encode_bytes bytes ≡ concat (byte_texts bytes)
unfolding encode_bytes byte_texts concat
encode_bytes-concat [] = refl
encode_bytes-concat (b ∷ bytes) = rw (encode_bytes-concat bytes) refl

-- The digits decode to the data.
pub hex_decode-as_hex :
    (bytes : List ℕ) → All IsByte bytes → hex_decode (as_hex (some bytes)) ≡ ok bytes
unfolding as_hex
hex_decode-as_hex bytes h = ap hex_decode (encode_bytes-concat bytes) ∙ hex_decode-concat bytes h
