-- ===== src/Nmea/Examples.antt =====
-- `MarshalRawMessage` of nmea.go at a message of two bytes.
use go_nmea_client.Common.{ℕ, ◌≡◌, refl, [], ◌∷◌}
use go_nmea_client.Nmea.{RawMessage, marshal_raw_message}

-- A reading of times that starts at their zero.
abbrev from_zero : ℕ → ℕ
from_zero time = time

abbrev heading : RawMessage
heading = record {
  time = 4294967299;
  header = record { pgn = 127250; priority = 2; source = 11; destination = 255 };
  bytes = 7 ∷ 8 ∷ [];
}

marshal_raw_message-heading :
    marshal_raw_message from_zero heading
    ≡ 18 ∷ 241 ∷ 1 ∷ 0 ∷ 1 ∷ 0 ∷ 0 ∷ 0 ∷ 0 ∷ 0 ∷ 2 ∷ 11 ∷ 255 ∷ 7 ∷ 8 ∷ []
unfolding marshal_raw_message
marshal_raw_message-heading = refl
