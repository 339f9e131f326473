-- ===== src/Canbus/Examples.antt =====
-- Identifiers from the tests of canbus.go, and the theorems at concrete headers.
use go_nmea_client.Common.{◌≡◌, ◌≢◌, inl, arith, refl}
use go_nmea_client.Canbus.{CanBusHeader, uint32, parse_can_id}
use go_nmea_client.Canbus.RoundTrip.{
  IsAddressed, parse_can_id-uint32, uint32_loses_group, uint32-parse_can_id,
}

-- PGN 59904, an addressed request.
abbrev iso_request : CanBusHeader
iso_request = record { pgn = 59904; priority = 6; source = 254; destination = 255 }

-- PGN 130311 is 0x1FD07: its low byte is below 240.
abbrev environment : CanBusHeader
environment = record { pgn = 130311; priority = 5; source = 23; destination = 255 }

uint32-iso_request : uint32 iso_request ≡ 0x18eafffe
unfolding uint32
uint32-iso_request = refl

uint32-environment : uint32 environment ≡ 0x15fdff17
unfolding uint32
uint32-environment = refl

parse_can_id_wind :
    parse_can_id 0x19fd1323 ≡ record { pgn = 130323; priority = 6; source = 35; destination = 255 }
unfolding parse_can_id
parse_can_id_wind = refl

parse_can_id-uint32_example : parse_can_id (uint32 iso_request) ≡ iso_request
parse_can_id-uint32_example = parse_can_id-uint32 iso_request (inl request_IsAddressed)
  where
    request_IsAddressed : IsAddressed iso_request
    request_IsAddressed = omega arith

uint32_loses_group_example :
    ((parse_can_id (uint32 environment)).pgn ≡ 0x1fdff)
    × ((parse_can_id (uint32 environment)).pgn ≢ 130311)
uint32_loses_group_example = uint32_loses_group environment (omega arith) (omega arith)

uint32-parse_can_id_example : uint32 (parse_can_id 0x18eafffe) ≡ 0x18eafffe
uint32-parse_can_id_example = uint32-parse_can_id 0x18eafffe (inl (omega arith))
