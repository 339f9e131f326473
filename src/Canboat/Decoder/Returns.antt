-- ===== src/Canboat/Decoder/Returns.antt =====
-- canboat/decoder.go: `Decode` as a whole ends.
use go_nmea_client.Canboat.Decoder.{Decoder}
