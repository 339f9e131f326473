-- ===== src/AddressMapper/Products.antt =====
-- `PGN126996ToProductInfo` of addressmapper/addressmapper.go.
use go_nmea_client.Common.{
  ℕ, ◌+◌, ◌*◌, ◌%◌, ◌≤◌, ◌<◌, ◌≡◌, refl, List, ◌++◌, arith, ok, length, get_or, take, drop, All,
  IsByte, ◌==◌, if◌then◌else◌, ◌⊎◌, u16,
}
use go_nmea_client.Nmea.{RawMessage}
use go_nmea_client.RawData.{special, decode_variable_uint, decode_string_fix}
use go_nmea_client.RawData.Uint.{field, decode_variable_uint-special}
use go_nmea_client.RawData.Text.{IsText, Stops, decode_string_fix_aligned}
use go_nmea_client.AddressMapper.{ProductInfo, decoded, decoded_or_zero, pgn126996_to_product_info}

-- A number that is available, or the mark that it is not.
unfoldable pub IsUsual : ℕ → Type 0
IsUsual n = (n < 65533) ⊎ (n ≡ 65535)

unfoldable pub number_or_zero : ℕ → ℕ
number_or_zero n = if n == 65535 then 0 else n

decoded-number :
    (raw : List ℕ) (offset : ℕ)
    → offset % 8 ≡ 0
    → offset + 16 ≤ length raw * 8
    → offset < 1024
    → All IsByte raw
    → IsUsual (field raw offset 16)
    → decoded_or_zero (decode_variable_uint raw offset 16)
      ≡ ok (number_or_zero (field raw offset 16))
unfolding decoded_or_zero special IsUsual number_or_zero
decoded-number raw offset aligned within small bytes usual =
    rw
      (decode_variable_uint-special raw offset 16 (omega arith) (omega arith) within (omega arith)
        bytes)
      (ground arith)

-- The text of 32 bytes from byte `o` on.
unfoldable pub IsTextAt : List ℕ → ℕ → List ℕ → Type 0
IsTextAt raw o text =
    (rest : List ℕ) × (take 32 (drop o raw) ≡ text ++ rest) × All IsText text × Stops rest

decoded-text :
    (raw : List ℕ) (o : ℕ)
    → o + 32 ≤ length raw
    → o < 1024
    → (text : List ℕ) × IsTextAt raw o text
      × (decoded (decode_string_fix raw (o * 8) 256) ≡ ok text)
unfolding decoded IsTextAt
decoded-text raw o within small =
    let (text, rest, split, is_text, stops, run) =
      decode_string_fix_aligned raw o 32 (omega arith) within (omega arith) in
    (text, (rest, split, is_text, stops), rw run refl)

product_run :
    (raw : RawMessage) {version code : ℕ} {model software revision serial : List ℕ}
    → raw.header.pgn ≡ 126996
    → length raw.bytes ≡ 134
    → decoded_or_zero (decode_variable_uint raw.bytes 0 16) ≡ ok version
    → decoded_or_zero (decode_variable_uint raw.bytes 16 16) ≡ ok code
    → decoded (decode_string_fix raw.bytes 32 256) ≡ ok model
    → decoded (decode_string_fix raw.bytes 288 256) ≡ ok software
    → decoded (decode_string_fix raw.bytes 544 256) ≡ ok revision
    → decoded (decode_string_fix raw.bytes 800 256) ≡ ok serial
    → pgn126996_to_product_info raw
      ≡ ok (record {
        nmea2000_version = u16 version;
        product_code = u16 code;
        model_id = model;
        software_version_code = software;
        model_version = revision;
        model_serial_code = serial;
        certification_level = get_or raw.bytes 132 0;
        load_equivalency = get_or raw.bytes 133 0;
      })
unfolding pgn126996_to_product_info
product_run raw product size e1 e2 e3 e4 e5 e6 = rw (product, size, e1, e2, e3, e4, e5, e6) refl

-- A message of PGN 126996 with 134 bytes, whose two numbers are not one of the two marks for errors,
-- always gives a product: its numbers, 0 for one that is not available, its four texts and its last
-- two bytes.
pub pgn126996_to_product_info_lem :
    (raw : RawMessage)
    → raw.header.pgn ≡ 126996
    → length raw.bytes ≡ 134
    → All IsByte raw.bytes
    → IsUsual (field raw.bytes 0 16)
    → IsUsual (field raw.bytes 16 16)
    → (info : ProductInfo) × (pgn126996_to_product_info raw ≡ ok info)
      × (info.nmea2000_version ≡ number_or_zero (field raw.bytes 0 16))
      × (info.product_code ≡ number_or_zero (field raw.bytes 16 16))
      × IsTextAt raw.bytes 4 info.model_id
      × IsTextAt raw.bytes 36 info.software_version_code
      × IsTextAt raw.bytes 68 info.model_version
      × IsTextAt raw.bytes 100 info.model_serial_code
unfolding number_or_zero IsUsual
pgn126996_to_product_info_lem raw product size bytes version_usual code_usual =
    let version = decoded-number raw.bytes 0 refl (omega arith) (omega arith) bytes version_usual in
    let code = decoded-number raw.bytes 16 refl (omega arith) (omega arith) bytes code_usual in
    let (model, at_model, e1) = decoded-text raw.bytes 4 (omega arith) (omega arith) in
    let (software, at_software, e2) = decoded-text raw.bytes 36 (omega arith) (omega arith) in
    let (revision, at_revision, e3) = decoded-text raw.bytes 68 (omega arith) (omega arith) in
    let (serial, at_serial, e4) = decoded-text raw.bytes 100 (omega arith) (omega arith) in
    (
      record {
        nmea2000_version = u16 (number_or_zero (field raw.bytes 0 16));
        product_code = u16 (number_or_zero (field raw.bytes 16 16));
        model_id = model;
        software_version_code = software;
        model_version = revision;
        model_serial_code = serial;
        certification_level = get_or raw.bytes 132 0;
        load_equivalency = get_or raw.bytes 133 0;
      },
      product_run raw product size version code e1 e2 e3 e4,
      ground arith,
      ground arith,
      at_model,
      at_software,
      at_revision,
      at_serial,
    )
