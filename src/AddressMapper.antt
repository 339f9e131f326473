-- ===== src/AddressMapper.antt =====
-- addressmapper/addressmapper.go: the NAME of a node and the product information, as values; the table of
-- nodes is in Table, the queue of requests in Requests.
pub mod Names
pub mod Requests
pub mod Table
pub mod Products
mod Examples
use go_nmea_client.Common.{
  ℕ, ◌+◌, ◌-◌, ◌*◌, List, [], ◌∷◌, Bool, Result, ok, err, panic, ◌>>=◌, ◌>>◌, fail_if, ◌==◌, not,
  if◌then◌else◌, u8, u16, ◌<<◌, ◌>>>◌, bit_and, bit_or, length, get_or,
}
use go_nmea_client.Nmea.{RawMessage}
use go_nmea_client.RawData.{no_data, decode_variable_uint, decode_string_fix}
use go_nmea_client.RawData as RawData

pub data Error : Type 0 where
  wrong_pgn wrong_length : Error
  not_decoded : RawData.Error → Error

pub record NodeName : Type 0 where
  pub unique_number : ℕ
  pub manufacturer : ℕ
  pub device_instance_lower : ℕ
  pub device_instance_upper : ℕ
  pub device_function : ℕ
  pub device_class : ℕ
  pub system_instance : ℕ
  pub industry_group : ℕ
  pub arbitrary_address_capable : ℕ

-- Bytes 2 and 3 as in the source.
unfoldable pub name_bytes : NodeName → List ℕ
name_bytes n =
    u8 (bit_and (n.unique_number >>> 16) 0xff)
    ∷ u8 (bit_and (n.unique_number >>> 8) 0xff)
    ∷ bit_or (u8 (bit_and n.unique_number 31)) (u8 (u8 (bit_and (n.manufacturer >>> 8) 7) << 3))
    ∷ u8 (bit_and (n.manufacturer >>> 3) 0xff)
    ∷ bit_or (bit_and n.device_instance_lower 7) (u8 (bit_and n.device_instance_upper 31 << 3))
    ∷ n.device_function
    ∷ u8 (n.device_class << 1)
    ∷ bit_or (bit_or (bit_and n.system_instance 15) (u8 (bit_and n.industry_group 7 << 4)))
        (u8 (n.arbitrary_address_capable << 7))
    ∷ []

-- `binary.BigEndian.Uint64`, of the bytes from the last one on.
unfoldable pub big_endian : List ℕ → ℕ → ℕ
big_endian [] acc = acc
big_endian (b ∷ bytes) acc = big_endian bytes (acc * 256 + b)

unfoldable pub name_uint64 : NodeName → ℕ
name_uint64 n = big_endian (name_bytes n) 0

abbrev pub pgn_iso_address_claim : ℕ
pgn_iso_address_claim = 60928

-- The fields of eight bytes.
unfoldable pub name_of : List ℕ → NodeName
name_of b = record {
  unique_number =
      bit_or (bit_or (bit_and (get_or b 2 0) 31) (get_or b 1 0 << 8)) (get_or b 0 0 << 16);
  manufacturer = bit_or (u16 (get_or b 3 0 << 3)) (get_or b 2 0 >>> 5);
  device_instance_lower = bit_and (get_or b 4 0) 7;
  device_instance_upper = get_or b 4 0 >>> 3;
  device_function = get_or b 5 0;
  device_class = get_or b 6 0 >>> 1;
  system_instance = bit_and (get_or b 7 0) 15;
  industry_group = bit_and (get_or b 7 0 >>> 4) 7;
  arbitrary_address_capable = get_or b 7 0 >>> 7;
}

-- The length is tested first, so no index is out of range.
unfoldable pub pgn60928_to_node_name : RawMessage → Result Error NodeName
pgn60928_to_node_name raw = do
  fail_if (not (raw.header.pgn == pgn_iso_address_claim)) wrong_pgn
  fail_if (not (length raw.bytes == 8)) wrong_length
  ok (name_of raw.bytes)

pub record ProductInfo : Type 0 where
  pub nmea2000_version : ℕ
  pub product_code : ℕ
  pub model_id : List ℕ
  pub software_version_code : List ℕ
  pub model_version : List ℕ
  pub model_serial_code : List ℕ
  pub certification_level : ℕ
  pub load_equivalency : ℕ

-- `if err != nil { return ..., err }`
unfoldable pub decoded {ℓ} : {A : Type ℓ} → Result RawData.Error A → Result Error A
decoded (ok a) = ok a
decoded (err e) = err (not_decoded e)
decoded panic = panic

-- The same, but a number that is not available is 0.
unfoldable pub decoded_or_zero : Result RawData.Error ℕ → Result Error ℕ
decoded_or_zero (ok n) = ok n
decoded_or_zero (err no_data) = ok 0
decoded_or_zero (err e) = err (not_decoded e)
decoded_or_zero panic = panic

unfoldable pub pgn126996_to_product_info : RawMessage → Result Error ProductInfo
pgn126996_to_product_info raw = do
  fail_if (not (raw.header.pgn == 126996)) wrong_pgn
  fail_if (not (length raw.bytes == 134)) wrong_length
  version ← decoded_or_zero (decode_variable_uint raw.bytes 0 16)
  code ← decoded_or_zero (decode_variable_uint raw.bytes 16 16)
  model ← decoded (decode_string_fix raw.bytes 32 256)
  software ← decoded (decode_string_fix raw.bytes 288 256)
  model_version ← decoded (decode_string_fix raw.bytes 544 256)
  serial ← decoded (decode_string_fix raw.bytes 800 256)
  ok (record {
    nmea2000_version = u16 version;
    product_code = u16 code;
    model_id = model;
    software_version_code = software;
    model_version = model_version;
    model_serial_code = serial;
    certification_level = get_or raw.bytes 132 0;
    load_equivalency = get_or raw.bytes 133 0;
  })
