-- ===== src/N2kReader/Loop.antt =====
-- cmd/n2kreader/main.go: the loop of `main` over the messages of the device. A round is a step on the
-- variables of the loop, with what it prints. The decoder and the encodings of Go's library are arguments.
pub mod Throttled
pub mod Printed
pub mod Refused
use go_nmea_client.Common.{
  ℕ, zero, suc, ◌+◌, ◌*◌, List, [], ◌∷◌, ◌++◌, Option, none, some, Bool, true, false, Result, ok,
  err, panic, ltb, leb, ◌==◌, not, ◌&&◌, ◌||◌, if◌then◌else◌, ◌<<◌, bit_or, u64,
}
use go_nmea_client.Canbus.{CanBusHeader}
use go_nmea_client.Nmea as Nmea
use go_nmea_client.Nmea.{RawMessage}
use go_nmea_client.Text.{Bytes}
use go_nmea_client.Canboat.Text as CanboatText
use go_nmea_client.Canboat.Decoder.Messages.{Message}
use go_nmea_client.AddressMapper.Table.{AddressMapper, Node, Utf16, process, nodes_in_use_by_source}
use go_nmea_client.FastPacket.Assembler.{contains}
use go_nmea_client.N2kReader.Csv as Csv
use go_nmea_client.N2kReader.Csv.{CsvPgnFields, match_csv}
use go_nmea_client.N2kReader.{MsgFilter, matches_header, marshal_raw_hex_string}

pub data Format : Type 0 where
  json canboat hex base64 : Format

-- The flags that the loop reads. The address mapper is off where `has_mapper` is false; `throttle` is
-- zero where messages are not throttled.
pub record Options : Type 0 where
  pub only_raw : Bool
  pub no_show_pgn : Bool
  pub has_mapper : Bool
  pub output_format : Format
  pub throttle : ℕ
  pub source_allow_filter : Option (List ℕ)
  pub filters : List MsgFilter
  pub csv_fields : List CsvPgnFields

-- Go's library, the decoder, and whether a row is written to its file. The JSON of a decoded message may be
-- refused.
pub record Library : Type 0 where
  pub utf16 : Utf16
  pub stamp : ℕ → Bytes
  pub unix_nano : ℕ → ℕ
  pub json_raw : RawMessage → Bytes
  pub json_decoded : Message → Option Bytes
  pub to_base64 : Bytes → Bytes
  pub decode : RawMessage → Option Message
  pub csv : Csv.Library
  pub is_written : CsvPgnFields → List Bytes → Bool

-- What `ReadRawMessage` returns; a closed device or a cancelled context is `closed`. A message comes
-- with the two times that the address mapper reads.
pub data Received : Type 0 where
  end_of_file closed failed : Received
  message : RawMessage → ℕ → ℕ → Received

pub record State : Type 0 where
  pub throttled : List (ℕ × ℕ)
  pub msg_count : ℕ
  pub error_count_decode : ℕ
  pub error_count_read : ℕ
  pub nodes_by_source : List (ℕ × Node)
  pub address_mapper : AddressMapper

-- What is printed. The names are those of the nodes that send.
pub data Line : Type 0 where
  read_failed mapping_failed : Line
  new_node : Node → Line
  raw_line : Bytes → Line
  unknown_pgn : RawMessage → ℕ → ℕ → ℕ → Bytes → Line
  csv_row : CsvPgnFields → List Bytes → Line
  decoded_line : Message → Bytes → Line
  finishing : ℕ → ℕ → Line

pub data Step : Type 0 where
  goes_on : State → List Line → Step
  ends : List Line → Step

-- `raw-only`
unfoldable pub raw_text : Library → Format → RawMessage → ℕ → Bytes
raw_text lib json raw name = lib.json_raw raw
raw_text lib canboat raw name = CanboatText.marshal_raw_message lib.stamp raw
raw_text lib hex raw name = marshal_raw_hex_string lib.unix_nano raw name
raw_text lib base64 raw name = lib.to_base64 (Nmea.marshal_raw_message lib.unix_nano raw)

-- A message that is not decoded has no text in the other two formats.
unfoldable pub unknown_text : Library → Format → RawMessage → Bytes
unknown_text lib json raw = lib.json_raw raw
unknown_text lib canboat raw = CanboatText.marshal_raw_message lib.stamp raw
unknown_text lib hex raw = []
unknown_text lib base64 raw = []

-- The text of a decoded message, or nothing where the program ends with an error.
unfoldable pub decoded_text : Library → Format → RawMessage → Message → ℕ → Option Bytes
decoded_text lib json raw msg name = lib.json_decoded msg
decoded_text lib canboat raw msg name = some (CanboatText.marshal_raw_message lib.stamp raw)
decoded_text lib hex raw msg name = some (marshal_raw_hex_string lib.unix_nano raw name)
decoded_text lib base64 raw msg name = some []

unfoldable pub find_node : ℕ → List (ℕ × Node) → Option Node
find_node source [] = none
find_node source ((s, node) ∷ known) =
    let rest = find_node source known in if s == source then some node else rest

-- `uint64(PGN)<<2 | uint64(Source)`
unfoldable pub throttle_key : CanBusHeader → ℕ
throttle_key header = bit_or (u64 (header.pgn << 2)) header.source

unfoldable pub last_time : ℕ → List (ℕ × ℕ) → Option ℕ
last_time key [] = none
last_time key ((k, t) ∷ throttled) =
    let rest = last_time key throttled in if k == key then some t else rest

-- The table of throttled keys after a message, or nothing where the message is dropped.
unfoldable pub throttle_pass : ℕ → List (ℕ × ℕ) → RawMessage → Option (List (ℕ × ℕ))
throttle_pass window throttled raw =
    let key = throttle_key raw.header in
    let entered = some ((key, raw.time + window) ∷ throttled) in
    elim (last_time key throttled) [
      | none ↦ entered
      | some t ↦ if ltb t raw.time then entered else none
    ]

unfoldable pub throttled_by : Options → State → RawMessage → Option State
throttled_by options s raw =
    if ltb 0 options.throttle
    then (elim (throttle_pass options.throttle s.throttled raw) [
      | none ↦ none
      | some table ↦ some (record s { throttled = table })
    ])
    else some s

unfoldable pub show : Library → Options → State → RawMessage → Message → ℕ → List Line → Step
show lib options s raw msg name lines =
    if options.no_show_pgn
    then goes_on s lines
    else (elim (decoded_text lib options.output_format raw msg name) [
      | none ↦ ends lines
      | some text ↦ goes_on s (lines ++ (decoded_line msg text ∷ []))
    ])

-- The row for a CSV file, if the message gives one. Without CSV fields there is none to find.
unfoldable pub with_row : Library → Options → State → RawMessage → Message → ℕ → List Line → Step
with_row lib options s raw msg name lines =
    elim (match_csv lib.csv options.csv_fields msg raw.time) [
      | none ↦ show lib options s raw msg name lines
      | some (values, file) ↦
          if lib.is_written file values
          then show lib options s raw msg name (lines ++ (csv_row file values ∷ []))
          else ends lines
    ]

-- From the decoder on.
unfoldable pub decode_and_show : Library → Options → State → RawMessage → ℕ → List Line → Step
decode_and_show lib options s raw name lines = elim (lib.decode raw) [
  | none ↦
      let s' = record s { error_count_decode = s.error_count_decode + 1 } in
      goes_on s' (
        lines
        ++ (unknown_pgn raw name s'.msg_count s'.error_count_decode
              (unknown_text lib options.output_format raw)
            ∷ []))
  | some msg ↦ with_row lib options s raw (record msg { node_name = name }) name lines
]

unfoldable pub is_allowed : Option (List ℕ) → ℕ → Bool
is_allowed none source = true
is_allowed (some sources) source = contains sources source

unfoldable pub is_accepted : Options → RawMessage → Bool
is_accepted options raw =
    if is_allowed options.source_allow_filter raw.header.source
    then matches_header options.filters raw.header
    else false

unfoldable pub name_of_node : Option Node → ℕ
name_of_node none = 0
name_of_node (some node) = node.uint64_name

unfoldable pub node_lines : Bool → Option Node → List Line
node_lines changed none = []
node_lines changed (some node) = if changed then new_node node ∷ [] else []

-- The rest of a round, for a message that the filters let through.
unfoldable pub print_accepted : Library → Options → State → RawMessage → Bool → List Line → Step
print_accepted lib options s raw changed lines =
    let node = find_node raw.header.source s.nodes_by_source in
    let name = name_of_node node in
    let lines' = lines ++ node_lines changed node in
    if options.only_raw
    then goes_on s (lines' ++ (raw_line (raw_text lib options.output_format raw name) ∷ []))
    else (elim (throttled_by options s raw) [
      | none ↦ goes_on s lines'
      | some s' ↦ decode_and_show lib options s' raw name lines'
    ])

unfoldable pub filtered : Library → Options → State → RawMessage → Bool → List Line → Step
filtered lib options s raw changed lines =
    if is_accepted options raw
    then print_accepted lib options s raw changed lines
    else goes_on s lines

-- What `Process` of the address mapper returns.
unfoldable pub with_mapping :
    {E : Type 0} → Library → Options → State → RawMessage → Result E Bool → Step
with_mapping lib options s raw (ok changed) =
    let s' =
      if changed
      then record s { nodes_by_source = nodes_in_use_by_source s.address_mapper.known_nodes }
      else s in
    filtered lib options s' raw changed []
with_mapping lib options s raw (err e) = filtered lib options s raw false (mapping_failed ∷ [])
with_mapping lib options s raw panic = ends []

unfoldable pub on_message : Library → Options → State → RawMessage → ℕ → ℕ → Step
on_message lib options s raw now later =
    let s' = record s { error_count_read = 0 } in
    if options.has_mapper
    then (let r = process lib.utf16 s.address_mapper now later raw in
        with_mapping lib options (record s' { address_mapper = r.0 }) raw r.1)
    else filtered lib options s' raw false []

unfoldable pub on_failure : State → Step
on_failure s =
    let s' = record s { error_count_read = s.error_count_read + 1 } in
    if ltb 20 s'.error_count_read then ends (read_failed ∷ []) else goes_on s' (read_failed ∷ [])

-- One round of the loop.
unfoldable pub step : Library → Options → State → Received → Step
step lib options s received =
    let s' = record s { msg_count = s.msg_count + 1 } in
    elim received [
      | end_of_file ↦ ends (finishing s'.msg_count s'.error_count_decode ∷ [])
      | closed ↦ ends []
      | failed ↦ on_failure s'
      | message raw now later ↦ on_message lib options s' raw now later
    ]

-- The loop over what the device gives: what is printed, and the variables where it still goes on.
unfoldable pub run : Library → Options → State → List Received → List Line × Option State
run lib options s [] = ([], some s)
run lib options s (r ∷ rest) = elim (step lib options s r) [
  | ends lines ↦ (lines, none)
  | goes_on s' lines ↦ let later = run lib options s' rest in (lines ++ later.0, later.1)
]
