-- ===== src/AddressMapper/Table.antt =====
-- addressmapper/addressmapper.go: the table of nodes, `Process` and what reads the table.
-- A pointer to a node is its NAME: a node is made once for each NAME and is never removed. The clock is
-- read at two places of one call; both readings are arguments, and 0 is Go's zero time. A request that
-- a call sends to `requestsChan` is in its result: the channel takes twenty, and a full one holds the
-- caller, and the mutex with it, until `Run` takes a request.
pub mod Claims
pub mod Arbitration
pub mod Nodes
pub mod Losers
pub mod InUse
pub mod Sent
mod Examples
use go_nmea_client.Common.{
  ℕ, ◌+◌, ◌*◌, List, [], ◌∷◌, Option, none, some, Bool, true, false, Result, ok, err, panic, ◌>>=◌,
  ◌>>◌, fail_if, ltb, leb, ◌==◌, ◌&&◌, ◌||◌, not, if◌then◌else◌,
}
use go_nmea_client.Canbus.{address_null, address_global}
use go_nmea_client.Nmea.{RawMessage}
use go_nmea_client.RawData as RawData
use go_nmea_client.RawData.{little_endian, decode_string_lau}
use go_nmea_client.AddressMapper.{
  Error, wrong_pgn, NodeName, ProductInfo, decoded, pgn_iso_address_claim, pgn60928_to_node_name,
  pgn126996_to_product_info,
}
use go_nmea_client.AddressMapper.Requests.{create_iso_request, Writer, new_writer}

abbrev pub pgn_product_info : ℕ
pgn_product_info = 126996

abbrev pub pgn_configuration_information : ℕ
pgn_configuration_information = 126998

abbrev pub pgn_pgn_list : ℕ
pgn_pgn_list = 126464

pub record ConfigurationInfo : Type 0 where
  pub installation_desc1 : List ℕ
  pub installation_desc2 : List ℕ
  pub manufacturer_info : List ℕ

-- UTF-16 text is decoded by Go's library, an argument.
abbrev pub Utf16 : Type 0
Utf16 = Bool → List ℕ → Result RawData.Error (List ℕ)

unfoldable pub pgn126998_to_configuration_info : Utf16 → RawMessage → Result Error ConfigurationInfo
pgn126998_to_configuration_info utf16 raw = do
  fail_if (not (raw.header.pgn == pgn_configuration_information)) wrong_pgn
  (desc1, offset1) ← decoded (decode_string_lau utf16 raw.bytes 0)
  (desc2, offset2) ← decoded (decode_string_lau utf16 raw.bytes offset1)
  (info, _) ← decoded (decode_string_lau utf16 raw.bytes offset2)
  ok (record { installation_desc1 = desc1; installation_desc2 = desc2; manufacturer_info = info })

-- `uint64_name` is the field `NAME`; an information that is not there is the zero value, `none`.
pub record Node : Type 0 where
  pub source : ℕ
  pub uint64_name : ℕ
  pub name : NodeName
  pub valid_name : Bool
  pub product_info : Option ProductInfo
  pub valid_product_info : Bool
  pub configuration_info : Option ConfigurationInfo
  pub valid_configuration_info : Bool

pub record BusSlot : Type 0 where
  pub node : Option ℕ
  pub claimed : ℕ
  pub product_info_requested : ℕ
  pub config_info_requested : ℕ
  pub pgn_list_requested : ℕ
  pub last_packet : ℕ

abbrev pub new_slot : BusSlot
new_slot = record {
  node = none;
  claimed = 0;
  product_info_requested = 0;
  config_info_requested = 0;
  pgn_list_requested = 0;
  last_packet = 0;
}

pub record Config : Type 0 where
  pub request_product_info : Bool
  pub request_configuration_information : Bool
  pub request_pgn_list : Bool

pub record AddressMapper : Type 0 where
  pub config : Config
  pub write_enabled : Bool
  pub is_running : Bool
  pub known_nodes : List Node
  pub address2node : ℕ → Option BusSlot

unfoldable pub new_address_mapper_with_config : Config → AddressMapper
new_address_mapper_with_config config = record {
  config = config;
  write_enabled = false;
  is_running = false;
  known_nodes = [];
  address2node = λ a. none;
}

unfoldable pub new_address_mapper : AddressMapper
new_address_mapper = new_address_mapper_with_config (record {
  request_product_info = false;
  request_configuration_information = false;
  request_pgn_list = false;
})

-- The mapper, and what is sent to `toggleWriteChan`.
unfoldable pub toggle_write : AddressMapper → AddressMapper × Option Bool
toggle_write m =
    let enabled = not m.write_enabled in
    (record m { write_enabled = enabled }, if m.is_running then some enabled else none)

-- The start of `Run`, up to its loop: nothing where it is running already.
unfoldable pub start_run : AddressMapper → Option (AddressMapper × Writer)
start_run m =
    if m.is_running then none else some (record m { is_running = true }, new_writer m.write_enabled)

-- The deferred function of `Run`.
unfoldable pub stop_run : AddressMapper → AddressMapper
stop_run m = record m { is_running = false }

unfoldable pub find : List Node → ℕ → Option Node
find [] name = none
find (n ∷ nodes) name = let rest = find nodes name in if n.uint64_name == name then some n else rest

-- A change of the node that a pointer names.
unfoldable pub change : List Node → ℕ → (Node → Node) → List Node
change [] name f = []
change (n ∷ nodes) name f =
    let rest = change nodes name f in if n.uint64_name == name then f n ∷ rest else n ∷ rest

unfoldable pub set_source : List Node → ℕ → ℕ → List Node
set_source nodes name source = change nodes name (λ n. record n { source = source })

-- `n.ValidName` behind a pointer; the pointers are to known nodes.
unfoldable pub has_valid_name : List Node → ℕ → Bool
has_valid_name nodes name = elim (find nodes name) [ none ↦ false | some n ↦ n.valid_name ]

-- What a handler leaves: the nodes, the slot, its result and the requests it sends.
pub record Handled : Type 0 where
  pub nodes : List Node
  pub slot : BusSlot
  pub result : Result Error Bool
  pub requests : List RawMessage

unfoldable pub fresh_node : ℕ → ℕ → NodeName → Node
fresh_node source uint64_name name = record {
  source = source;
  uint64_name = uint64_name;
  name = name;
  valid_name = true;
  product_info = none;
  valid_product_info = false;
  configuration_info = none;
  valid_configuration_info = false;
}

unfoldable pub with_node : List Node → ℕ → ℕ → NodeName → List Node
with_node nodes source uint64_name name = elim (find nodes uint64_name) [
  | none ↦ fresh_node source uint64_name name ∷ nodes
  | some n ↦ nodes
]

-- Both cases in which the slot gets the node.
unfoldable pub assign : List Node → BusSlot → ℕ → ℕ → ℕ → List Node × BusSlot × Bool
assign nodes slot uint64_name source now = (
  set_source nodes uint64_name source,
  record slot { node = some uint64_name; claimed = now },
  true,
)

unfoldable pub claim : List Node → BusSlot → ℕ → ℕ → ℕ → List Node × BusSlot × Bool
claim nodes slot uint64_name source now = elim slot.node [
  | none ↦ assign nodes slot uint64_name source now
  | some other ↦
      if has_valid_name nodes other && ltb uint64_name other
      then assign (set_source nodes other address_null) slot uint64_name source now
      else (nodes, slot, false)
]

unfoldable pub request_product : AddressMapper → ℕ → ℕ → List Node × BusSlot × Bool → Handled
request_product m source later (nodes, slot, changed) =
    if m.write_enabled && m.config.request_product_info && (slot.product_info_requested == 0)
    then record {
      nodes = nodes;
      slot = record slot { product_info_requested = later };
      result = ok changed;
      requests = create_iso_request pgn_product_info source ∷ [];
    }
    else record { nodes = nodes; slot = slot; result = ok changed; requests = [] }

abbrev pub failed : AddressMapper → BusSlot → Result Error Bool → Handled
failed m slot result = record { nodes = m.known_nodes; slot = slot; result = result; requests = [] }

unfoldable pub claim_named :
    AddressMapper → BusSlot → ℕ → ℕ → RawMessage → Result Error NodeName → Handled
claim_named m slot now later raw (ok name) =
    let uint64_name = little_endian raw.bytes in
    request_product m raw.header.source later (
      claim (with_node m.known_nodes raw.header.source uint64_name name) slot uint64_name
        raw.header.source now)
claim_named m slot now later raw (err e) = failed m slot (err e)
claim_named m slot now later raw panic = failed m slot panic

unfoldable pub process_iso_address_claim : AddressMapper → BusSlot → ℕ → ℕ → RawMessage → Handled
process_iso_address_claim m slot now later raw =
    claim_named m slot now later raw (pgn60928_to_node_name raw)

-- `slot.node == nil || slot.node.ValidName`
unfoldable pub is_ignored : List Node → BusSlot → Bool
is_ignored nodes slot = elim slot.node [ none ↦ true | some name ↦ has_valid_name nodes name ]

abbrev pub of_slot : BusSlot → (ℕ → List Node) → List Node → List Node
of_slot slot f nodes = elim slot.node [ none ↦ nodes | some name ↦ f name ]

unfoldable pub store_product :
    AddressMapper → BusSlot → ℕ → RawMessage → Result Error ProductInfo → Handled
store_product m slot now raw (ok info) =
    let nodes =
      of_slot slot
        (λ name.
          change m.known_nodes name
            (λ n. record n { product_info = some info; valid_product_info = true }))
        m.known_nodes in
    let requested =
      m.write_enabled
      && m.config.request_configuration_information
      && (slot.config_info_requested == 0) in
    record {
      nodes = nodes;
      slot = if requested then record slot { config_info_requested = now } else slot;
      result = ok false;
      requests =
          if requested
          then create_iso_request pgn_configuration_information raw.header.source ∷ []
          else [];
    }
store_product m slot now raw (err e) = failed m slot (err e)
store_product m slot now raw panic = failed m slot panic

unfoldable pub process_product_info : AddressMapper → BusSlot → ℕ → RawMessage → Handled
process_product_info m slot now raw =
    if is_ignored m.known_nodes slot
    then failed m slot (ok false)
    else store_product m slot now raw (pgn126996_to_product_info raw)

unfoldable pub store_configuration :
    AddressMapper → BusSlot → ℕ → RawMessage → Result Error ConfigurationInfo → Handled
store_configuration m slot now raw (ok info) =
    let nodes =
      of_slot slot
        (λ name.
          change m.known_nodes name
            (λ n. record n { configuration_info = some info; valid_configuration_info = true }))
        m.known_nodes in
    let requested =
      m.write_enabled && m.config.request_pgn_list && (slot.pgn_list_requested == 0) in
    record {
      nodes = nodes;
      slot = if requested then record slot { pgn_list_requested = now } else slot;
      result = ok false;
      requests = if requested then create_iso_request pgn_pgn_list raw.header.source ∷ [] else [];
    }
store_configuration m slot now raw (err e) = failed m slot (err e)
store_configuration m slot now raw panic = failed m slot panic

unfoldable pub process_configuration_info :
    Utf16 → AddressMapper → BusSlot → ℕ → RawMessage → Handled
process_configuration_info utf16 m slot now raw =
    if is_ignored m.known_nodes slot
    then failed m slot (ok false)
    else store_configuration m slot now raw (pgn126998_to_configuration_info utf16 raw)

unfoldable pub process_pgn_list : AddressMapper → BusSlot → Handled
process_pgn_list m slot = failed m slot (ok false)

-- The slot of an address that a node can have, or an object of its own for the other two.
unfoldable pub slot_of : AddressMapper → RawMessage → BusSlot
slot_of m raw =
    if leb address_null raw.header.source
    then new_slot
    else (elim (m.address2node raw.header.source) [
      | none ↦ record new_slot { last_packet = raw.time }
      | some slot ↦ record slot { last_packet = raw.time }
    ])

unfoldable pub dispatch : Utf16 → AddressMapper → BusSlot → ℕ → ℕ → RawMessage → Handled
dispatch utf16 m slot now later raw =
    if raw.header.pgn == pgn_iso_address_claim
    then process_iso_address_claim m slot now later raw
    else if raw.header.pgn == pgn_product_info
    then process_product_info m slot now raw
    else if raw.header.pgn == pgn_configuration_information
    then process_configuration_info utf16 m slot now raw
    else if raw.header.pgn == pgn_pgn_list
    then process_pgn_list m slot
    else failed m slot (ok false)

-- The slot is in the table before the handler runs, so it stays there after an error too.
unfoldable pub put_back : AddressMapper → ℕ → Handled → AddressMapper
put_back m source h = record m {
  known_nodes = h.nodes;
  address2node =
      if leb address_null source
      then m.address2node
      else (λ a. if a == source then some h.slot else m.address2node a);
}

unfoldable pub process :
    Utf16 → AddressMapper → ℕ → ℕ → RawMessage → AddressMapper × Result Error Bool × List RawMessage
process utf16 m now later raw =
    let h = dispatch utf16 m (slot_of m raw) now later raw in
    (put_back m raw.header.source h, h.result, h.requests)

unfoldable pub nodes : AddressMapper → List Node
nodes m = m.known_nodes

-- Go's map from sources to nodes: the nodes that are put into it, in the order of the loop; a later
-- one with the same source takes the place of an earlier one.
unfoldable pub nodes_in_use_by_source : List Node → List (ℕ × Node)
nodes_in_use_by_source [] = []
nodes_in_use_by_source (n ∷ known) =
    let rest = nodes_in_use_by_source known in
    if leb address_null n.source && not n.valid_name then rest else (n.source, n) ∷ rest

unfoldable pub broadcast_iso_address_claim_request : RawMessage
broadcast_iso_address_claim_request = create_iso_request pgn_iso_address_claim address_global
