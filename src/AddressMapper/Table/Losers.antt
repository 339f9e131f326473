-- ===== src/AddressMapper/Table/Losers.antt =====
-- addressmapper/addressmapper.go: a node that claims an address it does not get.
use go_nmea_client.Common.{ℕ, ◌≤◌, ◌<◌, ◌≡◌, refl, ◌∙◌, List, ◌∷◌, none, some, true, arith, ◌==◌}
use go_nmea_client.Nmea.{RawMessage}
use go_nmea_client.RawData.{little_endian}
use go_nmea_client.AddressMapper.{name_of, pgn_iso_address_claim}
use go_nmea_client.AddressMapper.Table.{
  Node, BusSlot, AddressMapper, Utf16, find, fresh_node, with_node, slot_of, put_back, process,
  claim, claim_named, process_iso_address_claim,
}
use go_nmea_client.AddressMapper.Table.Nodes.{with_node_absent}
use go_nmea_client.AddressMapper.Table.Claims.{
  lower, is_claim, request_product-nodes, named_ok, address-dispatch,
}
use go_nmea_client.AddressMapper.Table.Arbitration.{
  Received, owner, slot_of-node, Sound, process-owner,
}

-- The nodes after a claim that the slot's node wins.
claim_lost :
    (nodes : List Node) (slot : BusSlot) (name source now other : ℕ)
    → slot.node ≡ some other
    → other ≤ name
    → (claim nodes slot name source now).0 ≡ nodes
unfolding claim
claim_lost nodes slot name source now other e le = ground arith

claim-is_claim :
    (raw : RawMessage) → is_claim raw ≡ true → (raw.header.pgn == pgn_iso_address_claim) ≡ true
claim-is_claim raw e = ground arith

slot_of-owner :
    (m : AddressMapper) (raw : RawMessage) (other : ℕ)
    → raw.header.source < 254
    → owner m raw.header.source ≡ some other
    → (slot_of m raw).node ≡ some other
slot_of-owner m raw other small e = ground (arith, slot_of-node m raw, e)

process-loser_nodes :
    (utf16 : Utf16) (m : AddressMapper) (r : Received) (other : ℕ)
    → r.raw.header.source < 254
    → is_claim r.raw ≡ true
    → owner m r.raw.header.source ≡ some other
    → other ≤ little_endian r.raw.bytes
    → find m.known_nodes (little_endian r.raw.bytes) ≡ none
    → (process utf16 m r.now r.later r.raw).0.known_nodes
      ≡ fresh_node r.raw.header.source (little_endian r.raw.bytes) (name_of r.raw.bytes)
        ∷ m.known_nodes
unfolding process put_back process_iso_address_claim claim_named
process-loser_nodes utf16 m r other small own taken le absent =
    let slot = slot_of m r.raw in
    let NAME = little_endian r.raw.bytes in
    let source = r.raw.header.source in
    let nodes = with_node m.known_nodes source NAME (name_of r.raw.bytes) in
    rw
      (
        address-dispatch utf16 m slot r.now r.later r.raw (claim-is_claim r.raw own),
        named_ok r.raw own,
      )
      ((request_product-nodes m source r.later (claim nodes slot NAME source r.now)).0
        ∙ claim_lost nodes slot NAME source r.now other (slot_of-owner m r.raw other small taken) le
        ∙ with_node_absent m.known_nodes source NAME (name_of r.raw.bytes) absent)

-- An unknown node that claims a taken address with a NAME that is not lower does not get it, but is
-- stored with that address as its source, beside the node that keeps it.
pub process-loser :
    (utf16 : Utf16) (m : AddressMapper) (r : Received) (other : ℕ) (o : Node)
    → Sound m
    → r.raw.header.source < 254
    → is_claim r.raw ≡ true
    → owner m r.raw.header.source ≡ some other
    → find m.known_nodes other ≡ some o
    → other ≤ little_endian r.raw.bytes
    → find m.known_nodes (little_endian r.raw.bytes) ≡ none
    → (n : Node) × (owner (process utf16 m r.now r.later r.raw).0 r.raw.header.source ≡ some other)
      × (find (process utf16 m r.now r.later r.raw).0.known_nodes (little_endian r.raw.bytes)
          ≡ some n)
      × (n.source ≡ r.raw.header.source)
      × (find (process utf16 m r.now r.later r.raw).0.known_nodes other ≡ some o)
unfolding find fresh_node lower
process-loser utf16 m r other o s small own taken found le absent =
    let NAME = little_endian r.raw.bytes in
    let after = process-loser_nodes utf16 m r other small own taken le absent in
    (
      fresh_node r.raw.header.source NAME (name_of r.raw.bytes),
      ground (arith, process-owner utf16 m r r.raw.header.source s small, own, taken),
      rw after (ground arith),
      refl,
      rw after (ground (arith, found, absent)),
    )
