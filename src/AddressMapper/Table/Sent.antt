-- ===== src/AddressMapper/Table/Sent.antt =====
-- addressmapper/addressmapper.go: how often `Process` asks a node for its product information.
use go_nmea_client.Common.{
  ℕ, ◌+◌, ◌≤◌, ◌<◌, ◌≡◌, ◌≢◌, refl, ap, List, [], ◌∷◌, ◌++◌, Option, none, some, Bool, false, arith,
  leb, ◌==◌, ◌&&◌, not, if◌then◌else◌, Bool-cases, Option-cases, inl, inr, All, Result, ok, err,
  panic,
}
use mathlib.Core.Path.{subst}
use go_nmea_client.Canbus.{address_null}
use go_nmea_client.Nmea.{RawMessage}
use go_nmea_client.RawData.{little_endian}
use go_nmea_client.AddressMapper.{Error, NodeName, pgn60928_to_node_name, pgn_iso_address_claim}
use go_nmea_client.AddressMapper.Requests.{create_iso_request}
use go_nmea_client.AddressMapper.Table.{
  Node, BusSlot, AddressMapper, Handled, Utf16, slot_of, dispatch, put_back, process, claim, assign,
  request_product, claim_named, process_iso_address_claim, failed, with_node, pgn_product_info,
}
use go_nmea_client.AddressMapper.Table.Claims.{address-dispatch, not_address-dispatch}
use go_nmea_client.AddressMapper.Table.Arbitration.{Received, Sound, process-Sound, slot_of_known}

-- The requests that the calls of `Process` send.
unfoldable pub sent : Utf16 → AddressMapper → List Received → List RawMessage
sent utf16 m [] = []
sent utf16 m (r ∷ rs) =
    let (m', result, requests) = process utf16 m r.now r.later r.raw in requests ++ sent utf16 m' rs

-- How many of them go to an address.
unfoldable pub count_to : ℕ → List RawMessage → ℕ
count_to a [] = 0
count_to a (raw ∷ raws) =
    let rest = count_to a raws in if raw.header.destination == a then 1 + rest else rest

unfoldable pub slot_asked : Option BusSlot → ℕ
slot_asked none = 0
slot_asked (some slot) = slot.product_info_requested

-- The time at which the node of an address was asked, or 0.
abbrev pub asked : AddressMapper → ℕ → ℕ
asked m a = slot_asked (m.address2node a)

abbrev pub left : ℕ → ℕ
left t = if t == 0 then 1 else 0

-- A handler asks only the source of the message, and only where its slot was not asked before.
pub record Asks (before source : ℕ) (h : Handled) : Type 0 where
  pub others : (a : ℕ) → a ≢ source → count_to a h.requests ≡ 0
  pub once : count_to source h.requests + left h.slot.product_info_requested ≤ left before

iso_request_destination : (pgn a : ℕ) → (create_iso_request pgn a).header.destination ≡ a
unfolding create_iso_request
iso_request_destination pgn a = refl

claim-asked :
    (nodes : List Node) (slot : BusSlot) (name source now : ℕ)
    → (claim nodes slot name source now).1.product_info_requested ≡ slot.product_info_requested
unfolding claim assign
claim-asked nodes slot name source now = ground arith

request_product-Asks :
    (m : AddressMapper) (source later : ℕ) (r : List Node × BusSlot × Bool)
    → later ≢ 0
    → Asks (r.1.product_info_requested) source (request_product m source later r)
unfolding request_product count_to
request_product-Asks m source later (nodes, slot, changed) set = record {
  others = λ a differ. ground (arith, iso_request_destination pgn_product_info source);
  once = ground (arith, iso_request_destination pgn_product_info source);
}

failed-Asks :
    (m : AddressMapper) (slot : BusSlot) (source : ℕ) (r : Result Error Bool)
    → Asks slot.product_info_requested source (failed m slot r)
unfolding count_to
failed-Asks m slot source r = record { others = λ a differ. refl; once = omega arith }

named-Asks :
    (m : AddressMapper) (slot : BusSlot) (now later : ℕ) (raw : RawMessage)
    (r : Result Error NodeName)
    → later ≢ 0
    → Asks slot.product_info_requested raw.header.source (claim_named m slot now later raw r)
unfolding claim_named
named-Asks m slot now later raw (ok name) set =
    subst (λ t. Asks t raw.header.source (claim_named m slot now later raw (ok name)))
      (claim-asked (with_node m.known_nodes raw.header.source (little_endian raw.bytes) name) slot
        (little_endian raw.bytes) raw.header.source now)
      (request_product-Asks m raw.header.source later _ set)
named-Asks m slot now later raw (err e) set = failed-Asks m slot raw.header.source (err e)
named-Asks m slot now later raw panic set = failed-Asks m slot raw.header.source panic

dispatch-Asks :
    (utf16 : Utf16) (m : AddressMapper) (r : Received)
    → Sound m
    → r.later ≢ 0
    → Asks
        (slot_of m r.raw).product_info_requested
        r.raw.header.source
        (dispatch utf16 m (slot_of m r.raw) r.now r.later r.raw)
unfolding process_iso_address_claim
dispatch-Asks utf16 m r s set =
    let slot = slot_of m r.raw in
    elim (Bool-cases (r.raw.header.pgn == pgn_iso_address_claim)) [
      | inl own ↦
          rw (address-dispatch utf16 m slot r.now r.later r.raw own)
            (named-Asks m slot r.now r.later r.raw (pgn60928_to_node_name r.raw) set)
      | inr other ↦
          rw (not_address-dispatch utf16 m slot r.now r.later r.raw (slot_of_known m r.raw s) other)
            (failed-Asks m slot r.raw.header.source (ok false))
    ]

slot_of-asked :
    (m : AddressMapper) (raw : RawMessage)
    → raw.header.source < 254
    → (slot_of m raw).product_info_requested ≡ asked m raw.header.source
unfolding slot_of slot_asked
slot_of-asked m raw small = elim (Option-cases (m.address2node raw.header.source)) [
  | inl absent ↦ ground arith
  | inr (slot, found) ↦ ground arith
]

asked-put_back :
    (m : AddressMapper) (source : ℕ) (h : Handled) (a : ℕ)
    → asked (put_back m source h) a ≡ (
        if (a == source) && not (leb address_null source)
        then h.slot.product_info_requested
        else asked m a)
unfolding put_back slot_asked
asked-put_back m source h a = ground arith

count_to-append :
    (a : ℕ) (xs ys : List RawMessage) → count_to a (xs ++ ys) ≡ count_to a xs + count_to a ys
unfolding count_to
count_to-append a [] ys = omega arith
count_to-append a (x ∷ xs) ys = ground (arith, count_to-append a xs ys)

process-asked :
    (utf16 : Utf16) (m : AddressMapper) (r : Received) (a : ℕ)
    → Sound m
    → r.later ≢ 0
    → a < 254
    → count_to a (process utf16 m r.now r.later r.raw).2
        + left (asked (process utf16 m r.now r.later r.raw).0 a)
      ≤ left (asked m a)
unfolding process
process-asked utf16 m r a s set small =
    let h = dispatch utf16 m (slot_of m r.raw) r.now r.later r.raw in
    let asks = dispatch-Asks utf16 m r s set in
    let after = asked-put_back m r.raw.header.source h a in
    elim (Bool-cases (a == r.raw.header.source)) [
      | inl own ↦
          let same : a ≡ r.raw.header.source = ground arith in
          let before = slot_of-asked m r.raw (omega (arith, small, same)) in
          ground (
            arith,
            after,
            asks.once,
            before,
            ap (λ x. count_to x h.requests) same,
            ap (asked m) same,
          )
      | inr other ↦ ground (arith, after, asks.others a (λ e. ground (arith, e, other)))
    ]

-- From a mapper whose slots point to known nodes, of which none has information, and where the second
-- reading of the clock is never the zero time, `Process` sends at most one request to an address below
-- 254, over any messages, and none where its slot was asked before.
pub process_messages-asks_once :
    (utf16 : Utf16) (m : AddressMapper) (rs : List Received) (a : ℕ)
    → Sound m
    → All (λ r. r.later ≢ 0) rs
    → a < 254
    → count_to a (sent utf16 m rs) ≤ left (asked m a)
unfolding sent count_to
process_messages-asks_once utf16 m [] a s set small = omega arith
process_messages-asks_once utf16 m (r ∷ rs) a s set small =
    let m' = (process utf16 m r.now r.later r.raw).0 in
    ground (
      arith,
      count_to-append a (process utf16 m r.now r.later r.raw).2 (sent utf16 m' rs),
      process-asked utf16 m r a s set.0 small,
      process_messages-asks_once utf16 m' rs a (process-Sound utf16 m r s) set.1 small,
    )
