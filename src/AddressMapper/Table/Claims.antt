-- ===== src/AddressMapper/Table/Claims.antt =====
-- addressmapper/addressmapper.go: one call of `Process`, by what it does to the slot of the source.
use go_nmea_client.Common.{
  ℕ, ◌≡◌, refl, sym, ap, ◌∙◌, List, Option, none, some, Bool, true, false, Result, ok, err, arith,
  ltb, ◌==◌, ◌&&◌, if◌then◌else◌, Bool-cases, Option-cases, inl, inr, All, length,
}
use go_nmea_client.Canbus.{address_null}
use go_nmea_client.Nmea.{RawMessage}
use go_nmea_client.RawData.{little_endian}
use go_nmea_client.AddressMapper.{
  Error, wrong_length, NodeName, name_of, pgn_iso_address_claim, pgn60928_to_node_name,
}
use go_nmea_client.AddressMapper.Table.{
  Node, BusSlot, AddressMapper, Handled, Utf16, has_valid_name, set_source, with_node, assign,
  claim, request_product, failed, claim_named, process_iso_address_claim, is_ignored,
  process_product_info, process_configuration_info, process_pgn_list, dispatch,
}
use go_nmea_client.AddressMapper.Table.Nodes.{
  IsBare, points_to_known, has_valid_name-set_source, has_valid_name-with_node,
  with_node-has_valid_name, with_node-IsBare, set_source-IsBare,
}

-- The lower of a NAME and the one that has the address.
unfoldable pub lower : Option ℕ → ℕ → ℕ
lower none name = name
lower (some other) name = if ltb name other then name else other

-- A claim that has a NAME.
abbrev pub is_claim : RawMessage → Bool
is_claim raw = (raw.header.pgn == pgn_iso_address_claim) && (length raw.bytes == 8)

-- What a handler does to the nodes and to the slot, which has the pointer `before`.
pub record Kept (m : AddressMapper) (before : Option ℕ) (raw : RawMessage) (h : Handled)
    : Type 0 where
  pub bare : All IsBare h.nodes
  pub known : points_to_known h.nodes h.slot.node ≡ true
  pub still_known :
      (x : ℕ) → has_valid_name m.known_nodes x ≡ true → has_valid_name h.nodes x ≡ true
  pub owner :
      h.slot.node ≡ (if is_claim raw then some (lower before (little_endian raw.bytes)) else before)

pub request_product-nodes :
    (m : AddressMapper) (source later : ℕ) (r : List Node × BusSlot × Bool)
    → ((request_product m source later r).nodes ≡ r.0)
      × ((request_product m source later r).slot.node ≡ r.1.node)
unfolding request_product
request_product-nodes m source later (nodes, slot, changed) = (ground arith, ground arith)

claim_empty :
    (nodes : List Node) (slot : BusSlot) (name source now : ℕ)
    → slot.node ≡ none
    → claim nodes slot name source now ≡ assign nodes slot name source now
unfolding claim
claim_empty nodes slot name source now e = rw e refl

claim_taken :
    (nodes : List Node) (slot : BusSlot) (name source now other : ℕ)
    → slot.node ≡ some other
    → has_valid_name nodes other ≡ true
    → claim nodes slot name source now ≡ (
        if ltb name other
        then assign (set_source nodes other address_null) slot name source now
        else (nodes, slot, false))
unfolding claim
claim_taken nodes slot name source now other e valid = rw (e, valid) refl

has_valid_name-taken :
    (nodes : List Node) (slot : BusSlot) (other : ℕ)
    → slot.node ≡ some other
    → points_to_known nodes slot.node ≡ true
    → has_valid_name nodes other ≡ true
unfolding points_to_known
has_valid_name-taken nodes slot other e h = sym (ap (points_to_known nodes) e) ∙ h

-- What a claim of the NAME `name` leaves: the owner is the lower one, and nothing is forgotten.
claim-Kept :
    (nodes : List Node) (slot : BusSlot) (name source now : ℕ)
    → All IsBare nodes
    → has_valid_name nodes name ≡ true
    → points_to_known nodes slot.node ≡ true
    → All IsBare (claim nodes slot name source now).0
      × ((x : ℕ) → has_valid_name (claim nodes slot name source now).0 x ≡ has_valid_name nodes x)
      × ((claim nodes slot name source now).1.node ≡ some (lower slot.node name))
unfolding assign lower points_to_known
claim-Kept nodes slot name source now bare new known = elim (Option-cases slot.node) [
  | inl empty ↦
      rw (claim_empty nodes slot name source now empty, empty)
        (
          set_source-IsBare nodes name source bare,
          has_valid_name-set_source nodes name source,
          refl,
        )
  | inr (other, taken) ↦ elim (Bool-cases (ltb name other)) [
    | inl won ↦
        rw
          (
            claim_taken nodes slot name source now other taken
                (has_valid_name-taken nodes slot other taken known),
            taken,
            won,
          )
          (
            set_source-IsBare (set_source nodes other address_null) name source
                (set_source-IsBare nodes other address_null bare),
            λ x.
                has_valid_name-set_source (set_source nodes other address_null) name source x
                ∙ has_valid_name-set_source nodes other address_null x,
            refl,
          )
    | inr lost ↦
        rw
          (
            claim_taken nodes slot name source now other taken
                (has_valid_name-taken nodes slot other taken known),
            taken,
            lost,
          )
          (bare, λ x. refl, refl)
  ]
]

pub named_ok :
    (raw : RawMessage) → is_claim raw ≡ true → pgn60928_to_node_name raw ≡ ok (name_of raw.bytes)
unfolding pgn60928_to_node_name
named_ok raw e = ground arith

named_wrong :
    (raw : RawMessage)
    → (raw.header.pgn == pgn_iso_address_claim) ≡ true
    → (length raw.bytes == 8) ≡ false
    → pgn60928_to_node_name raw ≡ err wrong_length
unfolding pgn60928_to_node_name
named_wrong raw e l = ground arith

failed-Kept :
    (m : AddressMapper) (slot : BusSlot) (raw : RawMessage) (r : Result Error Bool)
    → All IsBare m.known_nodes
    → points_to_known m.known_nodes slot.node ≡ true
    → is_claim raw ≡ false
    → Kept m slot.node raw (failed m slot r)
failed-Kept m slot raw r bare known other = record {
  bare = bare;
  known = known;
  still_known = λ x h. h;
  owner = rw other refl;
}

pub points_to_known-more :
    (ns ns' : List Node) (p : Option ℕ)
    → ((x : ℕ) → has_valid_name ns x ≡ true → has_valid_name ns' x ≡ true)
    → points_to_known ns p ≡ true
    → points_to_known ns' p ≡ true
unfolding points_to_known
points_to_known-more ns ns' none more h = refl
points_to_known-more ns ns' (some x) more h = more x h

points_to_known-lower :
    (ns : List Node) (p : Option ℕ) (name : ℕ)
    → points_to_known ns p ≡ true
    → has_valid_name ns name ≡ true
    → points_to_known ns (some (lower p name)) ≡ true
unfolding points_to_known lower
points_to_known-lower ns none name h hn = hn
points_to_known-lower ns (some other) name h hn = ground arith

named-Kept :
    (m : AddressMapper) (slot : BusSlot) (now later : ℕ) (raw : RawMessage) (name : NodeName)
    → All IsBare m.known_nodes
    → points_to_known m.known_nodes slot.node ≡ true
    → is_claim raw ≡ true
    → Kept m slot.node raw (claim_named m slot now later raw (ok name))
unfolding claim_named
named-Kept m slot now later raw name bare known own =
    let NAME = little_endian raw.bytes in
    let nodes = with_node m.known_nodes raw.header.source NAME name in
    let fresh = with_node-has_valid_name m.known_nodes raw.header.source NAME name bare in
    let more = has_valid_name-with_node m.known_nodes raw.header.source NAME name in
    let pointed = points_to_known-more m.known_nodes nodes slot.node more known in
    let kept =
      claim-Kept nodes slot NAME raw.header.source now
        (with_node-IsBare m.known_nodes raw.header.source NAME name bare) fresh pointed in
    let asked =
      request_product-nodes m raw.header.source later
        (claim nodes slot NAME raw.header.source now) in
    record {
      bare = rw (asked.0) kept.0;
      known =
          rw (asked.0, asked.1, kept.2)
            (points_to_known-more nodes _ (some (lower slot.node NAME)) (λ x h. kept.1 x ∙ h)
              (points_to_known-lower nodes slot.node NAME pointed fresh));
      still_known = λ x h. rw (asked.0) (kept.1 x ∙ more x h);
      owner = rw own (asked.1 ∙ kept.2);
    }

is_ignored_known :
    (nodes : List Node) (slot : BusSlot)
    → points_to_known nodes slot.node ≡ true
    → is_ignored nodes slot ≡ true
unfolding is_ignored points_to_known
is_ignored_known nodes slot known = ground arith

product_ignored :
    (m : AddressMapper) (slot : BusSlot) (now : ℕ) (raw : RawMessage)
    → points_to_known m.known_nodes slot.node ≡ true
    → process_product_info m slot now raw ≡ failed m slot (ok false)
unfolding process_product_info
product_ignored m slot now raw known = rw (is_ignored_known m.known_nodes slot known) refl

configuration_ignored :
    (utf16 : Utf16) (m : AddressMapper) (slot : BusSlot) (now : ℕ) (raw : RawMessage)
    → points_to_known m.known_nodes slot.node ≡ true
    → process_configuration_info utf16 m slot now raw ≡ failed m slot (ok false)
unfolding process_configuration_info
configuration_ignored utf16 m slot now raw known =
    rw (is_ignored_known m.known_nodes slot known) refl

address-Kept :
    (m : AddressMapper) (slot : BusSlot) (now later : ℕ) (raw : RawMessage)
    → All IsBare m.known_nodes
    → points_to_known m.known_nodes slot.node ≡ true
    → (raw.header.pgn == pgn_iso_address_claim) ≡ true
    → Kept m slot.node raw (process_iso_address_claim m slot now later raw)
unfolding process_iso_address_claim claim_named
address-Kept m slot now later raw bare known own = elim (Bool-cases (length raw.bytes == 8)) [
  | inl eight ↦
      rw (named_ok raw (rw (own, eight) refl))
        (named-Kept m slot now later raw (name_of raw.bytes) bare known (rw (own, eight) refl))
  | inr other ↦
      rw (named_wrong raw own other)
        (failed-Kept m slot raw (err wrong_length) bare known (rw (own, other) refl))
]

not_claim :
    (raw : RawMessage) → (raw.header.pgn == pgn_iso_address_claim) ≡ false → is_claim raw ≡ false
not_claim raw e = rw e refl

pub not_address-dispatch :
    (utf16 : Utf16) (m : AddressMapper) (slot : BusSlot) (now later : ℕ) (raw : RawMessage)
    → points_to_known m.known_nodes slot.node ≡ true
    → (raw.header.pgn == pgn_iso_address_claim) ≡ false
    → dispatch utf16 m slot now later raw ≡ failed m slot (ok false)
unfolding dispatch process_pgn_list
not_address-dispatch utf16 m slot now later raw known e =
    ground (
      arith,
      product_ignored m slot now raw known,
      configuration_ignored utf16 m slot now raw known,
    )

pub address-dispatch :
    (utf16 : Utf16) (m : AddressMapper) (slot : BusSlot) (now later : ℕ) (raw : RawMessage)
    → (raw.header.pgn == pgn_iso_address_claim) ≡ true
    → dispatch utf16 m slot now later raw ≡ process_iso_address_claim m slot now later raw
unfolding dispatch
address-dispatch utf16 m slot now later raw e = rw e refl

pub dispatch-Kept :
    (utf16 : Utf16) (m : AddressMapper) (slot : BusSlot) (now later : ℕ) (raw : RawMessage)
    → All IsBare m.known_nodes
    → points_to_known m.known_nodes slot.node ≡ true
    → Kept m slot.node raw (dispatch utf16 m slot now later raw)
dispatch-Kept utf16 m slot now later raw bare known =
    elim (Bool-cases (raw.header.pgn == pgn_iso_address_claim)) [
      | inl own ↦
          rw (address-dispatch utf16 m slot now later raw own)
            (address-Kept m slot now later raw bare known own)
      | inr other ↦
          rw (not_address-dispatch utf16 m slot now later raw known other)
            (failed-Kept m slot raw (ok false) bare known (not_claim raw other))
    ]
