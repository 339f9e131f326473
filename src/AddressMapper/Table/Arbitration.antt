-- ===== src/AddressMapper/Table/Arbitration.antt =====
-- addressmapper/addressmapper.go: who has an address after any messages.
use go_nmea_client.Common.{
  ℕ, ◌≤◌, ◌<◌, ◌≡◌, refl, ap, ◌∙◌, List, [], ◌∷◌, ◌++◌, Option, none, some, Bool, true, false,
  arith, ltb, leb, ◌==◌, ◌&&◌, ◌||◌, not, if◌then◌else◌, Bool-cases, Option-cases, inl, inr, All,
}
use mathlib.Core.List.{append_assoc, append-nil}
use mathlib.Core.Path.{subst}
use go_nmea_client.Canbus.{address_null}
use go_nmea_client.Nmea.{RawMessage}
use go_nmea_client.RawData.{little_endian}
use go_nmea_client.AddressMapper.Table.{
  Node, BusSlot, Config, AddressMapper, Handled, Utf16, new_address_mapper_with_config, slot_of,
  dispatch, put_back, process,
}
use go_nmea_client.AddressMapper.Table.Nodes.{IsBare, points_to_known}
use go_nmea_client.AddressMapper.Table.Claims.{points_to_known-more}
use go_nmea_client.AddressMapper.Table.Claims.{lower, is_claim, dispatch-Kept}

-- A message and the two readings of the clock in its call.
pub record Received : Type 0 where
  pub raw : RawMessage
  pub now : ℕ
  pub later : ℕ

-- The mapper after the calls of `Process` for some messages.
unfoldable pub process_messages : Utf16 → AddressMapper → List Received → AddressMapper
process_messages utf16 m [] = m
process_messages utf16 m (r ∷ rs) =
    process_messages utf16 (process utf16 m r.now r.later r.raw).0 rs

unfoldable pub slot_node : Option BusSlot → Option ℕ
slot_node none = none
slot_node (some slot) = slot.node

-- The NAME of the node that has an address.
abbrev pub owner : AddressMapper → ℕ → Option ℕ
owner m a = slot_node (m.address2node a)

pub record Sound (m : AddressMapper) : Type 0 where
  pub bare : All IsBare m.known_nodes
  pub known : (a : ℕ) → points_to_known m.known_nodes (owner m a) ≡ true

-- The NAMEs that were claimed for an address, in their order.
unfoldable pub claims : ℕ → List Received → List ℕ
claims a [] = []
claims a (r ∷ rs) =
    let rest = claims a rs in
    if (r.raw.header.source == a) && is_claim r.raw then little_endian r.raw.bytes ∷ rest else rest

unfoldable pub among : ℕ → List ℕ → Bool
among n [] = false
among n (x ∷ xs) = (n == x) || among n xs

-- The lowest of the NAMEs, or nothing where there is none.
unfoldable pub IsLowest : Option ℕ → List ℕ → Type 0
IsLowest none ns = ns ≡ []
IsLowest (some n) ns = (among n ns ≡ true) × All (λ x. n ≤ x) ns

among-append : (n : ℕ) (xs ys : List ℕ) → among n (xs ++ ys) ≡ (among n xs || among n ys)
unfolding among
among-append n [] ys = refl
among-append n (x ∷ xs) ys = ground (arith, among-append n xs ys)

All-lower :
    (n m : ℕ) (ns : List ℕ) → n ≤ m → All (λ x. m ≤ x) ns → All (λ x. n ≤ x) (ns ++ (n ∷ []))
All-lower n m [] le h = ground arith
All-lower n m (x ∷ ns) le h = (omega arith, All-lower n m ns le h.1)

All-snoc : (n m : ℕ) (ns : List ℕ) → n ≤ m → All (λ x. n ≤ x) ns → All (λ x. n ≤ x) (ns ++ (m ∷ []))
All-snoc n m [] le h = ground arith
All-snoc n m (x ∷ ns) le h = (h.0, All-snoc n m ns le h.1)

IsLowest-claimed :
    (p : Option ℕ) (ns : List ℕ) (name : ℕ)
    → IsLowest p ns
    → IsLowest (some (lower p name)) (ns ++ (name ∷ []))
unfolding IsLowest lower among
IsLowest-claimed none ns name h = rw h (ground arith)
IsLowest-claimed (some other) ns name h = elim (Bool-cases (ltb name other)) [
  | inl won ↦
      rw won (
        ground (arith, among-append name ns (name ∷ [])),
        All-lower name other ns (ground arith) h.1,
      )
  | inr lost ↦
      rw lost (
        ground (arith, among-append other ns (name ∷ [])),
        All-snoc other name ns (ground arith) h.1,
      )
]

-- The pointer of the slot that a message gets.
pub slot_of-node :
    (m : AddressMapper) (raw : RawMessage)
    → (slot_of m raw).node
      ≡ (if leb address_null raw.header.source then none else owner m raw.header.source)
unfolding slot_of slot_node
slot_of-node m raw = elim (Option-cases (m.address2node raw.header.source)) [
  | inl absent ↦ ground arith
  | inr (slot, found) ↦ ground arith
]

pub slot_of_known :
    (m : AddressMapper) (raw : RawMessage)
    → Sound m
    → points_to_known m.known_nodes (slot_of m raw).node ≡ true
unfolding points_to_known
slot_of_known m raw s = ground (arith, slot_of-node m raw, s.known raw.header.source)

owner-put_back :
    (m : AddressMapper) (source : ℕ) (h : Handled) (a : ℕ)
    → owner (put_back m source h) a
      ≡ (if (a == source) && not (leb address_null source) then h.slot.node else owner m a)
unfolding put_back slot_node
owner-put_back m source h a = ground arith

known-put_back :
    (m : AddressMapper) (source : ℕ) (h : Handled) → (put_back m source h).known_nodes ≡ h.nodes
unfolding put_back
known-put_back m source h = refl

points_to_known-test :
    (nodes : List Node) (p q : Option ℕ) (b : Bool)
    → points_to_known nodes p ≡ true
    → points_to_known nodes q ≡ true
    → points_to_known nodes (if b then p else q) ≡ true
points_to_known-test nodes p q true h k = h
points_to_known-test nodes p q false h k = k

pub process-Sound :
    (utf16 : Utf16) (m : AddressMapper) (r : Received)
    → Sound m
    → Sound (process utf16 m r.now r.later r.raw).0
unfolding process
process-Sound utf16 m r s =
    let slot = slot_of m r.raw in
    let h = dispatch utf16 m slot r.now r.later r.raw in
    let kept = dispatch-Kept utf16 m slot r.now r.later r.raw s.bare (slot_of_known m r.raw s) in
    record {
      bare = rw (known-put_back m r.raw.header.source h) kept.bare;
      known = λ a.
          rw (known-put_back m r.raw.header.source h, owner-put_back m r.raw.header.source h a)
            (points_to_known-test h.nodes h.slot.node (owner m a)
              ((a == r.raw.header.source) && not (leb address_null r.raw.header.source)) kept.known
              (points_to_known-more m.known_nodes h.nodes (owner m a) kept.still_known
                (s.known a)));
    }

-- One call: a claim leaves the lower NAME at the address it came from, and nothing else does anything.
pub process-owner :
    (utf16 : Utf16) (m : AddressMapper) (r : Received) (a : ℕ)
    → Sound m
    → a < 254
    → owner (process utf16 m r.now r.later r.raw).0 a ≡ (
        if (r.raw.header.source == a) && is_claim r.raw
        then some (lower (owner m a) (little_endian r.raw.bytes))
        else owner m a)
unfolding process
process-owner utf16 m r a s small =
    let slot = slot_of m r.raw in
    let h = dispatch utf16 m slot r.now r.later r.raw in
    let kept = dispatch-Kept utf16 m slot r.now r.later r.raw s.bare (slot_of_known m r.raw s) in
    owner-put_back m r.raw.header.source h a ∙ elim (Bool-cases (r.raw.header.source == a)) [
      | inl own ↦
          let same : r.raw.header.source ≡ a = ground arith in
          let node : slot.node ≡ owner m a =
            ground (arith, slot_of-node m r.raw, ap (owner m) same) in
          ground (arith, kept.owner, node)
      | inr other ↦ ground arith
    ]

claims_claimed :
    (a : ℕ) (r : Received) (rs : List Received)
    → ((r.raw.header.source == a) && is_claim r.raw) ≡ true
    → claims a (r ∷ rs) ≡ little_endian r.raw.bytes ∷ claims a rs
unfolding claims
claims_claimed a r rs e = rw e refl

claims_other :
    (a : ℕ) (r : Received) (rs : List Received)
    → ((r.raw.header.source == a) && is_claim r.raw) ≡ false
    → claims a (r ∷ rs) ≡ claims a rs
unfolding claims
claims_other a r rs e = rw e refl

pub process_messages-Sound :
    (utf16 : Utf16) (m : AddressMapper) (rs : List Received)
    → Sound m
    → Sound (process_messages utf16 m rs)
unfolding process_messages
process_messages-Sound utf16 m [] s = s
process_messages-Sound utf16 m (r ∷ rs) s =
    process_messages-Sound utf16 (process utf16 m r.now r.later r.raw).0 rs
      (process-Sound utf16 m r s)

process_messages-IsLowest :
    (utf16 : Utf16) (m : AddressMapper) (rs : List Received) (a : ℕ) (ns : List ℕ)
    → Sound m
    → a < 254
    → IsLowest (owner m a) ns
    → IsLowest (owner (process_messages utf16 m rs) a) (ns ++ claims a rs)
unfolding process_messages claims
process_messages-IsLowest utf16 m [] a ns s small h = rw (append-nil ns) h
process_messages-IsLowest utf16 m (r ∷ rs) a ns s small h =
    let m' = (process utf16 m r.now r.later r.raw).0 in
    let s' = process-Sound utf16 m r s in
    let step = process-owner utf16 m r a s small in
    elim (Bool-cases ((r.raw.header.source == a) && is_claim r.raw)) [
      | inl claimed ↦
          let NAME = little_endian r.raw.bytes in
          let now_owner : owner m' a ≡ some (lower (owner m a) NAME) =
            step ∙ ap (λ b. if b then some (lower (owner m a) NAME) else owner m a) claimed in
          rw (claims_claimed a r rs claimed) (
            subst (IsLowest _) (append_assoc ns (NAME ∷ []) (claims a rs)) (
              process_messages-IsLowest utf16 m' rs a (ns ++ (NAME ∷ [])) s' small
                (rw now_owner (IsLowest-claimed (owner m a) ns NAME h))))
      | inr other ↦
          let as_before : owner m' a ≡ owner m a =
            step
            ∙ ap
                (λ b. if b then some (lower (owner m a) (little_endian r.raw.bytes)) else owner m a)
                other in
          rw (claims_other a r rs other)
            (process_messages-IsLowest utf16 m' rs a ns s' small (rw as_before h))
    ]

new_address_mapper-Sound : (config : Config) → Sound (new_address_mapper_with_config config)
unfolding new_address_mapper_with_config points_to_known slot_node
new_address_mapper-Sound config = record { bare = tt; known = λ a. refl }

-- From a new mapper, and after any messages, the node that an address below 254 has is the one with
-- the lowest NAME of all that claimed the address; it has none exactly if none did.
pub process_messages-owner-IsLowest :
    (utf16 : Utf16) (config : Config) (rs : List Received) (a : ℕ)
    → a < 254
    → IsLowest
        (owner (process_messages utf16 (new_address_mapper_with_config config) rs) a)
        (claims a rs)
unfolding new_address_mapper_with_config slot_node IsLowest
process_messages-owner-IsLowest utf16 config rs a small =
    process_messages-IsLowest utf16 (new_address_mapper_with_config config) rs a []
      (new_address_mapper-Sound config) small refl

-- From a new mapper, and after any messages, no known node has product information or
-- configuration information, and every pointer of a slot is to a known node.
pub process_messages-Sound_from_new :
    (utf16 : Utf16) (config : Config) (rs : List Received)
    → Sound (process_messages utf16 (new_address_mapper_with_config config) rs)
process_messages-Sound_from_new utf16 config rs =
    process_messages-Sound utf16 _ rs (new_address_mapper-Sound config)
