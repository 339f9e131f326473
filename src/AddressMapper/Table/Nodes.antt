-- ===== src/AddressMapper/Table/Nodes.antt =====
-- addressmapper/addressmapper.go: what holds of the known nodes and of the slots' pointers to them.
use go_nmea_client.Common.{
  ℕ, ◌≡◌, refl, List, [], ◌∷◌, Option, none, some, Bool, true, false, arith, ◌==◌, if◌then◌else◌,
  Bool-cases, Option-cases, inl, inr, All,
}
use go_nmea_client.AddressMapper.{NodeName}
use go_nmea_client.AddressMapper.Table.{
  Node, find, change, set_source, has_valid_name, fresh_node, with_node,
}

-- A node whose NAME is known and for which no information is stored.
abbrev pub IsBare : Node → Type 0
IsBare n =
    (n.valid_name ≡ true) × (n.valid_product_info ≡ false) × (n.valid_configuration_info ≡ false)

-- The pointer of a slot is to a known node.
unfoldable pub points_to_known : List Node → Option ℕ → Bool
points_to_known nodes none = true
points_to_known nodes (some name) = has_valid_name nodes name

find-set_source :
    (nodes : List Node) (name source x : ℕ)
    → find (set_source nodes name source) x ≡ (elim (find nodes x) [
      | none ↦ none
      | some n ↦ some (if n.uint64_name == name then record n { source = source } else n)
    ])
unfolding find set_source change
find-set_source [] name source x = refl
find-set_source (n ∷ nodes) name source x = ground (arith, find-set_source nodes name source x)

pub has_valid_name-set_source :
    (nodes : List Node) (name source x : ℕ)
    → has_valid_name (set_source nodes name source) x ≡ has_valid_name nodes x
unfolding has_valid_name
has_valid_name-set_source nodes name source x = ground (arith, find-set_source nodes name source x)

pub has_valid_name-with_node :
    (nodes : List Node) (source uint64_name : ℕ) (name : NodeName) (x : ℕ)
    → has_valid_name nodes x ≡ true
    → has_valid_name (with_node nodes source uint64_name name) x ≡ true
unfolding has_valid_name with_node find fresh_node
has_valid_name-with_node nodes source uint64_name name x h = ground arith

find-IsBare :
    (nodes : List Node) (x : ℕ) (n : Node) → All IsBare nodes → find nodes x ≡ some n → IsBare n
unfolding find
find-IsBare [] x n h e = cc
find-IsBare (m ∷ nodes) x n h e = ground (arith, find-IsBare nodes x n h.1)

pub with_node-has_valid_name :
    (nodes : List Node) (source uint64_name : ℕ) (name : NodeName)
    → All IsBare nodes
    → has_valid_name (with_node nodes source uint64_name name) uint64_name ≡ true
unfolding has_valid_name with_node find fresh_node
with_node-has_valid_name nodes source uint64_name name h =
    elim (Option-cases (find nodes uint64_name)) [
      | inl absent ↦ ground arith
      | inr (n, found) ↦ ground (arith, find-IsBare nodes uint64_name n h found)
    ]

pub with_node_absent :
    (nodes : List Node) (source uint64_name : ℕ) (name : NodeName)
    → find nodes uint64_name ≡ none
    → with_node nodes source uint64_name name ≡ fresh_node source uint64_name name ∷ nodes
unfolding with_node
with_node_absent nodes source uint64_name name e = rw (e, with_node) refl

pub with_node_known :
    (nodes : List Node) (source uint64_name : ℕ) (name : NodeName) (n : Node)
    → find nodes uint64_name ≡ some n
    → with_node nodes source uint64_name name ≡ nodes
unfolding with_node
with_node_known nodes source uint64_name name n e = rw (e, with_node) refl

fresh_node-IsBare :
    (source uint64_name : ℕ) (name : NodeName) → IsBare (fresh_node source uint64_name name)
unfolding fresh_node
fresh_node-IsBare source uint64_name name = (refl, refl, refl)

pub with_node-IsBare :
    (nodes : List Node) (source uint64_name : ℕ) (name : NodeName)
    → All IsBare nodes
    → All IsBare (with_node nodes source uint64_name name)
with_node-IsBare nodes source uint64_name name h = elim (Option-cases (find nodes uint64_name)) [
  | inl absent ↦
      rw (with_node_absent nodes source uint64_name name absent)
        (fresh_node-IsBare source uint64_name name, h)
  | inr (n, found) ↦ rw (with_node_known nodes source uint64_name name n found) h
]

pub set_source-IsBare :
    (nodes : List Node) (name source : ℕ)
    → All IsBare nodes
    → All IsBare (set_source nodes name source)
unfolding set_source change
set_source-IsBare [] name source h = tt
set_source-IsBare (n ∷ nodes) name source h = elim (Bool-cases (n.uint64_name == name)) [
  | inl own ↦ rw own (h.0, set_source-IsBare nodes name source h.1)
  | inr other ↦ rw other (h.0, set_source-IsBare nodes name source h.1)
]
