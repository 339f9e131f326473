-- ===== src/AddressMapper/Table/InUse.antt =====
-- addressmapper/addressmapper.go: the nodes that `NodesInUseBySource` returns.
use go_nmea_client.Common.{◌≡◌, refl, List, [], ◌∷◌, map, arith, All}
use go_nmea_client.AddressMapper.Table.{
  Node, Config, Utf16, new_address_mapper_with_config, nodes_in_use_by_source, nodes,
}
use go_nmea_client.AddressMapper.Table.Nodes.{IsBare}
use go_nmea_client.AddressMapper.Table.Arbitration.{
  Received, process_messages, process_messages-Sound_from_new,
}

in_use_bare :
    (known : List Node)
    → All IsBare known
    → nodes_in_use_by_source known ≡ map (λ n. (n.source, n)) known
unfolding nodes_in_use_by_source
in_use_bare [] h = refl
in_use_bare (n ∷ known) h = ground (arith, in_use_bare known h.1, h.0.0)

-- From a new mapper, and after any messages, the nodes in use are all the known nodes, each under its
-- source, those without an address too.
pub nodes_in_use_by_source_all :
    (utf16 : Utf16) (config : Config) (rs : List Received)
    → nodes_in_use_by_source
        (nodes (process_messages utf16 (new_address_mapper_with_config config) rs))
      ≡ map
          (λ n. (n.source, n))
          (nodes (process_messages utf16 (new_address_mapper_with_config config) rs))
unfolding nodes
nodes_in_use_by_source_all utf16 config rs =
    in_use_bare _ (process_messages-Sound_from_new utf16 config rs).bare
