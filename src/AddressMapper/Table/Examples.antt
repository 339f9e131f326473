-- ===== src/AddressMapper/Table/Examples.antt =====
-- The theorems on addressmapper/addressmapper.go's table and queue at two claims of one address.
use go_nmea_client.Common.{ℕ, ◌≤◌, ◌≡◌, refl, List, [], ◌∷◌, some, true, false, arith, ok}
use go_nmea_client.Nmea.{RawMessage}
use go_nmea_client.AddressMapper.{pgn60928_to_node_name}
use go_nmea_client.AddressMapper.Requests.{
  new_queue, new_writer, Pick, requested, toggled, tick, cancelled, create_iso_request,
}
use go_nmea_client.AddressMapper.Requests.Order.{Ordered, run-Ordered}
use go_nmea_client.AddressMapper.Table.{
  Config, AddressMapper, Utf16, new_address_mapper_with_config, find, process, toggle_write,
  fresh_node, set_source, change, with_node, has_valid_name, assign, slot_of, claim,
  request_product, claim_named, process_iso_address_claim, dispatch, put_back,
}
use go_nmea_client.AddressMapper.Table.Nodes.{points_to_known}
use go_nmea_client.AddressMapper.Table.Arbitration.{
  slot_node, Received, process_messages, Sound, owner, claims, IsLowest,
  process_messages-owner-IsLowest, process_messages-Sound_from_new,
}
use go_nmea_client.AddressMapper.Table.Sent.{
  sent, count_to, asked, left, process_messages-asks_once,
}

abbrev text : Utf16
text big_endian units = ok units

abbrev asking : Config
asking = record {
  request_product_info = true;
  request_configuration_information = true;
  request_pgn_list = true;
}

-- The claim of address 35 by the NAME that has `b` in its first byte.
abbrev claim_of : ℕ → RawMessage
claim_of b = record {
  time = 5;
  header = record { pgn = 60928; priority = 6; source = 35; destination = 255 };
  bytes = b ∷ 0 ∷ 0 ∷ 0 ∷ 0 ∷ 0 ∷ 0 ∷ 0 ∷ [];
}

abbrev at_time : ℕ → RawMessage → Received
at_time t raw = record { raw = raw; now = t; later = t }

abbrev low_then_high : List Received
low_then_high = at_time 1 (claim_of 7) ∷ at_time 2 (claim_of 9) ∷ []

abbrev high_then_low : List Received
high_then_low = at_time 1 (claim_of 9) ∷ at_time 2 (claim_of 7) ∷ []

process_messages-owner-IsLowest_example :
    IsLowest
      (owner (process_messages text (new_address_mapper_with_config asking) high_then_low) 35)
      (claims 35 high_then_low)
process_messages-owner-IsLowest_example =
    process_messages-owner-IsLowest text asking high_then_low 35 (omega arith)

owner_after :
    owner (process_messages text (new_address_mapper_with_config asking) high_then_low) 35 ≡ some 7
unfolding process_messages process new_address_mapper_with_config slot_node put_back dispatch
    process_iso_address_claim claim_named pgn60928_to_node_name request_product claim slot_of assign
    has_valid_name find with_node set_source change fresh_node create_iso_request sent toggle_write
    points_to_known
owner_after = refl

process_messages-Sound_from_new_example :
    Sound (process_messages text (new_address_mapper_with_config asking) low_then_high)
process_messages-Sound_from_new_example = process_messages-Sound_from_new text asking low_then_high

abbrev writing : AddressMapper
writing = (toggle_write (new_address_mapper_with_config asking)).0

writing-Sound : Sound writing
unfolding toggle_write new_address_mapper_with_config points_to_known slot_node
writing-Sound = record { bare = tt; known = λ a. refl }

sent_once : sent text writing low_then_high ≡ create_iso_request 126996 35 ∷ []
unfolding process_messages process new_address_mapper_with_config slot_node put_back dispatch
    process_iso_address_claim claim_named pgn60928_to_node_name request_product claim slot_of assign
    has_valid_name find with_node set_source change fresh_node create_iso_request sent toggle_write
    points_to_known
sent_once = refl

process_messages-asks_once_example :
    count_to 35 (sent text writing low_then_high) ≤ left (asked writing 35)
process_messages-asks_once_example =
    process_messages-asks_once text writing low_then_high 35 writing-Sound (ground arith)
      (omega arith)

abbrev one_claimed : AddressMapper
one_claimed =
    process_messages text (new_address_mapper_with_config asking) (at_time 1 (claim_of 7) ∷ [])

abbrev picks : List Pick
picks =
    requested (claim_of 7) ∷ toggled false ∷ requested (claim_of 9) ∷ tick ∷ tick ∷ cancelled ∷ []

run-Ordered_example : Ordered (new_writer true) picks
unfolding new_writer new_queue
run-Ordered_example = run-Ordered (new_writer true) picks (omega arith)
