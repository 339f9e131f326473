-- ===== src/FastPacket/Examples.antt =====
-- The theorems on one sequence of fastpacket.go, at short messages.
use go_nmea_client.Common.{
  ℕ, ◌%◌, ◌<◌, ◌≡◌, ◌≢◌, ◌↔◌, refl, inl, inr, List, [], ◌∷◌, map, true, false, arith, ltb, ok,
  replicate, All,
}
use go_nmea_client.Canbus.{CanBusHeader}
use go_nmea_client.Nmea.{RawFrame, RawMessage}
use go_nmea_client.FastPacket.{Sequence, as_message}
use go_nmea_client.FastPacket.Masks.{frames_awaited, frames_needed}
use go_nmea_client.FastPacket.Blocks.{chunk}
use go_nmea_client.FastPacket.Transfer.{Sent, IsSendable, Arrival, IsEmpty, member, frame}
use go_nmea_client.FastPacket.Reassembly.{feed, feed-complete_iff}
use go_nmea_client.FastPacket.Delivery.{feed_delivers, feed_never_completes}

abbrev position : CanBusHeader
position = record { pgn = 129029; priority = 3; source = 35; destination = 255 }

-- Ten bytes, in two frames.
abbrev ten_bytes : Sent
ten_bytes = record { header = position; counter = 2; len = 10; payload = λ i. i % 256 }

-- Thirteen bytes, in two frames.
abbrev thirteen_bytes : Sent
thirteen_bytes = record { header = position; counter = 2; len = 13; payload = λ i. i % 256 }

abbrev fresh : Sequence
fresh = record {
  header = record { pgn = 0; priority = 0; source = 0; destination = 0 };
  last_received_frame_time = 0;
  sequence = 0;
  length = 0;
  complete_frames_mask = 0;
  received_frames_mask = 0;
  received_frames_count = 0;
  bytes = replicate 223 0;
}

-- The second frame comes first.
abbrev arrivals : List Arrival
arrivals = (0, 6) ∷ []

ten_bytes-IsSendable : IsSendable ten_bytes
ten_bytes-IsSendable = record { counter_fits = omega arith; len_fits = omega arith }

thirteen_bytes-IsSendable : IsSendable thirteen_bytes
thirteen_bytes-IsSendable = record { counter_fits = omega arith; len_fits = omega arith }

fresh-IsEmpty : IsEmpty fresh
fresh-IsEmpty = record { none_received = refl; none_awaited = refl; array = refl }

arrivals_numbered : All (λ (b : Arrival). b.0 < 32) ((1, 5) ∷ arrivals)
arrivals_numbered = (omega arith, (omega arith, tt))

arrived_needed : (n : ℕ) → n < 32 → member n ((1, 5) ∷ arrivals) ≡ ltb n (frames_needed 10)
unfolding frames_needed
arrived_needed n l = ground arith

arrived_awaited : (n : ℕ) → n < 32 → member n ((1, 5) ∷ arrivals) ≡ ltb n (frames_awaited 10)
unfolding frames_awaited
arrived_awaited n l = ground arith

thirteen_missing : member (frames_needed 13) ((1, 5) ∷ arrivals) ≡ false
unfolding frames_needed
thirteen_missing = ground arith

feed_delivers_example :
    ((feed fresh false (map (frame ten_bytes) ((1, 5) ∷ arrivals))).1 ≡ true)
    × ((r : RawMessage) × (as_message
            (feed fresh false (map (frame ten_bytes) ((1, 5) ∷ arrivals))).0
          ≡ ok r)
        × (r.header ≡ position)
        × (r.bytes ≡ chunk (λ i. i % 256) 0 10))
feed_delivers_example =
    feed_delivers ten_bytes (1, 5) arrivals fresh ten_bytes-IsSendable arrivals_numbered
      fresh-IsEmpty (inr (inl (omega arith))) arrived_needed

feed-complete_iff_example :
    ((feed fresh false (map (frame ten_bytes) ((1, 5) ∷ arrivals))).1 ≡ true)
    ↔ ((n : ℕ) → n < 32 → member n ((1, 5) ∷ arrivals) ≡ ltb n (frames_awaited 10))
feed-complete_iff_example =
    feed-complete_iff ten_bytes (1, 5) arrivals fresh ten_bytes-IsSendable arrivals_numbered
      fresh-IsEmpty

ten_bytes_reported : (feed fresh false (map (frame ten_bytes) ((1, 5) ∷ arrivals))).1 ≡ true
ten_bytes_reported =
    (feed-complete_iff ten_bytes (1, 5) arrivals fresh ten_bytes-IsSendable arrivals_numbered
        fresh-IsEmpty).1
      arrived_awaited

feed_never_completes_example :
    (feed fresh false (map (frame thirteen_bytes) ((1, 5) ∷ arrivals))).1 ≢ true
feed_never_completes_example =
    feed_never_completes thirteen_bytes (1, 5) arrivals fresh thirteen_bytes-IsSendable
      arrivals_numbered fresh-IsEmpty 1 (omega arith) (omega arith) refl thirteen_missing

abbrev first_frame : RawFrame
first_frame = record {
  time = 6;
  header = position;
  length = 8;
  bytes = 64 ∷ 10 ∷ 0 ∷ 1 ∷ 2 ∷ 3 ∷ 4 ∷ 5 ∷ [];
}
