-- ===== src/FastPacket/Reassembly/Feed.antt =====
-- A run of `Append` of fastpacket.go over a list of frames, and what the sequence holds after it.
use go_nmea_client.Common.{
  ℕ, ◌<◌, ◌≡◌, inl, inr, List, [], ◌∷◌, map, Bool, true, arith, ◌||◌, Bool-cases, All,
}
use go_nmea_client.Nmea.{RawFrame}
use go_nmea_client.FastPacket.{Sequence, append, is_complete}
use go_nmea_client.FastPacket.Transfer.{Sent, IsSendable, Arrival, Holds, member, frame}
use go_nmea_client.FastPacket.Transfer.Step.{append-frame, store-Holds}

-- The sequence after the frames, and what the last call returned.
unfoldable pub feed : Sequence → Bool → List RawFrame → Sequence × Bool
feed m done [] = (m, done)
feed m done (f ∷ fs) = let r = append m f in feed r.0 r.1 fs

-- A frame that was seen before adds nothing.
repeat-Holds :
    (s : Sent) (a : Arrival) (seen : List Arrival) (m : Sequence)
    → member a.0 seen ≡ true
    → Holds s seen m
    → Holds s (a ∷ seen) m
repeat-Holds s a seen m again v = record {
  width = v.width;
  received = λ n. ground (arith, v.received n);
  sized = v.sized;
  started = λ e. ground (arith, v.started);
  unstarted = λ e. ground (arith, v.unstarted);
  content = λ i l e. ground (arith, v.content i l);
  owner = ground (arith, v.owner);
}

append-Holds :
    (s : Sent) (a : Arrival) (seen : List Arrival) (m : Sequence)
    → IsSendable s
    → a.0 < 32
    → Holds s seen m
    → Holds s (a ∷ seen) (append m (frame s a)).0
append-Holds s a seen m ok_s h v = elim (Bool-cases (member a.0 seen)) [
  | inl again ↦ rw (append-frame s a m h, v.received a.0, again) (repeat-Holds s a seen m again v)
  | inr new ↦ rw (append-frame s a m h, v.received a.0, new) (store-Holds s a seen m ok_s h new v)
]

pub append-is_complete :
    (s : Sent) (a : Arrival) (m : Sequence)
    → a.0 < 32
    → (append m (frame s a)).1 ≡ is_complete (append m (frame s a)).0
append-is_complete s a m h = ground (arith, append-frame s a m h)

-- The frames seen, newest first.
abbrev pub seen_after : List Arrival → List Arrival → List Arrival
seen_after seen [] = seen
seen_after seen (a ∷ arrivals) = seen_after (a ∷ seen) arrivals

pub member-seen_after :
    (n : ℕ) (seen arrivals : List Arrival)
    → member n (seen_after seen arrivals) ≡ member n seen || member n arrivals
member-seen_after n seen [] = ground arith
member-seen_after n seen (a ∷ arrivals) = ground (arith, member-seen_after n (a ∷ seen) arrivals)

pub feed-Holds :
    (s : Sent) (arrivals seen : List Arrival) (m : Sequence) (done : Bool)
    → IsSendable s
    → All (λ a. a.0 < 32) arrivals
    → Holds s seen m
    → Holds s (seen_after seen arrivals) (feed m done (map (frame s) arrivals)).0
unfolding feed
feed-Holds s [] seen m done ok_s h v = v
feed-Holds s (a ∷ arrivals) seen m done ok_s h v =
    feed-Holds s arrivals (a ∷ seen) _ _ ok_s h.1 (append-Holds s a seen m ok_s h.0 v)

pub feed-is_complete :
    (s : Sent) (arrivals : List Arrival) (m : Sequence) (done : Bool)
    → All (λ a. a.0 < 32) arrivals
    → done ≡ is_complete m
    → (feed m done (map (frame s) arrivals)).1
      ≡ is_complete (feed m done (map (frame s) arrivals)).0
unfolding feed
feed-is_complete s [] m done h e = e
feed-is_complete s (a ∷ arrivals) m done h e =
    feed-is_complete s arrivals _ _ h.1 (append-is_complete s a m h.0)
