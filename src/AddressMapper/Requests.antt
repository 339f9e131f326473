-- ===== src/AddressMapper/Requests.antt =====
-- addressmapper/addressmapper.go: the requests, the queue that holds them back, and the loop of `Run`
-- that writes them.
-- The loop is a function of the events that `select` picks, in their order. A tick of the timer may
-- come although the timer is stopped, so the timer has no state of its own.
pub mod Order
use go_nmea_client.Common.{
  ℕ, zero, suc, ◌+◌, List, [], ◌∷◌, ◌++◌, Option, none, some, Bool, true, false, ◌==◌,
  if◌then◌else◌, u8, ◌>>>◌, bit_and, length,
}
use go_nmea_client.Canbus.{address_null}
use go_nmea_client.Nmea.{RawMessage}

abbrev pub pgn_iso_request : ℕ
pgn_iso_request = 59904

-- The message has Go's zero time.
unfoldable pub create_iso_request : ℕ → ℕ → RawMessage
create_iso_request for_pgn destination = record {
  time = 0;
  header = record {
    pgn = pgn_iso_request;
    priority = 6;
    source = address_null;
    destination = destination;
  };
  bytes =
      u8 (bit_and for_pgn 0xff)
      ∷ u8 (bit_and (for_pgn >>> 8) 0xff)
      ∷ u8 (bit_and (for_pgn >>> 16) 0xff)
      ∷ [];
}

pub record Queue {ℓ} (A : Type ℓ) : Type ℓ where
  pub items : List A
  pub length : ℕ

unfoldable pub new_queue {ℓ} : {A : Type ℓ} → ℕ → Queue A
new_queue n = record { items = []; length = n }

unfoldable pub enqueue {ℓ} : {A : Type ℓ} → Queue A → A → Queue A × Bool
enqueue q item =
    if length q.items == q.length
    then (q, false)
    else (record { items = q.items ++ (item ∷ []); length = q.length }, true)

unfoldable pub dequeue_items {ℓ} : {A : Type ℓ} → List A → ℕ → Queue A × Option A
dequeue_items [] n = (record { items = []; length = n }, none)
dequeue_items (item ∷ items) n = (record { items = items; length = n }, some item)

unfoldable pub dequeue {ℓ} : {A : Type ℓ} → Queue A → Queue A × Option A
dequeue q = dequeue_items q.items q.length

-- `enabled` and `buffer`, the variables of the loop.
pub record Writer : Type 0 where
  pub enabled : Bool
  pub buffer : Queue RawMessage

unfoldable pub new_writer : Bool → Writer
new_writer enabled = record { enabled = enabled; buffer = new_queue 50 }

-- What `select` picks: a change of `toggleWriteChan`, a request or the end of `requestsChan`, a tick of
-- the timer, the end of the context.
pub data Pick : Type 0 where
  toggled : Bool → Pick
  requested : RawMessage → Pick
  closed tick cancelled : Pick

-- One pass of the loop: it goes on, with the message that it handed to the device, or returns.
pub data Pass : Type 0 where
  next : Writer → Option RawMessage → Pass
  returned : Pass

unfoldable pub write_next : Writer → Queue RawMessage × Option RawMessage → Pass
write_next w (buffer, msg) = next (record w { buffer = buffer }) msg

unfoldable pub pass : Writer → Pick → Pass
pass w (toggled write_enabled) = next (record w { enabled = write_enabled }) none
pass w (requested msg) =
    if w.enabled then next (record w { buffer = (enqueue w.buffer msg).0 }) none else next w none
pass w closed = returned
pass w tick = write_next w (dequeue w.buffer)
pass w cancelled = returned

abbrev pub with_written : Option RawMessage → List RawMessage → List RawMessage
with_written none msgs = msgs
with_written (some msg) msgs = msg ∷ msgs

-- The loop: the messages written, and the writer where the picks run out or it returns.
unfoldable pub run : Writer → List Pick → List RawMessage × Writer
run w [] = ([], w)
run w (p ∷ picks) = elim (pass w p) [
  | returned ↦ ([], w)
  | next w' msg ↦ let rest = run w' picks in (with_written msg rest.0, rest.1)
]
