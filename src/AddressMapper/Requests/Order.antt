-- ===== src/AddressMapper/Requests/Order.antt =====
-- addressmapper/addressmapper.go: what `Run` writes, against a list of the requests it was given.
use go_nmea_client.Common.{
  ◌≤◌, ◌≡◌, refl, sym, ap, ◌∙◌, List, [], ◌∷◌, ◌++◌, Option, none, some, true, false, arith, ◌==◌,
  ◌⊎◌, Bool-cases, inl, inr, length, length-append,
}
use mathlib.Core.List.{append_assoc, append-nil}
use go_nmea_client.Nmea.{RawMessage}
use go_nmea_client.AddressMapper.Requests.{
  Queue, enqueue, dequeue, dequeue_items, Writer, Pick, toggled, requested, closed, tick, cancelled,
  next, returned, pass, write_next, run, with_written,
}

-- The requests among the picks, in their order.
unfoldable pub requests : List Pick → List RawMessage
requests [] = []
requests (requested msg ∷ picks) = msg ∷ requests picks
requests (toggled b ∷ picks) = requests picks
requests (closed ∷ picks) = requests picks
requests (tick ∷ picks) = requests picks
requests (cancelled ∷ picks) = requests picks

-- The first list is the second with some of its members left out.
pub data IsSubsequence : List RawMessage → List RawMessage → Type 0 where
  nothing : (ys : List RawMessage) → IsSubsequence [] ys
  keep :
      (x : RawMessage) {xs ys : List RawMessage}
      → IsSubsequence xs ys
      → IsSubsequence (x ∷ xs) (x ∷ ys)
  skip :
      (y : RawMessage) {xs ys : List RawMessage} → IsSubsequence xs ys → IsSubsequence xs (y ∷ ys)

-- What a run from `w` makes of the requests: some are accepted, and those written are the first of
-- the ones that waited and the accepted ones.
pub record Ordered (w : Writer) (picks : List Pick) : Type 0 where
  pub accepted : List RawMessage
  pub subsequence : IsSubsequence accepted (requests picks)
  pub in_order : (run w picks).0 ++ (run w picks).1.buffer.items ≡ w.buffer.items ++ accepted
  pub bounded : length (run w picks).1.buffer.items ≤ (run w picks).1.buffer.length
  pub same_bound : (run w picks).1.buffer.length ≡ w.buffer.length

run_next :
    (w w' : Writer) (msg : Option RawMessage) (p : Pick) (picks : List Pick)
    → pass w p ≡ next w' msg
    → run w (p ∷ picks) ≡ (with_written msg (run w' picks).0, (run w' picks).1)
unfolding run
run_next w w' msg p picks e = rw (e, run) refl

run-returned :
    (w : Writer) (p : Pick) (picks : List Pick) → pass w p ≡ returned → run w (p ∷ picks) ≡ ([], w)
unfolding run
run-returned w p picks e = rw (e, run) refl

-- A pick that writes nothing and leaves the buffer alone.
passed_over :
    (w w' : Writer) (p : Pick) (picks : List Pick)
    → pass w p ≡ next w' none
    → w'.buffer ≡ w.buffer
    → ((xs : List RawMessage)
        → IsSubsequence xs (requests picks)
        → IsSubsequence xs (requests (p ∷ picks)))
    → Ordered w' picks
    → Ordered w (p ∷ picks)
passed_over w w' p picks e same wider o = record {
  accepted = o.accepted;
  subsequence = wider o.accepted o.subsequence;
  in_order =
      rw (run_next w w' none p picks e)
        (o.in_order ∙ ap (λ (q : Queue RawMessage). q.items ++ o.accepted) same);
  bounded = rw (run_next w w' none p picks e) o.bounded;
  same_bound =
      rw (run_next w w' none p picks e)
        (o.same_bound ∙ ap (λ (q : Queue RawMessage). q.length) same);
}

stopped :
    (w : Writer) (p : Pick) (picks : List Pick)
    → pass w p ≡ returned
    → length w.buffer.items ≤ w.buffer.length
    → Ordered w (p ∷ picks)
stopped w p picks e fits = record {
  accepted = [];
  subsequence = nothing _;
  in_order = rw (run-returned w p picks e) (sym (append-nil w.buffer.items));
  bounded = rw (run-returned w p picks e) fits;
  same_bound = rw (run-returned w p picks e) refl;
}

enqueue_full :
    (q : Queue RawMessage) (msg : RawMessage)
    → (length q.items == q.length) ≡ true
    → (enqueue q msg).0 ≡ q
unfolding enqueue
enqueue_full q msg e = rw e refl

enqueue_room :
    (q : Queue RawMessage) (msg : RawMessage)
    → (length q.items == q.length) ≡ false
    → (enqueue q msg).0 ≡ record { items = q.items ++ (msg ∷ []); length = q.length }
unfolding enqueue
enqueue_room q msg e = rw e refl

accept :
    (w : Writer) (msg : RawMessage) (picks : List Pick)
    → pass w (requested msg)
      ≡ next
          (record w {
            buffer = record { items = w.buffer.items ++ (msg ∷ []); length = w.buffer.length };
          })
          none
    → Ordered
        (record w {
          buffer = record { items = w.buffer.items ++ (msg ∷ []); length = w.buffer.length };
        })
        picks
    → Ordered w (requested msg ∷ picks)
unfolding requests
accept w msg picks e o =
    let step = run_next w _ none (requested msg) picks e in
    record {
      accepted = msg ∷ o.accepted;
      subsequence = keep msg o.subsequence;
      in_order = rw step (o.in_order ∙ append_assoc w.buffer.items (msg ∷ []) o.accepted);
      bounded = rw step o.bounded;
      same_bound = rw step o.same_bound;
    }

write_first :
    (w : Writer) (msg : RawMessage) (items : List RawMessage) (picks : List Pick)
    → w.buffer.items ≡ msg ∷ items
    → pass w tick
      ≡ next (record w { buffer = record { items = items; length = w.buffer.length } }) (some msg)
    → Ordered (record w { buffer = record { items = items; length = w.buffer.length } }) picks
    → Ordered w (tick ∷ picks)
unfolding requests
write_first w msg items picks first e o =
    let step = run_next w _ (some msg) tick picks e in
    record {
      accepted = o.accepted;
      subsequence = o.subsequence;
      in_order = rw (step, first) (ap (λ t. msg ∷ t) o.in_order);
      bounded = rw step o.bounded;
      same_bound = rw step o.same_bound;
    }

pass-requested_off :
    (w : Writer) (msg : RawMessage) → w.enabled ≡ false → pass w (requested msg) ≡ next w none
unfolding pass
pass-requested_off w msg off = rw off refl

pass-requested_on :
    (w : Writer) (msg : RawMessage)
    → w.enabled ≡ true
    → pass w (requested msg) ≡ next (record w { buffer = (enqueue w.buffer msg).0 }) none
unfolding pass
pass-requested_on w msg on = rw on refl

pass-tick :
    (w : Writer) {items : List RawMessage}
    → w.buffer.items ≡ items
    → pass w tick ≡ write_next w (dequeue_items items w.buffer.length)
unfolding pass dequeue
pass-tick w e = rw e refl

List-cases :
    (xs : List RawMessage) → (xs ≡ []) ⊎ ((x : RawMessage) × (ys : List RawMessage) × (xs ≡ x ∷ ys))
List-cases [] = inl refl
List-cases (x ∷ xs) = inr (x, xs, refl)

-- From a buffer within its bound, the messages written and then those that wait are the ones that
-- waited and then some of the requests, in the order in which they came; the buffer stays within its
-- bound.
pub run-Ordered :
    (w : Writer) (picks : List Pick) → length w.buffer.items ≤ w.buffer.length → Ordered w picks
unfolding requests pass enqueue run write_next dequeue_items
run-Ordered w [] fits = record {
  accepted = [];
  subsequence = nothing [];
  in_order = sym (append-nil w.buffer.items);
  bounded = fits;
  same_bound = refl;
}
run-Ordered w (toggled b ∷ picks) fits =
    passed_over w (record w { enabled = b }) (toggled b) picks refl refl (λ xs s. s)
      (run-Ordered (record w { enabled = b }) picks fits)
run-Ordered w (closed ∷ picks) fits = stopped w closed picks refl fits
run-Ordered w (cancelled ∷ picks) fits = stopped w cancelled picks refl fits
run-Ordered w (requested msg ∷ picks) fits = elim (Bool-cases w.enabled) [
  | inr off ↦
      passed_over w w (requested msg) picks (pass-requested_off w msg off) refl (λ xs s. skip msg s)
        (run-Ordered w picks fits)
  | inl on ↦ elim (Bool-cases (length w.buffer.items == w.buffer.length)) [
    | inl full ↦
        let same : (enqueue w.buffer msg).0 ≡ w.buffer = enqueue_full w.buffer msg full in
        passed_over w (record w { buffer = (enqueue w.buffer msg).0 }) (requested msg) picks
          (pass-requested_on w msg on) same (λ xs s. skip msg s)
          (run-Ordered (record w { buffer = (enqueue w.buffer msg).0 }) picks
            (ground (
              arith,
              ap (λ (q : Queue RawMessage). length q.items) same,
              ap (λ (q : Queue RawMessage). q.length) same,
            )))
    | inr room ↦
        let q' : Queue RawMessage = record {
          items = w.buffer.items ++ (msg ∷ []);
          length = w.buffer.length;
        } in
        accept w msg picks
          (pass-requested_on w msg on
            ∙ ap (λ q. next (record w { buffer = q }) none) (enqueue_room w.buffer msg room))
          (run-Ordered (record w { buffer = q' }) picks
            (ground (arith, length-append w.buffer.items (msg ∷ []))))
  ]
]
run-Ordered w (tick ∷ picks) fits = elim (List-cases w.buffer.items) [
  | inl empty ↦
      passed_over w (record w { buffer = record { items = []; length = w.buffer.length } }) tick
        picks (pass-tick w empty) (rw empty refl) (λ xs s. s)
        (run-Ordered (record w { buffer = record { items = []; length = w.buffer.length } }) picks
          (omega arith))
  | inr (msg, items, first) ↦ write_first w msg items picks first (pass-tick w first) (
      run-Ordered (record w { buffer = record { items = items; length = w.buffer.length } }) picks
        (omega (arith, ap length first)))
]
