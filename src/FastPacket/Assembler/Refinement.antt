-- ===== src/FastPacket/Assembler/Refinement.antt =====
-- `Assemble` of fastpacket.go against a bag of sequences: it takes the one sequence of the frame's
-- source, PGN and counter, or a new one, appends the frame, and puts it back or reports it.
use go_nmea_client.Common.{
  ℕ, ◌≤◌, ◌≡◌, refl, sym, ap, ◌∙◌, ◌⊎◌, inl, inr, List, [], ◌∷◌, ◌++◌, none, Bool, true, false,
  arith, ok, ◌>>=◌, length, set,
}
use go_nmea_client.Nmea.{RawFrame}
use go_nmea_client.FastPacket.{Sequence, Target, append, reset, to}
use go_nmea_client.FastPacket.Assembler.{
  FastPacketAssembler, is_fast_packet, matches, refresh, scan, swap_remove, choose, finish,
  assemble_fast, assemble,
}
use go_nmea_client.FastPacket.Assembler.Transfers.{
  count, count-append, scan-none, Split, Split-cases, scan-hit, get_or-middle, set-middle,
  swap_remove-perm,
}
use mathlib.Core.List.{Perm, perm_middle, append-nil}
use native.Mathlib.Nat.{zero-add}

-- The sequence that a frame goes to, and the other ones. It is the match in transfer, reset if it is
-- old, or an object of the pool, reset.
pub record Chosen (now : ℕ) (item : Sequence) (frame : RawFrame) (ms : List Sequence) (m : Sequence)
    (others : List Sequence) : Type 0 where
  pub source :
      ((hit : Sequence) × (matches frame hit ≡ true)
        × (m ≡ refresh now hit)
        × Perm ms (hit ∷ others))
      ⊎ ((m ≡ reset item) × (others ≡ ms))
  pub no_other : count frame others ≡ 0

-- What `Assemble` returns for a fast-packet frame.
pub record Assembled (a : FastPacketAssembler) (now : ℕ) (item : Sequence) (frame : RawFrame)
    (target : Target) : Type 0 where
  pub current : Sequence
  pub others : List Sequence
  pub in_transfer' : List Sequence
  pub chosen : Chosen now item frame a.in_transfer current others
  pub outcome :
      (((append current frame).1 ≡ true)
        × Perm in_transfer' others
        × (assemble a now item frame target ≡ (
            to (append current frame).0 target >>= λ target'.
            ok (record a { in_transfer = in_transfer' }, target', true))))
      ⊎ (((append current frame).1 ≡ false)
          × Perm in_transfer' ((append current frame).0 ∷ others)
          × (assemble a now item frame target
              ≡ ok (record a { in_transfer = in_transfer' }, target, false)))

module _ (a : FastPacketAssembler) (now : ℕ) (item : Sequence) (frame : RawFrame) (target : Target)
    (fast : is_fast_packet a frame ≡ true) where
  finish-done :
      (front : List Sequence) (m : Sequence) (back : List Sequence)
      → assemble a now item frame target
        ≡ finish a (front ++ (m ∷ back)) (length front) (append m frame) target
      → Chosen now item frame a.in_transfer m (front ++ back)
      → (r : Sequence × Bool) → r ≡ append m frame
      → Assembled a now item frame target
  unfolding finish
  finish-done front m back run chosen (m', true) e =
      let ms' = swap_remove (length front) (set (front ++ (m ∷ back)) (length front) m') m' in
      record {
        current = m;
        others = front ++ back;
        in_transfer' = ms';
        chosen = chosen;
        outcome = inl (
          ap (λ r. r.1) (sym e),
          rw (set-middle front m back m') (swap_remove-perm front m' back m'),
          rw (run, ← e) refl,
        );
      }
  finish-done front m back run chosen (m', false) e = record {
    current = m;
    others = front ++ back;
    in_transfer' = set (front ++ (m ∷ back)) (length front) m';
    chosen = chosen;
    outcome = inr (
      ap (λ r. r.1) (sym e),
      rw (← e, set-middle front m back m') (perm_middle front back),
      rw (run, ← e) refl,
    );
  }

  run-hit :
      (front : List Sequence) (m : Sequence) (back : List Sequence)
      → choose (scan now frame a.in_transfer 0 none) item ≡ (front ++ (m ∷ back), length front)
      → assemble a now item frame target
        ≡ finish a (front ++ (m ∷ back)) (length front) (append m frame) target
  unfolding assemble assemble_fast
  run-hit front m back e = rw (fast, e, get_or-middle front m back item) refl

  -- With at most one match in transfer, `Assemble` on a frame of a fast-packet PGN appends it to the
  -- chosen sequence alone; that sequence is taken out and written to the target when it is complete,
  -- and is put back otherwise. Every other sequence stays as it was.
  pub assemble-Assembled : count frame a.in_transfer ≤ 1 → Assembled a now item frame target
  unfolding choose
  assemble-Assembled h = elim (Split-cases frame a.in_transfer h) [
    | inl absent ↦
        finish-done a.in_transfer (reset item) []
          (run-hit a.in_transfer (reset item) []
            (ap (λ r. choose r item) (scan-none now frame a.in_transfer 0 none absent)))
          (record {
            source = inr (refl, append-nil a.in_transfer);
            no_other = rw (append-nil a.in_transfer) absent;
          })
          (append (reset item) frame) refl
    | inr s ↦
        finish-done s.front (refresh now s.hit) s.back
          (run-hit s.front (refresh now s.hit) s.back (found s))
          (record {
            source = inl (s.hit, s.hit_matches, refl, rw s.whole (perm_middle s.front s.back));
            no_other =
                omega (arith, count-append frame s.front s.back, s.none_before, s.none_behind);
          })
          (append (refresh now s.hit) frame) refl
  ]
    where
      found :
          (s : Split frame a.in_transfer)
          → choose (scan now frame a.in_transfer 0 none) item
            ≡ (s.front ++ (refresh now s.hit ∷ s.back), length s.front)
      found s =
          ap (λ r. choose r item)
            (ap (λ ms. scan now frame ms 0 none) s.whole
              ∙ scan-hit now frame s.front s.hit s.back 0 none s.none_before s.hit_matches
                  s.none_behind)
          ∙ ap (λ n. (s.front ++ (refresh now s.hit ∷ s.back), n)) (zero-add (length s.front))
