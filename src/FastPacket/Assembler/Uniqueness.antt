-- ===== src/FastPacket/Assembler/Uniqueness.antt =====
-- Among the sequences in transfer of fastpacket.go at most one has a given source, PGN and counter.
use go_nmea_client.Common.{
  ℕ, ◌≤◌, ◌≡◌, refl, sym, ap, ◌∙◌, ◌⊎◌, inl, inr, List, [], ◌∷◌, Bool, true, false, arith,
  Bool-cases, Result, ok, get_or, ◌==◌, ◌>>>◌, ◌&&◌,
}
use go_nmea_client.Nmea.{RawFrame, could_be_fast_packet}
use go_nmea_client.FastPacket.{
  Sequence, Target, NoError, append, reset, to, begin, mark, store_first, store_next,
}
use go_nmea_client.FastPacket.Assembler.{
  FastPacketAssembler, is_fast_packet, matches, refresh, assemble, copy_frame,
}
use go_nmea_client.FastPacket.Assembler.Transfers.{count, count_by-perm}
use mathlib.Core.List.{Perm}
use mathlib.Core.Path.{subst}
use go_nmea_client.FastPacket.Assembler.Refinement.{Chosen, assemble-Assembled}
use go_nmea_client.Common.{>>=-eq-ok}

-- Sequences that match a frame are those of its source, PGN and counter.
matches_same_key :
    (f g : RawFrame) (m : Sequence)
    → matches f m ≡ true
    → matches g m ≡ true
    → (x : Sequence) → matches f x ≡ matches g x
unfolding matches
matches_same_key f g m hf hg x = ground arith

append_owner :
    (m : Sequence) (f : RawFrame)
    → (((append m f).0.header ≡ m.header) × ((append m f).0.sequence ≡ m.sequence))
      ⊎ (((append m f).0.header ≡ f.header) × ((append m f).0.sequence ≡ get_or f.bytes 0 0 >>> 5))
unfolding append begin mark store_first store_next
append_owner m f = ground arith

reset_pgn : (m : Sequence) → (reset m).header.pgn ≡ 0
unfolding reset
reset_pgn m = refl

matches_iff :
    (f : RawFrame) (m : Sequence)
    → matches f m ≡ (
        (m.header.source == f.header.source)
        && (m.header.pgn == f.header.pgn)
        && (m.sequence == (get_or f.bytes 0 0 >>> 5)))
unfolding matches
matches_iff f m = refl

refresh_cases : (now : ℕ) (m : Sequence) → (refresh now m ≡ m) ⊎ ((refresh now m).header.pgn ≡ 0)
unfolding refresh reset
refresh_cases now m = ground arith

-- The sequence after a frame is the frame's, or has PGN 0.
append-matches :
    (now : ℕ) (item : Sequence) (frame : RawFrame) (ms : List Sequence) (m : Sequence)
    (others : List Sequence)
    → Chosen now item frame ms m others
    → (matches frame (append m frame).0 ≡ true) ⊎ ((append m frame).0.header.pgn ≡ 0)
append-matches now item frame ms m others c = elim c.source [
  | inl (hit, e, chosen, p) ↦ ground (
    arith,
    append_owner m frame,
    refresh_cases now hit,
    matches_iff frame m,
    matches_iff frame hit,
    matches_iff frame (append m frame).0,
  )
  | inr (fresh, e) ↦
      ground (arith, append_owner m frame, reset_pgn item, matches_iff frame (append m frame).0)
]

pub count-perm : (f : RawFrame) {xs ys : List Sequence} → Perm xs ys → count f xs ≡ count f ys
count-perm f p = count_by-perm (matches f) p

count_same :
    (f g : RawFrame) (xs : List Sequence)
    → ((x : Sequence) → matches f x ≡ matches g x)
    → count f xs ≡ count g xs
count_same f g [] h = refl
count_same f g (x ∷ xs) h = ground (arith, h x, count_same f g xs h)

fast_pgn :
    (g : RawFrame) (m : Sequence)
    → matches g m ≡ true
    → m.header.pgn ≡ 0
    → could_be_fast_packet g.header.pgn ≡ true
    → ⊥
unfolding matches could_be_fast_packet
fast_pgn g m hit zero_pgn fast = ground arith

-- No two sequences in transfer have the source, PGN and counter of one fast-packet frame.
abbrev pub IsUnique : List Sequence → Type 0
IsUnique ms = (g : RawFrame) → could_be_fast_packet g.header.pgn ≡ true → count g ms ≤ 1

module _ (now : ℕ) (item : Sequence) (frame : RawFrame) (ms : List Sequence) (m : Sequence)
    (others : List Sequence) (c : Chosen now item frame ms m others) where
  count-others : (g : RawFrame) → count g others ≤ count g ms
  count-others g = elim c.source [
    | inl (hit, e, chosen, p) ↦ ground (arith, count-perm g p)
    | inr (fresh, e) ↦ omega (arith, ap (count g) e)
  ]

  put_back-IsUnique : IsUnique ms → IsUnique ((append m frame).0 ∷ others)
  put_back-IsUnique u g fast = elim (Bool-cases (matches g (append m frame).0)) [
    | inr miss ↦ ground (arith, count-others g, u g fast)
    | inl hit ↦ elim (append-matches now item frame ms m others c) [
      | inl own ↦ ground (
        arith,
        c.no_other,
        count_same frame g others (matches_same_key frame g (append m frame).0 own hit),
      )
      | inr none_left ↦ absurd (fast_pgn g (append m frame).0 hit none_left fast)
    ]
  ]

pub fast_of :
    (a : FastPacketAssembler) (f : RawFrame)
    → is_fast_packet a f ≡ true
    → could_be_fast_packet f.header.pgn ≡ true
unfolding is_fast_packet
fast_of a f h = ground arith

abbrev transfers : Result NoError (FastPacketAssembler × Target × Bool) → List Sequence
transfers (ok r) = r.0.in_transfer
transfers _ = []

slow-transfers :
    (a : FastPacketAssembler) (now : ℕ) (item : Sequence) (frame : RawFrame) (target : Target)
    {r : FastPacketAssembler × Target × Bool}
    → is_fast_packet a frame ≡ false
    → assemble a now item frame target ≡ ok r
    → a.in_transfer ≡ r.0.in_transfer
unfolding assemble
slow-transfers a now item frame target slow run =
    let (t, e, same) = >>=-eq-ok (copy_frame frame target) _ (rw slow at run) in ap transfers same

-- `Assemble` keeps the sequences in transfer apart by source, PGN and counter.
pub assemble-IsUnique :
    (a : FastPacketAssembler) (now : ℕ) (item : Sequence) (frame : RawFrame) (target : Target)
    {a' : FastPacketAssembler} {target' : Target} {done : Bool}
    → IsUnique a.in_transfer
    → assemble a now item frame target ≡ ok (a', target', done)
    → IsUnique a'.in_transfer
assemble-IsUnique a now item frame target u run = elim (Bool-cases (is_fast_packet a frame)) [
  | inr slow ↦ subst IsUnique (slow-transfers a now item frame target slow run) u
  | inl fast ↦
      let r = assemble-Assembled a now item frame target fast (u frame (fast_of a frame fast)) in
      elim r.outcome [
        | inl (done, p, e) ↦
            let (t, _, same) = >>=-eq-ok (to (append r.current frame).0 target) _ (sym e ∙ run) in
            subst IsUnique (ap transfers same) λ g h. omega (
              arith,
              count-perm g p,
              count-others now item frame a.in_transfer r.current r.others r.chosen g,
              u g h,
            )
        | inr (more, p, e) ↦ subst IsUnique (ap transfers (sym e ∙ run)) λ g h. omega (
          arith,
          count-perm g p,
          put_back-IsUnique now item frame a.in_transfer r.current r.others r.chosen u g h,
        )
      ]
]
