-- ===== src/FastPacket/Assembler/Safety.antt =====
-- When `Assemble` of fastpacket.go panics: the length byte of a first frame is not checked against
-- the 223 bytes that a sequence can hold.
use go_nmea_client.Common.{
  ℕ, ◌≤◌, ◌<◌, ◌≡◌, refl, ap, ◌∙◌, ◌⊎◌, inl, inr, List, Bool, true, false, arith, Bool-cases, ok,
  panic, ltb, le→ltb, bit_and, get_or,
}
use go_nmea_client.Nmea.{RawFrame}
use go_nmea_client.FastPacket.{
  Sequence, Target, append, reset, to, begin, mark, store_first, store_next, is_complete, fill,
  frame_count, complete_mask,
}
use go_nmea_client.FastPacket.Assembler.{
  FastPacketAssembler, is_fast_packet, assemble, refresh, matches, copy_frame, fill_frame,
}
use go_nmea_client.FastPacket.Assembler.Transfers.{count, count_by, count_by-perm}
use go_nmea_client.FastPacket.Assembler.Refinement.{Chosen, assemble-Assembled}
use go_nmea_client.FastPacket.Assembler.Uniqueness.{IsUnique, fast_of, assemble-IsUnique}

-- A sequence that claims more bytes than it has room for.
abbrev pub is_oversized : Sequence → Bool
is_oversized m = ltb 223 m.length

-- What `Assemble` keeps from call to call.
pub record IsValid (a : FastPacketAssembler) : Type 0 where
  pub unique : IsUnique a.in_transfer
  pub none_oversized : count_by is_oversized a.in_transfer ≡ 0

append-length :
    (m : Sequence) (f : RawFrame)
    → ((append m f).0.length ≡ m.length) ⊎ ((append m f).0.length ≡ get_or f.bytes 1 0)
unfolding append begin mark store_first store_next
append-length m f = ground arith

refresh-length : (now : ℕ) (m : Sequence) → (refresh now m).length ≤ m.length
unfolding refresh reset
refresh-length now m = ground arith

reset-length : (m : Sequence) → (reset m).length ≡ 0
unfolding reset
reset-length m = refl

to_fits : (m : Sequence) (target : Target) → m.length ≤ 223 → (t : Target) × (to m target ≡ ok t)
unfolding to
to_fits m target h = (fill m target, ground arith)

to_oversized : (m : Sequence) (target : Target) → 223 < m.length → to m target ≡ panic
unfolding to
to_oversized m target h = ground arith

copy_frame_fits :
    (frame : RawFrame) (target : Target)
    → frame.length ≤ 8
    → (t : Target) × (copy_frame frame target ≡ ok t)
unfolding copy_frame
copy_frame_fits frame target h = (fill_frame frame target, ground arith)

Chosen-fits :
    (now : ℕ) (item : Sequence) (frame : RawFrame) (ms : List Sequence) (m : Sequence)
    (others : List Sequence)
    → Chosen now item frame ms m others
    → count_by is_oversized ms ≡ 0
    → (m.length ≤ 223) × (count_by is_oversized others ≡ 0)
Chosen-fits now item frame ms m others c none_over = elim c.source [
  | inl (hit, e, chosen, p) ↦ ground (
    arith,
    count_by-perm is_oversized p,
    refresh-length now hit,
    ap (λ (x : Sequence). x.length) chosen,
  )
  | inr (fresh, e) ↦ (
    ground (arith, reset-length item, ap (λ (x : Sequence). x.length) fresh),
    ap (count_by is_oversized) e ∙ none_over,
  )
]

assemble_slow :
    (a : FastPacketAssembler) (now : ℕ) (item : Sequence) (frame : RawFrame) (target : Target)
    {t : Target}
    → is_fast_packet a frame ≡ false
    → copy_frame frame target ≡ ok t
    → assemble a now item frame target ≡ ok (a, t, true)
unfolding assemble
assemble_slow a now item frame target slow e = rw (slow, e) refl

-- `Assemble` returns, and keeps the sequences in transfer apart and within 223 bytes, for every frame
-- of at most 8 bytes whose second byte is at most 223.
pub assemble_returns :
    (a : FastPacketAssembler) (now : ℕ) (item : Sequence) (frame : RawFrame) (target : Target)
    → IsValid a
    → frame.length ≤ 8
    → get_or frame.bytes 1 0 ≤ 223
    → (a' : FastPacketAssembler) × (target' : Target) × (done : Bool) × (assemble a now item frame
          target
        ≡ ok (a', target', done))
      × IsValid a'
assemble_returns a now item frame target v short announced =
    elim (Bool-cases (is_fast_packet a frame)) [
      | inr slow ↦
          let (t, e) = copy_frame_fits frame target short in
          let run = assemble_slow a now item frame target slow e in (a, t, true, run, v)
      | inl fast ↦
          let r =
            assemble-Assembled a now item frame target fast
              (v.unique frame (fast_of a frame fast)) in
          let (fits, rest) =
            Chosen-fits now item frame a.in_transfer r.current r.others r.chosen v.none_oversized in
          let after_fits : (append r.current frame).0.length ≤ 223 =
            ground (arith, append-length r.current frame) in
          let a' = record a { in_transfer = r.in_transfer' } in
          elim r.outcome [
            | inl (done, p, e) ↦
                let (t, wrote) = to_fits (append r.current frame).0 target after_fits in
                let run : assemble a now item frame target ≡ ok (a', t, true) =
                  rw (e, wrote) refl in
                (
                  a',
                  t,
                  true,
                  run,
                  record {
                    unique = assemble-IsUnique a now item frame target v.unique run;
                    none_oversized = count_by-perm is_oversized p ∙ rest;
                  },
                )
            | inr (more, p, e) ↦ (
              a',
              target,
              false,
              e,
              record {
                unique = assemble-IsUnique a now item frame target v.unique e;
                none_oversized = ground (arith, count_by-perm is_oversized p);
              },
            )
          ]
    ]

append_oversized :
    (item : Sequence) (frame : RawFrame)
    → 2 ≤ frame.length
    → bit_and (get_or frame.bytes 0 0) 31 ≡ 0
    → get_or frame.bytes 1 0 ≡ 255
    → ((append (reset item) frame).1 ≡ true) × ((append (reset item) frame).0.length ≡ 255)
unfolding append begin mark store_first store_next is_complete reset frame_count complete_mask
append_oversized item frame long first announced =
    rw (le→ltb frame.length 2 long, first, announced) (refl, refl)

-- A first frame that announces 255 bytes makes `Assemble` panic, where no sequence of its source,
-- PGN and counter is in transfer: its frame count wraps to one, so it is taken for complete.
pub assemble_panics :
    (a : FastPacketAssembler) (now : ℕ) (item : Sequence) (frame : RawFrame) (target : Target)
    → is_fast_packet a frame ≡ true
    → count frame a.in_transfer ≡ 0
    → 2 ≤ frame.length
    → bit_and (get_or frame.bytes 0 0) 31 ≡ 0
    → get_or frame.bytes 1 0 ≡ 255
    → assemble a now item frame target ≡ panic
assemble_panics a now item frame target fast absent long first announced =
    let r = assemble-Assembled a now item frame target fast (omega arith) in
    let (done, len) = append_oversized item frame long first announced in
    elim r.chosen.source [
      | inl (hit, e, chosen, p) ↦ absurd (ground (arith, count_by-perm (matches frame) p))
      | inr (fresh, e) ↦ elim r.outcome [
        | inr (more, p, e') ↦
            absurd (cc (more, done, ap (λ (x : Sequence). (append x frame).1) fresh))
        | inl (ended, p, e') ↦
            rw (e', fresh, to_oversized (append (reset item) frame).0 target (omega (arith, len)))
              refl
      ]
    ]
