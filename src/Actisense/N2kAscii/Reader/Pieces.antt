-- ===== src/Actisense/N2kAscii/Reader/Pieces.antt =====
-- actisense/n2kasciidevice.go: a line that the device gives in pieces.
use mathlib.Core.List.{append-nil}
use go_nmea_client.Common.{
  ℕ, zero, suc, ◌+◌, ◌-◌, ◌≤◌, ◌≡◌, refl, ap, sym, ◌∙◌, List, [], ◌∷◌, ◌++◌, none, some, true,
  false, arith, leb, ◌==◌, length, take, map, length-append, All, overwrite, overwrite_from,
  length-overwrite_from, length-overwrite, drop,
}
use go_nmea_client.Actisense.RawAscii.{index_byte}
use go_nmea_client.Actisense.N2kAscii.{parse_n2k_ascii}
use go_nmea_client.Text.Parts.{Lacks}
use go_nmea_client.Actisense.N2kAscii.Reader.{
  N2kAsciiDevice, Input, got, Outcome, Turn, goes_on, gives, crashes, returned, panicked,
  after_line, on_read, append_read, with_line, left_over, read_n2k_message,
}

-- The bytes of a line that has not ended.
pub record Holds (d : N2kAsciiDevice) (pending : List ℕ) : Type 0 where
  pub counted : length pending ≡ d.read_index
  pub stored : take d.read_index d.read_buffer ≡ pending
  pub fits : d.read_index ≤ length d.read_buffer

take-overwrite :
    (dst src : List ℕ) → length src ≤ length dst → take (length src) (overwrite dst src) ≡ src
take-overwrite dst [] h = refl
take-overwrite [] (s ∷ src) h = absurd (omega (arith, h))
take-overwrite (d ∷ dst) (s ∷ src) h = ap (◌∷◌ s) (take-overwrite dst src (omega (arith, h)))

take-overwrite_from :
    (n : ℕ) (dst src : List ℕ)
    → n + length src ≤ length dst
    → take (n + length src) (overwrite_from n dst src) ≡ take n dst ++ src
take-overwrite_from zero dst src h =
    ap (λ (k : ℕ). take k (overwrite dst src)) (omega arith)
    ∙ take-overwrite dst src (omega (arith, h))
take-overwrite_from (suc n) [] src h = absurd (omega (arith, h))
take-overwrite_from (suc n) (d ∷ dst) src h =
    ap (λ (k : ℕ). take k (d ∷ overwrite_from n dst src)) one_more
    ∙ ap (◌∷◌ d) (take-overwrite_from n dst src (omega (arith, h)))
  where
    one_more : suc n + length src ≡ suc (n + length src)
    one_more = omega arith

index_byte-Lacks : (s : List ℕ) → Lacks 10 s → index_byte s 10 ≡ none
unfolding index_byte
index_byte-Lacks [] h = refl
index_byte-Lacks (c ∷ s) h =
    let other : (c == 10) ≡ false = ground (arith, h.0) in rw (other, index_byte-Lacks s h.1) refl

index_byte-append :
    (s rest : List ℕ) → Lacks 10 s → index_byte (s ++ (10 ∷ rest)) 10 ≡ some (length s)
unfolding index_byte
index_byte-append [] rest h = refl
index_byte-append (c ∷ s) rest h =
    let other : (c == 10) ≡ false = ground (arith, h.0) in
    rw (other, index_byte-append s rest h.1) refl

take-line : (s rest : List ℕ) → take (length s) (s ++ rest) ≡ s
take-line [] rest = refl
take-line (c ∷ s) rest = ap (◌∷◌ c) (take-line s rest)

append_read-Holds :
    (d : N2kAsciiDevice) (pending buf : List ℕ)
    → Holds d pending
    → length (pending ++ buf) ≤ length d.read_buffer
    → Holds (append_read d buf) (pending ++ buf)
unfolding append_read
append_read-Holds d pending buf h room = record {
  counted = omega (arith, length-append pending buf, h.counted);
  stored =
      take-overwrite_from d.read_index d.read_buffer buf
        (omega (arith, length-append pending buf, h.counted, room))
      ∙ ap (λ (s : List ℕ). s ++ buf) h.stored;
  fits = omega (
    arith,
    length-append pending buf,
    h.counted,
    room,
    length-overwrite_from d.read_index d.read_buffer buf,
  );
}

on_read-piece :
    (d : N2kAsciiDevice) (pending buf : List ℕ) (now : ℕ)
    → Holds d pending
    → Lacks 10 buf
    → length (pending ++ buf) ≤ length d.read_buffer
    → (d' : N2kAsciiDevice) × (on_read d buf now ≡ goes_on d')
      × Holds d' (pending ++ buf)
      × (length d'.read_buffer ≡ length d.read_buffer)
unfolding on_read append_read
on_read-piece d pending [] now h lacks room =
    (d, rw (on_read, index_byte-Lacks [] lacks) refl, rw append-nil h, refl)
on_read-piece d pending (c ∷ buf) now h lacks room =
    let inside : leb d.read_index (length d.read_buffer) ≡ true = ground (arith, h.fits) in
    let more : (length (c ∷ buf) == 0) ≡ false = ground arith in
    (
      append_read d (c ∷ buf),
      rw (on_read, index_byte-Lacks (c ∷ buf) lacks, more, inside) refl,
      append_read-Holds d pending (c ∷ buf) h room,
      length-overwrite_from d.read_index d.read_buffer (c ∷ buf),
    )

-- A line from its start, the pieces of it that are read first and the last one.
abbrev pub whole : List ℕ → List (List ℕ × ℕ) → List ℕ → List ℕ
whole pending [] last = pending ++ last
whole pending ((buf, now) ∷ pieces) last = whole (pending ++ buf) pieces last

length-whole :
    (pending : List ℕ) (pieces : List (List ℕ × ℕ)) (last : List ℕ)
    → length pending ≤ length (whole pending pieces last)
length-whole pending [] last = omega (arith, length-append pending last)
length-whole pending ((buf, now) ∷ pieces) last =
    omega (arith, length-append pending buf, length-whole (pending ++ buf) pieces last)

abbrev pub received : List ℕ × ℕ → Input
received (buf, now) = got buf now

abbrev pub after_turn : Turn → List Input → Outcome
after_turn (goes_on d) rest = read_n2k_message d rest
after_turn (gives r d) rest = returned r d rest
after_turn crashes rest = panicked

-- The buffer in which a line is parsed: it starts with the line. What is read behind the end of the line
-- is held for the next one, where it fits.
pub record IsLine (d : N2kAsciiDevice) (line buf next : List ℕ) (end : ℕ) (buffer : List ℕ)
    : Type 0 where
  pub starts : take (length line) buffer ≡ line
  pub same_size : length buffer ≡ length d.read_buffer
  pub holds_next : length next ≤ length buffer → Holds (left_over buffer buf end) next

drop-line : (last next : List ℕ) → drop (length last + 1) (last ++ (10 ∷ next)) ≡ next
drop-line [] next = refl
drop-line (c ∷ last) next =
    ap (λ (k : ℕ). drop k (c ∷ last ++ (10 ∷ next))) one_more ∙ drop-line last next
  where
    one_more : length (c ∷ last) + 1 ≡ suc (length last + 1)
    one_more = omega arith

left_over-Holds :
    (buffer last next : List ℕ)
    → length next ≤ length buffer
    → Holds (left_over buffer (last ++ (10 ∷ next)) (length last)) next
unfolding left_over
left_over-Holds buffer last next h =
    let n : length next ≡ length (last ++ (10 ∷ next)) - (length last + 1) =
      omega (arith, length-append last (10 ∷ next)) in
    record {
      counted = n;
      stored = rw (drop-line last next, sym n) (take-overwrite buffer next h);
      fits = rw (drop-line last next, sym n, length-overwrite buffer next) h;
    }

on_read-last :
    (d : N2kAsciiDevice) (pending last next : List ℕ) (now : ℕ)
    → Holds d pending
    → Lacks 10 last
    → length (pending ++ last) ≤ length d.read_buffer
    → (buffer : List ℕ) × IsLine d (pending ++ last) (last ++ (10 ∷ next)) next (length last) buffer
      × (on_read d (last ++ (10 ∷ next)) now
          ≡ after_line
              (left_over buffer (last ++ (10 ∷ next)) (length last))
              (parse_n2k_ascii buffer (length (pending ++ last)) now))
unfolding on_read with_line
on_read-last d pending last next now h lacks room =
    let buffer = overwrite_from d.read_index d.read_buffer last in
    let held = append_read-Holds d pending last h room in
    let n : d.read_index + length last ≡ length (pending ++ last) =
      omega (arith, length-append pending last, h.counted) in
    let inside : leb (length (pending ++ last)) (length d.read_buffer) ≡ true =
      ground (arith, room) in
    (
      buffer,
      record {
        starts =
            ap (λ (k : ℕ). take k buffer) (sym n)
            ∙ take-overwrite_from d.read_index d.read_buffer last (omega (arith, n, room))
            ∙ ap (λ (s : List ℕ). s ++ last) h.stored;
        same_size = length-overwrite_from d.read_index d.read_buffer last;
        holds_next = left_over-Holds buffer last next;
      },
      rw (on_read, index_byte-append last next lacks, take-line last (10 ∷ next), n, inside) refl,
    )

read_n2k_message-got :
    (d : N2kAsciiDevice) (buf : List ℕ) (now : ℕ) (rest : List Input)
    → read_n2k_message d (got buf now ∷ rest) ≡ after_turn (on_read d buf now) rest
unfolding read_n2k_message
read_n2k_message-got d buf now rest = go (on_read d buf now)
  where
    go :
        (t : Turn)
        → (elim t [
          | goes_on d' ↦ read_n2k_message d' rest
          | gives r d' ↦ returned r d' rest
          | crashes ↦ panicked
        ])
          ≡ after_turn t rest
    go (goes_on d') = refl
    go (gives r d') = refl
    go crashes = refl

-- A line of the format that the device gives in pieces, however it is cut, is parsed as one: the call
-- returns what the parser makes of it, or goes on where that is a line to skip. Lines end at a line feed
-- and fit in the buffer; nothing of the pieces but the last one has a line feed. What was read behind
-- the end is held for the next line.
pub read_n2k_message-received :
    (d : N2kAsciiDevice) (pending : List ℕ) (pieces : List (List ℕ × ℕ)) (last next : List ℕ)
    (now : ℕ) (rest : List Input)
    → Holds d pending
    → All (λ p. Lacks 10 p.0) pieces
    → Lacks 10 last
    → length (whole pending pieces last) ≤ length d.read_buffer
    → (buffer : List ℕ) × IsLine d
        (whole pending pieces last)
        (last ++ (10 ∷ next))
        next
        (length last)
        buffer
      × (read_n2k_message d (map received pieces ++ (got (last ++ (10 ∷ next)) now ∷ rest))
          ≡ after_turn
              (after_line
                (left_over buffer (last ++ (10 ∷ next)) (length last))
                (parse_n2k_ascii buffer (length (whole pending pieces last)) now))
              rest)
read_n2k_message-received d pending [] last next now rest h hs lacks room =
    let (buffer, line, turn) = on_read-last d pending last next now h lacks room in
    (
      buffer,
      line,
      read_n2k_message-got d (last ++ (10 ∷ next)) now rest
          ∙ ap (λ (t : Turn). after_turn t rest) turn,
    )
read_n2k_message-received d pending ((buf, t) ∷ pieces) last next now rest h (lack, hs) lacks room =
    let (d', turn, held, same) =
      on_read-piece d pending buf t h lack
        (omega (arith, room, length-whole (pending ++ buf) pieces last)) in
    let (buffer, line, e) =
      read_n2k_message-received d' (pending ++ buf) pieces last next now rest held hs lacks
        (omega (arith, same, room)) in
    (
      buffer,
      record {
        starts = line.starts;
        same_size = line.same_size ∙ same;
        holds_next = line.holds_next;
      },
      read_n2k_message-got d buf t (map received pieces ++ (got (last ++ (10 ∷ next)) now ∷ rest))
          ∙ ap
              (λ (u : Turn).
                after_turn u (map received pieces ++ (got (last ++ (10 ∷ next)) now ∷ rest)))
              turn
          ∙ e,
    )
