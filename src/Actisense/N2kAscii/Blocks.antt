-- ===== src/Actisense/N2kAscii/Blocks.antt =====
-- actisense/n2kasciidevice.go: what `findNextNonHexBlock` finds.
use go_nmea_client.Common.{
  ℕ, zero, suc, ◌+◌, ◌≤◌, ◌<◌, ◌≡◌, ◌≢◌, refl, sym, ◌∙◌, List, [], ◌∷◌, Option, none, some, true,
  false, arith, Bool-cases, inl, inr, length, drop, get_or,
}
use go_nmea_client.Actisense.N2kAscii.{is_hex_char, block_from, find_next_non_hex_block}

-- The rest of a block that began at `start`, in a list that begins at the index `i`.
record IsRest (raw : List ℕ) (i start end start' end' : ℕ) : Type 0 where
  same : start' ≡ start
  ordered : end ≤ end'
  inside : end' < i + length raw
  hex : (k : ℕ) → i + k ≤ end' → is_hex_char (get_or raw k 0) ≡ true

-- A block in a list that begins at the index `i`: the first hexadecimal characters from there on.
pub record IsBlock (raw : List ℕ) (i start end : ℕ) : Type 0 where
  pub after : i ≤ start
  pub ordered : start ≤ end
  pub inside : end < i + length raw
  pub hex : (k : ℕ) → start ≤ i + k → i + k ≤ end → is_hex_char (get_or raw k 0) ≡ true
  pub first : (k : ℕ) → i + k < start → is_hex_char (get_or raw k 0) ≡ false

found_eq : {a b c d : ℕ} → ◌≡◌ {A = Option (ℕ × ℕ)} (some (a, b)) (some (c, d)) → (c ≡ a) × (d ≡ b)
found_eq e = (cc, cc)

nothing_found : {c : ℕ × ℕ} → ◌≢◌ {A = Option (ℕ × ℕ)} none (some c)
nothing_found e = cc

here_ended :
    (raw : List ℕ) (i start end start' end' : ℕ)
    → i ≡ end + 1
    → ◌≡◌ {A = Option (ℕ × ℕ)} (some (start, end)) (some (start', end'))
    → IsRest raw i start end start' end'
here_ended raw i start end start' end' next e =
    let (s, t) = found_eq e in
    record {
      same = s;
      ordered = omega (arith, t);
      inside = omega (arith, t, next);
      hex = λ k h. absurd (omega (arith, t, next, h));
    }

some_hex :
    (b : ℕ) (raw : List ℕ) (i start end : ℕ)
    → is_hex_char b ≡ true
    → block_from (b ∷ raw) i (some (start, end)) ≡ block_from raw (suc i) (some (start, i))
unfolding block_from
some_hex b raw i start end h = rw h refl

some_other :
    (b : ℕ) (raw : List ℕ) (i start end : ℕ)
    → is_hex_char b ≡ false
    → block_from (b ∷ raw) i (some (start, end)) ≡ some (start, end)
unfolding block_from
some_other b raw i start end h = rw h refl

none_hex :
    (b : ℕ) (raw : List ℕ) (i : ℕ)
    → is_hex_char b ≡ true
    → block_from (b ∷ raw) i none ≡ block_from raw (suc i) (some (i, i))
unfolding block_from
none_hex b raw i h = rw h refl

none_other :
    (b : ℕ) (raw : List ℕ) (i : ℕ)
    → is_hex_char b ≡ false
    → block_from (b ∷ raw) i none ≡ block_from raw (suc i) none
unfolding block_from
none_other b raw i h = rw h refl

hex_from :
    (b : ℕ) (raw : List ℕ) (i end' : ℕ)
    → is_hex_char b ≡ true
    → ((k : ℕ) → suc i + k ≤ end' → is_hex_char (get_or raw k 0) ≡ true)
    → (k : ℕ) → i + k ≤ end'
    → is_hex_char (get_or (b ∷ raw) k 0) ≡ true
hex_from b raw i end' h rest zero le = h
hex_from b raw i end' h rest (suc k) le = rest k (omega (arith, le))

block_from-IsRest :
    (raw : List ℕ) (i start end start' end' : ℕ)
    → i ≡ end + 1
    → block_from raw i (some (start, end)) ≡ some (start', end')
    → IsRest raw i start end start' end'
unfolding block_from
block_from-IsRest [] i start end start' end' next e = here_ended [] i start end start' end' next e
block_from-IsRest (b ∷ raw) i start end start' end' next e = elim (Bool-cases (is_hex_char b)) [
  | inl h ↦
      let r =
        block_from-IsRest raw (suc i) start i start' end' (omega arith)
          (sym (some_hex b raw i start end h) ∙ e) in
      record {
        same = r.same;
        ordered = omega (arith, r.ordered, next);
        inside = omega (arith, r.inside);
        hex = hex_from b raw i end' h r.hex;
      }
  | inr h ↦
      here_ended (b ∷ raw) i start end start' end' next (sym (some_other b raw i start end h) ∙ e)
]

first_from :
    (b : ℕ) (raw : List ℕ) (i start' : ℕ)
    → is_hex_char b ≡ false
    → ((k : ℕ) → suc i + k < start' → is_hex_char (get_or raw k 0) ≡ false)
    → (k : ℕ) → i + k < start'
    → is_hex_char (get_or (b ∷ raw) k 0) ≡ false
first_from b raw i start' h rest zero lt = h
first_from b raw i start' h rest (suc k) lt = rest k (omega (arith, lt))

later :
    (b : ℕ) (raw : List ℕ) (i start' end' : ℕ)
    → suc i ≤ start'
    → ((k : ℕ) → start' ≤ suc i + k → suc i + k ≤ end' → is_hex_char (get_or raw k 0) ≡ true)
    → (k : ℕ) → start' ≤ i + k
    → i + k ≤ end'
    → is_hex_char (get_or (b ∷ raw) k 0) ≡ true
later b raw i start' end' after rest zero low high = absurd (omega (arith, after, low))
later b raw i start' end' after rest (suc k) low high =
    rest k (omega (arith, low)) (omega (arith, high))

-- The block that is found from an index on is of hexadecimal characters of the line, and there is none
-- between the index and the block.
pub block_from-IsBlock :
    (raw : List ℕ) (i start end : ℕ)
    → block_from raw i none ≡ some (start, end)
    → IsBlock raw i start end
unfolding block_from
block_from-IsBlock [] i start end e = absurd (nothing_found e)
block_from-IsBlock (b ∷ raw) i start end e = elim (Bool-cases (is_hex_char b)) [
  | inl h ↦
      let r =
        block_from-IsRest raw (suc i) i i start end (omega arith) (sym (none_hex b raw i h) ∙ e) in
      record {
        after = omega (arith, r.same);
        ordered = omega (arith, r.same, r.ordered);
        inside = omega (arith, r.inside);
        hex = λ k low high. hex_from b raw i end h r.hex k high;
        first = λ k lt. absurd (omega (arith, r.same, lt));
      }
  | inr h ↦
      let r = block_from-IsBlock raw (suc i) start end (sym (none_other b raw i h) ∙ e) in
      record {
        after = omega (arith, r.after);
        ordered = r.ordered;
        inside = omega (arith, r.inside);
        hex = later b raw i start end r.after r.hex;
        first = first_from b raw i start h r.first;
      }
]

-- `findNextNonHexBlock` gives the first hexadecimal characters of the line from an index on: they are in
-- the line, and there is none between the index and them.
pub find_next_non_hex_block-IsBlock :
    (raw : List ℕ) (from start end : ℕ)
    → find_next_non_hex_block raw from ≡ some (start, end)
    → IsBlock (drop from raw) from start end
unfolding find_next_non_hex_block
find_next_non_hex_block-IsBlock raw from start end e =
    block_from-IsBlock (drop from raw) from start end e
