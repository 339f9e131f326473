-- ===== src/FastPacket/Blocks.antt =====
-- Reads after `copy`: which bytes of the array a frame sets.
use go_nmea_client.Common.{
  ℕ, zero, suc, ◌+◌, ◌-◌, ◌<◌, ◌≤◌, ◌≡◌, refl, sym, ap, ◌∙◌, List, [], ◌∷◌, arith, ltb, leb, ◌&&◌,
  if◌then◌else◌, length, get_or, overwrite, overwrite_from, take,
}

-- `copy` writes below the end of the source.
pub get_or-overwrite :
    (dst src : List ℕ) (i : ℕ)
    → i < length dst
    → get_or (overwrite dst src) i 0
      ≡ (if ltb i (length src) then get_or src i 0 else get_or dst i 0)
get_or-overwrite [] src i h = absurd (omega arith)
get_or-overwrite (d ∷ dst) [] i h = ground arith
get_or-overwrite (d ∷ dst) (s ∷ src) zero h = ground arith
get_or-overwrite (d ∷ dst) (s ∷ src) (suc i) h = ground (arith, get_or-overwrite dst src i)

pub get_or-overwrite_from :
    (n : ℕ) (dst src : List ℕ) (i : ℕ)
    → i < length dst
    → get_or (overwrite_from n dst src) i 0
      ≡ (if leb n i && ltb i (n + length src) then get_or src (i - n) 0 else get_or dst i 0)
get_or-overwrite_from zero dst src i h = ground (arith, get_or-overwrite dst src i)
get_or-overwrite_from (suc n) [] src i h = absurd (omega arith)
get_or-overwrite_from (suc n) (d ∷ dst) src zero h = ground arith
get_or-overwrite_from (suc n) (d ∷ dst) src (suc i) h =
    ground (arith, get_or-overwrite_from n dst src i)

-- `n` bytes of a payload from index `from` on.
unfoldable pub chunk : (ℕ → ℕ) → ℕ → ℕ → List ℕ
chunk payload from zero = []
chunk payload from (suc n) = payload from ∷ chunk payload (suc from) n

shift_index : (from i : ℕ) → suc from + i ≡ from + suc i
shift_index from i = omega arith

pub first_index : (i : ℕ) → 0 + i ≡ i
first_index i = omega arith

index_zero : (from : ℕ) → from + 0 ≡ from
index_zero from = omega arith

pub length-chunk : (payload : ℕ → ℕ) (from n : ℕ) → length (chunk payload from n) ≡ n
unfolding chunk
length-chunk payload from zero = refl
length-chunk payload from (suc n) = ap suc (length-chunk payload (suc from) n)

pub get_or-chunk :
    (payload : ℕ → ℕ) (from n i : ℕ)
    → i < n
    → get_or (chunk payload from n) i 0 ≡ payload (from + i)
unfolding chunk
get_or-chunk payload from zero i h = absurd (omega arith)
get_or-chunk payload from (suc n) zero h = ap payload (omega arith)
get_or-chunk payload from (suc n) (suc i) h =
    ground (arith, get_or-chunk payload (suc from) n i, ap payload (shift_index from i))

-- A list whose bytes are those of the payload begins with a chunk of it.
pub take-chunk :
    (payload : ℕ → ℕ) (from n : ℕ) (bytes : List ℕ)
    → n ≤ length bytes
    → ((i : ℕ) → i < n → get_or bytes i 0 ≡ payload (from + i))
    → take n bytes ≡ chunk payload from n
unfolding chunk
take-chunk payload from zero bytes h eq = refl
take-chunk payload from (suc n) [] h eq = absurd (omega arith)
take-chunk payload from (suc n) (b ∷ bytes) h eq = ground (
  arith,
  eq 0 (omega arith),
  ap payload (index_zero from),
  take-chunk payload (suc from) n bytes (omega arith)
      (λ i l. eq (suc i) (omega arith) ∙ ap payload (sym (shift_index from i))),
)
