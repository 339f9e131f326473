-- ===== src/Actisense/Slices.antt =====
-- Slices of lists that are put together from parts: `raw[i]` and `raw[from:to]` in range.
use go_nmea_client.Common.{
  ℕ, ◌+◌, ◌-◌, ◌≤◌, ◌<◌, ◌≡◌, refl, ap, ◌∙◌, List, [], ◌∷◌, ◌++◌, arith, ok, panic, length,
  length-append, get_or, take, drop, replicate, overwrite, overwrite-full, length-replicate,
}
use mathlib.Core.List.{append-nil}
use go_nmea_client.Actisense.{at, slice}

pub at-lt : (raw : List ℕ) (i : ℕ) → i < length raw → at raw i ≡ ok (get_or raw i 0)
unfolding at
at-lt raw i h = ground arith

pub at-le : (raw : List ℕ) (i : ℕ) → length raw ≤ i → at raw i ≡ panic
unfolding at
at-le raw i h = ground arith

pub slice-le :
    (raw : List ℕ) (from to : ℕ)
    → from ≤ to
    → to ≤ length raw
    → slice raw from to ≡ ok (take (to - from) (drop from raw))
unfolding slice
slice-le raw from to h k = ground arith

drop-append : (xs ys : List ℕ) → drop (length xs) (xs ++ ys) ≡ ys
drop-append [] ys = refl
drop-append (x ∷ xs) ys = drop-append xs ys

take-append : (xs ys : List ℕ) → take (length xs) (xs ++ ys) ≡ xs
take-append [] ys = refl
take-append (x ∷ xs) ys = ap (λ t. x ∷ t) (take-append xs ys)

-- A slice that is the middle of three parts.
pub slice-middle :
    (xs ys zs : List ℕ) (from to : ℕ)
    → from ≡ length xs
    → to ≡ length xs + length ys
    → slice (xs ++ (ys ++ zs)) from to ≡ ok ys
unfolding slice
slice-middle xs ys zs from to f t = ground (
  arith,
  length-append xs (ys ++ zs),
  length-append ys zs,
  ap (λ n. drop n (xs ++ (ys ++ zs))) f,
  drop-append xs (ys ++ zs),
  ap (λ n. take n (ys ++ zs)) (span to from ys xs f t),
  take-append ys zs,
)
  where
    span :
        (to from : ℕ) (ys xs : List ℕ)
        → from ≡ length xs
        → to ≡ length xs + length ys
        → to - from ≡ length ys
    span to from ys xs f t = omega arith

-- `raw[from:]`
pub slice-tail :
    (xs ys : List ℕ) (from to : ℕ)
    → from ≡ length xs
    → to ≡ length xs + length ys
    → slice (xs ++ ys) from to ≡ ok ys
slice-tail xs ys from to f t = rw append-nil at (slice-middle xs ys [] from to f t)

-- `make` and `copy` of a whole slice.
pub fresh-copy :
    (n : ℕ) (bytes : List ℕ) → n ≡ length bytes → overwrite (replicate n 0) bytes ≡ bytes
fresh-copy n bytes h = overwrite-full (replicate n 0) bytes (length-replicate n 0 ∙ h)
