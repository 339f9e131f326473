-- ===== src/Common/Lists.antt =====
-- Lists measured and indexed by native numbers: Go's slices, and the built-in `copy`.
use Prim.Native.Nat.{ℕ, zero, suc, ◌+◌, ◌-◌, min}
use mathlib.Core.Path.{◌≡◌, refl, ap}
use mathlib.Core.List.{List, [], ◌∷◌, ◌++◌}
use mathlib.Core.Option.{Option, none, some}
use native.Mathlib.Omega.{arith}

module _ {ℓ} {A : Type ℓ} where
  abbrev pub length : List A → ℕ
  length [] = 0
  length (x ∷ xs) = suc (length xs)

  abbrev pub get_elem? : List A → ℕ → Option A
  get_elem? [] i = none
  get_elem? (x ∷ xs) zero = some x
  get_elem? (x ∷ xs) (suc i) = get_elem? xs i

  abbrev pub get_or : List A → ℕ → A → A
  get_or [] i d = d
  get_or (x ∷ xs) zero d = x
  get_or (x ∷ xs) (suc i) d = get_or xs i d

  abbrev pub set : List A → ℕ → A → List A
  set [] i v = []
  set (x ∷ xs) zero v = v ∷ xs
  set (x ∷ xs) (suc i) v = x ∷ set xs i v

  abbrev pub take : ℕ → List A → List A
  take zero xs = []
  take (suc n) [] = []
  take (suc n) (x ∷ xs) = x ∷ take n xs

  abbrev pub drop : ℕ → List A → List A
  drop zero xs = xs
  drop (suc n) [] = []
  drop (suc n) (x ∷ xs) = drop n xs

  abbrev pub replicate : ℕ → A → List A
  replicate zero a = []
  replicate (suc n) a = a ∷ replicate n a

  -- `copy(dst, src)`: the shorter of the two decides how much is written.
  abbrev pub overwrite : List A → List A → List A
  overwrite [] src = []
  overwrite (d ∷ dst) [] = d ∷ dst
  overwrite (d ∷ dst) (s ∷ src) = s ∷ overwrite dst src

  -- `copy(dst[from:], src)`
  abbrev pub overwrite_from : ℕ → List A → List A → List A
  overwrite_from zero dst src = overwrite dst src
  overwrite_from (suc n) [] src = []
  overwrite_from (suc n) (d ∷ dst) src = d ∷ overwrite_from n dst src

  abbrev pub All {κ} : (A → Type κ) → List A → Type κ
  All P [] = Unit {κ}
  All P (x ∷ xs) = P x × All P xs

  pub length-append : (xs ys : List A) → length (xs ++ ys) ≡ length xs + length ys
  length-append [] ys = omega arith
  length-append (x ∷ xs) ys = omega (arith, length-append xs ys)

module _ {ℓ} {A : Type ℓ} where
  pub length-overwrite : (dst src : List A) → length (overwrite dst src) ≡ length dst
  length-overwrite [] src = refl
  length-overwrite (d ∷ dst) [] = refl
  length-overwrite (d ∷ dst) (s ∷ src) = ap suc (length-overwrite dst src)

  pub length-overwrite_from :
      (n : ℕ) (dst src : List A) → length (overwrite_from n dst src) ≡ length dst
  length-overwrite_from zero dst src = length-overwrite dst src
  length-overwrite_from (suc n) [] src = refl
  length-overwrite_from (suc n) (d ∷ dst) src = ap suc (length-overwrite_from n dst src)

  pub length-replicate : (n : ℕ) (a : A) → length (replicate n a) ≡ n
  length-replicate zero a = refl
  length-replicate (suc n) a = ap suc (length-replicate n a)

  pub length-take : (n : ℕ) (xs : List A) → length (take n xs) ≡ min n (length xs)
  length-take zero xs = omega arith
  length-take (suc n) [] = omega arith
  length-take (suc n) (x ∷ xs) = omega (arith, length-take n xs)

  pub length-drop : (n : ℕ) (xs : List A) → length (drop n xs) ≡ length xs - n
  length-drop zero xs = omega arith
  length-drop (suc n) [] = omega arith
  length-drop (suc n) (x ∷ xs) = omega (arith, length-drop n xs)

  -- `copy` between slices of one length replaces the whole.
  pub overwrite-full : (dst src : List A) → length dst ≡ length src → overwrite dst src ≡ src
  overwrite-full [] [] h = refl
  overwrite-full [] (s ∷ src) h = absurd (omega arith)
  overwrite-full (d ∷ dst) [] h = absurd (omega arith)
  overwrite-full (d ∷ dst) (s ∷ src) h = ap (λ t. s ∷ t) (overwrite-full dst src (omega arith))
