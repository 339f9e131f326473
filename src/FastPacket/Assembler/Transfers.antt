-- ===== src/FastPacket/Assembler/Transfers.antt =====
-- The list of sequences in transfer of fastpacket.go: what the search finds in a list with at most
-- one match, and what `inTransfer[idx] = last` removes.
use go_nmea_client.Common.{
  ℕ, suc, ◌+◌, ◌-◌, ◌≤◌, ◌≡◌, refl, sym, ap, ◌∙◌, ◌⊎◌, inl, inr, List, [], ◌∷◌, ◌++◌, Option, some,
  Bool, true, arith, if◌then◌else◌, Bool-cases, length, length-append, get_or, set, take,
}
use go_nmea_client.Nmea.{RawFrame}
use go_nmea_client.FastPacket.{Sequence}
use go_nmea_client.FastPacket.Assembler.{matches, refresh, scan, swap_remove}
use mathlib.Core.List.{Perm, perm_append_singleton, append_assoc, append-nil}
use mathlib.Core.List.Perm
use mathlib.Core.List.{Permᴰ}
use mathlib.Core.Logic.{∥∥₁_elim}
use native.Mathlib.Nat.{ℕ_set}

-- How many sequences pass a test.
abbrev pub count_by : (Sequence → Bool) → List Sequence → ℕ
count_by p [] = 0
count_by p (m ∷ ms) = if p m then suc (count_by p ms) else count_by p ms

-- How many match a frame.
abbrev pub count : RawFrame → List Sequence → ℕ
count frame = count_by (matches frame)

pub count_by-perm :
    (p : Sequence → Bool) {xs ys : List Sequence} → Perm xs ys → count_by p xs ≡ count_by p ys
count_by-perm p q = ∥∥₁_elim q (ℕ_set _ _) (go p)
  where
    go : (p : Sequence → Bool) {xs ys : List Sequence} → Permᴰ xs ys → count_by p xs ≡ count_by p ys
    go p Permᴰ.nil = refl
    go p (Permᴰ.cons e q) = ground (arith, go p q, ap p e)
    go p (Permᴰ.swap d e) = ground (arith, ap p d, ap p e)
    go p (Permᴰ.trans q r) = go p q ∙ go p r

pub count-append :
    (frame : RawFrame) (xs ys : List Sequence)
    → count frame (xs ++ ys) ≡ count frame xs + count frame ys
count-append frame [] ys = omega arith
count-append frame (x ∷ xs) ys = ground (arith, count-append frame xs ys)

pub scan-none :
    (now : ℕ) (frame : RawFrame) (ms : List Sequence) (i : ℕ) (found : Option ℕ)
    → count frame ms ≡ 0
    → scan now frame ms i found ≡ (ms, found)
unfolding scan
scan-none now frame [] i found h = refl
scan-none now frame (m ∷ ms) i found h = elim (Bool-cases (matches frame m)) [
  | inl hit ↦ absurd (ground arith)
  | inr miss ↦ rw miss (ground (arith, scan-none now frame ms (i + 1) found))
]

-- A list split at its only match.
pub record Split (frame : RawFrame) (ms : List Sequence) : Type 0 where
  pub front : List Sequence
  pub hit : Sequence
  pub back : List Sequence
  pub whole : ms ≡ front ++ (hit ∷ back)
  pub hit_matches : matches frame hit ≡ true
  pub none_before : count frame front ≡ 0
  pub none_behind : count frame back ≡ 0

pub Split-cases :
    (frame : RawFrame) (ms : List Sequence)
    → count frame ms ≤ 1
    → (count frame ms ≡ 0) ⊎ Split frame ms
Split-cases frame [] h = inl refl
Split-cases frame (m ∷ ms) h = elim (Bool-cases (matches frame m)) [
  | inl here ↦ inr (record {
    front = [];
    hit = m;
    back = ms;
    whole = refl;
    hit_matches = here;
    none_before = refl;
    none_behind = ground arith;
  })
  | inr miss ↦ elim (Split-cases frame ms (ground arith)) [
    | inl none_there ↦ inl (ground arith)
    | inr s ↦ inr (record {
      front = m ∷ s.front;
      hit = s.hit;
      back = s.back;
      whole = ap (λ t. m ∷ t) s.whole;
      hit_matches = s.hit_matches;
      none_before = ground (arith, s.none_before);
      none_behind = s.none_behind;
    })
  ]
]

pub scan-hit :
    (now : ℕ) (frame : RawFrame) (front : List Sequence) (m : Sequence) (back : List Sequence)
    (i : ℕ) (found : Option ℕ)
    → count frame front ≡ 0
    → matches frame m ≡ true
    → count frame back ≡ 0
    → scan now frame (front ++ (m ∷ back)) i found
      ≡ (front ++ (refresh now m ∷ back), some (i + length front))
unfolding scan
scan-hit now frame [] m back i found h e k =
    rw (e, scan-none now frame back (i + 1) (some i) k) (ground arith)
scan-hit now frame (x ∷ front) m back i found h e k = elim (Bool-cases (matches frame x)) [
  | inl hit ↦ absurd (ground arith)
  | inr miss ↦
      rw (miss, scan-hit now frame front m back (i + 1) found (ground arith) e k) (ground arith)
]

pub get_or-middle :
    (front : List Sequence) (m : Sequence) (back : List Sequence) (d : Sequence)
    → get_or (front ++ (m ∷ back)) (length front) d ≡ m
get_or-middle [] m back d = refl
get_or-middle (x ∷ front) m back d = get_or-middle front m back d

pub set-middle :
    (front : List Sequence) (m : Sequence) (back : List Sequence) (v : Sequence)
    → set (front ++ (m ∷ back)) (length front) v ≡ front ++ (v ∷ back)
set-middle [] m back v = refl
set-middle (x ∷ front) m back v = ap (λ t. x ∷ t) (set-middle front m back v)

-- A list is empty, or ends in an element.
snoc_cases :
    (xs : List Sequence)
    → (xs ≡ []) ⊎ ((ys : List Sequence) × (z : Sequence) × (xs ≡ ys ++ (z ∷ [])))
snoc_cases [] = inl refl
snoc_cases (x ∷ xs) = elim (snoc_cases xs) [
  | inl e ↦ inr ([], x, ap (λ t. x ∷ t) e)
  | inr (ys, z, e) ↦ inr (x ∷ ys, z, ap (λ t. x ∷ t) e)
]

take-front :
    (front : List Sequence) (z : Sequence) → take (length front) (front ++ (z ∷ [])) ≡ front
take-front [] z = refl
take-front (x ∷ front) z = ap (λ t. x ∷ t) (take-front front z)

length-snoc : (front : List Sequence) (z : Sequence) → length (front ++ (z ∷ [])) - 1 ≡ length front
length-snoc front z = omega (arith, length-append front (z ∷ []))

swap_remove-snoc :
    (front : List Sequence) (z d : Sequence) (i : ℕ)
    → swap_remove i (front ++ (z ∷ [])) d ≡ take (length front) (set (front ++ (z ∷ [])) i z)
unfolding swap_remove
swap_remove-snoc front z d i = rw (length-snoc front z, get_or-middle front z [] d)

swap_remove-last :
    (front : List Sequence) (m d : Sequence)
    → swap_remove (length front) (front ++ (m ∷ [])) d ≡ front
swap_remove-last front m d =
    swap_remove-snoc front m d (length front)
    ∙ ap (take (length front)) (set-middle front m [] m)
    ∙ take-front front m

length-swap :
    (front ys : List Sequence) (m z : Sequence)
    → length (front ++ (m ∷ ys)) ≡ length (front ++ (z ∷ ys))
length-swap front ys m z = omega (arith, length-append front (m ∷ ys), length-append front (z ∷ ys))

swap_remove-inner :
    (front : List Sequence) (m : Sequence) (ys : List Sequence) (z d : Sequence)
    → swap_remove (length front) (front ++ (m ∷ (ys ++ (z ∷ [])))) d ≡ front ++ (z ∷ ys)
swap_remove-inner front m ys z d =
    ap (λ t. swap_remove (length front) t d) (sym (append_assoc front (m ∷ ys) (z ∷ [])))
    ∙ swap_remove-snoc (front ++ (m ∷ ys)) z d (length front)
    ∙ ap (λ t. take (length (front ++ (m ∷ ys))) (set t (length front) z))
        (append_assoc front (m ∷ ys) (z ∷ []))
    ∙ ap (take (length (front ++ (m ∷ ys)))) (set-middle front m (ys ++ (z ∷ [])) z)
    ∙ ap (take (length (front ++ (m ∷ ys)))) (sym (append_assoc front (z ∷ ys) (z ∷ [])))
    ∙ ap (λ n. take n ((front ++ (z ∷ ys)) ++ (z ∷ []))) (length-swap front ys m z)
    ∙ take-front (front ++ (z ∷ ys)) z

-- The element at the index goes, and the others stay, the last one in its place.
pub swap_remove-perm :
    (front : List Sequence) (m : Sequence) (back : List Sequence) (d : Sequence)
    → Perm (swap_remove (length front) (front ++ (m ∷ back)) d) (front ++ back)
swap_remove-perm front m back d = elim (snoc_cases back) [
  | inl e ↦ rw (e, swap_remove-last front m d, append-nil front) (Perm.refl front)
  | inr (ys, z, e) ↦
      rw (e, swap_remove-inner front m ys z d)
        (Perm.append_left front (Perm.symm (perm_append_singleton z ys)))
]
