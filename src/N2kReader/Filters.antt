-- ===== src/N2kReader/Filters.antt =====
-- cmd/n2kreader/main.go: which messages the filters let through, whatever their order is.
use mathlib.Core.List.{Perm, Permᴰ}
use mathlib.Core.Logic.{∥∥₁_elim}
use go_nmea_client.Common.{
  ℕ, ◌≡◌, ◌⊎◌, ◌↔◌, inl, inr, refl, ap, ◌∙◌, List, [], ◌∷◌, ◌++◌, Bool, true, false, arith, ◌==◌,
  ◌&&◌, ◌||◌, not, if◌then◌else◌, Bool-cases,
}
use go_nmea_client.Canbus.{CanBusHeader}
use go_nmea_client.N2kReader.{MsgFilter, any_matches, matches_header, append_pgn, has_source_for}

-- What a filter asks of a message.
abbrev pub admits : MsgFilter → CanBusHeader → Bool
admits f h = f.pgn == h.pgn && (not f.has_source || f.source == h.source)

any_matches-cons :
    (f : MsgFilter) (filters : List MsgFilter) (h : CanBusHeader)
    → any_matches (f ∷ filters) h ≡ admits f h || any_matches filters h
unfolding any_matches
any_matches-cons f filters h = ground arith

any_matches_none : (h : CanBusHeader) → any_matches [] h ≡ false
unfolding any_matches
any_matches_none h = refl

any_matches-append :
    (xs ys : List MsgFilter) (h : CanBusHeader)
    → any_matches (xs ++ ys) h ≡ any_matches xs h || any_matches ys h
any_matches-append [] ys h = unfold any_matches in refl
any_matches-append (x ∷ xs) ys h =
    ground
      (arith, any_matches-cons x (xs ++ ys) h, any_matches-cons x xs h, any_matches-append xs ys h)

Bool_set : (a b : Bool) → IsProp (a ≡ b)
Bool_set a b = hlevel

any_matches-perm :
    (h : CanBusHeader) {xs ys : List MsgFilter} → Perm xs ys → any_matches xs h ≡ any_matches ys h
any_matches-perm h p = ∥∥₁_elim p (Bool_set _ _) (go h)
  where
    go :
        (h : CanBusHeader) {xs ys : List MsgFilter}
        → Permᴰ xs ys
        → any_matches xs h ≡ any_matches ys h
    go h Permᴰ.nil = refl
    go h (Permᴰ.cons {a} {b} {l₁} {l₂} e q) = ground (
      arith,
      any_matches-cons a l₁ h,
      any_matches-cons b l₂ h,
      go h q,
      ap (λ (f : MsgFilter). admits f h) e,
    )
    go h (Permᴰ.swap {a} {b} {a'} {b'} {l} d e) = ground (
      arith,
      any_matches-cons a (b ∷ l) h,
      any_matches-cons b l h,
      any_matches-cons a' (b' ∷ l) h,
      any_matches-cons b' l h,
      ap (λ (f : MsgFilter). admits f h) d,
      ap (λ (f : MsgFilter). admits f h) e,
    )
    go h (Permᴰ.trans q r) = go h q ∙ go h r

-- A filter of the list admits the message.
pub data Admitted (h : CanBusHeader) : List MsgFilter → Type 0 where
  first :
      {f : MsgFilter} {filters : List MsgFilter}
      → f.pgn ≡ h.pgn
      → (f.has_source ≡ false) ⊎ (f.source ≡ h.source)
      → Admitted h (f ∷ filters)
  later : {f : MsgFilter} {filters : List MsgFilter} → Admitted h filters → Admitted h (f ∷ filters)

any_matches→Admitted :
    (filters : List MsgFilter) (h : CanBusHeader)
    → any_matches filters h ≡ true
    → Admitted h filters
any_matches→Admitted [] h e = absurd (unfold any_matches in cc e)
any_matches→Admitted (f ∷ filters) h e = elim (Bool-cases (admits f h)) [
  | inl y ↦ first (ground (arith, y)) (ground (arith, y))
  | inr n ↦ later (any_matches→Admitted filters h (ground (arith, any_matches-cons f filters h)))
]

Admitted→any_matches :
    (h : CanBusHeader) (filters : List MsgFilter)
    → Admitted h filters
    → any_matches filters h ≡ true
Admitted→any_matches h _ (first {f} {filters} p s) = ground (arith, any_matches-cons f filters h)
Admitted→any_matches h _ (later {f} {filters} a) =
    ground (arith, any_matches-cons f filters h, Admitted→any_matches h filters a)

-- The filters let a message through just when there is none, or when one of them has the PGN of the message
-- and either no source or the source of the message.
pub matches_header-Admitted :
    (filters : List MsgFilter) (h : CanBusHeader)
    → (matches_header filters h ≡ true) ↔ ((filters ≡ []) ⊎ Admitted h filters)
unfolding matches_header
matches_header-Admitted [] h = (λ e. inl refl, λ a. refl)
matches_header-Admitted (f ∷ filters) h = (
  λ e. inr (any_matches→Admitted (f ∷ filters) h e),
  λ a. elim a [ inl e ↦ absurd (cc) | inr b ↦ Admitted→any_matches h (f ∷ filters) b ],
)

abbrev is_nil : List MsgFilter → Bool
is_nil [] = true
is_nil (f ∷ filters) = false

is_nil-perm : {xs ys : List MsgFilter} → Perm xs ys → is_nil xs ≡ is_nil ys
is_nil-perm p = ∥∥₁_elim p (Bool_set _ _) go
  where
    go : {xs ys : List MsgFilter} → Permᴰ xs ys → is_nil xs ≡ is_nil ys
    go Permᴰ.nil = refl
    go (Permᴰ.cons e q) = refl
    go (Permᴰ.swap d e) = refl
    go (Permᴰ.trans q r) = go q ∙ go r

-- The order of the filters is without effect: any sorting of them lets the same messages through.
pub matches_header-perm :
    (h : CanBusHeader) (xs ys : List MsgFilter)
    → Perm xs ys
    → matches_header xs h ≡ matches_header ys h
unfolding matches_header
matches_header-perm h [] [] p = refl
matches_header-perm h [] (y ∷ ys) p = absurd (cc (is_nil-perm p))
matches_header-perm h (x ∷ xs) [] p = absurd (cc (is_nil-perm p))
matches_header-perm h (x ∷ xs) (y ∷ ys) p = any_matches-perm h p

-- A PGN that is appended is let through from every source, unless a filter already names it with a source:
-- then the filters stay as they are.
pub matches_header-append_pgn :
    (filters : List MsgFilter) (pgn : ℕ) (h : CanBusHeader)
    → matches_header (append_pgn filters pgn) h ≡ (
        if has_source_for pgn filters
        then matches_header filters h
        else any_matches filters h || pgn == h.pgn)
unfolding append_pgn matches_header
matches_header-append_pgn filters pgn h = elim (Bool-cases (has_source_for pgn filters)) [
  | inl y ↦ rw y refl
  | inr n ↦ rw n (open_filter filters)
]
  where
    only : MsgFilter
    only = record { pgn = pgn; source = 0; has_source = false }

    open_filter :
        (fs : List MsgFilter)
        → matches_header (fs ++ (only ∷ [])) h ≡ any_matches fs h || pgn == h.pgn
    open_filter [] = ground (arith, any_matches-cons only [] h, any_matches_none h)
    open_filter (f ∷ fs) = ground (
      arith,
      any_matches-append (f ∷ fs) (only ∷ []) h,
      any_matches-cons only [] h,
      any_matches_none h,
    )
