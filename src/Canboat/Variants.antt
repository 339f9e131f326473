-- ===== src/Canboat/Variants.antt =====
-- canboat/canboatpgns.go: what `Match` chooses among the variants of a PGN.
use go_nmea_client.Common.{
  ℕ, ◌≡◌, ◌≢◌, ◌⊎◌, inl, inr, refl, sym, ap, ◌∙◌, List, [], ◌∷◌, Option, some, Bool, true, false,
  Result, ok, err, panic, ◌>>=◌, ◌==◌, if◌then◌else◌, Bool-cases, not, ==→eq,
}
use go_nmea_client.RawData.{Error}
use go_nmea_client.Canboat.Database.{Pgn, pgn_is_match, match, filter_by_pgn}

-- `p` is one of the variants, and has the number `pgn`.
unfoldable pub IsVariant : List Pgn → ℕ → Pgn → Type 0
IsVariant [] pgn p = ⊥
IsVariant (q ∷ pgns) pgn p = ((q ≡ p) × (p.pgn ≡ pgn)) ⊎ IsVariant pgns pgn p

match_step :
    (matchable : Bool) (r : Result Error Bool) (q p : Pgn) (rest : Result Error (Option Pgn))
    → (if not matchable then rest else (r >>= λ yes. if yes then ok (some q) else rest))
      ≡ ok (some p)
    → ((q ≡ p) × (matchable ≡ true) × (r ≡ ok true)) ⊎ (rest ≡ ok (some p))
match_step false r q p rest e = inr e
match_step true (ok true) q p rest e = inl (cc, refl, refl)
match_step true (ok false) q p rest e = inr e
match_step true (err failure) q p rest e = cc
match_step true panic q p rest e = cc

match_cases :
    (q : Pgn) (pgns : List Pgn) (raw : List ℕ) (p : Pgn)
    → match (q ∷ pgns) raw ≡ ok (some p)
    → ((q ≡ p) × (q.is_matchable ≡ true) × (pgn_is_match raw q ≡ ok true))
      ⊎ (match pgns raw ≡ ok (some p))
unfolding match
match_cases q pgns raw p e = match_step q.is_matchable (pgn_is_match raw q) q p (match pgns raw) e

pub filter_hit :
    (q : Pgn) (pgns : List Pgn) (pgn : ℕ)
    → (q.pgn == pgn) ≡ true
    → filter_by_pgn (q ∷ pgns) pgn ≡ q ∷ filter_by_pgn pgns pgn
unfolding filter_by_pgn
filter_hit q pgns pgn h = rw h refl

pub filter_miss :
    (q : Pgn) (pgns : List Pgn) (pgn : ℕ)
    → (q.pgn == pgn) ≡ false
    → filter_by_pgn (q ∷ pgns) pgn ≡ filter_by_pgn pgns pgn
unfolding filter_by_pgn
filter_miss q pgns pgn h = rw h refl

nothing_found : (pgn : ℕ) (raw : List ℕ) (p : Pgn) → match (filter_by_pgn [] pgn) raw ≢ ok (some p)
unfolding match filter_by_pgn
nothing_found pgn raw p e = cc

-- The variant that `Match` returns from those of one PGN is one of the database with this PGN, is
-- matchable, and `IsMatch` holds for the data.
pub match-filter_by_pgn :
    (pgns : List Pgn) (pgn : ℕ) (raw : List ℕ) (p : Pgn)
    → match (filter_by_pgn pgns pgn) raw ≡ ok (some p)
    → IsVariant pgns pgn p × (p.is_matchable ≡ true) × (pgn_is_match raw p ≡ ok true)
unfolding IsVariant
match-filter_by_pgn [] pgn raw p e = absurd (nothing_found pgn raw p e)
match-filter_by_pgn (q ∷ pgns) pgn raw p e = elim (Bool-cases (q.pgn == pgn)) [
  | inr miss ↦
      let (found, matchable, holds) =
        match-filter_by_pgn pgns pgn raw p
          (ap (λ t. match t raw) (sym (filter_miss q pgns pgn miss)) ∙ e) in
      (inr found, matchable, holds)
  | inl hit ↦
      elim (match_cases q (filter_by_pgn pgns pgn) raw p
        (ap (λ t. match t raw) (sym (filter_hit q pgns pgn hit)) ∙ e)) [
          | inl (same, matchable, holds) ↦ (
            inl (same, ap (λ (x : Pgn). x.pgn) (sym same) ∙ ==→eq q.pgn pgn hit),
            ap (λ (x : Pgn). x.is_matchable) (sym same) ∙ matchable,
            ap (pgn_is_match raw) (sym same) ∙ holds,
          )
          | inr later ↦
              let (found, matchable, holds) = match-filter_by_pgn pgns pgn raw p later in
              (inr found, matchable, holds)
        ]
]
