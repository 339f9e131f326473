-- ===== src/Canboat/Decoder/Index.antt =====
-- canboat/decoder.go: which definition the index gives, by the number of definitions of the PGN.
use go_nmea_client.Common.{
  ℕ, ◌≡◌, refl, sym, ap, ◌∙◌, List, [], ◌∷◌, ◌++◌, Option, none, some, false, Result, ok, err, ◌==◌,
  Bool-cases, inl, inr, Option-cases, arith, ==→eq,
}
use mathlib.Core.Path.{subst}
use mathlib.Core.List.{append_assoc, append-nil}
use go_nmea_client.Nmea.{RawMessage}
use go_nmea_client.Canboat.Variants.{filter_hit, filter_miss}
use go_nmea_client.Canboat.Database.{Pgn, match, filter_by_pgn}
use go_nmea_client.Canboat.Decoder.{
  CanboatSchema, DecoderConfig, PgnIndex, put, group_of, add_pgn, add_pgns, empty_index,
  new_decoder_with_config, DecodeError, unknown_pgn, matched, find_pgn,
}

-- Every second definition, from the second on.
unfoldable pub seconds : List Pgn → List Pgn
seconds [] = []
seconds (p ∷ []) = []
seconds (p ∷ q ∷ pgns) = q ∷ seconds pgns

-- The last definition of an odd number of them.
unfoldable pub odd_one : List Pgn → Option Pgn
odd_one [] = none
odd_one (p ∷ []) = some p
odd_one (p ∷ q ∷ pgns) = odd_one pgns

unfoldable pub grouped : List Pgn → Option (List Pgn)
grouped [] = none
grouped (p ∷ []) = none
grouped (p ∷ q ∷ pgns) = some (p ∷ q ∷ seconds pgns)

-- What the definitions of one PGN give for a message.
unfoldable pub chosen : List Pgn → List ℕ → Result DecodeError Pgn
chosen pgns raw = elim (odd_one pgns) [
  | some p ↦ ok p
  | none ↦ elim (grouped pgns) [ none ↦ err unknown_pgn | some group ↦ matched (match group raw) ]
]

-- The two entries of a number after some of its definitions.
abbrev Entries : Type 0
Entries = Option Pgn × Option (List Pgn)

unfoldable add_entry : Entries → Pgn → Entries
add_entry (none, group) p = (some p, group)
add_entry (some existing, group) p = (none, some (group_of group existing ++ (p ∷ [])))

abbrev add_entries : Entries → List Pgn → Entries
add_entries e [] = e
add_entries e (p ∷ pgns) = add_entries (add_entry e p) pgns

abbrev entries : PgnIndex → ℕ → Entries
entries ix n = (ix.unique n, ix.non_unique n)

put-hit {ℓ} : {A : Type ℓ} (m : ℕ → A) (k n : ℕ) (v : A) → k ≡ n → put m k v n ≡ v
unfolding put
put-hit m k n v e = ground arith

put-miss {ℓ} : {A : Type ℓ} (m : ℕ → A) (k n : ℕ) (v : A) → (k == n) ≡ false → put m k v n ≡ m n
unfolding put
put-miss m k n v e = ground arith

add_pgn_new :
    (ix : PgnIndex) (p : Pgn)
    → ix.unique p.pgn ≡ none
    → add_pgn ix p ≡ record ix { unique = put ix.unique p.pgn (some p) }
unfolding add_pgn
add_pgn_new ix p e = rw (e, add_pgn) refl

add_pgn_again :
    (ix : PgnIndex) (p existing : Pgn)
    → ix.unique p.pgn ≡ some existing
    → add_pgn ix p ≡ record {
      unique = put ix.unique p.pgn none;
      non_unique =
          put ix.non_unique p.pgn (some (group_of (ix.non_unique p.pgn) existing ++ (p ∷ [])));
    }
unfolding add_pgn
add_pgn_again ix p existing e = rw (e, add_pgn) refl

add_pgn-hit :
    (ix : PgnIndex) (p : Pgn) → entries (add_pgn ix p) p.pgn ≡ add_entry (entries ix p.pgn) p
unfolding add_entry
add_pgn-hit ix p = elim (Option-cases (ix.unique p.pgn)) [
  | inl absent ↦
      ap (λ (x : PgnIndex). entries x p.pgn) (add_pgn_new ix p absent)
      ∙ rw (put-hit ix.unique p.pgn p.pgn (some p) refl, absent) refl
  | inr (existing, found) ↦
      ap (λ (x : PgnIndex). entries x p.pgn) (add_pgn_again ix p existing found)
      ∙ rw
          (
            put-hit ix.unique p.pgn p.pgn none refl,
            put-hit ix.non_unique p.pgn p.pgn
                (some (group_of (ix.non_unique p.pgn) existing ++ (p ∷ []))) refl,
            found,
          )
          refl
]

add_pgn-miss :
    (ix : PgnIndex) (p : Pgn) (n : ℕ)
    → (p.pgn == n) ≡ false
    → entries (add_pgn ix p) n ≡ entries ix n
add_pgn-miss ix p n e = elim (Option-cases (ix.unique p.pgn)) [
  | inl absent ↦
      ap (λ (x : PgnIndex). entries x n) (add_pgn_new ix p absent)
      ∙ rw (put-miss ix.unique p.pgn n (some p) e) refl
  | inr (existing, found) ↦
      ap (λ (x : PgnIndex). entries x n) (add_pgn_again ix p existing found)
      ∙ rw
          (
            put-miss ix.unique p.pgn n none e,
            put-miss ix.non_unique p.pgn n
                (some (group_of (ix.non_unique p.pgn) existing ++ (p ∷ []))) e,
          )
          refl
]

add_pgns-entries :
    (ix : PgnIndex) (pgns : List Pgn) (n : ℕ)
    → entries (add_pgns ix pgns) n ≡ add_entries (entries ix n) (filter_by_pgn pgns n)
unfolding add_pgns filter_by_pgn
add_pgns-entries ix [] n = refl
add_pgns-entries ix (p ∷ pgns) n = elim (Bool-cases (p.pgn == n)) [
  | inl hit ↦
      let step : entries (add_pgn ix p) n ≡ add_entry (entries ix n) p =
        subst (λ k. entries (add_pgn ix p) k ≡ add_entry (entries ix k) p) (==→eq p.pgn n hit)
          (add_pgn-hit ix p) in
      add_pgns-entries (add_pgn ix p) pgns n
      ∙ ap (λ e. add_entries e (filter_by_pgn pgns n)) step
      ∙ ap (add_entries (entries ix n)) (sym (filter_hit p pgns n hit))
  | inr miss ↦
      add_pgns-entries (add_pgn ix p) pgns n
      ∙ ap (λ e. add_entries e (filter_by_pgn pgns n)) (add_pgn-miss ix p n miss)
      ∙ ap (add_entries (entries ix n)) (sym (filter_miss p pgns n miss))
]

add_entries_grouped :
    (group pgns : List Pgn)
    → add_entries (none, some group) pgns ≡ (odd_one pgns, some (group ++ seconds pgns))
unfolding add_entry odd_one seconds
add_entries_grouped group [] = rw (append-nil group) refl
add_entries_grouped group (p ∷ []) = rw (append-nil group) refl
add_entries_grouped group (p ∷ q ∷ pgns) =
    add_entries_grouped (group ++ (q ∷ [])) pgns
    ∙ ap (λ (g : List Pgn). (odd_one pgns, some g)) (append_assoc group (q ∷ []) (seconds pgns))

add_entries_new : (pgns : List Pgn) → add_entries (none, none) pgns ≡ (odd_one pgns, grouped pgns)
unfolding add_entry odd_one grouped
add_entries_new [] = refl
add_entries_new (p ∷ []) = refl
add_entries_new (p ∷ q ∷ pgns) = add_entries_grouped (p ∷ q ∷ []) pgns

-- What a look-up makes of the two entries.
abbrev of_entries : List ℕ → Entries → Result DecodeError Pgn
of_entries raw (unique, group) = elim unique [
  | some p ↦ ok p
  | none ↦ elim group [ none ↦ err unknown_pgn | some pgns ↦ matched (match pgns raw) ]
]

find_pgn-entries :
    (ix : PgnIndex) (raw : RawMessage) (pgns : List Pgn)
    → entries ix raw.header.pgn ≡ (odd_one pgns, grouped pgns)
    → find_pgn ix raw ≡ chosen pgns raw.bytes
unfolding find_pgn chosen
find_pgn-entries ix raw pgns e = ap (of_entries raw.bytes) e

-- What the decoder takes for a message, by the definitions of its PGN in the order of the schema: of an
-- odd number of them the last, whatever the message holds; else the first that matches among the
-- first one and every second one.
pub new_decoder-find_pgn :
    (schema : CanboatSchema) (config : DecoderConfig) (raw : RawMessage)
    → find_pgn (new_decoder_with_config schema config).index raw
      ≡ chosen (filter_by_pgn schema.pgns raw.header.pgn) raw.bytes
unfolding new_decoder_with_config
new_decoder-find_pgn schema config raw =
    find_pgn-entries (add_pgns empty_index schema.pgns) raw
      (filter_by_pgn schema.pgns raw.header.pgn)
      (add_pgns-entries empty_index schema.pgns raw.header.pgn
        ∙ add_entries_new (filter_by_pgn schema.pgns raw.header.pgn))
