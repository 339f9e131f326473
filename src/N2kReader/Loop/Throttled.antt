-- ===== src/N2kReader/Loop/Throttled.antt =====
-- cmd/n2kreader/main.go: the messages that the throttle lets through.
use go_nmea_client.Common.{
  ℕ, ◌+◌, ◌*◌, ◌/◌, ◌%◌, ◌^◌, ◌≤◌, ◌<◌, ◌≡◌, refl, ap, sym, ◌∙◌, List, [], ◌∷◌, Option, none, some,
  false, arith, ltb, ltb→lt, ◌==◌, ==→eq, ==-refl, eq→==, Bool-cases, Option-cases, inl, inr, All,
  u64, bit_or,
}
use go_nmea_client.Common.Bits.{bit_or_fields, bit_or-zero}
use go_nmea_client.Nmea.{RawMessage}
use go_nmea_client.N2kReader.Loop.{throttle_key, last_time, throttle_pass}

-- The messages that pass, one after the other, from a table of keys on.
unfoldable pub passed : ℕ → List (ℕ × ℕ) → List RawMessage → List RawMessage
passed window table [] = []
passed window table (raw ∷ msgs) = elim (throttle_pass window table raw) [
  | none ↦ passed window table msgs
  | some table' ↦ raw ∷ passed window table' msgs
]

abbrev key_of : RawMessage → ℕ
key_of raw = throttle_key raw.header

-- A message with this key comes after the time.
abbrev pub After : ℕ → ℕ → RawMessage → Type 0
After key t raw = throttle_key raw.header ≡ key → t < raw.time

-- Messages of one key are more than the window apart, in the order of the list.
unfoldable pub Spaced : ℕ → List RawMessage → Type 0
Spaced window [] = Unit {0}
Spaced window (raw ∷ msgs) =
    All (After (throttle_key raw.header) (raw.time + window)) msgs × Spaced window msgs

-- What a message does to the table.
data Outcome (window : ℕ) (table : List (ℕ × ℕ)) (raw : RawMessage)
    : Option (List (ℕ × ℕ)) → Type 0 where
  dropped : Outcome window table raw none
  entered :
      ((t : ℕ) → last_time (throttle_key raw.header) table ≡ some t → t < raw.time)
      → Outcome window table raw (some ((throttle_key raw.header, raw.time + window) ∷ table))

some_eq : {x y : ℕ} → ◌≡◌ {A = Option ℕ} (some x) (some y) → x ≡ y
some_eq h = cc

throttle_pass-Outcome :
    (window : ℕ) (table : List (ℕ × ℕ)) (raw : RawMessage)
    → Outcome window table raw (throttle_pass window table raw)
unfolding throttle_pass
throttle_pass-Outcome window table raw =
    elim (Option-cases (last_time (throttle_key raw.header) table)) [
      | inl fresh ↦ rw (throttle_pass, fresh) (entered (λ t e. absurd (cc (fresh, e))))
      | inr (t, known) ↦ elim (Bool-cases (ltb t raw.time)) [
        | inl late ↦
            rw (throttle_pass, known, late)
              (entered (λ u e. omega (arith, ltb→lt t raw.time late, some_eq (sym known ∙ e))))
        | inr early ↦ rw (throttle_pass, known, early) dropped
      ]
    ]

last_time-same : (key t : ℕ) (table : List (ℕ × ℕ)) → last_time key ((key, t) ∷ table) ≡ some t
unfolding last_time
last_time-same key t table = rw (==-refl key) refl

last_time-other :
    (key k t : ℕ) (table : List (ℕ × ℕ))
    → (k == key) ≡ false
    → last_time key ((k, t) ∷ table) ≡ last_time key table
unfolding last_time
last_time-other key k t table h = rw h refl

-- Messages of a key of the table come after its time.
passed-After :
    (window key t : ℕ) (msgs : List RawMessage) (table : List (ℕ × ℕ)) (u : ℕ)
    → t ≤ u
    → last_time key table ≡ some u
    → All (After key t) (passed window table msgs)
unfolding passed
passed-After window key t [] table u h e = tt
passed-After window key t (raw ∷ msgs) table u h e =
    go (throttle_pass window table raw) (throttle_pass-Outcome window table raw)
      (λ table' u' h' e'. passed-After window key t msgs table' u' h' e')
  where
    go :
        (o : Option (List (ℕ × ℕ)))
        → Outcome window table raw o
        → ((table' : List (ℕ × ℕ)) (u' : ℕ)
            → t ≤ u'
            → last_time key table' ≡ some u'
            → All (After key t) (passed window table' msgs))
        → All (After key t) (elim o [
          | none ↦ passed window table msgs
          | some table' ↦ raw ∷ passed window table' msgs
        ])
    go _ dropped ih = ih table u h e
    go _ (entered late) ih = elim (Bool-cases (throttle_key raw.header == key)) [
      | inl same ↦
          let k : throttle_key raw.header ≡ key = ==→eq _ _ same in
          let new : u < raw.time = late u (ap (λ (x : ℕ). last_time x table) k ∙ e) in
          (
            λ q. omega (arith, h, new),
            ih ((throttle_key raw.header, raw.time + window) ∷ table) (raw.time + window)
                (omega (arith, h, new))
                (ap (λ (x : ℕ). last_time key ((x, raw.time + window) ∷ table)) k
                  ∙ last_time-same key (raw.time + window) table),
          )
      | inr other ↦ (
        λ q. absurd (cc (other, eq→== _ _ q)),
        ih ((throttle_key raw.header, raw.time + window) ∷ table) u h
            (last_time-other key (throttle_key raw.header) (raw.time + window) table other ∙ e),
      )
    ]

-- Of two messages that the throttle lets through with the same key, the later one comes more than the
-- window after the earlier one.
pub passed-Spaced :
    (window : ℕ) (msgs : List RawMessage) (table : List (ℕ × ℕ))
    → Spaced window (passed window table msgs)
unfolding passed Spaced
passed-Spaced window [] table = tt
passed-Spaced window (raw ∷ msgs) table =
    go (throttle_pass window table raw) (throttle_pass-Outcome window table raw)
      (λ table'. passed-Spaced window msgs table')
  where
    go :
        (o : Option (List (ℕ × ℕ)))
        → Outcome window table raw o
        → ((table' : List (ℕ × ℕ)) → Spaced window (passed window table' msgs))
        → Spaced window (elim o [
          | none ↦ passed window table msgs
          | some table' ↦ raw ∷ passed window table' msgs
        ])
    go _ dropped ih = ih table
    go _ (entered late) ih = (
      passed-After window (throttle_key raw.header) (raw.time + window) msgs _ (raw.time + window)
          (omega arith) (last_time-same (throttle_key raw.header) (raw.time + window) table),
      ih _,
    )

-- The key is no key: a message of an even PGN from address 4 shares it with one of the next PGN from
-- address 0, so that either may drop the other.
pub throttle_key_collides :
    (pgn priority destination : ℕ)
    → pgn < 2 ^ 32
    → pgn % 2 ≡ 0
    → throttle_key
        (record { pgn = pgn; priority = priority; source = 4; destination = destination })
      ≡ throttle_key
          (record { pgn = pgn + 1; priority = priority; source = 0; destination = destination })
unfolding throttle_key
throttle_key_collides pgn priority destination h even = omega (
  arith,
  bit_or_fields 3 (pgn / 2) 4 (omega arith),
  ap (λ (x : ℕ). bit_or x 4) (halves pgn h even),
  bit_or-zero (u64 ((pgn + 1) * 4)),
)
  where
    halves : (pgn : ℕ) → pgn < 2 ^ 32 → pgn % 2 ≡ 0 → u64 (pgn * 4) ≡ pgn / 2 * 2 ^ 3
    halves pgn h even = omega (arith, h, even)
