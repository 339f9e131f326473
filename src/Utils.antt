-- ===== src/Utils.antt =====
-- internal/utils/strings.go: text for logs, with white space other than blanks as two characters.
use go_nmea_client.Common.{
  ℕ, ◌≡◌, refl, [], ◌∷◌, ◌++◌, ◌==◌, ◌<◌, ◌⊎◌, inl, inr, Bool-cases, if◌then◌else◌, arith, All,
}
use go_nmea_client.Text.{Bytes}

-- The cases of the `switch`: `\t`, `\n`, `\r`, `\v` and `\f`.
unfoldable pub format_space : ℕ → Bytes
format_space c =
    if c == 9
    then b'\\' ∷ b't' ∷ []
    else if c == 10
    then b'\\' ∷ b'n' ∷ []
    else if c == 13
    then b'\\' ∷ b'r' ∷ []
    else if c == 11
    then b'\\' ∷ b'v' ∷ []
    else if c == 12
    then b'\\' ∷ b'f' ∷ []
    else c ∷ []

unfoldable pub format_spaces : Bytes → Bytes
format_spaces [] = []
format_spaces (c ∷ s) = format_space c ++ format_spaces s

-- The characters that a log may hold: no line feed, tab or the like.
abbrev pub IsPlain : ℕ → Type 0
IsPlain c = (c < 9) ⊎ (13 < c)

All-append : (xs ys : Bytes) → All IsPlain xs → All IsPlain ys → All IsPlain (xs ++ ys)
All-append [] ys h k = k
All-append (x ∷ xs) ys h k = (h.0, All-append xs ys h.1 k)

format_space-IsPlain : (c : ℕ) → All IsPlain (format_space c)
unfolding format_space
format_space-IsPlain c = elim (Bool-cases (c == 9)) [
  | inl y ↦ simp y (escaped b't' (omega arith))
  | inr a ↦ elim (Bool-cases (c == 10)) [
    | inl y ↦ simp (a, y) (escaped b'n' (omega arith))
    | inr b ↦ elim (Bool-cases (c == 13)) [
      | inl y ↦ simp (a, b, y) (escaped b'r' (omega arith))
      | inr d ↦ elim (Bool-cases (c == 11)) [
        | inl y ↦ simp (a, b, d, y) (escaped b'v' (omega arith))
        | inr e ↦ elim (Bool-cases (c == 12)) [
          | inl y ↦ simp (a, b, d, e, y) (escaped b'f' (omega arith))
          | inr f ↦ simp (a, b, d, e, f) (ground arith, tt)
        ]
      ]
    ]
  ]
]
  where
    escaped : (k : ℕ) → 13 < k → All IsPlain (b'\\' ∷ k ∷ [])
    escaped k h = (inr (omega arith), (inr h, tt))

-- The text has no line feed, no tab and no other of these characters, so it stays on one line of a log.
pub format_spaces-IsPlain : (s : Bytes) → All IsPlain (format_spaces s)
unfolding format_spaces
format_spaces-IsPlain [] = tt
format_spaces-IsPlain (c ∷ s) =
    All-append (format_space c) (format_spaces s) (format_space-IsPlain c) (format_spaces-IsPlain s)

-- A backslash is not escaped: a tab and the two characters that stand for it give the same text.
pub format_spaces_merges : format_spaces (9 ∷ []) ≡ format_spaces (b'\\' ∷ b't' ∷ [])
unfolding format_spaces format_space
format_spaces_merges = refl
