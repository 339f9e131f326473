-- ===== src/Text/Parts.antt =====
-- Texts split at a separator, and texts that stay as they are when white space is trimmed.
use mathlib.Core.List.{append-nil}
use go_nmea_client.Common.{ℕ, ◌≡◌, ◌≢◌, refl, ap, ◌∙◌, List, [], ◌∷◌, ◌++◌, true, false, arith, All}
use go_nmea_client.Text.{Bytes, split, extend, trim_left, trim_right, trim_space, is_space}

-- A text without the separator.
abbrev pub Lacks : ℕ → Bytes → Type 0
Lacks sep = All (λ c. c ≢ sep)

module _ (sep : ℕ) where
  -- Every part behind a separator.
  unfoldable pub separated : List Bytes → Bytes
  separated [] = []
  separated (p ∷ parts) = sep ∷ p ++ separated parts

  split-append :
      (p rest : Bytes) (first : Bytes) (parts : List Bytes)
      → Lacks sep p
      → split sep rest ≡ first ∷ parts
      → split sep (p ++ rest) ≡ (p ++ first) ∷ parts
  unfolding split extend
  split-append [] rest first parts h e = e
  split-append (c ∷ p) rest first parts h e = ground (arith, split-append p rest first parts h.1 e)

  split_at_separator : (s : Bytes) → split sep (sep ∷ s) ≡ [] ∷ split sep s
  unfolding split
  split_at_separator s = ground arith

  -- Splitting gives the parts back, if none holds the separator.
  pub split-separated :
      (p : Bytes) (parts : List Bytes)
      → Lacks sep p
      → All (Lacks sep) parts
      → split sep (p ++ separated parts) ≡ p ∷ parts
  unfolding separated
  split-separated p [] h hs = split-append p [] [] [] h (unfold split in refl) ∙ rw append-nil refl
  split-separated p (q ∷ parts) h (hq, hs) =
      split-append p (separated (q ∷ parts)) [] (q ∷ parts) h
        (split_at_separator (q ++ separated parts) ∙ ap (◌∷◌ []) (split-separated q parts hq hs))
      ∙ rw append-nil refl

abbrev pub IsSpace : ℕ → Type 0
IsSpace c = is_space c ≡ true

trim_right_spaces : (after : Bytes) → All IsSpace after → trim_right after ≡ []
unfolding trim_right
trim_right_spaces [] h = refl
trim_right_spaces (c ∷ after) h = rw (h.0, trim_right_spaces after h.1) refl

trim_right-append_last :
    (s : Bytes) (c : ℕ) (after : Bytes)
    → is_space c ≡ false
    → All IsSpace after
    → trim_right (s ++ (c ∷ after)) ≡ s ++ (c ∷ [])
unfolding trim_right
trim_right-append_last [] c after h ha = rw (h, trim_right_spaces after ha) refl
trim_right-append_last (d ∷ []) c after h ha =
    ground (arith, trim_right-append_last [] c after h ha)
trim_right-append_last (d ∷ e ∷ s) c after h ha =
    ground (arith, trim_right-append_last (e ∷ s) c after h ha)

trim_left-append : (before s : Bytes) → All IsSpace before → trim_left (before ++ s) ≡ trim_left s
unfolding trim_left
trim_left-append [] s h = refl
trim_left-append (c ∷ before) s h = rw h.0 (trim_left-append before s h.1)

-- White space is trimmed from the ends only: what remains is the text between its first and its last
-- character that is no space.
pub trim_space-inner :
    (before : Bytes) (first : ℕ) (s : Bytes) (last : ℕ) (after : Bytes)
    → All IsSpace before
    → is_space first ≡ false
    → is_space last ≡ false
    → All IsSpace after
    → trim_space (before ++ (first ∷ (s ++ (last ∷ after)))) ≡ first ∷ (s ++ (last ∷ []))
unfolding trim_space trim_left
trim_space-inner before first s last after hb hf hl ha =
    ap trim_right (trim_left-append before (first ∷ (s ++ (last ∷ after))) hb)
    ∙ rw hf (trim_right-append_last (first ∷ s) last after hl ha)
