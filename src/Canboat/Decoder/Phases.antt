-- ===== src/Canboat/Decoder/Phases.antt =====
-- canboat/decoder.go: where the loop over repeating fields stands in a set.
use go_nmea_client.Common.{
  ℕ, ◌+◌, ◌-◌, ◌/◌, ◌%◌, ◌≤◌, ◌<◌, ◌≡◌, ap, Option, none, some, true, false, ◌==◌, if◌then◌else◌,
  Bool-cases, ◌⊎◌, inl, inr, arith,
}
use native.Mathlib.Nat.{mod-eq_of_lt, mod_self, div-eq_of_lt}
use go_nmea_client.Canboat.Decoder.Repeated.{Repetition, up_to, is_within}

-- Where the loop stands: at or before the first field of the set, in the set, or behind it for good.
unfoldable pub Phase : Repetition → ℕ → ℕ → Type 0
Phase rep order rep_order =
    (order ≤ rep.start_field)
    ⊎ (((order ≡ rep.start_field + rep_order) × (rep_order < rep.size))
        ⊎ ((rep.start_field < order) × (up_to rep.end_index order ≡ false)))

-- The order after the field at `rep_order` of a set.
pub next_order :
    (rep : Repetition) (rep_order : ℕ)
    → 1 ≤ rep_order
    → rep_order ≤ rep.size
    → Phase rep (rep.start_field + rep_order % rep.size) rep_order
      × ((rep_order - 1) / rep.size ≡ 0)
unfolding Phase
next_order rep rep_order some_order fits = elim (Bool-cases (rep_order == rep.size)) [
  | inl last ↦
      let same : rep_order ≡ rep.size = ground arith in
      (
        inl (ground (arith, ap (λ n. n % rep.size) same, mod_self rep.size)),
        div-eq_of_lt (omega (arith, some_order, fits)),
      )
  | inr other ↦
      let less : rep_order < rep.size = ground arith in
      (
        inr (inl (ap (λ n. rep.start_field + n) (mod-eq_of_lt less), less)),
        div-eq_of_lt (omega (arith, some_order, fits)),
      )
]

-- What a pass knows of the field it is at in the set.
pub rep_order_bounds :
    (rep : Repetition) (order rep_order : ℕ)
    → Phase rep order rep_order
    → is_within order rep ≡ true
    → (rep.size == 0) ≡ false
    → (1 ≤ (if order == rep.start_field then 1 else rep_order + 1))
      × ((if order == rep.start_field then 1 else rep_order + 1) ≤ rep.size)
unfolding is_within Phase
rep_order_bounds rep order rep_order (inl at) within some_size = (ground arith, ground arith)
rep_order_bounds rep order rep_order (inr (inl inside)) within some_size =
    (ground arith, ground arith)
rep_order_bounds rep order rep_order (inr (inr behind)) within some_size =
    (ground arith, ground arith)

up_to_suc :
    (last : Option ℕ) (order : ℕ) → up_to last order ≡ false → up_to last (order + 1) ≡ false
unfolding up_to
up_to_suc none order h = cc
up_to_suc (some last) order h = ground arith

-- A pass outside the set.
pub Phase-outside :
    (rep : Repetition) (order rep_order : ℕ)
    → rep.count_field < rep.start_field
    → Phase rep order rep_order
    → is_within order rep ≡ false
    → Phase rep (order + 1) rep_order
unfolding is_within Phase
Phase-outside rep order rep_order k (inl at) outer = elim (Bool-cases (order == rep.start_field)) [
  | inl start ↦ inr (inr (ground arith, up_to_suc rep.end_index order (ground arith)))
  | inr early ↦ inl (ground arith)
]
Phase-outside rep order rep_order k (inr (inl inside)) outer =
    inr (inr (ground arith, up_to_suc rep.end_index order (ground arith)))
Phase-outside rep order rep_order k (inr (inr behind)) outer =
    inr (inr (omega (arith, behind), up_to_suc rep.end_index order behind.1))

-- Only a field before the set gives its count.
pub counted-Phase :
    (rep rep' : Repetition) (order rep_order : ℕ)
    → rep.count_field < rep.start_field
    → rep'.start_field ≡ rep.start_field
    → Phase rep order rep_order
    → ((order - 1) == rep.count_field) ≡ true
    → Phase rep' order rep_order
unfolding Phase
counted-Phase rep rep' order rep_order k same (inl at) e = inl (omega (arith, at, same))
counted-Phase rep rep' order rep_order k same (inr (inl inside)) e =
    inl (ground (arith, same, e, k))
counted-Phase rep rep' order rep_order k same (inr (inr behind)) e =
    absurd (ground (arith, behind, e, k))
