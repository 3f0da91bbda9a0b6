-- ===== src/RootCourt/Objects/Slots.antt =====
-- crates/root-court/src/object.rs: taking the first free slot of a table.
use court_kernel.Prelude.{
  suc, ◌≤◌, ◌<◌, ◌≡◌, refl, ap, ◌⊎◌, inl, inr, Option, none, some, List, [], ◌∷◌, length, arith,
  Option-cases,
}
use court_kernel.RootCourt.Objects.{fill, count}

module _ {A : Type 0} where
  count_bound : (slots : List (Option A)) → count slots ≤ length slots
  unfolding count
  count_bound [] = omega arith
  count_bound (none ∷ slots) = omega (arith, count_bound slots)
  count_bound (some b ∷ slots) = omega (arith, count_bound slots)

  -- A table is full, and refuses, or has room, and takes.
  pub fill-cases :
      (slots : List (Option A)) (a : A)
      → ((count slots ≡ length slots) × (fill slots a ≡ none))
        ⊎ ((count slots < length slots) × (rest : List (Option A)) × (fill slots a ≡ some rest))
  unfolding fill count
  fill-cases [] a = inl (refl, refl)
  fill-cases (none ∷ slots) a = inr (omega (arith, count_bound slots), some a ∷ slots, refl)
  fill-cases (some b ∷ slots) a = elim (fill-cases slots a) [
    | inl (c, e) ↦ inl (ap suc c, rw (e, fill) refl)
    | inr (c, rest, e) ↦ inr (omega arith, some b ∷ rest, rw (e, fill) refl)
  ]

  pub fill-count :
      (slots rest : List (Option A)) (a : A)
      → fill slots a ≡ some rest
      → (count rest ≡ suc (count slots)) × (length rest ≡ length slots)
  unfolding fill count
  fill-count [] rest a h = absurd (ground arith)
  fill-count (none ∷ slots) rest a h = ground arith
  fill-count (some b ∷ slots) rest a h = elim (Option-cases (fill slots a)) [
    | inl e ↦ absurd (ground (arith, e))
    | inr (more, e) ↦ let (c, l) = fill-count slots more a e in ground (arith, e, c, l)
  ]
