-- ===== src/Hosted/Caps/Fuel.antt =====
-- crates/court-hosted/src/lib.rs: the `while let` of `CapRegistry::revoke` ends. A child is younger
-- than its parent and no younger than the newest entry, so the walk has a finite depth.
use mathlib.Core.List.{reverse-cons}
use court_kernel.Prelude.{
  ℕ, zero, suc, ◌+◌, ◌-◌, ◌≤◌, ◌<◌, ◌≡◌, refl, List, [], ◌∷◌, ◌++◌, reverse, Memᴰ, Table, nat_Key,
  arith,
}
use court_kernel.Hosted.Types.{CapId}
use court_kernel.Hosted.Caps.{Capability, children_of, mark, revoke_loop, sum_of, visits}

sum_of-append :
    (f : CapId → ℕ) (xs ys : List CapId) → sum_of f (xs ++ ys) ≡ sum_of f xs + sum_of f ys
unfolding sum_of
sum_of-append f [] ys = omega arith
sum_of-append f (x ∷ xs) ys = omega (arith, sum_of-append f xs ys)

sum_of-reverse : (f : CapId → ℕ) (xs : List CapId) → sum_of f (reverse xs) ≡ sum_of f xs
unfolding sum_of
sum_of-reverse f [] = refl
sum_of-reverse f (x ∷ xs) =
    rw (reverse-cons x xs, sum_of-append f (reverse xs) (x ∷ []))
      (omega (arith, sum_of-reverse f xs))

sum_of_mono :
    (f g : CapId → ℕ) (xs : List CapId)
    → ((c : CapId) → Memᴰ c xs → f c ≤ g c)
    → sum_of f xs ≤ sum_of g xs
unfolding sum_of
sum_of_mono f g [] h = omega arith
sum_of_mono f g (x ∷ xs) h =
    omega (arith, h x (Memᴰ.head refl), sum_of_mono f g xs (λ c m. h c (Memᴰ.tail m)))

visits_pos : (children : Table CapId (List CapId)) (d : ℕ) (c : CapId) → 1 ≤ visits d children c
unfolding visits
visits_pos children zero c = omega arith
visits_pos children (suc d) c = omega arith

pub visits_mono :
    (children : Table CapId (List CapId)) (d e : ℕ) (c : CapId)
    → d ≤ e
    → visits d children c ≤ visits e children c
unfolding visits
visits_mono children zero e c h = visits_pos children e c
visits_mono children (suc d) zero c h = absurd (omega arith)
visits_mono children (suc d) (suc e) c h =
    let rest =
      sum_of_mono (visits d children) (visits e children) (children_of children c)
        (λ x _. visits_mono children d e x (omega arith)) in
    omega (arith, rest)

-- `newest` bounds every number in the table, and a child's is above its parent's.
module _ (children : Table CapId (List CapId)) (newest : ℕ)
    (younger : (c p : CapId) → Memᴰ c (children_of children p) → (p < c) × (c ≤ newest)) where
  abbrev cost : CapId → ℕ
  cost c = visits (newest - c) children c

  children-cost :
      (d : ℕ) (p : CapId) (xs : List CapId)
      → newest - p ≡ d
      → children_of children p ≡ xs
      → sum_of cost xs < visits d children p
  unfolding visits sum_of
  children-cost d p [] e f = omega (arith, visits_pos children d p)
  children-cost zero p (x ∷ xs) e f = absurd (omega (arith, younger x p (rw f (Memᴰ.head refl))))
  children-cost (suc d) p (x ∷ xs) e f =
      let rest =
        sum_of_mono cost (visits d children) (x ∷ xs)
          (λ c m. visits_mono children (newest - c) d c (omega (arith, younger c p (rw f m)))) in
      rw f (omega (arith, rest))

  pub loop_ends :
      (fuel : ℕ) (stack : List CapId) (caps : Table CapId Capability)
      → sum_of cost stack ≤ fuel
      → (revoke_loop fuel children stack caps).0 ≡ []
  unfolding revoke_loop sum_of
  loop_ends zero [] caps h = refl
  loop_ends (suc fuel) [] caps h = refl
  loop_ends zero (x ∷ stack) caps h = absurd (omega (arith, visits_pos children (newest - x) x))
  loop_ends (suc fuel) (x ∷ stack) caps h = loop_ends fuel _ (mark caps x) (
      omega (
        arith,
        children-cost (newest - x) x (children_of children x) refl refl,
        sum_of-append cost (reverse (children_of children x)) stack,
        sum_of-reverse cost (children_of children x),
      ))
