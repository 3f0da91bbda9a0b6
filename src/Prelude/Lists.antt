-- ===== src/Prelude/Lists.antt =====
-- Lists measured and indexed by native numbers, membership and predicates by recursion.
use Prim.Native.Nat.{ℕ, zero, suc, ◌+◌}
use mathlib.Core.Path.{◌≡◌, refl, ap}
use mathlib.Core.Logic.{inl, inr}
use mathlib.Core.List.{List, [], ◌∷◌, ◌++◌, Memᴰ, reverse, reverse-cons}
use mathlib.Core.List.Memᴰ.{append_cases, append_left, append_right, eq_of_singleton}
use mathlib.Core.Option.{Option, none, some}
use native.Mathlib.Omega.{arith}

module _ {ℓ} {A : Type ℓ} where
  abbrev pub length : List A → ℕ
  length [] = 0
  length (x ∷ xs) = suc (length xs)

  abbrev pub get_elem? : List A → ℕ → Option A
  get_elem? [] i = none
  get_elem? (x ∷ xs) zero = some x
  get_elem? (x ∷ xs) (suc i) = get_elem? xs i

  -- A write out of bounds changes nothing.
  abbrev pub set : List A → ℕ → A → List A
  set [] i v = []
  set (x ∷ xs) zero v = v ∷ xs
  set (x ∷ xs) (suc i) v = x ∷ set xs i v

  abbrev pub replicate : ℕ → A → List A
  replicate zero a = []
  replicate (suc n) a = a ∷ replicate n a

  pub length-append : (xs ys : List A) → length (xs ++ ys) ≡ length xs + length ys
  length-append [] ys = omega arith
  length-append (x ∷ xs) ys = omega (arith, length-append xs ys)

  pub length-set : (xs : List A) (i : ℕ) (v : A) → length (set xs i v) ≡ length xs
  length-set [] i v = refl
  length-set (x ∷ xs) zero v = refl
  length-set (x ∷ xs) (suc i) v = ap suc (length-set xs i v)

module _ {ℓ} {A : Type ℓ} {x : A} where
  pub reverse-Memᴰ : (xs : List A) → Memᴰ x (reverse xs) → Memᴰ x xs
  reverse-Memᴰ [] m = m
  reverse-Memᴰ (y ∷ xs) m = elim (append_cases (reverse xs) (rw (reverse-cons y xs) at m)) [
    | inl rest ↦ Memᴰ.tail (reverse-Memᴰ xs rest)
    | inr last ↦ Memᴰ.head (eq_of_singleton last)
  ]

  pub Memᴰ-reverse : (xs : List A) → Memᴰ x xs → Memᴰ x (reverse xs)
  Memᴰ-reverse [] m = elim m [ ]
  Memᴰ-reverse (y ∷ xs) (Memᴰ.head e) =
      rw (reverse-cons y xs) (append_right (reverse xs) (Memᴰ.head e))
  Memᴰ-reverse (y ∷ xs) (Memᴰ.tail m) =
      rw (reverse-cons y xs) (append_left (y ∷ []) (Memᴰ-reverse xs m))
