-- ===== src/Prelude/Chain.antt =====
-- `?` and sequencing in the handlers of the root process and in the mapper. Unlike the operators of
-- Results these do not unfold by themselves, so that a judgement on a handler follows its statements.
use mathlib.Core.Path.{◌≡◌, refl}
use mathlib.Core.Logic.{inl, inr}
use court_kernel.Prelude.Results.{Exec, continue, Result, ok, err, Result-cases}

module _ {ℓ} {E S A B : Type ℓ} where
  infixl 10 ◌>>=◌ ◌>>◌
  unfoldable pub ◌>>=◌ : Exec E S A → (A → Exec E S B) → Exec E S B
  ◌>>=◌ m f s = let (r, s') = m s in continue r f s'

  unfoldable pub ◌>>◌ : Exec E S A → Exec E S B → Exec E S B
  ◌>>◌ m k s = let (r, s') = m s in continue r (λ _. k) s'

-- What holds of `m >>= f` at a state: where `m` fails, of its error, and else of what `f` does next.
pub bind_elim {ℓ κ} :
    {E S A B : Type ℓ} (m : Exec E S A) (f : A → Exec E S B) (s : S) (P : Result E B × S → Type κ)
    → ((e : E) → (m s).0 ≡ err e → P (err e, (m s).1))
    → ((a : A) → (m s).0 ≡ ok a → P (f a (m s).1))
    → P ((m >>= f) s)
unfolding ◌>>=◌
bind_elim m f s P p q = elim (Result-cases (m s).0) [
  | inl (e, h) ↦ rw h (p e h)
  | inr (a, h) ↦ rw h (q a h)
]

-- The first action failed, or it did not.
module _ {ℓ} {E S A B : Type ℓ} (m : Exec E S A) (f : A → Exec E S B) (s t : S) where
  pub bind-err : (e : E) → m s ≡ (err e, t) → (m >>= f) s ≡ (err e, t)
  unfolding ◌>>=◌
  bind-err e h = rw h refl

  pub bind-ok : (a : A) → m s ≡ (ok a, t) → (m >>= f) s ≡ f a t
  unfolding ◌>>=◌
  bind-ok a h = rw h refl

-- The first action leaves nothing to see.
module _ {ℓ} {E S A B : Type ℓ} (m : Exec E S A) (k : Exec E S B) (s t : S) where
  pub then-err : (e : E) → m s ≡ (err e, t) → (m >> k) s ≡ (err e, t)
  unfolding ◌>>◌
  then-err e h = rw h refl

  pub then-ok : (a : A) → m s ≡ (ok a, t) → (m >> k) s ≡ k t
  unfolding ◌>>◌
  then-ok a h = rw h refl
