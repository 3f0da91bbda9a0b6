-- ===== src/Linux/Root/Calls.antt =====
-- crates/court-hosted-linux/src/root.rs: the root process changes `HostedRoot` by calls of its methods
-- alone, and by a bounded number of them. `Effect` is the judgement, with a rule for each construct.
use court_kernel.Prelude.Chain.{bind_elim, ◌>>=◌, ◌>>◌}
use court_kernel.Prelude.{
  ℕ, ◌+◌, ◌≤◌, ◌≡◌, refl, sym, ap, ◌∙◌, inl, inr, Bool, true, false, Option, none, some, List, [],
  ◌∷◌, ◌++◌, length, length-append, Result, ok, Result-cases, lift, gets, reads, pure, raise,
  modify, arith, if◌then◌else◌,
}
use court_kernel.Hosted.Root.{HostedRoot, Action}
use court_kernel.Hosted.Root.Run.{Call, step, run}
use court_kernel.Linux.Root.{World, RootError, Act, on_root, attempt}

-- The `HostedRoot` of one world comes from that of the other by at most `n` calls.
pub record Makes (n : ℕ) (w t : World) : Type 0 where
  pub calls : List Call
  pub reached : t.state.root ≡ run calls w.state.root
  pub few : length calls ≤ n

pub record Effect {A : Type 0} (n : ℕ) (m : Act A) : Type 0 where
  pub makes : (w : World) → Makes n w (m w).1

run-append : (cs ds : List Call) (s : HostedRoot) → run (cs ++ ds) s ≡ run ds (run cs s)
unfolding run
run-append [] ds s = refl
run-append (c ∷ cs) ds s = run-append cs ds (step c s)

pub Makes-none : (w t : World) → t.state.root ≡ w.state.root → Makes 0 w t
unfolding run
Makes-none w t e = record { calls = []; reached = e; few = omega arith }

pub Makes-trans : {n k : ℕ} {v w t : World} → Makes n v w → Makes k w t → Makes (n + k) v t
Makes-trans {v} a b = record {
  calls = a.calls ++ b.calls;
  reached = b.reached ∙ ap (run b.calls) a.reached ∙ sym (run-append a.calls b.calls v.state.root);
  few = let p = a.few in let q = b.few in omega (arith, length-append a.calls b.calls);
}

pub Makes-le : {n k : ℕ} {w t : World} → n ≤ k → Makes n w t → Makes k w t
Makes-le h a = record { calls = a.calls; reached = a.reached; few = let p = a.few in omega arith }

module _ {A B : Type 0} where
  pub bind :
      {n k : ℕ} {m : Act A} {f : A → Act B}
      → Effect n m
      → ((a : A) → Effect k (f a))
      → Effect (n + k) (m >>= f)
  bind {n} {k} {m = m} {f = f} p q = record {
    makes = λ w.
        bind_elim m f w (λ x. Makes (n + k) w x.1) (λ e h. Makes-le (omega arith) (p.makes w))
          (λ a h. Makes-trans (p.makes w) ((q a).makes (m w).1));
  }

  pub next : {n k : ℕ} {m : Act A} {f : Act B} → Effect n m → Effect k f → Effect (n + k) (m >> f)
  unfolding ◌>>=◌ ◌>>◌
  next p q = bind p (λ _. q)

  -- What follows a value that is computed may use what the value is.
  pub given :
      {n : ℕ} (r : Result RootError A) {f : A → Act B}
      → ((a : A) → r ≡ ok a → Effect n (f a))
      → Effect n (lift r >>= f)
  unfolding ◌>>=◌
  given r {f = f} q = record {
    makes = λ w. elim (Result-cases r) [
      | inl (e, h) ↦ rw h (Makes-le (omega arith) (Makes-none w w refl))
      | inr (a, h) ↦ rw h ((q a h).makes w)
    ];
  }

module _ {A : Type 0} where
  pub within : {n k : ℕ} {m : Act A} → n ≤ k → Effect n m → Effect k m
  within h p = record { makes = λ w. Makes-le h (p.makes w) }

  pub reads_only : (f : World → Result RootError A) → Effect 0 (reads f)
  reads_only f = record { makes = λ w. Makes-none w w refl }

  pub gets_only : (f : World → A) → Effect 0 (gets f)
  gets_only f = record { makes = λ w. Makes-none w w refl }

  pub lifts : (r : Result RootError A) → Effect 0 (lift r)
  lifts r = record { makes = λ w. Makes-none w w refl }

  pub returns : (a : A) → Effect 0 (pure a)
  returns a = record { makes = λ w. Makes-none w w refl }

  pub raises : (e : RootError) → Effect {A = A} 0 (raise e)
  raises e = record { makes = λ w. Makes-none w w refl }

  pub branches :
      {n : ℕ} (b : Bool) {m k : Act A} → Effect n m → Effect n k → Effect n (if b then m else k)
  branches true p q = p
  branches false p q = q

  -- One method, as a call.
  pub calls_root :
      (m : Action A) (c : Call) → ((s : HostedRoot) → (m s).1 ≡ step c s) → Effect 1 (on_root m)
  unfolding run
  calls_root m c h = record {
    makes = λ w. record { calls = c ∷ []; reached = h w.state.root; few = omega arith };
  }

  pub tries_root :
      (m : Action A) (c : Call) → ((s : HostedRoot) → (m s).1 ≡ step c s) → Effect 1 (attempt m)
  unfolding run
  tries_root m c h = record {
    makes = λ w. record { calls = c ∷ []; reached = h w.state.root; few = omega arith };
  }

pub cases :
    {A B : Type 0} {n : ℕ} (o : Option A) {m : Act B} {f : A → Act B}
    → Effect n m
    → ((a : A) → Effect n (f a))
    → Effect n (elim o [ none ↦ m | some a ↦ f a ])
cases none p q = p
cases (some a) p q = q a

pub modifies :
    (f : World → World) → ((w : World) → (f w).state.root ≡ w.state.root) → Effect 0 (modify f)
modifies f h = record { makes = λ w. Makes-none w (f w) (h w) }
