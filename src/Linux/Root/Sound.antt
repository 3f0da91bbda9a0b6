-- ===== src/Linux/Root/Sound.antt =====
-- crates/court-hosted-linux/src/root.rs: what a run of the demo leaves, whatever the courts send.
use court_kernel.Prelude.Chain.{bind_elim, ◌>>=◌, ◌>>◌}
use court_kernel.Prelude.{
  ℕ, ◌+◌, ◌≤◌, ◌<◌, ◌≡◌, refl, String, some, Option-cases, List, [], ◌∷◌, length, get, pair_Key,
  string_Key, nat_Key, inl, inr, Result, ok, Result-cases, lift, arith,
}
use court_kernel.Hosted.Rights.{Rights}
use court_kernel.Hosted.Types.{CapId, u64_mod}
use court_kernel.Hosted.Caps.Revoke.{itself, revoke_unknown}
use court_kernel.Hosted.Root.{HostedRoot, revoke}
use court_kernel.Hosted.Root.Outcome.{revoke_outcome}
use court_kernel.Hosted.Root.Inv.{Inv}
use court_kernel.Hosted.Root.Run.{Call, step, run, run-Inv, run-Keeps, step-next_cap}
use court_kernel.Hosted.Root.Revocation.{IsDead, revoked-IsDead}
use court_kernel.Linux.Root.{World, Act, RootError}
use court_kernel.Linux.Root.Calls.{Makes, Effect}

run-next_cap :
    (cs : List Call) (s : HostedRoot)
    → (run cs s).cap_registry.next_cap ≤ s.cap_registry.next_cap + length cs
unfolding run
run-next_cap [] s = omega arith
run-next_cap (c ∷ cs) s = omega (arith, run-next_cap cs (step c s), step-next_cap c s)

-- The state of the core is well-formed, with numbers left for `n` calls.
abbrev pub IsGood : ℕ → World → Type 0
IsGood n w = Inv w.state.root × w.state.root.cap_registry.next_cap + n < u64_mod

pub Makes-IsGood : {n : ℕ} (k : ℕ) {w t : World} → Makes n w t → IsGood (n + k) w → IsGood k t
Makes-IsGood k {w} x (v, room) =
    let few = x.few in
    (
      rw x.reached (run-Inv x.calls w.state.root (omega arith) v),
      rw x.reached (omega (arith, run-next_cap x.calls w.state.root)),
    )

-- The capability that the root keeps under the key, which is dead in the core.
abbrev pub IsRevoked : String × String → World → Type 0
IsRevoked key w =
    (held : CapId × Rights) × (get w.state.caps_by_key key ≡ some held) × IsDead w.state.root held.0

pub Makes-IsRevoked :
    {n : ℕ} {w t : World} (key : String × String)
    → Makes n w t
    → t.state.caps_by_key ≡ w.state.caps_by_key
    → IsGood n w
    → IsRevoked key w
    → IsRevoked key t
Makes-IsRevoked {w} key x same (v, room) (held, e, (k, f, dead)) =
    let few = x.few in
    let (i, g, _, still) = run-Keeps x.calls w.state.root (omega arith) v held.0 k f in
    (held, rw same e, (i, rw x.reached g, still dead))

-- A revoke that is not refused leaves the capability dead.
pub revoke_ok-IsDead :
    (s : HostedRoot) (id : CapId) (u : Unit {0})
    → Inv s
    → (revoke id s).0 ≡ ok u
    → IsDead (revoke id s).1 id
revoke_ok-IsDead s id u v h = elim (Option-cases (get s.cap_registry.caps id)) [
  | inl e ↦ absurd (
      let p = (revoke_outcome s id).0 in
      let q = revoke_unknown s.cap_registry id e in ground (arith, p, q, h))
  | inr (k, e) ↦ revoked-IsDead s id id k v e (itself refl)
]

-- From a good world with numbers left for `n` calls, whenever the action returns `ok`, the world after it is in `Q`.
pub record Ensures {A : Type 0} (n : ℕ) (m : Act A) (Q : World → Type 0) : Type 0 where
  pub holds : (w : World) → IsGood n w → (a : A) → (m w).0 ≡ ok a → Q (m w).1

module _ {A B : Type 0} {Q : World → Type 0} where
  -- What the second action ensures, after a first that keeps the world good.
  pub after :
      {n k : ℕ} {m : Act A} {f : A → Act B}
      → Effect n m
      → ((a : A) → Ensures k (f a) Q)
      → Ensures (n + k) (m >>= f) Q
  after {k = k} {m = m} {f = f} p q = record {
    holds = λ w good b.
        bind_elim m f w (λ x. x.0 ≡ ok b → Q x.1) (λ e h bad. absurd (ground (arith, bad)))
          (λ a h. (q a).holds (m w).1 (Makes-IsGood k (p.makes w) good) b);
  }

  pub after_it :
      {n k : ℕ} {m : Act A} {f : Act B} → Effect n m → Ensures k f Q → Ensures (n + k) (m >> f) Q
  unfolding ◌>>=◌ ◌>>◌
  after_it p q = after p (λ _. q)

  pub computed :
      {n : ℕ} (r : Result RootError A) {f : A → Act B}
      → ((a : A) → r ≡ ok a → Ensures n (f a) Q)
      → Ensures n (lift r >>= f) Q
  unfolding ◌>>=◌
  computed r {f = f} q = record {
    holds = λ w good b. elim (Result-cases r) [
      | inl (e, h) ↦ rw h (λ bad. absurd (ground (arith, bad)))
      | inr (a, h) ↦ rw h (λ fine. (q a h).holds w good b fine)
    ];
  }
