-- ===== src/Hosted/Root/Revocation.antt =====
-- crates/court-hosted/src/lib.rs: revocation takes hold at once, reaches every derived capability,
-- and is final.
use court_kernel.Prelude.{◌≡◌, inl, inr, ◌≢◌, true, some, List, ◌∷◌, nat_Key, get, ok, arith}
use court_kernel.Hosted.Rights.{Rights}
use court_kernel.Hosted.Types.{CourtId, CapId, Payload, Descriptor}
use court_kernel.Hosted.Caps
use court_kernel.Hosted.Caps.{Capability, CapRegistry, authorize, delegate}
use court_kernel.Hosted.Caps.Outcome.{Failed, delegate_outcome}
use court_kernel.Hosted.Caps.Walk.{is_dead}
use court_kernel.Hosted.Caps.Revoke.{Descends, itself, child, revoke_exact}
use court_kernel.Hosted.Root.{HostedRoot, open_cap, send, recv, revoke}
use court_kernel.Hosted.Root.Outcome.{Quiet, send_outcome, recv_outcome, revoke_outcome}
use court_kernel.Hosted.Root.Inv.{Inv, revoke-Inv}
use court_kernel.Hosted.Root.Run.{Call, step, run, revokes, HasRoomFor, run-Keeps, step-next_cap}

-- A capability that nobody can do anything with: it is known and dead.
abbrev pub IsDead : HostedRoot → CapId → Type 0
IsDead s c = (k : Capability) × (get s.cap_registry.caps c ≡ some k) × (k.is_revoked ≡ true)

-- No court can send, receive or open with the capability, whatever is asked for, nor is anything
-- derived from it; sending and receiving then change nothing but the trace.
pub record IsUseless (s : HostedRoot) (c : CapId) : Type 0 where
  pub no_send :
      (court : CourtId) (p : Payload) → Failed (send court c p s).0 × Quiet s (send court c p s).1
  pub no_recv : (court : CourtId) → Failed (recv court c s).0 × Quiet s (recv court c s).1
  pub no_open :
      (court : CourtId) (d : Descriptor) (rights : Rights) (x : CapId)
      → (open_cap court d (some c) rights s).0 ≢ ok x
  pub no_derive :
      (rights : Rights)
      → Failed (delegate c rights s.cap_registry).0
        × ((delegate c rights s.cap_registry).1 ≡ s.cap_registry)

dead_no_open :
    (s : HostedRoot) (c : CapId) (k : Capability)
    → get s.cap_registry.caps c ≡ some k
    → k.is_revoked ≡ true
    → (court : CourtId) (d : Descriptor) (rights : Rights) (x : CapId)
    → (open_cap court d (some c) rights s).0 ≢ ok x
unfolding open_cap authorize
dead_no_open s c k e h court d rights x = ground arith

pub dead-IsUseless : (s : HostedRoot) (c : CapId) → IsDead s c → IsUseless s c
dead-IsUseless s c (k, e, h) = record {
  no_send = λ court p. elim (send_outcome s court c p) [
    | inl failed ↦ failed
    | inr (_, x) ↦ let y = x.may in absurd (ground (arith, y.known, y.live))
  ];
  no_recv = λ court. elim (recv_outcome s court c) [
    | inl failed ↦ failed
    | inr (p, _, x) ↦ let y = x.may in absurd (ground (arith, y.known, y.live))
  ];
  no_open = dead_no_open s c k e h;
  no_derive = λ rights. elim (delegate_outcome s.cap_registry c rights) [
    | inl failed ↦ failed
    | inr (j, may, _) ↦ absurd (ground (arith, may.found, may.live))
  ];
}

Descends-known :
    (r : CapRegistry) (a : CapId) (k : Capability)
    → get r.caps a ≡ some k
    → {c : CapId} → Descends r.caps a c
    → (j : Capability) × (get r.caps c ≡ some j)
Descends-known r a k e (itself p) = (k, rw p at e)
Descends-known r a k e (child j f _ _) = (j, f)

pub revoked-IsDead :
    (s : HostedRoot) (id c : CapId) (k : Capability)
    → Inv s
    → get s.cap_registry.caps id ≡ some k
    → Descends s.cap_registry.caps id c
    → IsDead (revoke id s).1 c
revoked-IsDead s id c k v e d =
    let (j, f) = Descends-known s.cap_registry id k e d in
    let exact = revoke_exact s.cap_registry id k v.registry e in
    let dead = (exact.4 c j f).1 (inr d) in
    rw (revoke_outcome s id).1 (go (Caps.revoke id s.cap_registry).1 dead)
  where
    go :
        (r : CapRegistry)
        → is_dead r.caps c ≡ true
        → (i : Capability) × (get r.caps c ≡ some i) × (i.is_revoked ≡ true)
    go r h = ground arith

-- In a well-formed state with numbers left for the calls: once a known capability is revoked, then
-- after any further calls by anybody, no court can send, receive or open with it or with a
-- capability that descends from it, and nothing can be derived from either.
pub revoke_final :
    (s : HostedRoot) (id c : CapId) (k : Capability) (cs : List Call)
    → Inv s
    → HasRoomFor (revokes id ∷ cs) s
    → get s.cap_registry.caps id ≡ some k
    → Descends s.cap_registry.caps id c
    → IsUseless (run (revokes id ∷ cs) s) c
unfolding run step
revoke_final s id c k cs v room e d =
    let (j, f, dead) = revoked-IsDead s id c k v e d in
    let (i, g, _, still) =
      run-Keeps cs (revoke id s).1 (omega (arith, step-next_cap (revokes id) s)) (revoke-Inv id s v)
        c j f in
    dead-IsUseless _ c (i, g, still dead)
