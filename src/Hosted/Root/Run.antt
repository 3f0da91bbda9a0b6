-- ===== src/Hosted/Root/Run.antt =====
-- crates/court-hosted/src/lib.rs: any sequence of calls of `HostedRoot`, by any courts, in any order.
use court_kernel.Prelude.{
  ℕ, ◌+◌, ◌≤◌, ◌<◌, ◌≡◌, refl, sym, ap, ◌∙◌, inl, inr, String, Option, List, [], ◌∷◌, length,
  nat_Key, arith,
}
use court_kernel.Hosted.Rights.{Rights}
use court_kernel.Hosted.Types.{CourtId, CapId, Payload, Descriptor, CorridorTransport, u64_mod}
use court_kernel.Hosted.Caps.{CapRegistry}
use court_kernel.Hosted.Caps.Forest.{HasRoom}
use court_kernel.Hosted.Caps.Evolve.{
  Evolves, stays, mints, derives, Evolves-next_cap, Keeps, Evolves-Keeps, Keeps-refl, Keeps-trans,
}
use court_kernel.Hosted.Root.{
  HostedRoot, create_court, install_corridor, create_corridor, lookup, grant_corridor_cap, open_cap,
  send, recv, revoke, fault_court,
}
use court_kernel.Hosted.Root.Outcome.{
  lookup-Quiet, open_cap-Quiet, send_outcome, recv_outcome, create_corridor_outcome, grant_outcome,
  revoke_outcome,
}
use court_kernel.Hosted.Root.Inv.{
  Inv, Quiet-Inv, send-Inv, recv-Inv, create_court-Inv, fault_court-Inv, install_corridor-Inv,
  grant-Inv, revoke-Inv,
}

abbrev registry_of : HostedRoot → CapRegistry
registry_of s = s.cap_registry

-- The methods on `&mut self`, with their arguments.
pub data Call : Type 0 where
  creates_court : String → Call
  creates_corridor : String → CourtId → CourtId → CorridorTransport → ℕ → Call
  looks_up : CourtId → String → Call
  grants : CourtId → Descriptor → Rights → Call
  opens : CourtId → Descriptor → Option CapId → Rights → Call
  sends : CourtId → CapId → Payload → Call
  receives : CourtId → CapId → Call
  revokes : CapId → Call
  faults : CourtId → Call

-- A caller may ignore an error and go on.
unfoldable pub step : Call → HostedRoot → HostedRoot
step (creates_court name) s = (create_court name s).1
step (creates_corridor path a b transport capacity) s =
    (create_corridor path a b transport capacity s).1
step (looks_up court path) s = (lookup court path s).1
step (grants court d rights) s = (grant_corridor_cap court d rights s).1
step (opens court d id rights) s = (open_cap court d id rights s).1
step (sends court id payload) s = (send court id payload s).1
step (receives court id) s = (recv court id s).1
step (revokes id) s = (revoke id s).1
step (faults court) s = (fault_court court s).1

unfoldable pub run : List Call → HostedRoot → HostedRoot
run [] s = s
run (c ∷ cs) s = run cs (step c s)

create_corridor-Inv :
    (path : String) (a b : CourtId) (transport : CorridorTransport) (capacity : ℕ) (s : HostedRoot)
    → HasRoom s.cap_registry
    → Inv s
    → Inv (create_corridor path a b transport capacity s).1
create_corridor-Inv path a b transport capacity s room v =
    elim (create_corridor_outcome s path a b transport capacity) [
      | inl (_, same) ↦ rw same v
      | inr (_, _, e) ↦ rw e (install_corridor-Inv path a b transport capacity s room v)
    ]

-- Every call keeps the state well-formed, errors included.
pub step-Inv : (c : Call) (s : HostedRoot) → HasRoom s.cap_registry → Inv s → Inv (step c s)
unfolding step
step-Inv (creates_court name) s room v = create_court-Inv name s v
step-Inv (creates_corridor path a b transport capacity) s room v =
    create_corridor-Inv path a b transport capacity s room v
step-Inv (looks_up court path) s room v = Quiet-Inv s _ (lookup-Quiet court path s) v
step-Inv (grants court d rights) s room v = grant-Inv court d rights s room v
step-Inv (opens court d id rights) s room v = Quiet-Inv s _ (open_cap-Quiet court d id rights s) v
step-Inv (sends court id payload) s room v = send-Inv court id payload s v
step-Inv (receives court id) s room v = recv-Inv court id s v
step-Inv (revokes id) s room v = revoke-Inv id s v
step-Inv (faults court) s room v = fault_court-Inv court s v

fault_court-registry :
    (court : CourtId) (s : HostedRoot) → (fault_court court s).1.cap_registry ≡ s.cap_registry
unfolding fault_court
fault_court-registry court s = ground arith

-- What a call does to the registry.
step-Evolves : (c : Call) (s : HostedRoot) → Evolves s.cap_registry (step c s).cap_registry
unfolding step
step-Evolves (creates_court name) s = unfold create_court in stays refl
step-Evolves (creates_corridor path a b transport capacity) s =
    elim (create_corridor_outcome s path a b transport capacity) [
      | inl (_, e) ↦ stays (ap registry_of e)
      | inr (_, _, e) ↦ unfold install_corridor in mints _ _ _ (ap (λ p. registry_of p.1) e)
    ]
step-Evolves (looks_up court path) s = stays (ap registry_of (lookup-Quiet court path s))
step-Evolves (grants court d rights) s = elim (grant_outcome s court d rights) [
  | inl (_, e) ↦ stays (ap registry_of e)
  | inr (_, x) ↦ derives x.root_cap rights (ap registry_of x.after ∙ sym (ap (λ p. p.1) x.derived))
]
step-Evolves (opens court d id rights) s =
    stays (ap registry_of (open_cap-Quiet court d id rights s))
step-Evolves (sends court id payload) s = elim (send_outcome s court id payload) [
  | inl (_, q) ↦ stays (ap registry_of q)
  | inr (_, x) ↦ stays (ap registry_of x.after)
]
step-Evolves (receives court id) s = elim (recv_outcome s court id) [
  | inl (_, q) ↦ stays (ap registry_of q)
  | inr (_, _, x) ↦ stays (ap registry_of x.after)
]
step-Evolves (revokes id) s = Evolves.revokes id (ap registry_of (revoke_outcome s id).1)
step-Evolves (faults court) s = stays (fault_court-registry court s)

pub step-next_cap :
    (c : Call) (s : HostedRoot) → (step c s).cap_registry.next_cap ≤ s.cap_registry.next_cap + 1
step-next_cap c s = Evolves-next_cap (step-Evolves c s)

-- The registry has numbers left for as many calls.
abbrev pub HasRoomFor : List Call → HostedRoot → Type 0
HasRoomFor cs s = s.cap_registry.next_cap + length cs < u64_mod

-- A state that is well-formed is so after any calls, in any order, refused ones included, as long as
-- the registry has numbers left for as many calls.
pub run-Inv : (cs : List Call) (s : HostedRoot) → HasRoomFor cs s → Inv s → Inv (run cs s)
unfolding run
run-Inv [] s room v = v
run-Inv (c ∷ cs) s room v =
    run-Inv cs (step c s) (omega (arith, step-next_cap c s)) (step-Inv c s (omega arith) v)

-- The registry keeps its entries and their marks through any calls.
pub run-Keeps :
    (cs : List Call) (s : HostedRoot)
    → HasRoomFor cs s
    → Inv s
    → Keeps s.cap_registry (run cs s).cap_registry
unfolding run
run-Keeps [] s room v = Keeps-refl s.cap_registry
run-Keeps (c ∷ cs) s room v =
    Keeps-trans s.cap_registry (step c s).cap_registry (run cs (step c s)).cap_registry
      (Evolves-Keeps v.registry (omega arith) (step-Evolves c s))
      (run-Keeps cs (step c s) (omega (arith, step-next_cap c s)) (step-Inv c s (omega arith) v))
