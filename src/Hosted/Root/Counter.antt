-- ===== src/Hosted/Root/Counter.antt =====
-- crates/court-hosted/src/lib.rs: `next_object` moves by one at most, and never back.
use court_kernel.Prelude.{ℕ, ◌+◌, ◌≤◌, ◌<◌, ◌≡◌, refl, ap, inl, inr, String, nat_Key, arith}
use court_kernel.Hosted.Types.{
  CourtId, CapId, ObjectId, Payload, CkResult, CorridorTransport, Descriptor, u64_mod,
}
use court_kernel.Hosted.Rights.{Rights}
use court_kernel.Hosted.Root.{
  HostedRoot, create_court, create_corridor, install_corridor, lookup, open_cap, grant_corridor_cap,
  send, recv, revoke, fault_court,
}
use court_kernel.Hosted.Root.Outcome.{
  lookup-Quiet, open_cap-Quiet, send_outcome, recv_outcome, create_corridor_outcome, grant_outcome,
  revoke_outcome,
}
use court_kernel.Hosted.Root.Run.{
  Call, creates_court, creates_corridor, looks_up, grants, opens, sends, receives, revokes, faults,
  step,
}

abbrev pub counted : HostedRoot → ℕ
counted s = s.next_object

-- How far a call may move the counter of objects.
abbrev pub Counts : HostedRoot → HostedRoot → Type 0
Counts s t = (counted s ≤ counted t) × (counted t ≤ counted s + 1)

same_count : (s t : HostedRoot) → counted t ≡ counted s → Counts s t
same_count s t e = omega arith

create_corridor-Counts :
    (path : String) (a b : CourtId) (transport : CorridorTransport) (capacity : ℕ) (s : HostedRoot)
    → s.next_object + 1 < u64_mod
    → Counts s (create_corridor path a b transport capacity s).1
unfolding install_corridor
create_corridor-Counts path a b transport capacity s room =
    elim (create_corridor_outcome s path a b transport capacity) [
      | inl (_, e) ↦ omega (arith, ap counted e)
      | inr (_, _, e) ↦ omega (arith, ap (λ (p : CkResult ObjectId × HostedRoot). counted p.1) e)
    ]

grant-counted :
    (court : CourtId) (d : Descriptor) (rights : Rights) (s : HostedRoot)
    → counted (grant_corridor_cap court d rights s).1 ≡ counted s
grant-counted court d rights s = elim (grant_outcome s court d rights) [
  | inl (_, e) ↦ ap counted e
  | inr (_, x) ↦ ap counted x.after
]

send-counted :
    (court : CourtId) (id : CapId) (p : Payload) (s : HostedRoot)
    → counted (send court id p s).1 ≡ counted s
send-counted court id p s = elim (send_outcome s court id p) [
  | inl (_, q) ↦ ap counted q
  | inr (_, x) ↦ ap counted x.after
]

recv-counted :
    (court : CourtId) (id : CapId) (s : HostedRoot) → counted (recv court id s).1 ≡ counted s
recv-counted court id s = elim (recv_outcome s court id) [
  | inl (_, q) ↦ ap counted q
  | inr (_, _, x) ↦ ap counted x.after
]

fault-counted : (court : CourtId) (s : HostedRoot) → counted (fault_court court s).1 ≡ counted s
unfolding fault_court
fault-counted court s = ground arith

pub step-Counts : (c : Call) (s : HostedRoot) → s.next_object + 1 < u64_mod → Counts s (step c s)
unfolding step create_court
step-Counts (creates_court name) s room = same_count s (create_court name s).1 refl
step-Counts (creates_corridor path a b transport capacity) s room =
    create_corridor-Counts path a b transport capacity s room
step-Counts (looks_up court path) s room =
    same_count s (lookup court path s).1 (ap counted (lookup-Quiet court path s))
step-Counts (grants court d rights) s room =
    same_count s (grant_corridor_cap court d rights s).1 (grant-counted court d rights s)
step-Counts (opens court d id rights) s room =
    same_count s (open_cap court d id rights s).1 (ap counted (open_cap-Quiet court d id rights s))
step-Counts (sends court id p) s room =
    same_count s (send court id p s).1 (send-counted court id p s)
step-Counts (receives court id) s room = same_count s (recv court id s).1 (recv-counted court id s)
step-Counts (revokes id) s room = same_count s (revoke id s).1 (ap counted (revoke_outcome s id).1)
step-Counts (faults court) s room = same_count s (fault_court court s).1 (fault-counted court s)
