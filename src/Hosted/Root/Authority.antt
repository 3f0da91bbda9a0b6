-- ===== src/Hosted/Root/Authority.antt =====
-- crates/court-hosted/src/lib.rs: where authority comes from, and how far it goes.
use court_kernel.Prelude.{
  ℕ, ◌≡◌, refl, ap, ◌⊎◌, inl, inr, ◌≢◌, true, false, String, some, List, [], nat_Key, Table, ◌+◌,
  ◌%◌, ◌∙◌, insert, get, add, contains, ok, err, arith, Option-cases, Result-cases, Bool-cases,
  length, leb, ◌∷◌,
}
use court_kernel.Hosted.Rights
use court_kernel.Hosted.Rights.{Rights, covers, covers_refl, covers_trans}
use court_kernel.Hosted.Types.{
  CourtId, CapId, Descriptor, invalid_object, u64_mod, CorridorTransport, Payload,
}
use court_kernel.Hosted.Caps.{Capability, authorize}
use court_kernel.Hosted.Caps.Outcome.{Failed, next_id}
use court_kernel.Hosted.Caps.Revoke.{Descends, itself, child}
use court_kernel.Hosted.Root.{
  HostedRoot, corridor_rights, cspace_of, cspace_contains, require_running_court, create_court,
  install_corridor, grant_corridor_cap, endpoint, fault_court, send, recv, new, has_peer_down,
  pop_front,
}
use court_kernel.Hosted.Root.Outcome.{
  lookup-Quiet, open_cap-Quiet, send_outcome, recv_outcome, create_corridor_outcome, grant_outcome,
  revoke_outcome, is_corridor,
}
use court_kernel.Hosted.Root.Inv.{Inv, new-Inv, cspace_put, cspace_grant}
use court_kernel.Hosted.Root.Run.{
  Call, creates_court, creates_corridor, looks_up, grants, opens, sends, receives, revokes, faults,
  step, run, HasRoomFor, run-Inv,
}

-- In a well-formed state rights only shrink along the tree, and the object stays.
Descends-attenuates :
    (s : HostedRoot) (a c : CapId) (k : Capability)
    → Inv s
    → get s.cap_registry.caps a ≡ some k
    → Descends s.cap_registry.caps a c
    → (j : Capability) × (get s.cap_registry.caps c ≡ some j)
      × (covers k.rights j.rights ≡ true)
      × (j.object ≡ k.object)
Descends-attenuates s a c k v e (itself p) = (k, rw p at e, covers_refl k.rights, refl)
Descends-attenuates s a c k v e (child {p = p} j f h d) =
    let (i, g, cov, obj) = Descends-attenuates s a p k v e d in
    let x = v.registry.derived c j p f h in
    (
      j,
      f,
      covers_trans k.rights i.rights j.rights cov (ground (arith, x.found, x.attenuated)),
      ground (arith, x.found, x.same_object),
    )

-- After any calls from the new state on, as many as there are numbers for, whoever makes them: what descends from a
-- known capability is known, its rights are among those of the capability, and it names the same object.
pub run_attenuates :
    (cs : List Call) (a c : CapId) (k : Capability)
    → HasRoomFor cs new
    → let caps = (run cs new).cap_registry.caps in
      get caps a ≡ some k
      → Descends caps a c
      → (j : Capability) × (get caps c ≡ some j)
        × (covers k.rights j.rights ≡ true)
        × (j.object ≡ k.object)
run_attenuates cs a c k room known below =
    Descends-attenuates (run cs new) a c k (run-Inv cs new room new-Inv) known below

-- In a well-formed state, a grant that asks for rights which are not among those that every
-- corridor is made with is refused and changes nothing.
pub grant_ceiling :
    (s : HostedRoot) (court : CourtId) (d : Descriptor) (rights : Rights)
    → Inv s
    → covers corridor_rights rights ≡ false
    → Failed (grant_corridor_cap court d rights s).0 × ((grant_corridor_cap court d rights s).1 ≡ s)
grant_ceiling s court d rights v h = elim (grant_outcome s court d rights) [
  | inl refused ↦ refused
  | inr (_, x) ↦ absurd (
      ground (
        arith,
        covers_trans corridor_rights x.source.rights rights
            (v.ceiling x.root_cap x.source x.may.found) x.may.within,
      ))
]

-- What a call may add to a court's space: the capability that it was granted.
abbrev pub IsGrantTo : CourtId → CapId → Call → HostedRoot → Type 0
IsGrantTo court id c s =
    (d : Descriptor) × (rights : Rights) × (c ≡ grants court d rights)
    × ((grant_corridor_cap court d rights s).0 ≡ ok id)

abbrev spaces : HostedRoot → Table CourtId (List CapId)
spaces s = s.cspaces

same_spaces :
    (s t : HostedRoot) (court : CourtId) (id : CapId)
    → t.cspaces ≡ s.cspaces
    → cspace_contains t court id ≡ true
    → cspace_contains s court id ≡ true
unfolding cspace_contains cspace_of
same_spaces s t court id e h = ground arith

create_court_spaces :
    (name : String) (s : HostedRoot) (court : CourtId) (id : CapId)
    → cspace_contains (create_court name s).1 court id ≡ true
    → cspace_contains s court id ≡ true
unfolding create_court cspace_contains contains
create_court_spaces name s court id h =
    ground (arith, cspace_put s ((s.next_court + 1) % u64_mod) court [] id)

install_spaces :
    (path : String) (a b : CourtId) (transport : CorridorTransport) (capacity : ℕ) (s : HostedRoot)
    → (install_corridor path a b transport capacity s).1.cspaces ≡ s.cspaces
unfolding install_corridor
install_spaces path a b transport capacity s = refl

fault_court_spaces :
    (court : CourtId) (s : HostedRoot) → (fault_court court s).1.cspaces ≡ s.cspaces
unfolding fault_court
fault_court_spaces court s = ground arith

-- If a court holds a capability after a call, it held it before the call, or the call was a grant to
-- this court that returned this capability.
pub step_authority :
    (c : Call) (s : HostedRoot) (court : CourtId) (id : CapId)
    → cspace_contains (step c s) court id ≡ true
    → (cspace_contains s court id ≡ true) ⊎ IsGrantTo court id c s
unfolding step
step_authority (creates_court name) s court id h = inl (create_court_spaces name s court id h)
step_authority (creates_corridor path a b transport capacity) s court id h =
    elim (create_corridor_outcome s path a b transport capacity) [
      | inl (_, e) ↦ inl (same_spaces s _ court id (ap spaces e) h)
      | inr (_, _, e) ↦ inl (
          same_spaces s _ court id
            (ap (λ p. spaces p.1) e ∙ install_spaces path a b transport capacity s) h)
    ]
step_authority (looks_up c path) s court id h =
    inl (same_spaces s _ court id (ap spaces (lookup-Quiet c path s)) h)
step_authority (grants c d rights) s court id h = elim (grant_outcome s c d rights) [
  | inl (_, e) ↦ inl (same_spaces s _ court id (ap spaces e) h)
  | inr (done, x) ↦
      let n : CapId = next_id s.cap_registry in
      let u : HostedRoot = record s { cspaces = insert s.cspaces c (add (cspace_of s c) n) } in
      elim (cspace_grant s c court n id (same_spaces u _ court id (ap spaces x.after) h)) [
        | inl (at, new) ↦ inr (d, rights, ap (λ k. grants k d rights) at, rw (← at, ← new) done)
        | inr old ↦ inl old
      ]
]
step_authority (opens c d i rights) s court id h =
    inl (same_spaces s _ court id (ap spaces (open_cap-Quiet c d i rights s)) h)
step_authority (sends c i payload) s court id h = elim (send_outcome s c i payload) [
  | inl (_, q) ↦ inl (same_spaces s _ court id (ap spaces q) h)
  | inr (_, x) ↦ inl (same_spaces s _ court id (ap spaces x.after) h)
]
step_authority (receives c i) s court id h = elim (recv_outcome s c i) [
  | inl (_, q) ↦ inl (same_spaces s _ court id (ap spaces q) h)
  | inr (_, _, x) ↦ inl (same_spaces s _ court id (ap spaces x.after) h)
]
step_authority (revokes i) s court id h =
    inl (same_spaces s _ court id (ap spaces (revoke_outcome s i).1) h)
step_authority (faults c) s court id h = inl (same_spaces s _ court id (fault_court_spaces c s) h)

not_invalid_object :
    (court : CourtId) (s : HostedRoot) → require_running_court court s ≢ err invalid_object
unfolding require_running_court
not_invalid_object court s h = ground arith

endpoint_typed :
    (s : HostedRoot) (court : CourtId) (id : CapId) (right : Rights)
    → Inv s
    → endpoint court id right s ≢ err invalid_object
unfolding endpoint authorize
endpoint_typed s court id right v h = elim (Option-cases (get s.cap_registry.caps id)) [
  | inl e ↦ ground (arith, e, not_invalid_object court s)
  | inr (k, e) ↦
      let (c, f) = v.typed id k e in
      ground (arith, e, f, is_corridor k.object_type, not_invalid_object court s)
]

pop_front_typed : (q : List Payload) → pop_front q ≢ err invalid_object
unfolding pop_front
pop_front_typed [] h = ground (arith, h)
pop_front_typed (p ∷ q) h = ground (arith, h)

send_typed :
    (s : HostedRoot) (court : CourtId) (id : CapId) (payload : Payload)
    → Inv s
    → (send court id payload s).0 ≢ err invalid_object
unfolding send
send_typed s court id payload v = elim (Result-cases (endpoint court id Rights.send s)) [
  | inl (e, h) ↦ rw (h, send) (λ bad. endpoint_typed s court id Rights.send v (h ∙ ap err (cc bad)))
  | inr ((object, c), h) ↦ elim (Bool-cases (has_peer_down c court s.courts)) [
    | inl down ↦ rw (h, down, send) (λ bad. ground (arith, bad))
    | inr up ↦ elim (Bool-cases (leb c.capacity (length c.queue))) [
      | inl full ↦ rw (h, up, full, send) (λ bad. ground (arith, bad))
      | inr room ↦ rw (h, up, room, send) (λ bad. ground (arith, bad))
    ]
  ]
]

recv_typed :
    (s : HostedRoot) (court : CourtId) (id : CapId)
    → Inv s
    → (recv court id s).0 ≢ err invalid_object
unfolding recv
recv_typed s court id v = elim (Result-cases (endpoint court id Rights.recv s)) [
  | inl (e, h) ↦ rw (h, recv) (λ bad. endpoint_typed s court id Rights.recv v (h ∙ ap err (cc bad)))
  | inr ((object, c), h) ↦ elim (Result-cases (pop_front c.queue)) [
    | inl (e, g) ↦ rw (h, g, recv) (λ bad. pop_front_typed c.queue (g ∙ ap err (cc bad)))
    | inr (x, g) ↦ rw (h, g, recv) (λ bad. ground (arith, bad))
  ]
]

-- After any calls from the new state on, as many as there are numbers for, whoever makes them: no send and no receive,
-- by whatever court and with whatever capability, fails as an invalid object.
pub run_typed :
    (cs : List Call) (court : CourtId) (id : CapId) (payload : Payload)
    → HasRoomFor cs new
    → let s = run cs new in
      ((send court id payload s).0 ≢ err invalid_object)
      × ((recv court id s).0 ≢ err invalid_object)
run_typed cs court id payload room =
    let v = run-Inv cs new room new-Inv in
    (send_typed (run cs new) court id payload v, recv_typed (run cs new) court id v)
