-- ===== src/Hosted/Root/Outcome.antt =====
-- crates/court-hosted/src/lib.rs: what each method of `HostedRoot` may do to the state. A call
-- either changes the trace alone, or makes the one change that it is for.
use court_kernel.Prelude.{
  Result-cases, ℕ, ◌<◌, ◌≡◌, refl, ◌⊎◌, inl, inr, true, false, String, Option, some, List, [], ◌∷◌,
  ◌++◌, length, nat_Key, string_Key, leb, get, insert, add, ok, arith, Bool-cases, Option-cases,
}
use court_kernel.Hosted.Rights
use court_kernel.Hosted.Rights.{Rights, covers}
use court_kernel.Hosted.Types.{
  CourtId, CapId, ObjectId, Payload, CkError, ObjectType, invalid_object, queue_full, Descriptor,
  sent, received, corridor, running, Court, CorridorTransport, cap_granted,
}
use court_kernel.Hosted.Caps.{Capability, authorize, delegate, is_type}
use court_kernel.Hosted.Caps.Outcome.{Failed, MayDerive, with_derived, next_id, delegate_outcome}
use court_kernel.Hosted.Caps
use court_kernel.Hosted.Root.{
  Corridor, HostedRoot, require_running_court, cspace_contains, has_peer_down, install_corridor,
  create_corridor, cspace_of, grant_corridor_cap, revoke, lookup, open_cap, endpoint, send,
  pop_front, recv,
}

-- Nothing but the trace differs.
abbrev pub Quiet : HostedRoot → HostedRoot → Type 0
Quiet s t = t ≡ record s { trace = t.trace }

-- Looking a name up hands out data, and no authority.
pub lookup-Quiet :
    (court : CourtId) (path : String) (s : HostedRoot) → Quiet s (lookup court path s).1
unfolding lookup
lookup-Quiet court path s = ground arith

pub open_cap-Quiet :
    (court : CourtId) (d : Descriptor) (id : Option CapId) (rights : Rights) (s : HostedRoot)
    → Quiet s (open_cap court d id rights s).1
unfolding open_cap
open_cap-Quiet court d id rights s = ground arith

-- What a court needs to use a capability: it runs, the capability is in its space, is known, not
-- revoked, covers the right, and its object is a corridor.
pub record MayUse (s : HostedRoot) (court : CourtId) (id : CapId) (right : Rights)
    (object : ObjectId) (c : Corridor) : Type 0 where
  pub court_entry : Court
  pub is_there : get s.courts court ≡ some court_entry
  pub runs : court_entry.state ≡ running
  pub held : cspace_contains s court id ≡ true
  pub cap_entry : Capability
  pub known : get s.cap_registry.caps id ≡ some cap_entry
  pub live : cap_entry.is_revoked ≡ false
  pub allowed : covers cap_entry.rights right ≡ true
  pub names : cap_entry.object ≡ object
  pub connects : get s.corridors object ≡ some c

require_running_court-ok :
    (court : CourtId) (s : HostedRoot)
    → require_running_court court s ≡ ok tt
    → (c : Court) × (get s.courts court ≡ some c) × (c.state ≡ running)
unfolding require_running_court
require_running_court-ok court s h = ground arith

authorize-ok :
    (s : HostedRoot) (id : CapId) (right : Rights) (object : ObjectId)
    → authorize id corridor right s.cap_registry ≡ ok object
    → (k : Capability) × (get s.cap_registry.caps id ≡ some k)
      × (k.is_revoked ≡ false)
      × (covers k.rights right ≡ true)
      × (k.object ≡ object)
unfolding authorize
authorize-ok s id right object h = ground arith

endpoint-ok :
    (s : HostedRoot) (court : CourtId) (id : CapId) (right : Rights) (object : ObjectId)
    (c : Corridor)
    → endpoint court id right s ≡ ok (object, c)
    → (require_running_court court s ≡ ok tt)
      × (cspace_contains s court id ≡ true)
      × (authorize id corridor right s.cap_registry ≡ ok object)
      × (get s.corridors object ≡ some c)
unfolding endpoint
endpoint-ok s court id right object c h = ground arith

pub endpoint-MayUse :
    (s : HostedRoot) (court : CourtId) (id : CapId) (right : Rights) (object : ObjectId)
    (c : Corridor)
    → endpoint court id right s ≡ ok (object, c)
    → MayUse s court id right object c
endpoint-MayUse s court id right object c h =
    let (up, held, may, there) = endpoint-ok s court id right object c h in
    let (court_entry, is_there, runs) = require_running_court-ok court s up in
    let (k, known, live, allowed, names) = authorize-ok s id right object may in
    record {
      court_entry = court_entry;
      is_there = is_there;
      runs = runs;
      held = held;
      cap_entry = k;
      known = known;
      live = live;
      allowed = allowed;
      names = names;
      connects = there;
    }

-- A send that was made: who may send to which corridor, that every peer is up and the queue has
-- room, and the state after it.
pub record IsSent (s : HostedRoot) (court : CourtId) (id : CapId) (payload : Payload)
    (t : HostedRoot) : Type 0 where
  pub object : ObjectId
  pub c : Corridor
  pub may : MayUse s court id Rights.send object c
  pub peers_up : has_peer_down c court s.courts ≡ false
  pub room : length c.queue < c.capacity
  pub after : t ≡ record s {
    corridors = insert s.corridors object (record c { queue = c.queue ++ payload ∷ [] });
    trace = s.trace ++ sent court object (length payload) ∷ [];
  }

-- A send fails, and changes nothing but the trace; or it succeeds, the court may send with the
-- capability, every other endpoint is up and the queue has room, and the change is the payload at
-- the back of the queue of the capability's corridor and one event in the trace.
pub send_outcome :
    (s : HostedRoot) (court : CourtId) (id : CapId) (payload : Payload)
    → let (res, t) = send court id payload s in
      (Failed res × Quiet s t) ⊎ ((res ≡ ok tt) × IsSent s court id payload t)
unfolding send
send_outcome s court id payload = elim (Result-cases (endpoint court id Rights.send s)) [
  | inl (e, h) ↦ rw (h, send) (inl ((e, refl), refl))
  | inr ((object, c), h) ↦ elim (Bool-cases (has_peer_down c court s.courts)) [
    | inl down ↦ rw (h, send, down) (inl ((CkError.peer_down, refl), refl))
    | inr up ↦ elim (Bool-cases (leb c.capacity (length c.queue))) [
      | inl full ↦ rw (h, send, up, full) (inl ((queue_full, refl), refl))
      | inr room ↦
          rw (h, send, up, room)
            (inr (
              refl,
              record {
                object = object;
                c = c;
                may = endpoint-MayUse s court id Rights.send object c h;
                peers_up = up;
                room = ground arith;
                after = refl;
              },
            ))
    ]
  ]
]

-- A payload that was received: it was the oldest in the queue.
pub record IsReceived (s : HostedRoot) (court : CourtId) (id : CapId) (payload : Payload)
    (t : HostedRoot) : Type 0 where
  pub object : ObjectId
  pub c : Corridor
  pub rest : List Payload
  pub may : MayUse s court id Rights.recv object c
  pub oldest : c.queue ≡ payload ∷ rest
  pub after : t ≡ record s {
    corridors = insert s.corridors object (record c { queue = rest });
    trace = s.trace ++ received court object (length payload) ∷ [];
  }

pop_front-ok :
    (q : List Payload) (payload : Payload) (rest : List Payload)
    → pop_front q ≡ ok (payload, rest)
    → q ≡ payload ∷ rest
unfolding pop_front
pop_front-ok q payload rest h = ground arith

-- A receive fails, and changes nothing but the trace; or it succeeds with the payload at the front
-- of the queue of the capability's corridor, the court may receive with the capability, and the
-- change is that this payload is taken out and one event in the trace.
pub recv_outcome :
    (s : HostedRoot) (court : CourtId) (id : CapId)
    → let (res, t) = recv court id s in
      (Failed res × Quiet s t)
      ⊎ ((payload : Payload) × (res ≡ ok payload) × IsReceived s court id payload t)
unfolding recv
recv_outcome s court id = elim (Result-cases (endpoint court id Rights.recv s)) [
  | inl (e, h) ↦ rw (h, recv) (inl ((e, refl), refl))
  | inr ((object, c), h) ↦ elim (Result-cases (pop_front c.queue)) [
    | inl (e, f) ↦ rw (h, recv, f) (inl ((e, refl), refl))
    | inr ((payload, rest), f) ↦
        rw (h, recv, f)
          (inr (
            payload,
            refl,
            record {
              object = object;
              c = c;
              rest = rest;
              may = endpoint-MayUse s court id Rights.recv object c h;
              oldest = pop_front-ok c.queue payload rest f;
              after = refl;
            },
          ))
  ]
]

pub create_corridor_outcome :
    (s : HostedRoot) (path : String) (a b : CourtId) (transport : CorridorTransport) (capacity : ℕ)
    → let (res, t) = create_corridor path a b transport capacity s in
      (Failed res × (t ≡ s))
      ⊎ ((require_running_court a s ≡ ok tt)
          × (require_running_court b s ≡ ok tt)
          × ((res, t) ≡ install_corridor path a b transport capacity s))
unfolding create_corridor
create_corridor_outcome s path a b transport capacity =
    elim (Result-cases (require_running_court a s)) [
      | inl (e, h) ↦ rw (h, create_corridor) (inl ((e, refl), refl))
      | inr (_, h) ↦ elim (Result-cases (require_running_court b s)) [
        | inl (e, g) ↦ rw (h, create_corridor, g) (inl ((e, refl), refl))
        | inr (_, g) ↦ rw (h, create_corridor, g) (inr (refl, refl, refl))
      ]
    ]

-- A grant that was made: a child of the corridor's root capability, put into the court's space.
pub record IsGranted (s : HostedRoot) (court : CourtId) (d : Descriptor) (rights : Rights)
    (t : HostedRoot) : Type 0 where
  pub root_cap : CapId
  pub minted : get s.root_caps d.object ≡ some root_cap
  pub source : Capability
  pub may : MayDerive s.cap_registry root_cap rights source
  pub runs : require_running_court court s ≡ ok tt
  pub derived :
      delegate root_cap rights s.cap_registry
      ≡ (ok (next_id s.cap_registry), with_derived s.cap_registry root_cap rights source)
  pub after : t ≡ record s {
    cap_registry = with_derived s.cap_registry root_cap rights source;
    cspaces = insert s.cspaces court (add (cspace_of s court) (next_id s.cap_registry));
    trace = s.trace ++ cap_granted court (next_id s.cap_registry) d.object rights ∷ [];
  }

pub is_corridor : (t : ObjectType) → is_type t corridor ≡ true
is_corridor corridor = refl

-- A grant fails, and changes nothing; or it succeeds with the next number of the registry, the court
-- runs, the corridor's own capability may be derived from with these rights, and the change is the
-- derived entry, its number in the court's space, and one event in the trace.
pub grant_outcome :
    (s : HostedRoot) (court : CourtId) (d : Descriptor) (rights : Rights)
    → let (res, t) = grant_corridor_cap court d rights s in
      (Failed res × (t ≡ s)) ⊎ ((res ≡ ok (next_id s.cap_registry)) × IsGranted s court d rights t)
unfolding grant_corridor_cap
grant_outcome s court d rights = elim (Result-cases (require_running_court court s)) [
  | inl (e, h) ↦ rw (h, grant_corridor_cap) (inl ((e, refl), refl))
  | inr (_, h) ↦ elim (Option-cases (get s.root_caps d.object)) [
    | inl f ↦
        rw (h, grant_corridor_cap, is_corridor d.object_type, f)
          (inl ((invalid_object, refl), refl))
    | inr (root_cap, f) ↦ elim (delegate_outcome s.cap_registry root_cap rights) [
      | inl ((e, g), same) ↦
          rw (h, grant_corridor_cap, is_corridor d.object_type, f, g, same) (inl ((e, refl), refl))
      | inr (k, may, g) ↦
          rw (h, grant_corridor_cap, is_corridor d.object_type, f, g)
            (inr (
              refl,
              record {
                root_cap = root_cap;
                minted = f;
                source = k;
                may = may;
                runs = h;
                derived = g;
                after = refl;
              },
            ))
    ]
  ]
]

pub revoke_outcome :
    (s : HostedRoot) (id : CapId)
    → let (res, t) = revoke id s in
      (res ≡ (Caps.revoke id s.cap_registry).0)
      × (t ≡ record s { cap_registry = (Caps.revoke id s.cap_registry).1; trace = t.trace })
unfolding revoke
revoke_outcome s id = ground arith
