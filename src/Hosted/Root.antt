-- ===== src/Hosted/Root.antt =====
-- crates/court-hosted/src/lib.rs: `Namespace`, `Corridor` and `HostedRoot`. A method on `&mut self`
-- that returns a `CkResult` is an action of `Exec`. The counters wrap at 2^64, as in a release build.
pub mod Outcome
pub mod Inv
pub mod Run
pub mod Revocation
pub mod Counter
pub mod Traffic
pub mod Authority
pub mod Stopped
pub mod Faults
use court_kernel.Prelude.{
  ℕ, ◌+◌, ◌%◌, Bool, true, false, not, ◌&&◌, ◌||◌, String, Option, none, some, List, [], ◌∷◌, ◌++◌,
  length, Table, nat_Key, string_Key, nat_eq, leb, get, insert, contains, add, Result, ok, err,
  Exec, lift, gets, reads, pure, raise, modify, ok_or, guard, ◌>>=◌, ◌>>◌, if◌then◌else◌,
}
use court_kernel.Hosted.Rights
use court_kernel.Hosted.Rights.{Rights}
use court_kernel.Hosted.Types.{
  CourtId, CapId, ObjectId, Payload, CkError, bad_cap, no_right, not_found, invalid_object,
  invalid_state, queue_full, queue_empty, CkResult, ObjectType, corridor, Court, CourtState,
  running, faulted, CorridorTransport, Descriptor, TraceEvent, court_created, corridor_created,
  namespace_lookup, cap_granted, open_denied, opened, sent, received, cap_revoked, court_faulted,
  u64_mod,
}
use court_kernel.Hosted.Caps
use court_kernel.Hosted.Caps.{CapRegistry, is_type, mint_root, delegate, authorize, parent_of}

pub record Corridor : Type 0 where
  pub endpoints : CourtId × CourtId
  pub queue : List Payload
  pub capacity : ℕ

pub record HostedRoot : Type 0 where
  pub next_court : ℕ
  pub next_object : ℕ
  pub courts : Table CourtId Court
  pub cspaces : Table CourtId (List CapId)
  pub cap_registry : CapRegistry
  pub namespace : Table String Descriptor
  pub corridors : Table ObjectId Corridor
  pub root_caps : Table ObjectId CapId
  pub trace : List TraceEvent

abbrev pub new : HostedRoot
new = record {
  next_court = 0;
  next_object = 0;
  courts = [];
  cspaces = [];
  cap_registry = Caps.empty;
  namespace = [];
  corridors = [];
  root_caps = [];
  trace = [];
}

abbrev pub Action : Type 0 → Type 0
Action A = Exec CkError HostedRoot A

abbrev pub push_trace : TraceEvent → Action (Unit {0})
push_trace e = modify λ s. record s { trace = s.trace ++ e ∷ [] }

-- A method of the registry, called on the field.
abbrev pub on_registry : {A : Type 0} → Exec CkError CapRegistry A → Action A
on_registry m s = let (res, r) = m s.cap_registry in (res, record s { cap_registry = r })

unfoldable pub is_running : CourtState → Bool
is_running running = true
is_running faulted = false

unfoldable pub require_running_court : CourtId → HostedRoot → CkResult (Unit {0})
unfolding is_running
require_running_court court s = elim (get s.courts court) [
  | none ↦ err invalid_state
  | some c ↦ if is_running c.state then ok tt else err invalid_state
]

-- `is_none_or(|court| court.state != Running)`
unfoldable pub is_down : Table CourtId Court → CourtId → Bool
unfolding is_running
is_down courts court = elim (get courts court) [ none ↦ true | some c ↦ not (is_running c.state) ]

-- the `filter` and the `any` over the endpoints
unfoldable pub has_peer_down : Corridor → CourtId → Table CourtId Court → Bool
unfolding is_down
has_peer_down c caller courts =
    not (nat_eq c.endpoints.0 caller) && is_down courts c.endpoints.0
    || not (nat_eq c.endpoints.1 caller) && is_down courts c.endpoints.1

unfoldable pub cspace_of : HostedRoot → CourtId → List CapId
cspace_of s court = elim (get s.cspaces court) [ none ↦ [] | some cs ↦ cs ]

unfoldable pub cspace_contains : HostedRoot → CourtId → CapId → Bool
unfolding cspace_of
cspace_contains s court id = contains (cspace_of s court) id

unfoldable pub create_court : String → HostedRoot → CourtId × HostedRoot
create_court name s =
    let court = (s.next_court + 1) % u64_mod in
    (
      court,
      record s {
        next_court = court;
        courts = insert s.courts court (record { id = court; name = name; state = running });
        cspaces = insert s.cspaces court [];
        trace = s.trace ++ court_created court name ∷ [];
      },
    )

abbrev pub corridor_rights : Rights
corridor_rights =
    Rights.union
      (Rights.union (Rights.union (Rights.union Rights.send Rights.recv) Rights.observe)
        Rights.delegate)
      Rights.revoke

-- the writes of `create_corridor`, after its two guards
unfoldable pub install_corridor :
    String → CourtId → CourtId → CorridorTransport → ℕ → Action ObjectId
install_corridor path first second transport capacity s =
    let object = (s.next_object + 1) % u64_mod in
    let (root_cap, registry) = mint_root object corridor corridor_rights s.cap_registry in
    (
      ok object,
      record s {
        next_object = object;
        corridors =
            insert s.corridors object
              (record { endpoints = (first, second); queue = []; capacity = capacity });
        cap_registry = registry;
        root_caps = insert s.root_caps object root_cap;
        namespace = insert s.namespace path (record {
          path = path;
          object = object;
          object_type = corridor;
          transport = transport;
        });
        trace = s.trace ++ corridor_created path object transport ∷ [];
      },
    )

unfoldable pub create_corridor :
    String → CourtId → CourtId → CorridorTransport → ℕ → Action ObjectId
create_corridor path first second transport capacity = do
  reads (require_running_court first)
  reads (require_running_court second)
  install_corridor path first second transport capacity

abbrev pub found : Option Descriptor → Bool
found none = false
found (some d) = true

unfoldable pub lookup : CourtId → String → Action Descriptor
unfolding require_running_court
lookup court path = do
  reads (require_running_court court)
  descriptor ← gets (λ s. get s.namespace path)
  push_trace (namespace_lookup court path (found descriptor))
  lift (ok_or descriptor not_found)

unfoldable pub grant_corridor_cap : CourtId → Descriptor → Rights → Action CapId
unfolding cspace_of
grant_corridor_cap court descriptor rights = do
  reads (require_running_court court)
  lift (guard (is_type descriptor.object_type corridor) invalid_object)
  root_cap ← reads (λ s. ok_or (get s.root_caps descriptor.object) invalid_object)
  id ← on_registry (delegate root_cap rights)
  modify (λ s. record s { cspaces = insert s.cspaces court (add (cspace_of s court) id) })
  push_trace (cap_granted court id descriptor.object rights)
  pure id

-- the three arms of the `match` in `open`
unfoldable pub open_as : CourtId → Descriptor → CapId → Rights → CkResult ObjectId → Action CapId
open_as court descriptor id requested (ok object) =
    if nat_eq object descriptor.object
    then (do push_trace (opened court descriptor.path id requested); pure id)
    else (do push_trace (open_denied court descriptor.path invalid_object); raise invalid_object)
open_as court descriptor id requested (err reason) = do
  push_trace (open_denied court descriptor.path reason)
  raise reason

unfoldable pub open_with : CourtId → Descriptor → Rights → Option CapId → Action CapId
unfolding open_as cspace_contains
open_with court descriptor requested none = do
  push_trace (open_denied court descriptor.path no_right)
  raise no_right
open_with court descriptor requested (some id) = do
  held ← gets (λ s. cspace_contains s court id)
  if held
      then (do
        allowed ← gets (λ s. authorize id descriptor.object_type requested s.cap_registry)
        open_as court descriptor id requested allowed)
      else (do push_trace (open_denied court descriptor.path bad_cap); raise bad_cap)

unfoldable pub open_cap : CourtId → Descriptor → Option CapId → Rights → Action CapId
unfolding require_running_court open_with
open_cap court descriptor id requested = do
  reads (require_running_court court)
  open_with court descriptor requested id

-- what `send` and `recv` check before they touch a queue
unfoldable pub endpoint : CourtId → CapId → Rights → HostedRoot → CkResult (ObjectId × Corridor)
endpoint court id right s = elim (require_running_court court s) [
  | err e ↦ err e
  | ok _ ↦
      if not (cspace_contains s court id)
      then err bad_cap
      else elim (authorize id corridor right s.cap_registry) [
        | err e ↦ err e
        | ok object ↦ elim (get s.corridors object) [
          | none ↦ err invalid_object
          | some c ↦ ok (object, c)
        ]
      ]
]

unfoldable pub send : CourtId → CapId → Payload → Action (Unit {0})
send court id payload = do
  (object, c) ← reads (endpoint court id Rights.send)
  down ← gets (λ s. has_peer_down c court s.courts)
  if down
      then (do push_trace (TraceEvent.peer_down court object); raise CkError.peer_down)
      else if leb c.capacity (length c.queue)
      then raise queue_full
      else (do
        modify (λ s. record s {
          corridors = insert s.corridors object (record c { queue = c.queue ++ payload ∷ [] });
        })
        push_trace (sent court object (length payload)))

-- `queue.pop_front().ok_or(QueueEmpty)`
unfoldable pub pop_front : List Payload → CkResult (Payload × List Payload)
pop_front [] = err queue_empty
pop_front (payload ∷ rest) = ok (payload, rest)

unfoldable pub recv : CourtId → CapId → Action Payload
recv court id = do
  (object, c) ← reads (endpoint court id Rights.recv)
  (payload, rest) ← lift (pop_front c.queue)
  modify (λ s. record s { corridors = insert s.corridors object (record c { queue = rest }) })
  push_trace (received court object (length payload))
  pure payload

unfoldable pub revoke : CapId → Action (Unit {0})
revoke id = do on_registry (Caps.revoke id); push_trace (cap_revoked id)

unfoldable pub fault_court : CourtId → Action (Unit {0})
fault_court court s = elim (get s.courts court) [
  | none ↦ (err invalid_state, s)
  | some c ↦ (
    ok tt,
    record s {
      courts = insert s.courts court (record c { state = faulted });
      trace = s.trace ++ court_faulted court ∷ [];
    },
  )
]

unfoldable pub cap_parent : HostedRoot → CapId → Option CapId
unfolding parent_of
cap_parent s id = parent_of s.cap_registry id
