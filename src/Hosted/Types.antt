-- ===== src/Hosted/Types.antt =====
-- crates/court-hosted/src/lib.rs: identifiers, errors and the plain data of the model.
-- `CourtId(u64)`, `CapId(u64)`, and `ObjectId(u64)` are their numbers. A path and a
-- court's name are `String`, a payload is the list of its bytes.
use court_kernel.Prelude.{ℕ, ◌^◌, String, Bool, List, Result}
use court_kernel.Hosted.Rights.{Rights}

abbrev pub u64_mod : ℕ
u64_mod = 2 ^ 64

abbrev pub CourtId : Type 0
CourtId = ℕ

abbrev pub CapId : Type 0
CapId = ℕ

abbrev pub ObjectId : Type 0
ObjectId = ℕ

abbrev pub Payload : Type 0
Payload = List ℕ

pub data CkError : Type 0 where
  bad_cap no_right revoked not_found invalid_object invalid_state peer_down : CkError
  queue_full queue_empty : CkError

abbrev pub CkResult : Type 0 → Type 0
CkResult A = Result CkError A

pub data ObjectType : Type 0 where
  corridor : ObjectType

pub data CourtState : Type 0 where
  running faulted : CourtState

pub record Court : Type 0 where
  pub id : CourtId
  pub name : String
  pub state : CourtState

pub data CorridorTransport : Type 0 where
  control_channel shared_ring : CorridorTransport

pub record Descriptor : Type 0 where
  pub path : String
  pub object : ObjectId
  pub object_type : ObjectType
  pub transport : CorridorTransport

pub data TraceEvent : Type 0 where
  court_created : CourtId → String → TraceEvent
  corridor_created : String → ObjectId → CorridorTransport → TraceEvent
  namespace_lookup : CourtId → String → Bool → TraceEvent
  cap_granted : CourtId → CapId → ObjectId → Rights → TraceEvent
  open_denied : CourtId → String → CkError → TraceEvent
  opened : CourtId → String → CapId → Rights → TraceEvent
  sent : CourtId → ObjectId → ℕ → TraceEvent
  received : CourtId → ObjectId → ℕ → TraceEvent
  cap_revoked : CapId → TraceEvent
  court_faulted : CourtId → TraceEvent
  peer_down : CourtId → ObjectId → TraceEvent
