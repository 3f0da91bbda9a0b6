-- ===== src/Linux/Protocol.antt =====
-- crates/court-hosted-linux/src/protocol.rs: the plain data that crosses the control socket.
use court_kernel.Prelude.{
  ℕ, Bool, true, false, not, String, Option, none, some, bit_and, nat_eq, if◌then◌else◌,
}
use court_kernel.Hosted.Rights
use court_kernel.Hosted.Rights.{Rights}
use court_kernel.Hosted.Types.{CkError, ObjectType, CorridorTransport, Descriptor}

pub data WireStatus : Type 0 where
  ok bad_cap no_right revoked not_found invalid_object invalid_state peer_down : WireStatus
  queue_full queue_empty timeout fault : WireStatus

-- `From<CkError>`
unfoldable pub wire_status : CkError → WireStatus
wire_status CkError.bad_cap = WireStatus.bad_cap
wire_status CkError.no_right = WireStatus.no_right
wire_status CkError.revoked = WireStatus.revoked
wire_status CkError.not_found = WireStatus.not_found
wire_status CkError.invalid_object = WireStatus.invalid_object
wire_status CkError.invalid_state = WireStatus.invalid_state
wire_status CkError.peer_down = WireStatus.peer_down
wire_status CkError.queue_full = WireStatus.queue_full
wire_status CkError.queue_empty = WireStatus.queue_empty

pub record WireRights : Type 0 where
  pub bits : ℕ

abbrev pub from_rights : Rights → WireRights
from_rights rights = record { bits = rights }

-- one `if` of `to_rights`
abbrev pub add_if : WireRights → Rights → Rights → Rights
add_if self right rights =
    if not (nat_eq (bit_and self.bits right) 0) then Rights.union rights right else rights

unfoldable pub to_rights : WireRights → Rights
to_rights self = add_if self Rights.observe (
    add_if self Rights.revoke (
      add_if self Rights.delegate (
        add_if self Rights.recv (
          add_if self Rights.send
            (add_if self Rights.write (add_if self Rights.read Rights.none))))))

pub record WireCap : Type 0 where
  pub id : ℕ
  pub rights : WireRights

pub record EndpointState : Type 0 where
  pub cap : WireCap
  pub is_revoked : Bool
  pub is_peer_down : Bool

abbrev pub fresh_endpoint : WireCap → EndpointState
fresh_endpoint cap = record { cap = cap; is_revoked = false; is_peer_down = false }

abbrev pub mark_revoked : EndpointState → EndpointState
mark_revoked e = record e { is_revoked = true }

abbrev pub mark_peer_down : EndpointState → EndpointState
mark_peer_down e = record e { is_peer_down = true }

unfoldable pub status : EndpointState → WireStatus
status e =
    if e.is_peer_down
    then WireStatus.peer_down
    else if e.is_revoked
    then WireStatus.revoked
    else WireStatus.ok

pub data WireObjectType : Type 0 where
  corridor : WireObjectType

abbrev pub wire_object_type : ObjectType → WireObjectType
wire_object_type ObjectType.corridor = corridor

pub data WireTransport : Type 0 where
  control_channel shared_ring : WireTransport

abbrev pub wire_transport : CorridorTransport → WireTransport
wire_transport CorridorTransport.control_channel = control_channel
wire_transport CorridorTransport.shared_ring = shared_ring

pub record WireDescriptor : Type 0 where
  pub path : String
  pub object : ℕ
  pub object_type : WireObjectType
  pub transport : WireTransport

abbrev pub from_descriptor : Descriptor → WireDescriptor
from_descriptor value = record {
  path = value.path;
  object = value.object;
  object_type = wire_object_type value.object_type;
  transport = wire_transport value.transport;
}

pub record WireRingInfo : Type 0 where
  pub path : String
  pub capacity : ℕ
  pub slot_size : ℕ

pub record WireDemoConfig : Type 0 where
  pub path : String
  pub packet_payload : String

pub record WireTrace : Type 0 where
  pub event : String
  pub court : String
  pub path : Option String
  pub status : WireStatus
  pub len : Option ℕ
  pub detail : Option String

abbrev pub new_trace : String → String → WireStatus → WireTrace
new_trace event court st = record {
  event = event;
  court = court;
  path = none;
  status = st;
  len = none;
  detail = none;
}

abbrev pub with_path : WireTrace → String → WireTrace
with_path self path = record self { path = some path }

abbrev pub with_len : WireTrace → ℕ → WireTrace
with_len self len = record self { len = some len }

abbrev pub with_detail : WireTrace → String → WireTrace
with_detail self detail = record self { detail = some detail }

pub data WireMessage : Type 0 where
  hello : String → WireMessage
  hello_ack : WireStatus → String → WireDemoConfig → WireMessage
  lookup : String → WireMessage
  lookup_result : WireStatus → Option WireDescriptor → WireMessage
  opening : String → Option WireCap → WireRights → WireMessage
  open_result : WireStatus → Option WireCap → Option WireRingInfo → WireMessage
  grant : String → WireCap → WireMessage
  revoke : WireCap → WireMessage
  peer_down : String → WireMessage
  trace : WireTrace → WireMessage
  demo_done : String → WireStatus → WireMessage
  fault : String → WireMessage
