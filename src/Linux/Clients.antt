-- ===== src/Linux/Clients.antt =====
-- crates/court-hosted-linux/src/app.rs and net.rs: the two client processes. A client receives the
-- messages of its inbox; while it waits for one, other processes change what the rings hold. A ring is
-- known by the path of its file, and a mapping stays when it is open. Sending to the root succeeds.
pub mod App
pub mod Net
pub mod Quiet
pub mod Once
pub mod Packet
pub mod Poll
mod Tests
use court_kernel.Prelude.{
  ℕ, Bool, String, Option, none, some, List, [], ◌∷◌, ◌++◌, ◌==◌, string_Key, Result, ok, err, Exec,
  lift, pure, raise, modify, if◌then◌else◌,
}
use court_kernel.Prelude.Chain.{◌>>=◌, ◌>>◌}
use court_kernel.Hosted.Types.{Payload}
use court_kernel.Linux.Protocol.{
  WireStatus, WireCap, WireRingInfo, WireDemoConfig, WireMessage, WireRights,
}
use court_kernel.Linux.ShmRing.{SharedRing, RingError, validate}

-- `str::as_bytes` and `String::from_utf8_lossy`
pub record Text : Type 0 where
  pub as_bytes : String → Payload
  pub from_utf8_lossy : Payload → String

-- What the rings hold, by path, and what other processes do to them.
abbrev pub Files : Type 0
Files = String → Option SharedRing

abbrev pub Others : Type 0
Others = String → SharedRing → SharedRing

abbrev pub changed : Others → Files → Files
changed others files path = elim (files path) [ none ↦ none | some r ↦ some (others path r) ]

-- A message, with what the others did before it came.
pub record Event : Type 0 where
  pub message : WireMessage
  pub others : Others

pub record Client : Type 0 where
  pub inbox : List Event
  pub outbox : List WireMessage
  pub files : Files

pub data ClientError : Type 0 where
  closed no_file timed_out unfinished : ClientError
  unexpected : WireMessage → ClientError
  bad_ring : RingError → ClientError
  send_failed recv_failed : WireStatus → ClientError

abbrev pub ClientAct : Type 0 → Type 0
ClientAct A = Exec ClientError Client A

-- `peer.send(..)`
unfoldable pub transmit : WireMessage → ClientAct (Unit {0})
transmit message = modify (λ c. record c { outbox = c.outbox ++ message ∷ [] })

abbrev pub arrive : Event → List Event → Client → Client
arrive event rest c = record c { inbox = rest; files = changed event.others c.files }

-- `peer.recv()`
unfoldable pub receive : ClientAct WireMessage
receive c = elim c.inbox [
  | [] ↦ (err closed, c)
  | event ∷ rest ↦ (ok event.message, arrive event rest c)
]

-- `expect_hello_ack`, of both clients
abbrev pub hello_acked : String → WireMessage → Result ClientError WireDemoConfig
hello_acked court (WireMessage.hello_ack WireStatus.ok ack demo) =
    if ack == court
    then ok demo
    else err (unexpected (WireMessage.hello_ack WireStatus.ok ack demo))
hello_acked court other = err (unexpected other)

unfoldable pub expect_hello_ack : String → ClientAct WireDemoConfig
expect_hello_ack court = do message ← receive; lift (hello_acked court message)

-- the grant of a capability for the path of the demo
abbrev pub granted_cap : String → WireMessage → Result ClientError WireCap
granted_cap path (WireMessage.grant at cap_of) =
    if at == path then ok cap_of else err (unexpected (WireMessage.grant at cap_of))
granted_cap path other = err (unexpected other)

-- the answer to an open that succeeds
abbrev pub opened_ring : WireMessage → Result ClientError WireRingInfo
opened_ring (WireMessage.open_result WireStatus.ok cap_of (some ring)) = ok ring
opened_ring other = err (unexpected other)

-- `SharedRing::open`
unfoldable pub open_ring : String → ClientAct (Unit {0})
open_ring path c = elim (c.files path) [
  | none ↦ (err no_file, c)
  | some r ↦ elim (validate r) [ err e ↦ (err (bad_ring e), c) | ok u ↦ (ok u, c) ]
]

-- A call on the ring that is mapped, and its result as a value.
unfoldable pub on_ring :
    {A : Type 0} → String → Exec WireStatus SharedRing A → ClientAct (Result WireStatus A)
on_ring path act c = elim (c.files path) [
  | none ↦ (err no_file, c)
  | some r ↦
      let (res, r') = act r in
      (ok res, record c { files = λ p. if p == path then some r' else c.files p })
]
