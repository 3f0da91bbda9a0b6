-- ===== src/Linux/Clients/App.antt =====
-- crates/court-hosted-linux/src/app.rs: the client that sends.
use court_kernel.Prelude.{
  String, Option, none, some, List, [], ◌∷◌, length, ◌==◌, string_Key, nat_eq, Result, ok, err,
  lift, pure, raise, if◌then◌else◌,
}
use court_kernel.Prelude.Chain.{◌>>=◌, ◌>>◌}
use court_kernel.Hosted.Rights
use court_kernel.Hosted.Types.{Payload}
use court_kernel.Linux.Protocol.{
  WireStatus, WireCap, WireDemoConfig, WireDescriptor, WireMessage, EndpointState, from_rights,
  fresh_endpoint, mark_revoked, mark_peer_down, status, new_trace, with_path, with_len,
}
use court_kernel.Linux.ShmRing.{send}
use court_kernel.Linux.Clients.{
  Text, Event, ClientError, ClientAct, transmit, arrive, receive, expect_hello_ack, granted_cap,
  opened_ring, open_ring, on_ring, unexpected, closed, send_failed,
}

abbrev pub looked_up : WireMessage → Result ClientError WireDescriptor
looked_up (WireMessage.lookup_result WireStatus.ok (some descriptor)) = ok descriptor
looked_up other = err (unexpected other)

abbrev pub denied : WireMessage → Result ClientError (Unit {0})
denied (WireMessage.open_result WireStatus.no_right cap_of ring) = ok tt
denied other = err (unexpected other)

-- `b"after-revoke"`
abbrev pub late_payload : Payload
late_payload = 97 ∷ 102 ∷ 116 ∷ 101 ∷ 114 ∷ 45 ∷ 114 ∷ 101 ∷ 118 ∷ 111 ∷ 107 ∷ 101 ∷ []

abbrev pub status_of : Result WireStatus (Unit {0}) → WireStatus
status_of (ok u) = WireStatus.ok
status_of (err s) = s

-- What the client knows when it enters its loop.
pub record Session : Type 0 where
  pub court : String
  pub path : String
  pub ring : String
  pub wire_cap : WireCap

unfoldable pub on_revoke : Session → EndpointState → ClientAct (Option EndpointState)
on_revoke s endpoint = do
  sent ← on_ring s.ring (send (mark_revoked endpoint) late_payload)
  transmit (
      WireMessage.trace (with_path (new_trace "send_after_revoke" s.court (status_of sent)) s.path))
  pure (some (mark_revoked endpoint))

unfoldable pub on_peer_down : Session → EndpointState → ClientAct (Option EndpointState)
on_peer_down s endpoint = do
  transmit (
      WireMessage.trace
        (with_path (new_trace "peer_down" s.court (status (mark_peer_down endpoint))) s.path))
  transmit (WireMessage.demo_done s.court WireStatus.ok)
  pure none

-- One round of the loop: the endpoint for the next, or none to return.
unfoldable pub on_message : Session → EndpointState → WireMessage → ClientAct (Option EndpointState)
unfolding on_revoke on_peer_down
on_message s endpoint (WireMessage.revoke revoked) =
    if nat_eq revoked.id s.wire_cap.id
    then on_revoke s endpoint
    else raise (unexpected (WireMessage.revoke revoked))
on_message s endpoint (WireMessage.peer_down path) =
    if path == s.path
    then on_peer_down s endpoint
    else raise (unexpected (WireMessage.peer_down path))
on_message s endpoint other = raise (unexpected other)

-- The loop, by the messages that are left.
unfoldable pub app_loop : Session → List Event → EndpointState → ClientAct (Unit {0})
unfolding on_message
app_loop s [] endpoint c = (err closed, c)
app_loop s (event ∷ rest) endpoint c =
    let (res, c') = on_message s endpoint event.message (arrive event rest c) in
    elim res [
      | err e ↦ (err e, c')
      | ok none ↦ (ok tt, c')
      | ok (some next) ↦ app_loop s rest next c'
    ]

-- `map_err` on the send
abbrev pub sent_ok : Result WireStatus (Unit {0}) → Result ClientError (Unit {0})
sent_ok (ok u) = ok u
sent_ok (err st) = err (send_failed st)

unfoldable pub send_packet : Session → EndpointState → Payload → ClientAct (Unit {0})
send_packet s endpoint payload = do
  sent ← on_ring s.ring (send endpoint payload)
  lift (sent_ok sent)
  transmit (
      WireMessage.trace
        (with_len (with_path (new_trace "send" s.court WireStatus.ok) s.path) (length payload)))

-- up to the open of the ring
unfoldable pub join_demo : String → ClientAct (Session × WireDemoConfig)
unfolding expect_hello_ack open_ring
join_demo court = do
  transmit (WireMessage.hello court)
  demo ← expect_hello_ack court
  transmit (WireMessage.lookup demo.path)
  answer ← receive
  descriptor ← lift (looked_up answer)
  transmit (WireMessage.opening descriptor.path none (from_rights Rights.send))
  first ← receive
  lift (denied first)
  offer ← receive
  wire_cap ← lift (granted_cap demo.path offer)
  transmit (WireMessage.opening descriptor.path (some wire_cap) (from_rights Rights.send))
  second ← receive
  ring ← lift (opened_ring second)
  open_ring ring.path
  pure (record { court = court; path = demo.path; ring = ring.path; wire_cap = wire_cap }, demo)

unfoldable pub run_app : Text → String → ClientAct (Unit {0})
unfolding join_demo send_packet app_loop
run_app text court = do
  (s, demo) ← join_demo court
  send_packet s (fresh_endpoint s.wire_cap) (text.as_bytes demo.packet_payload)
  (λ c. app_loop s c.inbox (fresh_endpoint s.wire_cap) c)
