-- ===== src/Linux/Clients/Net.antt =====
-- crates/court-hosted-linux/src/net.rs: the client that receives. The clock and the other processes
-- are a schedule: for each poll of the loop, the time it starts at and what the others did before it.
use court_kernel.Prelude.{
  ℕ, ◌+◌, String, none, some, List, [], ◌∷◌, length, ltb, Result, ok, err, lift, pure,
  if◌then◌else◌,
}
use court_kernel.Prelude.Chain.{◌>>=◌, ◌>>◌}
use court_kernel.Hosted.Rights
use court_kernel.Hosted.Types.{Payload}
use court_kernel.Linux.Protocol.{
  WireStatus, WireMessage, EndpointState, from_rights, fresh_endpoint, new_trace, with_path,
  with_len, with_detail,
}
use court_kernel.Linux.ShmRing.{recv}
use court_kernel.Linux.Clients.{
  Text, Others, ClientError, ClientAct, changed, transmit, receive, expect_hello_ack, granted_cap,
  opened_ring, open_ring, on_ring, unexpected, timed_out, unfinished, recv_failed,
}

pub record Poll : Type 0 where
  pub now : ℕ
  pub others : Others

-- The loop. A schedule that ends before the loop does is marked; the clock passes the deadline.
unfoldable pub poll_loop : String → EndpointState → ℕ → List Poll → ClientAct Payload
poll_loop ring endpoint deadline [] c = (err unfinished, c)
poll_loop ring endpoint deadline (poll ∷ polls) c =
    let c0 = record c { files = changed poll.others c.files } in
    let (res, c1) = on_ring ring (recv endpoint) c0 in
    let rest = poll_loop ring endpoint deadline polls c1 in
    if ltb deadline poll.now then (err timed_out, c0) else elim res [
      | err e ↦ (err e, c1)
      | ok (err st) ↦ (err (recv_failed st), c1)
      | ok (ok (some packet)) ↦ (ok packet, c1)
      | ok (ok none) ↦ rest
    ]

-- The message that ends the demo: the reason of the fault.
abbrev pub fault_reason : WireMessage → Result ClientError String
fault_reason (WireMessage.fault reason) = ok reason
fault_reason other = err (unexpected other)

-- five seconds, in milliseconds
abbrev pub timeout : ℕ
timeout = 5000

-- The process ends with the code that comes back.
unfoldable pub run_net : Text → String → ℕ → List Poll → ClientAct ℕ
unfolding expect_hello_ack open_ring poll_loop
run_net text court start polls = do
  transmit (WireMessage.hello court)
  demo ← expect_hello_ack court
  offer ← receive
  wire_cap ← lift (granted_cap demo.path offer)
  transmit (WireMessage.opening demo.path (some wire_cap) (from_rights Rights.recv))
  answer ← receive
  ring ← lift (opened_ring answer)
  open_ring ring.path
  packet ← poll_loop ring.path (fresh_endpoint wire_cap) (start + timeout) polls
  transmit (
      WireMessage.trace (
        with_detail
          (with_len (with_path (new_trace "recv" court WireStatus.ok) demo.path) (length packet))
          (text.from_utf8_lossy packet)))
  last ← receive
  reason ← lift (fault_reason last)
  transmit (
      WireMessage.trace
        (with_detail (with_path (new_trace "fault" court WireStatus.fault) demo.path) reason))
  pure 42
