-- ===== src/Linux/Clients/Tests.antt =====
-- crates/court-hosted-linux/src/app.rs and net.rs: the two clients over a small ring.
use court_kernel.Prelude.{
  ◌<◌, ◌≤◌, ◌≡◌, refl, subst, String, none, some, List, [], ◌∷◌, Memᴰ, ok, err, arith, load, store,
  to_le, from_le,
}
use court_kernel.Prelude.Chain.{◌>>=◌, ◌>>◌}
use court_kernel.Hosted.Types.{Payload}
use court_kernel.Linux.Protocol.{
  WireStatus, WireCap, WireMessage, corridor, shared_ring, fresh_endpoint, status,
}
use court_kernel.Linux.ShmRing
use court_kernel.Linux.ShmRing.{SharedRing, send, recv, write_slot}
use court_kernel.Linux.ShmRing.Slots.{Holds}
use court_kernel.Linux.ShmRing.Fifo.{send-Holds, queue_send}
use court_kernel.Linux.Clients.{Text, Event, Others, Client, transmit, receive, on_ring, timed_out}
use court_kernel.Linux.Clients.App.{Session, app_loop, run_app}
use court_kernel.Linux.Clients.Net.{Poll, poll_loop, run_net}
use court_kernel.Linux.Clients.Once.{Answers, app_loop_lem}
use court_kernel.Linux.Clients.Packet.{AtMostOnce, run_app_lem}
use court_kernel.Linux.Clients.Poll.{IsEmpty, Fills, Idles, poll_loop_lem}

abbrev ring : SharedRing
ring = record {
  magic = 0x434b_5247;
  version = 1;
  capacity = 2;
  slot_size = 16;
  producer = 0;
  consumer = 0;
  bytes = λ _. 0;
  len = 72;
}

abbrev wired : WireCap
wired = record { id = 7; rights = record { bits = 4 } }

abbrev idle : Others
idle path r = r

-- the court at the other end takes what is there
abbrev drain : Others
drain path r = (recv (fresh_endpoint wired) r).1

abbrev feed : Others
feed path r = (send (fresh_endpoint wired) (112 ∷ 107 ∷ []) r).1

abbrev path : String
path = "/court/net/packet/rx"

abbrev ring_path : String
ring_path = "/run/rx.ring"

abbrev event : WireMessage → Others → Event
event m others = record { message = m; others = others }

abbrev script : List Event
script =
    event
      (WireMessage.hello_ack WireStatus.ok "app" (record { path = path; packet_payload = "pk" }))
      idle
    ∷ event
        (WireMessage.lookup_result WireStatus.ok (
          some
            (record { path = path; object = 3; object_type = corridor; transport = shared_ring })))
        idle
    ∷ event (WireMessage.open_result WireStatus.no_right none none) idle
    ∷ event (WireMessage.grant path wired) idle
    ∷ event
        (WireMessage.open_result WireStatus.ok (some wired)
          (some (record { path = ring_path; capacity = 2; slot_size = 16 })))
        idle
    ∷ event (WireMessage.revoke wired) drain
    ∷ event (WireMessage.peer_down path) idle
    ∷ []

abbrev start : Client
start = record { inbox = script; outbox = []; files = λ p. some ring }

abbrev text : Text
text = record { as_bytes = λ s. 112 ∷ 107 ∷ []; from_utf8_lossy = λ b. "pk" }

finished : (run_app text "app" start).0 ≡ ok tt
unfolding run_app send recv write_slot store load to_le from_le ShmRing.validate ShmRing.total_len
    transmit receive on_ring ◌>>=◌ ◌>>◌
finished = refl

run_app_lem_example : AtMostOnce start (run_app text "app" start).1
run_app_lem_example = run_app_lem text "app" start

abbrev session : Session
session = record { court = "app"; path = path; ring = ring_path; wire_cap = wired }

abbrev last_events : List Event
last_events = event (WireMessage.revoke wired) drain ∷ event (WireMessage.peer_down path) idle ∷ []

abbrev in_loop : Client
in_loop = record { inbox = last_events; outbox = []; files = λ p. some ring }

app_loop_lem_example :
    Answers session in_loop (app_loop session last_events (fresh_endpoint wired) in_loop)
app_loop_lem_example = app_loop_lem session last_events (fresh_endpoint wired) in_loop refl refl

ring-IsEmpty : IsEmpty 2 16 0 ring
ring-IsEmpty = (
  record {
    nonempty = omega arith;
    small = omega arith;
    fits = omega arith;
    narrow = omega arith;
    counted = refl;
    no_wrap = omega arith;
    stored = λ i p bad. absurd (ground (arith, bad));
  },
  refl,
  refl,
  refl,
)

abbrev first_poll : Poll
first_poll = record { now = 10; others = idle }

abbrev second_poll : Poll
second_poll = record { now = 20; others = feed }

queued :
    (r : SharedRing)
    → IsEmpty 2 16 0 r
    → (queue_send r.capacity r.slot_size (status (fresh_endpoint wired)) (112 ∷ 107 ∷ []) []).1
      ≡ (112 ∷ 107 ∷ []) ∷ []
unfolding queue_send status
queued r (h, a, b, c) = rw (a, b) refl

feed-Fills : Fills ring_path wired 5000 2 16 0 second_poll ((112 ∷ 107 ∷ []) ∷ [])
feed-Fills r e =
    let (h, a, b, c) = e in
    let x = send-Holds (fresh_endpoint wired) (112 ∷ 107 ∷ []) r [] h (omega arith) in
    subst (Holds (feed ring_path r)) (queued r e) x.1

idle-Idles : (poll : Poll) → Memᴰ poll (first_poll ∷ []) → Idles ring_path wired 5000 2 16 0 poll
idle-Idles poll (Memᴰ.head e) = rw e (omega arith, λ r h. h)
idle-Idles poll (Memᴰ.tail m) = elim m [ ]

poll_loop_lem_example :
    let res =
      (poll_loop ring_path (fresh_endpoint wired) 5000 (first_poll ∷ second_poll ∷ []) start).0 in
    (5000 < 20 → res ≡ err timed_out)
    × ((p : Payload) (more : List Payload)
        → 20 ≤ 5000
        → Fills ring_path wired 5000 2 16 0 second_poll (p ∷ more)
        → res ≡ ok p)
poll_loop_lem_example =
    poll_loop_lem ring_path wired 5000 2 16 0 (first_poll ∷ []) second_poll [] start ring refl
      ring-IsEmpty idle-Idles

-- the payload that comes in time
polled_in_time :
    (poll_loop ring_path (fresh_endpoint wired) 5000 (first_poll ∷ second_poll ∷ []) start).0
    ≡ ok (112 ∷ 107 ∷ [])
polled_in_time =
    (poll_loop_lem ring_path wired 5000 2 16 0 (first_poll ∷ []) second_poll [] start ring refl
        ring-IsEmpty idle-Idles).1
      _ [] (omega arith) feed-Fills

-- the receiving client, to its exit code
abbrev net_script : List Event
net_script =
    event
      (WireMessage.hello_ack WireStatus.ok "net" (record { path = path; packet_payload = "pk" }))
      idle
    ∷ event (WireMessage.grant path wired) idle
    ∷ event
        (WireMessage.open_result WireStatus.ok (some wired)
          (some (record { path = ring_path; capacity = 2; slot_size = 16 })))
        idle
    ∷ event (WireMessage.fault "demo") idle
    ∷ []

net_finished :
    (run_net text "net" 0 (first_poll ∷ second_poll ∷ []) (record start { inbox = net_script })).0
    ≡ ok 42
unfolding run_net send recv write_slot store load to_le from_le ShmRing.validate ShmRing.total_len
    transmit receive on_ring ◌>>=◌ ◌>>◌
net_finished = refl
