-- ===== src/Linux/ShmRing/Refine.antt =====
-- crates/court-hosted-linux/src/shm_ring.rs: the ring and its abstract queue, over any sequence of
-- sends and receives by processes whose endpoints may have been revoked or lost their peer.
use court_kernel.Prelude.{
  ℕ, ◌+◌, ◌^◌, ◌≤◌, ◌<◌, ◌≡◌, refl, ap, ◌∙◌, Option, List, [], ◌∷◌, length, Result, ok, arith,
}
use court_kernel.Hosted.Types.{u64_mod, Payload}
use court_kernel.Linux.Protocol.{WireStatus, EndpointState, status}
use court_kernel.Linux.ShmRing.{SharedRing, create, send, recv}
use court_kernel.Linux.ShmRing.Slots.{Holds}
use court_kernel.Linux.ShmRing.Fifo.{queue_send, queue_recv, send-Holds, recv-Holds}

pub data RingCall : Type 0 where
  sends : EndpointState → Payload → RingCall
  receives : EndpointState → RingCall

-- what the caller gets back
pub data Answer : Type 0 where
  sent : Result WireStatus (Unit {0}) → Answer
  received : Result WireStatus (Option Payload) → Answer

unfoldable pub ring_step : RingCall → SharedRing → Answer × SharedRing
ring_step (sends e p) r = let (res, r') = send e p r in (sent res, r')
ring_step (receives e) r = let (res, r') = recv e r in (received res, r')

unfoldable pub queue_step : ℕ → ℕ → RingCall → List Payload → Answer × List Payload
queue_step capacity slot_size (sends e p) q =
    let (res, q') = queue_send capacity slot_size (status e) p q in (sent res, q')
queue_step capacity slot_size (receives e) q =
    let (res, q') = queue_recv (status e) q in (received res, q')

unfoldable pub ring_run : List RingCall → SharedRing → List Answer
ring_run [] r = []
ring_run (c ∷ cs) r = let (a, r') = ring_step c r in a ∷ ring_run cs r'

unfoldable pub queue_run : ℕ → ℕ → List RingCall → List Payload → List Answer
queue_run capacity slot_size [] q = []
queue_run capacity slot_size (c ∷ cs) q =
    let (a, q') = queue_step capacity slot_size c q in a ∷ queue_run capacity slot_size cs q'

-- A call keeps the sizes, and moves the producer by one at most.
abbrev Moves : SharedRing → SharedRing → Type 0
Moves r s = (s.capacity ≡ r.capacity) × (s.slot_size ≡ r.slot_size) × (s.producer ≤ r.producer + 1)

send-Moves :
    (e : EndpointState) (p : Payload) (r : SharedRing)
    → r.producer + 1 < u64_mod
    → Moves r (send e p r).1
unfolding send
send-Moves e p r h = ground arith

recv-Moves : (e : EndpointState) (r : SharedRing) → Moves r (recv e r).1
unfolding recv
recv-Moves e r = ground arith

step-Moves : (c : RingCall) (r : SharedRing) → r.producer + 1 < u64_mod → Moves r (ring_step c r).1
unfolding ring_step
step-Moves (sends e p) r h = send-Moves e p r h
step-Moves (receives e) r h = recv-Moves e r

step-Holds :
    (c : RingCall) (r : SharedRing) (q : List Payload)
    → Holds r q
    → r.producer + 1 < u64_mod
    → let (a, r') = ring_step c r in
      let (b, q') = queue_step r.capacity r.slot_size c q in (a ≡ b) × Holds r' q'
unfolding ring_step queue_step
step-Holds (sends e p) r q h room = let (f, g) = send-Holds e p r q h room in (ap sent f, g)
step-Holds (receives e) r q h room = let (f, g) = recv-Holds e r q h in (ap received f, g)

run-Holds :
    (cs : List RingCall) (r : SharedRing) (q : List Payload)
    → Holds r q
    → r.producer + length cs < u64_mod
    → ring_run cs r ≡ queue_run r.capacity r.slot_size cs q
unfolding ring_run queue_run
run-Holds [] r q h room = refl
run-Holds (c ∷ cs) r q h room =
    let (same, held) = step-Holds c r q h (omega arith) in
    let (cap, size, moved) = step-Moves c r (omega arith) in
    let rest =
      run-Holds cs (ring_step c r).1 (queue_step r.capacity r.slot_size c q).1 held (omega arith) in
    ap (λ a. a ∷ ring_run cs (ring_step c r).1) same
    ∙ ap (λ t. (queue_step r.capacity r.slot_size c q).0 ∷ t)
        (rest
          ∙ ap
              (λ n.
                queue_run n (ring_step c r).1.slot_size cs
                  (queue_step r.capacity r.slot_size c q).1)
              cap
          ∙ ap (λ n. queue_run r.capacity n cs (queue_step r.capacity r.slot_size c q).1) size)

create-ok :
    (capacity slot_size : ℕ) (r : SharedRing)
    → create capacity slot_size ≡ ok r
    → (r.producer ≡ 0) × (r.consumer ≡ 0) × (r.capacity ≡ capacity) × (r.slot_size ≡ slot_size)
unfolding create
create-ok capacity slot_size r e = ground arith

create-Holds :
    (capacity slot_size : ℕ) (r : SharedRing)
    → 0 < capacity
    → capacity < 2 ^ 32
    → slot_size < 2 ^ 32
    → create capacity slot_size ≡ ok r
    → Holds r [] × (r.producer ≡ 0) × (r.capacity ≡ capacity) × (r.slot_size ≡ slot_size)
create-Holds capacity slot_size r a b c e =
    let (start, first, cap, size) = create-ok capacity slot_size r e in
    (
      record {
        nonempty = omega arith;
        small = omega arith;
        fits = omega arith;
        narrow = omega arith;
        counted = omega arith;
        no_wrap = omega arith;
        stored = λ i p h. absurd (ground arith);
      },
      start,
      cap,
      size,
    )

-- For a capacity above 0 and sizes below 2^32: a ring that was created answers every sequence of
-- less than 2^64 sends and receives exactly as a bounded queue of payloads does, whatever the
-- state of the callers' endpoints.
pub ring_refines :
    (capacity slot_size : ℕ) (r : SharedRing) (cs : List RingCall)
    → 0 < capacity
    → capacity < 2 ^ 32
    → slot_size < 2 ^ 32
    → create capacity slot_size ≡ ok r
    → length cs < u64_mod
    → ring_run cs r ≡ queue_run capacity slot_size cs []
ring_refines capacity slot_size r cs a b c e room =
    let (h, start, cap, size) = create-Holds capacity slot_size r a b c e in
    run-Holds cs r [] h (omega arith)
    ∙ ap (λ n. queue_run n r.slot_size cs []) cap
    ∙ ap (λ n. queue_run capacity n cs []) size
