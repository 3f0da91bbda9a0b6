-- ===== src/Linux/ShmRing/Fifo.antt =====
-- crates/court-hosted-linux/src/shm_ring.rs: the ring is a bounded queue of payloads. The counters
-- and the bytes of the slots are what is concrete; the abstract queue is a list.
use court_kernel.Prelude.{
  Result-cases, ℕ, suc, ◌+◌, ◌%◌, ◌^◌, ◌≤◌, ◌<◌, ◌≡◌, ◌≢◌, refl, sym, ap, ◌∙◌, inl, inr, true,
  false, Option, none, some, List, [], ◌∷◌, ◌++◌, length, length-append, get_elem?, nat_eq, ltb,
  leb, load, from_le, from_le-to_le, ring_distinct, Result, ok, err, arith, if◌then◌else◌,
  Bool-cases,
}
use court_kernel.Hosted.Types.{u64_mod, Payload}
use court_kernel.Linux.Protocol.{WireStatus, EndpointState, status}
use court_kernel.Linux.ShmRing.{
  SharedRing, len_size, slot_ptr, write_slot, check, wrapping_sub, wrapping_add, send, recv,
}
use court_kernel.Linux.ShmRing.Slots.{
  Holds, SlotHolds-counters, get_elem?-bound, get_elem?-snoc, write_slot-here, write_slot-there,
}

-- What the ring promises, on the queue alone.
unfoldable pub queue_send :
    ℕ → ℕ → WireStatus → Payload → List Payload → Result WireStatus (Unit {0}) × List Payload
queue_send capacity slot_size st p q = elim (check st) [
  | err e ↦ (err e, q)
  | ok _ ↦
      if ltb slot_size (length p)
      then (err WireStatus.invalid_object, q)
      else if leb capacity (length q)
      then (err WireStatus.queue_full, q)
      else (ok tt, q ++ p ∷ [])
]

abbrev pub oldest : List Payload → Option Payload × List Payload
oldest [] = (none, [])
oldest (p ∷ q) = (some p, q)

unfoldable pub queue_recv :
    WireStatus → List Payload → Result WireStatus (Option Payload) × List Payload
queue_recv st q = elim (check st) [
  | err e ↦ (err e, q)
  | ok _ ↦ let (p, rest) = oldest q in (ok p, rest)
]

used :
    (r : SharedRing) (q : List Payload) → Holds r q → wrapping_sub r.producer r.consumer ≡ length q
used r q h =
    let c = h.counted in let f = h.fits in let n = h.narrow in let w = h.no_wrap in omega arith

snoc-Holds :
    (r : SharedRing) (q : List Payload) (p : Payload)
    → Holds r q
    → r.producer + 1 < u64_mod
    → length q < r.capacity
    → length p ≤ r.slot_size
    → Holds
        (record r {
          bytes = write_slot r (r.producer % r.capacity) p;
          producer = wrapping_add r.producer 1;
        })
        (q ++ p ∷ [])
snoc-Holds r q p h room less short = record {
  nonempty = h.nonempty;
  small = h.small;
  fits = omega (arith, length-append q (p ∷ []));
  narrow = h.narrow;
  counted = let c = h.counted in omega (arith, length-append q (p ∷ []));
  no_wrap = omega arith;
  stored = λ i x e. elim (get_elem?-snoc q p i x e) [
    | inl old ↦
        SlotHolds-counters written (wrapping_add r.producer 1) r.consumer
          ((r.consumer + i) % r.capacity) x
          (write_slot-there r last ((r.consumer + i) % r.capacity) p x (apart i x old) short
            (h.stored i x old))
    | inr (at, same) ↦
        rw (← same, at, ← h.counted)
          (SlotHolds-counters written (wrapping_add r.producer 1) r.consumer last p
            (write_slot-here r last p short))
  ];
}
  where
    last : ℕ
    last = r.producer % r.capacity

    written : SharedRing
    written = record r { bytes = write_slot r last p }

    apart : (i : ℕ) (x : Payload) → get_elem? q i ≡ some x → last ≢ (r.consumer + i) % r.capacity
    apart i x e same =
        let c = h.counted in
        omega (
          arith,
          get_elem?-bound q i x e,
          ring_distinct r.consumer (length q) i r.capacity less
              (omega (arith, get_elem?-bound q i x e)) (ap (λ t. t % r.capacity) (sym c) ∙ same),
        )

tail-Holds :
    (r : SharedRing) (q : List Payload) (p : Payload)
    → Holds r (p ∷ q)
    → Holds (record r { consumer = wrapping_add r.consumer 1 }) q
tail-Holds r q p h =
    let c = h.counted in
    let w = h.no_wrap in
    let next : wrapping_add r.consumer 1 ≡ r.consumer + 1 = omega arith in
    record {
      nonempty = h.nonempty;
      small = h.small;
      fits = let f = h.fits in omega arith;
      narrow = h.narrow;
      counted = omega arith;
      no_wrap = h.no_wrap;
      stored = λ i x e.
          let at : wrapping_add r.consumer 1 + i ≡ r.consumer + suc i = omega arith in
          rw (at) (
            SlotHolds-counters r r.producer (wrapping_add r.consumer 1)
              ((r.consumer + suc i) % r.capacity) x (h.stored (suc i) x e));
    }

-- A send does what a send on the queue does, result and effect, whatever the endpoint's status,
-- the payload and the fill are, until 2^64 payloads have been sent.
pub send-Holds :
    (endpoint : EndpointState) (p : Payload) (r : SharedRing) (q : List Payload)
    → Holds r q
    → r.producer + 1 < u64_mod
    → let (res, q') = queue_send r.capacity r.slot_size (status endpoint) p q in
      let (res', r') = send endpoint p r in (res' ≡ res) × Holds r' q'
unfolding send queue_send
send-Holds endpoint p r q h room = elim (Result-cases (check (status endpoint))) [
  | inl (e, g) ↦ rw (g, send, queue_send) (refl, h)
  | inr (_, g) ↦ elim (Bool-cases (ltb r.slot_size (length p))) [
    | inl long ↦ rw (g, send, queue_send, long) (refl, h)
    | inr short ↦ elim (Bool-cases (leb r.capacity (length q))) [
      | inl full ↦ rw (g, send, queue_send, short, used r q h, full) (refl, h)
      | inr room' ↦
          let narrow = h.small in
          let fit : leb (2 ^ 32) (length p) ≡ false = ground arith in
          rw (g, send, queue_send, short, used r q h, room', fit)
            (refl, snoc-Holds r q p h room (ground arith) (ground arith))
    ]
  ]
]

pub recv_open :
    (endpoint : EndpointState) (r : SharedRing) (q : List Payload)
    → check (status endpoint) ≡ ok tt
    → Holds r q
    → ((recv endpoint r).0 ≡ ok (oldest q).0) × Holds (recv endpoint r).1 (oldest q).1
unfolding recv
recv_open endpoint r [] g h =
    let c = h.counted in
    let empty : nat_eq r.consumer r.producer ≡ true = ground arith in rw (g, recv, empty) (refl, h)
recv_open endpoint r (p ∷ q) g h =
    let c = h.counted in
    let w = h.no_wrap in
    let small = h.small in
    let some_left : nat_eq r.consumer r.producer ≡ false = ground arith in
    let slot = h.stored 0 p refl in
    let front : r.consumer + 0 ≡ r.consumer = omega arith in
    let short = slot.short in
    let size : from_le (load r.bytes (slot_ptr r (r.consumer % r.capacity)) len_size) ≡ length p =
      ap (λ n. from_le (load r.bytes (slot_ptr r (n % r.capacity)) len_size)) (sym front)
      ∙ ap from_le slot.sized
      ∙ from_le-to_le len_size (length p) (omega arith) in
    let fit : ltb r.slot_size (length p) ≡ false = ground arith in
    let content : load r.bytes (slot_ptr r (r.consumer % r.capacity) + len_size) (length p) ≡ p =
      ap (λ n. load r.bytes (slot_ptr r (n % r.capacity) + len_size) (length p)) (sym front)
      ∙ slot.filled in
    rw (g, recv, some_left, size, fit, content) (refl, tail-Holds r q p h)

-- A receive does what a receive on the queue does: it takes the oldest payload, byte for byte, or
-- finds none.
pub recv-Holds :
    (endpoint : EndpointState) (r : SharedRing) (q : List Payload)
    → Holds r q
    → let (res, q') = queue_recv (status endpoint) q in
      let (res', r') = recv endpoint r in (res' ≡ res) × Holds r' q'
unfolding recv queue_recv
recv-Holds endpoint r q h = elim (Result-cases (check (status endpoint))) [
  | inl (e, g) ↦ rw (g, recv, queue_recv) (refl, h)
  | inr (_, g) ↦ rw (g, queue_recv) (recv_open endpoint r q g h)
]
