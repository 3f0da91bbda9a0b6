-- ===== src/Linux/Tests.antt =====
-- crates/court-hosted-linux: the ring and the manifest at concrete inputs.
use court_kernel.Prelude.{
  ◌+◌, ◌≤◌, ◌<◌, ◌≡◌, refl, none, some, List, [], ◌∷◌, contains, add, store, load, to_le, from_le,
  ok, err, arith,
}
use court_kernel.Hosted.Types.{u64_mod}
use court_kernel.Hosted.Rights.{covers}
use court_kernel.Linux.Protocol.{WireStatus, EndpointState, fresh_endpoint, mark_revoked}
use court_kernel.Linux.ShmRing
use court_kernel.Linux.ShmRing.{
  SharedRing, header_len, len_size, create, total_len, slot_ptr, write_slot, send, recv,
}
use court_kernel.Linux.ShmRing.Layout.{create-validate, validate_bounds}
use court_kernel.Linux.ShmRing.Refine.{
  RingCall, sends, receives, sent, received, ring_step, ring_run, queue_run, ring_refines,
}
use court_kernel.Linux.Manifest.{require_phase_before, parse_from, has_key, validate}
use court_kernel.Linux.Fixtures.{manifest, policy}
use court_kernel.Linux.Manifest.Sound.{IsValid, validate-IsValid}

abbrev open_endpoint : EndpointState
open_endpoint = fresh_endpoint (record { id = 1; rights = record { bits = 0 } })

abbrev small_ring : SharedRing
small_ring = record {
  magic = 0x434b_5247;
  version = 1;
  capacity = 2;
  slot_size = 3;
  producer = 0;
  consumer = 0;
  bytes = λ _. 0;
  len = 46;
}

small_ring_made : create 2 3 ≡ ok small_ring
unfolding create total_len
small_ring_made = refl

-- A ring of two slots: two payloads fill it, a third is refused, and they come out in order.
abbrev exchange : List RingCall
exchange =
    sends open_endpoint (1 ∷ 2 ∷ [])
    ∷ sends open_endpoint (3 ∷ [])
    ∷ sends open_endpoint (4 ∷ [])
    ∷ receives open_endpoint
    ∷ sends open_endpoint (5 ∷ 6 ∷ 7 ∷ [])
    ∷ receives (mark_revoked open_endpoint)
    ∷ receives open_endpoint
    ∷ receives open_endpoint
    ∷ receives open_endpoint
    ∷ []

exchange_test :
    ring_run exchange small_ring
    ≡ sent (ok tt)
      ∷ sent (ok tt)
      ∷ sent (err WireStatus.queue_full)
      ∷ received (ok (some (1 ∷ 2 ∷ [])))
      ∷ sent (ok tt)
      ∷ received (err WireStatus.revoked)
      ∷ received (ok (some (3 ∷ [])))
      ∷ received (ok (some (5 ∷ 6 ∷ 7 ∷ [])))
      ∷ received (ok none)
      ∷ []
unfolding ring_run ring_step send recv write_slot store load to_le from_le
exchange_test = refl

ring_refines_example : ring_run exchange small_ring ≡ queue_run 2 3 exchange []
ring_refines_example =
    ring_refines 2 3 small_ring exchange (omega arith) (omega arith) (omega arith) small_ring_made
      (omega arith)

create-validate_example : ShmRing.validate small_ring ≡ ok tt
create-validate_example = create-validate 2 3 small_ring small_ring_made

small_ring_valid : ShmRing.validate small_ring ≡ ok tt
unfolding ShmRing.validate total_len
small_ring_valid = refl

validate_bounds_example :
    (header_len ≤ slot_ptr small_ring 1)
    × (slot_ptr small_ring 1 + len_size + small_ring.slot_size ≤ small_ring.len)
    × (small_ring.len < u64_mod)
validate_bounds_example = validate_bounds small_ring 1 small_ring_valid (omega arith)

policy_passes : validate manifest policy ≡ ok tt
unfolding validate contains add parse_from covers has_key require_phase_before
policy_passes = refl

validate-IsValid_example : IsValid manifest policy
validate-IsValid_example = validate-IsValid manifest policy policy_passes
