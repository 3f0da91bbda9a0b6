-- ===== src/Images/Exchange.antt =====
-- crates/court-images/src/bin: what the two images do to the ring, one after the other.
use court_kernel.Prelude.{
  ℕ, ◌+◌, ◌*◌, ◌%◌, ◌<◌, ◌≡◌, ◌≢◌, refl, ap, sym, ◌∙◌, inl, length, bit_and, bit_or, Memory, store,
  load, to_le, from_le, load_outside, load-store, arith,
}
use court_kernel.Hosted.Types.{u64_mod}
use court_kernel.Images.{
  boot_magic, abi_ring_magic, right_send, right_recv, st_sent, packet, BootInfo, AbiRing, slot_va,
  app_start, net_start,
}

-- The length that the app wrote is what is read back from its slot.
packet_size :
    (m : Memory) (at : ℕ)
    → from_le (load (store (store m at (to_le 4 (length packet))) (at + 4) packet) at 4) ≡ 3
unfolding to_le from_le
packet_size m at = ap from_le (
    load_outside (store m at (to_le 4 (length packet))) (at + 4) packet at 4 (inl (omega arith))
    ∙ load-store m at (to_le 4 (length packet)))

sent_first :
    (app : BootInfo) (ring : AbiRing)
    → app.magic ≡ boot_magic
    → ring.magic ≡ abi_ring_magic
    → ring.revoked ≡ 0
    → bit_and app.rights right_send ≢ 0
    → ring.consumer ≡ ring.producer
    → ring.producer + 1 < u64_mod
    → app_start app ring ≡ (
      st_sent,
      record ring {
        bytes =
            store
              (store ring.bytes (slot_va (ring.producer % 4)) (to_le 4 (length packet)))
              (slot_va (ring.producer % 4) + 4)
              packet;
        producer = (ring.producer + 1) % u64_mod;
      },
    )
unfolding app_start
sent_first app ring a c d e g h = ground arith

received_second :
    (net : BootInfo) (ring : AbiRing) (n : ℕ)
    → net.magic ≡ boot_magic
    → ring.magic ≡ abi_ring_magic
    → ring.revoked ≡ 0
    → bit_and net.rights right_recv ≢ 0
    → ¬ (ring.consumer ≡ ring.producer)
    → from_le (load ring.bytes (slot_va (ring.consumer % 4)) 4) ≡ n
    → ((net_start net ring).0 ≡ bit_or 2 (n * 256 % u64_mod))
      × ((net_start net ring).1.consumer ≡ (ring.consumer + 1) % u64_mod)
      × ((net_start net ring).1.producer ≡ ring.producer)
unfolding net_start
received_second net ring n b c d f ne size = ground arith

-- On a ring that is empty and not revoked, with the magic numbers in place: an app with the right to
-- send sends, and then a net with the right to receive reports the length of the packet and leaves
-- the ring empty, as long as the counters do not wrap.
pub app_then_net :
    (app net : BootInfo) (ring : AbiRing)
    → app.magic ≡ boot_magic
    → net.magic ≡ boot_magic
    → ring.magic ≡ abi_ring_magic
    → ring.revoked ≡ 0
    → bit_and app.rights right_send ≢ 0
    → bit_and net.rights right_recv ≢ 0
    → ring.consumer ≡ ring.producer
    → ring.producer + 1 < u64_mod
    → let (s, mid) = app_start app ring in
      let (t, end) = net_start net mid in
      (s ≡ st_sent) × (t ≡ bit_or 2 (3 * 256)) × (end.consumer ≡ end.producer)
app_then_net app net ring a b c d e f g h =
    let at : ℕ = slot_va (ring.producer % 4) in
    let mid : AbiRing = record ring {
      bytes = store (store ring.bytes at (to_le 4 (length packet))) (at + 4) packet;
      producer = (ring.producer + 1) % u64_mod;
    } in
    let first = sent_first app ring a c d e g h in
    let same : ring.consumer % 4 ≡ ring.producer % 4 = ap (λ n. n % 4) g in
    let size : from_le (load mid.bytes (slot_va (ring.consumer % 4)) 4) ≡ 3 =
      ap (λ n. from_le (load mid.bytes (slot_va n) 4)) same ∙ packet_size ring.bytes at in
    let (second, after, still) = received_second net mid 3 b c d f (omega arith) size in
    rw (first) (refl, second, after ∙ ap (λ n. (n + 1) % u64_mod) g ∙ sym still)
