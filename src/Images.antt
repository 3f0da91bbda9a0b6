-- ===== src/Images.antt =====
-- crates/court-abi/src/lib.rs and crates/court-images/src/bin: the two court images of the bring-up
-- demo and the ring that they share. `bytes` is memory by virtual address, without the ring's header,
-- which is a record; the stores to atomics are the new record. Each `_start` runs as one step.
pub mod Exchange
mod Tests
use court_kernel.Prelude.{
  ℕ, ◌+◌, ◌-◌, ◌*◌, ◌%◌, Bool, true, false, not, ◌||◌, List, [], ◌∷◌, length, nat_eq, leb, bit_and,
  bit_or, Memory, store, load, to_le, from_le, if◌then◌else◌,
}
use court_kernel.Hosted.Types.{u64_mod}

abbrev pub boot_magic : ℕ
boot_magic = 0x434B_424F_4F54_3032

abbrev pub abi_ring_magic : ℕ
abi_ring_magic = 0x434B_5249_4E47_3031

abbrev pub ring_va : ℕ
ring_va = 0x0030_0000

abbrev pub slot_len : ℕ
slot_len = 64

abbrev pub ring_capacity : ℕ
ring_capacity = 4

abbrev pub ring_data : ℕ
ring_data = 128

abbrev pub right_send : ℕ
right_send = 1

abbrev pub right_recv : ℕ
right_recv = 2

abbrev pub st_sent : ℕ
st_sent = 0x0001

abbrev pub st_recv : ℕ
st_recv = 0x0002

abbrev pub st_denied : ℕ
st_denied = 0xE001

abbrev pub st_empty : ℕ
st_empty = 0xE002

abbrev pub st_bad_magic : ℕ
st_bad_magic = 0xBAD0

pub record BootInfo : Type 0 where
  pub magic : ℕ
  pub cap_id : ℕ
  pub rights : ℕ
  pub ring_virt : ℕ
  pub court_id : ℕ

pub record AbiRing : Type 0 where
  pub magic : ℕ
  pub producer : ℕ
  pub consumer : ℕ
  pub revoked : ℕ
  pub bytes : Memory

unfoldable pub slot_va : ℕ → ℕ
slot_va index = ring_va + ring_data + index * slot_len

-- `b"pkt"`
abbrev pub packet : List ℕ
packet = 0x70 ∷ 0x6B ∷ 0x74 ∷ []

unfoldable pub app_start : BootInfo → AbiRing → ℕ × AbiRing
app_start boot ring =
    if not (nat_eq boot.magic boot_magic)
    then (st_bad_magic, ring)
    else if not (nat_eq ring.magic abi_ring_magic)
    then (st_bad_magic, ring)
    else if nat_eq (bit_and boot.rights right_send) 0 || not (nat_eq ring.revoked 0)
    then (st_denied, ring)
    else if leb ring_capacity ((ring.producer + u64_mod - ring.consumer) % u64_mod)
    then (st_denied, ring)
    else (let at = slot_va (ring.producer % ring_capacity) in
        (
          st_sent,
          record ring {
            bytes = store (store ring.bytes at (to_le 4 (length packet))) (at + 4) packet;
            producer = (ring.producer + 1) % u64_mod;
          },
        ))

unfoldable pub net_start : BootInfo → AbiRing → ℕ × AbiRing
net_start boot ring =
    if not (nat_eq boot.magic boot_magic)
    then (st_bad_magic, ring)
    else if not (nat_eq ring.magic abi_ring_magic)
    then (st_bad_magic, ring)
    else if nat_eq (bit_and boot.rights right_recv) 0 || not (nat_eq ring.revoked 0)
    then (st_denied, ring)
    else if nat_eq ring.consumer ring.producer
    then (st_empty, ring)
    else (let len = from_le (load ring.bytes (slot_va (ring.consumer % ring_capacity)) 4) in
        (
          bit_or st_recv (len * 256 % u64_mod),
          record ring { consumer = (ring.consumer + 1) % u64_mod },
        ))
