-- ===== src/Linux/ShmRing.antt =====
-- crates/court-hosted-linux/src/shm_ring.rs: the ring of slots in a file that two processes map.
-- `RingHeader` is a record, and `bytes` is the mapping by its offsets: a slot is the payload's
-- length as a little-endian word, and room for the payload. Making and mapping the file is left
-- out: `create` starts from the zeros of a file that was just set to its length.
pub mod Layout
pub mod Slots
pub mod Fifo
pub mod Refine
use court_kernel.Prelude.{
  ℕ, ◌+◌, ◌-◌, ◌*◌, ◌%◌, ◌^◌, Bool, true, false, not, List, Option, none, some, length, nat_eq, ltb,
  leb, Memory, store, load, to_le, from_le, Result, ok, err, Exec, if◌then◌else◌,
}
use court_kernel.Hosted.Types.{u64_mod, Payload}
use court_kernel.Linux.Protocol.{WireStatus, EndpointState, status}

abbrev pub ring_magic : ℕ
ring_magic = 0x434b_5247

abbrev pub ring_version : ℕ
ring_version = 1

-- `size_of::<u32>()`
abbrev pub len_size : ℕ
len_size = 4

-- `size_of::<RingHeader>()`
abbrev pub header_len : ℕ
header_len = 32

pub data RingError : Type 0 where
  overflow too_small bad_magic bad_version bad_length : RingError

pub record SharedRing : Type 0 where
  pub magic : ℕ
  pub version : ℕ
  pub capacity : ℕ
  pub slot_size : ℕ
  pub producer : ℕ
  pub consumer : ℕ
  pub bytes : Memory
  pub len : ℕ

abbrev pub slot_stride : ℕ → ℕ
slot_stride slot_size = len_size + slot_size

abbrev pub checked : ℕ → Result RingError ℕ
checked n = if ltb n u64_mod then ok n else err overflow

unfoldable pub total_len : ℕ → ℕ → Result RingError ℕ
total_len capacity slot_size = elim (checked (capacity * slot_stride slot_size)) [
  | err e ↦ err e
  | ok slots ↦ checked (header_len + slots)
]

unfoldable pub create : ℕ → ℕ → Result RingError SharedRing
unfolding total_len
create capacity slot_size = elim (total_len capacity slot_size) [
  | err e ↦ err e
  | ok len ↦
      if ltb len header_len
      then err too_small
      else ok (record {
        magic = ring_magic;
        version = ring_version;
        capacity = capacity;
        slot_size = slot_size;
        producer = 0;
        consumer = 0;
        bytes = λ _. 0;
        len = len;
      })
]

unfoldable pub validate : SharedRing → Result RingError (Unit {0})
unfolding total_len
validate r =
    if not (nat_eq r.magic ring_magic)
    then err bad_magic
    else if not (nat_eq r.version ring_version)
    then err bad_version
    else elim (total_len r.capacity r.slot_size) [
      | err e ↦ err e
      | ok expected ↦ if not (nat_eq expected r.len) then err bad_length else ok tt
    ]

abbrev pub wrapping_sub : ℕ → ℕ → ℕ
wrapping_sub a b = (a + u64_mod - b) % u64_mod

abbrev pub wrapping_add : ℕ → ℕ → ℕ
wrapping_add a b = (a + b) % u64_mod

-- the offset of a slot in the mapping
unfoldable pub slot_ptr : SharedRing → ℕ → ℕ
slot_ptr r slot = header_len + slot * slot_stride r.slot_size

-- `match endpoint.status()`
abbrev pub check : WireStatus → Result WireStatus (Unit {0})
check WireStatus.ok = ok tt
check s = err s

-- the two writes of `send`, the length and the payload
unfoldable pub write_slot : SharedRing → ℕ → Payload → Memory
unfolding slot_ptr
write_slot r slot payload =
    let at = slot_ptr r slot in
    store (store r.bytes at (to_le len_size (length payload))) (at + len_size) payload

unfoldable pub send : EndpointState → Payload → Exec WireStatus SharedRing (Unit {0})
unfolding status
send endpoint payload r = elim (check (status endpoint)) [
  | err e ↦ (err e, r)
  | ok _ ↦
      if ltb r.slot_size (length payload)
      then (err WireStatus.invalid_object, r)
      else if leb r.capacity (wrapping_sub r.producer r.consumer)
      then (err WireStatus.queue_full, r)
      else if leb (2 ^ 32) (length payload)
      then (err WireStatus.invalid_object, r)
      else (
        ok tt,
        record r {
          bytes = write_slot r (r.producer % r.capacity) payload;
          producer = wrapping_add r.producer 1;
        },
      )
]

unfoldable pub recv : EndpointState → Exec WireStatus SharedRing (Option Payload)
unfolding status slot_ptr
recv endpoint r = elim (check (status endpoint)) [
  | err e ↦ (err e, r)
  | ok _ ↦
      if nat_eq r.consumer r.producer
      then (ok none, r)
      else (let at = slot_ptr r (r.consumer % r.capacity) in
          let len = from_le (load r.bytes at len_size) in
          if ltb r.slot_size len then (err WireStatus.invalid_object, r) else (
            ok (some (load r.bytes (at + len_size) len)),
            record r { consumer = wrapping_add r.consumer 1 },
          ))
]
