-- ===== src/Linux/ShmRing/Layout.antt =====
-- crates/court-hosted-linux/src/shm_ring.rs: the slots of a ring lie within its mapping.
use court_kernel.Prelude.{ℕ, ◌+◌, ◌*◌, ◌≤◌, ◌<◌, ◌≡◌, ok, arith, stride_gap}
use court_kernel.Hosted.Types.{u64_mod}
use court_kernel.Linux.ShmRing.{
  SharedRing, header_len, len_size, slot_stride, total_len, create, validate, slot_ptr,
}

total_len-ok :
    (capacity slot_size len : ℕ)
    → total_len capacity slot_size ≡ ok len
    → (len ≡ header_len + capacity * slot_stride slot_size) × (len < u64_mod)
unfolding total_len
total_len-ok capacity slot_size len h = ground arith

validate-len : (r : SharedRing) → validate r ≡ ok tt → total_len r.capacity r.slot_size ≡ ok r.len
unfolding validate
validate-len r h = ground arith

-- A ring that was created passes the validation that its peer makes when it opens the file.
pub create-validate :
    (capacity slot_size : ℕ) (r : SharedRing)
    → create capacity slot_size ≡ ok r
    → validate r ≡ ok tt
unfolding create validate
create-validate capacity slot_size r h = ground arith

-- In a ring that passed the validation, a slot below the capacity, its length and its payload
-- alike, begins after the header and ends within the mapping, and no offset overflows.
pub validate_bounds :
    (r : SharedRing) (slot : ℕ)
    → validate r ≡ ok tt
    → slot < r.capacity
    → (header_len ≤ slot_ptr r slot)
      × (slot_ptr r slot + len_size + r.slot_size ≤ r.len)
      × (r.len < u64_mod)
unfolding slot_ptr
validate_bounds r slot h p =
    let (e, below) = total_len-ok r.capacity r.slot_size r.len (validate-len r h) in
    let gap = stride_gap slot r.capacity (slot_stride r.slot_size) p in
    (omega arith, omega arith, below)
