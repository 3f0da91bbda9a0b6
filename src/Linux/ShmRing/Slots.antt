-- ===== src/Linux/ShmRing/Slots.antt =====
-- crates/court-hosted-linux/src/shm_ring.rs: what a slot holds, and what a
-- write to one slot does to it and to the others.
use court_kernel.Prelude.{
  ℕ, zero, suc, ◌+◌, ◌%◌, ◌^◌, ◌≤◌, ◌<◌, ◌≡◌, ◌≢◌, refl, sym, ap, ◌∙◌, ◌⊎◌, inl, inr, some, List,
  [], ◌∷◌, ◌++◌, length, get_elem?, store, load, to_le, length-to_le, load_outside, load-store,
  stride_gap, arith,
}
use court_kernel.Hosted.Types.{u64_mod, Payload}
use court_kernel.Linux.ShmRing.{SharedRing, len_size, slot_stride, slot_ptr, write_slot}

-- A slot holds a payload: the length is in its first bytes, the payload in those after.
pub record SlotHolds (r : SharedRing) (slot : ℕ) (p : Payload) : Type 0 where
  pub short : length p ≤ r.slot_size
  pub sized : load r.bytes (slot_ptr r slot) len_size ≡ to_le len_size (length p)
  pub filled : load r.bytes (slot_ptr r slot + len_size) (length p) ≡ p

-- The ring holds the queue, oldest first from the consumer's slot on.
pub record Holds (r : SharedRing) (q : List Payload) : Type 0 where
  pub nonempty : 0 < r.capacity
  pub small : r.slot_size < 2 ^ 32
  pub fits : length q ≤ r.capacity
  pub narrow : r.capacity < 2 ^ 32
  pub counted : r.producer ≡ r.consumer + length q
  pub no_wrap : r.producer < u64_mod
  pub stored :
      (i : ℕ) (p : Payload) → get_elem? q i ≡ some p → SlotHolds r ((r.consumer + i) % r.capacity) p

pub get_elem?-bound :
    (q : List Payload) (i : ℕ) (p : Payload) → get_elem? q i ≡ some p → i < length q
get_elem?-bound [] i p h = absurd (ground arith)
get_elem?-bound (x ∷ q) zero p h = omega arith
get_elem?-bound (x ∷ q) (suc i) p h = omega (arith, get_elem?-bound q i p h)

pub get_elem?-snoc :
    (q : List Payload) (x : Payload) (i : ℕ) (p : Payload)
    → get_elem? (q ++ x ∷ []) i ≡ some p
    → (get_elem? q i ≡ some p) ⊎ ((i ≡ length q) × (x ≡ p))
get_elem?-snoc [] x zero p h = inr (refl, ground arith)
get_elem?-snoc [] x (suc i) p h = absurd (ground arith)
get_elem?-snoc (y ∷ q) x zero p h = inl h
get_elem?-snoc (y ∷ q) x (suc i) p h = elim (get_elem?-snoc q x i p h) [
  | inl e ↦ inl e
  | inr (e, f) ↦ inr (ap suc e, f)
]

-- A slot that was just written holds the payload.
pub write_slot-here :
    (r : SharedRing) (slot : ℕ) (p : Payload)
    → length p ≤ r.slot_size
    → SlotHolds (record r { bytes = write_slot r slot p }) slot p
unfolding write_slot slot_ptr
write_slot-here r slot p h =
    let at : ℕ = slot_ptr r slot in
    let head : List ℕ = to_le len_size (length p) in
    let wide : length head ≡ len_size = length-to_le len_size (length p) in
    record {
      short = h;
      sized =
          load_outside (store r.bytes at head) (at + len_size) p at len_size (inl (omega arith))
          ∙ ap (load (store r.bytes at head) at) (sym wide)
          ∙ load-store r.bytes at head;
      filled = load-store (store r.bytes at head) (at + len_size) p;
    }

-- Another slot holds what it held.
pub write_slot-there :
    (r : SharedRing) (slot other : ℕ) (p x : Payload)
    → slot ≢ other
    → length p ≤ r.slot_size
    → SlotHolds r other x
    → SlotHolds (record r { bytes = write_slot r slot p }) other x
unfolding write_slot slot_ptr
write_slot-there r slot other p x ne h held =
    let at : ℕ = slot_ptr r slot in
    let to : ℕ = slot_ptr r other in
    let head : List ℕ = to_le len_size (length p) in
    let wide : length head ≡ len_size = length-to_le len_size (length p) in
    let low = stride_gap slot other (slot_stride r.slot_size) in
    let high = stride_gap other slot (slot_stride r.slot_size) in
    let short = held.short in
    record {
      short = held.short;
      sized =
          load_outside (store r.bytes at head) (at + len_size) p to len_size
            (ground (arith, ne, low, high, h))
          ∙ load_outside r.bytes at head to len_size (ground (arith, ne, low, high, wide))
          ∙ held.sized;
      filled =
          load_outside (store r.bytes at head) (at + len_size) p (to + len_size) (length x)
            (ground (arith, ne, low, high, h, short))
          ∙ load_outside r.bytes at head (to + len_size) (length x)
              (ground (arith, ne, low, high, wide, short))
          ∙ held.filled;
    }

-- The counters do not matter to what a slot holds.
pub SlotHolds-counters :
    (r : SharedRing) (n m slot : ℕ) (p : Payload)
    → SlotHolds r slot p
    → SlotHolds (record r { producer = n; consumer = m }) slot p
unfolding slot_ptr
SlotHolds-counters r n m slot p h = record { short = h.short; sized = h.sized; filled = h.filled }
