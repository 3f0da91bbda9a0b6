-- ===== src/RootCourt/Mm.antt =====
-- crates/root-court/src/mm.rs: the bump allocator over the largest usable region. A virtual address
-- is its number. `& !(PAGE - 1)` is written as the multiple of the page below.
pub mod Bounds
use court_kernel.Prelude.{
  ℕ, ◌+◌, ◌-◌, ◌*◌, ◌/◌, ◌%◌, ◌^◌, Bool, true, false, not, ◌||◌, Option, none, some, List, [], ◌∷◌,
  min, ltb, leb, nat_eq, if◌then◌else◌,
}
use court_kernel.Hosted.Types.{u64_mod}

abbrev pub page : ℕ
page = 0x1000

abbrev pub min_region : ℕ
min_region = 64 * 1024

abbrev pub usable : ℕ
usable = 0

pub record MemmapEntry : Type 0 where
  pub base : ℕ
  pub length : ℕ
  pub kind : ℕ

pub record BumpAllocator : Type 0 where
  pub hhdm : ℕ
  pub start : ℕ
  pub cursor : ℕ
  pub end : ℕ

abbrev pub saturating_add : ℕ → ℕ → ℕ
saturating_add a b = min (a + b) (u64_mod - 1)

-- `value.saturating_add(PAGE - 1) & !(PAGE - 1)`
abbrev pub page_up : ℕ → ℕ
page_up value = saturating_add value (page - 1) / page * page

-- the `is_none_or` of the loop
abbrev pub is_longer : MemmapEntry → Option MemmapEntry → Bool
is_longer entry none = true
is_longer entry (some current) = ltb current.length entry.length

unfoldable pub largest : List MemmapEntry → Option MemmapEntry → Option MemmapEntry
largest [] best = best
largest (entry ∷ entries) best =
    let next =
      if not (nat_eq entry.kind usable)
      then best
      else if is_longer entry best
      then some entry
      else best in
    largest entries next

unfoldable pub from_entry : ℕ → MemmapEntry → Option BumpAllocator
from_entry hhdm entry =
    let up = page_up entry.base in
    let start = if ltb up page then page else up in
    let end = saturating_add entry.base entry.length in
    if ltb (end - start) min_region
    then none
    else some (record { hhdm = hhdm; start = start; cursor = start; end = end })

unfoldable pub from_memmap : ℕ → List MemmapEntry → Option BumpAllocator
unfolding largest from_entry
from_memmap hhdm entries = elim (largest entries none) [
  | none ↦ none
  | some entry ↦ from_entry hhdm entry
]

abbrev pub remaining : BumpAllocator → ℕ
remaining b = b.end - b.cursor

abbrev pub virt : BumpAllocator → ℕ → ℕ
virt b phys = (b.hhdm + phys) % u64_mod

unfoldable pub alloc_pages : ℕ → BumpAllocator → Option (ℕ × ℕ) × BumpAllocator
alloc_pages pages b =
    let size = pages * page in
    let cursor = page_up b.cursor in
    let next = cursor + size in
    if leb u64_mod size
    then (none, b)
    else if leb u64_mod next
    then (none, b)
    else if ltb b.end next
    then (none, b)
    else (some (cursor, virt b cursor), record b { cursor = next })
