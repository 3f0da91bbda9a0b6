-- ===== src/RootCourt/Tests.antt =====
-- crates/root-court: the allocator and the object model at concrete inputs.
use court_kernel.Prelude.{◌+◌, ◌*◌, ◌%◌, ◌≤◌, ◌≡◌, refl, true, some, List, [], ◌∷◌, Memᴰ, arith}
use court_kernel.RootCourt.Mm.{
  page, min_region, usable, MemmapEntry, BumpAllocator, from_memmap, alloc_pages,
}
use court_kernel.RootCourt.Mm.Bounds.{IsBump, alloc_run, from_memmap_lem, alloc_disjoint}
use court_kernel.RootCourt.Objects.{
  RootCourt, new, bootstrap, cap_rights, lookup, rights_in, is_bound,
}

abbrev memory_map : List MemmapEntry
memory_map =
    record { base = 0; length = 0x9_fc00; kind = 0 }
    ∷ record { base = 0x10_0000; length = 0x700_0000; kind = 0 }
    ∷ record { base = 0x8000_0000; length = 0x1000_0000; kind = 5 }
    ∷ []

abbrev heap : BumpAllocator
heap = record { hhdm = 0; start = 0x10_0000; cursor = 0x10_0000; end = 0x710_0000 }

heap_found : from_memmap 0 memory_map ≡ some heap
unfolding from_memmap
heap_found = refl

from_memmap_lem_example :
    IsBump heap
    × (heap.cursor ≡ heap.start)
    × (heap.start + min_region ≤ heap.end)
    × ((entry : MemmapEntry) × Memᴰ entry memory_map
        × (entry.kind ≡ usable)
        × (entry.base ≤ heap.start)
        × (heap.end ≤ entry.base + entry.length))
from_memmap_lem_example = from_memmap_lem 0 memory_map heap heap_found

heap-IsBump : IsBump heap
heap-IsBump = record { aligned = refl; low = omega arith; high = omega arith; fits = omega arith }

heap_first : (alloc_pages 2 heap).0 ≡ some (0x10_0000, 0x10_0000)
unfolding alloc_pages
heap_first = refl

heap_later :
    (alloc_pages 1 (alloc_run (3 ∷ []) (alloc_pages 2 heap).1)).0 ≡ some (0x10_5000, 0x10_5000)
unfolding alloc_pages alloc_run
heap_later = refl

alloc_disjoint_example :
    (0x10_0000 % page ≡ 0)
    × (0x10_5000 % page ≡ 0)
    × (heap.cursor ≤ 0x10_0000)
    × (0x10_0000 + 2 * page ≤ 0x10_5000)
alloc_disjoint_example =
    alloc_disjoint 2 1 0x10_0000 0x10_5000 0x10_0000 0x10_5000 (3 ∷ []) heap heap-IsBump heap_first
      heap_later

-- the state after `bootstrap`
abbrev booted : RootCourt
booted = (bootstrap new).1

booted_test : (lookup booted "/court/root" ≡ true) × (cap_rights booted 1 ≡ some 64)
unfolding bootstrap rights_in is_bound
booted_test = (refl, refl)
