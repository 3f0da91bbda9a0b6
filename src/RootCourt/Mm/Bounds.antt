-- ===== src/RootCourt/Mm/Bounds.antt =====
-- crates/root-court/src/mm.rs: what the allocator gives out is aligned, within the region, and given
-- out once.
use court_kernel.Prelude.{
  ℕ, ◌+◌, ◌-◌, ◌*◌, ◌%◌, ◌≤◌, ◌<◌, ◌≡◌, refl, sym, ◌⊎◌, inl, inr, not, Option, none, some, List, [],
  ◌∷◌, Memᴰ, ltb, nat_eq, arith, if◌then◌else◌, Option-cases,
}
use court_kernel.Hosted.Types.{u64_mod}
use court_kernel.RootCourt.Mm.{
  page, min_region, usable, MemmapEntry, BumpAllocator, page_up, saturating_add, is_longer, largest,
  from_entry, from_memmap, virt, alloc_pages,
}

-- The cursor is on a page, within the region, and above the zero page.
pub record IsBump (b : BumpAllocator) : Type 0 where
  pub aligned : b.cursor % page ≡ 0
  pub low : page ≤ b.cursor
  pub high : b.cursor ≤ b.end
  pub fits : b.end < u64_mod

abbrev next_best : MemmapEntry → Option MemmapEntry → Option MemmapEntry
next_best x best =
    if not (nat_eq x.kind usable) then best else if is_longer x best then some x else best

next_best_lem :
    (x : MemmapEntry) (best : Option MemmapEntry) (entry : MemmapEntry)
    → next_best x best ≡ some entry
    → (best ≡ some entry) ⊎ ((x ≡ entry) × (entry.kind ≡ usable))
next_best_lem x best entry h = ground arith

-- The best entry is one of those seen, or the one before, and is usable.
largest-lem :
    (entries : List MemmapEntry) (best : Option MemmapEntry) (entry : MemmapEntry)
    → largest entries best ≡ some entry
    → (best ≡ some entry) ⊎ (Memᴰ entry entries × (entry.kind ≡ usable))
unfolding largest
largest-lem [] best entry h = inl h
largest-lem (x ∷ entries) best entry h = elim (largest-lem entries (next_best x best) entry h) [
  | inr (m, u) ↦ inr (Memᴰ.tail m, u)
  | inl e ↦ elim (next_best_lem x best entry e) [
    | inl old ↦ inl old
    | inr (same, u) ↦ inr (Memᴰ.head (sym same), u)
  ]
]

-- What `alloc_pages` gives out: as many pages, on a page, from the old cursor on, within the
-- region, and below the new cursor.
pub record IsAllocated (b : BumpAllocator) (pages phys : ℕ) (c : BumpAllocator) : Type 0 where
  pub aligned : phys % page ≡ 0
  pub from : b.cursor ≤ phys
  pub to : phys + pages * page ≤ c.cursor
  pub within : c.cursor ≤ b.end
  pub same_end : c.end ≡ b.end

alloc_pages-ok :
    (pages phys v : ℕ) (b : BumpAllocator)
    → (alloc_pages pages b).0 ≡ some (phys, v)
    → (phys ≡ page_up b.cursor)
      × (v ≡ virt b phys)
      × (phys + pages * page ≤ b.end)
      × ((alloc_pages pages b).1 ≡ record b { cursor = phys + pages * page })
unfolding alloc_pages
alloc_pages-ok pages phys v b h = ground arith

alloc_pages-failed :
    (pages : ℕ) (b : BumpAllocator) → (alloc_pages pages b).0 ≡ none → (alloc_pages pages b).1 ≡ b
unfolding alloc_pages
alloc_pages-failed pages b h = ground arith

from_entry-ok :
    (hhdm : ℕ) (entry : MemmapEntry) (b : BumpAllocator)
    → from_entry hhdm entry ≡ some b
    → (b.start ≡ (if ltb (page_up entry.base) page then page else page_up entry.base))
      × (b.cursor ≡ b.start)
      × (b.end ≡ saturating_add entry.base entry.length)
      × (min_region ≤ b.end - b.start)
unfolding from_entry
from_entry-ok hhdm entry b h = ground arith

from_entry_lem :
    (hhdm : ℕ) (entry : MemmapEntry) (b : BumpAllocator)
    → from_entry hhdm entry ≡ some b
    → IsBump b
      × (b.cursor ≡ b.start)
      × (b.start + min_region ≤ b.end)
      × (entry.base ≤ b.start)
      × (b.end ≤ entry.base + entry.length)
from_entry_lem hhdm entry b h =
    let (start, first, stop, long) = from_entry-ok hhdm entry b h in
    (
      record {
        aligned = ground arith;
        low = ground arith;
        high = ground arith;
        fits = ground arith;
      },
      first,
      ground arith,
      ground arith,
      ground arith,
    )

-- When an allocator is made from a memory map, its free part is its region, which starts on a page
-- above the zero page, is at least the minimum long, and lies within a usable entry of the map.
pub from_memmap_lem :
    (hhdm : ℕ) (entries : List MemmapEntry) (b : BumpAllocator)
    → from_memmap hhdm entries ≡ some b
    → IsBump b
      × (b.cursor ≡ b.start)
      × (b.start + min_region ≤ b.end)
      × ((entry : MemmapEntry) × Memᴰ entry entries
          × (entry.kind ≡ usable)
          × (entry.base ≤ b.start)
          × (b.end ≤ entry.base + entry.length))
unfolding from_memmap
from_memmap_lem hhdm entries b h = elim (Option-cases (largest entries none)) [
  | inl e ↦ absurd (ground (arith, e))
  | inr (entry, e) ↦ elim (largest-lem entries none entry e) [
    | inl never ↦ absurd (ground arith)
    | inr (m, u) ↦
        let (bump, first, long, low, high) =
          from_entry_lem hhdm entry b (rw (e, from_memmap) at h) in
        (bump, first, long, (entry, m, u, low, high))
  ]
]

-- A request that succeeds gives as many whole pages out of what was free.
pub alloc_pages-IsAllocated :
    (pages phys v : ℕ) (b : BumpAllocator)
    → IsBump b
    → (alloc_pages pages b).0 ≡ some (phys, v)
    → IsAllocated b pages phys (alloc_pages pages b).1
alloc_pages-IsAllocated pages phys v b i h =
    let (at, _, top, after) = alloc_pages-ok pages phys v b h in
    let aligned = i.aligned in
    let high = i.high in
    let fits = i.fits in
    rw (after) (record {
      aligned = omega arith;
      from = omega arith;
      to = omega arith;
      within = omega arith;
      same_end = refl;
    })

-- Every request, refused or not, keeps the cursor on a page and within the region.
pub alloc_pages-IsBump : (pages : ℕ) (b : BumpAllocator) → IsBump b → IsBump (alloc_pages pages b).1
alloc_pages-IsBump pages b i = elim (Option-cases (alloc_pages pages b).0) [
  | inl e ↦ rw (alloc_pages-failed pages b e) i
  | inr ((phys, v), e) ↦
      let x = alloc_pages-IsAllocated pages phys v b i e in
      let (_, _, top, after) = alloc_pages-ok pages phys v b e in
      let aligned = x.aligned in
      let from = x.from in
      let low = i.low in
      rw (after) (record { aligned = omega arith; low = omega arith; high = top; fits = i.fits })
]

unfoldable pub alloc_run : List ℕ → BumpAllocator → BumpAllocator
alloc_run [] b = b
alloc_run (pages ∷ more) b = alloc_run more (alloc_pages pages b).1

alloc_pages-cursor :
    (pages : ℕ) (b : BumpAllocator) → IsBump b → b.cursor ≤ (alloc_pages pages b).1.cursor
alloc_pages-cursor pages b i = elim (Option-cases (alloc_pages pages b).0) [
  | inl e ↦ rw (alloc_pages-failed pages b e) (omega arith)
  | inr ((phys, v), e) ↦
      let x = alloc_pages-IsAllocated pages phys v b i e in
      let from = x.from in let to = x.to in omega arith
]

alloc_run-IsBump :
    (more : List ℕ) (b : BumpAllocator)
    → IsBump b
    → IsBump (alloc_run more b) × (b.cursor ≤ (alloc_run more b).cursor)
unfolding alloc_run
alloc_run-IsBump [] b i = (i, omega arith)
alloc_run-IsBump (pages ∷ more) b i =
    let (j, up) = alloc_run-IsBump more (alloc_pages pages b).1 (alloc_pages-IsBump pages b i) in
    (j, omega (arith, alloc_pages-cursor pages b i))

-- From an allocator whose cursor is on a page within its region: if a request succeeds, and after
-- any further requests another succeeds, both addresses are on pages, the first is not below the
-- cursor, and the second is not below the end of the pages of the first.
pub alloc_disjoint :
    (n m p q v w : ℕ) (more : List ℕ) (b : BumpAllocator)
    → IsBump b
    → (alloc_pages n b).0 ≡ some (p, v)
    → (alloc_pages m (alloc_run more (alloc_pages n b).1)).0 ≡ some (q, w)
    → (p % page ≡ 0) × (q % page ≡ 0) × (b.cursor ≤ p) × (p + n * page ≤ q)
alloc_disjoint n m p q v w more b i e f =
    let x = alloc_pages-IsAllocated n p v b i e in
    let (j, up) = alloc_run-IsBump more (alloc_pages n b).1 (alloc_pages-IsBump n b i) in
    let y = alloc_pages-IsAllocated m q w (alloc_run more (alloc_pages n b).1) j f in
    let to = x.to in let from = y.from in (x.aligned, y.aligned, x.from, omega arith)
