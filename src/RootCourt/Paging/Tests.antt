-- ===== src/RootCourt/Paging/Tests.antt =====
-- crates/root-court/src/paging.rs: the tables of a small kernel, and of one court.
use court_kernel.Prelude.{none, true, ℕ, ◌+◌, ◌≡◌, refl, ◌∙◌, false, some, [], ◌∷◌, ok, err, arith}
use court_kernel.Prelude.Chain.{◌>>=◌, ◌>>◌}
use court_kernel.RootCourt.Mm.{alloc_pages}
use court_kernel.RootCourt.Paging.{Mapper, conflict_4k, phys_part, map_range}
use court_kernel.RootCourt.Paging.Build.{mapper}
use court_kernel.RootCourt.Paging.Space.{map_in}
use court_kernel.RootCourt.Paging.Walk.{translate}
use court_kernel.RootCourt.Paging.Tree.{IsTree}
use court_kernel.RootCourt.Paging.Table.{with_level}
use court_kernel.RootCourt.Paging.Range.{map_range_lem, map_range-IsTree}
use court_kernel.RootCourt.Paging.Built.{rooted, rooted-IsTree, kernel_tables, IsBuilt, build_lem}
use court_kernel.RootCourt.Paging.Register.{clone_kernel_walk}
use court_kernel.RootCourt.Paging.Walk.{translate_cr3}
use court_kernel.RootCourt.Paging.Space.{AddressSpace, clone_kernel}
use court_kernel.RootCourt.Paging.Clone.{clone_kernel_lem, map_in_keeps}
use court_kernel.RootCourt.Paging.Fixtures.{
  cold, cold-IsMapper, image, low_memory, page_map, booted, built, booted-IsBuilt, space, cloned_ok,
  with_court, court_levels, court-IsTree,
}

abbrev empty : Mapper
empty = rooted (mapper cold 0 0) 1

abbrev levels : ℕ → ℕ
levels = with_level (mapper cold 0 0) cold-IsMapper (omega arith) (λ _. 0) 3

empty-IsTree : IsTree levels empty
empty-IsTree = rooted-IsTree (mapper cold 0 0) cold-IsMapper (omega arith) 1

-- one huge page and three small ones
mapped : (map_range image 0x20_0000 0x20_3000 empty).0 ≡ ok tt
unfolding map_range ◌>>◌ ◌>>=◌ alloc_pages phys_part
mapped = refl

map_range_lem_example :
    translate (map_range image 0x20_0000 0x20_3000 empty).1 (image + 0x20_1234)
    ≡ some (0x20_0000 + 0x20_1234)
map_range_lem_example =
    map_range_lem levels empty image 0x20_0000 0x20_3000 empty-IsTree (omega arith) (omega arith)
      mapped 0x20_1234 (omega arith)

map_range-IsTree_example :
    ((levels : ℕ → ℕ) × IsTree levels (map_range image 0x20_0000 0x20_3000 empty).1)
    × ((va x : ℕ)
        → translate empty va ≡ some x
        → translate (map_range image 0x20_0000 0x20_3000 empty).1 va ≡ some x)
map_range-IsTree_example = map_range-IsTree levels empty image 0x20_0000 0x20_3000 empty-IsTree

-- a second map of the same addresses to another place is refused
conflict_test :
    (map_range image 0x40_0000 0x1000 (map_range image 0x20_0000 0x1000 empty).1).0
    ≡ err conflict_4k
unfolding map_range ◌>>◌ ◌>>=◌ alloc_pages phys_part
conflict_test = refl

build_lem_example :
    IsBuilt 0xffff_8000_0000_0000 0x20_0000 image image
      (image + 0x2800)
      false
      (low_memory ∷ [])
      (kernel_tables booted)
build_lem_example =
    build_lem 0xffff_8000_0000_0000 0x20_0000 image image (image + 0x2800) false (low_memory ∷ [])
      cold page_map cold-IsMapper built

clone_kernel_walk_example :
    (translate_cr3 false (mapper with_court 0 0) 0x10_6000 (image + 0x1234)
      ≡ translate (kernel_tables booted) (image + 0x1234))
    × (translate (kernel_tables with_court) (image + 0x1234)
        ≡ translate (kernel_tables booted) (image + 0x1234))
clone_kernel_walk_example =
    clone_kernel_walk false booted-IsBuilt.0.0 booted space booted-IsBuilt.0.1 cloned_ok
      (image + 0x1234)

-- With five levels, an address of a court's image is in the reach of no entry.
court_lost :
    (wide : AddressSpace)
    → (clone_kernel true booted).0 ≡ ok wide
    → translate_cr3 true (mapper (clone_kernel true booted).1 0 0) wide.cr3 0x10_0079 ≡ none
court_lost wide fine =
    (clone_kernel_walk true booted-IsBuilt.0.0 booted wide booted-IsBuilt.0.1 fine 0x10_0079).0

image_mapped : translate (kernel_tables with_court) (image + 0x1234) ≡ some 0x20_1234
image_mapped =
    (clone_kernel_lem false booted-IsBuilt.0.0 booted space booted-IsBuilt.0.1 cloned_ok
      (image + 0x1234)).1
    ∙ booted-IsBuilt.1.0 (omega arith) (omega arith) 0x1234 (omega arith)

map_in_keeps_example :
    translate
      (mapper (map_in space 0x40_0000 0x60_0000 0x2000 with_court).1 with_court.kernel_pml4 0)
      (image + 0x1234)
    ≡ some 0x20_1234
map_in_keeps_example =
    map_in_keeps court_levels with_court space 0x40_0000 0x60_0000 0x2000 with_court.kernel_pml4
      (image + 0x1234) 0x20_1234 court-IsTree.0 court-IsTree.1 image_mapped
