-- ===== src/RootCourt/Paging/Walk.antt =====
-- The walk of the processor through four levels of tables: what crates/root-court/src/paging.rs
-- builds them for. An entry of the third or the second level may end the walk with a huge page.
use court_kernel.Prelude.{
  ℕ, ◌+◌, ◌*◌, ◌/◌, ◌%◌, ◌^◌, Bool, true, false, Option, none, some, if◌then◌else◌,
}
use court_kernel.RootCourt.Mm.{page}
use court_kernel.RootCourt.Paging.{
  Mapper, is_present, is_huge, phys_part, word_at, huge_2m, pml4_index, pdpt_index, pd_index,
  pt_index,
}

-- the end of a walk at a page of the given size
abbrev pub landing : ℕ → ℕ → ℕ → ℕ
landing size word va = phys_part word / size * size + va % size

unfoldable pub walk_pt : Mapper → ℕ → ℕ → Option ℕ
walk_pt m table va =
    let word = word_at m table (pt_index va) in
    if is_present word then some (landing page word va) else none

unfoldable pub walk_pd : Mapper → ℕ → ℕ → Option ℕ
walk_pd m table va =
    let word = word_at m table (pd_index va) in
    let rest = walk_pt m (phys_part word) va in
    if is_present word then if is_huge word then some (landing huge_2m word va) else rest else none

unfoldable pub walk_pdpt : Mapper → ℕ → ℕ → Option ℕ
walk_pdpt m table va =
    let word = word_at m table (pdpt_index va) in
    let rest = walk_pd m (phys_part word) va in
    if is_present word then if is_huge word then some (landing (2 ^ 30) word va) else rest else none

-- The physical address that a virtual address stands for. Bit 7 of an entry of the root is reserved.
unfoldable pub translate : Mapper → ℕ → Option ℕ
unfolding walk_pt walk_pd walk_pdpt
translate m va =
    let word = word_at m m.pml4_phys (pml4_index va) in
    let rest = walk_pdpt m (phys_part word) va in
    if is_present word then if is_huge word then none else rest else none

-- The walk from the register CR3: with five levels, it starts with an entry of a table above the root.
unfoldable pub translate_cr3 : Bool → Mapper → ℕ → ℕ → Option ℕ
unfolding translate
translate_cr3 false m cr3 va = translate (record m { pml4_phys = phys_part cr3 }) va
translate_cr3 true m cr3 va =
    let word = word_at m (phys_part cr3) (va / 2 ^ 48 % 512) in
    let rest = translate (record m { pml4_phys = phys_part word }) va in
    if is_present word then if is_huge word then none else rest else none
