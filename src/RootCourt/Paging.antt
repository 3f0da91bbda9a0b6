-- ===== src/RootCourt/Paging.antt =====
-- crates/root-court/src/paging.rs: page tables, built in memory through the direct map. Memory is the
-- word at each virtual address of a table's entry. Masks of contiguous bits are written as quotients
-- and remainders, and `|` of flags on an address whose low twelve bits are clear as a sum. Additions
-- of the source that may overflow wrap, as in a release build.

pub mod Walk
pub mod Tree
pub mod Table
pub mod Page
pub mod Mapping
pub mod Range
pub mod Build
pub mod Space
pub mod Boot
pub mod Built
pub mod Exact
pub mod Copy
pub mod Clone
pub mod Register
pub mod Fixtures
mod Tests
use court_kernel.Prelude.{
  ℕ, zero, suc, ◌+◌, ◌-◌, ◌*◌, ◌/◌, ◌%◌, ◌^◌, Bool, true, false, not, ◌&&◌, ◌||◌, Option, none,
  some, List, [], ◌∷◌, Result, ok, err, Exec, lift, gets, pure, raise, modify, ltb, leb, nat_eq,
  if◌then◌else◌,
}
use court_kernel.Prelude.Chain.{◌>>=◌, ◌>>◌}
use court_kernel.Hosted.Types.{u64_mod}
use court_kernel.RootCourt.Mm.{page, BumpAllocator, virt, alloc_pages, saturating_add}

abbrev pub huge_2m : ℕ
huge_2m = 0x200000

-- `x & PRESENT != 0` and `x & HUGE != 0`
abbrev pub is_present : ℕ → Bool
is_present x = nat_eq (x % 2) 1

abbrev pub is_huge : ℕ → Bool
is_huge x = nat_eq (x / 128 % 2) 1

-- `x & PHYS_MASK`, the bits 12 to 51
unfoldable pub phys_part : ℕ → ℕ
phys_part x = x / page % 2 ^ 40 * page

abbrev pub table_flags : ℕ
table_flags = 3

abbrev pub page_flags : ℕ
page_flags = 3

abbrev pub huge : ℕ
huge = 128

abbrev pub Words : Type 0
Words = ℕ → ℕ

pub record Mapper : Type 0 where
  pub bump : BumpAllocator
  pub pml4_phys : ℕ
  pub table_pages : ℕ
  pub memory : Words

pub data MapError : Type 0 where
  no_table_page collision conflict_4k conflict_2m not_aligned no_kernel kernel_low no_cr3
        no_kernel_pml4 not_lower :
      MapError

abbrev pub MapAct : Type 0 → Type 0
MapAct A = Exec MapError Mapper A

-- `virt.write_bytes(0, PAGE)`
abbrev pub zeroed : ℕ → Words → Words
zeroed at memory a = if leb at a && ltb a (at + page) then 0 else memory a

abbrev pub written : ℕ → ℕ → Words → Words
written at word memory a = if nat_eq a at then word else memory a

unfoldable pub alloc_table : MapAct ℕ
alloc_table m =
    let (found, bump) = alloc_pages 1 m.bump in
    elim found [
      | none ↦ (err no_table_page, record m { bump = bump })
      | some (phys, at) ↦ (
        ok phys,
        record m {
          bump = bump;
          memory = zeroed at m.memory;
          table_pages = (m.table_pages + 1) % u64_mod;
        },
      )
    ]

abbrev pub entry : Mapper → ℕ → ℕ → ℕ
entry m table index = (virt m.bump table + 8 * index) % u64_mod

-- `slot.read()` and `slot.write(..)`
abbrev pub word_at : Mapper → ℕ → ℕ → ℕ
word_at m table index = m.memory (entry m table index)

abbrev pub put : ℕ → ℕ → ℕ → Mapper → Mapper
put table index word m = record m { memory = written (entry m table index) word m.memory }

unfoldable pub ensure_table : ℕ → ℕ → MapAct ℕ
unfolding alloc_table
ensure_table table index m =
    let current = word_at m table index in
    if is_present current
    then if is_huge current then (err collision, m) else (ok (phys_part current), m)
    else (do next ← alloc_table; modify (put table index (next + table_flags)); pure next) m

abbrev pub pml4_index : ℕ → ℕ
pml4_index va = va / 2 ^ 39 % 512

abbrev pub pdpt_index : ℕ → ℕ
pdpt_index va = va / 2 ^ 30 % 512

abbrev pub pd_index : ℕ → ℕ
pd_index va = va / 2 ^ 21 % 512

abbrev pub pt_index : ℕ → ℕ
pt_index va = va / 2 ^ 12 % 512

-- the leaf of `map_4k`
unfoldable pub set_4k : ℕ → ℕ → ℕ → MapAct (Unit {0})
set_4k pt index phys m =
    let current = word_at m pt index in
    if is_present current
    then if nat_eq (phys_part current) (phys_part phys) then (ok tt, m) else (err conflict_4k, m)
    else (ok tt, put pt index (phys_part phys + page_flags) m)

unfoldable pub map_4k : ℕ → ℕ → MapAct (Unit {0})
unfolding ensure_table set_4k
map_4k at phys = do
  pml4 ← gets (λ m. m.pml4_phys)
  pdpt ← ensure_table pml4 (pml4_index at)
  pd ← ensure_table pdpt (pdpt_index at)
  pt ← ensure_table pd (pd_index at)
  set_4k pt (pt_index at) phys

-- the leaf of `map_2m`
unfoldable pub set_2m : ℕ → ℕ → ℕ → MapAct (Unit {0})
set_2m pd index phys m =
    let current = word_at m pd index in
    if is_present current
    then if not (is_huge current)
      then (err collision, m)
      else if nat_eq (phys_part current) (phys_part phys)
      then (ok tt, m)
      else (err conflict_2m, m)
    else (ok tt, put pd index (phys_part phys + (page_flags + huge)) m)

unfoldable pub map_2m : ℕ → ℕ → MapAct (Unit {0})
unfolding ensure_table set_2m
map_2m at phys = do
  pml4 ← gets (λ m. m.pml4_phys)
  pdpt ← ensure_table pml4 (pml4_index at)
  pd ← ensure_table pdpt (pdpt_index at)
  set_2m pd (pd_index at) phys

-- `len >= HUGE_2M && (virt | phys) & (HUGE_2M - 1) == 0`
abbrev pub takes_2m : ℕ → ℕ → ℕ → Bool
takes_2m at phys len = leb huge_2m len && (nat_eq (at % huge_2m) 0 && nat_eq (phys % huge_2m) 0)

-- The loop of `map_range`. Each round takes a page off `len`, so as many rounds as there are pages
-- are enough.
unfoldable pub map_loop : ℕ → ℕ → ℕ → ℕ → MapAct (Unit {0})
unfolding map_4k map_2m
map_loop zero at phys len = pure tt
map_loop (suc fuel) at phys len =
    let big =
      map_loop fuel ((at + huge_2m) % u64_mod) ((phys + huge_2m) % u64_mod) (len - huge_2m) in
    let small = map_loop fuel ((at + page) % u64_mod) ((phys + page) % u64_mod) (len - page) in
    if ltb len page
    then pure tt
    else if takes_2m at phys len
    then map_2m at phys >> big
    else map_4k at phys >> small

unfoldable pub map_range : ℕ → ℕ → ℕ → MapAct (Unit {0})
unfolding map_loop
map_range at phys len =
    if not (nat_eq (at % page) 0) || not (nat_eq (phys % page) 0)
    then raise not_aligned
    else map_loop (len / page) at phys (len / page * page)
