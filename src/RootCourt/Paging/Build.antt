-- ===== src/RootCourt/Paging/Build.antt =====
-- crates/root-court/src/paging.rs: `build`, and the address spaces of courts. The statics and the
-- register CR3 are fields, the bounds of the kernel's image and whether the processor walks five
-- levels are arguments.
use court_kernel.Prelude.{
  ℕ, ◌+◌, ◌-◌, ◌*◌, ◌/◌, ◌%◌, Bool, ◌&&◌, ◌||◌, List, [], ◌∷◌, Exec, gets, pure, raise, modify, ltb,
  leb, nat_eq, if◌then◌else◌,
}
use court_kernel.Prelude.Chain.{◌>>=◌, ◌>>◌}
use court_kernel.Hosted.Types.{u64_mod}
use court_kernel.RootCourt.Mm.{page, MemmapEntry, BumpAllocator, saturating_add}
use court_kernel.RootCourt.Paging.{
  Mapper, MapError, MapAct, no_kernel, kernel_low, no_cr3, Words, table_flags, alloc_table, put,
  map_range,
}

-- `align_up` and `align_down`, for an alignment that is a power of two
abbrev pub align_up : ℕ → ℕ → ℕ
align_up value align = saturating_add value (align - 1) / align * align

abbrev pub align_down : ℕ → ℕ → ℕ
align_down value align = value / align * align

-- `hhdm_mapped_rev3`
abbrev pub hhdm_mapped_rev3 : ℕ → Bool
hhdm_mapped_rev3 kind = nat_eq kind 0 || nat_eq kind 5 || nat_eq kind 6 || nat_eq kind 7

unfoldable pub wrap_la57 : ℕ → MapAct ℕ
wrap_la57 pml4_phys = do
  pml5 ← alloc_table
  modify (put pml5 511 (pml4_phys + table_flags))
  pure pml5

abbrev pub cr3_of : Bool → ℕ → MapAct ℕ
cr3_of la57 pml4_phys = if la57 then wrap_la57 pml4_phys else pure pml4_phys

pub record Kernel : Type 0 where
  pub bump : BumpAllocator
  pub memory : Words
  pub root_cr3 : ℕ
  pub kernel_pml4 : ℕ
  pub loaded_cr3 : ℕ

abbrev pub KernelAct : Type 0 → Type 0
KernelAct A = Exec MapError Kernel A

-- A mapper that borrows the allocator.
abbrev pub mapper : Kernel → ℕ → ℕ → Mapper
mapper k pml4_phys table_pages = record {
  bump = k.bump;
  pml4_phys = pml4_phys;
  table_pages = table_pages;
  memory = k.memory;
}

abbrev pub with_mapper : {A : Type 0} → ℕ → ℕ → MapAct A → KernelAct A
with_mapper pml4_phys table_pages act k =
    let (res, m) = act (mapper k pml4_phys table_pages) in
    (res, record k { bump = m.bump; memory = m.memory })

-- what the loop over the memory map counts
pub record Hhdm : Type 0 where
  pub bytes : ℕ
  pub spans : ℕ

pub record PageMap : Type 0 where
  pub pml4_phys : ℕ
  pub kernel_virt : ℕ
  pub kernel_phys : ℕ
  pub kernel_len : ℕ
  pub hhdm_bytes : ℕ
  pub hhdm_spans : ℕ
  pub table_pages : ℕ

-- Where the image of the kernel lies in memory.
abbrev pub kernel_phys : ℕ → ℕ → ℕ → ℕ
kernel_phys kernel_phys_base kernel_virt_base kstart =
    (kernel_phys_base + (kstart - kernel_virt_base)) % u64_mod

module _ (hhdm kernel_phys_base kernel_virt_base : ℕ) where
  -- the image of the kernel and its modules at their own addresses
  unfoldable pub map_executable : ℕ → ℕ → ℕ → MapAct (Unit {0})
  map_executable kind start len =
      if nat_eq kind 6 && leb kernel_phys_base start
      then map_range ((kernel_virt_base + (start - kernel_phys_base)) % u64_mod) start len
      else pure tt

  unfoldable pub map_direct : ℕ → ℕ → ℕ → Hhdm → MapAct Hhdm
  map_direct kind start len seen =
      if hhdm_mapped_rev3 kind
      then (do
        map_range ((hhdm + start) % u64_mod) start len
        pure (record { bytes = saturating_add seen.bytes len; spans = seen.spans + 1 }))
      else pure seen

  unfoldable pub map_entry : MemmapEntry → Hhdm → MapAct Hhdm
  unfolding map_executable map_direct
  map_entry entry seen =
      let start = align_up entry.base page in
      let end = align_down (saturating_add entry.base entry.length) page in
      if nat_eq entry.length 0
      then pure seen
      else if leb end start
      then pure seen
      else map_executable entry.kind start (end - start)
        >> map_direct entry.kind start (end - start) seen

  unfoldable pub map_entries : List MemmapEntry → Hhdm → MapAct Hhdm
  unfolding map_entry
  map_entries [] seen = pure seen
  map_entries (entry ∷ entries) seen = map_entry entry seen >>= map_entries entries

  module _ (kstart kend : ℕ) (la57 : Bool) where
    abbrev pub page_map : Hhdm → ℕ → ℕ → PageMap
    page_map seen cr3 pages = record {
      pml4_phys = cr3;
      kernel_virt = kstart;
      kernel_phys = kernel_phys kernel_phys_base kernel_virt_base kstart;
      kernel_len = align_up (kend - kstart) page;
      hhdm_bytes = seen.bytes;
      hhdm_spans = seen.spans;
      table_pages = pages;
    }

    -- `build` after the loop
    unfoldable pub finish : Hhdm → MapAct PageMap
    finish seen = do
      pml4_phys ← gets (λ m. m.pml4_phys)
      cr3 ← cr3_of la57 pml4_phys
      gets (λ m. page_map seen cr3 m.table_pages)

    -- `build` from the first `map_range` on
    unfoldable pub fill : List MemmapEntry → MapAct PageMap
    unfolding map_entries finish
    fill entries = do
      map_range kstart (kernel_phys kernel_phys_base kernel_virt_base kstart)
          (align_up (kend - kstart) page)
      seen ← map_entries entries (record { bytes = 0; spans = 0 })
      finish seen

    unfoldable pub build : List MemmapEntry → KernelAct PageMap
    unfolding fill
    build entries =
        if leb kend kstart
        then raise no_kernel
        else if ltb kstart kernel_virt_base
        then raise kernel_low
        else (do
          pml4_phys ← with_mapper 0 0 alloc_table
          modify (λ k. record k { kernel_pml4 = pml4_phys })
          with_mapper pml4_phys 1 (fill entries))

abbrev pub publish : ℕ → Kernel → Kernel
publish pml4_phys k = record k { root_cr3 = pml4_phys }

abbrev pub activate : ℕ → Kernel → Kernel
activate pml4_phys k = record k { root_cr3 = pml4_phys; loaded_cr3 = pml4_phys }

unfoldable pub load_published : KernelAct (Unit {0})
load_published = do
  phys ← gets (λ k. k.root_cr3)
  if nat_eq phys 0 then raise no_cr3 else modify (λ k. record k { loaded_cr3 = phys })
