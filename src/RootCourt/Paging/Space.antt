-- ===== src/RootCourt/Paging/Space.antt =====
-- crates/root-court/src/paging.rs: `AddressSpace`, the tables of one court.
use court_kernel.Prelude.{
  ℕ, zero, suc, ◌+◌, Bool, gets, pure, raise, modify, leb, nat_eq, if◌then◌else◌,
}
use court_kernel.Prelude.Chain.{◌>>=◌, ◌>>◌}
use court_kernel.RootCourt.Paging.{
  Mapper, MapAct, no_kernel_pml4, not_lower, alloc_table, put, word_at, map_range,
}
use court_kernel.RootCourt.Paging.Build.{KernelAct, with_mapper, cr3_of}

pub record AddressSpace : Type 0 where
  pub cr3 : ℕ
  pub pml4_phys : ℕ

-- the loop of `clone_kernel`, with the number of entries that are copied so far
unfoldable pub copy_from : ℕ → ℕ → ℕ → ℕ → Mapper → Mapper
copy_from zero done source target m = m
copy_from (suc left) done source target m =
    copy_from left (done + 1) source target (put target done (word_at m source done) m)

unfoldable pub clone_into : Bool → ℕ → MapAct AddressSpace
clone_into la57 kernel_pml4 = do
  new_pml4 ← alloc_table
  modify (λ m. record m { pml4_phys = new_pml4 })
  modify (copy_from 512 0 kernel_pml4 new_pml4)
  cr3 ← cr3_of la57 new_pml4
  pure (record { cr3 = cr3; pml4_phys = new_pml4 })

unfoldable pub clone_kernel : Bool → KernelAct AddressSpace
unfolding clone_into
clone_kernel la57 = do
  kernel_pml4 ← gets (λ k. k.kernel_pml4)
  if nat_eq kernel_pml4 0
      then raise no_kernel_pml4
      else with_mapper 0 0 (clone_into la57 kernel_pml4)

-- `AddressSpace::map`
unfoldable pub map_in : AddressSpace → ℕ → ℕ → ℕ → KernelAct (Unit {0})
map_in space at phys len =
    if leb 0x800000000000 at
    then raise not_lower
    else with_mapper space.pml4_phys 0 (map_range at phys len)
