-- ===== src/RootCourt/Paging/Fixtures.antt =====
-- crates/root-court/src/paging.rs: a kernel with eight megabytes of memory, and one court.
use court_kernel.Prelude.{ℕ, ◌+◌, ◌≡◌, refl, false, [], ◌∷◌, ok, arith}
use court_kernel.Prelude.Chain.{◌>>=◌, ◌>>◌}
use court_kernel.RootCourt.Mm.{MemmapEntry, BumpAllocator, alloc_pages}
use court_kernel.RootCourt.Paging.{phys_part, map_range}
use court_kernel.RootCourt.Paging.Build.{Kernel, mapper, build, PageMap}
use court_kernel.RootCourt.Paging.Space.{AddressSpace, clone_kernel, clone_into}
use court_kernel.RootCourt.Paging.Tree.{IsMapper, IsTree}
use court_kernel.RootCourt.Paging.Built.{kernel_tables, IsBuilt, build_lem}
use court_kernel.RootCourt.Paging.Clone.{clone_kernel-IsTree, cloned}

abbrev pub region : BumpAllocator
region = record {
  hhdm = 0xffff_8000_0000_0000;
  start = 0x10_0000;
  cursor = 0x10_0000;
  end = 0x710_0000;
}

abbrev pub cold : Kernel
cold = record { bump = region; memory = λ _. 0; root_cr3 = 0; kernel_pml4 = 0; loaded_cr3 = 0 }

pub cold-IsMapper : IsMapper (mapper cold 0 0)
cold-IsMapper = record {
  bump = record { aligned = refl; low = omega arith; high = omega arith; fits = omega arith };
  flat = omega arith;
  even = refl;
  small = omega arith;
}

abbrev pub image : ℕ
image = 0xffff_ffff_8000_0000

abbrev pub low_memory : MemmapEntry
low_memory = record { base = 0; length = 0x80_0000; kind = 0 }

abbrev pub page_map : PageMap
page_map = record {
  pml4_phys = 0x10_0000;
  kernel_virt = image;
  kernel_phys = 0x20_0000;
  kernel_len = 0x3000;
  hhdm_bytes = 0x80_0000;
  hhdm_spans = 1;
  table_pages = 6;
}

abbrev pub booted : Kernel
booted =
    (build 0xffff_8000_0000_0000 0x20_0000 image image (image + 0x2800) false (low_memory ∷ [])
      cold).1

pub built :
    (build 0xffff_8000_0000_0000 0x20_0000 image image
      (image + 0x2800)
      false
      (low_memory ∷ [])
      cold).0
    ≡ ok page_map
unfolding build map_range ◌>>◌ ◌>>=◌ alloc_pages phys_part
built = refl

pub booted-IsBuilt :
    IsBuilt 0xffff_8000_0000_0000 0x20_0000 image image
      (image + 0x2800)
      false
      (low_memory ∷ [])
      (kernel_tables booted)
booted-IsBuilt =
    build_lem 0xffff_8000_0000_0000 0x20_0000 image image (image + 0x2800) false (low_memory ∷ [])
      cold page_map cold-IsMapper built

-- a court's address space, from the kernel that was built
abbrev pub space : AddressSpace
space = record { cr3 = 0x10_6000; pml4_phys = 0x10_6000 }

pub cloned_ok : (clone_kernel false booted).0 ≡ ok space
unfolding clone_kernel clone_into build map_range ◌>>◌ ◌>>=◌ alloc_pages phys_part
cloned_ok = refl

abbrev pub with_court : Kernel
with_court = (clone_kernel false booted).1

abbrev pub court_levels : ℕ → ℕ
court_levels = cloned booted-IsBuilt.0.0 booted.bump.cursor

pub court-IsTree :
    IsTree court_levels (mapper with_court 0x10_6000 0)
    × IsTree court_levels (kernel_tables with_court)
court-IsTree =
    clone_kernel-IsTree false booted-IsBuilt.0.0 booted space booted-IsBuilt.0.1 cloned_ok
