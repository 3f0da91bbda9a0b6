-- ===== src/RootCourt/Loader/Tests.antt =====
-- crates/root-court/src/image.rs: an image with one segment of code.
use court_kernel.Prelude.{
  length, ◌*◌, ◌≤◌, ◌<◌, ℕ, ◌+◌, ◌≡◌, refl, List, ◌∷◌, load as load_bytes, from_le, ok, err, some,
}
use court_kernel.Prelude.Chain.{◌>>=◌, ◌>>◌}
use court_kernel.RootCourt.Mm.{alloc_pages}
use court_kernel.RootCourt.Paging.{map_range, phys_part}
use court_kernel.RootCourt.Paging.Build.{mapper}
use court_kernel.RootCourt.Paging.Space.{AddressSpace, map_in, clone_kernel, clone_into, copy_from}
use court_kernel.RootCourt.Paging.Fixtures.{space, with_court, court_levels, court-IsTree}
use court_kernel.RootCourt.Paging.Tree.{IsTree}
use court_kernel.RootCourt.Paging.Build.{build}
use court_kernel.RootCourt.Loader.Reads.{header_of, nth_header}
use court_kernel.RootCourt.Loader.Image.{EntryIn}
use court_kernel.RootCourt.Loader.Sound.{Shows, load_lem, load_keeps, load_isolated}
use court_kernel.RootCourt.Paging.Walk.{translate}
use court_kernel.RootCourt.Loader.{load, not_elf, phdr_size}
use court_kernel.RootCourt.Loader.Fixtures.{zeros, image, image-IsBytes, one_header}
use court_kernel.RootCourt.Loader.Bytes.{byte_at, copied}

-- a file that is no image
abbrev broken : List ℕ
broken = 0x7f ∷ 0x45 ∷ zeros 70

loaded : (load space image with_court).0 ≡ ok 0x10_0079
unfolding load clone_kernel clone_into build map_in map_range alloc_pages phys_part byte_at from_le
    load_bytes copied copy_from ◌>>◌ ◌>>=◌
loaded = refl

broken_test : (load space broken with_court).0 ≡ err not_elf
unfolding load byte_at ◌>>◌ ◌>>=◌
broken_test = refl

abbrev kernel_space : AddressSpace
kernel_space = record { cr3 = with_court.root_cr3; pml4_phys = with_court.kernel_pml4 }

load_lem_example :
    let h = header_of image in
    let n = mapper (load space image with_court).1 0x10_6000 0 in
    (0x10_0079 ≡ h.entry)
    × (1 ≤ h.phnum × h.phnum ≤ 8 × h.phoff + h.phnum * phdr_size ≤ length image)
    × ((i : ℕ) → i < h.phnum → Shows image (nth_header image i) n)
    × ((i : ℕ) × i < h.phnum × EntryIn image (nth_header image i))
load_lem_example =
    load_lem court_levels with_court space image 0x10_0079 image-IsBytes court-IsTree.0 loaded

load_keeps_example :
    let t = (load space image with_court).1 in
    ((levels : ℕ → ℕ) × IsTree levels (mapper t 0x10_6000 0)
      × IsTree levels (mapper t with_court.kernel_pml4 0))
    × ((va x : ℕ)
        → translate (mapper with_court 0x10_6000 0) va ≡ some x
        → translate (mapper t 0x10_6000 0) va ≡ some x)
    × ((va x : ℕ)
        → translate (mapper with_court with_court.kernel_pml4 0) va ≡ some x
        → translate (mapper t with_court.kernel_pml4 0) va ≡ some x)
load_keeps_example =
    load_keeps court_levels with_court space image with_court.kernel_pml4 image-IsBytes
      court-IsTree.0 court-IsTree.1

load_isolated_example :
    Shows image
      (nth_header image 0)
      (mapper (load kernel_space image (load space image with_court).1).1 0x10_6000 0)
load_isolated_example =
    load_isolated court_levels with_court space kernel_space image image 0x10_0079 image-IsBytes
      image-IsBytes court-IsTree.0 court-IsTree.1 loaded 0 one_header
