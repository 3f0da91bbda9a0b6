-- ===== src/RootCourt/Loader.antt =====
-- crates/root-court/src/image.rs: `load` maps the segments of a court's image into its address space.
-- The image is a list of bytes; `usize` is 64 bits wide. What an error leaves behind (pages that were
-- taken, segments that were mapped) stays in the state.
pub mod Bytes
pub mod Frames
pub mod Placed
pub mod Contents
pub mod Reads
pub mod Loaded
pub mod Image
pub mod Sound
pub mod Fixtures
mod Tests
use court_kernel.Prelude.{
  ℕ, zero, suc, ◌+◌, ◌-◌, ◌*◌, ◌/◌, ◌%◌, ◌^◌, Bool, true, false, not, ◌&&◌, ◌||◌, none, some, List,
  Result, ok, err, Exec, lift, pure, raise, modify, guard, length, load as load_bytes, from_le, ltb,
  leb, nat_eq, if◌then◌else◌,
}
use court_kernel.Prelude.Chain.{◌>>=◌, ◌>>◌}
use court_kernel.Hosted.Types.{u64_mod}
use court_kernel.RootCourt.Mm.{page, alloc_pages}
use court_kernel.RootCourt.Paging.{MapError}
use court_kernel.RootCourt.Paging.Build.{Kernel, KernelAct}
use court_kernel.RootCourt.Paging.Space.{AddressSpace, map_in}
use court_kernel.RootCourt.Loader.Bytes.{byte_at, cleared, copied}

-- The errors of bringing up a court: those of `load`, and those of the pages around an image.
pub data LoadError : Type 0 where
  truncated not_elf not_elf64_le bad_abi bad_type not_x86_64 bad_phentsize bad_phnum phdr_overflow
        phdrs_truncated out_of_bounds not_lower_half segment_too_large filesz_over_memsz
        segment_overflow no_pages file_overflow file_truncated entry_not_loaded no_ring_page
        no_boot_page no_stack :
      LoadError
  not_mapped : MapError → LoadError

abbrev pub LoadAct : Type 0 → Type 0
LoadAct A = Exec LoadError Kernel A

abbrev pub max_phdrs : ℕ
max_phdrs = 8

abbrev pub max_segment : ℕ
max_segment = 128 * 1024

abbrev pub ehsize : ℕ
ehsize = 64

abbrev pub phdr_size : ℕ
phdr_size = 56

abbrev pub lower_half_end : ℕ
lower_half_end = 0x800000000000

-- the `width` bytes at `off`, as a little-endian number
abbrev pub field : List ℕ → ℕ → ℕ → ℕ
field image off width = from_le (load_bytes (byte_at image) off width)

-- `read_u16`, `read_u32` and `read_u64`, by their width
abbrev pub read_le : ℕ → List ℕ → ℕ → Result LoadError ℕ
read_le width image off =
    if leb (off + width) (length image) then ok (field image off width) else err out_of_bounds

pub record Header : Type 0 where
  pub entry : ℕ
  pub phoff : ℕ
  pub phnum : ℕ

abbrev pub is_elf : List ℕ → Bool
is_elf image =
    nat_eq (byte_at image 0) 0x7f
    && (nat_eq (byte_at image 1) 0x45
        && (nat_eq (byte_at image 2) 0x4c && nat_eq (byte_at image 3) 0x46))

-- the checks of the identification
unfoldable pub check_ident : List ℕ → LoadAct (Unit {0})
check_ident image = do
  lift (guard (leb ehsize (length image)) truncated)
  lift (guard (is_elf image) not_elf)
  lift (guard (nat_eq (byte_at image 4) 2 && nat_eq (byte_at image 5) 1) not_elf64_le)
  lift (guard (nat_eq (byte_at image 7) 0 || nat_eq (byte_at image 7) 3) bad_abi)

-- the checks of the fields, up to the bounds of the program headers
unfoldable pub read_fields : List ℕ → LoadAct Header
read_fields image = do
  e_type ← lift (read_le 2 image 16)
  lift (guard (nat_eq e_type 2 || nat_eq e_type 3) bad_type)
  machine ← lift (read_le 2 image 18)
  lift (guard (nat_eq machine 62) not_x86_64)
  entry ← lift (read_le 8 image 24)
  phoff ← lift (read_le 8 image 32)
  phentsize ← lift (read_le 2 image 54)
  phnum ← lift (read_le 2 image 56)
  lift (guard (nat_eq phentsize phdr_size) bad_phentsize)
  lift (guard (not (nat_eq phnum 0 || ltb max_phdrs phnum)) bad_phnum)
  lift (guard (ltb (phnum * phentsize) u64_mod) phdr_overflow)
  lift (guard (ltb (phoff + phnum * phentsize) u64_mod) phdr_overflow)
  lift (guard (leb (phoff + phnum * phentsize) (length image)) phdrs_truncated)
  pure (record { entry = entry; phoff = phoff; phnum = phnum })

-- What a program header of kind PT_LOAD says.
pub record Segment : Type 0 where
  pub offset : ℕ
  pub vaddr : ℕ
  pub filesz : ℕ
  pub memsz : ℕ

abbrev pub page_off : Segment → ℕ
page_off s = s.vaddr % page

-- `map_len.div_ceil(PAGE)`
abbrev pub segment_pages : Segment → ℕ
segment_pages s = (page_off s + s.memsz + (page - 1)) / page

unfoldable pub check_segment : Segment → LoadAct (Unit {0})
check_segment s = do
  lift (guard (ltb s.vaddr lower_half_end) not_lower_half)
  lift (guard (leb s.memsz max_segment) segment_too_large)
  lift (guard (leb s.filesz s.memsz) filesz_over_memsz)
  lift (guard (ltb (page_off s + s.memsz) u64_mod) segment_overflow)

-- `bump.alloc_pages(..)` with its error
unfoldable pub take_pages : LoadError → ℕ → LoadAct (ℕ × ℕ)
take_pages e pages k =
    let (found, bump) = alloc_pages pages k.bump in
    elim found [
      | none ↦ (err e, record k { bump = bump })
      | some x ↦ (ok x, record k { bump = bump })
    ]

abbrev pub clear_pages : ℕ → ℕ → LoadAct (Unit {0})
clear_pages at len = modify (λ k. record k { memory = cleared at len k.memory })

-- The bytes of the file, which are copied behind the start of the first page.
unfoldable pub copy_file : List ℕ → Segment → ℕ → LoadAct (Unit {0})
copy_file image s at = if nat_eq s.filesz 0 then pure tt else (do
  lift (guard (ltb (s.offset + s.filesz) u64_mod) file_overflow)
  lift (guard (leb (s.offset + s.filesz) (length image)) file_truncated)
  modify (λ k. record k {
    memory = copied (at + page_off s) (load_bytes (byte_at image) s.offset s.filesz) k.memory;
  }))

-- `?` on a call of the mapper
unfoldable pub mapping : {A : Type 0} → KernelAct A → LoadAct A
mapping act k =
    let (res, k') = act k in elim res [ ok x ↦ (ok x, k') | err e ↦ (err (not_mapped e), k') ]

unfoldable pub map_segment : AddressSpace → List ℕ → Segment → LoadAct (Unit {0})
unfolding take_pages copy_file mapping
map_segment space image s = do
  (phys, virt) ← take_pages no_pages (segment_pages s)
  clear_pages virt (segment_pages s * page)
  copy_file image s virt
  mapping (map_in space (s.vaddr - page_off s) phys (segment_pages s * page))

unfoldable pub read_segment : List ℕ → ℕ → LoadAct Segment
read_segment image off = do
  offset ← lift (read_le 8 image (off + 8))
  vaddr ← lift (read_le 8 image (off + 16))
  filesz ← lift (read_le 8 image (off + 32))
  memsz ← lift (read_le 8 image (off + 40))
  pure (record { offset = offset; vaddr = vaddr; filesz = filesz; memsz = memsz })

abbrev pub holds_entry : Header → Segment → Bool
holds_entry h s = leb s.vaddr h.entry && ltb h.entry (s.vaddr + s.memsz)

-- A header of kind PT_LOAD.
unfoldable pub load_pt_load : AddressSpace → List ℕ → Header → Segment → LoadAct Bool
unfolding check_segment map_segment
load_pt_load space image h s =
    if nat_eq s.memsz 0
    then pure false
    else (do check_segment s; map_segment space image s; pure (holds_entry h s))

-- One round of the loop: whether the segment holds the entry point.
unfoldable pub load_segment : AddressSpace → List ℕ → Header → ℕ → LoadAct Bool
unfolding read_segment load_pt_load
load_segment space image h off = do
  kind ← lift (read_le 4 image off)
  if not (nat_eq kind 1)
      then pure false
      else (do s ← read_segment image off; load_pt_load space image h s)

-- The loop, with the number of headers left, the index, and whether the entry was seen.
unfoldable pub load_segments : ℕ → ℕ → AddressSpace → List ℕ → Header → Bool → LoadAct Bool
unfolding load_segment
load_segments zero index space image h mapped_entry = pure mapped_entry
load_segments (suc left) index space image h mapped_entry = do
  found ← load_segment space image h (h.phoff + index * phdr_size)
  load_segments left (index + 1) space image h (mapped_entry || found)

unfoldable pub load : AddressSpace → List ℕ → LoadAct ℕ
unfolding check_ident read_fields load_segments
load space image = do
  check_ident image
  h ← read_fields image
  mapped_entry ← load_segments h.phnum 0 space image h false
  if mapped_entry then pure h.entry else raise entry_not_loaded
