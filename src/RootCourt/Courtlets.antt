-- ===== src/RootCourt/Courtlets.antt =====
-- crates/root-court/src/courtlet.rs: `spawn` gives a court an address space with its image, its boot
-- block, the shared ring and a stack. The boot block and the ring are words in memory.
pub mod Block
pub mod Spawned
pub mod Demo
mod Tests
use court_kernel.Prelude.{ℕ, ◌+◌, ◌*◌, ◌^◌, Bool, String, List, [], ◌∷◌, pure, modify}
use court_kernel.Prelude.Chain.{◌>>=◌, ◌>>◌}
use court_kernel.Images.{boot_magic, abi_ring_magic, ring_va, slot_len, ring_capacity, BootInfo}
use court_kernel.RootCourt.Mm.{page}
use court_kernel.RootCourt.Paging.{Words, written}
use court_kernel.RootCourt.Paging.Space.{AddressSpace, clone_kernel, map_in}
use court_kernel.RootCourt.Loader.{
  LoadError, LoadAct, no_boot_page, no_stack, take_pages, clear_pages, mapping, load,
}

abbrev pub boot_va : ℕ
boot_va = 0x0020_0000

abbrev pub stack_va : ℕ
stack_va = 0x0040_0000

abbrev pub stack_count : ℕ
stack_count = 8

abbrev pub stack_size : ℕ
stack_size = stack_count * page

pub record Courtlet : Type 0 where
  pub name : String
  pub cr3 : ℕ
  pub space : AddressSpace
  pub stack_top : ℕ
  pub boot : ℕ
  pub entry : ℕ

-- a structure of 64-bit fields that is written at an address
unfoldable pub write_words : ℕ → List ℕ → Words → Words
write_words at [] memory = memory
write_words at (w ∷ ws) memory = write_words (at + 8) ws (written at w memory)

abbrev pub boot_words : BootInfo → List ℕ
boot_words b = b.magic ∷ b.cap_id ∷ b.rights ∷ b.ring_virt ∷ b.court_id ∷ []

-- The ring's header; the two numbers of 32 bits share a word.
abbrev pub ring_words : List ℕ
ring_words = abi_ring_magic ∷ (ring_capacity + slot_len * 2 ^ 32) ∷ 0 ∷ 0 ∷ 0 ∷ []

-- Pages that are taken, cleared, and get words written at their start.
unfoldable pub new_block : LoadError → ℕ → List ℕ → LoadAct (ℕ × ℕ)
unfolding take_pages write_words
new_block e pages ws = do
  (phys, virt) ← take_pages e pages
  clear_pages virt (pages * page)
  modify (λ k. record k { memory = write_words virt ws k.memory })
  pure (phys, virt)

-- The three maps of `spawn`.
unfoldable pub map_court : AddressSpace → ℕ → ℕ → ℕ → LoadAct (Unit {0})
unfolding mapping
map_court space boot_phys ring_phys stack_phys = do
  mapping (map_in space boot_va boot_phys page)
  mapping (map_in space ring_va ring_phys page)
  mapping (map_in space stack_va stack_phys stack_size)

-- The boot block of a court.
abbrev pub boot_info : ℕ → ℕ → ℕ → BootInfo
boot_info cap_id rights court_id = record {
  magic = boot_magic;
  cap_id = cap_id;
  rights = rights;
  ring_virt = ring_va;
  court_id = court_id;
}

-- `spawn`, in a space that was cloned
unfoldable pub fill_space : AddressSpace → String → List ℕ → ℕ → ℕ → ℕ → ℕ → LoadAct Courtlet
unfolding load new_block map_court
fill_space space name image cap_id rights court_id ring_phys = do
  entry ← load space image
  (boot_phys, boot) ← new_block no_boot_page 1 (boot_words (boot_info cap_id rights court_id))
  (stack_phys, _) ← new_block no_stack stack_count []
  map_court space boot_phys ring_phys stack_phys
  pure (record {
    name = name;
    cr3 = space.cr3;
    space = space;
    stack_top = stack_va + stack_size;
    boot = boot;
    entry = entry;
  })

unfoldable pub spawn : Bool → String → List ℕ → ℕ → ℕ → ℕ → ℕ → LoadAct Courtlet
unfolding fill_space mapping
spawn la57 name image cap_id rights court_id ring_phys = do
  space ← mapping (clone_kernel la57)
  fill_space space name image cap_id rights court_id ring_phys
