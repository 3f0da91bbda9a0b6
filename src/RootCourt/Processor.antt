-- ===== src/RootCourt/Processor.antt =====
-- crates/root-court/src/gdt.rs, idt.rs and stack.rs: the tables that the processors read, and their
-- stacks. Where the linker put the statics is an argument. `|` of fields that do not overlap is a sum.
pub mod Decode
pub mod Stacks
mod Tests
use court_kernel.Prelude.{
  ℕ, zero, suc, ◌+◌, ◌-◌, ◌*◌, ◌/◌, ◌%◌, ◌^◌, List, [], ◌∷◌, none, some, Result, ok, err, Exec,
  ◌||◌, nat_eq, ltb, leb, if◌then◌else◌,
}
use court_kernel.Hosted.Types.{u64_mod}
use court_kernel.RootCourt.Mm.{page, BumpAllocator, alloc_pages, saturating_add}
use court_kernel.RootCourt.Paging.{Words}
use court_kernel.RootCourt.Loader.Bytes.{cleared}

abbrev pub max_cpus : ℕ
max_cpus = 8

abbrev pub ist_bytes : ℕ
ist_bytes = 16 * 1024

-- `size_of::<Tss>()`, and `size_of::<Gdt>()`, five words that are aligned on two
abbrev pub tss_size : ℕ
tss_size = 104

abbrev pub gdt_size : ℕ
gdt_size = 48

abbrev pub kernel_code : ℕ
kernel_code = 0x0020_9A00_0000_0000

abbrev pub kernel_data : ℕ
kernel_data = 0x0000_9200_0000_0000

-- `Tss`, without its reserved fields
pub record Tss : Type 0 where
  pub rsp0 : ℕ
  pub rsp1 : ℕ
  pub rsp2 : ℕ
  pub ist : List ℕ
  pub iomap_base : ℕ

unfoldable pub tss_descriptor : ℕ → ℕ → ℕ × ℕ
tss_descriptor base limit = (
  limit % 2 ^ 16
      + base % 2 ^ 24 * 2 ^ 16
      + 0x89 * 2 ^ 40
      + limit / 2 ^ 16 % 16 * 2 ^ 48
      + base / 2 ^ 24 % 256 * 2 ^ 56,
  base / 2 ^ 32,
)

-- The statics `GDTS` and `TSSS`, by the number of the processor.
pub record Descriptors : Type 0 where
  pub gdts : ℕ → List ℕ
  pub tsss : ℕ → Tss

module _ (tsss_at ists_at : ℕ) where
  abbrev pub tss_at : ℕ → ℕ
  tss_at cpu = tsss_at + cpu * tss_size

  abbrev pub ist_top : ℕ → ℕ
  ist_top cpu = ists_at + cpu * ist_bytes + ist_bytes

  -- one round of `gdt::init`
  unfoldable pub fill_cpu : ℕ → Descriptors → Descriptors
  unfolding tss_descriptor
  fill_cpu cpu d =
      let (low, high) = tss_descriptor (tss_at cpu) (tss_size - 1) in
      record {
        gdts =
            λ i. if nat_eq i cpu then 0 ∷ kernel_code ∷ kernel_data ∷ low ∷ high ∷ [] else d.gdts i;
        tsss = λ i.
            if nat_eq i cpu
            then record {
              rsp0 = 0;
              rsp1 = 0;
              rsp2 = 0;
              ist = ist_top cpu ∷ 0 ∷ 0 ∷ 0 ∷ 0 ∷ 0 ∷ 0 ∷ [];
              iomap_base = tss_size;
            }
            else d.tsss i;
      }

  unfoldable pub fill_cpus : ℕ → ℕ → Descriptors → Descriptors
  unfolding fill_cpu
  fill_cpus zero cpu d = d
  fill_cpus (suc left) cpu d = fill_cpus left (cpu + 1) (fill_cpu cpu d)

  -- `gdt::init`
  unfoldable pub init_gdt : Descriptors → Descriptors
  unfolding fill_cpus
  init_gdt d = fill_cpus max_cpus 0 d

-- what `gdt::load` hands to the processor: the limit and the base of the processor's table
unfoldable pub load_gdt : ℕ → ℕ → Result (Unit {0}) (ℕ × ℕ)
load_gdt gdts_at cpu_id =
    if leb max_cpus cpu_id then err tt else ok (5 * 8 - 1, gdts_at + cpu_id * gdt_size)

pub record IdtEntry : Type 0 where
  pub offset_low : ℕ
  pub selector : ℕ
  pub ist : ℕ
  pub flags : ℕ
  pub offset_mid : ℕ
  pub offset_high : ℕ

abbrev pub stub_stride : ℕ
stub_stride = 16

abbrev pub stub : ℕ → ℕ → ℕ
stub table vec = (table + vec * stub_stride) % u64_mod

unfoldable pub gate : ℕ → ℕ → IdtEntry
gate offset ist = record {
  offset_low = offset % 2 ^ 16;
  selector = 8;
  ist = ist;
  flags = 0x8E;
  offset_mid = offset / 2 ^ 16 % 2 ^ 16;
  offset_high = offset / 2 ^ 32 % 2 ^ 32;
}

-- The loop of `idt::init`, with the number of vectors left.
unfoldable pub fill_idt : ℕ → ℕ → ℕ → (ℕ → IdtEntry) → ℕ → IdtEntry
unfolding gate
fill_idt table zero vec idt = idt
fill_idt table (suc left) vec idt =
    fill_idt table left (vec + 1)
      (λ i. if nat_eq i vec then gate (stub table vec) (if nat_eq vec 8 then 1 else 0) else idt i)

-- `idt::init`, of which the test of the stride holds by the definition of `stub`
unfoldable pub init_idt : ℕ → (ℕ → IdtEntry) → ℕ → IdtEntry
unfolding fill_idt
init_idt table idt = fill_idt table 256 0 idt

-- The allocator, memory, and `TOPS`.
pub record Boot : Type 0 where
  pub bump : BumpAllocator
  pub memory : Words
  pub tops : ℕ → ℕ

pub data StackError : Type 0 where
  bad_cpu_count no_stack_pages : StackError

abbrev pub stack_pages : ℕ
stack_pages = 16

abbrev pub stack_bytes : ℕ
stack_bytes = stack_pages * page

-- `saturating_add(STACK_SIZE) & !0xF`
abbrev pub stack_top : ℕ → ℕ
stack_top at = saturating_add at stack_bytes / 16 * 16

-- The loop of `alloc_all`, with the number of processors left.
unfoldable pub alloc_stacks : ℕ → ℕ → Exec StackError Boot (Unit {0})
alloc_stacks zero cpu b = (ok tt, b)
alloc_stacks (suc left) cpu b =
    let (found, bump) = alloc_pages stack_pages b.bump in
    elim found [
      | none ↦ (err no_stack_pages, record b { bump = bump })
      | some (phys, at) ↦ alloc_stacks left (cpu + 1) (record {
        bump = bump;
        memory = cleared at stack_bytes b.memory;
        tops = λ i. if nat_eq i cpu then stack_top at else b.tops i;
      })
    ]

unfoldable pub alloc_all : ℕ → Exec StackError Boot (Unit {0})
unfolding alloc_stacks
alloc_all ncpu b =
    if nat_eq ncpu 0 || ltb max_cpus ncpu then (err bad_cpu_count, b) else alloc_stacks ncpu 0 b

-- `stack::top`
abbrev pub top_of : Boot → ℕ → ℕ
top_of b cpu = if leb max_cpus cpu then 0 else b.tops cpu
