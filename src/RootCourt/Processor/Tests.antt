-- ===== src/RootCourt/Processor/Tests.antt =====
-- crates/root-court/src/gdt.rs, idt.rs and stack.rs: the tables and stacks of a machine with two processors.
use court_kernel.Prelude.{
  ℕ, ◌+◌, ◌-◌, ◌*◌, ◌/◌, ◌%◌, ◌≤◌, ◌<◌, ◌≡◌, ◌≢◌, ◌⊎◌, refl, [], ok, err, nat_eq, arith,
  if◌then◌else◌,
}
use court_kernel.RootCourt.Loader.Bytes.{byte_at}
use court_kernel.RootCourt.Processor.{
  max_cpus, ist_bytes, tss_size, kernel_code, Descriptors, IdtEntry, tss_at, ist_top, init_gdt,
  init_idt, load_gdt, Boot, stack_bytes, alloc_all, top_of, bad_cpu_count,
}
use court_kernel.RootCourt.Processor.Decode.{
  interrupt_gate, offset_of, base_of, limit_of, access_of, tss_entry, interrupt_lem,
}
use court_kernel.RootCourt.Processor.Stacks.{IsBoot, alloc_all_lem}

abbrev statics : ℕ
statics = 0xffff_ffff_8001_0000

abbrev empty : Descriptors
empty = record {
  gdts = λ _. [];
  tsss = λ _. record { rsp0 = 0; rsp1 = 0; rsp2 = 0; ist = []; iomap_base = 0 };
}

abbrev no_gates : ℕ → IdtEntry
no_gates _ = record {
  offset_low = 0;
  selector = 0;
  ist = 0;
  flags = 0;
  offset_mid = 0;
  offset_high = 0;
}

zero_not_one : ◌≢◌ {A = ℕ} 0 1
zero_not_one e = omega arith

interrupt_lem_example :
    let g = init_gdt statics 0xffff_ffff_8002_0000 empty in
    let e = init_idt 0xffff_ffff_8000_0000 no_gates 8 in
    let entry =
      tss_entry statics 0xffff_ffff_8002_0000 0xffff_ffff_8000_0000 empty no_gates
        (omega arith)
        (omega arith)
        0 in
    (offset_of e ≡ 0xffff_ffff_8000_0000 + 8 * 16)
    × (byte_at (g.gdts 0) (e.selector / 8) ≡ kernel_code)
    × (e.flags ≡ interrupt_gate)
    × (e.ist ≡ (if nat_eq 8 8 then 1 else 0))
    × (base_of entry ≡ tss_at statics 0xffff_ffff_8002_0000 0)
    × (limit_of entry ≡ tss_size - 1)
    × (access_of entry ≡ 0x89)
    × (byte_at (g.tsss 0).ist 0 ≡ ist_top statics 0xffff_ffff_8002_0000 0)
    × ((byte_at (g.tsss 0).ist 0 + ist_bytes ≤ byte_at (g.tsss 1).ist 0)
        ⊎ (byte_at (g.tsss 1).ist 0 + ist_bytes ≤ byte_at (g.tsss 0).ist 0))
interrupt_lem_example =
    interrupt_lem statics 0xffff_ffff_8002_0000 0xffff_ffff_8000_0000 empty no_gates (omega arith)
      (omega arith) 0 1 8 (omega arith) (omega arith) zero_not_one (omega arith)

abbrev boot : Boot
boot = record {
  bump = record {
    hhdm = 0xffff_8000_0000_0000;
    start = 0x10_0000;
    cursor = 0x10_0000;
    end = 0x710_0000;
  };
  memory = λ a. 7;
  tops = λ _. 0;
}

boot-IsBoot : IsBoot boot
boot-IsBoot = record {
  bump = record { aligned = refl; low = omega arith; high = omega arith; fits = omega arith };
  flat = omega arith;
  even = refl;
}

alloc_all_lem_example :
    let (res, t) = alloc_all 2 boot in
    let base = 0xffff_8000_0000_0000 + 0x10_0000 in
    (res ≡ ok tt)
    × (t.bump.cursor ≡ 0x10_0000 + 2 * stack_bytes)
    × ((cpu : ℕ)
        → cpu < 2
        → (top_of t cpu ≡ base + cpu * stack_bytes + stack_bytes) × (top_of t cpu % 16 ≡ 0))
    × ((a : ℕ) → base ≤ a → a < base + 2 * stack_bytes → t.memory a ≡ 0)
    × ((cpu : ℕ) → max_cpus ≤ cpu → top_of t cpu ≡ 0)
alloc_all_lem_example = alloc_all_lem 2 boot boot-IsBoot (omega arith) (omega arith) (omega arith)

-- more processors than there are slots
too_many : (alloc_all 9 boot).0 ≡ err bad_cpu_count
unfolding alloc_all
too_many = refl

too_many_tables : load_gdt statics 8 ≡ err tt
unfolding load_gdt
too_many_tables = refl
