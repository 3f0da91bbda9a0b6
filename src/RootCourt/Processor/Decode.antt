-- ===== src/RootCourt/Processor/Decode.antt =====
-- crates/root-court/src/gdt.rs and idt.rs: what a processor reads out of the tables.
use court_kernel.Prelude.{
  ℕ, zero, suc, ◌+◌, ◌-◌, ◌*◌, ◌/◌, ◌%◌, ◌^◌, ◌≤◌, ◌<◌, ◌≡◌, ◌≢◌, ◌⊎◌, true, refl, ◌∙◌, inl, inr,
  [], ◌∷◌, nat_eq, ltb, leb, ◌&&◌, Bool-cases, arith, if◌then◌else◌,
}
use court_kernel.Hosted.Types.{u64_mod}
use court_kernel.RootCourt.Loader.Bytes.{byte_at}
use court_kernel.RootCourt.Processor.{
  max_cpus, ist_bytes, tss_size, kernel_code, kernel_data, tss_descriptor, Descriptors, tss_at,
  ist_top, fill_cpu, fill_cpus, init_gdt, IdtEntry, stub, gate, fill_idt, init_idt,
}

-- How a processor reads a system descriptor of sixteen bytes.
abbrev pub base_of : ℕ × ℕ → ℕ
base_of (low, high) = low / 2 ^ 16 % 2 ^ 24 + low / 2 ^ 56 % 256 * 2 ^ 24 + high % 2 ^ 32 * 2 ^ 32

abbrev pub limit_of : ℕ × ℕ → ℕ
limit_of (low, high) = low % 2 ^ 16 + low / 2 ^ 48 % 16 * 2 ^ 16

-- present, privilege 0, an available TSS of 64 bits
abbrev pub access_of : ℕ × ℕ → ℕ
access_of (low, high) = low / 2 ^ 40 % 256

tss_descriptor_lem :
    (base limit : ℕ)
    → base < 2 ^ 64
    → limit < 2 ^ 20
    → (base_of (tss_descriptor base limit) ≡ base)
      × (limit_of (tss_descriptor base limit) ≡ limit)
      × (access_of (tss_descriptor base limit) ≡ 0x89)
unfolding tss_descriptor
tss_descriptor_lem base limit b l = (omega arith, omega arith, omega arith)

abbrev pub offset_of : IdtEntry → ℕ
offset_of e = e.offset_low + e.offset_mid * 2 ^ 16 + e.offset_high * 2 ^ 32

-- present, privilege 0, an interrupt gate of 64 bits
abbrev pub interrupt_gate : ℕ
interrupt_gate = 1 * 2 ^ 7 + 0 * 2 ^ 5 + 0xE

gate_lem : (offset ist : ℕ) → offset < 2 ^ 64 → offset_of (gate offset ist) ≡ offset
unfolding gate
gate_lem offset ist h = omega arith

-- What the loops leave in each slot.
fill_cpus_lem :
    (tsss_at ists_at left cpu : ℕ) (d : Descriptors) (i : ℕ)
    → ((fill_cpus tsss_at ists_at left cpu d).gdts i ≡ (
        if leb cpu i && ltb i (cpu + left)
        then (fill_cpu tsss_at ists_at i d).gdts i
        else d.gdts i))
      × ((fill_cpus tsss_at ists_at left cpu d).tsss i ≡ (
          if leb cpu i && ltb i (cpu + left)
          then (fill_cpu tsss_at ists_at i d).tsss i
          else d.tsss i))
unfolding fill_cpus fill_cpu
fill_cpus_lem tsss_at ists_at zero cpu d i = (ground arith, ground arith)
fill_cpus_lem tsss_at ists_at (suc left) cpu d i =
    let (g, t) = fill_cpus_lem tsss_at ists_at left (cpu + 1) (fill_cpu tsss_at ists_at cpu d) i in
    elim (Bool-cases (nat_eq i cpu)) [
      | inl e ↦
          let is : i ≡ cpu = ground arith in (g ∙ rw is (ground arith), t ∙ rw is (ground arith))
      | inr e ↦ (g ∙ ground (arith, e), t ∙ ground (arith, e))
    ]

fill_idt_lem :
    (table left vec : ℕ) (idt : ℕ → IdtEntry) (i : ℕ)
    → fill_idt table left vec idt i ≡ (
        if leb vec i && ltb i (vec + left)
        then gate (stub table i) (if nat_eq i 8 then 1 else 0)
        else idt i)
unfolding fill_idt
fill_idt_lem table zero vec idt i = ground arith
fill_idt_lem table (suc left) vec idt i = elim (Bool-cases (nat_eq i vec)) [
  | inl e ↦
      let is : i ≡ vec = ground arith in
      fill_idt_lem table left (vec + 1) _ i ∙ rw is (ground arith)
  | inr e ↦ fill_idt_lem table left (vec + 1) _ i ∙ ground (arith, e)
]

in_reach : (i n : ℕ) → i < n → leb 0 i && ltb i (0 + n) ≡ true
in_reach i n h = ground arith

itself : (i : ℕ) → nat_eq i i ≡ true
itself i = ground arith

-- What the loop leaves for a processor.
own_slots :
    (tsss_at ists_at cpu : ℕ) (d : Descriptors)
    → cpu < max_cpus
    → let x = tss_descriptor (tss_at tsss_at ists_at cpu) (tss_size - 1) in
      ((init_gdt tsss_at ists_at d).gdts cpu ≡ 0 ∷ kernel_code ∷ kernel_data ∷ x.0 ∷ x.1 ∷ [])
      × ((init_gdt tsss_at ists_at d).tsss cpu ≡ record {
        rsp0 = 0;
        rsp1 = 0;
        rsp2 = 0;
        ist = ist_top tsss_at ists_at cpu ∷ 0 ∷ 0 ∷ 0 ∷ 0 ∷ 0 ∷ 0 ∷ [];
        iomap_base = tss_size;
      })
unfolding init_gdt fill_cpu
own_slots tsss_at ists_at cpu d h =
    let (g, t) = fill_cpus_lem tsss_at ists_at max_cpus 0 d cpu in
    (
      g ∙ rw (in_reach cpu max_cpus h, itself cpu) refl,
      t ∙ rw (in_reach cpu max_cpus h, itself cpu) refl,
    )

stacks_apart :
    (tsss_at ists_at cpu other : ℕ)
    → cpu ≢ other
    → (ist_top tsss_at ists_at cpu + ist_bytes ≤ ist_top tsss_at ists_at other)
      ⊎ (ist_top tsss_at ists_at other + ist_bytes ≤ ist_top tsss_at ists_at cpu)
stacks_apart tsss_at ists_at cpu other ne = elim (Bool-cases (ltb cpu other)) [
  | inl less ↦ let h : cpu < other = ground arith in inl (omega arith)
  | inr more ↦ let h : other < cpu = ground arith in inr (omega arith)
]

-- Where the linker put the statics: their addresses do not wrap.
module _ (tsss_at ists_at table : ℕ) (d : Descriptors) (idt : ℕ → IdtEntry)
    (low : tsss_at + max_cpus * tss_size ≤ u64_mod) (flat : table + 256 * 16 ≤ u64_mod) where
  abbrev filled : Descriptors
  filled = init_gdt tsss_at ists_at d

  -- the descriptor of selector 0x18
  abbrev pub tss_entry : ℕ → ℕ × ℕ
  tss_entry cpu = (byte_at (filled.gdts cpu) 3, byte_at (filled.gdts cpu) 4)

  segment_lem :
      (cpu : ℕ)
      → cpu < max_cpus
      → (base_of (tss_entry cpu) ≡ tss_at tsss_at ists_at cpu)
        × (limit_of (tss_entry cpu) ≡ tss_size - 1)
        × (access_of (tss_entry cpu) ≡ 0x89)
        × (byte_at (filled.gdts cpu) 1 ≡ kernel_code)
        × (byte_at (filled.tsss cpu).ist 0 ≡ ist_top tsss_at ists_at cpu)
  unfolding byte_at
  segment_lem cpu h =
      let (g, t) = own_slots tsss_at ists_at cpu d h in
      let (base, limit, access) =
        tss_descriptor_lem (tss_at tsss_at ists_at cpu) (tss_size - 1) (omega arith)
          (omega arith) in
      rw (g, t) (base, limit, access, refl, refl)

  -- After both tables are filled, on each processor, as it decodes them: vector `vec` is a present
  -- interrupt gate of privilege 0 for its stub in the kernel's code segment; the task register's descriptor is that processor's own TSS, in its whole length, present and
  -- available; only the double fault takes a stack of the TSS, and that is the top of the processor's own one, which
  -- lies apart from that of any other.
  pub interrupt_lem :
      (cpu other vec : ℕ)
      → cpu < max_cpus
      → other < max_cpus
      → cpu ≢ other
      → vec < 256
      → let g = init_gdt tsss_at ists_at d in
        let e = init_idt table idt vec in
        (offset_of e ≡ table + vec * 16)
        × (byte_at (g.gdts cpu) (e.selector / 8) ≡ kernel_code)
        × (e.flags ≡ interrupt_gate)
        × (e.ist ≡ (if nat_eq vec 8 then 1 else 0))
        × (base_of (tss_entry cpu) ≡ tss_at tsss_at ists_at cpu)
        × (limit_of (tss_entry cpu) ≡ tss_size - 1)
        × (access_of (tss_entry cpu) ≡ 0x89)
        × (byte_at (g.tsss cpu).ist 0 ≡ ist_top tsss_at ists_at cpu)
        × ((byte_at (g.tsss cpu).ist 0 + ist_bytes ≤ byte_at (g.tsss other).ist 0)
            ⊎ (byte_at (g.tsss other).ist 0 + ist_bytes ≤ byte_at (g.tsss cpu).ist 0))
  unfolding init_idt gate
  interrupt_lem cpu other vec h k ne v =
      let (base, limit, access, code, stack) = segment_lem cpu h in
      let (_, _, _, _, elsewhere) = segment_lem other k in
      let e : init_idt table idt vec ≡ gate (stub table vec) (if nat_eq vec 8 then 1 else 0) =
        fill_idt_lem table 256 0 idt vec ∙ rw (in_reach vec 256 v) refl in
      let at : stub table vec ≡ table + vec * 16 = omega arith in
      rw (e, stack, elsewhere)
        (
          gate_lem (stub table vec) (if nat_eq vec 8 then 1 else 0) (omega arith) ∙ at,
          code,
          refl,
          refl,
          base,
          limit,
          access,
          refl,
          stacks_apart tsss_at ists_at cpu other ne,
        )
