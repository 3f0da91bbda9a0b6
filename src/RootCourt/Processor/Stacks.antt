-- ===== src/RootCourt/Processor/Stacks.antt =====
-- crates/root-court/src/stack.rs: the kernel stacks of the processors, one behind the other.
use court_kernel.Prelude.{
  ℕ, zero, suc, ◌+◌, ◌-◌, ◌*◌, ◌%◌, ◌≤◌, ◌<◌, ◌≡◌, ◌≢◌, refl, sym, ap, subst, none, some, ◌∙◌, inl,
  inr, ◌||◌, true, false, nat_eq, ltb, leb, ok, err, Bool-cases, arith, if◌then◌else◌,
}
use court_kernel.Hosted.Types.{u64_mod}
use court_kernel.RootCourt.Mm.{BumpAllocator, virt, alloc_pages, page_up}
use court_kernel.RootCourt.Mm.Bounds.{IsBump}
use court_kernel.RootCourt.Loader.Bytes.{cleared}
use court_kernel.RootCourt.Loader.Frames.{alloc_pages_outcome}
use court_kernel.RootCourt.Processor.{
  Boot, no_stack_pages, max_cpus, stack_pages, stack_bytes, stack_top, alloc_stacks, alloc_all,
  top_of,
}

-- The allocator is sound, and the direct map of its region does not wrap and is on sixteen bytes.
pub record IsBoot (b : Boot) : Type 0 where
  pub bump : IsBump b.bump
  pub flat : b.bump.hhdm + b.bump.end < u64_mod
  pub even : b.bump.hhdm % 16 ≡ 0

-- The state after one stack.
abbrev next : ℕ → Boot → Boot
next cpu b = record {
  bump = record b.bump { cursor = b.bump.cursor + stack_bytes };
  memory = cleared (virt b.bump b.bump.cursor) stack_bytes b.memory;
  tops = λ i. if nat_eq i cpu then stack_top (virt b.bump b.bump.cursor) else b.tops i;
}

next-IsBoot :
    (cpu : ℕ) (b : Boot) → IsBoot b → b.bump.cursor + stack_bytes ≤ b.bump.end → IsBoot (next cpu b)
next-IsBoot cpu b v room =
    let x = v.bump in
    record {
      bump = record {
        aligned = let a = x.aligned in omega arith;
        low = let l = x.low in omega arith;
        high = room;
        fits = x.fits;
      };
      flat = v.flat;
      even = v.even;
    }

-- What the loop leaves, for every processor and every address.
record Stacked (left cpu : ℕ) (b t : Boot) : Type 0 where
  room : b.bump.cursor + left * stack_bytes ≤ b.bump.end
  cursor : t.bump.cursor ≡ b.bump.cursor + left * stack_bytes
  before : (i : ℕ) → i < cpu → t.tops i ≡ b.tops i
  tops :
      (i : ℕ)
      → cpu ≤ i
      → i < cpu + left
      → t.tops i ≡ b.bump.hhdm + b.bump.cursor + (i - cpu) * stack_bytes + stack_bytes
  kept : (a : ℕ) → b.memory a ≡ 0 → t.memory a ≡ 0
  zeros :
      (a : ℕ)
      → b.bump.hhdm + b.bump.cursor ≤ a
      → a < b.bump.hhdm + b.bump.cursor + left * stack_bytes
      → t.memory a ≡ 0

itself : (i : ℕ) → nat_eq i i ≡ true
itself i = ground arith

first_top :
    (cpu : ℕ) (b : Boot)
    → IsBoot b
    → b.bump.cursor + stack_bytes ≤ b.bump.end
    → (next cpu b).tops cpu ≡ b.bump.hhdm + b.bump.cursor + stack_bytes
first_top cpu b v room =
    let x = v.bump in
    let aligned = x.aligned in
    let flat = v.flat in
    let even = v.even in
    let at : stack_top (virt b.bump b.bump.cursor) ≡ b.bump.hhdm + b.bump.cursor + stack_bytes =
      omega arith in
    rw (itself cpu) at

alloc_stacks-none :
    (left cpu : ℕ) (b : Boot)
    → (alloc_pages stack_pages b.bump).0 ≡ none
    → (alloc_stacks (suc left) cpu b).0 ≡ err no_stack_pages
unfolding alloc_stacks
alloc_stacks-none left cpu b e = rw (e, alloc_stacks) refl

alloc_stacks-some :
    (left cpu : ℕ) (b : Boot)
    → alloc_pages stack_pages b.bump ≡ (
      some (b.bump.cursor, virt b.bump b.bump.cursor),
      record b.bump { cursor = b.bump.cursor + stack_bytes },
    )
    → alloc_stacks (suc left) cpu b ≡ alloc_stacks left (cpu + 1) (next cpu b)
unfolding alloc_stacks
alloc_stacks-some left cpu b e = rw (ap (λ z. z.0) e, ap (λ z. z.1) e, alloc_stacks) refl

alloc_stacks_lem :
    (left cpu : ℕ) (b : Boot)
    → IsBoot b
    → (alloc_stacks left cpu b).0 ≡ ok tt
    → Stacked left cpu b (alloc_stacks left cpu b).1
unfolding alloc_stacks
alloc_stacks_lem zero cpu b v = λ fine. record {
  room = let x = v.bump in let h = x.high in omega arith;
  cursor = omega arith;
  before = λ i h. refl;
  tops = λ i h k. absurd (omega arith);
  kept = λ a h. h;
  zeros = λ a h k. absurd (omega arith);
}
alloc_stacks_lem (suc left) cpu b v = elim (alloc_pages_outcome stack_pages b.bump v.bump) [
  | inl e ↦ λ fine.
      let bad = alloc_stacks-none left cpu b (ap (λ z. z.0) e) in absurd (ground (arith, bad, fine))
  | inr (room, e) ↦ λ fine.
      let same = alloc_stacks-some left cpu b e in
      let x =
        alloc_stacks_lem left (cpu + 1) (next cpu b) (next-IsBoot cpu b v (omega arith))
          (sym (ap (λ z. z.0) same) ∙ fine) in
      let r = x.room in
      let c = x.cursor in
      let flat = v.flat in
      subst (λ z. Stacked (suc left) cpu b z.1) (sym same)
        (record {
          room = omega arith;
          cursor = omega arith;
          before = λ i h. x.before i (omega arith) ∙ ground arith;
          tops = λ i h k. elim (Bool-cases (nat_eq i cpu)) [
            | inl is ↦
                let same : i ≡ cpu = ground arith in
                x.before i (omega arith) ∙ rw same (first_top cpu b v (omega arith) ∙ omega arith)
            | inr other ↦
                let more : cpu + 1 ≤ i = ground arith in x.tops i more (omega arith) ∙ omega arith
          ];
          kept = λ a h. x.kept a (ground (arith, h));
          zeros = λ a h k. elim (Bool-cases (ltb a (b.bump.hhdm + b.bump.cursor + stack_bytes))) [
            | inl here ↦ x.kept a (
                let at : virt b.bump b.bump.cursor ≡ b.bump.hhdm + b.bump.cursor = omega arith in
                ground (arith, at))
            | inr there ↦
                let far : b.bump.hhdm + b.bump.cursor + stack_bytes ≤ a = ground arith in
                x.zeros a (omega arith) (omega arith)
          ];
        })
]

-- The allocator refuses only when there is no room.
full :
    (b : BumpAllocator)
    → IsBump b
    → b.cursor + stack_bytes ≤ b.end
    → alloc_pages stack_pages b ≢ (none, b)
unfolding alloc_pages
full b v room =
    let up : page_up b.cursor ≡ b.cursor =
      let a = v.aligned in let h = v.high in let f = v.fits in omega arith in
    let fits = v.fits in rw up (λ bad. ground (arith, bad))

alloc_stacks_ok :
    (left cpu : ℕ) (b : Boot)
    → IsBoot b
    → b.bump.cursor + left * stack_bytes ≤ b.bump.end
    → (alloc_stacks left cpu b).0 ≡ ok tt
unfolding alloc_stacks
alloc_stacks_ok zero cpu b v room = refl
alloc_stacks_ok (suc left) cpu b v room = elim (alloc_pages_outcome stack_pages b.bump v.bump) [
  | inl e ↦ absurd (full b.bump v.bump (omega arith) e)
  | inr (one, e) ↦
      ap (λ z. z.0) (alloc_stacks-some left cpu b e)
      ∙ alloc_stacks_ok left (cpu + 1) (next cpu b) (next-IsBoot cpu b v (omega arith))
          (omega arith)
]

-- For one to eight processors, and room for their stacks in the allocator's region: `alloc_all` succeeds and takes
-- exactly that room. The stacks lie one behind the other through the direct map, the top of each is on sixteen bytes
-- and the one that `top` returns, every word of them is 0, and `top` returns 0 for a number that is too large.
pub alloc_all_lem :
    (ncpu : ℕ) (b : Boot)
    → IsBoot b
    → 1 ≤ ncpu
    → ncpu ≤ max_cpus
    → b.bump.cursor + ncpu * stack_bytes ≤ b.bump.end
    → let (res, t) = alloc_all ncpu b in
      let base = b.bump.hhdm + b.bump.cursor in
      (res ≡ ok tt)
      × (t.bump.cursor ≡ b.bump.cursor + ncpu * stack_bytes)
      × ((cpu : ℕ)
          → cpu < ncpu
          → (top_of t cpu ≡ base + cpu * stack_bytes + stack_bytes) × (top_of t cpu % 16 ≡ 0))
      × ((a : ℕ) → base ≤ a → a < base + ncpu * stack_bytes → t.memory a ≡ 0)
      × ((cpu : ℕ) → max_cpus ≤ cpu → top_of t cpu ≡ 0)
unfolding alloc_all
alloc_all_lem ncpu b v low high room =
    let good : nat_eq ncpu 0 || ltb max_cpus ncpu ≡ false = ground arith in
    let fine = alloc_stacks_ok ncpu 0 b v room in
    let x = alloc_stacks_lem ncpu 0 b v fine in
    let i = v.bump in
    let even = v.even in
    let aligned = i.aligned in
    rw (good, alloc_all)
      (
        fine,
        x.cursor,
        λ cpu h.
            let at = x.tops cpu (omega arith) (omega arith) in
            let inside : leb max_cpus cpu ≡ false = ground arith in
            rw (inside, at) (omega arith, omega arith),
        λ a h k. x.zeros a h k,
        λ cpu h. ground arith,
      )
