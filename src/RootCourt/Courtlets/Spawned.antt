-- ===== src/RootCourt/Courtlets/Spawned.antt =====
-- crates/root-court/src/courtlet.rs: what a court finds in the space that `spawn` made for it.
use court_kernel.Prelude.{
  ℕ, ◌+◌, ◌^◌, ◌≤◌, ◌≡◌, refl, sym, ap, subst, ◌∙◌, inl, inr, Bool, String, List, [], Result, ok,
  Bool-cases, nat_eq, arith, some,
}
use court_kernel.Prelude.Chain.{◌>>=◌, bind_elim}
use court_kernel.Images.{ring_va, BootInfo}
use court_kernel.RootCourt.Mm.{page}
use court_kernel.RootCourt.Paging.{Mapper}
use court_kernel.RootCourt.Paging.Build.{Kernel, mapper}
use court_kernel.RootCourt.Paging.Space.{AddressSpace, clone_kernel, map_in}
use court_kernel.RootCourt.Paging.Walk.{translate}
use court_kernel.RootCourt.Paging.Tree.{IsTree}
use court_kernel.RootCourt.Paging.Range.{MapsRange, MapsRange-Grows}
use court_kernel.RootCourt.Paging.Built.{kernel_tables}
use court_kernel.RootCourt.Paging.Clone.{clone_kernel-IsTree, clone_kernel_lem, cloned}
use court_kernel.RootCourt.Loader.{LoadError, no_boot_page, no_stack, mapping, load}
use court_kernel.RootCourt.Loader.Frames.{Step-trans}
use court_kernel.RootCourt.Loader.Placed.{
  Loads, stays, chained, followed, map_in_lem, mapping-state, mapping-ok,
}
use court_kernel.RootCourt.Loader.Contents.{IsBytes}
use court_kernel.RootCourt.Loader.Image.{Ready, Ready-Step, load_outcome}
use court_kernel.RootCourt.Loader.Sound.{elsewhere}
use court_kernel.RootCourt.Paging.Mapping.{translate-Grows}
use court_kernel.RootCourt.Courtlets.{
  Courtlet, boot_va, stack_va, stack_count, stack_size, boot_words, boot_info, new_block, map_court,
  fill_space, spawn,
}
use court_kernel.RootCourt.Courtlets.Block.{IsBlock, IsBlock-Step, new_block_lem}

-- The three ranges of a court's space beside its image.
abbrev pub MapsCourt : ℕ → ℕ → ℕ → Mapper → Type 0
MapsCourt boot_phys ring_phys stack_phys n =
    MapsRange boot_va boot_phys page n
    × MapsRange ring_va ring_phys page n
    × MapsRange stack_va stack_phys stack_size n

map_court_lem :
    (level : ℕ → ℕ) (k : Kernel) (space : AddressSpace) (boot_phys ring_phys stack_phys : ℕ)
    → IsTree level (mapper k space.pml4_phys 0)
    → boot_phys + page ≤ 2 ^ 52
    → ring_phys + page ≤ 2 ^ 52
    → stack_phys + stack_size ≤ 2 ^ 52
    → let (res, k') = map_court space boot_phys ring_phys stack_phys k in
      Loads level k space.pml4_phys res k' (λ _ _. MapsCourt boot_phys ring_phys stack_phys)
unfolding map_court
map_court_lem level k space boot_phys ring_phys stack_phys v a b c =
    let root = space.pml4_phys in
    followed level k root (mapping (map_in space boot_va boot_phys page)) _
      (λ _ _. MapsRange boot_va boot_phys page) (λ _ _. MapsCourt boot_phys ring_phys stack_phys)
      (map_in_lem level k space boot_va boot_phys page v (omega arith) a)
      (λ _ l1 s1 boot.
        let k1 = (mapping (map_in space boot_va boot_phys page) k).1 in
        followed l1 k1 root (mapping (map_in space ring_va ring_phys page)) _
          (λ _ _. MapsRange ring_va ring_phys page)
          (λ _ _. MapsCourt boot_phys ring_phys stack_phys)
          (map_in_lem l1 k1 space ring_va ring_phys page s1.tree (omega arith) b)
          (λ _ l2 s2 ring.
            let k2 = (mapping (map_in space ring_va ring_phys page) k1).1 in
            let x = map_in_lem l2 k2 space stack_va stack_phys stack_size s2.tree (omega arith) c in
            let s3 = x.step in
            let boot_s = Step-trans l1 l2 x.levels _ _ _ s2 s3 in
            record {
              levels = x.levels;
              step = s3;
              holds = λ u fine. (
                MapsRange-Grows l1 _ _ boot_va boot_phys page s1.tree boot_s.grows boot,
                MapsRange-Grows l2 _ _ ring_va ring_phys page s2.tree s3.grows ring,
                x.holds u fine,
              );
            }))

module _ (space : AddressSpace) (image : List ℕ) (small : IsBytes image) (info : BootInfo)
    (ring_phys : ℕ) where
  -- The image, and pages of the court's own for the boot block and the stack, each where the image
  -- looks for it.
  pub record Furnished (c : Courtlet) (level : ℕ → ℕ) (n : Mapper) : Type 0 where
    pub ready : Ready space image small c.entry level n
    pub boot_phys : ℕ
    pub stack_phys : ℕ
    pub boot : IsBlock 1 (boot_words info) boot_phys level n
    pub stack : IsBlock stack_count [] stack_phys level n
    pub maps : MapsCourt boot_phys ring_phys stack_phys n
    pub same_space : c.space ≡ space
    pub same_cr3 : c.cr3 ≡ space.cr3
    pub top : c.stack_top ≡ stack_va + stack_size

module _ (space : AddressSpace) (image : List ℕ) (small : IsBytes image) (name : String)
    (cap_id rights court_id ring_phys : ℕ) (fits : ring_phys + page ≤ 2 ^ 52) where
  abbrev info : BootInfo
  info = boot_info cap_id rights court_id

  abbrev Done : (ℕ → ℕ) → Kernel → Result LoadError Courtlet × Kernel → Type 0
  Done level k (res, k') =
      Loads level k space.pml4_phys res k' (Furnished space image small info ring_phys)

  abbrev courtlet : ℕ → ℕ → Courtlet
  courtlet boot entry = record {
    name = name;
    cr3 = space.cr3;
    space = space;
    stack_top = stack_va + stack_size;
    boot = boot;
    entry = entry;
  }

  fill_space_lem :
      (level : ℕ → ℕ) (k : Kernel)
      → IsTree level (mapper k space.pml4_phys 0)
      → Done level k (fill_space space name image cap_id rights court_id ring_phys k)
  unfolding fill_space
  fill_space_lem level k v =
      let root = space.pml4_phys in
      let R = Furnished space image small info ring_phys in
      chained level k root (load space image) _ (λ entry. Ready space image small entry) R
        (load_outcome space image small level k v)
        (λ entry l1 s1 ready.
          let k1 = (load space image k).1 in
          let act = new_block no_boot_page 1 (boot_words info) in
          chained l1 k1 root act _ (λ x. IsBlock 1 (boot_words info) x.0) R
            (new_block_lem no_boot_page 1 (boot_words info) l1 k1 root (omega arith) s1.tree)
            (λ b l2 s2 boot.
              let k2 = (act k1).1 in
              chained l2 k2 root (new_block no_stack stack_count []) _
                (λ x. IsBlock stack_count [] x.0) R
                (new_block_lem no_stack stack_count [] l2 k2 root (omega arith) s2.tree)
                (λ s l3 s3 stack.
                  let k3 = (new_block no_stack stack_count [] k2).1 in
                  let low_boot = boot.low in
                  let low_stack = stack.low in
                  followed l3 k3 root (map_court space b.0 ring_phys s.0) _
                    (λ _ _. MapsCourt b.0 ring_phys s.0) R
                    (map_court_lem l3 k3 space b.0 ring_phys s.0 s3.tree (omega arith) fits
                      (omega arith))
                    (λ _ l4 s4 maps.
                      let k4 = (map_court space b.0 ring_phys s.0 k3).1 in
                      let s34 = Step-trans l2 l3 l4 _ _ _ s3 s4 in
                      let s24 = Step-trans l1 l2 l4 _ _ _ s2 s34 in
                      stays l4 k4 root (ok (courtlet b.1 entry)) R s4.tree (λ c e.
                        subst (λ x. R x l4 (mapper k4 root 0)) {x = courtlet b.1 entry}
                          (ground (arith, e))
                          (record {
                            ready = Ready-Step space image small entry l1 l4 _ _ s1.tree s24 ready;
                            boot_phys = b.0;
                            stack_phys = s.0;
                            boot = IsBlock-Step 1 (boot_words info) b.0 l2 l4 _ _ s34 boot;
                            stack = IsBlock-Step stack_count [] s.0 l3 l4 _ _ s4 stack;
                            maps = maps;
                            same_space = refl;
                            same_cr3 = refl;
                            top = refl;
                          }))))))

-- Cloning leaves the kernel's root where it is.
clone_kernel-root : (la57 : Bool) (k : Kernel) → (clone_kernel la57 k).1.kernel_pml4 ≡ k.kernel_pml4
unfolding clone_kernel ◌>>=◌
clone_kernel-root la57 k = elim (Bool-cases (nat_eq k.kernel_pml4 0)) [
  | inl e ↦ rw e refl
  | inr e ↦ rw e refl
]

module _ (la57 : Bool) (name : String) (image : List ℕ) (small : IsBytes image)
    (cap_id rights court_id ring_phys : ℕ) (fits : ring_phys + page ≤ 2 ^ 52) (level : ℕ → ℕ)
    (k : Kernel) (v : IsTree level (kernel_tables k)) where
  -- What is left of the kernel and made for the court.
  abbrev pub IsHome : Kernel → Courtlet → Type 0
  IsHome t c =
      let n = mapper t c.space.pml4_phys 0 in
      ((levels : ℕ → ℕ) × IsTree levels n
        × IsTree levels (mapper t k.kernel_pml4 0)
        × Furnished c.space image small (boot_info cap_id rights court_id) ring_phys c levels n)
      × ((va x : ℕ)
          → translate (kernel_tables k) va ≡ some x
          → (translate n va ≡ some x) × (translate (mapper t k.kernel_pml4 0) va ≡ some x))

  home :
      (c : Courtlet) (space : AddressSpace)
      → (clone_kernel la57 k).0 ≡ ok space
      → let t0 = (clone_kernel la57 k).1 in
        let (res, t) = fill_space space name image cap_id rights court_id ring_phys t0 in
        res ≡ ok c → IsHome t c
  home c space cloned_ok fine =
      let t0 = (clone_kernel la57 k).1 in
      let t = (fill_space space name image cap_id rights court_id ring_phys t0).1 in
      let lv = cloned level k.bump.cursor in
      let (tree, kernel_tree) = clone_kernel-IsTree la57 level k space v cloned_ok in
      let x =
        fill_space_lem space image small name cap_id rights court_id ring_phys fits lv t0 tree in
      let y =
        elsewhere lv x.levels t0 t space.pml4_phys k.kernel_pml4 x.step
          (subst (λ p. IsTree lv (mapper t0 p 0)) (clone_kernel-root la57 k) kernel_tree) in
      let f = x.holds c fine in
      let here = x.step in
      let walks = clone_kernel_lem la57 level k space v cloned_ok in
      rw f.same_space (
        (x.levels, here.tree, y.tree, rw f.same_space at f),
        λ va p h. (
          translate-Grows lv (mapper t0 space.pml4_phys 0) (mapper t space.pml4_phys 0) tree
              here.grows va p ((walks va).0 ∙ h),
          translate-Grows lv (mapper t0 k.kernel_pml4 0) (mapper t k.kernel_pml4 0)
              (subst (λ p. IsTree lv (mapper t0 p 0)) (clone_kernel-root la57 k) kernel_tree)
              y.grows va p
              (ap (λ q. translate (mapper t0 q 0) va) (sym (clone_kernel-root la57 k))
                ∙ (walks va).1
                ∙ h),
        ),
      )

  -- When `spawn` succeeds on sound tables of the kernel, with a ring page below 2^52: the levels of the court's tables
  -- and of the kernel's are sound together. The court's space shows its image and its entry point as `load` promises,
  -- and maps, at their fixed addresses, pages of its own with its boot block and with a stack of zeros, and the ring's
  -- page. Every address that the kernel translates, the court's space and the kernel translate to the same.
  pub spawn_lem :
      (c : Courtlet)
      → (spawn la57 name image cap_id rights court_id ring_phys k).0 ≡ ok c
      → IsHome (spawn la57 name image cap_id rights court_id ring_phys k).1 c
  unfolding spawn
  spawn_lem c =
      let act = mapping (clone_kernel la57) in
      bind_elim act (λ space. fill_space space name image cap_id rights court_id ring_phys) k
        (λ z. z.0 ≡ ok c → IsHome z.1 c) (λ e h bad. absurd (ground (arith, bad)))
        (λ space h.
          subst
            (λ s.
              let z = fill_space space name image cap_id rights court_id ring_phys s in
              z.0 ≡ ok c → IsHome z.1 c)
            (sym (mapping-state (clone_kernel la57) k))
            (home c space (mapping-ok (clone_kernel la57) k space h)))
