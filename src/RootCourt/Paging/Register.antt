-- ===== src/RootCourt/Paging/Register.antt =====
-- crates/root-court/src/paging.rs: the walk from CR3 in a space that was cloned. With five levels the
-- processor starts above the root, at the table of `wrap_la57`.
use court_kernel.Prelude.{
  ℕ, ◌+◌, ◌/◌, ◌%◌, ◌^◌, ◌≡◌, refl, ap, ◌∙◌, inl, inr, Bool, true, false, not, ◌&&◌, none, ok,
  nat_eq, arith, Bool-cases, if◌then◌else◌,
}
use court_kernel.RootCourt.Paging.{Mapper, phys_part, is_present, is_huge, table_flags}
use court_kernel.RootCourt.Paging.Build.{Kernel, mapper}
use court_kernel.RootCourt.Paging.Space.{AddressSpace, clone_kernel}
use court_kernel.RootCourt.Paging.Walk.{translate, translate_cr3}
use court_kernel.RootCourt.Paging.Tree.{IsMapper, IsPage, IsTree, phys_part_lem}
use court_kernel.RootCourt.Paging.Built.{kernel_tables}
use court_kernel.RootCourt.Paging.Copy.{Rooted}
use court_kernel.RootCourt.Paging.Clone.{clone_kernel_lem, clone_kernel-Rooted}

module _ (n : Mapper) (root cr3 va : ℕ) (v : IsMapper n) (a : IsPage n root) where
  page_itself : (p : ℕ) → IsPage n p → phys_part p ≡ p
  page_itself p (b, h) =
      let e = v.small in
      let c = v.bump.high in
      ap phys_part (omega arith) ∙ phys_part_lem p 0 b (omega arith) (omega arith)

  named : phys_part (root + table_flags) ≡ root
  named =
      let e = v.small in
      let c = v.bump.high in
      let h = a.1 in phys_part_lem root table_flags a.0 (omega arith) (omega arith)

  -- With five levels only the last 2^48 addresses have an entry.
  cr3_walk :
      (la57 : Bool)
      → Rooted la57 root cr3 n
      → translate_cr3 la57 n cr3 va ≡ (
          if la57 && not (nat_eq (va / 2 ^ 48 % 512) 511)
          then none
          else translate (record n { pml4_phys = root }) va)
  unfolding translate_cr3
  cr3_walk false r =
      ap (λ p. translate (record n { pml4_phys = p }) va) (ap phys_part r ∙ page_itself root a)
  cr3_walk true (on_page, words) =
      let at = page_itself cr3 on_page in
      let word = words (va / 2 ^ 48 % 512) (omega arith) in
      let even = a.0 in
      elim (Bool-cases (nat_eq (va / 2 ^ 48 % 512) 511)) [
        | inr off ↦ rw (at, word, off) refl
        | inl last ↦
            let on : is_present (root + table_flags) ≡ true = ground arith in
            let flat : is_huge (root + table_flags) ≡ false = ground arith in
            rw (at, word, last, on, flat, named) refl
      ]

-- When `clone_kernel` succeeds on sound tables of the kernel: the processor's walk from CR3 of the new space ends for
-- every address as the kernel's walk through four levels does, except that with five levels an address outside the last
-- 2^48 ends nowhere; and the kernel's own walk ends as before.
pub clone_kernel_walk :
    (la57 : Bool) (level : ℕ → ℕ) (k : Kernel) (space : AddressSpace)
    → IsTree level (kernel_tables k)
    → (clone_kernel la57 k).0 ≡ ok space
    → (va : ℕ)
    → let t = (clone_kernel la57 k).1 in
      (translate_cr3 la57 (mapper t 0 0) space.cr3 va ≡ (
        if la57 && not (nat_eq (va / 2 ^ 48 % 512) 511)
        then none
        else translate (kernel_tables k) va))
      × (translate (kernel_tables t) va ≡ translate (kernel_tables k) va)
clone_kernel_walk la57 level k space v fine va =
    let (sound, on_page, rooted) = clone_kernel-Rooted la57 level k space v fine in
    let (own, kept) = clone_kernel_lem la57 level k space v fine va in
    let walk =
      cr3_walk (mapper (clone_kernel la57 k).1 0 0) space.pml4_phys space.cr3 va sound on_page la57
        rooted in
    (walk ∙ ap (λ x. if la57 && not (nat_eq (va / 2 ^ 48 % 512) 511) then none else x) own, kept)
