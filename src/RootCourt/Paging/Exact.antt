-- ===== src/RootCourt/Paging/Exact.antt =====
-- crates/root-court/src/paging.rs: walks over equal tables end alike.
use court_kernel.Prelude.{ℕ, ◌<◌, ◌≡◌, refl, inl, inr, arith, Bool-cases}
use court_kernel.RootCourt.Paging.{
  Mapper, is_present, is_huge, word_at, pml4_index, pdpt_index, pd_index, pt_index,
}
use court_kernel.RootCourt.Paging.Walk.{translate, walk_pt, walk_pd, walk_pdpt}
use court_kernel.RootCourt.Paging.Tree.{IsPage, IsTree}

-- All entries of the pages that there were are as they were.
abbrev pub SamePages : Mapper → Mapper → Type 0
SamePages m n = (p i : ℕ) → IsPage m p → i < 512 → word_at n p i ≡ word_at m p i

-- Walks that start from equal roots through the same pages end alike.
module _ (level : ℕ → ℕ) (m n : Mapper) (v : IsTree level m) (same : SamePages m n) (va : ℕ) where
  walk_pt_same : (t : ℕ) → IsPage m t → walk_pt n t va ≡ walk_pt m t va
  unfolding walk_pt
  walk_pt_same t a = rw (same t (pt_index va) a (omega arith)) refl

  walk_pd_same : (t : ℕ) → IsPage m t → level t ≡ 1 → walk_pd n t va ≡ walk_pd m t va
  unfolding walk_pd
  walk_pd_same t a lv =
      rw (same t (pd_index va) a (omega arith))
        (elim (Bool-cases (is_present (word_at m t (pd_index va)))) [
          | inr off ↦ rw off refl
          | inl on ↦ elim (Bool-cases (is_huge (word_at m t (pd_index va)))) [
            | inl big ↦ rw (on, big) refl
            | inr flat ↦
                rw (on, flat)
                  (walk_pt_same _
                    (v.down t 0 (pd_index va) a lv (omega arith) (omega arith) on flat).0)
          ]
        ])

  walk_pdpt_same : (t : ℕ) → IsPage m t → level t ≡ 2 → walk_pdpt n t va ≡ walk_pdpt m t va
  unfolding walk_pdpt
  walk_pdpt_same t a lv =
      rw (same t (pdpt_index va) a (omega arith))
        (elim (Bool-cases (is_present (word_at m t (pdpt_index va)))) [
          | inr off ↦ rw off refl
          | inl on ↦ elim (Bool-cases (is_huge (word_at m t (pdpt_index va)))) [
            | inl big ↦ rw (on, big) refl
            | inr flat ↦
                let (b, lower) =
                  v.down t 1 (pdpt_index va) a lv (omega arith) (omega arith) on flat in
                rw (on, flat) (walk_pd_same _ b lower)
          ]
        ])

  pub translate_same :
      ((i : ℕ) → i < 512 → word_at n n.pml4_phys i ≡ word_at m m.pml4_phys i)
      → translate n va ≡ translate m va
  unfolding translate
  translate_same root =
      rw (root (pml4_index va) (omega arith))
        (elim (Bool-cases (is_present (word_at m m.pml4_phys (pml4_index va)))) [
          | inr off ↦ rw off refl
          | inl on ↦ elim (Bool-cases (is_huge (word_at m m.pml4_phys (pml4_index va)))) [
            | inl big ↦ rw (on, big) refl
            | inr flat ↦
                let (b, lower) =
                  v.down m.pml4_phys 2 (pml4_index va) v.root v.top (omega arith) (omega arith) on
                    flat in
                rw (on, flat) (walk_pdpt_same _ b lower)
          ]
        ])
