-- ===== src/RootCourt/Paging/Mapping.antt =====
-- crates/root-court/src/paging.rs: what `map_4k` and `map_2m` map, and that no walk changes its end.
use court_kernel.Prelude.{
  ℕ, ◌+◌, ◌*◌, ◌/◌, ◌%◌, ◌≡◌, refl, subst, ◌∙◌, inl, inr, some, arith, Bool-cases,
}
use court_kernel.Prelude.Chain.{◌>>=◌}
use court_kernel.RootCourt.Mm.{page}
use court_kernel.RootCourt.Paging.{
  Mapper, is_present, is_huge, phys_part, word_at, huge_2m, set_4k, set_2m, map_4k, map_2m,
  pml4_index, pdpt_index, pd_index, pt_index,
}
use court_kernel.RootCourt.Paging.Walk.{walk_pt, walk_pd, walk_pdpt, translate}
use court_kernel.RootCourt.Paging.Tree.{IsPage, IsTree, Grows, Grows-IsPage, Grows-trans}
use court_kernel.RootCourt.Paging.Table.{Linked}
use court_kernel.RootCourt.Paging.Page.{
  Mapped, Points, Linked-Points, after_table, Holds4k, Holds2m, set_4k_lem, set_2m_lem,
}

module _ (level : ℕ → ℕ) (m n : Mapper) (v : IsTree level m) (g : Grows m n) (va x : ℕ) where
  walk_pt-Grows : (t : ℕ) → IsPage m t → walk_pt m t va ≡ some x → walk_pt n t va ≡ some x
  unfolding walk_pt
  walk_pt-Grows t a h = elim (Bool-cases (is_present (word_at m t (pt_index va)))) [
    | inl on ↦ rw (g.keeps t (pt_index va) a (omega arith) on) h
    | inr off ↦ absurd (ground (arith, off, h))
  ]

  walk_pd-Grows :
      (t : ℕ) → IsPage m t → level t ≡ 1 → walk_pd m t va ≡ some x → walk_pd n t va ≡ some x
  unfolding walk_pd
  walk_pd-Grows t a lv h = elim (Bool-cases (is_present (word_at m t (pd_index va)))) [
    | inr off ↦ absurd (ground (arith, off, h))
    | inl on ↦
        rw (g.keeps t (pd_index va) a (omega arith) on, on)
          (elim (Bool-cases (is_huge (word_at m t (pd_index va)))) [
            | inl big ↦ rw big (rw (on, big) at h)
            | inr flat ↦ rw flat (
                walk_pt-Grows _
                  (v.down t 0 (pd_index va) a lv (omega arith) (omega arith) on flat).0
                  (rw (on, flat) at h))
          ])
  ]

  walk_pdpt-Grows :
      (t : ℕ) → IsPage m t → level t ≡ 2 → walk_pdpt m t va ≡ some x → walk_pdpt n t va ≡ some x
  unfolding walk_pdpt
  walk_pdpt-Grows t a lv h = elim (Bool-cases (is_present (word_at m t (pdpt_index va)))) [
    | inr off ↦ absurd (ground (arith, off, h))
    | inl on ↦
        rw (g.keeps t (pdpt_index va) a (omega arith) on, on)
          (elim (Bool-cases (is_huge (word_at m t (pdpt_index va)))) [
            | inl big ↦ rw big (rw (on, big) at h)
            | inr flat ↦
                let (b, lower) =
                  v.down t 1 (pdpt_index va) a lv (omega arith) (omega arith) on flat in
                rw flat (walk_pd-Grows _ b lower (rw (on, flat) at h))
          ])
  ]

  pub translate-Grows : translate m va ≡ some x → translate n va ≡ some x
  unfolding translate
  translate-Grows h =
      rw g.same_root (elim (Bool-cases (is_present (word_at m m.pml4_phys (pml4_index va)))) [
        | inr off ↦ absurd (ground (arith, off, h))
        | inl on ↦
            rw (g.keeps m.pml4_phys (pml4_index va) v.root (omega arith) on, on)
              (elim (Bool-cases (is_huge (word_at m m.pml4_phys (pml4_index va)))) [
                | inl big ↦ absurd (ground (arith, on, big, h))
                | inr flat ↦
                    let (b, lower) =
                      v.down m.pml4_phys 2 (pml4_index va) v.root v.top (omega arith) (omega arith)
                        on flat in
                    rw flat (walk_pdpt-Grows _ b lower (rw (on, flat) at h))
              ])
      ])

-- A walk through the tables that entries point to.
walk_to_pd :
    (n : Mapper) (pml4 pdpt pd va : ℕ)
    → n.pml4_phys ≡ pml4
    → Points n pml4 (pml4_index va) pdpt
    → Points n pdpt (pdpt_index va) pd
    → translate n va ≡ walk_pd n pd va
unfolding translate walk_pdpt
walk_to_pd n pml4 pdpt pd va e a b =
    rw (e, a.present, a.flat, a.names, b.present, b.flat, b.names) refl

walk_pd_2m :
    (n : Mapper) (pd va phys : ℕ)
    → Holds2m pd (pd_index va) phys n
    → walk_pd n pd va ≡ some (phys_part phys / huge_2m * huge_2m + va % huge_2m)
unfolding walk_pd
walk_pd_2m n pd va phys ((on, e), big) = rw (on, big, e) refl

walk_pd_4k :
    (n : Mapper) (pd pt va phys : ℕ)
    → Points n pd (pd_index va) pt
    → Holds4k pt (pt_index va) phys n
    → walk_pd n pd va ≡ some (phys_part phys / page * page + va % page)
unfolding walk_pd walk_pt
walk_pd_4k n pd pt va phys a (on, e) = rw (a.present, a.flat, a.names, on, e) refl

-- The addresses of a page of the given size.
abbrev pub Maps : ℕ → ℕ → ℕ → Mapper → Type 0
Maps size at phys n =
    (va : ℕ)
    → va / size ≡ at / size
    → translate n va ≡ some (phys_part phys / size * size + va % size)

-- Two entries further down, the same root and the same tables.
module _ {l1 l2 : ℕ → ℕ} {m m1 m2 : Mapper} (n : Mapper) (at va pdpt pd : ℕ)
    (root : IsPage m1 m.pml4_phys) (g1 : Grows m m1)
    (k1 : Linked l1 2 m1 m.pml4_phys (pml4_index at) pdpt) (g2 : Grows m1 m2)
    (k2 : Linked l2 1 m2 pdpt (pdpt_index at) pd) (g3 : Grows m2 n) where
  reaches_pd : va / huge_2m ≡ at / huge_2m → translate n va ≡ walk_pd n pd va
  reaches_pd near =
      let i4 : pml4_index at ≡ pml4_index va = omega arith in
      let i3 : pdpt_index at ≡ pdpt_index va = omega arith in
      walk_to_pd n m.pml4_phys pdpt pd va (g3.same_root ∙ g2.same_root ∙ g1.same_root)
        (subst (λ i. Points n m.pml4_phys i pdpt) i4
          (Linked-Points n k1 root (omega arith) (Grows-trans g2 g3)))
        (subst (λ i. Points n pdpt i pd) i3
          (Linked-Points n k2 (Grows-IsPage g2 pdpt k1.on_page) (omega arith) g3))

module _ (level : ℕ → ℕ) (m : Mapper) (at phys : ℕ) (v : IsTree level m) where
  pub map_2m_lem : let (res, n) = map_2m at phys m in Mapped level m res n (Maps huge_2m at phys)
  unfolding map_2m ◌>>=◌
  map_2m_lem =
      after_table level 2 m m.pml4_phys (pml4_index at) _ (Maps huge_2m at phys) v v.root v.top
        (omega arith) (omega arith)
        (λ l1 m1 pdpt v1 s1 g1 k1.
          after_table l1 1 m1 pdpt (pdpt_index at) _ (Maps huge_2m at phys) v1 k1.on_page
            k1.at_level (omega arith) (omega arith)
            (λ l2 m2 pd v2 s2 g2 k2.
              let x =
                set_2m_lem l2 m2 pd (pd_index at) phys v2 k2.on_page (omega arith)
                  (λ e. ground (arith, e, k2.at_level)) in
              let n = (set_2m pd (pd_index at) phys m2).1 in
              record {
                levels = x.levels;
                same = x.same;
                tree = x.tree;
                grows = x.grows;
                frames = x.frames;
                holds = λ _ fine va near.
                    let i2 : pd_index at ≡ pd_index va = omega arith in
                    reaches_pd n at va pdpt pd (Grows-IsPage g1 _ v.root) g1 k1 g2 k2 x.grows near
                    ∙ walk_pd_2m n pd va phys
                        (subst (λ i. Holds2m pd i phys n) i2 (x.holds tt fine));
              }))

  pub map_4k_lem : let (res, n) = map_4k at phys m in Mapped level m res n (Maps page at phys)
  unfolding map_4k ◌>>=◌
  map_4k_lem =
      after_table level 2 m m.pml4_phys (pml4_index at) _ (Maps page at phys) v v.root v.top
        (omega arith) (omega arith)
        (λ l1 m1 pdpt v1 s1 g1 k1.
          after_table l1 1 m1 pdpt (pdpt_index at) _ (Maps page at phys) v1 k1.on_page k1.at_level
            (omega arith) (omega arith)
            (λ l2 m2 pd v2 s2 g2 k2.
              after_table l2 0 m2 pd (pd_index at) _ (Maps page at phys) v2 k2.on_page k2.at_level
                (omega arith) (omega arith)
                (λ l3 m3 pt v3 s3 g3 k3.
                  let x =
                    set_4k_lem l3 m3 pt (pt_index at) phys v3 k3.on_page (omega arith)
                      k3.at_level in
                  let n = (set_4k pt (pt_index at) phys m3).1 in
                  record {
                    levels = x.levels;
                    same = x.same;
                    tree = x.tree;
                    grows = x.grows;
                    frames = x.frames;
                    holds = λ _ fine va near.
                        let i2 : pd_index at ≡ pd_index va = omega arith in
                        let i1 : pt_index at ≡ pt_index va = omega arith in
                        reaches_pd n at va pdpt pd (Grows-IsPage g1 _ v.root) g1 k1 g2 k2
                          (Grows-trans g3 x.grows) (omega arith)
                        ∙ walk_pd_4k n pd pt va phys
                            (subst (λ i. Points n pd i pt) i2
                              (Linked-Points n k3 (Grows-IsPage g3 pd k2.on_page) (omega arith)
                                x.grows))
                            (subst (λ i. Holds4k pt i phys n) i1 (x.holds tt fine));
                  })))
