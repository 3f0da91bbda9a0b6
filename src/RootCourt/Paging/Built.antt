-- ===== src/RootCourt/Paging/Built.antt =====
-- crates/root-court/src/paging.rs: `build` as a whole, from an allocator to a root table.
use court_kernel.Prelude.{
  ℕ, ◌+◌, ◌-◌, ◌*◌, ◌/◌, ◌^◌, ◌≤◌, ◌<◌, ◌≡◌, refl, sym, ap, ◌∙◌, inl, inr, Bool, true, false, ltb,
  leb, some, List, Memᴰ, ok, err, arith, Bool-cases,
}
use court_kernel.Prelude.Chain.{◌>>=◌, ◌>>◌}
use court_kernel.Hosted.Types.{u64_mod}
use court_kernel.RootCourt.Mm.{page, MemmapEntry}
use court_kernel.RootCourt.Paging.{
  Mapper, no_table_page, phys_part, word_at, put, table_flags, map_range,
}
use court_kernel.RootCourt.Paging.Build.{
  align_up, wrap_la57, cr3_of, Hhdm, map_entries, fill, finish, kernel_phys,
}
use court_kernel.RootCourt.Paging.Walk.{translate, walk_pt, walk_pd, walk_pdpt}
use court_kernel.RootCourt.Paging.Tree.{
  IsMapper, IsTree, Grows, Grows-IsPage, Grows-trans, phys_part_lem, put_same, put-Grows,
  put-IsTree, SameFrames-trans, put-SameFrames,
}
use court_kernel.RootCourt.Paging.Table.{
  alloc_table_outcome, fresh, fresh-IsMapper, fresh-IsPage, fresh_zero, with_level, with_level_old,
  fresh-Grows, fresh_other, fresh-IsTree,
}
use court_kernel.RootCourt.Paging.Page.{Mapped}
use court_kernel.RootCourt.Paging.Mapping.{translate-Grows}
use court_kernel.RootCourt.Paging.Range.{MapsRange, binds, both, stay, map_range_keeps}
use court_kernel.RootCourt.Paging.Build.{Kernel, mapper, build, PageMap}
use court_kernel.RootCourt.Paging.Boot.{
  weaker, Anything, MapsDirect, MapsDirect-Grows, map_entries_keeps,
}

-- A fifth level over the root.
wrap_la57_keeps :
    (level : ℕ → ℕ) (m : Mapper)
    → IsTree level m
    → let (res, n) = wrap_la57 m.pml4_phys m in Mapped level m res n Anything
unfolding wrap_la57 ◌>>=◌ ◌>>◌
wrap_la57_keeps level m v = elim (alloc_table_outcome m v.sound) [
  | inl e ↦ rw e (stay (err no_table_page) level m Anything v tt)
  | inr (room, e) ↦
      let tree = fresh-IsTree m v.sound room level 4 v in
      let new = fresh-IsPage m v.sound room in
      let small = v.sound.small in
      let b = v.sound.bump in
      let high = b.high in
      let named : phys_part (m.pml4_phys + table_flags) ≡ m.pml4_phys =
        let r = v.root in phys_part_lem m.pml4_phys table_flags r.0 (omega arith) (omega arith) in
      let old = Grows-IsPage (fresh-Grows m v.sound room) m.pml4_phys v.root in
      let word =
        put_same (with_level m v.sound room level 4) (fresh m) m.bump.cursor 511
          (m.pml4_phys + table_flags) tree new (omega arith) in
      rw e (record {
        levels = with_level m v.sound room level 4;
        same = with_level_old m v.sound room level 4;
        tree =
            put-IsTree _ (fresh m) m.bump.cursor 511 (m.pml4_phys + table_flags) tree new
              (omega arith)
              (λ l lv u on flat. rw named (
                old,
                with_level_old m v.sound room level 4 m.pml4_phys v.root
                    ∙ v.top
                    ∙ ground (arith, lv),
              ));
        grows = Grows-trans (fresh-Grows m v.sound room) (
            put-Grows _ (fresh m) m.bump.cursor 511 (m.pml4_phys + table_flags) tree new
              (omega arith) (rw (fresh_zero m v.sound room 511 (omega arith)) refl));
        frames =
            SameFrames-trans level (with_level m v.sound room level 4) m (fresh m)
              (put m.bump.cursor 511 (m.pml4_phys + table_flags) (fresh m))
              (fresh-Grows m v.sound room) (with_level_old m v.sound room level 4)
              (λ p i a w k. fresh_other m v.sound room p i a k)
              (put-SameFrames (with_level m v.sound room level 4) (fresh m) m.bump.cursor 511
                (m.pml4_phys + table_flags) tree new (omega arith) (λ w. ground (arith, w)));
        holds = λ _ _. tt;
      })
]

cr3_of_keeps :
    (la57 : Bool) (level : ℕ → ℕ) (m : Mapper)
    → IsTree level m
    → let (res, n) = cr3_of la57 m.pml4_phys m in Mapped level m res n Anything
cr3_of_keeps true level m v = wrap_la57_keeps level m v
cr3_of_keeps false level m v = stay (ok m.pml4_phys) level m Anything v tt

-- The image of the kernel, where the bounds of its link say.
abbrev pub MapsKernel : ℕ → ℕ → ℕ → Mapper → Type 0
MapsKernel phys kstart kend n =
    kend + page ≤ u64_mod
    → phys + (kend - kstart) + page ≤ 2 ^ 52
    → (d : ℕ) → d < kend - kstart
    → translate n (kstart + d) ≡ some (phys + d)

MapsKernel-Grows :
    (phys kstart kend : ℕ) (level : ℕ → ℕ) (m n : Mapper)
    → IsTree level m
    → Grows m n
    → MapsKernel phys kstart kend m
    → MapsKernel phys kstart kend n
MapsKernel-Grows phys kstart kend level m n v g h a b d k =
    translate-Grows level m n v g _ _ (h a b d k)

kernel_of_range :
    (phys kstart kend : ℕ) (n : Mapper)
    → kstart < kend
    → let len = align_up (kend - kstart) page in
      (kstart + len ≤ u64_mod → phys + len ≤ 2 ^ 52 → MapsRange kstart phys (len / page * page) n)
      → MapsKernel phys kstart kend n
kernel_of_range phys kstart kend n lt h a b d k = h (omega arith) (omega arith) d (omega arith)

module _ (hhdm kernel_phys_base kernel_virt_base kstart kend : ℕ) (la57 : Bool) where
  abbrev pub MapsAll : List MemmapEntry → Mapper → Type 0
  MapsAll entries n =
      MapsKernel (kernel_phys kernel_phys_base kernel_virt_base kstart) kstart kend n
      × ((entry : MemmapEntry) → Memᴰ entry entries → MapsDirect hhdm entry n)

  finish_keeps :
      (seen : Hhdm) (level : ℕ → ℕ) (m : Mapper)
      → IsTree level m
      → let (res, n) = finish hhdm kernel_phys_base kernel_virt_base kstart kend la57 seen m in
        Mapped level m res n Anything
  unfolding finish ◌>>=◌
  finish_keeps seen level m v =
      binds level m (cr3_of la57 m.pml4_phys) Anything Anything Anything
        (cr3_of_keeps la57 level m v) (λ l n k t g q. tt) (λ n q r. tt) _
        (λ cr3 l n t. stay (ok _) l n Anything t tt)

  fill_keeps :
      (entries : List MemmapEntry) (level : ℕ → ℕ) (m : Mapper)
      → kstart < kend
      → IsTree level m
      → let (res, n) = fill hhdm kernel_phys_base kernel_virt_base kstart kend la57 entries m in
        Mapped level m res n (MapsAll entries)
  unfolding fill
  fill_keeps entries level m lt v =
      let phys = kernel_phys kernel_phys_base kernel_virt_base kstart in
      both level m (map_range kstart phys (align_up (kend - kstart) page))
        (MapsKernel phys kstart kend)
        (λ n. (e : MemmapEntry) → Memᴰ e entries → MapsDirect hhdm e n) (MapsAll entries)
        (weaker (kernel_of_range phys kstart kend _ lt) (map_range_keeps level m kstart phys _ v))
        (MapsKernel-Grows phys kstart kend) (λ n q r. (q, r)) _
        (λ l n t.
          binds l n
            (map_entries hhdm kernel_phys_base kernel_virt_base entries
              (record { bytes = 0; spans = 0 }))
            (λ n. (e : MemmapEntry) → Memᴰ e entries → MapsDirect hhdm e n) Anything
            (λ n. (e : MemmapEntry) → Memᴰ e entries → MapsDirect hhdm e n)
            (map_entries_keeps hhdm kernel_phys_base kernel_virt_base entries
              (record { bytes = 0; spans = 0 }) l n t)
            (λ l k u t g q e h. MapsDirect-Grows hhdm e l k u t g (q e h)) (λ k q r. q) _
            finish_keeps)

-- The first table, as the root.
abbrev pub rooted : Mapper → ℕ → Mapper
rooted m pages = record (fresh m) { pml4_phys = m.bump.cursor; table_pages = pages }

pub rooted-IsTree :
    (m : Mapper) (v : IsMapper m) (room : m.bump.cursor + page ≤ m.bump.end) (pages : ℕ)
    → IsTree (with_level m v room (λ _. 0) 3) (rooted m pages)
rooted-IsTree m v room pages =
    let s = fresh-IsMapper m v room in
    record {
      sound = record { bump = s.bump; flat = s.flat; even = s.even; small = s.small };
      root = fresh-IsPage m v room;
      top = ground arith;
      down = λ p l i a lv u h on. absurd (
          let at : p ≡ m.bump.cursor = ground arith in
          let z = fresh_zero m v room i h in
          ground (arith, at, z, on, ap (λ q. word_at (fresh m) q i) at));
    }

-- The walk does not read the count of tables.
pub same_walk :
    (n : Mapper) (root pages va : ℕ)
    → n.pml4_phys ≡ root
    → translate (record n { pml4_phys = root; table_pages = pages }) va ≡ translate n va
unfolding translate walk_pt walk_pd walk_pdpt
same_walk n root pages va e = rw (sym e) refl

pub same-IsTree :
    (level : ℕ → ℕ) (n : Mapper) (root pages : ℕ)
    → n.pml4_phys ≡ root
    → IsTree level n
    → IsTree level (record n { pml4_phys = root; table_pages = pages })
same-IsTree level n root pages e v =
    let s = v.sound in
    record {
      sound = record { bump = s.bump; flat = s.flat; even = s.even; small = s.small };
      root = rw (sym e) v.root;
      top = rw (sym e) v.top;
      down = v.down;
    }

-- The tables of the kernel after `build`.
abbrev pub kernel_tables : Kernel → Mapper
kernel_tables k = mapper k k.kernel_pml4 0

module _ (hhdm kernel_phys_base kernel_virt_base kstart kend : ℕ) (la57 : Bool)
    (entries : List MemmapEntry) where
  same_maps :
      (n : Mapper) (root : ℕ)
      → n.pml4_phys ≡ root
      → MapsAll hhdm kernel_phys_base kernel_virt_base kstart kend la57 entries n
      → MapsAll hhdm kernel_phys_base kernel_virt_base kstart kend la57 entries
          (record n { pml4_phys = root; table_pages = 0 })
  same_maps n root e (f, g) = (
    λ a b d k. same_walk n root 0 _ e ∙ f a b d k,
    λ entry h on a b p low high. same_walk n root 0 _ e ∙ g entry h on a b p low high,
  )

  -- The levels are sound, and the maps are there.
  abbrev pub IsBuilt : Mapper → Type 0
  IsBuilt n =
      ((levels : ℕ → ℕ) × IsTree levels n)
      × MapsAll hhdm kernel_phys_base kernel_virt_base kstart kend la57 entries n

  -- From an allocator whose region ends below 2^52 and lies within the direct map: when `build` returns `ok`, the
  -- levels of its tables are sound, and the processor that walks the tables from the root that it keeps finds each byte of the kernel's image at its place in
  -- memory, and each byte of the whole pages of an entry that the direct map covers at the address that stands for it,
  -- as far as these lie within the addresses and within memory.
  pub build_lem :
      (k : Kernel) (map : PageMap)
      → IsMapper (mapper k 0 0)
      → (build hhdm kernel_phys_base kernel_virt_base kstart kend la57 entries k).0 ≡ ok map
      → IsBuilt (
          kernel_tables (build hhdm kernel_phys_base kernel_virt_base kstart kend la57 entries k).1)
  unfolding build ◌>>=◌ ◌>>◌
  build_lem k map v = elim (Bool-cases (leb kend kstart)) [
    | inl e ↦ rw e (λ bad. absurd (ground (arith, bad)))
    | inr more ↦ elim (Bool-cases (ltb kstart kernel_virt_base)) [
      | inl e ↦ rw (more, e) (λ bad. absurd (ground (arith, bad)))
      | inr high ↦ elim (alloc_table_outcome (mapper k 0 0) v) [
        | inl e ↦ rw (more, high, e) (λ bad. absurd (ground (arith, bad)))
        | inr (room, e) ↦
            let x =
              fill_keeps hhdm kernel_phys_base kernel_virt_base kstart kend la57 entries _ _
                (ground arith) (rooted-IsTree (mapper k 0 0) v room 1) in
            rw (more, high, e)
              (λ fine.
                let g = x.grows in
                (
                  (x.levels, same-IsTree x.levels _ k.bump.cursor 0 g.same_root x.tree),
                  same_maps _ k.bump.cursor g.same_root (x.holds map fine),
                ))
      ]
    ]
  ]
