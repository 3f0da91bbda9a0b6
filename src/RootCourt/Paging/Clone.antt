-- ===== src/RootCourt/Paging/Clone.antt =====
-- crates/root-court/src/paging.rs: a court's address space starts as the kernel's, and a map into it
-- changes nothing that was mapped.
use court_kernel.Prelude.{
  ℕ, suc, ◌+◌, ◌≤◌, ◌<◌, ◌≡◌, ◌≢◌, refl, sym, ap, ◌∙◌, inl, inr, Bool, true, false, nat_eq, leb,
  some, ok, err, Result-cases, arith, Bool-cases, if◌then◌else◌,
}
use court_kernel.Prelude.Chain.{◌>>=◌, ◌>>◌}
use court_kernel.RootCourt.Mm.{page}
use court_kernel.RootCourt.Paging.{
  Mapper, no_table_page, phys_part, is_present, is_huge, word_at, alloc_table,
}
use court_kernel.RootCourt.Paging.Build.{wrap_la57, cr3_of, Kernel, mapper}
use court_kernel.RootCourt.Paging.Space.{AddressSpace, copy_from, clone_into, clone_kernel, map_in}
use court_kernel.RootCourt.Paging.Walk.{translate}
use court_kernel.RootCourt.Paging.Tree.{IsMapper, IsPage, IsTree, frame}
use court_kernel.RootCourt.Paging.Table.{
  alloc_table_outcome, fresh, fresh-IsMapper, fresh-IsPage, fresh_other,
}
use court_kernel.RootCourt.Paging.Built.{kernel_tables}
use court_kernel.RootCourt.Paging.Mapping.{translate-Grows}
use court_kernel.RootCourt.Paging.Range.{map_range_keeps}
use court_kernel.RootCourt.Paging.Exact.{SamePages, translate_same}
use court_kernel.RootCourt.Paging.Copy.{
  in_copy, copy_from_lem, copy_from-bump, cr3_of_same, cursor_of, Rooted, cr3_of-Rooted,
  Rooted-Mapper,
}

cr3_of_sound :
    (la57 : Bool) (root : ℕ) (m : Mapper)
    → IsMapper m
    → IsMapper (cr3_of la57 root m).1 × m.bump.cursor ≤ (cr3_of la57 root m).1.bump.cursor
unfolding wrap_la57 ◌>>=◌ ◌>>◌
cr3_of_sound false root m v = (v, omega arith)
cr3_of_sound true root m v = elim (alloc_table_outcome m v) [
  | inl e ↦ rw e (v, omega arith)
  | inr (room, e) ↦
      let s = fresh-IsMapper m v room in
      rw e (record { bump = s.bump; flat = s.flat; even = s.even; small = s.small }, omega arith)
]

-- The new root holds the entries of the old one, and every page there was is as it was.
record IsClone (la57 : Bool) (m : Mapper) (source : ℕ) (space : AddressSpace) (n : Mapper)
    : Type 0 where
  entries : (i : ℕ) → i < 512 → word_at n space.pml4_phys i ≡ word_at m source i
  pages : SamePages m n
  sound : IsMapper n
  at : space.pml4_phys ≡ m.bump.cursor
  further : m.bump.cursor + page ≤ n.bump.cursor
  rooted : Rooted la57 space.pml4_phys space.cr3 n

-- The mapper of `clone_into` after the loop.
abbrev copied : Mapper → ℕ → Mapper
copied m source =
    copy_from 512 0 source m.bump.cursor (record (fresh m) { pml4_phys = m.bump.cursor })

module _ (m : Mapper) (source : ℕ) (v : IsMapper m) (a : IsPage m source)
    (room : m.bump.cursor + page ≤ m.bump.end) where
  copied_word :
      (p i : ℕ)
      → IsPage (fresh m) p
      → i < 512
      → word_at (copied m source) p i ≡ (
          if in_copy 512 0 m.bump.cursor p i
          then word_at (fresh m) source i
          else word_at (fresh m) p i)
  copied_word p i c k =
      let s = fresh-IsMapper m v room in
      copy_from_lem 512 0 source m.bump.cursor (record (fresh m) { pml4_phys = m.bump.cursor })
        (record { bump = s.bump; flat = s.flat; even = s.even; small = s.small })
        (a.0, let h = a.1 in omega arith) (fresh-IsPage m v room)
        (λ e. let h = a.1 in absurd (omega arith)) (omega arith) p i c k

  copied_root : (i : ℕ) → i < 512 → word_at (copied m source) m.bump.cursor i ≡ word_at m source i
  copied_root i k =
      copied_word m.bump.cursor i (fresh-IsPage m v room) k
      ∙ (ground arith)
      ∙ fresh_other m v room source i a k

  copied_old : (p i : ℕ) → IsPage m p → i < 512 → word_at (copied m source) p i ≡ word_at m p i
  copied_old p i c k =
      let h = c.1 in
      copied_word p i (c.0, omega arith) k ∙ (ground arith) ∙ fresh_other m v room p i c k

  copied-IsMapper : IsMapper (copied m source)
  copied-IsMapper =
      let s = fresh-IsMapper m v room in
      let b =
        copy_from-bump 512 0 source m.bump.cursor
          (record (fresh m) { pml4_phys = m.bump.cursor }) in
      record { bump = rw b s.bump; flat = rw b s.flat; even = rw b s.even; small = rw b s.small }

  copied_cursor : (copied m source).bump.cursor ≡ m.bump.cursor + page
  copied_cursor =
      ap (λ b. cursor_of b)
        (copy_from-bump 512 0 source m.bump.cursor (record (fresh m) { pml4_phys = m.bump.cursor }))

  copied-IsPage : (p : ℕ) → IsPage (fresh m) p → IsPage (copied m source) p
  copied-IsPage p c =
      rw
        (copy_from-bump 512 0 source m.bump.cursor (record (fresh m) { pml4_phys = m.bump.cursor }))
        c

  clone_into-IsClone :
      (la57 : Bool) (space : AddressSpace)
      → (clone_into la57 source m).0 ≡ ok space
      → IsClone la57 m source space (clone_into la57 source m).1
  unfolding clone_into ◌>>=◌ ◌>>◌
  clone_into-IsClone la57 space = elim (alloc_table_outcome m v) [
    | inl e ↦ rw e (λ bad. absurd (ground (arith, bad)))
    | inr (_, e) ↦ rw e (elim (Result-cases (cr3_of la57 m.bump.cursor (copied m source)).0) [
      | inl (x, r) ↦ rw r (λ bad. absurd (ground (arith, bad)))
      | inr (cr3, r) ↦ rw r (λ fine.
          let exact = cr3_of_same la57 m.bump.cursor (copied m source) copied-IsMapper in
          let at : space.pml4_phys ≡ m.bump.cursor = ground (arith, fine) in
          let (sound, more) = cr3_of_sound la57 m.bump.cursor (copied m source) copied-IsMapper in
          record {
            sound = sound;
            at = at;
            rooted =
                let named : space.cr3 ≡ cr3 = ground (arith, fine) in
                rw (at, named)
                  (cr3_of-Rooted la57 m.bump.cursor (copied m source) cr3 copied-IsMapper r);
            further = let b = copied_cursor in omega arith;
            entries = λ i k. rw at (
                exact m.bump.cursor i (copied-IsPage _ (fresh-IsPage m v room)) k
                ∙ copied_root i k);
            pages = λ p i c k.
                exact p i (copied-IsPage p (c.0, let h = c.1 in omega arith)) k
                ∙ copied_old p i c k;
          })
    ])
  ]

refused :
    (la57 : Bool) (source : ℕ) (m : Mapper) (space : AddressSpace)
    → alloc_table m ≡ (err no_table_page, m)
    → (clone_into la57 source m).0 ≢ ok space
unfolding clone_into ◌>>=◌
refused la57 source m space e = rw e (λ bad. ground (arith, bad))

-- The clone of sound tables, whatever comes after the kernel's pages.
clone_into_ok :
    (la57 : Bool) (level : ℕ → ℕ) (k : Kernel) (space : AddressSpace)
    → IsTree level (kernel_tables k)
    → (clone_into la57 k.kernel_pml4 (mapper k 0 0)).0 ≡ ok space
    → IsClone la57
        (mapper k 0 0)
        k.kernel_pml4
        space
        (clone_into la57 k.kernel_pml4 (mapper k 0 0)).1
clone_into_ok la57 level k space v fine =
    let s = v.sound in
    let m = mapper k 0 0 in
    let sound : IsMapper m = record {
      bump = s.bump;
      flat = s.flat;
      even = s.even;
      small = s.small;
    } in
    elim (alloc_table_outcome m sound) [
      | inl none_left ↦ absurd (refused la57 k.kernel_pml4 m space none_left fine)
      | inr (room, _) ↦ clone_into-IsClone m k.kernel_pml4 sound v.root room la57 space fine
    ]

-- The levels after a clone: the new root at the top, the pages that there were as before.
abbrev pub cloned : (ℕ → ℕ) → ℕ → ℕ → ℕ
cloned level root p = if nat_eq p root then 3 else if leb (p + page) root then level p else 0

cloned_old :
    (level : ℕ → ℕ) (m : Mapper) (p : ℕ) → IsPage m p → cloned level m.bump.cursor p ≡ level p
cloned_old level m p (a, h) = ground arith

module _ (la57 : Bool) (level : ℕ → ℕ) (m : Mapper) (source : ℕ) (space : AddressSpace) (n : Mapper)
    (x : IsClone la57 m source space n) (a : IsPage m source) (top : level source ≡ 3)
    (down : (p l i : ℕ)
      → IsPage m p
      → level p ≡ suc l
      → suc l < frame
      → i < 512
      → is_present (word_at m p i) ≡ true
      → is_huge (word_at m p i) ≡ false
      → IsPage m (phys_part (word_at m p i)) × (level (phys_part (word_at m p i)) ≡ l)) where
  lower-IsPage : (q : ℕ) → IsPage m q → IsPage n q
  lower-IsPage q (b, h) = (b, let f = x.further in omega arith)

  -- An entry of the new root, or of a page that there was.
  cloned_down :
      (p l i : ℕ)
      → IsPage n p
      → cloned level m.bump.cursor p ≡ suc l
      → suc l < frame
      → i < 512
      → is_present (word_at n p i) ≡ true
      → is_huge (word_at n p i) ≡ false
      → IsPage n (phys_part (word_at n p i))
        × (cloned level m.bump.cursor (phys_part (word_at n p i)) ≡ l)
  cloned_down p l i b lv u h = elim (Bool-cases (nat_eq p m.bump.cursor)) [
    | inl new ↦
        let e : p ≡ space.pml4_phys = let f = x.at in ground arith in
        rw (e, x.entries i h)
          (λ on flat.
            let (c, d) = down source 2 i a top (omega arith) h on flat in
            (lower-IsPage _ c, cloned_old level m _ c ∙ d ∙ ground arith))
    | inr old ↦
        let c : IsPage m p = (b.0, ground arith) in
        rw (x.pages p i c h) (λ on flat.
          let (d, e) = down p l i c (sym (cloned_old level m p c) ∙ lv) u h on flat in
          (lower-IsPage _ d, cloned_old level m _ d ∙ e))
  ]

-- When `clone_kernel` succeeds on sound tables of the kernel, the new root translates every address as the kernel's
-- does, and the kernel's translates every address as before.
pub clone_kernel_lem :
    (la57 : Bool) (level : ℕ → ℕ) (k : Kernel) (space : AddressSpace)
    → IsTree level (kernel_tables k)
    → (clone_kernel la57 k).0 ≡ ok space
    → (va : ℕ)
    → let t = (clone_kernel la57 k).1 in
      (translate (mapper t space.pml4_phys 0) va ≡ translate (kernel_tables k) va)
      × (translate (kernel_tables t) va ≡ translate (kernel_tables k) va)
unfolding clone_kernel ◌>>=◌
clone_kernel_lem la57 level k space v = elim (Bool-cases (nat_eq k.kernel_pml4 0)) [
  | inl e ↦ rw e (λ bad va. absurd (ground (arith, bad)))
  | inr e ↦ rw e (λ fine va.
      let x = clone_into_ok la57 level k space v fine in
      (
        translate_same level (kernel_tables k) _ v x.pages va x.entries,
        translate_same level (kernel_tables k) _ v x.pages va
            (λ i h. x.pages k.kernel_pml4 i v.root h),
      ))
]

-- When `clone_kernel` succeeds on sound tables of the kernel, the levels of the new tables and of the kernel's are
-- sound together.
pub clone_kernel-IsTree :
    (la57 : Bool) (level : ℕ → ℕ) (k : Kernel) (space : AddressSpace)
    → IsTree level (kernel_tables k)
    → (clone_kernel la57 k).0 ≡ ok space
    → let t = (clone_kernel la57 k).1 in
      IsTree (cloned level k.bump.cursor) (mapper t space.pml4_phys 0)
      × IsTree (cloned level k.bump.cursor) (kernel_tables t)
unfolding clone_kernel ◌>>=◌
clone_kernel-IsTree la57 level k space v = elim (Bool-cases (nat_eq k.kernel_pml4 0)) [
  | inl e ↦ rw e (λ bad. absurd (ground (arith, bad)))
  | inr e ↦ rw e (λ fine.
      let x = clone_into_ok la57 level k space v fine in
      let s = x.sound in
      let f = x.further in
      let b = v.sound.bump in
      let down =
        cloned_down la57 level (mapper k 0 0) k.kernel_pml4 space _ x v.root v.top v.down in
      (
        record {
          sound = record { bump = s.bump; flat = s.flat; even = s.even; small = s.small };
          root = rw x.at (b.aligned, f);
          top = let e = x.at in ground arith;
          down = down;
        },
        record {
          sound = record { bump = s.bump; flat = s.flat; even = s.even; small = s.small };
          root =
              lower-IsPage la57 level (mapper k 0 0) k.kernel_pml4 space _ x v.root v.top v.down
                k.kernel_pml4 v.root;
          top = cloned_old level (mapper k 0 0) k.kernel_pml4 v.root ∙ v.top;
          down = down;
        },
      ))
]

-- What the register CR3 of the new space names.
pub clone_kernel-Rooted :
    (la57 : Bool) (level : ℕ → ℕ) (k : Kernel) (space : AddressSpace)
    → IsTree level (kernel_tables k)
    → (clone_kernel la57 k).0 ≡ ok space
    → let n = mapper (clone_kernel la57 k).1 0 0 in
      IsMapper n × IsPage n space.pml4_phys × Rooted la57 space.pml4_phys space.cr3 n
unfolding clone_kernel ◌>>=◌
clone_kernel-Rooted la57 level k space v = elim (Bool-cases (nat_eq k.kernel_pml4 0)) [
  | inl e ↦ rw e (λ bad. absurd (ground (arith, bad)))
  | inr e ↦ rw e (λ fine.
      let x = clone_into_ok la57 level k space v fine in
      let s = x.sound in
      (
        record { bump = s.bump; flat = s.flat; even = s.even; small = s.small },
        let f = x.further in rw x.at (v.sound.bump.aligned, f),
        Rooted-Mapper la57 space.pml4_phys space.cr3 0 0 _ x.rooted,
      ))
]

-- A map into one address space, whatever it returns, changes no mapping that any root over the same levels has: the
-- kernel's, and those of other courts.
pub map_in_keeps :
    (level : ℕ → ℕ) (k : Kernel) (space : AddressSpace) (at phys len other va x : ℕ)
    → IsTree level (mapper k space.pml4_phys 0)
    → IsTree level (mapper k other 0)
    → translate (mapper k other 0) va ≡ some x
    → translate (mapper (map_in space at phys len k).1 other 0) va ≡ some x
unfolding map_in
map_in_keeps level k space at phys len other va x v w h =
    elim (Bool-cases (leb 0x800000000000 at)) [
      | inl e ↦ rw e h
      | inr e ↦ rw e (
          let y = map_range_keeps level (mapper k space.pml4_phys 0) at phys len v in
          let g = y.grows in
          translate-Grows level (mapper k other 0) _ w
            (record { same_root = refl; further = g.further; keeps = g.keeps }) va x h)
    ]
