-- ===== src/RootCourt/Paging/Table.antt =====
-- crates/root-court/src/paging.rs: `alloc_table` and `ensure_table` keep the levels.
use court_kernel.Prelude.{
  ℕ, suc, ◌+◌, ◌%◌, ◌≤◌, ◌<◌, ◌≡◌, ◌≢◌, refl, sym, ◌∙◌, ◌⊎◌, inl, inr, true, false, none, some,
  Result, ok, err, nat_eq, arith, Bool-cases, if◌then◌else◌,
}
use court_kernel.Prelude.Chain.{◌>>=◌, ◌>>◌}
use court_kernel.Hosted.Types.{u64_mod}
use court_kernel.RootCourt.Mm.{page, BumpAllocator, virt, alloc_pages, page_up}
use court_kernel.RootCourt.Mm.Bounds.{IsBump}
use court_kernel.RootCourt.Paging.{
  Mapper, MapError, no_table_page, collision, is_present, is_huge, phys_part, zeroed, word_at, put,
  table_flags, alloc_table, ensure_table,
}
use court_kernel.RootCourt.Paging.Tree.{
  IsMapper, IsPage, IsTree, Grows, Grows-refl, Grows-trans, Grows-IsPage, entry_lem, phys_part_lem,
  put_same, put-Grows, put-IsTree, SameFrames, SameFrames-trans, put-SameFrames,
}

-- The mapper after a table was allocated at the cursor.
abbrev pub fresh : Mapper → Mapper
fresh m = record m {
  bump = record m.bump { cursor = m.bump.cursor + page };
  memory = zeroed (virt m.bump m.bump.cursor) m.memory;
  table_pages = (m.table_pages + 1) % u64_mod;
}

pub alloc_pages_one :
    (b : BumpAllocator)
    → IsBump b
    → (alloc_pages 1 b ≡ (none, b))
      ⊎ ((b.cursor + page ≤ b.end)
          × (alloc_pages 1 b
              ≡ (some (b.cursor, virt b b.cursor), record b { cursor = b.cursor + page })))
unfolding alloc_pages
alloc_pages_one b v =
    let up : page_up b.cursor ≡ b.cursor =
      let a = v.aligned in let h = v.high in let f = v.fits in omega arith in
    rw up (ground arith)

pub alloc_table_outcome :
    (m : Mapper)
    → IsMapper m
    → (alloc_table m ≡ (err no_table_page, m))
      ⊎ ((m.bump.cursor + page ≤ m.bump.end) × (alloc_table m ≡ (ok m.bump.cursor, fresh m)))
unfolding alloc_table
alloc_table_outcome m v = elim (alloc_pages_one m.bump v.bump) [
  | inl e ↦ inl (ground (arith, e))
  | inr (h, e) ↦ inr (h, ground (arith, e))
]

module _ (m : Mapper) (v : IsMapper m) (room : m.bump.cursor + page ≤ m.bump.end) where
  pub fresh-IsPage : IsPage (fresh m) m.bump.cursor
  fresh-IsPage = let b = v.bump in (b.aligned, omega arith)

  pub fresh-IsMapper : IsMapper (fresh m)
  fresh-IsMapper =
      let b = v.bump in
      record {
        bump = record {
          aligned = let a = b.aligned in omega arith;
          low = let l = b.low in omega arith;
          high = room;
          fits = b.fits;
        };
        flat = v.flat;
        even = v.even;
        small = v.small;
      }

  -- The entries of the new table are not present, those of the other pages are as before.
  pub fresh_zero : (i : ℕ) → i < 512 → word_at (fresh m) m.bump.cursor i ≡ 0
  fresh_zero i h =
      let e = entry_lem (fresh m) m.bump.cursor i fresh-IsMapper fresh-IsPage h in
      let f = v.flat in
      let at : virt m.bump m.bump.cursor ≡ m.bump.hhdm + m.bump.cursor = omega arith in
      rw (e, at) (ground arith)

  pub fresh_other : (p i : ℕ) → IsPage m p → i < 512 → word_at (fresh m) p i ≡ word_at m p i
  fresh_other p i (a, h) k =
      let e = entry_lem m p i v (a, h) k in
      let f = v.flat in
      let at : virt m.bump m.bump.cursor ≡ m.bump.hhdm + m.bump.cursor = omega arith in
      rw (e, at) (ground arith)

  -- The new table, at the level that is asked for.
  abbrev pub with_level : (ℕ → ℕ) → ℕ → ℕ → ℕ
  with_level level l p = if nat_eq p m.bump.cursor then l else level p

  pub with_level_old : (level : ℕ → ℕ) (l p : ℕ) → IsPage m p → with_level level l p ≡ level p
  with_level_old level l p (a, h) = ground arith

  pub fresh-Grows : Grows m (fresh m)
  fresh-Grows = record {
    same_root = refl;
    further = omega arith;
    keeps = λ p i a k e. fresh_other p i a k;
  }

  old-IsPage : (p : ℕ) → IsPage (fresh m) p → p ≢ m.bump.cursor → IsPage m p
  old-IsPage p (a, h) ne = (a, let c = v.bump in let b = c.aligned in omega arith)

  pub fresh-IsTree :
      (level : ℕ → ℕ) (l : ℕ) → IsTree level m → IsTree (with_level level l) (fresh m)
  fresh-IsTree level l x = record {
    sound = fresh-IsMapper;
    root = Grows-IsPage fresh-Grows m.pml4_phys x.root;
    top = with_level_old level l m.pml4_phys x.root ∙ x.top;
    down = λ p k i a e u h. elim (Bool-cases (nat_eq p m.bump.cursor)) [
      | inl hit ↦
          let at : p ≡ m.bump.cursor = ground arith in
          rw (at, fresh_zero i h) (λ on. absurd (ground (arith, on)))
      | inr off ↦
          let old = old-IsPage p a (ground arith) in
          rw (fresh_other p i old h) (λ on flat.
            let (q, lv) = x.down p k i old (ground arith) u h on flat in
            (Grows-IsPage fresh-Grows _ q, with_level_old level l _ q ∙ lv))
    ];
  }

-- The entry holds the table `next`, at level `l`.
pub record Linked (level : ℕ → ℕ) (l : ℕ) (m : Mapper) (table index next : ℕ) : Type 0 where
  pub present : is_present (word_at m table index) ≡ true
  pub flat : is_huge (word_at m table index) ≡ false
  pub names : phys_part (word_at m table index) ≡ next
  pub on_page : IsPage m next
  pub at_level : level next ≡ l

-- What `ensure_table` leaves: the levels of the old pages, and on success a table below the entry.
pub record Ensured (level : ℕ → ℕ) (l : ℕ) (m : Mapper) (table index : ℕ) (res : Result MapError ℕ)
    (n : Mapper) : Type 0 where
  pub levels : ℕ → ℕ
  pub same : (p : ℕ) → IsPage m p → levels p ≡ level p
  pub tree : IsTree levels n
  pub grows : Grows m n
  pub frames : SameFrames level m n
  pub linked : (next : ℕ) → res ≡ ok next → Linked levels l n table index next

module _ (level : ℕ → ℕ) (l : ℕ) (m : Mapper) (table index : ℕ) (v : IsTree level m)
    (t : IsPage m table) (lv : level table ≡ suc l) (low : l < 4) (h : index < 512) where
  unchanged :
      (res : Result MapError ℕ)
      → ((next : ℕ) → res ≡ ok next → Linked level l m table index next)
      → Ensured level l m table index res m
  unchanged res linked = record {
    levels = level;
    same = λ p a. refl;
    tree = v;
    grows = Grows-refl m;
    frames = λ p i a e k. refl;
    linked = linked;
  }

  found :
      is_present (word_at m table index) ≡ true
      → is_huge (word_at m table index) ≡ false
      → Linked level l m table index (phys_part (word_at m table index))
  found on flat =
      let (p, e) = v.down table l index t lv (omega arith) h on flat in
      record { present = on; flat = flat; names = refl; on_page = p; at_level = e }

  module _ (off : is_present (word_at m table index) ≡ false)
      (room : m.bump.cursor + page ≤ m.bump.end) where
    abbrev linked_to : Mapper
    linked_to = put table index (m.bump.cursor + table_flags) (fresh m)

    abbrev levels_to : ℕ → ℕ
    levels_to = with_level m v.sound room level l

    named : phys_part (m.bump.cursor + table_flags) ≡ m.bump.cursor
    named =
        let b = v.sound.bump in
        let s = v.sound.small in
        phys_part_lem m.bump.cursor table_flags b.aligned (omega arith) (omega arith)

    on_fresh : IsPage (fresh m) table
    on_fresh = Grows-IsPage (fresh-Grows m v.sound room) table t

    made : Ensured level l m table index (ok m.bump.cursor) linked_to
    made =
        let tree = fresh-IsTree m v.sound room level l v in
        let new = fresh-IsPage m v.sound room in
        let word =
          put_same levels_to (fresh m) table index (m.bump.cursor + table_flags) tree on_fresh h in
        let bump = v.sound.bump in
        let even = bump.aligned in
        record {
          levels = levels_to;
          same = with_level_old m v.sound room level l;
          tree = put-IsTree levels_to (fresh m) table index _ tree on_fresh h (λ k e u on flat.
              rw named (new, ground (arith, lv, e, with_level_old m v.sound room level l table t)));
          grows = Grows-trans (fresh-Grows m v.sound room) (
              put-Grows levels_to (fresh m) table index _ tree on_fresh h
                (rw (fresh_other m v.sound room table index t h) off));
          frames =
              SameFrames-trans level levels_to m (fresh m) linked_to (fresh-Grows m v.sound room)
                (with_level_old m v.sound room level l)
                (λ p i a e k. fresh_other m v.sound room p i a k)
                (put-SameFrames levels_to (fresh m) table index _ tree on_fresh h
                  (λ e. ground (arith, lv, e, with_level_old m v.sound room level l table t)));
          linked = λ next e. record {
            present = rw word (ground arith);
            flat = rw word (ground arith);
            names = rw (word, named) (ground arith);
            on_page = let is : m.bump.cursor ≡ next = ground (arith, e) in rw (sym is) new;
            at_level = ground arith;
          };
        }

  pub ensure_table_lem :
      let (res, n) = ensure_table table index m in Ensured level l m table index res n
  unfolding ensure_table ◌>>=◌ ◌>>◌
  ensure_table_lem = elim (Bool-cases (is_present (word_at m table index))) [
    | inl on ↦ elim (Bool-cases (is_huge (word_at m table index))) [
      | inl big ↦ rw (on, big) (unchanged (err collision) (λ next e. absurd (ground (arith, e))))
      | inr flat ↦
          rw (on, flat)
            (unchanged (ok (phys_part (word_at m table index))) (λ next e.
              let at : phys_part (word_at m table index) ≡ next = ground (arith, e) in
              rw (sym at) (found on flat)))
    ]
    | inr off ↦ elim (alloc_table_outcome m v.sound) [
      | inl e ↦ rw (off, e) (unchanged (err no_table_page) (λ next e. absurd (ground (arith, e))))
      | inr (room, e) ↦ rw (off, e) (made off room)
    ]
  ]
