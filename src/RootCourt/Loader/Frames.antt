-- ===== src/RootCourt/Loader/Frames.antt =====
-- crates/root-court/src/image.rs: the pages that a segment takes, and what they hold, as the tables
-- of the space grow.
use court_kernel.Prelude.{
  ℕ, ◌+◌, ◌*◌, ◌/◌, ◌%◌, ◌≤◌, ◌<◌, ◌≡◌, refl, sym, ◌∙◌, ◌⊎◌, inl, inr, none, some, leb, arith,
  Bool-cases, if◌then◌else◌,
}
use court_kernel.RootCourt.Mm.{page, BumpAllocator, virt, alloc_pages, page_up}
use court_kernel.RootCourt.Mm.Bounds.{IsBump}
use court_kernel.RootCourt.Paging.{Mapper, Words, entry, word_at}
use court_kernel.RootCourt.Paging.Tree.{
  IsMapper, IsPage, IsTree, Grows, Grows-refl, Grows-trans, Grows-IsPage, SameFrames,
  SameFrames-trans, frame, entry_lem,
}
use court_kernel.RootCourt.Loader.Bytes.{load_byte}

-- The tables after some steps: the levels of the old pages, and everything that was there.
pub record Step (level : ℕ → ℕ) (m : Mapper) (levels : ℕ → ℕ) (n : Mapper) : Type 0 where
  pub same : (p : ℕ) → IsPage m p → levels p ≡ level p
  pub tree : IsTree levels n
  pub grows : Grows m n
  pub frames : SameFrames level m n

pub Step-refl : (level : ℕ → ℕ) (m : Mapper) → IsTree level m → Step level m level m
Step-refl level m v = record {
  same = λ p a. refl;
  tree = v;
  grows = Grows-refl m;
  frames = λ p i a e k. refl;
}

pub Step-trans :
    (l1 l2 l3 : ℕ → ℕ) (m n k : Mapper) → Step l1 m l2 n → Step l2 n l3 k → Step l1 m l3 k
Step-trans l1 l2 l3 m n k a b = record {
  same = λ p t. b.same p (Grows-IsPage a.grows p t) ∙ a.same p t;
  tree = b.tree;
  grows = Grows-trans a.grows b.grows;
  frames = SameFrames-trans l1 l2 m n k a.grows a.same a.frames b.frames;
}

-- The byte at a physical address, through the direct map.
abbrev pub phys_byte : Mapper → ℕ → ℕ
phys_byte n at = load_byte n.memory (virt n.bump at)

-- The address is in a page that holds no table.
abbrev pub InFrame : (ℕ → ℕ) → Mapper → ℕ → Type 0
InFrame level n at = IsPage n (at / page * page) × (level (at / page * page) ≡ frame)

-- The byte of a page in terms of its words.
phys_byte_lem :
    (n : Mapper) (at : ℕ)
    → IsMapper n
    → IsPage n (at / page * page)
    → (virt n.bump at / 8 * 8 ≡ n.bump.hhdm + at / page * page + 8 * (at % page / 8))
      × (virt n.bump at % 8 ≡ at % 8)
phys_byte_lem n at v a =
    let b = v.bump in
    let high = b.high in
    let flat = v.flat in let even = v.even in let t = a.1 in (omega arith, omega arith)

pub Step-phys_byte :
    (level levels : ℕ → ℕ) (m n : Mapper) (at : ℕ)
    → IsTree level m
    → Step level m levels n
    → InFrame level m at
    → (phys_byte n at ≡ phys_byte m at) × InFrame levels n at
Step-phys_byte level levels m n at v s (a, e) =
    let b = Grows-IsPage s.grows (at / page * page) a in
    let old = phys_byte_lem m at v.sound a in
    let new = phys_byte_lem n at s.tree.sound b in
    let word_old = entry_lem m (at / page * page) (at % page / 8) v.sound a (omega arith) in
    let word_new = entry_lem n (at / page * page) (at % page / 8) s.tree.sound b (omega arith) in
    let same = s.frames (at / page * page) (at % page / 8) a e (omega arith) in
    (
      rw (new.0, new.1, old.0, old.1, sym word_new, sym word_old, same) refl,
      (b, s.same (at / page * page) a ∙ e),
    )

-- Pages that no table is in lie from the old end of the allocated pages on.
abbrev pub with_frames : (ℕ → ℕ) → ℕ → ℕ → ℕ
with_frames level cursor p = if leb (p + page) cursor then level p else frame

-- The mapper after `pages` were taken and written.
abbrev pub taken : Mapper → ℕ → Words → Mapper
taken m pages memory = record m {
  bump = record m.bump { cursor = m.bump.cursor + pages * page };
  memory = memory;
}

pub alloc_pages_outcome :
    (pages : ℕ) (b : BumpAllocator)
    → IsBump b
    → (alloc_pages pages b ≡ (none, b))
      ⊎ ((b.cursor + pages * page ≤ b.end)
          × (alloc_pages pages b
              ≡ (some (b.cursor, virt b b.cursor), record b { cursor = b.cursor + pages * page })))
unfolding alloc_pages
alloc_pages_outcome pages b v =
    let up : page_up b.cursor ≡ b.cursor =
      let a = v.aligned in let h = v.high in let f = v.fits in omega arith in
    rw up (ground arith)

module _ (level : ℕ → ℕ) (m : Mapper) (pages : ℕ) (memory : Words) (v : IsTree level m)
    (room : m.bump.cursor + pages * page ≤ m.bump.end)
    (below : (a : ℕ) → a < m.bump.hhdm + m.bump.cursor → memory a ≡ m.memory a) where
  taken_old : (p i : ℕ) → IsPage m p → i < 512 → word_at (taken m pages memory) p i ≡ word_at m p i
  taken_old p i (a, h) k =
      let e = entry_lem m p i v.sound (a, h) k in below (entry m p i) (omega arith)

  taken_level : (p : ℕ) → IsPage m p → with_frames level m.bump.cursor p ≡ level p
  taken_level p (a, h) = ground arith

  taken-IsMapper : IsMapper (taken m pages memory)
  taken-IsMapper =
      let s = v.sound in
      let b = s.bump in
      record {
        bump = record {
          aligned = let a = b.aligned in omega arith;
          low = let l = b.low in omega arith;
          high = room;
          fits = b.fits;
        };
        flat = s.flat;
        even = s.even;
        small = s.small;
      }

  taken-Grows : Grows m (taken m pages memory)
  taken-Grows = record {
    same_root = refl;
    further = omega arith;
    keeps = λ p i a k e. taken_old p i a k;
  }

  pub taken-Step : Step level m (with_frames level m.bump.cursor) (taken m pages memory)
  taken-Step = record {
    same = taken_level;
    tree = record {
      sound = taken-IsMapper;
      root = Grows-IsPage taken-Grows m.pml4_phys v.root;
      top = taken_level m.pml4_phys v.root ∙ v.top;
      down = λ p l i a e u k. elim (Bool-cases (leb (p + page) m.bump.cursor)) [
        | inr new ↦ absurd (ground (arith, e))
        | inl old ↦
            let b : IsPage m p = (a.0, ground arith) in
            rw (taken_old p i b k) (λ on flat.
              let (q, lv) = v.down p l i b (sym (taken_level p b) ∙ e) u k on flat in
              (Grows-IsPage taken-Grows _ q, taken_level _ q ∙ lv))
      ];
    };
    grows = taken-Grows;
    frames = λ p i a e k. taken_old p i a k;
  }

  -- The addresses of the new pages.
  pub taken-InFrame :
      (d : ℕ)
      → d < pages * page
      → InFrame (with_frames level m.bump.cursor) (taken m pages memory) (m.bump.cursor + d)
  taken-InFrame d h =
      let b = v.sound.bump in
      let a = b.aligned in
      let at : (m.bump.cursor + d) / page * page ≡ m.bump.cursor + d / page * page = omega arith in
      rw at ((omega arith, omega arith), ground arith)
