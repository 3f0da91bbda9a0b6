-- ===== src/RootCourt/Paging/Tree.antt =====
-- crates/root-court/src/paging.rs: the tables form levels. A table of the lowest level holds pages; an
-- entry of any other that is present, and not huge, holds a table of the level below.
use court_kernel.Prelude.{
  ℕ, suc, ◌+◌, ◌*◌, ◌%◌, ◌^◌, ◌≤◌, ◌<◌, ◌≡◌, ◌≢◌, refl, sym, ap, ◌∙◌, inl, inr, true, false, nat_eq,
  arith, Bool-cases,
}
use court_kernel.Hosted.Types.{u64_mod}
use court_kernel.RootCourt.Mm.{page}
use court_kernel.RootCourt.Mm.Bounds.{IsBump}
use court_kernel.RootCourt.Paging.{Mapper, is_present, is_huge, phys_part, entry, word_at, put}

-- The allocator's region ends below 2^52, and the direct map of it does not wrap and is on a word.
pub record IsMapper (m : Mapper) : Type 0 where
  pub bump : IsBump m.bump
  pub flat : m.bump.hhdm + m.bump.end < u64_mod
  pub even : m.bump.hhdm % 8 ≡ 0
  pub small : m.bump.end ≤ 2 ^ 52

-- A page below what the allocator has left.
abbrev pub IsPage : Mapper → ℕ → Type 0
IsPage m p = (p % page ≡ 0) × p + page ≤ m.bump.cursor

-- The level of the pages that no table is in; a table of the highest level is one below it.
abbrev pub frame : ℕ
frame = 5

pub record IsTree (level : ℕ → ℕ) (m : Mapper) : Type 0 where
  pub sound : IsMapper m
  pub root : IsPage m m.pml4_phys
  pub top : level m.pml4_phys ≡ 3
  pub down :
      (p l i : ℕ)
      → IsPage m p
      → level p ≡ suc l
      → suc l < frame
      → i < 512
      → is_present (word_at m p i) ≡ true
      → is_huge (word_at m p i) ≡ false
      → IsPage m (phys_part (word_at m p i)) × (level (phys_part (word_at m p i)) ≡ l)

-- Nothing that was present is overwritten, and the allocator goes on from where it was.
pub record Grows (m n : Mapper) : Type 0 where
  pub same_root : n.pml4_phys ≡ m.pml4_phys
  pub further : m.bump.cursor ≤ n.bump.cursor
  pub keeps :
      (p i : ℕ)
      → IsPage m p
      → i < 512
      → is_present (word_at m p i) ≡ true
      → word_at n p i ≡ word_at m p i

pub Grows-IsPage : {m n : Mapper} → Grows m n → (p : ℕ) → IsPage m p → IsPage n p
Grows-IsPage g p (a, h) = (a, let f = g.further in omega arith)

pub Grows-refl : (m : Mapper) → Grows m m
Grows-refl m = record { same_root = refl; further = omega arith; keeps = λ p i h k e. refl }

pub Grows-trans : {m n k : Mapper} → Grows m n → Grows n k → Grows m k
Grows-trans a b = record {
  same_root = b.same_root ∙ a.same_root;
  further = let f = a.further in let g = b.further in omega arith;
  keeps = λ p i h l e.
      let same = a.keeps p i h l e in b.keeps p i (Grows-IsPage a p h) l (rw same e) ∙ same;
}

-- The pages that hold no table are as they were.
abbrev pub SameFrames : (ℕ → ℕ) → Mapper → Mapper → Type 0
SameFrames level m n =
    (p i : ℕ) → IsPage m p → level p ≡ frame → i < 512 → word_at n p i ≡ word_at m p i

-- Two steps, where the first keeps the levels of the pages.
pub SameFrames-trans :
    (level levels : ℕ → ℕ) (m n k : Mapper)
    → Grows m n
    → ((p : ℕ) → IsPage m p → levels p ≡ level p)
    → SameFrames level m n
    → SameFrames levels n k
    → SameFrames level m k
SameFrames-trans level levels m n k g same a b p i t lv h =
    b p i (Grows-IsPage g p t) (same p t ∙ lv) h ∙ a p i t lv h

-- Where an entry lies.
pub entry_lem :
    (m : Mapper) (p i : ℕ)
    → IsMapper m
    → IsPage m p
    → i < 512
    → entry m p i ≡ m.bump.hhdm + p + 8 * i
entry_lem m p i v (a, h) k = let b = v.bump in let x = b.high in let f = v.flat in omega arith

pub entry_distinct :
    (m : Mapper) (p q i j : ℕ)
    → IsMapper m
    → IsPage m p
    → IsPage m q
    → i < 512
    → j < 512
    → entry m p i ≡ entry m q j
    → (p ≡ q) × (i ≡ j)
entry_distinct m p q i j v a b h k e =
    let x = entry_lem m p i v a h in
    let y = entry_lem m q j v b k in let s = a.0 in let t = b.0 in (omega arith, omega arith)

-- An aligned address below 2^52 comes back from an entry that holds it with flags.
pub phys_part_lem : (x f : ℕ) → x % page ≡ 0 → x < 2 ^ 52 → f < page → phys_part (x + f) ≡ x
unfolding phys_part
phys_part_lem x f a h k = omega arith

-- The word may stand in an entry of the table.
abbrev pub Allows : (ℕ → ℕ) → Mapper → ℕ → ℕ → Type 0
Allows level m table word =
    (l : ℕ)
    → level table ≡ suc l
    → suc l < frame
    → is_present word ≡ true
    → is_huge word ≡ false
    → IsPage m (phys_part word) × (level (phys_part word) ≡ l)

-- Writing an entry that is not present.
module _ (level : ℕ → ℕ) (m : Mapper) (table index word : ℕ) (v : IsTree level m)
    (t : IsPage m table) (h : index < 512) where
  pub put_same : word_at (put table index word m) table index ≡ word
  put_same = ground arith

  pub put_other :
      (p i : ℕ)
      → IsPage m p
      → i < 512
      → (entry m p i ≢ entry m table index)
      → word_at (put table index word m) p i ≡ word_at m p i
  put_other p i a k ne = ground arith

  pub put-Grows : is_present (word_at m table index) ≡ false → Grows m (put table index word m)
  put-Grows off = record {
    same_root = refl;
    further = omega arith;
    keeps = λ p i a k e. put_other p i a k (λ same. ground (arith, ap m.memory same));
  }

  pub put-SameFrames : (level table ≢ frame) → SameFrames level m (put table index word m)
  put-SameFrames ne p i a lv k = put_other p i a k (λ same.
      let (at, _) = entry_distinct m p table i index v.sound a t k h same in
      ne (sym (ap level at) ∙ lv))

  pub put-IsTree : Allows level m table word → IsTree level (put table index word m)
  put-IsTree fits = record {
    sound = record {
      bump = v.sound.bump;
      flat = v.sound.flat;
      even = v.sound.even;
      small = v.sound.small;
    };
    root = v.root;
    top = v.top;
    down = λ p l i a e u k. elim (Bool-cases (nat_eq (entry m p i) (entry m table index))) [
      | inl hit ↦
          let (at, ix) = entry_distinct m p table i index v.sound a t k h (ground arith) in
          rw (at, ix, put_same) (fits l (rw at at e) u)
      | inr off ↦ rw (put_other p i a k (ground arith)) (v.down p l i a e u k)
    ];
  }
