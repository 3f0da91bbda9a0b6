-- ===== src/RootCourt/Paging/Page.antt =====
-- crates/root-court/src/paging.rs: `map_4k` and `map_2m`, against the walk of the processor.
use court_kernel.Prelude.{
  ℕ, suc, ◌+◌, ◌%◌, ◌<◌, ◌≡◌, ◌≢◌, refl, ◌∙◌, inl, inr, true, false, Result, ok, err, nat_eq, arith,
  Bool-cases,
}
use court_kernel.Prelude.Chain.{bind_elim, ◌>>=◌}
use court_kernel.RootCourt.Mm.{page}
use court_kernel.RootCourt.Paging.{
  Mapper, MapError, MapAct, conflict_4k, conflict_2m, collision, is_present, is_huge, phys_part,
  word_at, put, page_flags, huge, ensure_table, set_4k, set_2m,
}
use court_kernel.RootCourt.Paging.Tree.{
  IsPage, IsTree, Grows, Grows-refl, Grows-trans, Grows-IsPage, put_same, put-Grows, put-IsTree,
  frame, SameFrames, SameFrames-trans, put-SameFrames,
}
use court_kernel.RootCourt.Paging.Table.{Linked, ensure_table_lem}

-- What an action leaves: the levels of the old pages, everything that was present, and on success `Q`.
pub record Mapped {A : Type 0} (level : ℕ → ℕ) (m : Mapper) (res : Result MapError A) (n : Mapper)
    (Q : Mapper → Type 0) : Type 0 where
  pub levels : ℕ → ℕ
  pub same : (p : ℕ) → IsPage m p → levels p ≡ level p
  pub tree : IsTree levels n
  pub grows : Grows m n
  pub frames : SameFrames level m n
  pub holds : (a : A) → res ≡ ok a → Q n

-- The entry holds that table.
pub record Points (m : Mapper) (table index next : ℕ) : Type 0 where
  pub present : is_present (word_at m table index) ≡ true
  pub flat : is_huge (word_at m table index) ≡ false
  pub names : phys_part (word_at m table index) ≡ next

pub Linked-Points :
    {level : ℕ → ℕ} {l : ℕ} {m : Mapper} (n : Mapper) {table index next : ℕ}
    → Linked level l m table index next
    → IsPage m table
    → index < 512
    → Grows m n
    → Points n table index next
Linked-Points n {table} {index} x t h g =
    let e = g.keeps table index t h x.present in
    record { present = rw e x.present; flat = rw e x.flat; names = rw e x.names }

-- What follows an `ensure_table`.
pub after_table :
    {A : Type 0} (level : ℕ → ℕ) (l : ℕ) (m : Mapper) (table index : ℕ) (f : ℕ → MapAct A)
    (Q : Mapper → Type 0)
    → IsTree level m
    → IsPage m table
    → level table ≡ suc l
    → l < 4
    → index < 512
    → ((levels : ℕ → ℕ) (n : Mapper) (next : ℕ)
        → IsTree levels n
        → ((p : ℕ) → IsPage m p → levels p ≡ level p)
        → Grows m n
        → Linked levels l n table index next
        → Mapped levels n (f next n).0 (f next n).1 Q)
    → Mapped level m ((ensure_table table index >>= f) m).0 ((ensure_table table index >>= f) m).1 Q
after_table level l m table index f Q v t lv low h k =
    let x = ensure_table_lem level l m table index v t lv low h in
    bind_elim (ensure_table table index) f m (λ z. Mapped level m z.0 z.1 Q)
      (λ e r. record {
        levels = x.levels;
        same = x.same;
        tree = x.tree;
        grows = x.grows;
        frames = x.frames;
        holds = λ _ bad. absurd (ground (arith, bad));
      })
      (λ next r.
        let y = k x.levels _ next x.tree x.same x.grows (x.linked next r) in
        record {
          levels = y.levels;
          same = λ p a. y.same p (Grows-IsPage x.grows p a) ∙ x.same p a;
          tree = y.tree;
          grows = Grows-trans x.grows y.grows;
          frames =
              SameFrames-trans level x.levels m _ (f next (ensure_table table index m).1).1 x.grows
                x.same x.frames y.frames;
          holds = y.holds;
        })

module _ (level : ℕ → ℕ) (m : Mapper) (table index phys : ℕ) (v : IsTree level m)
    (t : IsPage m table) (h : index < 512) where
  settled :
      (res : Result MapError (Unit {0})) {Q : Mapper → Type 0}
      → (res ≡ ok tt → Q m)
      → Mapped level m res m Q
  settled res q = record {
    levels = level;
    same = λ p a. refl;
    tree = v;
    grows = Grows-refl m;
    frames = λ p i a e k. refl;
    holds = λ _. q;
  }

  -- Writing a leaf.
  leaf :
      (flags : ℕ) {Q : Mapper → Type 0}
      → (level table ≢ frame)
      → is_present (word_at m table index) ≡ false
      → ((l : ℕ)
          → level table ≡ suc l
          → is_present (phys_part phys + flags) ≡ true
          → is_huge (phys_part phys + flags) ≡ false
          → ⊥)
      → (word_at (put table index (phys_part phys + flags) m) table index ≡ phys_part phys + flags
          → Q (put table index (phys_part phys + flags) m))
      → Mapped level m (ok tt) (put table index (phys_part phys + flags) m) Q
  leaf flags ne off never q = record {
    levels = level;
    same = λ p a. refl;
    tree = put-IsTree level m table index _ v t h (λ l e u on flat. absurd (never l e on flat));
    grows = put-Grows level m table index _ v t h off;
    frames = put-SameFrames level m table index _ v t h ne;
    holds = λ _ _. q (put_same level m table index _ v t h);
  }

phys_part_idem : (x f : ℕ) → f < page → phys_part (phys_part x + f) ≡ phys_part x
unfolding phys_part
phys_part_idem x f h = omega arith

phys_part_aligned : (x : ℕ) → phys_part x % page ≡ 0
unfolding phys_part
phys_part_aligned x = omega arith

-- A leaf that stands for the frame.
abbrev pub Holds4k : ℕ → ℕ → ℕ → Mapper → Type 0
Holds4k table index phys n =
    (is_present (word_at n table index) ≡ true)
    × (phys_part (word_at n table index) ≡ phys_part phys)

abbrev pub Holds2m : ℕ → ℕ → ℕ → Mapper → Type 0
Holds2m table index phys n = Holds4k table index phys n × (is_huge (word_at n table index) ≡ true)

module _ (level : ℕ → ℕ) (m : Mapper) (table index phys : ℕ) (v : IsTree level m)
    (t : IsPage m table) (h : index < 512) where
  pub set_4k_lem :
      level table ≡ 0
      → let (res, n) = set_4k table index phys m in Mapped level m res n (Holds4k table index phys)
  unfolding set_4k
  set_4k_lem lv = elim (Bool-cases (is_present (word_at m table index))) [
    | inl on ↦ elim (Bool-cases (nat_eq (phys_part (word_at m table index)) (phys_part phys))) [
      | inl eq ↦
          rw (on, eq) (settled level m table index phys v t h (ok tt) (λ _. (on, ground arith)))
      | inr ne ↦
          rw (on, ne)
            (settled level m table index phys v t h (err conflict_4k)
              (λ e. absurd (ground (arith, e))))
    ]
    | inr off ↦ rw off (
        leaf level m table index phys v t h page_flags (λ e. ground (arith, lv, e)) off
          (λ l e. absurd (ground (arith, lv, e)))
          (λ w. (
            rw w (let a = phys_part_aligned phys in ground arith),
            rw w (phys_part_idem phys page_flags (omega arith)),
          )))
  ]

  pub set_2m_lem :
      (level table ≢ frame)
      → let (res, n) = set_2m table index phys m in Mapped level m res n (Holds2m table index phys)
  unfolding set_2m
  set_2m_lem ne = elim (Bool-cases (is_present (word_at m table index))) [
    | inl on ↦ elim (Bool-cases (is_huge (word_at m table index))) [
      | inr small ↦
          rw (on, small)
            (settled level m table index phys v t h (err collision)
              (λ e. absurd (ground (arith, e))))
      | inl big ↦ elim (Bool-cases (nat_eq (phys_part (word_at m table index)) (phys_part phys))) [
        | inl eq ↦
            rw (on, big, eq)
              (settled level m table index phys v t h (ok tt) (λ _. ((on, ground arith), big)))
        | inr ne ↦
            rw (on, big, ne)
              (settled level m table index phys v t h (err conflict_2m)
                (λ e. absurd (ground (arith, e))))
      ]
    ]
    | inr off ↦ rw off (
        leaf level m table index phys v t h (page_flags + huge) ne off
          (λ l e on flat. let a = phys_part_aligned phys in absurd (ground arith))
          (λ w.
            let a = phys_part_aligned phys in
            (
              (rw w (ground arith), rw w (phys_part_idem phys (page_flags + huge) (omega arith))),
              rw w (ground arith),
            )))
  ]
