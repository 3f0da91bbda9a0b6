-- ===== src/RootCourt/Loader/Placed.antt =====
-- crates/root-court/src/image.rs: what mapping one segment does to the tables and the memory.
use court_kernel.Prelude.{
  ℕ, ◌+◌, ◌*◌, ◌/◌, ◌^◌, ◌≤◌, ◌<◌, ◌≡◌, refl, ◌∙◌, ◌⊎◌, inl, inr, some, List, Result, ok, err,
  Result-cases, length, load as load_bytes, nat_eq, ltb, leb, arith, Bool-cases, if◌then◌else◌,
}
use court_kernel.Prelude.Chain.{◌>>=◌, ◌>>◌, bind_elim}
use court_kernel.Hosted.Types.{u64_mod}
use court_kernel.RootCourt.Mm.{page, virt}
use court_kernel.RootCourt.Mm.Bounds.{IsBump}
use court_kernel.RootCourt.Paging.{Mapper, map_range}
use court_kernel.RootCourt.Paging.Build.{Kernel, KernelAct, mapper}
use court_kernel.RootCourt.Paging.Space.{AddressSpace, map_in}
use court_kernel.RootCourt.Paging.Walk.{translate}
use court_kernel.RootCourt.Paging.Tree.{IsTree}
use court_kernel.RootCourt.Paging.Built.{same-IsTree, same_walk}
use court_kernel.RootCourt.Paging.Mapping.{translate-Grows}
use court_kernel.RootCourt.Paging.Range.{MapsRange, map_range_keeps}
use court_kernel.RootCourt.Loader.{
  LoadError, LoadAct, Segment, page_off, take_pages, copy_file, mapping, file_overflow,
  file_truncated,
}
use court_kernel.RootCourt.Loader.Bytes.{byte_at, copied}
use court_kernel.RootCourt.Loader.Frames.{
  Step, Step-refl, Step-trans, phys_byte, InFrame, Step-phys_byte, alloc_pages_outcome,
}

-- What an action of the loader leaves in the tables of one space, and on success `Q`.
pub record Loads {A : Type 0} (level : ℕ → ℕ) (k : Kernel) (root : ℕ) (res : Result LoadError A)
    (k' : Kernel) (Q : A → (ℕ → ℕ) → Mapper → Type 0) : Type 0 where
  pub levels : ℕ → ℕ
  pub step : Step level (mapper k root 0) levels (mapper k' root 0)
  pub holds : (a : A) → res ≡ ok a → Q a levels (mapper k' root 0)

-- Each byte of the segment is mapped to a page that holds no table, where it is the byte of the
-- file, or 0 behind the bytes that the file has.
abbrev pub Held : List ℕ → Segment → (ℕ → ℕ) → Mapper → Type 0
Held image s level n =
    (d : ℕ)
    → d < s.memsz
    → (at : ℕ) × (translate n (s.vaddr + d) ≡ some at)
      × (phys_byte n at ≡ (if ltb d s.filesz then byte_at image (s.offset + d) else 0))
      × InFrame level n at

pub Held-Step :
    (image : List ℕ) (s : Segment) (level levels : ℕ → ℕ) (m n : Mapper)
    → IsTree level m
    → Step level m levels n
    → Held image s level m
    → Held image s levels n
Held-Step image s level levels m n v step h d k =
    let (at, walk, byte, in_frame) = h d k in
    let (same, there) = Step-phys_byte level levels m n at v step in_frame in
    (at, translate-Grows level m n v step.grows (s.vaddr + d) at walk, same ∙ byte, there)

-- Nothing happened to the state.
pub stays :
    {A : Type 0} (level : ℕ → ℕ) (k : Kernel) (root : ℕ) (res : Result LoadError A)
    (Q : A → (ℕ → ℕ) → Mapper → Type 0)
    → IsTree level (mapper k root 0)
    → ((a : A) → res ≡ ok a → Q a level (mapper k root 0))
    → Loads level k root res k Q
stays level k root res Q v h = record {
  levels = level;
  step = Step-refl level (mapper k root 0) v;
  holds = h;
}

-- Two actions.
pub chained :
    {A B : Type 0} (level : ℕ → ℕ) (k : Kernel) (root : ℕ) (first : LoadAct A)
    (rest : A → LoadAct B) (Q : A → (ℕ → ℕ) → Mapper → Type 0) (R : B → (ℕ → ℕ) → Mapper → Type 0)
    → Loads level k root (first k).0 (first k).1 Q
    → ((a : A) (levels : ℕ → ℕ)
        → Step level (mapper k root 0) levels (mapper (first k).1 root 0)
        → Q a levels (mapper (first k).1 root 0)
        → Loads levels (first k).1 root (rest a (first k).1).0 (rest a (first k).1).1 R)
    → Loads level k root ((first >>= rest) k).0 ((first >>= rest) k).1 R
chained level k root first rest Q R x next =
    bind_elim first rest k (λ z. Loads level k root z.0 z.1 R)
      (λ e r. record {
        levels = x.levels;
        step = x.step;
        holds = λ _ bad. absurd (ground (arith, bad));
      })
      (λ a r.
        let y = next a x.levels x.step (x.holds a r) in
        record {
          levels = y.levels;
          step =
              Step-trans level x.levels y.levels (mapper k root 0) (mapper (first k).1 root 0)
                (mapper (rest a (first k).1).1 root 0) x.step y.step;
          holds = y.holds;
        })

pub followed :
    {A B : Type 0} (level : ℕ → ℕ) (k : Kernel) (root : ℕ) (first : LoadAct A) (rest : LoadAct B)
    (Q : A → (ℕ → ℕ) → Mapper → Type 0) (R : B → (ℕ → ℕ) → Mapper → Type 0)
    → Loads level k root (first k).0 (first k).1 Q
    → ((a : A) (levels : ℕ → ℕ)
        → Step level (mapper k root 0) levels (mapper (first k).1 root 0)
        → Q a levels (mapper (first k).1 root 0)
        → Loads levels (first k).1 root (rest (first k).1).0 (rest (first k).1).1 R)
    → Loads level k root ((first >> rest) k).0 ((first >> rest) k).1 R
unfolding ◌>>=◌ ◌>>◌
followed level k root first rest Q R x next = chained level k root first (λ _. rest) Q R x next

-- `?` on the mapper changes the error, and nothing else.
pub mapping-state : {A : Type 0} (act : KernelAct A) (k : Kernel) → (mapping act k).1 ≡ (act k).1
unfolding mapping
mapping-state act k = elim (Result-cases (act k).0) [
  | inl (e, h) ↦ rw (h, mapping) refl
  | inr (a, h) ↦ rw (h, mapping) refl
]

pub mapping-ok :
    {A : Type 0} (act : KernelAct A) (k : Kernel) (x : A)
    → (mapping act k).0 ≡ ok x
    → (act k).0 ≡ ok x
unfolding mapping
mapping-ok act k x = elim (Result-cases (act k).0) [
  | inl (e, h) ↦ rw h (λ bad. absurd (ground (arith, bad)))
  | inr (a, h) ↦ rw h (λ fine. ground (arith, fine))
]

-- A map into the space.
module _ (level : ℕ → ℕ) (k : Kernel) (space : AddressSpace) (at phys len : ℕ)
    (v : IsTree level (mapper k space.pml4_phys 0)) where
  pub map_in-Step :
      let n = mapper (map_in space at phys len k).1 space.pml4_phys 0 in
      (levels : ℕ → ℕ) × Step level (mapper k space.pml4_phys 0) levels n
      × ((map_in space at phys len k).0 ≡ ok tt
          → at + len ≤ u64_mod
          → phys + len ≤ 2 ^ 52
          → MapsRange at phys (len / page * page) n)
  unfolding map_in
  map_in-Step = elim (Bool-cases (leb 0x800000000000 at)) [
    | inl high ↦ rw high (level, Step-refl level _ v, (λ bad. absurd (ground (arith, bad))))
    | inr low ↦ rw low (
        let m = mapper k space.pml4_phys 0 in
        let n = (map_range at phys len m).1 in
        let x = map_range_keeps level m at phys len v in
        let g = x.grows in
        (
          x.levels,
          record {
            same = x.same;
            tree = same-IsTree x.levels n space.pml4_phys 0 g.same_root x.tree;
            grows = record { same_root = refl; further = g.further; keeps = g.keeps };
            frames = x.frames;
          },
          λ fine a b d h.
              same_walk n space.pml4_phys 0 (at + d) g.same_root ∙ x.holds tt fine a b d h,
        ))
  ]

  pub map_in_lem :
      at + len ≤ u64_mod
      → phys + len ≤ 2 ^ 52
      → let (res, k') = mapping (map_in space at phys len) k in
        Loads level k space.pml4_phys res k' (λ _ _ n. MapsRange at phys (len / page * page) n)
  map_in_lem a b =
      let (levels, step, maps) = map_in-Step in
      rw (mapping-state (map_in space at phys len) k) (record {
        levels = levels;
        step = step;
        holds = λ _ fine. maps (mapping-ok (map_in space at phys len) k tt fine) a b;
      })

-- What the bytes of the file leave behind an error, and without one.
pub copy_file_outcome :
    (image : List ℕ) (s : Segment) (at : ℕ) (k : Kernel)
    → ((e : LoadError) × (copy_file image s at k ≡ (err e, k)))
      ⊎ (copy_file image s at k ≡ (
        ok tt,
        record k {
          memory = copied (at + page_off s) (load_bytes (byte_at image) s.offset s.filesz) k.memory;
        },
      ))
unfolding copy_file ◌>>=◌ ◌>>◌ load_bytes copied
copy_file_outcome image s at k = elim (Bool-cases (nat_eq s.filesz 0)) [
  | inl none_left ↦ let e : s.filesz ≡ 0 = ground arith in inr (rw (none_left, e) refl)
  | inr some_left ↦ elim (Bool-cases (ltb (s.offset + s.filesz) u64_mod)) [
    | inr wraps ↦ inl (file_overflow, rw (some_left, wraps) refl)
    | inl fits ↦ elim (Bool-cases (leb (s.offset + s.filesz) (length image))) [
      | inr short ↦ inl (file_truncated, rw (some_left, fits, short) refl)
      | inl long ↦ inr (rw (some_left, fits, long) refl)
    ]
  ]
]

pub take_pages_outcome :
    (e : LoadError) (pages : ℕ) (k : Kernel)
    → IsBump k.bump
    → (take_pages e pages k ≡ (err e, k))
      ⊎ ((k.bump.cursor + pages * page ≤ k.bump.end)
          × (take_pages e pages k ≡ (
            ok (k.bump.cursor, virt k.bump k.bump.cursor),
            record k { bump = record k.bump { cursor = k.bump.cursor + pages * page } },
          )))
unfolding take_pages
take_pages_outcome e pages k v = elim (alloc_pages_outcome pages k.bump v) [
  | inl h ↦ inl (ground (arith, h))
  | inr (room, h) ↦ inr (room, ground (arith, h))
]
