-- ===== src/RootCourt/Loader/Image.antt =====
-- crates/root-court/src/image.rs: `load` as a whole.
use court_kernel.Prelude.{
  ℕ, zero, suc, ◌+◌, ◌≤◌, ◌<◌, ◌≡◌, sym, subst, ◌⊎◌, inl, inr, Bool, true, false, ◌||◌, List,
  Result, ok, err, lift, nat_eq, arith, Bool-cases,
}
use court_kernel.Prelude.Chain.{◌>>=◌, ◌>>◌, bind-err, bind-ok, then-err, then-ok}
use court_kernel.RootCourt.Paging.{Mapper}
use court_kernel.RootCourt.Paging.Build.{Kernel, mapper}
use court_kernel.RootCourt.Paging.Space.{AddressSpace}
use court_kernel.RootCourt.Paging.Tree.{IsTree}
use court_kernel.RootCourt.Loader.{
  LoadError, LoadAct, lower_half_end, map_segment, check_segment, load_pt_load, load_segment,
  load_segments, read_le, read_segment, field, holds_entry, load, check_ident, read_fields,
  entry_not_loaded,
}
use court_kernel.RootCourt.Loader.Frames.{Step}
use court_kernel.RootCourt.Loader.Placed.{Loads, Held, Held-Step, stays, chained, followed}
use court_kernel.RootCourt.Loader.Contents.{IsBytes}
use court_kernel.RootCourt.Loader.Reads.{
  segment_at, header_of, nth_header, Only, check_ident_lem, read_segment_lem, check_segment_lem,
  IsHeaders, read_lem, read_fields_lem,
}
use court_kernel.RootCourt.Loader.Loaded.{map_segment_lem}

-- What an action that changes nothing is followed by.
module _ {A B : Type 0} (level : ℕ → ℕ) (k : Kernel) (root : ℕ) (first : LoadAct A) (a : A)
    {P : Type 0} (R : B → (ℕ → ℕ) → Mapper → Type 0) (v : IsTree level (mapper k root 0))
    (only : Only k (first k) a P) where
  abbrev Done : Result LoadError B × Kernel → Type 0
  Done (res, k') = Loads level k root res k' R

  failed : (e : LoadError) → Done (err e, k)
  failed e = stays level k root (err e) R v (λ _ bad. absurd (ground (arith, bad)))

  after_only : (rest : A → LoadAct B) → (P → Done (rest a k)) → Done ((first >>= rest) k)
  after_only rest next = elim only [
    | inl (e, h) ↦ subst Done (sym (bind-err first rest k k e h)) (failed e)
    | inr (h, p) ↦ subst Done (sym (bind-ok first rest k k a h)) (next p)
  ]

  then_only : (rest : LoadAct B) → (P → Done (rest k)) → Done ((first >> rest) k)
  then_only rest next = elim only [
    | inl (e, h) ↦ subst Done (sym (then-err first rest k k e h)) (failed e)
    | inr (h, p) ↦ subst Done (sym (then-ok first rest k k a h)) (next p)
  ]

-- The entry point lies in a loadable segment of the lower half.
abbrev pub EntryIn : List ℕ → ℕ → Type 0
EntryIn image off =
    let s = segment_at image off in
    let e = (header_of image).entry in
    (field image off 4 ≡ 1) × s.vaddr ≤ e × e < s.vaddr + s.memsz × s.vaddr < lower_half_end

-- What a program header that is loadable asks is done.
abbrev pub HeldAt : List ℕ → ℕ → (ℕ → ℕ) → Mapper → Type 0
HeldAt image off level n = field image off 4 ≡ 1 → Held image (segment_at image off) level n

module _ (space : AddressSpace) (image : List ℕ) (small : IsBytes image) where
  load_pt_load_lem :
      (off : ℕ) (level : ℕ → ℕ) (k : Kernel)
      → field image off 4 ≡ 1
      → IsTree level (mapper k space.pml4_phys 0)
      → let (res, k') = load_pt_load space image (header_of image) (segment_at image off) k in
        Loads level k space.pml4_phys res k'
          (λ found level n. HeldAt image off level n × (found ≡ true → EntryIn image off))
  unfolding load_pt_load
  load_pt_load_lem off level k load_it v =
      let s = segment_at image off in
      elim (Bool-cases (nat_eq s.memsz 0)) [
        | inl empty ↦ rw empty (
            stays level k space.pml4_phys (ok false) _ v
              (λ a e. (λ _ d h. absurd (ground arith), λ t. absurd (ground (arith, t, e)))))
        | inr some_left ↦ rw some_left (
            then_only level k space.pml4_phys (check_segment s) tt _ v (check_segment_lem s k) _
              (λ c.
                followed level k space.pml4_phys (map_segment space image s) _ (λ _. Held image s) _
                  (map_segment_lem level k space image s small v c)
                  (λ _ levels step held.
                    stays levels (map_segment space image s k).1 space.pml4_phys
                      (ok (holds_entry (header_of image) s)) _ step.tree
                      (λ found e. (
                        λ _. held,
                        λ t.
                            let low = c.0 in
                            (load_it, ground (arith, t, e), ground (arith, t, e), low),
                      )))))
      ]

  abbrev Found : ℕ → Bool → (ℕ → ℕ) → Mapper → Type 0
  Found off found level n = HeldAt image off level n × (found ≡ true → EntryIn image off)

  load_segment_lem :
      (off : ℕ) (level : ℕ → ℕ) (k : Kernel)
      → IsTree level (mapper k space.pml4_phys 0)
      → let (res, k') = load_segment space image (header_of image) off k in
        Loads level k space.pml4_phys res k' (Found off)
  unfolding load_segment
  load_segment_lem off level k v =
      after_only level k space.pml4_phys (lift (read_le 4 image off)) (field image off 4)
        (Found off) v (read_lem 4 image off k) _
        (λ _. elim (Bool-cases (nat_eq (field image off 4) 1)) [
          | inr other ↦ rw other (
              stays level k space.pml4_phys (ok false) (Found off) v (λ a e.
                (λ is. absurd (ground (arith, is, other)), λ t. absurd (ground (arith, t, e)))))
          | inl is ↦ rw is (
              after_only level k space.pml4_phys (read_segment image off) (segment_at image off)
                (Found off) v (read_segment_lem image off k) _
                (λ _. load_pt_load_lem off level k (ground (arith, is)) v))
        ])

  -- What a run of the loop over the headers from `index` on leaves.
  abbrev Ran : ℕ → ℕ → Bool → Bool → (ℕ → ℕ) → Mapper → Type 0
  Ran index left before found level n =
      ((i : ℕ) → index ≤ i → i < index + left → HeldAt image (nth_header image i) level n)
      × (found ≡ true
          → (before ≡ true)
            ⊎ ((i : ℕ) × index ≤ i × i < index + left × EntryIn image (nth_header image i)))

  HeldAt-Step :
      (off : ℕ) (level levels : ℕ → ℕ) (m n : Mapper)
      → IsTree level m
      → Step level m levels n
      → HeldAt image off level m
      → HeldAt image off levels n
  HeldAt-Step off level levels m n v step h is =
      Held-Step image (segment_at image off) level levels m n v step (h is)

  -- The first header, and the rest.
  one_more :
      (index left : ℕ) (before found all : Bool) (l1 l2 : ℕ → ℕ) (m n : Mapper)
      → IsTree l1 m
      → Step l1 m l2 n
      → Found (nth_header image index) found l1 m
      → Ran (index + 1) left (before || found) all l2 n
      → Ran index (suc left) before all l2 n
  one_more index left before found all l1 l2 m n v step (held, entry) (rest, seen) = (
    λ i low high. elim (Bool-cases (nat_eq i index)) [
      | inl e ↦
          let is : i ≡ index = ground arith in
          rw is (HeldAt-Step (nth_header image index) l1 l2 m n v step held)
      | inr e ↦ rest i (ground arith) (omega arith)
    ],
    λ t. elim (seen t) [
      | inr (i, low, high, e) ↦ inr (i, omega arith, omega arith, e)
      | inl h ↦ elim (Bool-cases before) [
        | inl b ↦ inl b
        | inr b ↦ inr (index, omega arith, omega arith, entry (ground (arith, b, h)))
      ]
    ],
  )

  load_segments_lem :
      (left index : ℕ) (before : Bool) (level : ℕ → ℕ) (k : Kernel)
      → IsTree level (mapper k space.pml4_phys 0)
      → let (res, k') = load_segments left index space image (header_of image) before k in
        Loads level k space.pml4_phys res k' (Ran index left before)
  unfolding load_segments
  load_segments_lem zero index before level k v =
      stays level k space.pml4_phys (ok before) (Ran index zero before) v
        (λ a e. (λ i low high. absurd (omega arith), λ t. inl (ground (arith, t, e))))
  load_segments_lem (suc left) index before level k v =
      let root = space.pml4_phys in
      let x = load_segment_lem (nth_header image index) level k v in
      chained level k root (load_segment space image (header_of image) (nth_header image index)) _
        (Found (nth_header image index)) (Ran index (suc left) before) x
        (λ found levels step first.
          let k1 = (load_segment space image (header_of image) (nth_header image index) k).1 in
          let y = load_segments_lem left (index + 1) (before || found) levels k1 step.tree in
          record {
            levels = y.levels;
            step = y.step;
            holds = λ all e.
                one_more index left before found all levels y.levels _ _ step.tree y.step first
                  (y.holds all e);
          })

  -- What `load` leaves on success.
  abbrev pub Ready : ℕ → (ℕ → ℕ) → Mapper → Type 0
  Ready entry level n =
      (entry ≡ (header_of image).entry)
      × IsHeaders image
      × ((i : ℕ) → i < (header_of image).phnum → HeldAt image (nth_header image i) level n)
      × ((i : ℕ) × i < (header_of image).phnum × EntryIn image (nth_header image i))

  pub load_outcome :
      (level : ℕ → ℕ) (k : Kernel)
      → IsTree level (mapper k space.pml4_phys 0)
      → let (res, k') = load space image k in Loads level k space.pml4_phys res k' Ready
  unfolding load
  load_outcome level k v =
      let root = space.pml4_phys in
      let h = header_of image in
      then_only level k root (check_ident image) tt Ready v (check_ident_lem image k) _ (λ _.
        after_only level k root (read_fields image) h Ready v (read_fields_lem image k) _
          (λ headers.
            chained level k root (load_segments h.phnum 0 space image h false) _
              (Ran 0 h.phnum false) Ready (load_segments_lem h.phnum 0 false level k v)
              (λ found levels step ran.
                let k1 = (load_segments h.phnum 0 space image h false k).1 in
                elim (Bool-cases found) [
                  | inr none_seen ↦ rw none_seen (
                      stays levels k1 root (err entry_not_loaded) Ready step.tree
                        (λ _ bad. absurd (ground (arith, bad))))
                  | inl seen ↦ rw seen (
                      stays levels k1 root (ok h.entry) Ready step.tree (λ a e. elim (ran.1 seen) [
                        | inl never ↦ absurd (ground (arith, never))
                        | inr (i, _, high, entry) ↦ (
                          ground (arith, e),
                          headers,
                          λ j high. ran.0 j (omega arith) (omega arith),
                          (i, omega arith, entry),
                        )
                      ]))
                ])))

  pub Ready-Step :
      (entry : ℕ) (level levels : ℕ → ℕ) (m n : Mapper)
      → IsTree level m
      → Step level m levels n
      → Ready entry level m
      → Ready entry levels n
  Ready-Step entry level levels m n v step (same, headers, held, found) = (
    same,
    headers,
    λ i high. HeldAt-Step (nth_header image i) level levels m n v step (held i high),
    found,
  )
