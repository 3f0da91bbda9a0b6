-- ===== src/RootCourt/Paging/Boot.antt =====
-- crates/root-court/src/paging.rs: what `build` maps.
use court_kernel.Prelude.{
  ℕ, ◌+◌, ◌-◌, ◌*◌, ◌/◌, ◌%◌, ◌^◌, ◌≤◌, ◌<◌, ◌≡◌, ap, ◌∙◌, inl, inr, true, ◌&&◌, nat_eq, leb, some,
  List, [], ◌∷◌, Memᴰ, Result, ok, arith, Bool-cases,
}
use court_kernel.Hosted.Types.{u64_mod}
use court_kernel.RootCourt.Mm.{page, MemmapEntry, saturating_add}
use court_kernel.RootCourt.Paging.{Mapper, MapError, map_range}
use court_kernel.RootCourt.Paging.Build.{
  align_up, align_down, hhdm_mapped_rev3, Hhdm, map_executable, map_direct, map_entry, map_entries,
}
use court_kernel.RootCourt.Paging.Walk.{translate}
use court_kernel.RootCourt.Paging.Tree.{IsTree, Grows}
use court_kernel.RootCourt.Paging.Page.{Mapped}
use court_kernel.RootCourt.Paging.Mapping.{translate-Grows}
use court_kernel.RootCourt.Paging.Range.{MapsRange, binds, both, stay, map_range_keeps}

pub weaker :
    {A : Type 0} {level : ℕ → ℕ} {m n : Mapper} {res : Result MapError A} {Q R : Mapper → Type 0}
    → (Q n → R n)
    → Mapped level m res n Q
    → Mapped level m res n R
weaker f x = record {
  levels = x.levels;
  same = x.same;
  tree = x.tree;
  grows = x.grows;
  frames = x.frames;
  holds = λ a fine. f (x.holds a fine);
}

abbrev pub Anything : Mapper → Type 0
Anything n = Unit

-- The direct map of the whole pages of an entry, if it lies within the addresses and within memory.
abbrev pub MapsDirect : ℕ → MemmapEntry → Mapper → Type 0
MapsDirect hhdm entry n =
    hhdm_mapped_rev3 entry.kind ≡ true
    → entry.base + entry.length ≤ 2 ^ 52
    → hhdm + (entry.base + entry.length) ≤ u64_mod
    → (p : ℕ) → align_up entry.base page ≤ p
    → p < align_down (entry.base + entry.length) page
    → translate n (hhdm + p) ≡ some p

direct_of_range :
    (hhdm base length : ℕ) (n : Mapper)
    → let start = align_up base page in
      let len = align_down (saturating_add base length) page - start in
      ((hhdm + start) % u64_mod + len ≤ u64_mod
        → start + len ≤ 2 ^ 52
        → MapsRange ((hhdm + start) % u64_mod) start (len / page * page) n)
      → base + length ≤ 2 ^ 52
      → hhdm + (base + length) ≤ u64_mod
      → (p : ℕ) → align_up base page ≤ p
      → p < align_down (base + length) page
      → translate n (hhdm + p) ≡ some p
direct_of_range hhdm base length n h b c p low high =
    let start = align_up base page in
    ap (translate n) (omega arith)
    ∙ h (omega arith) (omega arith) (p - start) (omega arith)
    ∙ ap some (omega arith)

pub MapsDirect-Grows :
    (hhdm : ℕ) (entry : MemmapEntry) (level : ℕ → ℕ) (m n : Mapper)
    → IsTree level m
    → Grows m n
    → MapsDirect hhdm entry m
    → MapsDirect hhdm entry n
MapsDirect-Grows hhdm entry level m n v g h a b c p low high =
    translate-Grows level m n v g (hhdm + p) p (h a b c p low high)

module _ (hhdm kernel_phys_base kernel_virt_base : ℕ) where
  one_of :
      (n : Mapper) (x : MemmapEntry) (xs : List MemmapEntry)
      → MapsDirect hhdm x n
      → ((e : MemmapEntry) → Memᴰ e xs → MapsDirect hhdm e n)
      → (e : MemmapEntry) → Memᴰ e (x ∷ xs)
      → MapsDirect hhdm e n
  one_of n x xs q r e (Memᴰ.head at) = rw at q
  one_of n x xs q r e (Memᴰ.tail h) = r e h

  map_executable_keeps :
      (kind start len : ℕ) (level : ℕ → ℕ) (m : Mapper)
      → IsTree level m
      → let (res, n) = map_executable hhdm kernel_phys_base kernel_virt_base kind start len m in
        Mapped level m res n Anything
  unfolding map_executable
  map_executable_keeps kind start len level m v =
      elim (Bool-cases (nat_eq kind 6 && leb kernel_phys_base start)) [
        | inl e ↦ rw e (
            weaker (λ _. tt)
              (map_range_keeps level m ((kernel_virt_base + (start - kernel_phys_base)) % u64_mod)
                start len v))
        | inr e ↦ rw e (stay (ok tt) level m Anything v tt)
      ]

  map_direct_keeps :
      (entry : MemmapEntry) (seen : Hhdm) (level : ℕ → ℕ) (m : Mapper)
      → IsTree level m
      → let start = align_up entry.base page in
        let end = align_down (saturating_add entry.base entry.length) page in
        let (res, n) =
          map_direct hhdm kernel_phys_base kernel_virt_base entry.kind start (end - start) seen m in
        Mapped level m res n (MapsDirect hhdm entry)
  unfolding map_direct
  map_direct_keeps entry seen level m v = elim (Bool-cases (hhdm_mapped_rev3 entry.kind)) [
    | inr off ↦
        rw off
          (stay (ok seen) level m (MapsDirect hhdm entry) v (λ on. absurd (ground (arith, on))))
    | inl on ↦
        let start = align_up entry.base page in
        let len = align_down (saturating_add entry.base entry.length) page - start in
        rw on (
          both level m (map_range ((hhdm + start) % u64_mod) start len) (MapsDirect hhdm entry)
            Anything (MapsDirect hhdm entry)
            (weaker (λ h _. direct_of_range hhdm entry.base entry.length _ h)
              (map_range_keeps level m ((hhdm + start) % u64_mod) start len v))
            (MapsDirect-Grows hhdm entry) (λ n q r. q) _ (λ l n t. stay (ok _) l n Anything t tt))
  ]

  map_entry_keeps :
      (entry : MemmapEntry) (seen : Hhdm) (level : ℕ → ℕ) (m : Mapper)
      → IsTree level m
      → let (res, n) = map_entry hhdm kernel_phys_base kernel_virt_base entry seen m in
        Mapped level m res n (MapsDirect hhdm entry)
  unfolding map_entry
  map_entry_keeps entry seen level m v = elim (Bool-cases (nat_eq entry.length 0)) [
    | inl e ↦ rw e (
        stay (ok seen) level m _ v (λ on a b p low high.
          absurd (let z : entry.length ≡ 0 = ground (arith, e) in omega arith)))
    | inr more ↦
        elim (Bool-cases (
          leb (align_down (saturating_add entry.base entry.length) page)
            (align_up entry.base page))) [
              | inl e ↦
                  rw (more, e)
                    (stay (ok seen) level m _ v (λ on a b p low high. absurd (
                      let z : align_down (saturating_add entry.base entry.length) page
                          ≤ align_up entry.base page =
                        ground (arith, e) in
                      omega arith)))
              | inr far ↦
                  rw (more, far)
                    (both level m _ Anything (MapsDirect hhdm entry) (MapsDirect hhdm entry)
                      (map_executable_keeps entry.kind _ _ level m v) (λ l n k t g q. tt)
                      (λ n q r. r) _ (λ l n t. map_direct_keeps entry seen l n t))
            ]
  ]

  pub map_entries_keeps :
      (entries : List MemmapEntry) (seen : Hhdm) (level : ℕ → ℕ) (m : Mapper)
      → IsTree level m
      → let (res, n) = map_entries hhdm kernel_phys_base kernel_virt_base entries seen m in
        Mapped level m res n
          (λ n. (entry : MemmapEntry) → Memᴰ entry entries → MapsDirect hhdm entry n)
  unfolding map_entries
  map_entries_keeps [] seen level m v = stay (ok seen) level m _ v (λ entry h. elim h [ ])
  map_entries_keeps (entry ∷ entries) seen level m v =
      binds level m (map_entry hhdm kernel_phys_base kernel_virt_base entry seen)
        (MapsDirect hhdm entry) (λ n. (e : MemmapEntry) → Memᴰ e entries → MapsDirect hhdm e n)
        (λ n. (e : MemmapEntry) → Memᴰ e (entry ∷ entries) → MapsDirect hhdm e n)
        (map_entry_keeps entry seen level m v) (MapsDirect-Grows hhdm entry)
        (λ n q r e h. one_of n entry entries q r e h) _
        (λ a l n t. map_entries_keeps entries a l n t)
