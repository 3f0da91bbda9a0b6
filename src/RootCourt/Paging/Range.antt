-- ===== src/RootCourt/Paging/Range.antt =====
-- crates/root-court/src/paging.rs: `map_range` maps the whole range, and changes no mapping there was.
use court_kernel.Prelude.{
  ℕ, zero, suc, ◌+◌, ◌-◌, ◌*◌, ◌/◌, ◌%◌, ◌^◌, ◌≤◌, ◌<◌, ◌≡◌, refl, ap, ◌∙◌, inl, inr, true, ◌||◌,
  not, nat_eq, ltb, some, Result, ok, arith, Bool-cases,
}
use court_kernel.Prelude.Chain.{bind_elim, ◌>>=◌, ◌>>◌}
use court_kernel.Hosted.Types.{u64_mod}
use court_kernel.RootCourt.Mm.{page}
use court_kernel.RootCourt.Paging.{
  Mapper, MapAct, MapError, phys_part, huge_2m, takes_2m, map_4k, map_2m, map_loop, map_range,
}
use court_kernel.RootCourt.Paging.Walk.{translate}
use court_kernel.RootCourt.Paging.Tree.{
  IsTree, Grows, SameFrames-trans, Grows-IsPage, Grows-trans, Grows-refl,
}
use court_kernel.RootCourt.Paging.Page.{Mapped}
use court_kernel.RootCourt.Paging.Mapping.{Maps, map_2m_lem, map_4k_lem, translate-Grows}

-- Each address of the range stands for the physical address at the same distance.
abbrev pub MapsRange : ℕ → ℕ → ℕ → Mapper → Type 0
MapsRange at phys len n = (d : ℕ) → d < len → translate n (at + d) ≡ some (phys + d)

-- One page that is mapped, as a range.
module _ (at phys : ℕ) (n : Mapper) where
  range_4k :
      at % page ≡ 0
      → phys % page ≡ 0
      → phys < 2 ^ 52
      → Maps page at phys n
      → MapsRange at phys page n
  unfolding phys_part
  range_4k a b c h d k = h (at + d) (omega arith) ∙ ap some (omega arith)

  range_2m :
      at % huge_2m ≡ 0
      → phys % huge_2m ≡ 0
      → phys < 2 ^ 52
      → Maps huge_2m at phys n
      → MapsRange at phys huge_2m n
  unfolding phys_part
  range_2m a b c h d k = h (at + d) (omega arith) ∙ ap some (omega arith)

-- A first part, and the rest behind it.
range_append :
    (size at phys len : ℕ) (n : Mapper)
    → at + len ≤ u64_mod
    → phys + len < u64_mod
    → MapsRange at phys size n
    → MapsRange ((at + size) % u64_mod) ((phys + size) % u64_mod) (len - size) n
    → MapsRange at phys len n
range_append size at phys len n a b first rest d k = elim (Bool-cases (ltb d size)) [
  | inl in_first ↦ first d (ground arith)
  | inr behind ↦
      let far : size ≤ d = ground arith in
      ap (translate n) (omega arith) ∙ rest (d - size) (omega arith) ∙ ap some (omega arith)
]

pub MapsRange-Grows :
    (level : ℕ → ℕ) (m n : Mapper) (at phys len : ℕ)
    → IsTree level m
    → Grows m n
    → MapsRange at phys len m
    → MapsRange at phys len n
MapsRange-Grows level m n at phys len v g h d k =
    translate-Grows level m n v g (at + d) (phys + d) (h d k)

-- Two actions, where what the first ensures stays true as the tables grow.
module _ {A B : Type 0} (level : ℕ → ℕ) (m : Mapper) (first : MapAct A) (Q R S : Mapper → Type 0)
    (x : Mapped level m (first m).0 (first m).1 Q)
    (keep : (levels : ℕ → ℕ) (n k : Mapper) → IsTree levels n → Grows n k → Q n → Q k)
    (join : (n : Mapper) → Q n → R n → S n) where
  pub binds :
      (rest : A → MapAct B)
      → ((a : A) (levels : ℕ → ℕ) (n : Mapper)
          → IsTree levels n
          → Mapped levels n (rest a n).0 (rest a n).1 R)
      → Mapped level m ((first >>= rest) m).0 ((first >>= rest) m).1 S
  binds rest k =
      bind_elim first rest m (λ z. Mapped level m z.0 z.1 S)
        (λ e r. record {
          levels = x.levels;
          same = x.same;
          tree = x.tree;
          grows = x.grows;
          frames = x.frames;
          holds = λ _ bad. absurd (ground (arith, bad));
        })
        (λ a r.
          let y = k a x.levels (first m).1 x.tree in
          record {
            levels = y.levels;
            same = λ p h. y.same p (Grows-IsPage x.grows p h) ∙ x.same p h;
            tree = y.tree;
            grows = Grows-trans x.grows y.grows;
            frames =
                SameFrames-trans level x.levels m _ (rest a (first m).1).1 x.grows x.same x.frames
                  y.frames;
            holds =
                λ b fine. join _ (keep x.levels _ _ x.tree y.grows (x.holds a r)) (y.holds b fine);
          })

  pub both :
      (rest : MapAct B)
      → ((levels : ℕ → ℕ) (n : Mapper) → IsTree levels n → Mapped levels n (rest n).0 (rest n).1 R)
      → Mapped level m ((first >> rest) m).0 ((first >> rest) m).1 S
  unfolding ◌>>=◌ ◌>>◌
  both rest k = binds (λ _. rest) (λ _. k)

-- The range is whole pages, enough rounds are left for it, and it ends within the addresses.
abbrev pub Fits : ℕ → ℕ → ℕ → ℕ → Type 0
Fits fuel at phys len =
    (at % page ≡ 0)
    × (phys % page ≡ 0)
    × (len % page ≡ 0)
    × len / page ≤ fuel
    × at + len ≤ u64_mod
    × phys + len ≤ 2 ^ 52

pub stay :
    {A : Type 0} (res : Result MapError A) (level : ℕ → ℕ) (m : Mapper) (Q : Mapper → Type 0)
    → IsTree level m
    → Q m
    → Mapped level m res m Q
stay res level m Q v q = record {
  levels = level;
  same = λ p a. refl;
  tree = v;
  grows = Grows-refl m;
  frames = λ p i a e k. refl;
  holds = λ _ _. q;
}

Maps-Grows :
    (size at phys : ℕ) (level : ℕ → ℕ) (m n : Mapper)
    → IsTree level m
    → Grows m n
    → Maps size at phys m
    → Maps size at phys n
Maps-Grows size at phys level m n v g h va near = translate-Grows level m n v g va _ (h va near)

-- A page of a range that fits, and the rest of it.
module _ (fuel at phys len : ℕ) (n : Mapper) (f : Fits (suc fuel) at phys len) where
  join_4k :
      page ≤ len
      → Maps page at phys n
      → (Fits fuel ((at + page) % u64_mod) ((phys + page) % u64_mod) (len - page)
          → MapsRange ((at + page) % u64_mod) ((phys + page) % u64_mod) (len - page) n)
      → MapsRange at phys len n
  join_4k more q r =
      let (a, b, c, d, e, h) = f in
      range_append page at phys len n e (omega arith) (range_4k at phys n a b (omega arith) q)
        (r (omega arith, omega arith, omega arith, omega arith, omega arith, omega arith))

  join_2m :
      takes_2m at phys len ≡ true
      → Maps huge_2m at phys n
      → (Fits fuel ((at + huge_2m) % u64_mod) ((phys + huge_2m) % u64_mod) (len - huge_2m)
          → MapsRange ((at + huge_2m) % u64_mod) ((phys + huge_2m) % u64_mod) (len - huge_2m) n)
      → MapsRange at phys len n
  join_2m big q r =
      let (a, b, c, d, e, h) = f in
      let long : huge_2m ≤ len = ground arith in
      range_append huge_2m at phys len n e (omega arith)
        (range_2m at phys n (ground arith) (ground arith) (omega arith) q)
        (r (omega arith, omega arith, omega arith, omega arith, omega arith, omega arith))

map_loop_lem :
    (fuel : ℕ) (level : ℕ → ℕ) (m : Mapper) (at phys len : ℕ)
    → IsTree level m
    → Mapped level m
        (map_loop fuel at phys len m).0
        (map_loop fuel at phys len m).1
        (λ n. Fits fuel at phys len → MapsRange at phys len n)
unfolding map_loop
map_loop_lem zero level m at phys len v = stay (ok tt) level m _ v (λ f d k. absurd (omega arith))
map_loop_lem (suc fuel) level m at phys len v = elim (Bool-cases (ltb len page)) [
  | inl done ↦ rw done (stay (ok tt) level m _ v (λ f d k. absurd (ground arith)))
  | inr more ↦ elim (Bool-cases (takes_2m at phys len)) [
    | inl big ↦
        rw (more, big)
          (both level m (map_2m at phys) (Maps huge_2m at phys) _ _ (map_2m_lem level m at phys v)
            (Maps-Grows huge_2m at phys) (λ n q r f. join_2m fuel at phys len n f big q r) _
            (λ l n t. map_loop_lem fuel l n _ _ _ t))
    | inr small ↦
        rw (more, small)
          (both level m (map_4k at phys) (Maps page at phys) _ _ (map_4k_lem level m at phys v)
            (Maps-Grows page at phys) (λ n q r f. join_4k fuel at phys len n f (ground arith) q r) _
            (λ l n t. map_loop_lem fuel l n _ _ _ t))
  ]
]

pub map_range_keeps :
    (level : ℕ → ℕ) (m : Mapper) (at phys len : ℕ)
    → IsTree level m
    → Mapped level m
        (map_range at phys len m).0
        (map_range at phys len m).1
        (λ n. at + len ≤ u64_mod → phys + len ≤ 2 ^ 52 → MapsRange at phys (len / page * page) n)
unfolding map_range
map_range_keeps level m at phys len v =
    elim (Bool-cases (not (nat_eq (at % page) 0) || not (nat_eq (phys % page) 0))) [
      | inl odd ↦ rw odd (record {
        levels = level;
        same = λ p a. refl;
        tree = v;
        grows = Grows-refl m;
        frames = λ p i a e k. refl;
        holds = λ _ bad. absurd (ground (arith, bad));
      })
      | inr even ↦ rw even (
          let x = map_loop_lem (len / page) level m at phys (len / page * page) v in
          record {
            levels = x.levels;
            same = x.same;
            tree = x.tree;
            grows = x.grows;
            frames = x.frames;
            holds = λ u fine a b.
                x.holds u fine
                  (ground arith, ground arith, omega arith, omega arith, omega arith, omega arith);
          })
    ]

-- On tables whose levels are sound, a `map_range` that returns `ok` maps each address of the whole pages of the range
-- to the physical address at the same distance, as the processor walks the tables, if the range ends within the
-- addresses and within physical memory.
pub map_range_lem :
    (level : ℕ → ℕ) (m : Mapper) (at phys len : ℕ)
    → IsTree level m
    → at + len ≤ u64_mod
    → phys + len ≤ 2 ^ 52
    → (map_range at phys len m).0 ≡ ok tt
    → (d : ℕ) → d < len / page * page
    → translate (map_range at phys len m).1 (at + d) ≡ some (phys + d)
map_range_lem level m at phys len v a b fine =
    (map_range_keeps level m at phys len v).holds tt fine a b

-- On tables whose levels are sound, whatever `map_range` returns, the levels are sound after it, and each address
-- that had a physical address still has the same one.
pub map_range-IsTree :
    (level : ℕ → ℕ) (m : Mapper) (at phys len : ℕ)
    → IsTree level m
    → let n = (map_range at phys len m).1 in
      ((levels : ℕ → ℕ) × IsTree levels n)
      × ((va x : ℕ) → translate m va ≡ some x → translate n va ≡ some x)
map_range-IsTree level m at phys len v =
    let x = map_range_keeps level m at phys len v in
    ((x.levels, x.tree), translate-Grows level m _ v x.grows)
