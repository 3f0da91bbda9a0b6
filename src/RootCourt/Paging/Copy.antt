-- ===== src/RootCourt/Paging/Copy.antt =====
-- crates/root-court/src/paging.rs: the loop of `clone_kernel`, and the table over the root.
use court_kernel.Prelude.{
  ℕ, zero, suc, ◌+◌, ◌≤◌, ◌<◌, ◌≡◌, ◌≢◌, refl, sym, ap, ◌∙◌, inl, inr, Bool, true, false, ◌&&◌,
  nat_eq, ltb, leb, ok, arith, Bool-cases, if◌then◌else◌,
}
use court_kernel.Prelude.Chain.{◌>>=◌, ◌>>◌}
use court_kernel.RootCourt.Mm.{BumpAllocator}
use court_kernel.RootCourt.Paging.{Mapper, word_at, put, entry, table_flags}
use court_kernel.RootCourt.Paging.Build.{wrap_la57, cr3_of}
use court_kernel.RootCourt.Paging.Space.{copy_from}
use court_kernel.RootCourt.Paging.Tree.{IsMapper, IsPage, entry_distinct}
use court_kernel.RootCourt.Paging.Table.{
  alloc_table_outcome, fresh, fresh-IsMapper, fresh-IsPage, fresh_other, fresh_zero,
}
use court_kernel.RootCourt.Paging.Exact.{SamePages}

-- What writing an entry leaves in every other.
pub put_word :
    (m : Mapper) (t j w p i : ℕ)
    → IsMapper m
    → IsPage m t
    → IsPage m p
    → j < 512
    → i < 512
    → word_at (put t j w m) p i ≡ (if nat_eq p t && nat_eq i j then w else word_at m p i)
put_word m t j w p i v a b h k = elim (Bool-cases (nat_eq (entry m p i) (entry m t j))) [
  | inl hit ↦ let (at, ix) = entry_distinct m p t i j v b a k h (ground arith) in ground arith
  | inr miss ↦ elim (Bool-cases (nat_eq p t && nat_eq i j)) [
    | inl both ↦ absurd (
        let e : p ≡ t = ground arith in
        let f : i ≡ j = ground arith in ground (arith, ap (λ q. entry m q i) e, ap (entry m t) f))
    | inr other ↦ rw (miss, other) refl
  ]
]

abbrev pub in_copy : ℕ → ℕ → ℕ → ℕ → ℕ → Bool
in_copy left done target p i = nat_eq p target && (leb done i && ltb i (done + left))

-- One entry more, with the words as numbers.
one_more :
    (left done target source p i after old_p old_s new_p new_s copied : ℕ)
    → source ≢ target
    → after ≡ (if in_copy left (done + 1) target p i then new_s else new_p)
    → new_p ≡ (if nat_eq p target && nat_eq i done then copied else old_p)
    → new_s ≡ (if nat_eq source target && nat_eq i done then copied else old_s)
    → (i ≡ done → copied ≡ old_s)
    → after ≡ (if in_copy (suc left) done target p i then old_s else old_p)
one_more left done target source p i after old_p old_s new_p new_s copied ne a b c d =
    elim (Bool-cases (nat_eq i done)) [
      | inl e ↦ let f = d (ground arith) in ground arith
      | inr e ↦ ground arith
    ]

pub copy_from_lem :
    (left done source target : ℕ) (m : Mapper)
    → IsMapper m
    → IsPage m source
    → IsPage m target
    → source ≢ target
    → done + left ≤ 512
    → (p i : ℕ) → IsPage m p
    → i < 512
    → word_at (copy_from left done source target m) p i
      ≡ (if in_copy left done target p i then word_at m source i else word_at m p i)
unfolding copy_from
copy_from_lem zero done source target m v a b ne h p i c k = ground arith
copy_from_lem (suc left) done source target m v a b ne h p i c k =
    let m1 = put target done (word_at m source done) m in
    let v1 : IsMapper m1 = record {
      bump = v.bump;
      flat = v.flat;
      even = v.even;
      small = v.small;
    } in
    let ih = copy_from_lem left (done + 1) source target m1 v1 a b ne (omega arith) p i c k in
    let at_p = put_word m target done (word_at m source done) p i v b c (omega arith) k in
    let at_s = put_word m target done (word_at m source done) source i v b a (omega arith) k in
    one_more left done target source p i _ _ _ _ _ _ ne ih at_p at_s
      (λ e. ap (word_at m source) (sym e))

abbrev pub cursor_of : BumpAllocator → ℕ
cursor_of b = b.cursor

pub copy_from-bump :
    (left done source target : ℕ) (m : Mapper) → (copy_from left done source target m).bump ≡ m.bump
unfolding copy_from
copy_from-bump zero done source target m = refl
copy_from-bump (suc left) done source target m =
    copy_from-bump left (done + 1) source target (put target done (word_at m source done) m)

-- A fifth level is a table of its own.
pub cr3_of_same :
    (la57 : Bool) (root : ℕ) (m : Mapper) → IsMapper m → SamePages m (cr3_of la57 root m).1
unfolding wrap_la57 ◌>>=◌ ◌>>◌
cr3_of_same false root m v p i a k = refl
cr3_of_same true root m v p i a k = elim (alloc_table_outcome m v) [
  | inl e ↦ rw e refl
  | inr (room, e) ↦ rw e (
      put_word (fresh m) m.bump.cursor 511 (root + table_flags) p i (fresh-IsMapper m v room)
        (fresh-IsPage m v room) (a.0, let h = a.1 in omega arith) (omega arith) k
      ∙ not_new m p i _ a
      ∙ fresh_other m v room p i a k)
]
  where
    not_new :
        (m : Mapper) (p i w : ℕ)
        → IsPage m p
        → (if nat_eq p m.bump.cursor && nat_eq i 511 then w else word_at (fresh m) p i)
          ≡ word_at (fresh m) p i
    not_new m p i w (a, h) = ground arith

-- What CR3 names: the root itself, or a table whose last entry alone is present and names the root.
abbrev pub Rooted : Bool → ℕ → ℕ → Mapper → Type 0
Rooted false root cr3 n = cr3 ≡ root
Rooted true root cr3 n =
    IsPage n cr3
    × ((i : ℕ) → i < 512 → word_at n cr3 i ≡ (if nat_eq i 511 then root + table_flags else 0))

pub cr3_of-Rooted :
    (la57 : Bool) (root : ℕ) (m : Mapper) (cr3 : ℕ)
    → IsMapper m
    → (cr3_of la57 root m).0 ≡ ok cr3
    → Rooted la57 root cr3 (cr3_of la57 root m).1
unfolding wrap_la57 ◌>>=◌ ◌>>◌
cr3_of-Rooted false root m cr3 v h = ground (arith, h)
cr3_of-Rooted true root m cr3 v ok_cr3 = elim (alloc_table_outcome m v) [
  | inl e ↦ absurd (ground (arith, e, ok_cr3))
  | inr (room, e) ↦ rw e (
      let at : cr3 ≡ m.bump.cursor = cc (rw e at ok_cr3) in
      rw at (
        fresh-IsPage m v room,
        λ i k.
            put_word (fresh m) m.bump.cursor 511 (root + table_flags) m.bump.cursor i
              (fresh-IsMapper m v room) (fresh-IsPage m v room) (fresh-IsPage m v room)
              (omega arith) k
            ∙ (let z = fresh_zero m v room i k in ground (arith, z)),
      ))
]

-- The root that a mapper goes by has no part in it.
pub Rooted-Mapper :
    (la57 : Bool) (root cr3 p q : ℕ) (m : Mapper)
    → Rooted la57 root cr3 m
    → Rooted la57 root cr3 (record m { pml4_phys = p; table_pages = q })
Rooted-Mapper false root cr3 p q m h = h
Rooted-Mapper true root cr3 p q m (a, h) = (a, h)
