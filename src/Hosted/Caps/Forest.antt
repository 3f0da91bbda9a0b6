-- ===== src/Hosted/Caps/Forest.antt =====
-- crates/court-hosted/src/lib.rs: what holds of every `CapRegistry` that its own methods build.
use court_kernel.Prelude.{
  ℕ, ◌+◌, ◌≤◌, ◌<◌, ◌≡◌, ap, ◌⊎◌, inl, inr, ◌≢◌, true, false, none, some, List, [], ◌∷◌, Memᴰ,
  Table, nat_Key, nat_eq, nat_eq_iff, get, insert, get-insert, get-insert_self, arith,
  if◌then◌else◌, Bool-cases, Option-cases,
}
use mathlib.Core.List.Memᴰ.{not-nil, append_left, append_right, append_cases, eq_of_singleton}
use court_kernel.Hosted.Rights.{Rights, covers}
use court_kernel.Hosted.Types.{CapId, ObjectId, ObjectType, u64_mod}
use court_kernel.Hosted.Caps.Outcome.{next_id, with_derived, MayDerive, delegate_outcome}
use court_kernel.Hosted.Caps.{
  Capability, CapRegistry, empty, children_of, mint_root, delegate, derive,
}

-- A derived entry is younger than its parent, has no right that the parent lacks, names the same
-- object, and is dead if the parent is.
pub record Derived (caps : Table CapId Capability) (c : CapId) (k : Capability) (p : CapId)
    : Type 0 where
  pub source : Capability
  pub found : get caps p ≡ some source
  pub older : p < c
  pub attenuated : covers source.rights k.rights ≡ true
  pub same_object : k.object ≡ source.object
  pub dead : source.is_revoked ≡ true → k.is_revoked ≡ true

pub record IsForest (r : CapRegistry) : Type 0 where
  pub bounded : (c : CapId) (k : Capability) → get r.caps c ≡ some k → c ≤ r.next_cap
  pub derived :
      (c : CapId) (k : Capability) (p : CapId)
      → get r.caps c ≡ some k
      → k.parent ≡ some p
      → Derived r.caps c k p
  pub listed :
      (c : CapId) (k : Capability) (p : CapId)
      → get r.caps c ≡ some k
      → k.parent ≡ some p
      → Memᴰ c (children_of r.children p)
  pub known :
      (c p : CapId)
      → Memᴰ c (children_of r.children p)
      → (k : Capability) × (get r.caps c ≡ some k) × (k.parent ≡ some p)

pub empty-IsForest : IsForest empty
unfolding children_of get
empty-IsForest = record {
  bounded = λ c k h. ground arith;
  derived = λ c k p h. absurd (ground arith);
  listed = λ c k p h. absurd (ground arith);
  known = λ c p h. absurd (not-nil h);
}

-- The number that `alloc_cap` gives out next is not in use.
pub fresh : (r : CapRegistry) → IsForest r → (n : CapId) → r.next_cap < n → get r.caps n ≡ none
fresh r v n h = elim (Option-cases (get r.caps n)) [
  | inl e ↦ e
  | inr (k, e) ↦ absurd (omega (arith, v.bounded n k e))
]

-- What is found after an insertion is the new entry, or was there before.
pub get-insert_cases :
    {V : Type 0} (m : Table ℕ V) (n c : ℕ) (v w : V)
    → get (insert m n v) c ≡ some w
    → ((c ≡ n) × (v ≡ w)) ⊎ ((c ≢ n) × (get m c ≡ some w))
get-insert_cases m n c v w h = ground (arith, get-insert m n c v)

-- The counter has not reached the end of its 64 bits.
abbrev pub HasRoom : CapRegistry → Type 0
HasRoom r = r.next_cap + 1 < u64_mod

-- An entry that is there stays when a new number is taken.
pub get-insert_fresh :
    {V : Type 0} (m : Table ℕ V) (n c : ℕ) (v w : V)
    → get m n ≡ none
    → get m c ≡ some w
    → get (insert m n v) c ≡ some w
get-insert_fresh m n c v w h e = ground (arith, get-insert m n c v)

Derived-insert :
    (caps : Table CapId Capability) (n : CapId) (v : Capability) (c : CapId) (k : Capability)
    (p : CapId)
    → get caps n ≡ none
    → Derived caps c k p
    → Derived (insert caps n v) c k p
Derived-insert caps n v c k p h d = record {
  source = d.source;
  found = get-insert_fresh caps n p v d.source h d.found;
  older = d.older;
  attenuated = d.attenuated;
  same_object = d.same_object;
  dead = d.dead;
}

children_of-insert :
    (t : Table CapId (List CapId)) (p q : CapId) (cs : List CapId)
    → children_of (insert t p cs) q ≡ (if nat_eq p q then cs else children_of t q)
unfolding children_of
children_of-insert t p q cs = ground (arith, get-insert t p q cs)

-- Minting keeps the invariant.
pub mint_root-IsForest :
    (object : ObjectId) (ty : ObjectType) (rights : Rights) (r : CapRegistry)
    → HasRoom r
    → IsForest r
    → IsForest (mint_root object ty rights r).1
unfolding mint_root
mint_root-IsForest object ty rights r room v = record {
  bounded = λ c k e. elim (get-insert_cases r.caps _ c _ k e) [
    | inl (p, _) ↦ omega arith
    | inr (_, old) ↦ omega (arith, v.bounded c k old)
  ];
  derived = λ c k p e h. elim (get-insert_cases r.caps _ c _ k e) [
    | inl (_, new) ↦ absurd (ground arith)
    | inr (_, old) ↦
        Derived-insert r.caps _ _ c k p (fresh r v _ (omega arith)) (v.derived c k p old h)
  ];
  listed = λ c k p e h. elim (get-insert_cases r.caps _ c _ k e) [
    | inl (_, new) ↦ absurd (ground arith)
    | inr (_, old) ↦ v.listed c k p old h
  ];
  known = λ c p m.
      let (k, e, h) = v.known c p m in
      (k, get-insert_fresh r.caps _ c _ k (fresh r v _ (omega arith)) e, h);
}

module _ (r : CapRegistry) (v : IsForest r) (room : HasRoom r) (p : CapId) (rights : Rights)
    (k : Capability) (found : get r.caps p ≡ some k) (live : k.is_revoked ≡ false)
    (within : covers k.rights rights ≡ true) where
  abbrev next : CapId
  next = next_id r

  abbrev grown : CapRegistry
  grown = with_derived r p rights k

  free : get r.caps next ≡ none
  free = fresh r v next (omega arith)

  -- Who is a child now: who was one, and the new number under `p`.
  child_now :
      (c q : CapId)
      → ((c ≡ next) × (p ≡ q)) ⊎ Memᴰ c (children_of r.children q)
      → Memᴰ c (children_of grown.children q)
  child_now c q h = rw (children_of-insert r.children p q _) (elim (Bool-cases (nat_eq p q)) [
    | inl at ↦ rw at (elim h [
      | inl (e, _) ↦ append_right (children_of r.children p) (Memᴰ.head e)
      | inr m ↦
          let old : Memᴰ c (children_of r.children p) = rw ((nat_eq_iff p q).0 at) m in
          append_left (next ∷ []) old
    ])
    | inr off ↦ rw off (elim h [ inl (_, e) ↦ absurd (ground arith) | inr m ↦ m ])
  ])

  child_before :
      (c q : CapId)
      → Memᴰ c (children_of grown.children q)
      → ((c ≡ next) × (p ≡ q)) ⊎ Memᴰ c (children_of r.children q)
  child_before c q m = elim (Bool-cases (nat_eq p q)) [
    | inl at ↦
        elim (append_cases (children_of r.children p)
          (rw (children_of-insert r.children p q _, at) at m)) [
            | inl old ↦ inr (rw (← (nat_eq_iff p q).0 at) old)
            | inr new ↦ inl (eq_of_singleton new, (nat_eq_iff p q).0 at)
          ]
    | inr off ↦ inr (rw (children_of-insert r.children p q _, off) at m)
  ]

  grown-Derived :
      (c : CapId) (j : Capability) (q : CapId)
      → get grown.caps c ≡ some j
      → j.parent ≡ some q
      → Derived grown.caps c j q
  grown-Derived c j q e h = elim (get-insert_cases r.caps next c _ j e) [
    | inl (at, new) ↦ record {
      source = k;
      found = get-insert_fresh r.caps next q _ k free (ground arith);
      older = let same : p ≡ q = ground arith in omega (arith, v.bounded p k found);
      attenuated = ground arith;
      same_object = ground arith;
      dead = λ d. ground arith;
    }
    | inr (_, old) ↦ Derived-insert r.caps next _ c j q free (v.derived c j q old h)
  ]

  grown-listed :
      (c : CapId) (j : Capability) (q : CapId)
      → get grown.caps c ≡ some j
      → j.parent ≡ some q
      → Memᴰ c (children_of grown.children q)
  grown-listed c j q e h = elim (get-insert_cases r.caps next c _ j e) [
    | inl (at, new) ↦ child_now c q (inl (at, ground arith))
    | inr (_, old) ↦ child_now c q (inr (v.listed c j q old h))
  ]

  grown-known :
      (c q : CapId)
      → Memᴰ c (children_of grown.children q)
      → (j : Capability) × (get grown.caps c ≡ some j) × (j.parent ≡ some q)
  grown-known c q m = elim (child_before c q m) [
    | inl (at, pq) ↦ (derive k p rights, rw at (get-insert_self r.caps next _), ap some pq)
    | inr old ↦ let (j, e, h) = v.known c q old in (j, get-insert_fresh r.caps next c _ j free e, h)
  ]

  grown-IsForest : IsForest grown
  grown-IsForest = record {
    bounded = λ c j e. elim (get-insert_cases r.caps next c _ j e) [
      | inl (at, _) ↦ omega arith
      | inr (_, old) ↦ omega (arith, v.bounded c j old)
    ];
    derived = grown-Derived;
    listed = grown-listed;
    known = grown-known;
  }

pub with_derived-IsForest :
    (r : CapRegistry)
    → IsForest r
    → HasRoom r
    → (p : CapId) (rights : Rights) (k : Capability) → MayDerive r p rights k
    → IsForest (with_derived r p rights k)
with_derived-IsForest r v room p rights k x =
    grown-IsForest r v room p rights k x.found x.live x.within

-- Deriving a capability keeps the invariant, and so does a refusal to.
pub delegate-IsForest :
    (p : CapId) (rights : Rights) (r : CapRegistry)
    → HasRoom r
    → IsForest r
    → IsForest (delegate p rights r).1
delegate-IsForest p rights r room v = elim (delegate_outcome r p rights) [
  | inl (_, same) ↦ rw same v
  | inr (k, x, e) ↦ rw e (with_derived-IsForest r v room p rights k x)
]
