-- ===== src/Hosted/Caps/Revoke.antt =====
-- crates/court-hosted/src/lib.rs: `CapRegistry::revoke` kills a capability and what was derived
-- from it, and nothing else.
use mathlib.Core.List.Memᴰ.{eq_of_singleton}
use court_kernel.Prelude.{
  ◌-◌, ◌≤◌, ◌<◌, ◌≡◌, refl, sym, ◌⊎◌, inl, inr, ◌↔◌, true, none, some, List, [], ◌∷◌, Memᴰ, Table,
  nat_Key, get, ok, err, arith, Option-cases,
}
use court_kernel.Hosted.Types.{CapId, bad_cap}
use court_kernel.Hosted.Caps.{
  Capability, CapRegistry, children_of, revoke_loop, sum_of, visits, revoke,
}
use court_kernel.Hosted.Caps.Forest.{IsForest, Derived}
use court_kernel.Hosted.Caps.Walk.{
  Under, self, via, is_dead, alive, shape, loop-shape, loop_only, loop_all,
}
use court_kernel.Hosted.Caps.Fuel.{loop_ends, visits_mono}

-- The derivation tree by the parent pointers: `c` is `a`, or was derived from it in some steps.
pub data Descends (caps : Table CapId Capability) (a : CapId) : CapId → Type 0 where
  itself : {c : CapId} → a ≡ c → Descends caps a c
  child :
      {c p : CapId} (k : Capability)
      → get caps c ≡ some k
      → k.parent ≡ some p
      → Descends caps a p
      → Descends caps a c

Descends-below :
    (r : CapRegistry)
    → IsForest r
    → {a b c : CapId} → Under r.children b c
    → Descends r.caps a b
    → Descends r.caps a c
Descends-below r v (self e) d = rw (← e) d
Descends-below r v {b = b} (via x m u) d =
    let (k, e, h) = v.known x b m in Descends-below r v u (child k e h d)

Under-snoc :
    (children : Table CapId (List CapId)) (c : CapId) {a p : CapId}
    → Under children a p
    → Memᴰ c (children_of children p)
    → Under children a c
Under-snoc children c (self e) m = via c (rw e m) (self refl)
Under-snoc children c (via x n u) m = via x n (Under-snoc children c u m)

Under-of_Descends :
    (r : CapRegistry) → IsForest r → {a c : CapId} → Descends r.caps a c → Under r.children a c
Under-of_Descends r v (itself e) = self e
Under-of_Descends r v (child {c = c} {p = p} k e h d) =
    Under-snoc r.children c (Under-of_Descends r v d) (v.listed c k p e h)

younger :
    (r : CapRegistry)
    → IsForest r
    → (c p : CapId) → Memᴰ c (children_of r.children p)
    → (p < c) × (c ≤ r.next_cap)
younger r v c p m = let (k, e, h) = v.known c p m in ((v.derived c k p e h).older, v.bounded c k e)

-- In a well-formed registry, the walk from any number ends: with the fuel that `revoke` gives it,
-- its stack runs empty.
pub revoke_loop_ends :
    (r : CapRegistry) (id : CapId)
    → IsForest r
    → (revoke_loop (visits r.next_cap r.children id) r.children (id ∷ []) r.caps).0 ≡ []
unfolding sum_of
revoke_loop_ends r id v =
    loop_ends r.children r.next_cap (younger r v) (visits r.next_cap r.children id) (id ∷ []) r.caps
      (omega (arith, visits_mono r.children (r.next_cap - id) r.next_cap id (omega arith)))

abbrev swept : CapRegistry → CapId → Table CapId Capability
swept r id = (revoke_loop (visits r.next_cap r.children id) r.children (id ∷ []) r.caps).1

swept_only :
    (r : CapRegistry) (id c : CapId) (j : Capability)
    → IsForest r
    → get r.caps c ≡ some j
    → is_dead (swept r id) c ≡ true
    → (j.is_revoked ≡ true) ⊎ Descends r.caps id c
swept_only r id c j v e h = elim (loop_only r.children _ (id ∷ []) r.caps c h) [
  | inl dead ↦ inl (rw (e, is_dead) at dead)
  | inr (x, m, u) ↦ inr (Descends-below r v u (itself (sym (eq_of_singleton m))))
]

swept_all :
    (r : CapRegistry) (id c : CapId) (j : Capability)
    → IsForest r
    → get r.caps c ≡ some j
    → (j.is_revoked ≡ true) ⊎ Descends r.caps id c
    → is_dead (swept r id) c ≡ true
swept_all r id c j v e h =
    loop_all r.children _ (id ∷ []) r.caps c (alive j) (revoke_loop_ends r id v)
      (rw (e, shape) refl)
      (elim h [
        | inl dead ↦ inl (rw (e, is_dead) dead)
        | inr d ↦ inr (id, Memᴰ.head refl, Under-of_Descends r v d)
      ])

-- In a well-formed registry, revoking a capability that is known succeeds, keeps the counter, the
-- children and every entry but for its mark, and then exactly the entries that were dead or
-- descend from the capability are dead.
pub revoke_exact :
    (r : CapRegistry) (id : CapId) (k : Capability)
    → IsForest r
    → get r.caps id ≡ some k
    → let (res, r') = revoke id r in
      (res ≡ ok tt)
      × (r'.next_cap ≡ r.next_cap)
      × (r'.children ≡ r.children)
      × ((c : CapId) → shape r'.caps c ≡ shape r.caps c)
      × ((c : CapId) (j : Capability)
          → get r.caps c ≡ some j
          → (is_dead r'.caps c ≡ true) ↔ ((j.is_revoked ≡ true) ⊎ Descends r.caps id c))
unfolding revoke
revoke_exact r id k v e =
    rw (e, revoke)
      (
        refl,
        refl,
        refl,
        loop-shape r.children _ (id ∷ []) r.caps,
        λ c j f. (swept_only r id c j v f, swept_all r id c j v f),
      )

-- Revoking an unknown capability is refused and changes nothing.
pub revoke_unknown :
    (r : CapRegistry) (id : CapId) → get r.caps id ≡ none → revoke id r ≡ (err bad_cap, r)
unfolding revoke
revoke_unknown r id e = rw (e, revoke)

-- Two tables of one shape have entries at the same numbers, equal but for their marks.
pub entry_back :
    (m n : Table CapId Capability) (c : CapId) (j : Capability)
    → shape n c ≡ shape m c
    → get n c ≡ some j
    → (k : Capability) × (get m c ≡ some k) × (alive j ≡ alive k)
entry_back m n c j s e = elim (Option-cases (get m c)) [
  | inl f ↦ absurd (ground arith)
  | inr (k, f) ↦ (k, f, ground arith)
]

-- Whatever it is asked to revoke, `revoke` changes nothing but marks.
pub revoke-shape :
    (id : CapId) (r : CapRegistry) (c : CapId) → shape (revoke id r).1.caps c ≡ shape r.caps c
unfolding revoke
revoke-shape id r c = elim (Option-cases (get r.caps id)) [
  | inl e ↦ rw (e, revoke) refl
  | inr (k, e) ↦ rw (e, revoke) (loop-shape r.children _ (id ∷ []) r.caps c)
]

module _ (r : CapRegistry) (id : CapId) (v : IsForest r) where
  same_shape : (c : CapId) → shape (swept r id) c ≡ shape r.caps c
  same_shape = loop-shape r.children _ (id ∷ []) r.caps

  -- If a parent is dead after the sweep, so is what was derived from it.
  swept_dead :
      (c p : CapId) (k source : Capability)
      → get r.caps c ≡ some k
      → k.parent ≡ some p
      → get r.caps p ≡ some source
      → (source.is_revoked ≡ true → k.is_revoked ≡ true)
      → is_dead (swept r id) p ≡ true
      → is_dead (swept r id) c ≡ true
  swept_dead c p k source e h f d dead =
      swept_all r id c k v e (elim (swept_only r id p source v f dead) [
        | inl old ↦ inl (d old)
        | inr below ↦ inr (child k e h below)
      ])

  swept-Derived :
      (c : CapId) (j : Capability) (p : CapId)
      → get (swept r id) c ≡ some j
      → j.parent ≡ some p
      → Derived (swept r id) c j p
  swept-Derived c j p e h =
      let (k, f, same) = entry_back r.caps (swept r id) c j (same_shape c) e in
      let d = v.derived c k p f (ground arith) in
      let (source, g, same') =
        entry_back (swept r id) r.caps p d.source (sym (same_shape p)) d.found in
      record {
        source = source;
        found = g;
        older = d.older;
        attenuated = ground (arith, d.attenuated);
        same_object = ground (arith, d.same_object);
        dead = λ x. ground (
          arith,
          e,
          swept_dead c p k d.source f (ground arith) d.found d.dead (rw (g, is_dead) x),
        );
      }

  swept-IsForest : IsForest (record r { caps = swept r id })
  swept-IsForest = record {
    bounded = λ c j e.
        let (k, f, _) = entry_back r.caps (swept r id) c j (same_shape c) e in v.bounded c k f;
    derived = swept-Derived;
    listed = λ c j p e h.
        let (k, f, same) = entry_back r.caps (swept r id) c j (same_shape c) e in
        v.listed c k p f (ground arith);
    known = λ c p m.
        let (k, f, h) = v.known c p m in
        let (j, e, same) = entry_back (swept r id) r.caps c k (sym (same_shape c)) f in
        (j, e, ground arith);
  }

-- Revoking keeps the invariant.
pub revoke-IsForest : (id : CapId) (r : CapRegistry) → IsForest r → IsForest (revoke id r).1
unfolding revoke
revoke-IsForest id r v = elim (Option-cases (get r.caps id)) [
  | inl e ↦ rw (e, revoke) v
  | inr (k, e) ↦ rw (e, revoke) (swept-IsForest r id v)
]
