-- ===== src/Hosted/Caps/Evolve.antt =====
-- crates/court-hosted/src/lib.rs: a registry over time. Entries stay, and a dead one stays dead.
use court_kernel.Prelude.{
  ◌+◌, ◌≤◌, ◌≡◌, refl, sym, ◌∙◌, inl, inr, true, some, nat_Key, [], ◌∷◌, get, arith, Option-cases,
}
use court_kernel.Hosted.Rights.{Rights}
use court_kernel.Hosted.Types.{CapId, ObjectId, ObjectType}
use court_kernel.Hosted.Caps.{Capability, CapRegistry, mint_root, delegate, revoke}
use court_kernel.Hosted.Caps.Outcome.{next_id, delegate_outcome}
use court_kernel.Hosted.Caps.Forest.{
  IsForest, HasRoom, fresh, get-insert_fresh, mint_root-IsForest, delegate-IsForest,
}
use court_kernel.Hosted.Caps.Walk.{is_dead, alive, loop_still}
use court_kernel.Hosted.Caps.Revoke.{
  Descends, itself, child, entry_back, revoke-shape, revoke-IsForest,
}

-- What one call may do to the registry.
pub data Evolves (r t : CapRegistry) : Type 0 where
  stays : t ≡ r → Evolves r t
  mints :
      (object : ObjectId) (ty : ObjectType) (rights : Rights)
      → t ≡ (mint_root object ty rights r).1
      → Evolves r t
  derives : (p : CapId) (rights : Rights) → t ≡ (delegate p rights r).1 → Evolves r t
  revokes : (id : CapId) → t ≡ (revoke id r).1 → Evolves r t

pub Evolves-next_cap : {r t : CapRegistry} → Evolves r t → t.next_cap ≤ r.next_cap + 1
unfolding mint_root revoke
Evolves-next_cap (stays e) = rw e (omega arith)
Evolves-next_cap (mints o ty rights e) = rw e (omega arith)
Evolves-next_cap {r} (derives p rights e) = rw e (elim (delegate_outcome r p rights) [
  | inl (_, f) ↦ rw f (omega arith)
  | inr (k, _, f) ↦ rw f (omega arith)
])
Evolves-next_cap {r} (revokes id e) = rw e (elim (Option-cases (get r.caps id)) [
  | inl f ↦ rw (f, revoke) (omega arith)
  | inr (k, f) ↦ rw (f, revoke) (omega arith)
])

revoke_still :
    (r : CapRegistry) (id c : CapId)
    → is_dead r.caps c ≡ true
    → is_dead (revoke id r).1.caps c ≡ true
unfolding revoke
revoke_still r id c h = elim (Option-cases (get r.caps id)) [
  | inl e ↦ rw (e, revoke) h
  | inr (k, e) ↦ rw (e, revoke) (loop_still r.children _ (id ∷ []) r.caps c h)
]

-- What a later registry keeps of an entry: all but the mark, and the mark if it is set.
abbrev pub Keeps : CapRegistry → CapRegistry → Type 0
Keeps r t =
    (c : CapId) (j : Capability)
    → get r.caps c ≡ some j
    → (i : Capability) × (get t.caps c ≡ some i)
      × (alive i ≡ alive j)
      × (j.is_revoked ≡ true → i.is_revoked ≡ true)

pub Evolves-Keeps : {r t : CapRegistry} → IsForest r → HasRoom r → Evolves r t → Keeps r t
unfolding mint_root revoke
Evolves-Keeps v room (stays e) c j f = (j, rw e f, refl, λ d. d)
Evolves-Keeps {r} v room (mints o ty rights e) c j f = (
  j,
  rw e (get-insert_fresh r.caps _ c _ j (fresh r v (next_id r) (omega arith)) f),
  refl,
  λ d. d,
)
Evolves-Keeps {r} v room (derives p rights e) c j f = rw e (elim (delegate_outcome r p rights) [
  | inl (_, g) ↦ (j, rw g f, refl, λ d. d)
  | inr (k, _, g) ↦ (
    j,
    rw g (get-insert_fresh r.caps _ c _ j (fresh r v (next_id r) (omega arith)) f),
    refl,
    λ d. d,
  )
])
Evolves-Keeps {r} v room (revokes id e) c j f =
    let (i, g, eq) = entry_back (revoke id r).1.caps r.caps c j (sym (revoke-shape id r c)) f in
    (i, rw e g, sym eq, λ d. rw (g, is_dead) at (revoke_still r id c (rw (f, is_dead) d)))

pub Evolves-IsForest : {r t : CapRegistry} → HasRoom r → Evolves r t → IsForest r → IsForest t
Evolves-IsForest room (stays e) v = rw e v
Evolves-IsForest {r} room (mints o ty rights e) v = rw e (mint_root-IsForest o ty rights r room v)
Evolves-IsForest {r} room (derives p rights e) v = rw e (delegate-IsForest p rights r room v)
Evolves-IsForest {r} room (revokes id e) v = rw e (revoke-IsForest id r v)

pub Keeps-refl : (r : CapRegistry) → Keeps r r
Keeps-refl r c j f = (j, f, refl, λ d. d)

pub Keeps-trans : (r s t : CapRegistry) → Keeps r s → Keeps s t → Keeps r t
Keeps-trans r s t p q c j f =
    let (i, g, eq, dead) = p c j f in
    let (h, k, eq', dead') = q c i g in (h, k, eq' ∙ eq, λ d. dead' (dead d))

-- A derivation is not forgotten.
pub Keeps-Descends :
    (r t : CapRegistry) → Keeps r t → {a c : CapId} → Descends r.caps a c → Descends t.caps a c
Keeps-Descends r t keep (itself e) = itself e
Keeps-Descends r t keep (child {c = c} k e h d) =
    let (i, g, eq, _) = keep c k e in child i g (ground arith) (Keeps-Descends r t keep d)
