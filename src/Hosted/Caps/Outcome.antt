-- ===== src/Hosted/Caps/Outcome.antt =====
-- crates/court-hosted/src/lib.rs: the two ends of `CapRegistry::delegate`.
use court_kernel.Prelude.{
  Result-cases, ◌+◌, ◌%◌, ◌≡◌, refl, ◌⊎◌, inl, inr, true, false, none, some, [], ◌∷◌, ◌++◌, nat_Key,
  get, insert, Result, ok, err, arith,
}
use court_kernel.Hosted.Rights
use court_kernel.Hosted.Rights.{Rights, covers}
use court_kernel.Hosted.Types.{CapId, ObjectId, ObjectType, CkError, u64_mod}
use court_kernel.Hosted.Caps.{
  Capability, CapRegistry, children_of, mint_root, may_delegate, delegate, derive,
}

abbrev pub Failed {ℓ} : {A : Type ℓ} → Result CkError A → Type ℓ
Failed {A = A} r = (e : CkError) × (r ≡ err e)

-- the number that `alloc_cap` gives out next
abbrev pub next_id : CapRegistry → CapId
next_id r = (r.next_cap + 1) % u64_mod

abbrev pub with_derived : CapRegistry → CapId → Rights → Capability → CapRegistry
with_derived r p rights k = record {
  next_cap = next_id r;
  caps = insert r.caps (next_id r) (derive k p rights);
  children = insert r.children p (children_of r.children p ++ next_id r ∷ []);
}

-- What it takes to derive `rights` from the entry `k` of `p`.
pub record MayDerive (r : CapRegistry) (p : CapId) (rights : Rights) (k : Capability) : Type 0 where
  pub found : get r.caps p ≡ some k
  pub live : k.is_revoked ≡ false
  pub delegates : covers k.rights Rights.delegate ≡ true
  pub within : covers k.rights rights ≡ true

may_delegate-ok :
    (r : CapRegistry) (p : CapId) (rights : Rights) (k : Capability)
    → may_delegate r p rights ≡ ok k
    → MayDerive r p rights k
unfolding may_delegate
may_delegate-ok r p rights k h = ground arith

pub delegate_outcome :
    (r : CapRegistry) (p : CapId) (rights : Rights)
    → (Failed (delegate p rights r).0 × ((delegate p rights r).1 ≡ r))
      ⊎ ((k : Capability) × MayDerive r p rights k
          × (delegate p rights r ≡ (ok (next_id r), with_derived r p rights k)))
unfolding delegate
delegate_outcome r p rights = elim (Result-cases (may_delegate r p rights)) [
  | inl (e, h) ↦ rw (h, delegate) (inl ((e, refl), refl))
  | inr (k, h) ↦ rw (h, delegate) (inr (k, may_delegate-ok r p rights k h, refl))
]

-- the entry that `mint_root` makes
abbrev pub root_entry : ObjectId → ObjectType → Rights → Capability
root_entry object ty rights = record {
  object = object;
  object_type = ty;
  rights = rights;
  parent = none;
  is_revoked = false;
  delegable = true;
}

pub mint_root_lem :
    (object : ObjectId) (ty : ObjectType) (rights : Rights) (r : CapRegistry)
    → mint_root object ty rights r ≡ (
      next_id r,
      record r {
        next_cap = next_id r;
        caps = insert r.caps (next_id r) (root_entry object ty rights);
      },
    )
unfolding mint_root
mint_root_lem object ty rights r = refl
