-- ===== src/Hosted/Caps.antt =====
-- crates/court-hosted/src/lib.rs: `Capability` and `CapRegistry`. A method on `&mut self` is an
-- action of `Exec`. `next_cap += 1` wraps at 2^64, as in a release build.
pub mod Outcome
pub mod Forest
pub mod Walk
pub mod Fuel
pub mod Revoke
pub mod Evolve
use court_kernel.Prelude.{
  ℕ, zero, suc, ◌+◌, ◌%◌, Bool, true, false, not, ◌||◌, Option, none, some, List, [], ◌∷◌, ◌++◌,
  reverse, Table, nat_Key, get, insert, ok, err, Exec, if◌then◌else◌,
}
use court_kernel.Hosted.Rights
use court_kernel.Hosted.Rights.{Rights, covers}
use court_kernel.Hosted.Types.{
  CapId, ObjectId, ObjectType, corridor, CkError, bad_cap, no_right, revoked, invalid_object,
  CkResult, u64_mod,
}

pub record Capability : Type 0 where
  pub object : ObjectId
  pub object_type : ObjectType
  pub rights : Rights
  pub parent : Option CapId
  pub is_revoked : Bool
  pub delegable : Bool

pub record CapRegistry : Type 0 where
  pub next_cap : ℕ
  pub caps : Table CapId Capability
  pub children : Table CapId (List CapId)

abbrev pub empty : CapRegistry
empty = record { next_cap = 0; caps = []; children = [] }

-- `children.get(cap)`, with no entry read as no child, as `entry().or_default()` does
unfoldable pub children_of : Table CapId (List CapId) → CapId → List CapId
children_of t id = elim (get t id) [ none ↦ [] | some cs ↦ cs ]

unfoldable pub alloc_cap : CapRegistry → CapId × CapRegistry
alloc_cap r = let next = (r.next_cap + 1) % u64_mod in (next, record r { next_cap = next })

unfoldable pub mint_root : ObjectId → ObjectType → Rights → CapRegistry → CapId × CapRegistry
unfolding alloc_cap
mint_root object object_type rights r =
    let (id, r') = alloc_cap r in
    (
      id,
      record r' {
        caps = insert r'.caps id (record {
          object = object;
          object_type = object_type;
          rights = rights;
          parent = none;
          is_revoked = false;
          delegable = true;
        });
      },
    )

-- the checks of `delegate`, which hand on the parent's entry
unfoldable pub may_delegate : CapRegistry → CapId → Rights → CkResult Capability
may_delegate r parent rights = elim (get r.caps parent) [
  | none ↦ err bad_cap
  | some p ↦
      if p.is_revoked
      then err revoked
      else if not p.delegable || not (covers p.rights Rights.delegate)
      then err no_right
      else if not (covers p.rights rights)
      then err no_right
      else ok p
]

-- the entry that `delegate` makes from the parent's
abbrev pub derive : Capability → CapId → Rights → Capability
derive p parent rights = record {
  object = p.object;
  object_type = p.object_type;
  rights = rights;
  parent = some parent;
  is_revoked = false;
  delegable = covers rights Rights.delegate;
}

unfoldable pub delegate : CapId → Rights → Exec CkError CapRegistry CapId
unfolding may_delegate alloc_cap children_of
delegate parent rights r = elim (may_delegate r parent rights) [
  | err e ↦ (err e, r)
  | ok p ↦
      let (id, r') = alloc_cap r in
      (
        ok id,
        record r' {
          caps = insert r'.caps id (derive p parent rights);
          children = insert r'.children parent (children_of r'.children parent ++ id ∷ []);
        },
      )
]

-- `get_mut(&next)` and the write under it
unfoldable pub mark : Table CapId Capability → CapId → Table CapId Capability
mark caps next = elim (get caps next) [
  | none ↦ caps
  | some k ↦ insert caps next (record k { is_revoked = true })
]

-- The `while let` of `revoke`. The head of the list is the back of the vector, so `extend` puts the
-- children on in reverse. What is left on the stack comes back too: it is empty unless the fuel
-- ran out.
unfoldable pub revoke_loop :
    ℕ
    → Table CapId (List CapId)
    → List CapId
    → Table CapId Capability
    → List CapId × Table CapId Capability
revoke_loop fuel children [] caps = ([], caps)
revoke_loop zero children (next ∷ stack) caps = (next ∷ stack, caps)
revoke_loop (suc fuel) children (next ∷ stack) caps =
    revoke_loop fuel children (reverse (children_of children next) ++ stack) (mark caps next)

unfoldable pub sum_of : (CapId → ℕ) → List CapId → ℕ
sum_of f [] = 0
sum_of f (x ∷ xs) = f x + sum_of f xs

-- The fuel: how many entries the loop takes off the stack for `id`, `depth` generations down.
unfoldable pub visits : ℕ → Table CapId (List CapId) → CapId → ℕ
visits zero children id = 1
visits (suc depth) children id = suc (sum_of (visits depth children) (children_of children id))

unfoldable pub revoke : CapId → Exec CkError CapRegistry (Unit {0})
unfolding revoke_loop visits sum_of mark children_of
revoke id r = elim (get r.caps id) [
  | none ↦ (err bad_cap, r)
  | some _ ↦
      let (_, caps) = revoke_loop (visits r.next_cap r.children id) r.children (id ∷ []) r.caps in
      (ok tt, record r { caps = caps })
]

-- `!=` on `ObjectType`, which has one value
abbrev pub is_type : ObjectType → ObjectType → Bool
is_type corridor corridor = true

unfoldable pub authorize : CapId → ObjectType → Rights → CapRegistry → CkResult ObjectId
authorize id object_type rights r = elim (get r.caps id) [
  | none ↦ err bad_cap
  | some k ↦
      if k.is_revoked
      then err revoked
      else if not (is_type k.object_type object_type)
      then err invalid_object
      else if not (covers k.rights rights)
      then err no_right
      else ok k.object
]

unfoldable pub parent_of : CapRegistry → CapId → Option CapId
parent_of r id = elim (get r.caps id) [ none ↦ none | some k ↦ k.parent ]
