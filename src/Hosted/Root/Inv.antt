-- ===== src/Hosted/Root/Inv.antt =====
-- crates/court-hosted/src/lib.rs: the well-formedness of `HostedRoot`, kept by every method.
use court_kernel.Prelude.{
  ℕ, ◌+◌, ◌%◌, ◌≤◌, ◌≡◌, refl, sym, ap, ◌⊎◌, inl, inr, true, String, none, some, List, [], ◌∷◌,
  length, length-append, Table, nat_Key, string_Key, nat_eq, get, insert, get-insert,
  get-insert_self, contains, add, contains-add, arith, if◌then◌else◌, Bool-cases, Option-cases,
}
use court_kernel.Hosted.Rights.{Rights, covers, covers_refl, covers_trans}
use court_kernel.Hosted.Types.{
  CourtId, CapId, ObjectId, Payload, Descriptor, TraceEvent, CorridorTransport, corridor, u64_mod,
}
use court_kernel.Hosted.Caps.{Capability, CapRegistry, mint_root, derive}
use court_kernel.Hosted.Caps.Forest.{
  IsForest, HasRoom, fresh, get-insert_fresh, get-insert_cases, empty-IsForest, mint_root-IsForest,
  with_derived-IsForest,
}
use court_kernel.Hosted.Caps.Revoke.{revoke-IsForest, revoke-shape, entry_back}
use court_kernel.Hosted.Caps.Walk.{shape}
use court_kernel.Hosted.Caps.Outcome.{next_id, root_entry, with_derived, MayDerive}
use court_kernel.Hosted.Root.{
  Corridor, HostedRoot, new, cspace_of, cspace_contains, corridor_rights, create_court,
  install_corridor, grant_corridor_cap, send, recv, revoke, fault_court,
}
use court_kernel.Hosted.Root.Outcome.{
  Quiet, send_outcome, recv_outcome, grant_outcome, revoke_outcome,
}

-- Each part of the state refers to things that exist: capabilities in a space to entries of the
-- registry, entries to corridors, root capabilities to entries of their own object. No entry has
-- a right that `create_corridor` does not mint, and no queue is longer than its capacity.
pub record Inv (s : HostedRoot) : Type 0 where
  pub registry : IsForest s.cap_registry
  pub held :
      (court : CourtId) (id : CapId)
      → cspace_contains s court id ≡ true
      → (k : Capability) × (get s.cap_registry.caps id ≡ some k)
  pub ceiling :
      (id : CapId) (k : Capability)
      → get s.cap_registry.caps id ≡ some k
      → covers corridor_rights k.rights ≡ true
  pub typed :
      (id : CapId) (k : Capability)
      → get s.cap_registry.caps id ≡ some k
      → (c : Corridor) × (get s.corridors k.object ≡ some c)
  pub minted :
      (object : ObjectId) (id : CapId)
      → get s.root_caps object ≡ some id
      → (k : Capability) × (get s.cap_registry.caps id ≡ some k) × (k.object ≡ object)
  pub within :
      (object : ObjectId) (c : Corridor)
      → get s.corridors object ≡ some c
      → length c.queue ≤ c.capacity

pub new-Inv : Inv new
unfolding get cspace_contains cspace_of contains
new-Inv = record {
  registry = empty-IsForest;
  held = λ court id h. absurd (ground arith);
  ceiling = λ id k h. absurd (ground arith);
  typed = λ id k h. absurd (ground arith);
  minted = λ o id h. absurd (ground arith);
  within = λ o c h. absurd (ground arith);
}

-- A change of the trace alone keeps the invariant.
pub Quiet-Inv : (s t : HostedRoot) → Quiet s t → Inv s → Inv t
unfolding cspace_contains cspace_of
Quiet-Inv s t q v = rw q (record {
  registry = v.registry;
  held = v.held;
  ceiling = v.ceiling;
  typed = v.typed;
  minted = v.minted;
  within = v.within;
})

-- Putting a corridor whose queue fits under a number keeps the invariant.
put_corridor-Inv :
    (s : HostedRoot) (object : ObjectId) (c : Corridor) (trace : List TraceEvent)
    → length c.queue ≤ c.capacity
    → Inv s
    → Inv (record s { corridors = insert s.corridors object c; trace = trace })
unfolding cspace_contains cspace_of
put_corridor-Inv s object c trace fits v = record {
  registry = v.registry;
  held = v.held;
  ceiling = v.ceiling;
  typed = λ id k e.
      let (c', f) = v.typed id k e in
      elim (Bool-cases (nat_eq object k.object)) [
        | inl at ↦ (c, ground (arith, get-insert s.corridors object k.object c))
        | inr off ↦ (c', ground (arith, get-insert s.corridors object k.object c))
      ];
  minted = v.minted;
  within = λ o c' e. ground (arith, v.within o c', get-insert s.corridors object o c);
}

pub send-Inv :
    (court : CourtId) (id : CapId) (payload : Payload) (s : HostedRoot)
    → Inv s
    → Inv (send court id payload s).1
send-Inv court id payload s v = elim (send_outcome s court id payload) [
  | inl (_, q) ↦ Quiet-Inv s _ q v
  | inr (_, x) ↦ rw x.after (
      put_corridor-Inv s x.object _ _
        (let r = x.room in omega (arith, length-append x.c.queue (payload ∷ []))) v)
]

pub recv-Inv : (court : CourtId) (id : CapId) (s : HostedRoot) → Inv s → Inv (recv court id s).1
recv-Inv court id s v = elim (recv_outcome s court id) [
  | inl (_, q) ↦ Quiet-Inv s _ q v
  | inr (payload, _, x) ↦ rw x.after (
      put_corridor-Inv s x.object _ _
        (omega (arith, ap length x.oldest, v.within x.object x.c x.may.connects)) v)
]

-- What a space holds after the entry of one court was replaced.
pub cspace_put :
    (s : HostedRoot) (c court : CourtId) (cs : List CapId) (id : CapId)
    → cspace_contains (record s { cspaces = insert s.cspaces c cs }) court id
      ≡ (if nat_eq c court then contains cs id else cspace_contains s court id)
unfolding cspace_contains cspace_of
cspace_put s c court cs id = ground (arith, get-insert s.cspaces c court cs)

pub create_court-Inv : (name : String) (s : HostedRoot) → Inv s → Inv (create_court name s).1
unfolding create_court cspace_contains cspace_of contains
create_court-Inv name s v = record {
  registry = v.registry;
  held = λ court id h.
      v.held court id (ground (arith, cspace_put s ((s.next_court + 1) % u64_mod) court [] id));
  ceiling = v.ceiling;
  typed = v.typed;
  minted = v.minted;
  within = v.within;
}

pub fault_court-Inv : (court : CourtId) (s : HostedRoot) → Inv s → Inv (fault_court court s).1
unfolding fault_court cspace_contains cspace_of
fault_court-Inv court s v = elim (Option-cases (get s.courts court)) [
  | inl e ↦ rw (e, fault_court) v
  | inr (c, e) ↦
      rw (e, fault_court)
        (record {
          registry = v.registry;
          held = v.held;
          ceiling = v.ceiling;
          typed = v.typed;
          minted = v.minted;
          within = v.within;
        })
]

-- A new entry under a number that is not in use, over a corridor that is there.
module _ (s : HostedRoot) (v : Inv s) (r : CapRegistry) (n : CapId) (k : Capability)
    (free : get s.cap_registry.caps n ≡ none) (forest : IsForest r)
    (added : r.caps ≡ insert s.cap_registry.caps n k)
    (low : covers corridor_rights k.rights ≡ true) where
  new_entry : get r.caps n ≡ some k
  new_entry = rw added (get-insert_self s.cap_registry.caps n k)

  old_entry :
      (id : CapId) (j : Capability) → get s.cap_registry.caps id ≡ some j → get r.caps id ≡ some j
  old_entry id j e = rw added (get-insert_fresh s.cap_registry.caps n id k j free e)

  which_entry :
      (id : CapId) (j : Capability)
      → get r.caps id ≡ some j
      → (k ≡ j) ⊎ (get s.cap_registry.caps id ≡ some j)
  which_entry id j e = elim (get-insert_cases s.cap_registry.caps n id k j (rw added at e)) [
    | inl (_, new) ↦ inl new
    | inr (_, old) ↦ inr old
  ]

  grown_ceiling :
      (id : CapId) (j : Capability)
      → get r.caps id ≡ some j
      → covers corridor_rights j.rights ≡ true
  grown_ceiling id j e = elim (which_entry id j e) [
    | inl new ↦ rw (← new) low
    | inr old ↦ v.ceiling id j old
  ]

abbrev fresh_corridor : CourtId → CourtId → ℕ → Corridor
fresh_corridor a b capacity = record { endpoints = (a, b); queue = []; capacity = capacity }

-- An insertion takes no key away.
insert-some :
    {V : Type 0} (m : Table ℕ V) (k j : ℕ) (v w : V)
    → get m j ≡ some w
    → (u : V) × (get (insert m k v) j ≡ some u)
insert-some m k j v w e = elim (Bool-cases (nat_eq k j)) [
  | inl at ↦ (v, ground (arith, get-insert m k j v))
  | inr off ↦ (w, ground (arith, get-insert m k j v))
]

pub install_corridor-Inv :
    (path : String) (a b : CourtId) (transport : CorridorTransport) (capacity : ℕ) (s : HostedRoot)
    → HasRoom s.cap_registry
    → Inv s
    → Inv (install_corridor path a b transport capacity s).1
unfolding install_corridor mint_root cspace_contains cspace_of
install_corridor-Inv path a b transport capacity s room v =
    let object : ObjectId = (s.next_object + 1) % u64_mod in
    let n : CapId = next_id s.cap_registry in
    let k = root_entry object corridor corridor_rights in
    let r = (mint_root object corridor corridor_rights s.cap_registry).1 in
    let free = fresh s.cap_registry v.registry n (omega arith) in
    let forest =
      mint_root-IsForest object corridor corridor_rights s.cap_registry room v.registry in
    record {
      registry = forest;
      held = λ court id h.
          let (j, e) = v.held court id h in
          (j, old_entry s v r n k free forest refl (covers_refl corridor_rights) id j e);
      ceiling = grown_ceiling s v r n k free forest refl (covers_refl corridor_rights);
      typed = λ id j e.
          elim (which_entry s v r n k free forest refl (covers_refl corridor_rights) id j e) [
            | inl new ↦
                (fresh_corridor a b capacity, rw (← new) (get-insert_self s.corridors object _))
            | inr old ↦
                let (c, f) = v.typed id j old in insert-some s.corridors object j.object _ c f
          ];
      minted = λ o id h. elim (get-insert_cases s.root_caps object o n id h) [
        | inl (at, new) ↦ (k, rw (← new) (get-insert_self s.cap_registry.caps n k), sym at)
        | inr (_, old) ↦
            let (j, e, f) = v.minted o id old in
            (j, old_entry s v r n k free forest refl (covers_refl corridor_rights) id j e, f)
      ];
      within = λ o c h.
          ground
            (arith, v.within o c, get-insert s.corridors object o (fresh_corridor a b capacity));
    }

-- The space of a court after a grant holds the new capability and what it held.
pub cspace_grant :
    (s : HostedRoot) (court c : CourtId) (n id : CapId)
    → cspace_contains
        (record s { cspaces = insert s.cspaces court (add (cspace_of s court) n) })
        c
        id
      ≡ true
    → ((court ≡ c) × (n ≡ id)) ⊎ (cspace_contains s c id ≡ true)
unfolding cspace_contains
cspace_grant s court c n id h = ground (
  arith,
  cspace_put s court c (add (cspace_of s court) n) id,
  contains-add (cspace_of s court) n id,
)

granted-Inv :
    (s : HostedRoot) (court : CourtId) (p : CapId) (k : Capability) (rights : Rights)
    (trace : List TraceEvent)
    → MayDerive s.cap_registry p rights k
    → HasRoom s.cap_registry
    → Inv s
    → Inv (record s {
      cap_registry = with_derived s.cap_registry p rights k;
      cspaces = insert s.cspaces court (add (cspace_of s court) (next_id s.cap_registry));
      trace = trace;
    })
unfolding cspace_contains cspace_of
granted-Inv s court p k rights trace may room v =
    let n : CapId = next_id s.cap_registry in
    let r : CapRegistry = with_derived s.cap_registry p rights k in
    let entry : Capability = derive k p rights in
    let free = fresh s.cap_registry v.registry n (omega arith) in
    let forest = with_derived-IsForest s.cap_registry v.registry room p rights k may in
    let low = covers_trans corridor_rights k.rights rights (v.ceiling p k may.found) may.within in
    record {
      registry = forest;
      held = λ c id h. elim (cspace_grant s court c n id h) [
        | inl (_, new) ↦ (entry, rw (← new) (get-insert_self s.cap_registry.caps n entry))
        | inr old ↦
            let (j, e) = v.held c id old in (j, old_entry s v r n entry free forest refl low id j e)
      ];
      ceiling = grown_ceiling s v r n entry free forest refl low;
      typed = λ id j e. elim (which_entry s v r n entry free forest refl low id j e) [
        | inl new ↦ rw (← new) (v.typed p k may.found)
        | inr old ↦ v.typed id j old
      ];
      minted = λ o id h.
          let (j, e, f) = v.minted o id h in
          (j, old_entry s v r n entry free forest refl low id j e, f);
      within = v.within;
    }

pub grant-Inv :
    (court : CourtId) (d : Descriptor) (rights : Rights) (s : HostedRoot)
    → HasRoom s.cap_registry
    → Inv s
    → Inv (grant_corridor_cap court d rights s).1
grant-Inv court d rights s room v = elim (grant_outcome s court d rights) [
  | inl (_, same) ↦ rw same v
  | inr (_, x) ↦ rw x.after (granted-Inv s court x.root_cap x.source rights _ x.may room v)
]

revoked-Inv :
    (s : HostedRoot) (r : CapRegistry) (trace : List TraceEvent)
    → IsForest r
    → ((id : CapId) → shape r.caps id ≡ shape s.cap_registry.caps id)
    → Inv s
    → Inv (record s { cap_registry = r; trace = trace })
unfolding cspace_contains cspace_of
revoked-Inv s r trace forest same v = record {
  registry = forest;
  held = λ court id h.
      let (k, e) = v.held court id h in
      let (j, f, _) = entry_back r.caps s.cap_registry.caps id k (sym (same id)) e in (j, f);
  ceiling = λ id j e.
      let (k, f, eq) = entry_back s.cap_registry.caps r.caps id j (same id) e in
      ground (arith, v.ceiling id k f);
  typed = λ id j e.
      let (k, f, eq) = entry_back s.cap_registry.caps r.caps id j (same id) e in
      let (c, g) = v.typed id k f in (c, ground (arith, g));
  minted = λ o id h.
      let (k, e, at) = v.minted o id h in
      let (j, f, eq) = entry_back r.caps s.cap_registry.caps id k (sym (same id)) e in
      (j, f, ground arith);
  within = v.within;
}

pub revoke-Inv : (id : CapId) (s : HostedRoot) → Inv s → Inv (revoke id s).1
revoke-Inv id s v = rw (revoke_outcome s id).1 (
    revoked-Inv s _ _ (revoke-IsForest id s.cap_registry v.registry)
      (revoke-shape id s.cap_registry) v)
