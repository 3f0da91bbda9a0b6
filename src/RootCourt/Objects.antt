-- ===== src/RootCourt/Objects.antt =====
-- crates/root-court/src/object.rs: `RootCourt`, the object model for bring-up, in tables of fixed
-- length. The messages of its errors are constructors.
pub mod Slots
pub mod Caps
use court_kernel.Prelude.{
  ℕ, suc, ◌+◌, ◌%◌, Bool, true, false, ◌||◌, Option, none, some, List, [], ◌∷◌, replicate, String,
  string_Key, ◌==◌, nat_eq, Result, ok, err, Exec, pure, lift, ◌>>=◌, ◌>>◌, if◌then◌else◌,
}
use court_kernel.Hosted.Types.{u64_mod}

abbrev pub max_courts : ℕ
max_courts = 8

abbrev pub max_caps : ℕ
max_caps = 16

abbrev pub max_bindings : ℕ
max_bindings = 16

abbrev pub right_send : ℕ
right_send = 1

abbrev pub right_recv : ℕ
right_recv = 2

pub data Full : Type 0 where
  court_table_full namespace_full cspace_full no_such_cap : Full

pub record Court : Type 0 where
  pub id : ℕ
  pub name : String

pub record Cap : Type 0 where
  pub id : ℕ
  pub object : ℕ
  pub rights : ℕ

pub record Binding : Type 0 where
  pub path : String
  pub object : ℕ

pub record RootCourt : Type 0 where
  pub next_court : ℕ
  pub next_cap : ℕ
  pub next_object : ℕ
  pub courts : List (Option Court)
  pub caps : List (Option Cap)
  pub bindings : List (Option Binding)

abbrev pub new : RootCourt
new = record {
  next_court = 0;
  next_cap = 0;
  next_object = 0;
  courts = replicate max_courts none;
  caps = replicate max_caps none;
  bindings = replicate max_bindings none;
}

-- `iter_mut().find(|slot| slot.is_none())` and the write to the slot that it finds
unfoldable pub fill : {A : Type 0} → List (Option A) → A → Option (List (Option A))
fill [] a = none
fill (none ∷ slots) a = some (some a ∷ slots)
fill (some b ∷ slots) a = elim (fill slots a) [ none ↦ none | some rest ↦ some (some b ∷ rest) ]

-- `iter().filter(|slot| slot.is_some()).count()`
unfoldable pub count : {A : Type 0} → List (Option A) → ℕ
count [] = 0
count (none ∷ slots) = count slots
count (some a ∷ slots) = suc (count slots)

unfoldable pub create_court : String → Exec Full RootCourt ℕ
unfolding fill
create_court name s =
    let id = (s.next_court + 1) % u64_mod in
    elim (fill s.courts (record { id = id; name = name })) [
      | none ↦ (err court_table_full, s)
      | some courts ↦ (ok id, record s { next_court = id; courts = courts })
    ]

abbrev pub alloc_object : Exec Full RootCourt ℕ
alloc_object s =
    let object = (s.next_object + 1) % u64_mod in (ok object, record s { next_object = object })

unfoldable pub bind : String → ℕ → Exec Full RootCourt (Unit {0})
unfolding fill
bind path object s = elim (fill s.bindings (record { path = path; object = object })) [
  | none ↦ (err namespace_full, s)
  | some bindings ↦ (ok tt, record s { bindings = bindings })
]

-- `mint`, and `mint_cap`, which calls it
unfoldable pub mint : ℕ → ℕ → Exec Full RootCourt ℕ
unfolding fill
mint object rights s =
    let id = (s.next_cap + 1) % u64_mod in
    elim (fill s.caps (record { id = id; object = object; rights = rights })) [
      | none ↦ (err cspace_full, s)
      | some caps ↦ (ok id, record s { next_cap = id; caps = caps })
    ]

unfoldable pub bootstrap : Exec Full RootCourt (Unit {0})
unfolding create_court bind mint
bootstrap = do create_court "root"; ns ← alloc_object; bind "/court/root" ns; mint ns 64; pure tt

unfoldable pub spawn_court : String → String → Exec Full RootCourt (ℕ × ℕ)
unfolding create_court bind
spawn_court name path = do
  court ← create_court name
  object ← alloc_object
  bind path object
  pure (court, object)

-- the loop of `revoke_cap`: the first capability of that number loses its rights
unfoldable pub clear : List (Option Cap) → ℕ → Option (List (Option Cap))
clear [] id = none
clear (none ∷ slots) id = elim (clear slots id) [ none ↦ none | some rest ↦ some (none ∷ rest) ]
clear (some c ∷ slots) id =
    let later : Option (List (Option Cap)) = elim (clear slots id) [
      | none ↦ none
      | some rest ↦ some (some c ∷ rest)
    ] in
    if nat_eq c.id id then some (some (record c { rights = 0 }) ∷ slots) else later

unfoldable pub revoke_cap : ℕ → Exec Full RootCourt (Unit {0})
unfolding clear
revoke_cap id s = elim (clear s.caps id) [
  | none ↦ (err no_such_cap, s)
  | some caps ↦ (ok tt, record s { caps = caps })
]

unfoldable pub rights_in : List (Option Cap) → ℕ → Option ℕ
rights_in [] id = none
rights_in (none ∷ slots) id = rights_in slots id
rights_in (some c ∷ slots) id = if nat_eq c.id id then some c.rights else rights_in slots id

abbrev pub cap_rights : RootCourt → ℕ → Option ℕ
cap_rights s id = rights_in s.caps id

unfoldable pub is_bound : List (Option Binding) → String → Bool
is_bound [] path = false
is_bound (none ∷ slots) path = is_bound slots path
is_bound (some b ∷ slots) path = b.path == path || is_bound slots path

abbrev pub lookup : RootCourt → String → Bool
lookup s path = is_bound s.bindings path
