-- ===== src/Linux/Manifest/Policy.antt =====
-- crates/court-hosted-linux/src/manifest.rs: what the checks of the policy make sure of.
use court_kernel.Prelude.{
  ℕ, ◌<◌, ◌≡◌, refl, ◌⊎◌, inl, inr, Bool, true, false, not, ◌||◌, String, some, List, [], ◌∷◌, Memᴰ,
  string_Key, leb, contains, ok, err, arith, if◌then◌else◌, Bool-cases, Option-cases,
}
use court_kernel.Hosted.Rights
use court_kernel.Hosted.Rights.{Rights, covers}
use court_kernel.Linux.Manifest.{
  GrantPolicy, RevokePolicy, ManifestError, no_rights, unknown_court, unknown_path, no_such_grant,
  require_court, require_path, Checked, then_check, require, is_empty, phase_index,
  require_phase_before, parse_rights, Grants, has_key, check_grant, gather, check_grants, for_each,
  check_revoke,
}

-- A phase that comes strictly before another in the pipeline.
abbrev pub IsBefore : String → String → Type 0
IsBefore after action =
    (i : ℕ) × (j : ℕ) × (phase_index after ≡ some i) × (phase_index action ≡ some j) × (i < j)

abbrev done : Checked (Unit {0})
done = ok tt

not_late : (i j : ℕ) → (if leb j i then err ManifestError.late_phase else done) ≡ done → i < j
not_late i j h = ground arith

require_phase_before-ok :
    (after action : String) → require_phase_before after action ≡ ok tt → IsBefore after action
unfolding require_phase_before
require_phase_before-ok after action h = elim (Option-cases (phase_index after)) [
  | inl e ↦ absurd (unknown (rw (e, require_phase_before) at h))
  | inr (i, e) ↦ elim (Option-cases (phase_index action)) [
    | inl f ↦ absurd (unknown (rw (e, f, require_phase_before) at h))
    | inr (j, f) ↦ (i, j, e, f, not_late i j (rw (e, f, require_phase_before) at h))
  ]
]
  where
    unknown : ¬ (err ManifestError.unknown_phase ≡ done)
    unknown h = ground arith

pub then_check-ok :
    {A B : Type 0} (m : Checked A) (f : A → Checked B) (b : B)
    → then_check m f ≡ ok b
    → (a : A) × (m ≡ ok a) × (f a ≡ ok b)
then_check-ok (ok a) f b h = (a, refl, h)
then_check-ok (err e) f b h = absurd (ground arith)

pub require_then :
    {B : Type 0} (p : Bool) (e : ManifestError) (m : Checked B) (b : B)
    → then_check (require p e) (λ _. m) ≡ ok b
    → (p ≡ true) × (m ≡ ok b)
require_then true e m b h = (refl, h)
require_then false e m b h = absurd (ground arith)

-- The first two checks that each entry starts with.
known_court_path :
    {B : Type 0} (courts paths : List String) (c p : String) (m : Checked B) (b : B)
    → then_check (require_court courts c) (λ _. then_check (require_path paths p) (λ _. m)) ≡ ok b
    → (contains courts c ≡ true) × (contains paths p ≡ true) × (m ≡ ok b)
known_court_path courts paths c p m b h =
    let (k, rest) =
      require_then (contains courts c) unknown_court (then_check (require_path paths p) (λ _. m)) b
        h in
    let (l, last) = require_then (contains paths p) unknown_path m b rest in (k, l, last)

-- What each entry of a policy satisfies.
pub record IsGrantValid (courts paths : List String) (g : GrantPolicy) : Type 0 where
  pub court_known : contains courts g.court ≡ true
  pub path_known : contains paths g.path ≡ true
  pub parsed : (rights : Rights) × (parse_rights g.rights ≡ ok rights)

pub record IsRevokeValid (courts paths : List String) (grants : List GrantPolicy) (r : RevokePolicy)
    : Type 0 where
  pub court_known : contains courts r.court ≡ true
  pub path_known : contains paths r.path ≡ true
  pub granted : (g : GrantPolicy) × Memᴰ g grants × (g.court ≡ r.court) × (g.path ≡ r.path)
  pub before : IsBefore r.after "revoke"

-- Someone is granted a right.
abbrev pub IsGranted : Rights → List GrantPolicy → Type 0
IsGranted right grants =
    (g : GrantPolicy) × Memᴰ g grants
    × (rights : Rights) × (parse_rights g.rights ≡ ok rights)
    × (covers rights right ≡ true)

pub for_each-ok :
    {A : Type 0} (check : A → Checked (Unit {0})) (xs : List A)
    → for_each check xs ≡ ok tt
    → (x : A) → Memᴰ x xs
    → check x ≡ ok tt
unfolding for_each
for_each-ok check [] h x m = elim m [ ]
for_each-ok check (y ∷ ys) h x (Memᴰ.head e) = rw e (ground arith)
for_each-ok check (y ∷ ys) h x (Memᴰ.tail m) = for_each-ok check ys (ground arith) x m

check_grants-cons :
    (courts paths : List String) (g : GrantPolicy) (gs : List GrantPolicy) (s t : Grants)
    → check_grants courts paths (g ∷ gs) s ≡ ok t
    → (rights : Rights) × (contains courts g.court ≡ true)
      × (contains paths g.path ≡ true)
      × (parse_rights g.rights ≡ ok rights)
      × (check_grants courts paths gs (gather g rights s) ≡ ok t)
unfolding check_grants
check_grants-cons courts paths g gs s t h =
    let (rights, e, rest) =
      then_check-ok (check_grant courts paths g) (λ r. check_grants courts paths gs (gather g r s))
        t h in
    let (known, pathed, e') =
      known_court_path courts paths g.court g.path
        (then_check (require (not (is_empty g.rights)) no_rights) (λ _. parse_rights g.rights))
        rights e in
    let (_, parsed) =
      require_then (not (is_empty g.rights)) no_rights (parse_rights g.rights) rights e' in
    (rights, known, pathed, parsed, rest)

pub record GrantsOk (courts paths : List String) (gs : List GrantPolicy) (s t : Grants)
    : Type 0 where
  pub all : (g : GrantPolicy) → Memᴰ g gs → IsGrantValid courts paths g
  pub keyed :
      (c p : String)
      → has_key t.keys c p ≡ true
      → (has_key s.keys c p ≡ true) ⊎ ((g : GrantPolicy) × Memᴰ g gs × (g.court ≡ c) × (g.path ≡ p))
  pub sends : t.has_send ≡ true → (s.has_send ≡ true) ⊎ IsGranted Rights.send gs
  pub recvs : t.has_recv ≡ true → (s.has_recv ≡ true) ⊎ IsGranted Rights.recv gs

head_grant :
    (g : GrantPolicy) (gs : List GrantPolicy) (right rights : Rights)
    → parse_rights g.rights ≡ ok rights
    → (before : Bool) → (covers rights right || before) ≡ true
    → (before ≡ true) ⊎ IsGranted right (g ∷ gs)
head_grant g gs right rights e before h = elim (Bool-cases before) [
  | inl b ↦ inl b
  | inr b ↦ inr (g, Memᴰ.head refl, rights, e, ground arith)
]

later_grant :
    (g : GrantPolicy) (gs : List GrantPolicy) (right : Rights)
    → IsGranted right gs
    → IsGranted right (g ∷ gs)
later_grant g gs right (x, m, rights, e, c) = (x, Memᴰ.tail m, rights, e, c)

has_key-cons :
    (a b : String) (keys : List (String × String)) (c p : String)
    → has_key ((a, b) ∷ keys) c p ≡ true
    → (has_key keys c p ≡ true) ⊎ ((a ≡ c) × (b ≡ p))
unfolding has_key
has_key-cons a b keys c p h = ground (arith, string_Key.same_iff a c, string_Key.same_iff b p)

pub check_grants-ok :
    (courts paths : List String) (gs : List GrantPolicy) (s t : Grants)
    → check_grants courts paths gs s ≡ ok t
    → GrantsOk courts paths gs s t
unfolding check_grants has_key
check_grants-ok courts paths [] s t h =
    let same : s ≡ t = ground arith in
    rw (← same) (record {
      all = λ g m. elim m [ ];
      keyed = λ c p k. inl k;
      sends = λ k. inl k;
      recvs = λ k. inl k;
    })
check_grants-ok courts paths (g ∷ gs) s t h =
    let (rights, known, pathed, parsed, rest) = check_grants-cons courts paths g gs s t h in
    let x = check_grants-ok courts paths gs (gather g rights s) t rest in
    record {
      all = λ y m. elim m [
        | Memᴰ.head e ↦
            rw e (record { court_known = known; path_known = pathed; parsed = (rights, parsed) })
        | Memᴰ.tail k ↦ x.all y k
      ];
      keyed = λ c p k. elim (x.keyed c p k) [
        | inl first ↦ elim (has_key-cons g.court g.path s.keys c p first) [
          | inl old ↦ inl old
          | inr (a, b) ↦ inr (g, Memᴰ.head refl, a, b)
        ]
        | inr (y, m, a, b) ↦ inr (y, Memᴰ.tail m, a, b)
      ];
      sends = λ k. elim (x.sends k) [
        | inl first ↦ head_grant g gs Rights.send rights parsed s.has_send first
        | inr later ↦ inr (later_grant g gs Rights.send later)
      ];
      recvs = λ k. elim (x.recvs k) [
        | inl first ↦ head_grant g gs Rights.recv rights parsed s.has_recv first
        | inr later ↦ inr (later_grant g gs Rights.recv later)
      ];
    }

pub check_revoke-ok :
    (courts paths : List String) (gs : List GrantPolicy) (t : Grants) (r : RevokePolicy)
    → ((c p : String)
        → has_key t.keys c p ≡ true
        → (g : GrantPolicy) × Memᴰ g gs × (g.court ≡ c) × (g.path ≡ p))
    → check_revoke courts paths t r ≡ ok tt
    → IsRevokeValid courts paths gs r
check_revoke-ok courts paths gs t r keyed h =
    let (known, pathed, e) =
      known_court_path courts paths r.court r.path
        (then_check (require (has_key t.keys r.court r.path) no_such_grant)
          (λ _. require_phase_before r.after "revoke"))
        tt h in
    let (key, e') =
      require_then (has_key t.keys r.court r.path) no_such_grant
        (require_phase_before r.after "revoke") tt e in
    record {
      court_known = known;
      path_known = pathed;
      granted = keyed r.court r.path key;
      before = require_phase_before-ok r.after "revoke" e';
    }
