-- ===== src/Linux/Manifest/Sound.antt =====
-- crates/court-hosted-linux/src/manifest.rs: what a manifest and a policy that pass `validate` are.
use court_kernel.Prelude.{
  ◌≤◌, ◌<◌, ◌≡◌, sym, ap, ◌∙◌, inl, inr, true, false, not, String, List, [], Memᴰ, string_Key, ◌==◌,
  nat_eq, ltb, contains, ok, arith,
}
use court_kernel.Hosted.Rights
use court_kernel.Hosted.Rights.{Rights, covers}
use court_kernel.Linux.Manifest.{
  app, net, CourtManifest, CorridorManifest, ManifestFile, GrantPolicy, RevokePolicy, PolicyFile,
  Courts, check_courts, check_corridor, check_corridors, Grants, has_key, check_grants, for_each,
  check_revoke, validate_manifest, validate_policy, validate,
}
use court_kernel.Linux.Manifest.Declared.{
  names, paths_of, how_many, are_distinct, IsCorridorValid, check_courts-ok, check_corridors-ok,
}
use court_kernel.Linux.Manifest.Policy.{
  IsGrantValid, IsRevokeValid, IsGranted, GrantsOk, for_each-ok, check_grants-ok, check_revoke-ok,
}

-- What a manifest and a policy have to be.
pub record IsValid (m : ManifestFile) (p : PolicyFile) : Type 0 where
  pub one_app : how_many app m.courts ≡ 1
  pub some_net : 1 ≤ how_many net m.courts
  pub names_distinct : are_distinct (names m.courts) ≡ true
  pub paths_distinct : are_distinct (paths_of m.corridors) ≡ true
  pub corridors : (c : CorridorManifest) → Memᴰ c m.corridors → IsCorridorValid m.courts c
  pub grants :
      (g : GrantPolicy) → Memᴰ g p.grants → IsGrantValid (names m.courts) (paths_of m.corridors) g
  pub revokes :
      (r : RevokePolicy)
      → Memᴰ r p.revokes
      → IsRevokeValid (names m.courts) (paths_of m.corridors) p.grants r
  pub sends : IsGranted Rights.send p.grants
  pub recvs : IsGranted Rights.recv p.grants

abbrev start : Courts
start = record { names = []; apps = 0; nets = 0 }

validate_manifest-ok :
    (m : ManifestFile) (known paths : List String)
    → validate_manifest m ≡ ok (known, paths)
    → (s : Courts) × (check_courts m.courts start ≡ ok s)
      × (nat_eq s.apps 1 ≡ true)
      × (not (ltb s.nets 1) ≡ true)
      × (check_corridors s.names m.corridors [] ≡ ok paths)
      × (s.names ≡ known)
unfolding validate_manifest
validate_manifest-ok m known paths h = ground arith

validate_policy-ok :
    (p : PolicyFile) (courts paths : List String)
    → validate_policy p courts paths ≡ ok tt
    → (s : Grants) × (check_grants courts paths p.grants
          (record { keys = []; has_send = false; has_recv = false })
        ≡ ok s)
      × (s.has_send ≡ true)
      × (s.has_recv ≡ true)
      × (for_each (check_revoke courts paths s) p.revokes ≡ ok tt)
unfolding validate_policy
validate_policy-ok p courts paths h = ground arith

validate-parts :
    (m : ManifestFile) (p : PolicyFile)
    → validate m p ≡ ok tt
    → (known : List String) × (paths : List String) × (validate_manifest m ≡ ok (known, paths))
      × (validate_policy p known paths ≡ ok tt)
unfolding validate
validate-parts m p h = ground arith

check_corridor-ok :
    (known q : List String) (c : CorridorManifest)
    → check_corridor known q c ≡ ok tt
    → ((c.from == c.to) ≡ false)
      × (contains known c.from ≡ true)
      × (contains known c.to ≡ true)
      × (0 < c.capacity)
      × (0 < c.slot_size)
check_corridor-ok known q c h = ground arith

corridor-IsCorridorValid :
    (courts : List CourtManifest) (known q : List String) (c : CorridorManifest)
    → ((n : String) → contains known n ≡ contains (names courts) n)
    → check_corridor known q c ≡ ok tt
    → IsCorridorValid courts c
corridor-IsCorridorValid courts known q c same h =
    let (apart, a, b, capacity, slots) = check_corridor-ok known q c h in
    record {
      distinct = λ e. ground (arith, apart, string_Key.same_iff c.from c.to, e);
      from_known = sym (same c.from) ∙ a;
      to_known = sym (same c.to) ∙ b;
      has_capacity = capacity;
      has_slots = slots;
    }

-- Membership in the gathered sets is membership in the declared names and paths.
grant_over :
    (courts paths courts' paths' : List String) (g : GrantPolicy)
    → ((n : String) → contains courts n ≡ contains courts' n)
    → ((n : String) → contains paths n ≡ contains paths' n)
    → IsGrantValid courts paths g
    → IsGrantValid courts' paths' g
grant_over courts paths courts' paths' g a b v = record {
  court_known = sym (a g.court) ∙ v.court_known;
  path_known = sym (b g.path) ∙ v.path_known;
  parsed = v.parsed;
}

revoke_over :
    (courts paths courts' paths' : List String) (gs : List GrantPolicy) (r : RevokePolicy)
    → ((n : String) → contains courts n ≡ contains courts' n)
    → ((n : String) → contains paths n ≡ contains paths' n)
    → IsRevokeValid courts paths gs r
    → IsRevokeValid courts' paths' gs r
revoke_over courts paths courts' paths' gs r a b v = record {
  court_known = sym (a r.court) ∙ v.court_known;
  path_known = sym (b r.path) ∙ v.path_known;
  granted = v.granted;
  before = v.before;
}

keyed_only :
    (courts paths : List String) (gs : List GrantPolicy) (t : Grants)
    → GrantsOk courts paths gs (record { keys = []; has_send = false; has_recv = false }) t
    → (c p : String) → has_key t.keys c p ≡ true
    → (g : GrantPolicy) × Memᴰ g gs × (g.court ≡ c) × (g.path ≡ p)
unfolding has_key
keyed_only courts paths gs t v c p h = elim (v.keyed c p h) [
  | inl e ↦ absurd (ground arith)
  | inr x ↦ x
]

-- A manifest and a policy that pass `validate` are valid: there is exactly one app court and at
-- least one net court; names and paths are declared once; every corridor joins two different
-- declared courts and has a capacity and a slot size; every grant is to a declared court and path
-- and its rights parse; every revoke names a granted court and path and a phase before revoke;
-- some grant has the right to send, and some the right to receive.
pub validate-IsValid : (m : ManifestFile) (p : PolicyFile) → validate m p ≡ ok tt → IsValid m p
unfolding contains
validate-IsValid m p h =
    let (known, paths, of_m, of_p) = validate-parts m p h in
    let (s, courts, one, some_net, links, same) = validate_manifest-ok m known paths of_m in
    let (t, gathered, sends, recvs, revokes) = validate_policy-ok p known paths of_p in
    let c = check_courts-ok m.courts start s courts in
    let l = check_corridors-ok s.names m.corridors [] paths links in
    let g =
      check_grants-ok known paths p.grants
        (record { keys = []; has_send = false; has_recv = false }) t gathered in
    let apps = c.apps in
    let nets = c.nets in
    let is_name : (n : String) → contains s.names n ≡ contains (names m.courts) n = c.known in
    let is_known : (n : String) → contains known n ≡ contains (names m.courts) n =
      λ n. ap (λ x. contains x n) (sym same) ∙ is_name n in
    let is_path : (n : String) → contains paths n ≡ contains (paths_of m.corridors) n = l.seen in
    record {
      one_app = ground (arith, apps, one);
      some_net = ground (arith, nets, some_net);
      names_distinct = c.distinct;
      paths_distinct = l.distinct;
      corridors = λ x k.
          let (q, good) = l.all x k in corridor-IsCorridorValid m.courts s.names q x is_name good;
      grants = λ x k.
          grant_over known paths (names m.courts) (paths_of m.corridors) x is_known is_path
            (g.all x k);
      revokes = λ x k.
          revoke_over known paths (names m.courts) (paths_of m.corridors) p.grants x is_known
            is_path
            (check_revoke-ok known paths p.grants t x (keyed_only known paths p.grants t g)
              (for_each-ok (check_revoke known paths t) p.revokes revokes x k));
      sends = elim (g.sends sends) [ inl e ↦ absurd (ground arith) | inr x ↦ x ];
      recvs = elim (g.recvs recvs) [ inl e ↦ absurd (ground arith) | inr x ↦ x ];
    }
