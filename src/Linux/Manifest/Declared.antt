-- ===== src/Linux/Manifest/Declared.antt =====
-- crates/court-hosted-linux/src/manifest.rs: what the loops over the courts
-- and the corridors make sure of.
use court_kernel.Prelude.{
  ℕ, ◌+◌, ◌<◌, ◌≡◌, ◌≢◌, refl, ap, ◌∙◌, Bool, true, false, not, ◌&&◌, ◌||◌, String, List, [], ◌∷◌,
  Memᴰ, string_Key, contains, add, contains-add, ok, arith,
}
use court_kernel.Linux.Manifest.{
  CourtRole, app, net, CourtManifest, CorridorManifest, Courts, tally, check_courts, check_corridor,
  check_corridors,
}

-- The declared names and paths, in order.
abbrev pub names : List CourtManifest → List String
names [] = []
names (c ∷ cs) = c.name ∷ names cs

abbrev pub paths_of : List CorridorManifest → List String
paths_of [] = []
paths_of (c ∷ cs) = c.path ∷ paths_of cs

abbrev pub has_role : CourtRole → CourtRole → ℕ
has_role app app = 1
has_role net net = 1
has_role _ _ = 0

abbrev pub how_many : CourtRole → List CourtManifest → ℕ
how_many role [] = 0
how_many role (c ∷ cs) = has_role role c.role + how_many role cs

abbrev pub are_distinct : List String → Bool
are_distinct [] = true
are_distinct (x ∷ xs) = not (contains xs x) && are_distinct xs

tally_lem :
    (role : CourtRole) (name : String) (s : Courts)
    → ((tally role name s).apps ≡ s.apps + has_role app role)
      × ((tally role name s).nets ≡ s.nets + has_role net role)
      × ((tally role name s).names ≡ add s.names name)
tally_lem app name s = (omega arith, omega arith, refl)
tally_lem net name s = (omega arith, omega arith, refl)

pub record CourtsOk (cs : List CourtManifest) (s t : Courts) : Type 0 where
  pub apps : t.apps ≡ s.apps + how_many app cs
  pub nets : t.nets ≡ s.nets + how_many net cs
  pub known : (n : String) → contains t.names n ≡ (contains s.names n || contains (names cs) n)
  pub new : (n : String) → contains s.names n ≡ true → contains (names cs) n ≡ false
  pub distinct : are_distinct (names cs) ≡ true

check_courts-cons :
    (c : CourtManifest) (cs : List CourtManifest) (s t : Courts)
    → check_courts (c ∷ cs) s ≡ ok t
    → (contains s.names c.name ≡ false) × (check_courts cs (tally c.role c.name s) ≡ ok t)
unfolding check_courts
check_courts-cons c cs s t h = ground arith

or_false : (b : Bool) → b ≡ (b || false)
or_false true = refl
or_false false = refl

pub check_courts-ok :
    (cs : List CourtManifest) (s t : Courts) → check_courts cs s ≡ ok t → CourtsOk cs s t
unfolding check_courts contains
check_courts-ok [] s t h =
    let same : s ≡ t = ground arith in
    rw (← same) (record {
      apps = omega arith;
      nets = omega arith;
      known = λ n. or_false (contains s.names n);
      new = λ n _. refl;
      distinct = refl;
    })
check_courts-ok (c ∷ cs) s t h =
    let (fresh, g) = check_courts-cons c cs s t h in
    let rest = check_courts-ok cs (tally c.role c.name s) t g in
    let (a, b, e) = tally_lem c.role c.name s in
    let apps = rest.apps in
    let nets = rest.nets in
    let same = λ (n : String). ap (λ l. contains l n) e ∙ contains-add s.names c.name n in
    record {
      apps = omega arith;
      nets = omega arith;
      known = λ n. ground (arith, rest.known n, same n);
      new = λ n held. ground (arith, rest.new n, same n, string_Key.same_iff c.name n);
      distinct =
          ground
            (arith, rest.new c.name, same c.name, rest.distinct, string_Key.same_iff c.name c.name);
    }

-- What a corridor that is declared satisfies.
pub record IsCorridorValid (courts : List CourtManifest) (c : CorridorManifest) : Type 0 where
  pub distinct : c.from ≢ c.to
  pub from_known : contains (names courts) c.from ≡ true
  pub to_known : contains (names courts) c.to ≡ true
  pub has_capacity : 0 < c.capacity
  pub has_slots : 0 < c.slot_size

pub record CorridorsOk (known : List String) (cs : List CorridorManifest)
    (before after : List String) : Type 0 where
  pub all :
      (c : CorridorManifest) → Memᴰ c cs → (q : List String) × (check_corridor known q c ≡ ok tt)
  pub seen : (n : String) → contains after n ≡ (contains before n || contains (paths_of cs) n)
  pub new : (n : String) → contains before n ≡ true → contains (paths_of cs) n ≡ false
  pub distinct : are_distinct (paths_of cs) ≡ true

check_corridors-cons :
    (known : List String) (c : CorridorManifest) (cs : List CorridorManifest) (p q : List String)
    → check_corridors known (c ∷ cs) p ≡ ok q
    → (check_corridor known p c ≡ ok tt)
      × (contains p c.path ≡ false)
      × (check_corridors known cs (add p c.path) ≡ ok q)
unfolding check_corridors
check_corridors-cons known c cs p q h = ground arith

pub check_corridors-ok :
    (known : List String) (cs : List CorridorManifest) (p q : List String)
    → check_corridors known cs p ≡ ok q
    → CorridorsOk known cs p q
unfolding check_corridors contains
check_corridors-ok known [] p q h =
    let same : p ≡ q = ground arith in
    rw (← same) (record {
      all = λ c m. elim m [ ];
      seen = λ n. or_false (contains p n);
      new = λ n _. refl;
      distinct = refl;
    })
check_corridors-ok known (c ∷ cs) p q h =
    let (good, fresh, g) = check_corridors-cons known c cs p q h in
    let rest = check_corridors-ok known cs (add p c.path) q g in
    let same = λ (n : String). contains-add p c.path n in
    record {
      all = λ x m. elim m [ Memᴰ.head e ↦ (p, rw e good) | Memᴰ.tail k ↦ rest.all x k ];
      seen = λ n. ground (arith, rest.seen n, same n);
      new = λ n held. ground (arith, rest.new n, same n, string_Key.same_iff c.path n);
      distinct =
          ground
            (arith, rest.new c.path, same c.path, rest.distinct, string_Key.same_iff c.path c.path);
    }
