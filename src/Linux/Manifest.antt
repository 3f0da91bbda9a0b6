-- ===== src/Linux/Manifest.antt =====
-- crates/court-hosted-linux/src/manifest.rs: the manifest and the policy, and their validation. The
-- messages of the errors are constructors, without the names that they quote. Reading the files
-- and their JSON is left out.
pub mod Declared
pub mod Policy
pub mod Sound
use text.Mathlib.Text.{starts_with}
use court_kernel.Prelude.{
  ℕ, zero, suc, ◌+◌, ◌≡◌, ◌↔◌, Bool, true, false, not, ◌&&◌, ◌||◌, String, Option, none, some, List,
  [], ◌∷◌, Key, string_Key, ◌==◌, nat_eq, leb, ltb, contains, add, Result, ok, err, arith,
  if◌then◌else◌,
}
use court_kernel.Hosted.Rights
use court_kernel.Hosted.Rights.{Rights, covers}

pub data CourtRole : Type 0 where
  app net : CourtRole

pub record CourtManifest : Type 0 where
  pub name : String
  pub role : CourtRole

pub record CorridorManifest : Type 0 where
  pub path : String
  pub from : String
  pub to : String
  pub capacity : ℕ
  pub slot_size : ℕ

pub record ManifestFile : Type 0 where
  pub version : ℕ
  pub courts : List CourtManifest
  pub corridors : List CorridorManifest
  pub packet_payload : String

pub record GrantPolicy : Type 0 where
  pub court : String
  pub path : String
  pub rights : List String

pub record RevokePolicy : Type 0 where
  pub court : String
  pub path : String
  pub after : String

pub record FaultPolicy : Type 0 where
  pub court : String
  pub after : String
  pub reason : String

pub record PeerDownPolicy : Type 0 where
  pub court : String
  pub path : String
  pub after : String

pub record PolicyFile : Type 0 where
  pub version : ℕ
  pub grants : List GrantPolicy
  pub revokes : List RevokePolicy
  pub faults : List FaultPolicy
  pub peer_down : List PeerDownPolicy

pub data ManifestError : Type 0 where
  bad_version no_payload unnamed_court duplicate_court app_count net_count no_corridor :
      ManifestError
  bad_path duplicate_path same_endpoints missing_from missing_to no_capacity no_slot_size :
      ManifestError
  no_grant no_rights unknown_right no_send no_recv no_such_grant no_reason : ManifestError
  unknown_court unknown_path unknown_phase late_phase : ManifestError

abbrev pub Checked : Type 0 → Type 0
Checked A = Result ManifestError A

-- `?` on a check, and an early return
abbrev pub then_check : {A B : Type 0} → Checked A → (A → Checked B) → Checked B
then_check (ok a) f = f a
then_check (err e) f = err e

abbrev pub require : Bool → ManifestError → Checked (Unit {0})
require true e = ok tt
require false e = err e

abbrev pub is_empty {ℓ} : {A : Type ℓ} → List A → Bool
is_empty [] = true
is_empty (x ∷ xs) = false

abbrev pub schema_version : ℕ
schema_version = 1

abbrev pub phase_order : List String
phase_order =
    "lookup" ∷ "open_denied" ∷ "grant" ∷ "open" ∷ "send" ∷ "recv" ∷ "revoke" ∷ "send_after_revoke"
    ∷ "fault" ∷ "court_fault" ∷ "peer_down" ∷ "demo_done" ∷ []

unfoldable pub position : List String → String → Option ℕ
position [] name = none
position (phase ∷ phases) name =
    let later : Option ℕ = elim (position phases name) [ none ↦ none | some i ↦ some (suc i) ] in
    if phase == name then some 0 else later

abbrev pub phase_index : String → Option ℕ
phase_index name = position phase_order name

unfoldable pub require_phase_before : String → String → Checked (Unit {0})
unfolding position
require_phase_before after action = elim (phase_index after) [
  | none ↦ err unknown_phase
  | some i ↦ elim (phase_index action) [
    | none ↦ err unknown_phase
    | some j ↦ if leb j i then err late_phase else ok tt
  ]
]

abbrev pub require_schema : ℕ → Checked (Unit {0})
require_schema version = require (nat_eq version schema_version) bad_version

abbrev pub require_court : List String → String → Checked (Unit {0})
require_court courts court = require (contains courts court) unknown_court

abbrev pub require_path : List String → String → Checked (Unit {0})
require_path paths path = require (contains paths path) unknown_path

unfoldable pub right_of : String → Option Rights
right_of value =
    if value == "read"
    then some Rights.read
    else if value == "write"
    then some Rights.write
    else if value == "send"
    then some Rights.send
    else if value == "recv"
    then some Rights.recv
    else if value == "delegate"
    then some Rights.delegate
    else if value == "revoke"
    then some Rights.revoke
    else if value == "observe"
    then some Rights.observe
    else none

unfoldable pub parse_from : Rights → List String → Checked Rights
unfolding right_of
parse_from rights [] = ok rights
parse_from rights (value ∷ values) = elim (right_of value) [
  | none ↦ err unknown_right
  | some right ↦ parse_from (Rights.union rights right) values
]

abbrev pub parse_rights : List String → Checked Rights
parse_rights values = parse_from Rights.none values

-- what the loop over the courts gathers
pub record Courts : Type 0 where
  pub names : List String
  pub apps : ℕ
  pub nets : ℕ

abbrev pub tally : CourtRole → String → Courts → Courts
tally app name s = record { names = add s.names name; apps = s.apps + 1; nets = s.nets }
tally net name s = record { names = add s.names name; apps = s.apps; nets = s.nets + 1 }

unfoldable pub check_courts : List CourtManifest → Courts → Checked Courts
check_courts [] s = ok s
check_courts (c ∷ cs) s =
    let rest = check_courts cs (tally c.role c.name s) in
    if c.name == ""
    then err unnamed_court
    else if contains s.names c.name
    then err duplicate_court
    else rest

abbrev pub check_corridor : List String → List String → CorridorManifest → Checked (Unit {0})
check_corridor courts paths c =
    if not (starts_with c.path "/court/") || c.path == "/court/"
    then err bad_path
    else if contains paths c.path
    then err duplicate_path
    else if c.from == c.to
    then err same_endpoints
    else if not (contains courts c.from)
    then err missing_from
    else if not (contains courts c.to)
    then err missing_to
    else if nat_eq c.capacity 0
    then err no_capacity
    else if nat_eq c.slot_size 0
    then err no_slot_size
    else ok tt

unfoldable pub check_corridors :
    List String → List CorridorManifest → List String → Checked (List String)
check_corridors courts [] paths = ok paths
check_corridors courts (c ∷ cs) paths =
    let rest = check_corridors courts cs (add paths c.path) in
    then_check (check_corridor courts paths c) (λ _. rest)

-- what the loop over the grants gathers
pub record Grants : Type 0 where
  pub keys : List (String × String)
  pub has_send : Bool
  pub has_recv : Bool

unfoldable pub has_key : List (String × String) → String → String → Bool
has_key [] court path = false
has_key ((c, p) ∷ keys) court path = c == court && p == path || has_key keys court path

abbrev pub check_grant : List String → List String → GrantPolicy → Checked Rights
check_grant courts paths g = then_check (require_court courts g.court) (λ _.
    then_check (require_path paths g.path)
      (λ _. then_check (require (not (is_empty g.rights)) no_rights) (λ _. parse_rights g.rights)))

abbrev pub gather : GrantPolicy → Rights → Grants → Grants
gather g rights s = record {
  keys = (g.court, g.path) ∷ s.keys;
  has_send = covers rights Rights.send || s.has_send;
  has_recv = covers rights Rights.recv || s.has_recv;
}

unfoldable pub check_grants : List String → List String → List GrantPolicy → Grants → Checked Grants
check_grants courts paths [] s = ok s
check_grants courts paths (g ∷ gs) s =
    then_check (check_grant courts paths g)
      (λ rights. check_grants courts paths gs (gather g rights s))

-- a loop whose body only checks
unfoldable pub for_each : {A : Type 0} → (A → Checked (Unit {0})) → List A → Checked (Unit {0})
for_each check [] = ok tt
for_each check (x ∷ xs) = let rest = for_each check xs in then_check (check x) (λ _. rest)

abbrev pub check_revoke : List String → List String → Grants → RevokePolicy → Checked (Unit {0})
check_revoke courts paths grants r = then_check (require_court courts r.court) (λ _.
    then_check (require_path paths r.path) (λ _.
      then_check (require (has_key grants.keys r.court r.path) no_such_grant)
        (λ _. require_phase_before r.after "revoke")))

abbrev pub check_fault : List String → FaultPolicy → Checked (Unit {0})
check_fault courts f = then_check (require_court courts f.court) (λ _.
    then_check (require (not (f.reason == "")) no_reason)
      (λ _. require_phase_before f.after "fault"))

abbrev pub check_peer_down : List String → List String → PeerDownPolicy → Checked (Unit {0})
check_peer_down courts paths p =
    then_check (require_court courts p.court)
      (λ _. then_check (require_path paths p.path) (λ _. require_phase_before p.after "peer_down"))

-- the part of `validate` over the manifest: the names of the courts and the paths
unfoldable pub validate_manifest : ManifestFile → Checked (List String × List String)
unfolding check_courts check_corridors
validate_manifest m = then_check (require (not (m.packet_payload == "")) no_payload) (λ _.
    then_check (check_courts m.courts (record { names = []; apps = 0; nets = 0 })) (λ s.
      then_check (require (nat_eq s.apps 1) app_count) (λ _.
        then_check (require (not (ltb s.nets 1)) net_count) (λ _.
          then_check (require (not (is_empty m.corridors)) no_corridor) (λ _.
            then_check (check_corridors s.names m.corridors []) (λ paths. ok (s.names, paths)))))))

-- the part over the policy
unfoldable pub validate_policy : PolicyFile → List String → List String → Checked (Unit {0})
unfolding check_grants for_each
validate_policy p courts paths = then_check (require (not (is_empty p.grants)) no_grant) (λ _.
    then_check
      (check_grants courts paths p.grants
        (record { keys = []; has_send = false; has_recv = false }))
      (λ s. then_check (require s.has_send no_send) (λ _.
        then_check (require s.has_recv no_recv) (λ _.
          then_check (for_each (check_revoke courts paths s) p.revokes) (λ _.
            then_check (for_each (check_fault courts) p.faults)
              (λ _. for_each (check_peer_down courts paths) p.peer_down))))))

unfoldable pub validate : ManifestFile → PolicyFile → Checked (Unit {0})
unfolding validate_manifest validate_policy
validate m p = then_check (require_schema m.version) (λ _.
    then_check (require_schema p.version)
      (λ _. then_check (validate_manifest m) (λ known. validate_policy p known.0 known.1)))
