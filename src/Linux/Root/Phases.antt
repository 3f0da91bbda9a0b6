-- ===== src/Linux/Root/Phases.antt =====
-- crates/court-hosted-linux/src/root.rs: how many calls of `HostedRoot` the phases and the demo make.
use court_kernel.Prelude.{
  ℕ, ◌+◌, ◌*◌, ◌≡◌, refl, String, Option, List, [], ◌∷◌, length, Table, ok, Result-cases, inl, inr,
  arith,
}
use court_kernel.Hosted.Types.{CourtId, CapId, shared_ring}
use court_kernel.Hosted.Root.{create_corridor, revoke, fault_court}
use court_kernel.Hosted.Root.Run.{creates_court, creates_corridor, revokes, faults, step, run}
use court_kernel.Linux.Protocol.{WireMessage}
use court_kernel.Linux.ShmRing.{create}
use court_kernel.Linux.Manifest.{
  CourtManifest, CorridorManifest, PolicyFile, GrantPolicy, parse_rights, RevokePolicy, FaultPolicy,
  PeerDownPolicy, validate,
}
use court_kernel.Linux.Root.{Std, RootConfig, on_root, Peer}
use court_kernel.Linux.Root.Setup.{
  build_court, build_ring, build_corridor, made, first_path, build_state, find_app_court,
  find_recv_grant_court, ResolvedGrant, parsed, resolve,
}
use court_kernel.Linux.Root.Demo.{
  run_revoke, expect_child_exit, run_fault, on_demo_done, run_peer_down, expect_children, run_grant,
  run_phases, checked, demo_steps,
}
use court_kernel.Linux.Root.Calls.{
  Effect, bind, next, within, reads_only, gets_only, lifts, returns, raises, branches, cases, given,
  calls_root, modifies,
}
use court_kernel.Linux.Root.Effects.{
  connected-Effect, court_id_of-Effect, lookup-Effect, record_trace-Effect, transmit-Effect,
  receive-Effect, record_trace_from-Effect, for_all-Effect,
  handle_app_lookup_and_denied_open-Effect, handle_grant_and_open-Effect,
}

pub revoke-Effect : (id : CapId) → Effect 1 (on_root (revoke id))
unfolding step
revoke-Effect id = calls_root _ (revokes id) (λ s. refl)

fault_court-Effect : (id : CourtId) → Effect 1 (on_root (fault_court id))
unfolding step
fault_court-Effect id = calls_root _ (faults id) (λ s. refl)

build_court-Effect : (c : CourtManifest) → Effect 1 (build_court c)
unfolding build_court step run
build_court-Effect c = record {
  makes = λ w. record { calls = creates_court c.name ∷ []; reached = refl; few = omega arith };
}

build_ring-Effect :
    (std : Std) (dir : String) (c : CorridorManifest) → Effect 0 (build_ring std dir c)
unfolding build_ring
build_ring-Effect std dir c =
    bind (lifts (made (create c.capacity c.slot_size))) (λ ring. modifies _ (λ w. refl))

create_corridor-Effect :
    (c : CorridorManifest) (a b : CourtId)
    → Effect 1 (on_root (create_corridor c.path a b shared_ring c.capacity))
unfolding step
create_corridor-Effect c a b =
    calls_root _ (creates_corridor c.path a b shared_ring c.capacity) (λ s. refl)

build_corridor-Effect :
    (std : Std) (dir : String) (c : CorridorManifest) → Effect 2 (build_corridor std dir c)
unfolding build_corridor
build_corridor-Effect std dir c = bind (reads_only _) (λ a. bind (reads_only _) (λ b.
    next (create_corridor-Effect c a b) (
      bind (lookup-Effect a c.path)
        (λ d. next (modifies _ (λ w. refl)) (build_ring-Effect std dir c)))))

-- the calls of `build_state`
abbrev pub setup_calls : RootConfig → ℕ
setup_calls config = length config.manifest.courts + 2 * length config.manifest.corridors

pub build_state-Effect :
    (std : Std) (config : RootConfig) → Effect (setup_calls config) (build_state std config)
unfolding build_state
build_state-Effect std config = within (omega arith) (
    next (for_all-Effect 1 build_court build_court-Effect config.manifest.courts) (
      next
        (for_all-Effect 2 (build_corridor std config.run_dir)
          (build_corridor-Effect std config.run_dir) config.manifest.corridors)
        (bind (lifts (first_path config.manifest.corridors)) (λ path. modifies _ (λ w. refl)))))

pub run_revoke-Effect : (r : RevokePolicy) → Effect 1 (run_revoke r)
unfolding run_revoke
run_revoke-Effect r = bind (reads_only _) (λ held. next (revoke-Effect held.0) (
    next (record_trace-Effect _)
      (next (transmit-Effect r.court _) (record_trace_from-Effect r.court))))

expect_child_exit-Effect : (court : String) (code : ℕ) → Effect 0 (expect_child_exit court code)
unfolding expect_child_exit
expect_child_exit-Effect court code = bind (reads_only _) (λ status. lifts _)

pub run_fault-Effect : (f : FaultPolicy) → Effect 1 (run_fault f)
unfolding run_fault
run_fault-Effect f = next (transmit-Effect f.court _) (
    next (record_trace_from-Effect f.court) (
      next (expect_child_exit-Effect f.court 42) (
        next (modifies _ (λ w. refl)) (
          bind (court_id_of-Effect f.court) (λ id.
            next (fault_court-Effect id) (bind (gets_only _) (λ path. record_trace-Effect _)))))))

on_demo_done-Effect : (court : String) (m : WireMessage) → Effect 0 (on_demo_done court m)
unfolding on_demo_done
on_demo_done-Effect court (WireMessage.demo_done c st) =
    branches _ (record_trace-Effect _) (raises _)
on_demo_done-Effect court other = raises _

pub run_peer_down-Effect : (p : PeerDownPolicy) → Effect 0 (run_peer_down p)
unfolding run_peer_down
run_peer_down-Effect p = next (transmit-Effect p.court _) (
    next (record_trace-Effect _) (
      next (record_trace_from-Effect p.court)
        (bind (receive-Effect p.court) (on_demo_done-Effect p.court))))

pub expect_children-Effect : (cs : Table String (Option ℕ)) → Effect 0 (expect_children cs)
unfolding expect_children
expect_children-Effect [] = returns tt
expect_children-Effect ((court, code) ∷ more) =
    next
      (bind {A = Option Peer} {k = 0} (gets_only _)
        (λ peer. cases peer (returns tt) (λ _. expect_child_exit-Effect court 0)))
      (expect_children-Effect more)

pub run_grant-Effect : (std : Std) (g : ResolvedGrant) → Effect 2 (run_grant std g)
unfolding run_grant
run_grant-Effect std g =
    next (connected-Effect g.court)
      (next (handle_grant_and_open-Effect std g.court g.path g.rights) (returns tt))

-- One resolved grant for each grant of the policy.
pub resolve-length :
    (gs : List GrantPolicy) (rs : List ResolvedGrant) → resolve gs ≡ ok rs → length rs ≡ length gs
unfolding resolve
resolve-length [] rs h = ground arith
resolve-length (g ∷ gs) rs h = elim (Result-cases (parsed (parse_rights g.rights))) [
  | inl (e, p) ↦ ground arith
  | inr (r, p) ↦ elim (Result-cases (resolve gs)) [
    | inl (e, q) ↦ ground arith
    | inr (rest, q) ↦ let ih = resolve-length gs rest q in ground arith
  ]
]

-- the calls of `run_manifest_demo` after `build_state`
abbrev pub phase_calls : PolicyFile → ℕ
phase_calls p = 2 + 2 * length p.grants + length p.revokes + length p.faults

pub find_app_court-Effect : (std : Std) → Effect 0 (find_app_court std)
unfolding find_app_court
find_app_court-Effect std = reads_only _

pub find_recv_grant_court-Effect : (std : Std) → Effect 0 (find_recv_grant_court std)
unfolding find_recv_grant_court
find_recv_grant_court-Effect std = reads_only _

pub run_phases-Effect :
    (std : Std) (app : String) (p : PolicyFile) → Effect (phase_calls p) (run_phases std app p)
unfolding run_phases
run_phases-Effect std app p = within (omega arith) (
    next (connected-Effect app) (
      next (handle_app_lookup_and_denied_open-Effect app) (
        given {n = 2 * length p.grants + length p.revokes + length p.faults} (resolve p.grants)
          (λ gs h. within (omega (arith, resolve-length p.grants gs h)) (
            next (for_all-Effect 2 (run_grant std) (run_grant-Effect std) gs) (
              next (record_trace_from-Effect app) (
                bind (find_recv_grant_court-Effect std) (λ c. next (record_trace_from-Effect c) (
                  next (for_all-Effect 1 run_revoke run_revoke-Effect p.revokes) (
                    next (for_all-Effect 1 run_fault run_fault-Effect p.faults) (
                      next (for_all-Effect 0 run_peer_down run_peer_down-Effect p.peer_down)
                        (bind (gets_only _) (λ cs. expect_children-Effect cs)))))))))))))

-- the calls of the whole demo
abbrev pub demo_calls : RootConfig → ℕ
demo_calls config = setup_calls config + phase_calls config.policy

pub demo_steps-Effect :
    (std : Std) (config : RootConfig) (connections : List Peer) (count : ℕ)
    → Effect (demo_calls config) (demo_steps std config connections count)
unfolding demo_steps
demo_steps-Effect std config connections count = within (omega arith) (
    next (lifts (checked (validate config.manifest config.policy))) (
      next (build_state-Effect std config) (
        bind (gets_only _) (λ path. next (record_trace-Effect _) (
          bind (reads_only _) (λ ps. next (modifies _ (λ w. refl)) (
            bind (find_app_court-Effect std) (λ app. run_phases-Effect std app config.policy))))))))
