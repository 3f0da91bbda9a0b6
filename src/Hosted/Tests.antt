-- ===== src/Hosted/Tests.antt =====
-- crates/court-hosted/src/lib.rs: the packet demo of the crate's tests, step by step, and the
-- theorems at its states.
use court_kernel.Prelude.{
  ℕ, ◌^◌, contains, add, ◌+◌, ◌≤◌, ◌<◌, ◌≡◌, ◌≢◌, refl, ◌⊎◌, inl, ◌↔◌, true, false, none, some,
  List, [], ◌∷◌, ◌++◌, nat_Key, string_Key, get, insert, ok, err, arith,
}
use court_kernel.Hosted.Rights
use court_kernel.Hosted.Rights.{Rights, covers}
use court_kernel.Hosted.Types.{
  CourtId, CapId, Descriptor, corridor, shared_ring, running, Payload, CkError, invalid_object,
}
use court_kernel.Hosted.Caps
use court_kernel.Hosted.Caps.{Capability, authorize, CapRegistry, visits, revoke_loop}
use court_kernel.Hosted.Caps.Outcome.{Failed, next_id}
use court_kernel.Hosted.Caps.Walk.{shape, is_dead}
use court_kernel.Hosted.Caps.Revoke.{Descends, itself, child, revoke_exact, revoke_loop_ends}
use court_kernel.Hosted.Root.{
  HostedRoot, Corridor, new, corridor_rights, create_court, create_corridor, install_corridor,
  grant_corridor_cap, send, recv, fault_court, has_peer_down, pop_front, require_running_court,
  cspace_contains, endpoint,
}
use court_kernel.Hosted.Root.Outcome.{
  Quiet, IsSent, IsReceived, IsGranted, send_outcome, recv_outcome, grant_outcome,
}
use court_kernel.Hosted.Root.Inv.{Inv, new-Inv}
use court_kernel.Hosted.Root.Run.{
  Call, creates_court, creates_corridor, grants, sends, receives, revokes, faults, step, run,
  run-Inv,
}
use court_kernel.Hosted.Root.Revocation.{IsUseless, revoke_final}
use court_kernel.Hosted.Root.Traffic.{
  queue_of, sent_on, received_on, all_sent, all_received, run_fifo,
}
use court_kernel.Hosted.Root.Authority.{
  IsGrantTo, step_authority, run_attenuates, grant_ceiling, run_typed,
}
use court_kernel.Hosted.Root.Faults.{IsSilent, fault_silences, fault_breaks_peers}

abbrev packet_rx : Descriptor
packet_rx = record {
  path = "/court/net0/packet/rx";
  object = 1;
  object_type = corridor;
  transport = shared_ring;
}

-- The app court is 1, the net court 2; the corridor's own capability is 1, the app's is 2 and the
-- net's is 3.
abbrev setup : List Call
setup =
    creates_court "app"
    ∷ creates_court "net"
    ∷ creates_corridor "/court/net0/packet/rx" 1 2 shared_ring 4
    ∷ grants 1 packet_rx Rights.recv
    ∷ grants 2 packet_rx Rights.send
    ∷ []

abbrev demo : HostedRoot
demo = run setup new

-- the corridor's own capability, and the net's
abbrev root_entry : Capability
root_entry = record {
  object = 1;
  object_type = corridor;
  rights = 124;
  parent = none;
  is_revoked = false;
  delegable = true;
}

abbrev net_entry : Capability
net_entry = record {
  object = 1;
  object_type = corridor;
  rights = 4;
  parent = some 1;
  is_revoked = false;
  delegable = false;
}

demo_root : get demo.cap_registry.caps 1 ≡ some root_entry
unfolding run step grant_corridor_cap require_running_court get create_corridor create_court insert
    install_corridor Caps.delegate Caps.mint_root covers
demo_root = refl

demo_net : get demo.cap_registry.caps 3 ≡ some net_entry
unfolding run step grant_corridor_cap require_running_court get create_corridor create_court insert
    install_corridor Caps.delegate Caps.mint_root covers
demo_net = refl

demo_court : get demo.courts 1 ≡ some (record { id = 1; name = "app"; state = running })
unfolding run step grant_corridor_cap require_running_court get create_corridor create_court insert
    install_corridor Caps.delegate Caps.mint_root covers
demo_court = refl

demo-Inv : Inv demo
demo-Inv = run-Inv setup new (omega arith) new-Inv

demo_below : Descends demo.cap_registry.caps 1 3
demo_below = child net_entry demo_net refl (itself refl)

demo_room : demo.cap_registry.next_cap + 3 < 2 ^ 64
unfolding run step grant_corridor_cap require_running_court get create_corridor create_court insert
    install_corridor Caps.delegate Caps.mint_root covers
demo_room = omega arith

demo_objects : (1 ≤ demo.next_object) × (demo.next_object + 3 < 2 ^ 64)
unfolding run step grant_corridor_cap require_running_court get create_corridor create_court insert
    install_corridor Caps.delegate Caps.mint_root covers
demo_objects = (omega arith, omega arith)

abbrev after_revoke : List Call
after_revoke = sends 2 3 (7 ∷ []) ∷ faults 2 ∷ []

revoke_final_example : IsUseless (run (revokes 1 ∷ after_revoke) demo) 3
revoke_final_example =
    revoke_final demo 1 3 root_entry after_revoke demo-Inv demo_room demo_root demo_below

abbrev traffic : List Call
traffic = sends 2 3 (7 ∷ []) ∷ sends 2 3 (8 ∷ []) ∷ receives 1 2 ∷ []

-- Two payloads go in, and the first comes out.
traffic_test :
    (all_sent 1 traffic demo ≡ (7 ∷ []) ∷ (8 ∷ []) ∷ [])
    × (all_received 1 traffic demo ≡ (7 ∷ []) ∷ [])
unfolding run step grant_corridor_cap require_running_court get create_corridor create_court insert
    install_corridor Caps.delegate Caps.mint_root covers all_sent sent_on send endpoint
    cspace_contains contains add authorize has_peer_down all_received received_on recv pop_front
    fault_court
traffic_test = (refl, refl)

run_fifo_example :
    all_received 1 traffic demo ++ queue_of (run traffic demo) 1
    ≡ queue_of demo 1 ++ all_sent 1 traffic demo
run_fifo_example = run_fifo traffic demo 1 demo_objects.0 demo_objects.1

revoke_exact_example :
    let (res, r') = Caps.revoke 1 demo.cap_registry in
    (res ≡ ok tt)
    × (r'.next_cap ≡ demo.cap_registry.next_cap)
    × (r'.children ≡ demo.cap_registry.children)
    × ((c : CapId) → shape r'.caps c ≡ shape demo.cap_registry.caps c)
    × ((c : CapId) (j : Capability)
        → get demo.cap_registry.caps c ≡ some j
        → (is_dead r'.caps c ≡ true)
          ↔ ((j.is_revoked ≡ true) ⊎ Descends demo.cap_registry.caps 1 c))
revoke_exact_example = revoke_exact demo.cap_registry 1 root_entry demo-Inv.registry demo_root

revoke_loop_ends_example :
    (revoke_loop
      (visits demo.cap_registry.next_cap demo.cap_registry.children 1)
      demo.cap_registry.children
      (1 ∷ [])
      demo.cap_registry.caps).0
    ≡ []
revoke_loop_ends_example = revoke_loop_ends demo.cap_registry 1 demo-Inv.registry

run-Inv_example : Inv (run setup new)
run-Inv_example = run-Inv setup new (omega arith) new-Inv

send_outcome_example :
    let (res, t) = send 2 3 (7 ∷ []) demo in
    (Failed res × Quiet demo t) ⊎ ((res ≡ ok tt) × IsSent demo 2 3 (7 ∷ []) t)
send_outcome_example = send_outcome demo 2 3 (7 ∷ [])

abbrev sent_once : HostedRoot
sent_once = run (sends 2 3 (7 ∷ []) ∷ []) demo

recv_outcome_example :
    let (res, t) = recv 1 2 sent_once in
    (Failed res × Quiet sent_once t)
    ⊎ ((payload : Payload) × (res ≡ ok payload) × IsReceived sent_once 1 2 payload t)
recv_outcome_example = recv_outcome sent_once 1 2

abbrev grant_more : Call
grant_more = grants 1 packet_rx 12

demo_granted : cspace_contains (step grant_more demo) 1 4 ≡ true
unfolding run step grant_corridor_cap require_running_court get create_corridor create_court insert
    install_corridor Caps.delegate Caps.mint_root covers all_sent sent_on send endpoint
    cspace_contains contains add authorize has_peer_down all_received received_on recv pop_front
    fault_court
demo_granted = refl

step_authority_example : (cspace_contains demo 1 4 ≡ true) ⊎ IsGrantTo 1 4 grant_more demo
step_authority_example = step_authority grant_more demo 1 4 demo_granted

run_attenuates_example :
    (j : Capability) × (get demo.cap_registry.caps 3 ≡ some j)
    × (covers root_entry.rights j.rights ≡ true)
    × (j.object ≡ root_entry.object)
run_attenuates_example = run_attenuates setup 1 3 root_entry (omega arith) demo_root demo_below

too_much : covers corridor_rights Rights.write ≡ false
unfolding run step grant_corridor_cap require_running_court get create_corridor create_court insert
    install_corridor Caps.delegate Caps.mint_root covers
too_much = refl

grant_ceiling_example :
    Failed (grant_corridor_cap 1 packet_rx Rights.write demo).0
    × ((grant_corridor_cap 1 packet_rx Rights.write demo).1 ≡ demo)
grant_ceiling_example = grant_ceiling demo 1 packet_rx Rights.write demo-Inv too_much

run_typed_example :
    ((send 2 3 (7 ∷ []) demo).0 ≢ err invalid_object) × ((recv 2 3 demo).0 ≢ err invalid_object)
run_typed_example = run_typed setup 2 3 (7 ∷ []) (omega arith)

grant_outcome_example :
    let (res, t) = grant_corridor_cap 1 packet_rx 12 demo in
    (Failed res × (t ≡ demo))
    ⊎ ((res ≡ ok (next_id demo.cap_registry)) × IsGranted demo 1 packet_rx 12 t)
grant_outcome_example = grant_outcome demo 1 packet_rx 12

demo_courts : (1 ≤ demo.next_court) × (demo.next_court + 2 < 2 ^ 64)
unfolding run step grant_corridor_cap require_running_court get create_corridor create_court insert
    install_corridor Caps.delegate Caps.mint_root covers
demo_courts = (omega arith, omega arith)

fault_silences_example :
    let (res, t) = fault_court 1 demo in
    (res ≡ ok tt)
    × (t ≡ record demo { courts = t.courts; trace = t.trace })
    × ((other : CourtId) → 1 ≢ other → get t.courts other ≡ get demo.courts other)
    × IsSilent (run (creates_court "late" ∷ faults 2 ∷ []) t) 1
fault_silences_example =
    fault_silences demo 1 (record { id = 1; name = "app"; state = running })
      (creates_court "late" ∷ faults 2 ∷ []) demo_court demo_courts.0 demo_courts.1

different : ¬ (◌≡◌ {A = ℕ} 1 2)
different e = omega arith

abbrev link : Corridor
link = record { endpoints = (1, 2); queue = []; capacity = 4 }

demo-endpoint : endpoint 2 3 Rights.send (fault_court 1 demo).1 ≡ ok (1, link)
unfolding run step grant_corridor_cap require_running_court get create_corridor create_court insert
    install_corridor Caps.delegate Caps.mint_root covers all_sent sent_on send endpoint
    cspace_contains contains add authorize has_peer_down all_received received_on recv pop_front
    fault_court
demo-endpoint = refl

fault_breaks_peers_example :
    let t = (fault_court 1 demo).1 in
    let (res, u) = send 2 3 (7 ∷ []) t in (res ≡ err CkError.peer_down) × Quiet t u
fault_breaks_peers_example =
    fault_breaks_peers demo 1 2 (record { id = 1; name = "app"; state = running }) 3 (7 ∷ []) 1 link
      demo_court different (inl refl) demo-endpoint
