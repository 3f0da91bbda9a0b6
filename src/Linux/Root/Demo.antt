-- ===== src/Linux/Root/Demo.antt =====
-- crates/court-hosted-linux/src/root.rs: the phases of the demo, and `run_manifest_demo`.
use court_kernel.Prelude.Chain.{◌>>=◌, ◌>>◌}
use court_kernel.Prelude.{
  ℕ, ◌&&◌, String, Option, none, some, List, [], ◌∷◌, length, Table, string_Key, nat_Key, pair_Key,
  ◌==◌, nat_eq, get, remove, Result, ok, err, lift, gets, reads, pure, raise, modify, ok_or,
  if◌then◌else◌,
}
use court_kernel.Hosted.Root.{revoke, fault_court}
use court_kernel.Linux.Protocol.{WireStatus, WireMessage, new_trace, with_path}
use court_kernel.Linux.Manifest.{
  RevokePolicy, FaultPolicy, PeerDownPolicy, ManifestError, PolicyFile, validate,
}
use court_kernel.Linux.Root.{
  Std, RootConfig, Peer, World, RootError, Act, unexpected, invalid, missing_cap, missing_child,
  bad_exit, on_root, wire_cap, record_trace, connected, transmit, receive, court_id_of, is_ok,
  record_trace_from,
}
use court_kernel.Linux.Root.Setup.{
  blank, build_state, for_all, accept_peers, find_app_court, find_recv_grant_court, ResolvedGrant,
  resolve,
}
use court_kernel.Linux.Root.Opening.{handle_app_lookup_and_denied_open, handle_grant_and_open}

-- the body of `run_revokes`
unfoldable pub run_revoke : RevokePolicy → Act (Unit {0})
unfolding record_trace_from
run_revoke r = do
  (id, rights) ← reads (λ w. ok_or (get w.state.caps_by_key (r.court, r.path)) missing_cap)
  on_root (revoke id)
  record_trace (with_path (new_trace "revoke" "root" WireStatus.ok) r.path)
  transmit r.court (WireMessage.revoke (wire_cap id rights))
  record_trace_from r.court

-- `expect_child_exit`, and `expect_child_success` at 0
unfoldable pub expect_child_exit : String → ℕ → Act (Unit {0})
expect_child_exit court code = do
  status ← reads (λ w. ok_or (get w.children court) missing_child)
  lift
      (elim status [ none ↦ err bad_exit | some c ↦ if nat_eq c code then ok tt else err bad_exit ])

-- the body of `run_faults`
unfoldable pub run_fault : FaultPolicy → Act (Unit {0})
unfolding record_trace_from
run_fault f = do
  transmit f.court (WireMessage.fault f.reason)
  record_trace_from f.court
  expect_child_exit f.court 42
  modify (λ w. record w { peers = remove w.peers f.court })
  id ← court_id_of f.court
  on_root (fault_court id)
  path ← gets (λ w. w.state.demo.path)
  record_trace (with_path (new_trace "court_fault" "root" WireStatus.fault) path)

unfoldable pub on_demo_done : String → WireMessage → Act (Unit {0})
on_demo_done expected (WireMessage.demo_done court st) =
    if is_ok st && court == expected
    then record_trace (new_trace "demo_done" court WireStatus.ok)
    else raise (unexpected (WireMessage.demo_done court st))
on_demo_done expected other = raise (unexpected other)

-- the body of `run_peer_down`
unfoldable pub run_peer_down : PeerDownPolicy → Act (Unit {0})
unfolding record_trace_from
run_peer_down p = do
  transmit p.court (WireMessage.peer_down p.path)
  record_trace (with_path (new_trace "peer_down" "root" WireStatus.peer_down) p.path)
  record_trace_from p.court
  message ← receive p.court
  on_demo_done p.court message

-- the loop over the children that are still connected
unfoldable pub expect_children : Table String (Option ℕ) → Act (Unit {0})
expect_children [] = pure tt
expect_children ((court, code) ∷ more) =
    let rest = expect_children more in
    (do
      peer ← gets (λ w. get w.peers court)
      elim peer [ none ↦ pure tt | some _ ↦ expect_child_exit court 0 ])
    >> rest

abbrev pub checked : Result ManifestError (Unit {0}) → Result RootError (Unit {0})
checked (ok _) = ok tt
checked (err e) = err (invalid e)

module _ (std : Std) where
  unfoldable pub run_grant : ResolvedGrant → Act (Unit {0})
  unfolding handle_grant_and_open
  run_grant g = do connected g.court; handle_grant_and_open std g.court g.path g.rights; pure tt

  -- the grants, the packet, and then the revokes, the faults and the losses of the policy
  unfoldable pub run_phases : String → PolicyFile → Act (Unit {0})
  unfolding for_all run_revoke run_fault run_peer_down expect_children
  run_phases app policy = do
    connected app
    handle_app_lookup_and_denied_open app
    grants ← lift (resolve policy.grants)
    for_all run_grant grants
    record_trace_from app
    receiver ← find_recv_grant_court std
    record_trace_from receiver
    for_all run_revoke policy.revokes
    for_all run_fault policy.faults
    for_all run_peer_down policy.peer_down
    children ← gets (λ w. std.walk_children w.children)
    expect_children children

  unfoldable pub demo_steps : RootConfig → List Peer → ℕ → Act (Unit {0})
  unfolding build_state accept_peers run_phases
  demo_steps config connections count = do
    lift (checked (validate config.manifest config.policy))
    build_state std config
    path ← gets (λ w. w.state.demo.path)
    record_trace (with_path (new_trace "lookup" "root" WireStatus.ok) path)
    peers ← reads (λ w. accept_peers count w.state.demo connections [])
    modify (λ w. record w { peers = peers })
    app ← find_app_court std
    run_phases app config.policy

  -- `connections` are the peers in the order in which they connect, `children` how the processes that
  -- were spawned, one to a court, exit.
  unfoldable pub run_manifest_demo :
      RootConfig → List Peer → Table String (Option ℕ) → Result RootError (Unit {0}) × World
  unfolding demo_steps
  run_manifest_demo config connections children =
      demo_steps config connections (length children)
        (record { state = blank config; peers = []; children = children })
