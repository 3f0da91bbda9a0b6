-- ===== src/Linux/Root/Revoked.antt =====
-- crates/court-hosted-linux/src/root.rs: what `run_revokes` revokes stays revoked until the demo ends.
use court_kernel.Prelude.Chain.{bind_elim, ◌>>=◌, ◌>>◌}
use court_kernel.Prelude.{
  ℕ, ◌+◌, ◌*◌, ◌≤◌, ◌<◌, ◌≡◌, refl, String, Option, some, Option-cases, Memᴰ, List, [], ◌∷◌, length,
  Table, get, pair_Key, string_Key, nat_Key, inl, inr, ok, Result-cases, gets, arith,
}
use court_kernel.Hosted.Rights.{Rights}
use court_kernel.Hosted.Types.{CapId, u64_mod}
use court_kernel.Hosted.Root.{new, revoke}
use court_kernel.Hosted.Root.Inv.{Inv, new-Inv}
use court_kernel.Hosted.Root.Run.{Call, run}
use court_kernel.Hosted.Root.Revocation.{IsUseless, dead-IsUseless}
use court_kernel.Linux.Protocol.{WireStatus, WireMessage, new_trace, with_path}
use court_kernel.Linux.Manifest.{RevokePolicy, PolicyFile, validate}
use court_kernel.Linux.Root.{
  Std, RootConfig, World, Act, Peer, on_root, wire_cap, record_trace, transmit, record_trace_from,
}
use court_kernel.Linux.Root.Setup.{for_all, blank, resolve}
use court_kernel.Linux.Root.Demo.{
  checked, run_revoke, run_fault, run_peer_down, expect_children, run_phases, run_manifest_demo,
  demo_steps, run_grant,
}
use court_kernel.Linux.Root.Calls.{Makes, Effect}
use court_kernel.Linux.Root.Calls
use court_kernel.Linux.Root.Effects.{
  record_trace-Effect, transmit-Effect, record_trace_from-Effect, connected-Effect, for_all-Effect,
  handle_app_lookup_and_denied_open-Effect,
}
use court_kernel.Linux.Root.Phases.{
  phase_calls, demo_calls, revoke-Effect, run_revoke-Effect, run_fault-Effect, run_peer_down-Effect,
  expect_children-Effect, run_grant-Effect, resolve-length, find_app_court-Effect,
  find_recv_grant_court-Effect, build_state-Effect, demo_steps-Effect,
}
use court_kernel.Linux.Root.Steady.{
  Steady, record_trace-Steady, transmit-Steady, record_trace_from-Steady, run_revoke-Steady,
  run_fault-Steady, run_peer_down-Steady, expect_children-Steady, for_all-Steady,
}
use court_kernel.Linux.Root.Steady
use court_kernel.Linux.Root.Sound.{
  IsGood, IsRevoked, Ensures, Makes-IsGood, Makes-IsRevoked, revoke_ok-IsDead, after, after_it,
  computed,
}

-- the rest of the body of `run_revokes`, once the core has revoked
abbrev told : RevokePolicy → CapId × Rights → Act (Unit {0})
told r held =
    record_trace (with_path (new_trace "revoke" "root" WireStatus.ok) r.path)
    >> (transmit r.court (WireMessage.revoke (wire_cap held.0 held.1)) >> record_trace_from r.court)

told-Effect : (r : RevokePolicy) (held : CapId × Rights) → Effect 0 (told r held)
told-Effect r held =
    Calls.next (record_trace-Effect _)
      (Calls.next (transmit-Effect r.court _) (record_trace_from-Effect r.court))

told-Steady : (r : RevokePolicy) (held : CapId × Rights) → Steady (told r held)
told-Steady r held =
    Steady.next (record_trace-Steady _)
      (Steady.next (transmit-Steady r.court _) (record_trace_from-Steady r.court))

-- The key of a revoke in `caps_by_key`.
abbrev pub key_of : RevokePolicy → String × String
key_of r = (r.court, r.path)

told-IsRevoked :
    (r : RevokePolicy) (held : CapId × Rights) (w : World) (u : Unit {0})
    → IsGood 1 w
    → get w.state.caps_by_key (key_of r) ≡ some held
    → ((on_root (revoke held.0) >> told r held) w).0 ≡ ok u
    → IsRevoked (key_of r) ((on_root (revoke held.0) >> told r held) w).1
unfolding ◌>>◌
told-IsRevoked r held w u good e = elim (Result-cases (revoke held.0 w.state.root).0) [
  | inl (x, h) ↦ rw h (λ bad. absurd (ground (arith, bad)))
  | inr (a, h) ↦
      let t = (on_root (revoke held.0) w).1 in
      rw h (λ fine.
        Makes-IsRevoked (key_of r) ((told-Effect r held).makes t) ((told-Steady r held).same_keys t)
          (Makes-IsGood 0 ((revoke-Effect held.0).makes w) good)
          (held, e, revoke_ok-IsDead w.state.root held.0 a good.0 h))
]

run_revoke-Ensures : (r : RevokePolicy) → Ensures 1 (run_revoke r) (IsRevoked (key_of r))
unfolding run_revoke ◌>>=◌
run_revoke-Ensures r = record {
  holds = λ w good u. elim (Option-cases (get w.state.caps_by_key (key_of r))) [
    | inl e ↦ rw e (λ bad. absurd (ground (arith, bad)))
    | inr (held, e) ↦ rw e (told-IsRevoked r held w u good e)
  ];
}

-- Every revoke of the list has taken hold.
abbrev pub AllRevoked : List RevokePolicy → World → Type 0
AllRevoked rs w = (r : RevokePolicy) → Memᴰ r rs → IsRevoked (key_of r) w

-- What a steady action after it does not undo.
module _ {A B : Type 0} where
  and_then :
      {n k : ℕ} {m : Act A} {f : Act B} (key : String × String)
      → Effect n m
      → Ensures n m (IsRevoked key)
      → Effect k f
      → Steady f
      → Ensures (n + k) (m >> f) (IsRevoked key)
  unfolding ◌>>=◌ ◌>>◌
  and_then {k = k} {m = m} {f = f} key p q e st = record {
    holds = λ w good b.
        bind_elim m (λ _. f) w (λ x. x.0 ≡ ok b → IsRevoked key x.1)
          (λ x h bad. absurd (ground (arith, bad)))
          (λ a h fine.
            Makes-IsRevoked key (e.makes (m w).1) (st.same_keys (m w).1)
              (Makes-IsGood k (p.makes w) good)
              (q.holds w (good.0, let r = good.1 in omega arith) a h));
  }

roomier :
    {A : Type 0} {n k : ℕ} {m : Act A} {Q : World → Type 0} → n ≤ k → Ensures n m Q → Ensures k m Q
roomier le q = record { holds = λ w good a. q.holds w (good.0, let r = good.1 in omega arith) a }

run_revokes-Ensures :
    (rs : List RevokePolicy) (r : RevokePolicy)
    → Memᴰ r rs
    → Ensures (1 * length rs) (for_all run_revoke rs) (IsRevoked (key_of r))
unfolding for_all
run_revokes-Ensures [] r m = elim m [ ]
run_revokes-Ensures (x ∷ xs) r (Memᴰ.head e) = rw e (
    roomier (omega arith) (
      and_then (key_of x) (run_revoke-Effect x) (run_revoke-Ensures x)
        (for_all-Effect 1 run_revoke run_revoke-Effect xs) (for_all-Steady run_revoke-Steady xs)))
run_revokes-Ensures (x ∷ xs) r (Memᴰ.tail m) =
    roomier (omega arith) (after_it (run_revoke-Effect x) (run_revokes-Ensures xs r m))

-- `run_faults`, `run_peer_down` and the loop over the children
abbrev ending : Std → PolicyFile → Act (Unit {0})
ending std p =
    for_all run_fault p.faults
    >> (for_all run_peer_down p.peer_down
        >> (gets (λ w. std.walk_children w.children) >>= expect_children))

ending-Effect : (std : Std) (p : PolicyFile) → Effect (length p.faults) (ending std p)
ending-Effect std p = Calls.within (omega arith) (
    Calls.next (for_all-Effect 1 run_fault run_fault-Effect p.faults) (
      Calls.next (for_all-Effect 0 run_peer_down run_peer_down-Effect p.peer_down)
        (Calls.bind (Calls.gets_only _) expect_children-Effect)))

ending-Steady : (std : Std) (p : PolicyFile) → Steady (ending std p)
ending-Steady std p = Steady.next (for_all-Steady run_fault-Steady p.faults) (
    Steady.next (for_all-Steady run_peer_down-Steady p.peer_down)
      (Steady.bind (Steady.plainly λ w. refl) expect_children-Steady))

run_phases-Ensures :
    (std : Std) (app : String) (p : PolicyFile) (r : RevokePolicy)
    → Memᴰ r p.revokes
    → Ensures (phase_calls p) (run_phases std app p) (IsRevoked (key_of r))
unfolding run_phases
run_phases-Ensures std app p r m = roomier (omega arith) (
    after_it (connected-Effect app) (
      after_it (handle_app_lookup_and_denied_open-Effect app) (
        computed {n = 2 * length p.grants + length p.revokes + length p.faults} (resolve p.grants)
          (λ gs h. roomier (omega (arith, resolve-length p.grants gs h)) (
            after_it (for_all-Effect 2 (run_grant std) (run_grant-Effect std) gs) (
              after_it (record_trace_from-Effect app) (
                after (find_recv_grant_court-Effect std) (λ c.
                  after_it (record_trace_from-Effect c) (
                    and_then (key_of r) (for_all-Effect 1 run_revoke run_revoke-Effect p.revokes)
                      (run_revokes-Ensures p.revokes r m) (ending-Effect std p)
                      (ending-Steady std p))))))))))

demo_steps-Ensures :
    (std : Std) (config : RootConfig) (connections : List Peer) (count : ℕ) (r : RevokePolicy)
    → Memᴰ r config.policy.revokes
    → Ensures (demo_calls config) (demo_steps std config connections count) (IsRevoked (key_of r))
unfolding demo_steps
demo_steps-Ensures std config connections count r m = roomier (omega arith) (
    after_it (Calls.lifts (checked (validate config.manifest config.policy))) (
      after_it (build_state-Effect std config) (
        after (Calls.gets_only _) (λ path. after_it (record_trace-Effect _) (
          after (Calls.reads_only _) (λ ps. after_it (Calls.modifies _ (λ w. refl)) (
            after (find_app_court-Effect std)
              (λ app. run_phases-Ensures std app config.policy r m))))))))

module _ (std : Std) (config : RootConfig) (connections : List Peer)
    (children : Table String (Option ℕ)) where
  abbrev start : World
  start = record { state = blank config; peers = []; children = children }

  start-IsGood : (n : ℕ) → n + 1 < u64_mod → IsGood n start
  start-IsGood n room = (new-Inv, omega arith)

  -- Whatever the courts send, in whatever order they connect and however they exit: the demo, also one that fails,
  -- changes the core only by calls of its methods, one for each court, revoke and fault, two for each corridor and
  -- grant, and two more at most; the core is well-formed at the end if there are numbers for these calls.
  pub run_manifest_demo-Inv :
      demo_calls config + 1 < u64_mod
      → let w = (run_manifest_demo std config connections children).1 in
        ((calls : List Call) × (w.state.root ≡ run calls new) × (length calls ≤ demo_calls config))
        × Inv w.state.root
  unfolding run_manifest_demo
  run_manifest_demo-Inv room =
      let made = (demo_steps-Effect std config connections (length children)).makes start in
      ((made.calls, made.reached, made.few), (Makes-IsGood 0 made (start-IsGood _ (omega arith))).0)

  -- If the demo returns `ok` and there are numbers for its calls, then for each revoke of the policy `caps_by_key` has
  -- a capability at the end, and in the core that capability cannot send, receive, open or be derived from, also
  -- after the faults and the losses of peers that came later.
  pub run_manifest_demo-revokes :
      demo_calls config + 1 < u64_mod
      → (run_manifest_demo std config connections children).0 ≡ ok tt
      → (r : RevokePolicy) → Memᴰ r config.policy.revokes
      → let w = (run_manifest_demo std config connections children).1 in
        (held : CapId × Rights) × (get w.state.caps_by_key (key_of r) ≡ some held)
        × IsUseless w.state.root held.0
  unfolding run_manifest_demo
  run_manifest_demo-revokes room fine r m =
      let (held, e, dead) =
        (demo_steps-Ensures std config connections (length children) r m).holds start
          (start-IsGood _ room) tt fine in
      (held, e, dead-IsUseless _ held.0 dead)
