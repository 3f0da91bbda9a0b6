-- ===== src/Linux/Root/Tests.antt =====
-- crates/court-hosted-linux/src/root.rs: the packet-rx demo, with the messages that its two clients send.
use court_kernel.Prelude.{
  ◌≢◌, ap, Bool, true, false, ℕ, ◌≤◌, ◌≡◌, refl, Option, none, some, String, List, [], ◌∷◌, Table,
  length, get, insert, remove, add, Memᴰ, pair_Key, string_Key, ok, Result, arith,
}
use court_kernel.Hosted.Rights
use court_kernel.Hosted.Rights.{Rights}
use court_kernel.Linux.Protocol.{WireStatus, WireMessage, from_rights, new_trace}
use court_kernel.Linux.Fixtures.{manifest, policy}
use court_kernel.Linux.Root.{Std, RootConfig, Peer, RootError, World}
use court_kernel.Linux.Root.Demo.{run_manifest_demo}
use court_kernel.Hosted.Root.{
  install_corridor, create_corridor, lookup, grant_corridor_cap, open_cap, fault_court,
}
use court_kernel.Hosted.Caps.{mint_root, delegate, authorize}
use court_kernel.Hosted.Rights.{covers}
use court_kernel.Prelude.Chain.{◌>>=◌, ◌>>◌}
use court_kernel.Linux.ShmRing.{create}
use court_kernel.Linux.Manifest.{validate, parse_from, require_phase_before, has_key}
use court_kernel.Linux.Root.{
  record_trace, connected, transmit, receive, court_id_of, descriptor_of, keep_trace,
}
use court_kernel.Linux.Root.Setup.{
  build_ring, resolve, find_app_court, find_recv_grant_court, receiver_in, app_in,
}
use court_kernel.Linux.Root.Opening.{
  demo_path, on_lookup, on_denied_open, handle_app_lookup_and_denied_open, on_open,
}
use court_kernel.Linux.Root.Demo.{expect_child_exit, on_demo_done, run_grant, run_manifest_demo}
use court_kernel.Linux.Protocol.{to_rights}
use court_kernel.Hosted.Types.{CapId}
use court_kernel.Hosted.Root.{new}
use court_kernel.Hosted.Root.Inv.{Inv}
use court_kernel.Hosted.Root.Run.{Call, run}
use court_kernel.Hosted.Root.Revocation.{IsUseless}
use Prim.Native.String.{[] as nil, ◌∷◌ as ◌◂◌, ◌++◌ as ◌<>◌}
use Prim.Native.Char.{Char}
use court_kernel.Linux.RingFile.{ring_file_name}
use court_kernel.Linux.RingFile.Collide.{ring_files_collide}
use court_kernel.Linux.Root.Revoked.{run_manifest_demo-Inv, run_manifest_demo-revokes}
use court_kernel.Prelude.{nat_Key, contains}
use court_kernel.Hosted.Types.{Descriptor, corridor, shared_ring}
use court_kernel.Hosted.Root.Run.{step, creates_court, creates_corridor}
use court_kernel.Hosted.Root.{open_cap, create_court}
use court_kernel.Linux.Protocol.{WireRingInfo, WireCap}
use court_kernel.Linux.Root.Setup.{blank}
use court_kernel.Linux.Root.Opening.{open_known}
use court_kernel.Linux.Root.Disclosed.{sent_to}
use court_kernel.Linux.Root.Told.{told}
use court_kernel.Linux.Root.{wire_cap, court_id_of, descriptor_of, receive}
use court_kernel.Linux.Root.Opening.{handle_grant_and_open, handle_app_lookup_and_denied_open}

abbrev std : Std
std = record {
  join = λ dir file. file;
  to_string = λ n. "";
  walk_roles = λ t. t;
  walk_caps = λ t. t;
  walk_children = λ t. t;
}

abbrev config : RootConfig
config = record { run_dir = "run"; manifest = manifest; policy = policy }

abbrev rx : String
rx = "/court/net0/packet/rx"

abbrev traced : String → String → WireStatus → WireMessage
traced event court st = WireMessage.trace (new_trace event court st)

abbrev app_court : Peer
app_court = record {
  inbox =
      WireMessage.hello "app"
      ∷ WireMessage.lookup rx
      ∷ WireMessage.opening rx none (from_rights Rights.send)
      ∷ WireMessage.opening rx (some (record { id = 3; rights = from_rights Rights.send }))
          (from_rights Rights.send)
      ∷ traced "send" "app" WireStatus.ok
      ∷ traced "send_after_revoke" "app" WireStatus.revoked
      ∷ traced "peer_down" "app" WireStatus.peer_down
      ∷ WireMessage.demo_done "app" WireStatus.ok
      ∷ [];
  outbox = [];
}

abbrev net_court : Peer
net_court = record {
  inbox =
      WireMessage.hello "net0"
      ∷ WireMessage.opening rx (some (record { id = 2; rights = from_rights Rights.recv }))
          (from_rights Rights.recv)
      ∷ traced "recv" "net0" WireStatus.ok
      ∷ traced "fault" "net0" WireStatus.fault
      ∷ [];
  outbox = [];
}

abbrev both : List Peer
both = app_court ∷ net_court ∷ []

abbrev exits : Table String (Option ℕ)
exits = ("app", some 0) ∷ ("net0", some 42) ∷ []

abbrev the_run : Result RootError (Unit {0}) × World
the_run = run_manifest_demo std config both exits

demo_test : the_run.0 ≡ ok tt
unfolding install_corridor create_corridor lookup grant_corridor_cap open_cap
    court_kernel.Hosted.Root.revoke fault_court mint_root delegate court_kernel.Hosted.Caps.revoke
    authorize covers ◌>>=◌ ◌>>◌ create validate parse_from require_phase_before has_key get insert
    remove add record_trace connected transmit receive court_id_of descriptor_of keep_trace
    build_ring resolve find_app_court find_recv_grant_court receiver_in app_in demo_path on_lookup
    on_denied_open handle_app_lookup_and_denied_open on_open expect_child_exit on_demo_done
    run_grant run_manifest_demo to_rights
demo_test = refl

run_manifest_demo-Inv_example :
    ((calls : List Call) × (the_run.1.state.root ≡ run calls new) × (length calls ≤ 12))
    × Inv the_run.1.state.root
run_manifest_demo-Inv_example = run_manifest_demo-Inv std config both exits (omega arith)

run_manifest_demo-revokes_example :
    (held : CapId × Rights) × (get the_run.1.state.caps_by_key ("app", rx) ≡ some held)
    × IsUseless the_run.1.state.root held.0
run_manifest_demo-revokes_example =
    run_manifest_demo-revokes std config both exits (omega arith) demo_test
      (record { court = "app"; path = rx; after = "recv" }) (Memᴰ.head refl)

abbrev is_nil : String → Bool
is_nil nil = true
is_nil (c ◂ s) = false

cons_nonempty : (c : Char) (s : String) → c ◂ s ≢ nil
cons_nonempty c s e = let f = ap is_nil e in ground (arith, f)

ring_files_collide_example :
    ring_file_name ("/court/net0" <> ("/" <> ("packet" <> ("/" <> "rx"))))
    ≡ ring_file_name ("/court/net1" <> ("/" <> ("packet" <> ("/" <> "rx"))))
ring_files_collide_example =
    ring_files_collide "/court/net0" "/court/net1" "packet" "rx"
      (refl, (refl, (refl, (refl, (refl, (refl, tt)))))) (cons_nonempty _ _) (refl, (refl, tt))
      (cons_nonempty _ _)

-- net0 is granted a capability and opens with it
abbrev descriptor : Descriptor
descriptor = record { path = rx; object = 1; object_type = corridor; transport = shared_ring }

abbrev ring : WireRingInfo
ring = record { path = "packet-rx.ring"; capacity = 64; slot_size = 2048 }

abbrev request : WireCap
request = wire_cap 2 Rights.recv

abbrev asked : WireMessage
asked = WireMessage.opening rx (some request) (from_rights Rights.recv)

abbrev opening_world : World
opening_world = record {
  state = record (blank config) {
    root =
        run
          (creates_court "app" ∷ creates_court "net0" ∷ creates_corridor rx 1 2 shared_ring 64 ∷ [])
          new;
    court_ids = ("net0", 2) ∷ [];
    descriptors = (rx, descriptor) ∷ [];
    ring_info = (rx, ring) ∷ [];
  };
  peers = ("net0", record { inbox = asked ∷ []; outbox = [] }) ∷ [];
  children = [];
}

net_told :
    sent_to (handle_grant_and_open std "net0" rx Rights.recv opening_world).1 "net0"
    ≡ WireMessage.grant rx request ∷ told "net0" WireStatus.ok (some request) ring ∷ []
unfolding handle_grant_and_open on_open open_known transmit receive connected record_trace ◌>>=◌
    ◌>>◌ court_id_of descriptor_of run get insert open_cap step grant_corridor_cap create_corridor
    create_court install_corridor delegate mint_root covers contains add authorize to_rights
net_told = refl
