-- ===== src/Linux/Root/Setup.antt =====
-- crates/court-hosted-linux/src/root.rs: `build_state`, `accept_peers`, and the searches over the state.
use Prim.Native.String.{[] as nil}
use court_kernel.Prelude.Chain.{◌>>=◌, ◌>>◌}
use court_kernel.Prelude.{
  ℕ, Bool, true, false, String, List, [], ◌∷◌, ◌++◌, length, Table, string_Key, nat_Key, get,
  insert, Result, ok, err, lift, reads, pure, modify, ok_or, ltb, if◌then◌else◌,
}
use court_kernel.Hosted.Rights
use court_kernel.Hosted.Rights.{Rights, covers}
use court_kernel.Hosted.Types.{CapId, shared_ring}
use court_kernel.Hosted.Root.{new, create_court, create_corridor, lookup}
use court_kernel.Linux.Protocol.{WireStatus, WireDemoConfig, WireMessage}
use court_kernel.Linux.ShmRing.{SharedRing, RingError, create}
use court_kernel.Linux.Manifest.{
  CourtRole, app, net, CourtManifest, CorridorManifest, GrantPolicy, parse_rights, ManifestError,
}
use court_kernel.Linux.RingFile.{ring_file_name}
use court_kernel.Linux.Root.{
  Std, RootConfig, RootState, Peer, World, RootError, Act, invalid, missing_court, no_corridor,
  no_app, no_recv, unexpected, closed, on_root, first_message,
}
use court_kernel.Linux.Root

-- `RootState` before the loops over the manifest.
abbrev pub blank : RootConfig → RootState
blank config = record {
  root = new;
  court_ids = [];
  descriptors = [];
  caps_by_id = [];
  caps_by_key = [];
  court_roles = [];
  policy = config.policy;
  ring_info = [];
  demo = record { path = nil; packet_payload = config.manifest.packet_payload };
  trace = [];
  rings = [];
}

unfoldable pub build_court : CourtManifest → Act (Unit {0})
unfolding create_court
build_court c w =
    let (id, r) = create_court c.name w.state.root in
    (
      ok tt,
      record w {
        state = record w.state {
          root = r;
          court_ids = insert w.state.court_ids c.name id;
          court_roles = insert w.state.court_roles c.name c.role;
        };
      },
    )

abbrev pub made : Result RingError SharedRing → Result RootError SharedRing
made (ok r) = ok r
made (err e) = err (Root.ring e)

module _ (std : Std) (run_dir : String) where
  -- `SharedRing::create`, which sets the file to a new ring, and the entry of `ring_info`.
  unfoldable pub build_ring : CorridorManifest → Act (Unit {0})
  build_ring c = do
    let path = std.join run_dir (ring_file_name c.path)
    ring ← lift (made (create c.capacity c.slot_size))
    modify (λ w. record w {
      state = record w.state {
        ring_info =
            insert w.state.ring_info c.path
              (record { path = path; capacity = c.capacity; slot_size = c.slot_size });
        rings = insert w.state.rings path ring;
      };
    })

  unfoldable pub build_corridor : CorridorManifest → Act (Unit {0})
  build_corridor c = do
    from ← reads (λ w. ok_or (get w.state.court_ids c.from) missing_court)
    to ← reads (λ w. ok_or (get w.state.court_ids c.to) missing_court)
    on_root (create_corridor c.path from to shared_ring c.capacity)
    descriptor ← on_root (lookup from c.path)
    modify (λ w. record w {
      state = record w.state { descriptors = insert w.state.descriptors c.path descriptor };
    })
    build_ring c

-- a `for` loop
unfoldable pub for_all : {A : Type 0} → (A → Act (Unit {0})) → List A → Act (Unit {0})
for_all body [] = pure tt
for_all body (x ∷ xs) = let rest = for_all body xs in body x >> rest

abbrev pub first_path : List CorridorManifest → Result RootError String
first_path [] = err no_corridor
first_path (c ∷ cs) = ok c.path

unfoldable pub build_state : Std → RootConfig → Act (Unit {0})
unfolding for_all build_court build_corridor
build_state std config = do
  for_all build_court config.manifest.courts
  for_all (build_corridor std config.run_dir) config.manifest.corridors
  path ← lift (first_path config.manifest.corridors)
  modify (λ w. record w {
    state = record w.state {
      demo = record { path = path; packet_payload = config.manifest.packet_payload };
    };
  })

-- The greeting of one connection: the court that it names, and the peer after the answer.
abbrev pub greet : WireDemoConfig → WireMessage × Peer → Result RootError (String × Peer)
greet demo (WireMessage.hello court, peer) = ok (
  court,
  record peer { outbox = peer.outbox ++ WireMessage.hello_ack WireStatus.ok court demo ∷ [] },
)
greet demo (other, peer) = err (unexpected other)

-- `accept_peers`, over the connections that are made, until there are `count` names.
unfoldable pub accept_peers :
    ℕ → WireDemoConfig → List Peer → Table String Peer → Result RootError (Table String Peer)
accept_peers count demo [] peers = if ltb (length peers) count then err closed else ok peers
accept_peers count demo (c ∷ cs) peers = elim (ltb (length peers) count) [
  | false ↦ ok peers
  | true ↦ elim (first_message c) [
    | err e ↦ err e
    | ok m ↦ elim (greet demo m) [
      | err e ↦ err e
      | ok (court, peer) ↦ accept_peers count demo cs (insert peers court peer)
    ]
  ]
]

abbrev pub is_app : CourtRole → Bool
is_app app = true
is_app net = false

unfoldable pub app_in : Table String CourtRole → Result RootError String
app_in [] = err no_app
app_in ((court, role) ∷ roles) = if is_app role then ok court else app_in roles

unfoldable pub find_app_court : Std → Act String
find_app_court std = reads λ w. app_in (std.walk_roles w.state.court_roles)

unfoldable pub receiver_in : Table (String × String) (CapId × Rights) → Result RootError String
receiver_in [] = err no_recv
receiver_in (((court, path), (id, rights)) ∷ caps) =
    if covers rights Rights.recv then ok court else receiver_in caps

unfoldable pub find_recv_grant_court : Std → Act String
find_recv_grant_court std = reads λ w. receiver_in (std.walk_caps w.state.caps_by_key)

pub record ResolvedGrant : Type 0 where
  pub court : String
  pub path : String
  pub rights : Rights

abbrev pub parsed : Result ManifestError Rights → Result RootError Rights
parsed (ok r) = ok r
parsed (err e) = err (invalid e)

-- `state_policy_grants`
unfoldable pub resolve : List GrantPolicy → Result RootError (List ResolvedGrant)
resolve [] = ok []
resolve (g ∷ gs) = elim (parsed (parse_rights g.rights)) [
  | err e ↦ err e
  | ok rights ↦ elim (resolve gs) [
    | err e ↦ err e
    | ok rest ↦ ok (record { court = g.court; path = g.path; rights = rights } ∷ rest)
  ]
]
