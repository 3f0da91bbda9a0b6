-- ===== src/Linux/Fixtures.antt =====
-- fixtures/packet-rx: the manifest and the policy of the demo.
use court_kernel.Prelude.{[], ◌∷◌}
use court_kernel.Linux.Manifest.{ManifestFile, PolicyFile, app, net}

abbrev pub manifest : ManifestFile
manifest = record {
  version = 1;
  courts = record { name = "app"; role = app } ∷ record { name = "net0"; role = net } ∷ [];
  corridors =
      record {
        path = "/court/net0/packet/rx";
        from = "app";
        to = "net0";
        capacity = 64;
        slot_size = 2048;
      }
      ∷ [];
  packet_payload = "mvp0c-packet";
}

abbrev pub policy : PolicyFile
policy = record {
  version = 1;
  grants =
      record { court = "net0"; path = "/court/net0/packet/rx"; rights = "recv" ∷ "observe" ∷ [] }
      ∷ record { court = "app"; path = "/court/net0/packet/rx"; rights = "send" ∷ "observe" ∷ [] }
      ∷ [];
  revokes = record { court = "app"; path = "/court/net0/packet/rx"; after = "recv" } ∷ [];
  faults =
      record { court = "net0"; after = "revoke"; reason = "mvp0c simulated net court crash" } ∷ [];
  peer_down = record { court = "app"; path = "/court/net0/packet/rx"; after = "fault" } ∷ [];
}
