-- ===== src/RootCourt/Courtlets/Tests.antt =====
-- crates/root-court/src/courtlet.rs: one court, from a kernel that was built.
use court_kernel.Prelude.{
  ℕ, ◌≤◌, ◌<◌, ◌⊎◌, some, err, ◌+◌, ◌*◌, nat_eq, if◌then◌else◌, ◌≡◌, refl, ok, arith, false,
  load as load_bytes, from_le,
}
use court_kernel.Prelude.Chain.{◌>>=◌, ◌>>◌}
use court_kernel.RootCourt.Mm.{alloc_pages}
use court_kernel.RootCourt.Paging.{map_range, phys_part}
use court_kernel.RootCourt.Paging.Build.{build}
use court_kernel.RootCourt.Paging.Space.{clone_kernel, clone_into, copy_from, map_in}
use court_kernel.RootCourt.Paging.Fixtures.{booted, booted-IsBuilt}
use court_kernel.RootCourt.Loader.{load}
use court_kernel.RootCourt.Loader.Bytes.{byte_at, copied}
use court_kernel.RootCourt.Loader.Fixtures.{image, image-IsBytes}
use court_kernel.RootCourt.Courtlets.{Courtlet, spawn}
use court_kernel.RootCourt.Courtlets.Demo.{
  Processor, World, run_demo, still_live, not_denied, refused, on_objects, on_kernel,
  make_identities, mint_both, spawn_both, exchange, enter, revoke_demo, tell_revoked, check_dead,
  expect_denied,
}
use court_kernel.RootCourt.Courtlets.Demo.Sealed.{Trusted, run_demo_lem}
use court_kernel.RootCourt.Objects.{
  right_recv, new, no_such_cap, bootstrap, spawn_court, create_court, bind, mint, fill, revoke_cap,
  clear, rights_in, cap_rights,
}
use court_kernel.RootCourt.Objects.Caps.{Below}
use court_kernel.Images.{st_sent, st_recv, st_denied}
use court_kernel.RootCourt.Courtlets.Spawned.{IsHome, spawn_lem}

abbrev court : Courtlet
court = record {
  name = "app";
  cr3 = 0x10_6000;
  space = record { cr3 = 0x10_6000; pml4_phys = 0x10_6000 };
  stack_top = 0x40_8000;
  boot = 0xffff_8000_0010_b000;
  entry = 0x10_0079;
}

spawned : (spawn false "app" image 1 1 2 0x70_0000 booted).0 ≡ ok court
unfolding spawn load clone_kernel clone_into build map_in map_range alloc_pages phys_part byte_at
    from_le load_bytes copied copy_from ◌>>◌ ◌>>=◌
spawned = refl

spawn_lem_example :
    IsHome false "app" image image-IsBytes 1 1 2 0x70_0000
      (omega arith)
      booted-IsBuilt.0.0
      booted
      booted-IsBuilt.0.1
      (spawn false "app" image 1 1 2 0x70_0000 booted).1
      court
spawn_lem_example =
    spawn_lem false "app" image image-IsBytes 1 1 2 0x70_0000 (omega arith) booted-IsBuilt.0.0
      booted booted-IsBuilt.0.1 court spawned

-- A processor whose app sends while its boot block allows it, and whose net receives 21 bytes.
abbrev processor : Processor
processor cr3 top entry w =
    if nat_eq cr3 0x10_7000
    then (if nat_eq (w.kernel.memory (0xffff_8000_0010_c000 + 16)) 0 then st_denied else st_sent, w)
    else (st_recv + 21 * 256, w)

processor-Trusted : Trusted processor
processor-Trusted tables stack entry w = ground arith

abbrev world : World
world = record { kernel = booted; objects = (bootstrap new).1 }

ran : (run_demo processor false image image world).0 ≡ ok tt
unfolding bootstrap run_demo on_objects on_kernel make_identities spawn_court create_court bind
    mint_both mint fill spawn_both exchange enter revoke_demo revoke_cap clear rights_in
    tell_revoked check_dead expect_denied spawn load clone_kernel clone_into build map_in map_range
    alloc_pages phys_part byte_at from_le load_bytes copied copy_from ◌>>◌ ◌>>=◌
ran = refl

world-Below : Below world.objects.next_cap world.objects.caps
unfolding bootstrap rights_in
world-Below id r h = ground arith

world_room : world.objects.next_cap + 2 < 2 * 0x8000_0000_0000_0000
unfolding bootstrap
world_room = omega arith

run_demo_lem_example :
    let (res, t) = run_demo processor false image image world in
    ((id : ℕ) → id ≤ world.objects.next_cap → cap_rights t.objects id ≡ cap_rights world.objects id)
    × ¬ (res ≡ err still_live)
    × ¬ (res ≡ err (refused no_such_cap))
    × ((res ≡ ok tt) ⊎ (res ≡ err not_denied)
        → (cap_rights t.objects (world.objects.next_cap + 1) ≡ some 0)
          × (cap_rights t.objects (world.objects.next_cap + 2) ≡ some right_recv))
run_demo_lem_example =
    run_demo_lem processor false image image world processor-Trusted world-Below world_room
