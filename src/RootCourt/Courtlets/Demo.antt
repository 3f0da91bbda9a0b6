-- ===== src/RootCourt/Courtlets/Demo.antt =====
-- crates/root-court/src/courtlet.rs: `run_demo`. What a processor does between the `call` of `enter`
-- and its return is a parameter: the tables, the top of the stack and the address that is called give,
-- with all that the kernel has, the value that is returned and what the kernel has afterwards. A court
-- runs in the kernel's ring, so it may write the objects and the allocator too. What is printed is
-- left out.
pub mod Made
pub mod Sealed
use court_kernel.Prelude.{
  ℕ, ◌+◌, ◌%◌, Bool, false, ◌&&◌, Option, none, some, List, String, Result, ok, err, Exec, lift,
  pure, guard, nat_eq, ltb, if◌then◌else◌,
}
use court_kernel.Prelude.Chain.{◌>>=◌, ◌>>◌}
use court_kernel.Images.{st_sent, st_recv, st_denied}
use court_kernel.RootCourt.Objects.{
  Full, RootCourt, right_send, right_recv, spawn_court, mint, revoke_cap, cap_rights,
}
use court_kernel.RootCourt.Paging.{Words, written, phys_part}
use court_kernel.RootCourt.Paging.Build.{Kernel}
use court_kernel.RootCourt.Loader.{LoadError, LoadAct, no_ring_page, lower_half_end}
use court_kernel.RootCourt.Courtlets.{Courtlet, ring_words, new_block, spawn}

-- The two arguments of `run_demo`.
pub record World : Type 0 where
  pub kernel : Kernel
  pub objects : RootCourt

abbrev pub Processor : Type 0
Processor = ℕ → ℕ → ℕ → World → ℕ × World

pub data DemoError : Type 0 where
  not_lower send_failed recv_failed still_live not_denied : DemoError
  refused : Full → DemoError
  not_spawned : LoadError → DemoError

abbrev pub DemoAct : Type 0 → Type 0
DemoAct A = Exec DemoError World A

module _ {A : Type 0} where
  abbrev pub lifted : {E : Type 0} → (E → DemoError) → Result E A → Result DemoError A
  lifted f (ok a) = ok a
  lifted f (err e) = err (f e)

  -- a call that borrows the objects, and one that borrows the allocator
  unfoldable pub on_objects : Exec Full RootCourt A → DemoAct A
  on_objects m w = let (r, o) = m w.objects in (lifted refused r, record w { objects = o })

  unfoldable pub on_kernel : LoadAct A → DemoAct A
  on_kernel m w = let (r, k) = m w.kernel in (lifted not_spawned r, record w { kernel = k })

pub record Identities : Type 0 where
  pub app_court : ℕ
  pub app_cap : ℕ
  pub net_court : ℕ
  pub net_cap : ℕ

-- The capabilities for two courts, each given with its object.
unfoldable pub mint_both : ℕ × ℕ → ℕ × ℕ → Exec Full RootCourt Identities
unfolding mint
mint_both app net = do
  app_cap ← mint app.1 right_send
  net_cap ← mint net.1 right_recv
  pure (record { app_court = app.0; app_cap = app_cap; net_court = net.0; net_cap = net_cap })

unfoldable pub make_identities : Exec Full RootCourt Identities
unfolding spawn_court mint_both
make_identities = do
  app ← spawn_court "app" "/court/app"
  net ← spawn_court "net" "/court/net"
  mint_both app net

-- The address of the ring, and the two courts.
unfoldable pub spawn_both :
    Bool → List ℕ → List ℕ → Identities → LoadAct (ℕ × (Courtlet × Courtlet))
unfolding spawn new_block
spawn_both la57 app_image net_image i = do
  (ring_phys, ring) ← new_block no_ring_page 1 ring_words
  app ← spawn la57 "app" app_image i.app_cap right_send i.app_court ring_phys
  net ← spawn la57 "net" net_image i.net_cap right_recv i.net_court ring_phys
  pure (ring, (app, net))

-- The kernel's tables are noted, those of the court loaded, and in the end the kernel's again.
unfoldable pub enter : Processor → Courtlet → DemoAct ℕ
enter cpu court w =
    let tables = phys_part court.cr3 in
    let inside = record w { kernel = record w.kernel { loaded_cr3 = tables } } in
    let (ret, w') = cpu tables court.stack_top court.entry inside in
    let after = record w'.kernel { loaded_cr3 = phys_part w.kernel.loaded_cr3 } in
    (ok ret, record w' { kernel = after })

-- The entry points are looked at, then the app sends and the net receives.
unfoldable pub exchange : Processor → Courtlet → Courtlet → DemoAct (Unit {0})
unfolding enter
exchange cpu app net = do
  lift (guard (ltb app.entry lower_half_end && ltb net.entry lower_half_end) not_lower)
  sent ← enter cpu app
  lift (guard (nat_eq sent st_sent) send_failed)
  recvd ← enter cpu net
  lift (guard (nat_eq (recvd % 256) st_recv) recv_failed)

-- `(*app.boot).rights = 0`, then `revoked.store(1)`
unfoldable pub tell_revoked : Courtlet → ℕ → DemoAct (Unit {0})
tell_revoked app ring w =
    let k = w.kernel in
    let memory = written (ring + 32) 1 (written (app.boot + 16) 0 k.memory) in
    (ok tt, record w { kernel = record k { memory = memory } })

abbrev pub is_dead : Option ℕ → Bool
is_dead none = false
is_dead (some r) = nat_eq r 0

unfoldable pub check_dead : ℕ → DemoAct (Unit {0})
check_dead cap w = (guard (is_dead (cap_rights w.objects cap)) still_live, w)

unfoldable pub expect_denied : Processor → Courtlet → DemoAct (Unit {0})
unfolding enter
expect_denied cpu app = do denied ← enter cpu app; lift (guard (nat_eq denied st_denied) not_denied)

-- `run_demo` from the revocation on
unfoldable pub revoke_demo : Processor → ℕ → Courtlet → ℕ → DemoAct (Unit {0})
unfolding on_objects revoke_cap tell_revoked check_dead expect_denied
revoke_demo cpu cap app ring = do
  on_objects (revoke_cap cap)
  tell_revoked app ring
  check_dead cap
  expect_denied cpu app

unfoldable pub run_demo : Processor → Bool → List ℕ → List ℕ → DemoAct (Unit {0})
unfolding on_objects make_identities on_kernel spawn_both exchange revoke_demo
run_demo cpu la57 app_image net_image = do
  i ← on_objects make_identities
  (ring, (app, net)) ← on_kernel (spawn_both la57 app_image net_image i)
  exchange cpu app net
  revoke_demo cpu i.app_cap app ring
