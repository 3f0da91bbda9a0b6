-- ===== src/Images/Tests.antt =====
-- crates/court-images/src/bin: the images on the ring that Root Court makes.
use court_kernel.Prelude.{ℕ, ◌*◌, ◌≡◌, refl, bit_or, arith}
use court_kernel.Images.{
  boot_magic, abi_ring_magic, st_sent, st_denied, BootInfo, AbiRing, app_start, net_start,
}
use court_kernel.Images.Exchange.{app_then_net}

abbrev app_boot : BootInfo
app_boot = record {
  magic = boot_magic;
  cap_id = 2;
  rights = 1;
  ring_virt = 0x0030_0000;
  court_id = 2;
}

abbrev net_boot : BootInfo
net_boot = record {
  magic = boot_magic;
  cap_id = 3;
  rights = 2;
  ring_virt = 0x0030_0000;
  court_id = 3;
}

abbrev ring : AbiRing
ring = record { magic = abi_ring_magic; producer = 0; consumer = 0; revoked = 0; bytes = λ _. 0 }

abbrev dead_ring : AbiRing
dead_ring = record ring { revoked = 1 }

one_not_zero : ¬ (◌≡◌ {A = ℕ} 1 0)
one_not_zero e = omega arith

two_not_zero : ¬ (◌≡◌ {A = ℕ} 2 0)
two_not_zero e = omega arith

-- while the ring is revoked, both images are denied
dead_test :
    (app_start app_boot dead_ring ≡ (st_denied, dead_ring))
    × (net_start net_boot dead_ring ≡ (st_denied, dead_ring))
unfolding app_start net_start
dead_test = (refl, refl)

app_then_net_example :
    let (s, mid) = app_start app_boot ring in
    let (t, end) = net_start net_boot mid in
    (s ≡ st_sent) × (t ≡ bit_or 2 (3 * 256)) × (end.consumer ≡ end.producer)
app_then_net_example =
    app_then_net app_boot net_boot ring refl refl refl refl one_not_zero two_not_zero refl
      (omega arith)
