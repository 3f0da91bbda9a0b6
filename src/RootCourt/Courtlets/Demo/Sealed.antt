-- ===== src/RootCourt/Courtlets/Demo/Sealed.antt =====
-- crates/root-court/src/courtlet.rs: what `run_demo` does to capabilities, over courts that are trusted
-- with them.
use court_kernel.Prelude.{
  ℕ, ◌+◌, ◌%◌, Bool, ◌&&◌, ◌≤◌, ◌<◌, ◌≡◌, refl, ap, subst, ◌∙◌, ◌⊎◌, inl, inr, some, List, nat_eq,
  ltb, Result, ok, err, arith, Result-cases, Bool-cases, if◌then◌else◌,
}
use court_kernel.Prelude.Chain.{◌>>=◌, ◌>>◌, bind_elim}
use court_kernel.Hosted.Types.{u64_mod}
use court_kernel.Images.{st_sent, st_recv, st_denied}
use court_kernel.RootCourt.Objects.{
  Full, right_send, right_recv, no_such_cap, revoke_cap, cap_rights,
}
use court_kernel.RootCourt.Objects.Caps.{Below, revoke_cap_lem}
use court_kernel.RootCourt.Loader.{LoadError, lower_half_end}
use court_kernel.RootCourt.Paging.{phys_part}
use court_kernel.RootCourt.Courtlets.{Courtlet}
use court_kernel.RootCourt.Courtlets.Demo.{
  Processor, World, DemoError, lifted, refused, not_spawned, still_live, not_denied, not_lower,
  send_failed, recv_failed, on_objects, on_kernel, make_identities, spawn_both, enter, exchange,
  tell_revoked, check_dead, expect_denied, revoke_demo, run_demo,
}
use court_kernel.RootCourt.Courtlets.Demo.Made.{make_identities_lem}

abbrev Fine : DemoError → Type 0
Fine e = ¬ (e ≡ still_live) × ¬ (e ≡ refused no_such_cap) × ¬ (e ≡ not_denied)

not_lower-Fine : Fine not_lower
not_lower-Fine = (λ h. ground (arith, h), λ h. ground (arith, h), λ h. ground (arith, h))

send_failed-Fine : Fine send_failed
send_failed-Fine = (λ h. ground (arith, h), λ h. ground (arith, h), λ h. ground (arith, h))

recv_failed-Fine : Fine recv_failed
recv_failed-Fine = (λ h. ground (arith, h), λ h. ground (arith, h), λ h. ground (arith, h))

refused-Fine : (d : Full) → ¬ (d ≡ no_such_cap) → Fine (refused d)
refused-Fine d f = (λ h. ground (arith, h), λ h. f (cc h), λ h. ground (arith, h))

not_spawned-Fine : (d : LoadError) → Fine (not_spawned d)
not_spawned-Fine d = (λ h. ground (arith, h), λ h. ground (arith, h), λ h. ground (arith, h))

same-Fine : (d e : DemoError) → Fine d → Path (Result DemoError (Unit {0})) (err d) (err e) → Fine e
same-Fine d e f h = subst Fine (cc h) f

-- What the kernel relies on: a court that it enters could write the objects of the kernel, and does not.
abbrev pub Trusted : Processor → Type 0
Trusted cpu =
    (tables stack entry : ℕ) (w : World) → (cpu tables stack entry w).1.objects ≡ w.objects

-- what a court answers
abbrev answer_of : Processor → Courtlet → World → ℕ
answer_of cpu court w =
    let tables = phys_part court.cr3 in
    (cpu tables court.stack_top court.entry
      (record w { kernel = record w.kernel { loaded_cr3 = tables } })).0

exchange_objects :
    (cpu : Processor) (app net : Courtlet) (w : World)
    → Trusted cpu
    → let (res, t) = exchange cpu app net w in
      (t.objects ≡ w.objects) × ((e : DemoError) → res ≡ err e → Fine e)
unfolding exchange ◌>>=◌ ◌>>◌ enter
exchange_objects cpu app net w trusted =
    let u = (enter cpu app w).1 in
    let one : u.objects ≡ w.objects = trusted _ _ _ _ in
    let two : (enter cpu net u).1.objects ≡ u.objects = trusted _ _ _ _ in
    let sent = answer_of cpu app w in
    let recvd = answer_of cpu net u in
    elim (Bool-cases (ltb app.entry lower_half_end && ltb net.entry lower_half_end)) [
      | inr high ↦ rw (exchange, high) (refl, λ e h. same-Fine not_lower e not_lower-Fine h)
      | inl low ↦ elim (Bool-cases (nat_eq sent st_sent)) [
        | inr other ↦
            rw (exchange, low, other) (one, λ e g. same-Fine send_failed e send_failed-Fine g)
        | inl as_sent ↦ elim (Bool-cases (nat_eq (recvd % 256) st_recv)) [
          | inr other ↦
              rw (exchange, low, as_sent, other)
                (two ∙ one, λ e k. same-Fine recv_failed e recv_failed-Fine k)
          | inl got ↦
              rw (exchange, low, as_sent, got) (two ∙ one, λ e k. absurd (ground (arith, k)))
        ]
      ]
    ]

expect_denied_objects :
    (cpu : Processor) (app : Courtlet) (w : World)
    → Trusted cpu
    → let (res, t) = expect_denied cpu app w in
      (t.objects ≡ w.objects) × ¬ (res ≡ err still_live) × ¬ (res ≡ err (refused no_such_cap))
unfolding expect_denied ◌>>=◌ enter
expect_denied_objects cpu app w trusted =
    let one : (enter cpu app w).1.objects ≡ w.objects = trusted _ _ _ _ in
    elim (Bool-cases (nat_eq (answer_of cpu app w) st_denied)) [
      | inl as_denied ↦
          rw (expect_denied, as_denied) (one, λ g. ground (arith, g), λ g. ground (arith, g))
      | inr other ↦ rw (expect_denied, other) (one, λ g. ground (arith, g), λ g. ground (arith, g))
    ]

abbrev Sealed : World → Result DemoError (Unit {0}) × World → Type 0
Sealed w (res, t) =
    ((id : ℕ) → id ≤ w.objects.next_cap → cap_rights t.objects id ≡ cap_rights w.objects id)
    × ¬ (res ≡ err still_live)
    × ¬ (res ≡ err (refused no_such_cap))
    × ((res ≡ ok tt) ⊎ (res ≡ err not_denied)
        → (cap_rights t.objects (w.objects.next_cap + 1) ≡ some 0)
          × (cap_rights t.objects (w.objects.next_cap + 2) ≡ some right_recv))

-- An end that says nothing of the revocation.
Fine-Sealed :
    (w t : World) (e : DemoError)
    → ((id : ℕ) → id ≤ w.objects.next_cap → cap_rights t.objects id ≡ cap_rights w.objects id)
    → Fine e
    → Sealed w (err e, t)
Fine-Sealed w t e old (live, known, denied) = (
  old,
  λ h. live (cc h),
  λ h. known (cc h),
  λ h. elim h [ inl x ↦ absurd (ground (arith, x)) | inr x ↦ absurd (denied (cc x)) ],
)

revoke_demo_lem :
    (cpu : Processor) (cap r : ℕ) (app : Courtlet) (ring : ℕ) (w : World)
    → Trusted cpu
    → cap_rights w.objects cap ≡ some r
    → let (res, t) = revoke_demo cpu cap app ring w in
      ((id : ℕ)
        → cap_rights t.objects id ≡ (if nat_eq cap id then some 0 else cap_rights w.objects id))
      × ¬ (res ≡ err still_live)
      × ¬ (res ≡ err (refused no_such_cap))
unfolding revoke_demo ◌>>◌ on_objects tell_revoked check_dead
revoke_demo_lem cpu cap r app ring w trusted h = elim (revoke_cap_lem w.objects cap) [
  | inl (unknown, _, _) ↦ absurd (ground (arith, h, unknown))
  | inr (e, has) ↦
      let dead : cap_rights (revoke_cap cap w.objects).1 cap ≡ some 0 = ground (arith, has cap) in
      let (same, live, known) =
        expect_denied_objects cpu app
          ((tell_revoked app ring (record w { objects = (revoke_cap cap w.objects).1 })).1)
          trusted in
      rw (e, dead) (λ id. ap (λ o. cap_rights o id) same ∙ has id, live, known)
]

module _ {A E : Type 0} (f : E → DemoError) where
  lifted-err :
      (r : Result E A) (e : DemoError)
      → Path (Result DemoError A) (lifted f r) (err e)
      → (d : E) × (r ≡ err d) × (f d ≡ e)
  lifted-err (ok a) e h = absurd (ground (arith, h))
  lifted-err (err d) e h = (d, refl, cc h)

  lifted-ok : (r : Result E A) (a : A) → Path (Result DemoError A) (lifted f r) (ok a) → r ≡ ok a
  lifted-ok (ok b) a h = ap ok (cc h)
  lifted-ok (err d) a h = absurd (ground (arith, h))

-- From the courts that are ready to the end.
courts-Sealed :
    (cpu : Processor) (cap ring : ℕ) (app net : Courtlet) (w t : World)
    → Trusted cpu
    → cap ≡ w.objects.next_cap + 1
    → ((id : ℕ) → id ≤ w.objects.next_cap → cap_rights t.objects id ≡ cap_rights w.objects id)
    → cap_rights t.objects (w.objects.next_cap + 1) ≡ some right_send
    → cap_rights t.objects (w.objects.next_cap + 2) ≡ some right_recv
    → Sealed w ((exchange cpu app net >> revoke_demo cpu cap app ring) t)
unfolding ◌>>◌
courts-Sealed cpu cap ring app net w t trusted is old send recv =
    let (same, fine) = exchange_objects cpu app net t trusted in
    let u = (exchange cpu app net t).1 in
    elim (Result-cases (exchange cpu app net t).0) [
      | inl (e, h) ↦
          rw h (Fine-Sealed w u e (λ id k. ap (λ o. cap_rights o id) same ∙ old id k) (fine e h))
      | inr (_, h) ↦
          let live = ap (λ o. cap_rights o cap) same ∙ ap (cap_rights t.objects) is ∙ send in
          let (has, alive, known) = revoke_demo_lem cpu cap right_send app ring u trusted live in
          rw h (
            λ id k. has id ∙ ground (arith, is, same, old id k),
            alive,
            known,
            λ _. (
              has (w.objects.next_cap + 1) ∙ ground (arith, is),
              has (w.objects.next_cap + 2) ∙ ground (arith, is, same, recv),
            ),
          )
    ]

-- Over any images, and any processor on which the courts that are entered leave the kernel's objects
-- alone, whatever they answer and else write to the kernel: with no number above the counter in the table of capabilities
-- and two numbers left: however the demo ends, the capabilities that there were keep their rights;
-- it never ends because the revoked capability is unknown or still live; and where it succeeds, or
-- fails since the revoked send is not denied, the capability of the app has no rights left and that
-- of the net has its own.
pub run_demo_lem :
    (cpu : Processor) (la57 : Bool) (app_image net_image : List ℕ) (w : World)
    → Trusted cpu
    → Below w.objects.next_cap w.objects.caps
    → w.objects.next_cap + 2 < u64_mod
    → let (res, t) = run_demo cpu la57 app_image net_image w in
      ((id : ℕ) → id ≤ w.objects.next_cap → cap_rights t.objects id ≡ cap_rights w.objects id)
      × ¬ (res ≡ err still_live)
      × ¬ (res ≡ err (refused no_such_cap))
      × ((res ≡ ok tt) ⊎ (res ≡ err not_denied)
          → (cap_rights t.objects (w.objects.next_cap + 1) ≡ some 0)
            × (cap_rights t.objects (w.objects.next_cap + 2) ≡ some right_recv))
unfolding run_demo on_objects on_kernel
run_demo_lem cpu la57 app_image net_image w trusted b room =
    let (old, known, new) = make_identities_lem w.objects b room in
    let made : World = record w { objects = (make_identities w.objects).1 } in
    bind_elim (on_objects make_identities) _ w (Sealed w)
      (λ e h.
        let (d, g, is) = lifted-err refused (make_identities w.objects).0 e h in
        Fine-Sealed w made e old (subst Fine is (refused-Fine d (λ x. known (g ∙ ap err x)))))
      (λ i h.
        let (is, _, send, recv) = new i (lifted-ok refused (make_identities w.objects).0 i h) in
        bind_elim (on_kernel (spawn_both la57 app_image net_image i)) _ made (Sealed w)
          (λ e g.
            let both = spawn_both la57 app_image net_image i w.kernel in
            let (d, _, is) = lifted-err not_spawned both.0 e g in
            Fine-Sealed w (record made { kernel = both.1 }) e old
              (subst Fine is (not_spawned-Fine d)))
          (λ c _. courts-Sealed cpu i.app_cap c.0 c.1.0 c.1.1 w _ trusted is old send recv))
