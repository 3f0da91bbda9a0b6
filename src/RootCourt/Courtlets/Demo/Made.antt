-- ===== src/RootCourt/Courtlets/Demo/Made.antt =====
-- crates/root-court/src/courtlet.rs: the courts and capabilities that the demo makes.
use court_kernel.Prelude.{
  ℕ, ◌+◌, ◌%◌, ◌≤◌, ◌<◌, ◌≡◌, refl, sym, ◌∙◌, inl, inr, String, some, Result, ok, err, arith, ap,
  Option-cases, Result-cases,
}
use court_kernel.Prelude.Chain.{◌>>=◌, bind_elim}
use court_kernel.Hosted.Types.{u64_mod}
use court_kernel.RootCourt.Objects.{
  right_send, right_recv, Full, RootCourt, no_such_cap, fill, create_court, bind, spawn_court, mint,
  cap_rights, rights_in,
}
use court_kernel.RootCourt.Objects.Caps.{Below, mint_lem}
use court_kernel.RootCourt.Courtlets.Demo.{Identities, mint_both, make_identities}

-- A call that leaves the capabilities alone, and knows of none.
abbrev Aside : {A : Type 0} → RootCourt → Result Full A × RootCourt → Type 0
Aside s (res, t) = (t.caps ≡ s.caps) × (t.next_cap ≡ s.next_cap) × ¬ (res ≡ err no_such_cap)

create_court-Aside : (name : String) (s : RootCourt) → Aside s (create_court name s)
unfolding create_court
create_court-Aside name s =
    elim (Option-cases
      (fill s.courts (record { id = (s.next_court + 1) % u64_mod; name = name }))) [
        | inl e ↦ rw (e, create_court) (refl, refl, λ h. ground (arith, h))
        | inr (more, e) ↦ rw (e, create_court) (refl, refl, λ h. ground (arith, h))
      ]

bind-Aside : (path : String) (object : ℕ) (s : RootCourt) → Aside s (bind path object s)
unfolding bind
bind-Aside path object s =
    elim (Option-cases (fill s.bindings (record { path = path; object = object }))) [
      | inl e ↦ rw (e, bind) (refl, refl, λ h. ground (arith, h))
      | inr (more, e) ↦ rw (e, bind) (refl, refl, λ h. ground (arith, h))
    ]

spawn_court-Aside : (name path : String) (s : RootCourt) → Aside s (spawn_court name path s)
unfolding spawn_court
spawn_court-Aside name path s =
    let (caps, next, known) = create_court-Aside name s in
    let made = (create_court name s).1 in
    let object = (made.next_object + 1) % u64_mod in
    let (caps', next', known') = bind-Aside path object (record made { next_object = object }) in
    elim (Result-cases (create_court name s).0) [
      | inl (e, h) ↦ rw (spawn_court, h) (caps, next, λ bad. known (rw h (cc bad)))
      | inr (court, h) ↦
          elim (Result-cases (bind path object (record made { next_object = object })).0) [
            | inl (e, g) ↦
                rw (spawn_court, h, g) (caps' ∙ caps, next' ∙ next, λ bad. known' (rw g (cc bad)))
            | inr (u, g) ↦
                rw (spawn_court, h, g) (caps' ∙ caps, next' ∙ next, λ bad. ground (arith, bad))
          ]
    ]

mint-next :
    (object rights id : ℕ) (s : RootCourt)
    → (mint object rights s).0 ≡ ok id
    → (mint object rights s).1.next_cap ≡ id
unfolding mint
mint-next object rights id s h =
    elim (Option-cases (
      fill s.caps (record { id = (s.next_cap + 1) % u64_mod; object = object; rights = rights }))) [
        | inl e ↦ absurd (ground (arith, e, h))
        | inr (more, e) ↦ ground (arith, e, h)
      ]

-- Older capabilities keep their rights; the two new ones have the next numbers.
abbrev pub Made : RootCourt → Result Full Identities × RootCourt → Type 0
Made s (res, t) =
    ((id : ℕ) → id ≤ s.next_cap → cap_rights t id ≡ cap_rights s id)
    × ¬ (res ≡ err no_such_cap)
    × ((i : Identities)
        → res ≡ ok i
        → (i.app_cap ≡ s.next_cap + 1)
          × (i.net_cap ≡ s.next_cap + 2)
          × (cap_rights t (s.next_cap + 1) ≡ some right_send)
          × (cap_rights t (s.next_cap + 2) ≡ some right_recv))

minted :
    (app net : ℕ × ℕ) (s : RootCourt)
    → Below s.next_cap s.caps
    → s.next_cap + 2 < u64_mod
    → Made s (mint_both app net s)
unfolding mint_both ◌>>=◌
minted app net s b room = elim (mint_lem app.1 right_send s b (omega arith)) [
  | inl (full, e, same) ↦ rw e (
    λ id h. ap (λ x. cap_rights x id) same,
    λ bad. ground (arith, bad),
    λ i bad. absurd (ground (arith, bad)),
  )
  | inr (less, e, new, has, _, _, b') ↦
      let one = mint-next app.1 right_send (s.next_cap + 1) s e in
      let t = (mint app.1 right_send s).1 in
      elim (mint_lem net.1 right_recv t b' (omega (arith, one))) [
        | inl (full', e', same') ↦
            rw (e, e')
              (
                λ id h. ap (λ x. cap_rights x id) same' ∙ has id ∙ ground arith,
                λ bad. ground (arith, bad),
                λ i bad. absurd (ground (arith, bad)),
              )
        | inr (less', e', new', has', _, _, _) ↦
            rw (e, e')
              (
                λ id h. has' id ∙ ground (arith, one, has id),
                λ bad. ground (arith, bad),
                λ i fine. (
                  ground (arith, fine),
                  ground (arith, fine, one),
                  has' (s.next_cap + 1) ∙ ground (arith, one, has (s.next_cap + 1)),
                  has' (s.next_cap + 2) ∙ ground (arith, one),
                ),
              )
      ]
]

-- What was done to the courts and the namespace before does not matter to it.
Made-Aside :
    (s t : RootCourt) (o : Result Full Identities × RootCourt)
    → t.caps ≡ s.caps
    → t.next_cap ≡ s.next_cap
    → Made t o
    → Made s o
Made-Aside s t o caps next (old, known, new) = (
  λ id h. old id (omega (arith, next)) ∙ ap (λ c. rights_in c id) caps,
  known,
  λ i fine.
      let (a, b, c, d) = new i fine in
      (
        a ∙ ap (λ n. n + 1) next,
        b ∙ ap (λ n. n + 2) next,
        ap (λ n. cap_rights o.1 (n + 1)) (sym next) ∙ c,
        ap (λ n. cap_rights o.1 (n + 2)) (sym next) ∙ d,
      ),
)

Made-err :
    (s t : RootCourt) (e : Full)
    → t.caps ≡ s.caps
    → t.next_cap ≡ s.next_cap
    → ¬ (e ≡ no_such_cap)
    → Made s (err e, t)
Made-err s t e caps next known = (
  λ id h. ap (λ c. rights_in c id) caps,
  λ bad. known (cc bad),
  λ i bad. absurd (ground (arith, bad)),
)

-- With no number above the counter in the table, and two numbers left.
pub make_identities_lem :
    (s : RootCourt)
    → Below s.next_cap s.caps
    → s.next_cap + 2 < u64_mod
    → Made s (make_identities s)
unfolding make_identities
make_identities_lem s b room =
    let (caps, next, known) = spawn_court-Aside "app" "/court/app" s in
    let t = (spawn_court "app" "/court/app" s).1 in
    let (caps', next', known') = spawn_court-Aside "net" "/court/net" t in
    let u = (spawn_court "net" "/court/net" t).1 in
    let all : u.caps ≡ s.caps = caps' ∙ caps in
    let last : u.next_cap ≡ s.next_cap = next' ∙ next in
    bind_elim (spawn_court "app" "/court/app") _ s (Made s)
      (λ e h. Made-err s t e caps next (λ bad. known (rw h (ap err bad))))
      (λ app h.
        bind_elim (spawn_court "net" "/court/net") _ t (Made s)
          (λ e g. Made-err s u e all last (λ bad. known' (rw g (ap err bad))))
          (λ net g.
            Made-Aside s u (mint_both app net u) all last
              (minted app net u (rw (all, last) b) (omega (arith, last)))))
