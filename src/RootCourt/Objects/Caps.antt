-- ===== src/RootCourt/Objects/Caps.antt =====
-- crates/root-court/src/object.rs: the numbers of capabilities are fresh, and a revoked one has no
-- rights left.
use court_kernel.Prelude.{
  ℕ, suc, ◌+◌, ◌%◌, ◌≤◌, ◌<◌, ◌≡◌, refl, sym, ap, ◌∙◌, ◌⊎◌, inl, inr, Option, none, some, List, [],
  ◌∷◌, length, nat_eq, ok, err, arith, Option-cases, Bool-cases, if◌then◌else◌,
}
use court_kernel.Hosted.Types.{u64_mod}
use court_kernel.RootCourt.Objects.Slots.{fill-cases, fill-count}
use court_kernel.RootCourt.Objects.{
  Cap, RootCourt, fill, count, clear, rights_in, mint, revoke_cap, cap_rights, no_such_cap,
  cspace_full,
}

-- No capability above a number is in the table.
abbrev pub Below : ℕ → List (Option Cap) → Type 0
Below n slots = (id r : ℕ) → rights_in slots id ≡ some r → id ≤ n

-- A new capability of a fresh number has its rights, and the others keep theirs.
fill-rights :
    (slots rest : List (Option Cap)) (c : Cap) (id : ℕ)
    → rights_in slots c.id ≡ none
    → fill slots c ≡ some rest
    → rights_in rest id ≡ (if nat_eq c.id id then some c.rights else rights_in slots id)
unfolding fill rights_in
fill-rights [] rest c id new h = absurd (ground arith)
fill-rights (none ∷ slots) rest c id new h = ground arith
fill-rights (some b ∷ slots) rest c id new h = elim (Option-cases (fill slots c)) [
  | inl e ↦ absurd (ground (arith, e))
  | inr (more, e) ↦ ground (arith, e, fill-rights slots more c id (ground arith) e)
]

clear-rights :
    (slots rest : List (Option Cap)) (id other : ℕ)
    → clear slots id ≡ some rest
    → rights_in rest other ≡ (if nat_eq id other then some 0 else rights_in slots other)
unfolding clear rights_in
clear-rights [] rest id other h = absurd (ground arith)
clear-rights (none ∷ slots) rest id other h = elim (Option-cases (clear slots id)) [
  | inl e ↦ absurd (ground (arith, e))
  | inr (more, e) ↦ ground (arith, e, clear-rights slots more id other e)
]
clear-rights (some b ∷ slots) rest id other h = elim (Option-cases (clear slots id)) [
  | inl e ↦ ground (arith, e)
  | inr (more, e) ↦ ground (arith, e, clear-rights slots more id other e)
]

clear-known :
    (slots : List (Option Cap)) (id r : ℕ)
    → rights_in slots id ≡ some r
    → (rest : List (Option Cap)) × (clear slots id ≡ some rest)
unfolding clear rights_in
clear-known [] id r h = absurd (ground arith)
clear-known (none ∷ slots) id r h =
    let (more, e) = clear-known slots id r h in (none ∷ more, rw (e, clear) refl)
clear-known (some b ∷ slots) id r h = elim (Bool-cases (nat_eq b.id id)) [
  | inl e ↦ (some (record b { rights = 0 }) ∷ slots, rw (clear, e) refl)
  | inr e ↦
      let (more, f) = clear-known slots id r (rw (rights_in, e) at h) in
      (some b ∷ more, rw (clear, e, f) refl)
]

clear-unknown :
    (slots : List (Option Cap)) (id : ℕ) → rights_in slots id ≡ none → clear slots id ≡ none
unfolding clear rights_in
clear-unknown [] id h = refl
clear-unknown (none ∷ slots) id h = rw (clear-unknown slots id h, clear) refl
clear-unknown (some b ∷ slots) id h = elim (Bool-cases (nat_eq b.id id)) [
  | inl e ↦ absurd (ground (arith, e))
  | inr e ↦ rw (clear, e, clear-unknown slots id (rw (rights_in, e) at h)) refl
]

-- Revoking a known capability takes all of its rights and leaves every other as it was; revoking
-- an unknown one is refused and changes nothing.
pub revoke_cap_lem :
    (s : RootCourt) (id : ℕ)
    → let (res, t) = revoke_cap id s in
      ((cap_rights s id ≡ none) × (res ≡ err no_such_cap) × (t ≡ s))
      ⊎ ((res ≡ ok tt)
          × ((other : ℕ)
              → cap_rights t other ≡ (if nat_eq id other then some 0 else cap_rights s other)))
unfolding revoke_cap
revoke_cap_lem s id = elim (Option-cases (rights_in s.caps id)) [
  | inl e ↦ rw (clear-unknown s.caps id e, revoke_cap) (inl (e, refl, refl))
  | inr (r, e) ↦
      let (rest, f) = clear-known s.caps id r e in
      rw (f, revoke_cap) (inr (refl, λ other. clear-rights s.caps rest id other f))
]

unseen :
    (n : ℕ) (slots : List (Option Cap))
    → Below n slots
    → n + 1 < u64_mod
    → rights_in slots ((n + 1) % u64_mod) ≡ none
unseen n slots b h = elim (Option-cases (rights_in slots ((n + 1) % u64_mod))) [
  | inl e ↦ e
  | inr (r, e) ↦ absurd (omega (arith, b ((n + 1) % u64_mod) r e))
]

-- With no number above the counter in the table, and the counter short of 2^64: minting is refused,
-- and changes nothing, while every slot is taken. While one is free it gives out the next number,
-- which no capability had and which now has the rights that were asked for; every other number
-- has the rights it had, one slot more is taken, and no number is above the counter.
pub mint_lem :
    (object rights : ℕ) (s : RootCourt)
    → Below s.next_cap s.caps
    → s.next_cap + 1 < u64_mod
    → let (res, t) = mint object rights s in
      ((count s.caps ≡ length s.caps) × (res ≡ err cspace_full) × (t ≡ s))
      ⊎ ((count s.caps < length s.caps)
          × (res ≡ ok (s.next_cap + 1))
          × (cap_rights s (s.next_cap + 1) ≡ none)
          × ((id : ℕ)
              → cap_rights t id
                ≡ (if nat_eq (s.next_cap + 1) id then some rights else cap_rights s id))
          × (count t.caps ≡ suc (count s.caps))
          × (length t.caps ≡ length s.caps)
          × Below t.next_cap t.caps)
unfolding mint
mint_lem object rights s b room =
    let next : (s.next_cap + 1) % u64_mod ≡ s.next_cap + 1 = omega arith in
    let new = unseen s.next_cap s.caps b room in
    let c : Cap = record { id = (s.next_cap + 1) % u64_mod; object = object; rights = rights } in
    elim (fill-cases s.caps c) [
      | inl (full, e) ↦ rw (e, mint) (inl (full, refl, refl))
      | inr (less, rest, e) ↦
          let has = λ (id : ℕ). fill-rights s.caps rest c id new e in
          let (more, same) = fill-count s.caps rest c e in
          rw (e, mint)
            (inr (
              less,
              ap ok next,
              ap (rights_in s.caps) (sym next) ∙ new,
              λ id.
                  has id ∙ ap (λ n. if nat_eq n id then some rights else rights_in s.caps id) next,
              more,
              same,
              λ id r f. ground (arith, next, has id, b id r),
            ))
    ]
