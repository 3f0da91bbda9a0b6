-- ===== src/Hosted/Root/Stopped.antt =====
-- crates/court-hosted/src/lib.rs: a court that was faulted stays so, whatever is called: no method sets
-- a court running again, and a new court takes a new number.
use court_kernel.Prelude.{
  ℕ, suc, ◌+◌, ◌%◌, ◌≤◌, ◌<◌, ◌≡◌, refl, ap, inl, inr, String, some, List, [], ◌∷◌, length, nat_Key,
  nat_eq, Table, get, get-insert_ne, get-insert_self, ◌∙◌, arith, Bool-cases, Option-cases,
}
use court_kernel.Hosted.Types.{CourtId, Court, faulted, u64_mod}
use court_kernel.Hosted.Root.{HostedRoot, create_court, install_corridor, fault_court}
use court_kernel.Hosted.Root.Outcome.{
  lookup-Quiet, open_cap-Quiet, send_outcome, recv_outcome, create_corridor_outcome, grant_outcome,
  revoke_outcome,
}
use court_kernel.Hosted.Root.Run.{
  Call, creates_court, creates_corridor, looks_up, grants, opens, sends, receives, revokes, faults,
  step, run,
}

-- The court is known and faulted, and no new court takes its number in that many calls.
pub record IsStopped (n : ℕ) (court : CourtId) (s : HostedRoot) : Type 0 where
  pub entry : Court
  pub known : get s.courts court ≡ some entry
  pub fallen : entry.state ≡ faulted
  pub numbered : court ≤ s.next_court
  pub room : s.next_court + n < u64_mod

abbrev courts_of : HostedRoot → Table CourtId Court × ℕ
courts_of s = (s.courts, s.next_court)

-- A call that leaves the courts alone.
aside :
    (n : ℕ) (court : CourtId) (s t : HostedRoot)
    → courts_of t ≡ courts_of s
    → IsStopped (suc n) court s
    → IsStopped n court t
aside n court s t e x =
    let a : t.courts ≡ s.courts = ap (λ p. p.0) e in
    let b : t.next_court ≡ s.next_court = ap (λ p. p.1) e in
    record {
      entry = x.entry;
      known = rw a x.known;
      fallen = x.fallen;
      numbered = let h = x.numbered in omega (arith, b);
      room = let h = x.room in omega (arith, b);
    }

create_court-IsStopped :
    (n : ℕ) (name : String) (court : CourtId) (s : HostedRoot)
    → IsStopped (suc n) court s
    → IsStopped n court (create_court name s).1
unfolding create_court
create_court-IsStopped n name court s x =
    let h = x.numbered in
    let r = x.room in
    let next : (s.next_court + 1) % u64_mod ≡ s.next_court + 1 = omega arith in
    record {
      entry = x.entry;
      known =
          get-insert_ne s.courts ((s.next_court + 1) % u64_mod) court _ (λ e. omega arith)
          ∙ x.known;
      fallen = x.fallen;
      numbered = omega (arith, next);
      room = omega (arith, next);
    }

fault_court-IsStopped :
    (n : ℕ) (court other : CourtId) (s : HostedRoot)
    → IsStopped (suc n) court s
    → IsStopped n court (fault_court other s).1
unfolding fault_court
fault_court-IsStopped n court other s x = elim (Option-cases (get s.courts other)) [
  | inl e ↦ rw (e, fault_court) (aside n court s s refl x)
  | inr (k, e) ↦
      rw (e, fault_court)
        (elim (Bool-cases (nat_eq other court)) [
          | inl same ↦
              let is : other ≡ court = ground arith in
              record {
                entry = record k { state = faulted };
                known = rw is (get-insert_self s.courts court (record k { state = faulted }));
                fallen = refl;
                numbered = x.numbered;
                room = let r = x.room in omega arith;
              }
          | inr off ↦ record {
            entry = x.entry;
            known =
                get-insert_ne s.courts other court (record k { state = faulted })
                  (λ at. ground (arith, off, at))
                ∙ x.known;
            fallen = x.fallen;
            numbered = x.numbered;
            room = let r = x.room in omega arith;
          }
        ])
]

step-IsStopped :
    (n : ℕ) (c : Call) (court : CourtId) (s : HostedRoot)
    → IsStopped (suc n) court s
    → IsStopped n court (step c s)
unfolding step
step-IsStopped n (creates_court name) court s x = create_court-IsStopped n name court s x
step-IsStopped n (creates_corridor path a b transport capacity) court s x =
    elim (create_corridor_outcome s path a b transport capacity) [
      | inl (_, e) ↦ aside n court s _ (ap courts_of e) x
      | inr (_, _, e) ↦ unfold install_corridor in aside n court s _ (ap (λ p. courts_of p.1) e) x
    ]
step-IsStopped n (looks_up c path) court s x =
    aside n court s _ (ap courts_of (lookup-Quiet c path s)) x
step-IsStopped n (grants c d rights) court s x = elim (grant_outcome s c d rights) [
  | inl (_, e) ↦ aside n court s _ (ap courts_of e) x
  | inr (_, y) ↦ aside n court s _ (ap courts_of y.after) x
]
step-IsStopped n (opens c d i rights) court s x =
    aside n court s _ (ap courts_of (open_cap-Quiet c d i rights s)) x
step-IsStopped n (sends c i payload) court s x = elim (send_outcome s c i payload) [
  | inl (_, q) ↦ aside n court s _ (ap courts_of q) x
  | inr (_, y) ↦ aside n court s _ (ap courts_of y.after) x
]
step-IsStopped n (receives c i) court s x = elim (recv_outcome s c i) [
  | inl (_, q) ↦ aside n court s _ (ap courts_of q) x
  | inr (_, _, y) ↦ aside n court s _ (ap courts_of y.after) x
]
step-IsStopped n (revokes i) court s x = aside n court s _ (ap courts_of (revoke_outcome s i).1) x
step-IsStopped n (faults c) court s x = fault_court-IsStopped n court c s x

pub run-IsStopped :
    (cs : List Call) (court : CourtId) (s : HostedRoot)
    → IsStopped (length cs) court s
    → IsStopped 0 court (run cs s)
unfolding run
run-IsStopped [] court s x = x
run-IsStopped (c ∷ cs) court s x =
    run-IsStopped cs court (step c s) (step-IsStopped (length cs) c court s x)
