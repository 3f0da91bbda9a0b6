-- ===== src/Linux/Root/Steady.antt =====
-- crates/court-hosted-linux/src/root.rs: after the grants nothing writes `caps_by_key`.
use court_kernel.Prelude.Chain.{bind_elim, ◌>>=◌, ◌>>◌}
use court_kernel.Prelude.{
  ℕ, ◌≡◌, refl, ◌∙◌, Bool, true, false, String, Option, none, some, List, [], ◌∷◌, Table, pure,
  raise, lift, if◌then◌else◌,
}
use court_kernel.Linux.Protocol.{WireMessage, WireTrace}
use court_kernel.Linux.Manifest.{RevokePolicy, FaultPolicy, PeerDownPolicy}
use court_kernel.Linux.Root.{
  World, RootError, Act, Peer, first_message, record_trace, connected, transmit, receive,
  keep_trace, record_trace_from, court_id_of,
}
use court_kernel.Linux.Root.Setup.{for_all}
use court_kernel.Linux.Root.Demo.{
  run_revoke, expect_child_exit, run_fault, on_demo_done, run_peer_down, expect_children,
}

pub record Steady {A : Type 0} (m : Act A) : Type 0 where
  pub same_keys : (w : World) → (m w).1.state.caps_by_key ≡ w.state.caps_by_key

-- An action that writes no `caps_by_key` itself.
pub plainly :
    {A : Type 0} {m : Act A}
    → ((w : World) → (m w).1.state.caps_by_key ≡ w.state.caps_by_key)
    → Steady m
plainly h = record { same_keys = h }

module _ {A B : Type 0} where
  pub bind : {m : Act A} {f : A → Act B} → Steady m → ((a : A) → Steady (f a)) → Steady (m >>= f)
  bind {m = m} {f = f} p q = plainly λ w.
      bind_elim m f w (λ x. x.1.state.caps_by_key ≡ w.state.caps_by_key) (λ e h. p.same_keys w)
        (λ a h. (q a).same_keys (m w).1 ∙ p.same_keys w)

  pub next : {m : Act A} {f : Act B} → Steady m → Steady f → Steady (m >> f)
  unfolding ◌>>=◌ ◌>>◌
  next p q = bind p (λ _. q)

raises : {A : Type 0} (e : RootError) → Steady {A = A} (raise e)
raises e = plainly λ w. refl

branches : {A : Type 0} (b : Bool) {m k : Act A} → Steady m → Steady k → Steady (if b then m else k)
branches true p q = p
branches false p q = q

pub record_trace-Steady : (e : WireTrace) → Steady (record_trace e)
unfolding record_trace
record_trace-Steady e = plainly λ w. refl

pub connected-Steady : (court : String) → Steady (connected court)
unfolding connected
connected-Steady court = plainly λ w. refl

pub transmit-Steady : (court : String) (m : WireMessage) → Steady (transmit court m)
unfolding transmit
transmit-Steady court m = bind (connected-Steady court) (λ p. plainly λ w. refl)

receive-Steady : (court : String) → Steady (receive court)
unfolding receive
receive-Steady court = bind (connected-Steady court) (λ p.
    bind {m = lift (first_message p)} (plainly λ w. refl)
      (λ x. next (plainly λ w. refl) (plainly λ w. refl)))

keep_trace-Steady : (m : WireMessage) → Steady (keep_trace m)
unfolding keep_trace
keep_trace-Steady (WireMessage.trace event) = record_trace-Steady event
keep_trace-Steady other = plainly λ w. refl

pub record_trace_from-Steady : (court : String) → Steady (record_trace_from court)
unfolding record_trace_from
record_trace_from-Steady court = bind (receive-Steady court) keep_trace-Steady

expect_child_exit-Steady : (court : String) (code : ℕ) → Steady (expect_child_exit court code)
unfolding expect_child_exit
expect_child_exit-Steady court code = bind (plainly λ w. refl) (λ status. plainly λ w. refl)

pub run_revoke-Steady : (r : RevokePolicy) → Steady (run_revoke r)
unfolding run_revoke
run_revoke-Steady r = bind (plainly λ w. refl) (λ held. next (plainly λ w. refl) (
    next (record_trace-Steady _)
      (next (transmit-Steady r.court _) (record_trace_from-Steady r.court))))

pub run_fault-Steady : (f : FaultPolicy) → Steady (run_fault f)
unfolding run_fault court_id_of
run_fault-Steady f = next (transmit-Steady f.court _) (
    next (record_trace_from-Steady f.court) (
      next (expect_child_exit-Steady f.court 42) (
        next (plainly λ w. refl) (
          bind (plainly λ w. refl) (λ id.
            next (plainly λ w. refl) (bind (plainly λ w. refl) (λ path. record_trace-Steady _)))))))

on_demo_done-Steady : (court : String) (m : WireMessage) → Steady (on_demo_done court m)
unfolding on_demo_done
on_demo_done-Steady court (WireMessage.demo_done c st) =
    branches _ (record_trace-Steady _) (raises _)
on_demo_done-Steady court other = plainly λ w. refl

pub run_peer_down-Steady : (p : PeerDownPolicy) → Steady (run_peer_down p)
unfolding run_peer_down
run_peer_down-Steady p = next (transmit-Steady p.court _) (
    next (record_trace-Steady _) (
      next (record_trace_from-Steady p.court)
        (bind (receive-Steady p.court) (on_demo_done-Steady p.court))))

pub for_all-Steady :
    {A : Type 0} {body : A → Act (Unit {0})}
    → ((a : A) → Steady (body a))
    → (xs : List A) → Steady (for_all body xs)
unfolding for_all
for_all-Steady h [] = plainly λ w. refl
for_all-Steady h (x ∷ xs) = next (h x) (for_all-Steady h xs)

child-Steady :
    (court : String) (peer : Option Peer)
    → Steady (elim peer [
      | none ↦ pure {E = RootError} {S = World} tt
      | some _ ↦ expect_child_exit court 0
    ])
child-Steady court none = plainly λ w. refl
child-Steady court (some p) = expect_child_exit-Steady court 0

pub expect_children-Steady : (cs : Table String (Option ℕ)) → Steady (expect_children cs)
unfolding expect_children
expect_children-Steady [] = plainly λ w. refl
expect_children-Steady ((court, code) ∷ more) =
    next (bind (plainly λ w. refl) (λ peer. child-Steady court peer)) (expect_children-Steady more)
