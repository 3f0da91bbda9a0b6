-- ===== src/Linux/Root/Effects.antt =====
-- crates/court-hosted-linux/src/root.rs: how many calls of `HostedRoot` each handler makes.
use court_kernel.Prelude.{ℕ, ◌*◌, refl, String, Option, none, some, List, [], ◌∷◌, length, arith}
use court_kernel.Linux.Protocol.{WireMessage, WireTrace}
use court_kernel.Linux.Root.{
  Act, record_trace, connected, transmit, receive, keep_trace, record_trace_from, first_message,
}
use court_kernel.Hosted.Root.Run.{looks_up, grants, opens, step}
use court_kernel.Linux.Root.{court_id_of, descriptor_of}
use court_kernel.Linux.Root.Setup.{for_all}
use court_kernel.Linux.Root.Opening.{
  demo_path, answer_lookup, on_lookup, deny_open, on_denied_open, handle_app_lookup_and_denied_open,
  open_known, open_unknown, on_open, handle_grant_and_open,
}
use court_kernel.Hosted.Types.{CourtId, CapId, Descriptor}
use court_kernel.Hosted.Rights
use court_kernel.Hosted.Rights.{Rights}
use court_kernel.Hosted.Root.{lookup, grant_corridor_cap, open_cap}
use court_kernel.Linux.Protocol.{WireCap, to_rights}
use court_kernel.Linux.Root.{Std, on_root, attempt}
use court_kernel.Linux.Root.Opening.{ring_for, open_status}
use court_kernel.Linux.Root.Calls.{
  Effect, bind, next, within, reads_only, gets_only, lifts, returns, raises, branches, cases,
  calls_root, tries_root, modifies,
}

pub record_trace-Effect : (e : WireTrace) → Effect 0 (record_trace e)
unfolding record_trace
record_trace-Effect e = modifies _ (λ w. refl)

pub connected-Effect : (court : String) → Effect 0 (connected court)
unfolding connected
connected-Effect court = reads_only _

pub transmit-Effect : (court : String) (m : WireMessage) → Effect 0 (transmit court m)
unfolding transmit
transmit-Effect court m = bind (connected-Effect court) (λ p. modifies _ (λ w. refl))

pub receive-Effect : (court : String) → Effect 0 (receive court)
unfolding receive
receive-Effect court =
    bind (connected-Effect court)
      (λ p. bind (lifts (first_message p)) (λ x. next (modifies _ (λ w. refl)) (returns x.0)))

keep_trace-Effect : (m : WireMessage) → Effect 0 (keep_trace m)
unfolding keep_trace
keep_trace-Effect (WireMessage.trace event) = record_trace-Effect event
keep_trace-Effect other = raises _

pub record_trace_from-Effect : (court : String) → Effect 0 (record_trace_from court)
unfolding record_trace_from
record_trace_from-Effect court = bind (receive-Effect court) keep_trace-Effect

pub court_id_of-Effect : (court : String) → Effect 0 (court_id_of court)
unfolding court_id_of
court_id_of-Effect court = reads_only _

descriptor_of-Effect : (path : String) → Effect 0 (descriptor_of path)
unfolding descriptor_of
descriptor_of-Effect path = reads_only _

-- A loop makes as many calls as its body does on each element.
pub for_all-Effect :
    {A : Type 0} (n : ℕ) (body : A → Act (Unit {0}))
    → ((a : A) → Effect n (body a))
    → (xs : List A) → Effect (n * length xs) (for_all body xs)
unfolding for_all
for_all-Effect n body h [] = within (omega arith) (returns tt)
for_all-Effect n body h (x ∷ xs) = within (omega arith) (next (h x) (for_all-Effect n body h xs))

pub lookup-Effect : (id : CourtId) (path : String) → Effect 1 (on_root (lookup id path))
unfolding step
lookup-Effect id path = calls_root _ (looks_up id path) (λ s. refl)

grant-Effect :
    (id : CourtId) (d : Descriptor) (rights : Rights)
    → Effect 1 (on_root (grant_corridor_cap id d rights))
unfolding step
grant-Effect id d rights = calls_root _ (grants id d rights) (λ s. refl)

open_cap-Effect :
    (id : CourtId) (d : Descriptor) (held : Option CapId) (rights : Rights)
    → Effect 1 (attempt (open_cap id d held rights))
unfolding step
open_cap-Effect id d held rights = tries_root _ (opens id d held rights) (λ s. refl)

answer_lookup-Effect : (app path : String) → Effect 1 (answer_lookup app path)
unfolding answer_lookup
answer_lookup-Effect app path =
    bind (court_id_of-Effect app) (λ id.
      bind (lookup-Effect id path) (λ d. next (record_trace-Effect _) (transmit-Effect app _)))

on_lookup-Effect : (app : String) (m : WireMessage) → Effect 1 (on_lookup app m)
unfolding on_lookup demo_path
on_lookup-Effect app (WireMessage.lookup path) =
    bind (gets_only _)
      (λ demo. branches _ (answer_lookup-Effect app path) (within (omega arith) (raises _)))
on_lookup-Effect app other = within (omega arith) (raises _)

deny_open-Effect : (app path : String) → Effect 1 (deny_open app path)
unfolding deny_open
deny_open-Effect app path = bind (court_id_of-Effect app) (λ id.
    bind (descriptor_of-Effect path) (λ d.
      bind (open_cap-Effect id d none Rights.send)
        (λ res. next (record_trace-Effect _) (transmit-Effect app _))))

on_denied_open-Effect : (app : String) (m : WireMessage) → Effect 1 (on_denied_open app m)
unfolding on_denied_open demo_path
on_denied_open-Effect app (WireMessage.opening path none rights) =
    bind (gets_only _)
      (λ demo. branches _ (deny_open-Effect app path) (within (omega arith) (raises _)))
on_denied_open-Effect app other = within (omega arith) (raises _)

pub handle_app_lookup_and_denied_open-Effect :
    (app : String) → Effect 2 (handle_app_lookup_and_denied_open app)
unfolding handle_app_lookup_and_denied_open
handle_app_lookup_and_denied_open-Effect app = bind (receive-Effect app) (λ first.
    next (on_lookup-Effect app first) (bind (receive-Effect app) (on_denied_open-Effect app)))

open_known-Effect :
    (court path : String) (id : CourtId) (d : Descriptor) (request : WireCap) (rights : Rights)
    (held : CapId)
    → Effect 1 (open_known court path id d request rights held)
unfolding open_known
open_known-Effect court path id d request rights held =
    bind (open_cap-Effect id d (some held) rights) (λ res. next (record_trace-Effect _) (
      bind (reads_only (ring_for (open_status res) path))
        (λ ring. next (transmit-Effect court _) (branches _ (returns tt) (raises _)))))

open_unknown-Effect : (court : String) → Effect 0 (open_unknown court)
unfolding open_unknown
open_unknown-Effect court = next (transmit-Effect court _) (raises _)

on_open-Effect :
    (court path : String) (id : CourtId) (d : Descriptor) (m : WireMessage)
    → Effect 1 (on_open court path id d m)
unfolding on_open
on_open-Effect court path id d (WireMessage.opening asked (some request) rights) =
    bind {A = Option CapId} {k = 1} (gets_only _) (λ known.
      branches _
        (cases known (within (omega arith) (open_unknown-Effect court))
          (open_known-Effect court path id d request (to_rights rights)))
        (within (omega arith) (raises _)))
on_open-Effect court path id d other = within (omega arith) (raises _)

pub handle_grant_and_open-Effect :
    (std : Std) (court path : String) (rights : Rights)
    → Effect 2 (handle_grant_and_open std court path rights)
unfolding handle_grant_and_open
handle_grant_and_open-Effect std court path rights = bind (court_id_of-Effect court) (λ id.
    bind (descriptor_of-Effect path) (λ d. bind (grant-Effect id d rights) (λ held.
      next (modifies _ (λ w. refl)) (
        next (record_trace-Effect _) (
          next (transmit-Effect court _) (
            bind (receive-Effect court)
              (λ m. next (on_open-Effect court path id d m) (returns held))))))))
