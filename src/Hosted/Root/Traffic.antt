-- ===== src/Hosted/Root/Traffic.antt =====
-- crates/court-hosted/src/lib.rs: a corridor is a queue. Over any calls of any courts, what was
-- received from it and what is left in it is what was in it and what was sent, in that order.
use mathlib.Core.List.{append-nil, append_assoc}
use court_kernel.Prelude.{
  ℕ, ◌+◌, ◌%◌, ◌≤◌, ◌<◌, ◌≡◌, refl, sym, ap, ◌∙◌, inl, inr, Bool, false, String, none, some, List,
  [], ◌∷◌, ◌++◌, length, Table, nat_Key, nat_eq, get, get-insert, ok, err, arith, if◌then◌else◌,
}
use court_kernel.Hosted.Types.{
  CourtId, CapId, ObjectId, Payload, CkResult, CorridorTransport, Descriptor, u64_mod,
}
use court_kernel.Hosted.Rights.{Rights}
use court_kernel.Hosted.Root.{
  HostedRoot, Corridor, create_court, create_corridor, install_corridor, lookup, open_cap,
  grant_corridor_cap, send, recv, revoke, fault_court,
}
use court_kernel.Hosted.Root.Outcome.{
  lookup-Quiet, open_cap-Quiet, send_outcome, recv_outcome, create_corridor_outcome, grant_outcome,
  revoke_outcome,
}
use court_kernel.Hosted.Root.Counter.{step-Counts}
use court_kernel.Hosted.Root.Run.{
  Call, creates_court, creates_corridor, looks_up, grants, opens, sends, receives, revokes, faults,
  step, run,
}

abbrev pub queue_of : HostedRoot → ObjectId → List Payload
queue_of s o = elim (get s.corridors o) [ none ↦ [] | some c ↦ c.queue ]

-- whether a capability names the object
abbrev pub points_to : HostedRoot → CapId → ObjectId → Bool
points_to s id o = elim (get s.cap_registry.caps id) [ none ↦ false | some k ↦ nat_eq k.object o ]

abbrev accepted : CkResult (Unit {0}) → Payload → List Payload
accepted (ok _) p = p ∷ []
accepted (err _) p = []

abbrev delivered : CkResult Payload → List Payload
delivered (ok p) = p ∷ []
delivered (err _) = []

-- What one call puts into the corridor, and takes out of it, by the results that callers see.
unfoldable pub sent_on : ObjectId → Call → HostedRoot → List Payload
sent_on o (sends court id p) s = if points_to s id o then accepted (send court id p s).0 p else []
sent_on o _ s = []

unfoldable pub received_on : ObjectId → Call → HostedRoot → List Payload
received_on o (receives court id) s = if points_to s id o then delivered (recv court id s).0 else []
received_on o _ s = []

unfoldable pub all_sent : ObjectId → List Call → HostedRoot → List Payload
all_sent o [] s = []
all_sent o (c ∷ cs) s = sent_on o c s ++ all_sent o cs (step c s)

unfoldable pub all_received : ObjectId → List Call → HostedRoot → List Payload
all_received o [] s = []
all_received o (c ∷ cs) s = received_on o c s ++ all_received o cs (step c s)

abbrev links : HostedRoot → Table ObjectId Corridor
links s = s.corridors

same_queue :
    (s t : HostedRoot) (o : ObjectId) → links t ≡ links s → queue_of t o ≡ queue_of s o ++ []
same_queue s t o e = ground (arith, append-nil (queue_of s o))

send_queue :
    (s : HostedRoot) (court : CourtId) (id : CapId) (p : Payload) (o : ObjectId)
    → queue_of (send court id p s).1 o
      ≡ queue_of s o ++ (if points_to s id o then accepted (send court id p s).0 p else [])
send_queue s court id p o = elim (send_outcome s court id p) [
  | inl ((e, failed), q) ↦ ground (arith, failed, ap links q, append-nil (queue_of s o))
  | inr (done, x) ↦
      let y = x.may in
      ground (
        arith,
        done,
        y.known,
        y.names,
        y.connects,
        ap links x.after,
        get-insert s.corridors x.object o (record x.c { queue = x.c.queue ++ p ∷ [] }),
        append-nil (queue_of s o),
      )
]

recv_queue :
    (s : HostedRoot) (court : CourtId) (id : CapId) (o : ObjectId)
    → (if points_to s id o then delivered (recv court id s).0 else [])
        ++ queue_of (recv court id s).1 o
      ≡ queue_of s o ++ []
recv_queue s court id o = elim (recv_outcome s court id) [
  | inl ((e, failed), q) ↦ ground (arith, failed, ap links q, append-nil (queue_of s o))
  | inr (p, done, x) ↦
      let y = x.may in
      ground (
        arith,
        done,
        y.known,
        y.names,
        y.connects,
        x.oldest,
        ap links x.after,
        get-insert s.corridors x.object o (record x.c { queue = x.rest }),
        append-nil (queue_of s o),
      )
]

install_queue :
    (path : String) (a b : CourtId) (transport : CorridorTransport) (capacity : ℕ) (s : HostedRoot)
    (o : ObjectId)
    → o ≤ s.next_object
    → s.next_object + 1 < u64_mod
    → queue_of (install_corridor path a b transport capacity s).1 o ≡ queue_of s o ++ []
unfolding install_corridor
install_queue path a b transport capacity s o h room =
    let n : ObjectId = (s.next_object + 1) % u64_mod in
    let other : nat_eq n o ≡ false = ground arith in
    ground (
      arith,
      other,
      append-nil (queue_of s o),
      get-insert s.corridors n o (record { endpoints = (a, b); queue = []; capacity = capacity }),
    )

create_corridor_queue :
    (path : String) (a b : CourtId) (transport : CorridorTransport) (capacity : ℕ) (s : HostedRoot)
    (o : ObjectId)
    → o ≤ s.next_object
    → s.next_object + 1 < u64_mod
    → queue_of (create_corridor path a b transport capacity s).1 o ≡ queue_of s o ++ []
create_corridor_queue path a b transport capacity s o h room =
    elim (create_corridor_outcome s path a b transport capacity) [
      | inl (_, e) ↦ same_queue s (create_corridor path a b transport capacity s).1 o (ap links e)
      | inr (_, _, e) ↦
          ap (λ (p : CkResult ObjectId × HostedRoot). queue_of p.1 o) e
          ∙ install_queue path a b transport capacity s o h room
    ]

grant_links :
    (court : CourtId) (d : Descriptor) (rights : Rights) (s : HostedRoot)
    → links (grant_corridor_cap court d rights s).1 ≡ links s
grant_links court d rights s = elim (grant_outcome s court d rights) [
  | inl (_, e) ↦ ap links e
  | inr (_, x) ↦ ap links x.after
]

fault_links : (court : CourtId) (s : HostedRoot) → links (fault_court court s).1 ≡ links s
unfolding fault_court
fault_links court s = ground arith

-- One call: what it takes out was at the front, and what it puts in goes to the back.
step_fifo :
    (c : Call) (s : HostedRoot) (o : ObjectId)
    → o ≤ s.next_object
    → s.next_object + 1 < u64_mod
    → received_on o c s ++ queue_of (step c s) o ≡ queue_of s o ++ sent_on o c s
unfolding step sent_on received_on create_court
step_fifo (creates_court name) s o h room = same_queue s (create_court name s).1 o refl
step_fifo (creates_corridor path a b transport capacity) s o h room =
    create_corridor_queue path a b transport capacity s o h room
step_fifo (looks_up court path) s o h room =
    same_queue s (lookup court path s).1 o (ap links (lookup-Quiet court path s))
step_fifo (grants court d rights) s o h room =
    same_queue s (grant_corridor_cap court d rights s).1 o (grant_links court d rights s)
step_fifo (opens court d id rights) s o h room =
    same_queue s (open_cap court d id rights s).1 o (ap links (open_cap-Quiet court d id rights s))
step_fifo (sends court id p) s o h room = send_queue s court id p o
step_fifo (receives court id) s o h room = recv_queue s court id o
step_fifo (revokes id) s o h room =
    same_queue s (revoke id s).1 o (ap links (revoke_outcome s id).1)
step_fifo (faults court) s o h room = same_queue s (fault_court court s).1 o (fault_links court s)

-- For a corridor number that was given out or is 0, and object numbers left for the calls: over any
-- calls, whoever makes them, what was received through the corridor, and then what is left in it,
-- is what was in it, and then what was sent through it.
pub run_fifo :
    (cs : List Call) (s : HostedRoot) (o : ObjectId)
    → o ≤ s.next_object
    → s.next_object + length cs < u64_mod
    → all_received o cs s ++ queue_of (run cs s) o ≡ queue_of s o ++ all_sent o cs s
unfolding run all_sent all_received
run_fifo [] s o h room = sym (append-nil (queue_of s o))
run_fifo (c ∷ cs) s o h room =
    let (low, high) = step-Counts c s (omega arith) in
    append_assoc (received_on o c s) (all_received o cs (step c s)) _
    ∙ ap (λ q. received_on o c s ++ q) (run_fifo cs (step c s) o (omega arith) (omega arith))
    ∙ sym (append_assoc (received_on o c s) (queue_of (step c s) o) _)
    ∙ ap (λ q. q ++ all_sent o cs (step c s)) (step_fifo c s o h (omega arith))
    ∙ append_assoc (queue_of s o) (sent_on o c s) _
