-- ===== src/Hosted/Root/Faults.antt =====
-- crates/court-hosted/src/lib.rs: what a faulted court can no longer do, and what its peers see.
use court_kernel.Prelude.{
  ◌+◌, ◌≤◌, ◌<◌, List, length, get-insert_ne, ℕ, ◌≡◌, refl, ◌⊎◌, ◌≢◌, true, String, Option, some,
  nat_Key, nat_eq_iff, get, get-insert_self, ok, err, arith,
}
use court_kernel.Hosted.Rights
use court_kernel.Hosted.Rights.{Rights}
use court_kernel.Hosted.Types.{
  CourtId, CapId, ObjectId, Payload, Descriptor, CkError, invalid_state, Court, CorridorTransport,
  faulted, u64_mod,
}
use court_kernel.Hosted.Root.{
  HostedRoot, Corridor, is_down, has_peer_down, require_running_court, create_corridor, lookup,
  grant_corridor_cap, open_cap, endpoint, send, recv, fault_court,
}
use court_kernel.Hosted.Root.Outcome.{Quiet}
use court_kernel.Hosted.Root.Run.{Call, run}
use court_kernel.Hosted.Root.Stopped.{IsStopped, run-IsStopped}

-- Every call in the court's name is refused, and changes nothing at all.
pub record IsSilent (s : HostedRoot) (court : CourtId) : Type 0 where
  pub no_lookup : (path : String) → lookup court path s ≡ (err invalid_state, s)
  pub no_grant :
      (d : Descriptor) (rights : Rights)
      → grant_corridor_cap court d rights s ≡ (err invalid_state, s)
  pub no_open :
      (d : Descriptor) (id : Option CapId) (rights : Rights)
      → open_cap court d id rights s ≡ (err invalid_state, s)
  pub no_send : (id : CapId) (p : Payload) → send court id p s ≡ (err invalid_state, s)
  pub no_recv : (id : CapId) → recv court id s ≡ (err invalid_state, s)
  pub no_corridor :
      (path : String) (peer : CourtId) (transport : CorridorTransport) (capacity : ℕ)
      → create_corridor path court peer transport capacity s ≡ (err invalid_state, s)

stopped-IsSilent :
    (s : HostedRoot) (court : CourtId)
    → require_running_court court s ≡ err invalid_state
    → IsSilent s court
unfolding lookup grant_corridor_cap open_cap endpoint send recv create_corridor
stopped-IsSilent s court h = record {
  no_lookup = λ path. rw (h, lookup) refl;
  no_grant = λ d rights. rw (h, grant_corridor_cap) refl;
  no_open = λ d id rights. rw (h, open_cap) refl;
  no_send = λ id p. rw (h, send, endpoint) refl;
  no_recv = λ id. rw (h, recv, endpoint) refl;
  no_corridor = λ path peer transport capacity. rw (h, create_corridor) refl;
}

Stopped-IsSilent : (s : HostedRoot) (court : CourtId) → IsStopped 0 court s → IsSilent s court
Stopped-IsSilent s court x =
    stopped-IsSilent s court
      (unfold require_running_court in let a = x.known in let b = x.fallen in ground (arith, a, b))

-- For a known court, whose number is not above the counter of courts, and a counter that has room for as many calls
-- as are meant: faulting it succeeds and changes only the courts and the trace, and of the courts only this one; then,
-- after any further calls by anybody, a lookup, a grant, an open, a send or a receive by the court, and a corridor with
-- the court as its first endpoint, are refused as an invalid state and change nothing.
pub fault_silences :
    (s : HostedRoot) (court : CourtId) (c : Court) (cs : List Call)
    → get s.courts court ≡ some c
    → court ≤ s.next_court
    → s.next_court + length cs < u64_mod
    → let (res, t) = fault_court court s in
      (res ≡ ok tt)
      × (t ≡ record s { courts = t.courts; trace = t.trace })
      × ((other : CourtId) → court ≢ other → get t.courts other ≡ get s.courts other)
      × IsSilent (run cs t) court
unfolding fault_court
fault_silences s court c cs h low room =
    rw (h, fault_court)
      (
        refl,
        refl,
        λ other ne. get-insert_ne s.courts court other (record c { state = faulted }) ne,
        Stopped-IsSilent _ court (
            run-IsStopped cs court _ (record {
              entry = record c { state = faulted };
              known = get-insert_self s.courts court (record c { state = faulted });
              fallen = refl;
              numbered = low;
              room = room;
            })),
      )

fault_downs :
    (s : HostedRoot) (court : CourtId) (k : Court)
    → get s.courts court ≡ some k
    → is_down (fault_court court s).1.courts court ≡ true
unfolding fault_court is_down
fault_downs s court k h =
    ground (arith, h, get-insert_self s.courts court (record k { state = faulted }))

-- After a known court is faulted, a send by another court that passes the checks of its capability,
-- for a corridor of which the faulted court is an endpoint, fails as peer down and changes nothing
-- but the trace.
pub fault_breaks_peers :
    (s : HostedRoot) (court sender : CourtId) (k : Court) (id : CapId) (p : Payload)
    (object : ObjectId) (c : Corridor)
    → get s.courts court ≡ some k
    → court ≢ sender
    → (c.endpoints.0 ≡ court) ⊎ (c.endpoints.1 ≡ court)
    → endpoint sender id Rights.send (fault_court court s).1 ≡ ok (object, c)
    → let t = (fault_court court s).1 in
      let (res, u) = send sender id p t in (res ≡ err CkError.peer_down) × Quiet t u
unfolding send has_peer_down
fault_breaks_peers s court sender k id p object c h ne at e =
    let t : HostedRoot = (fault_court court s).1 in
    let down : has_peer_down c sender t.courts ≡ true =
      ground (arith, at, nat_eq_iff court sender, fault_downs s court k h) in
    rw (e, send, down) (refl, refl)
