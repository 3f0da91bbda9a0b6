-- ===== src/Linux/Root.antt =====
-- crates/court-hosted-linux/src/root.rs: the root process, its state and its handlers. A handler is an
-- action of `Exec` on the state, the peers and the children. A peer is what it will have sent
-- (`inbox`) and what it was sent (`outbox`); receiving from an empty inbox fails, as on a socket that
-- was closed. A child is the code that it exits with, or `none` if a signal ended it. Sending to a
-- peer and writing the trace succeed.
pub mod Setup
pub mod Opening
pub mod Demo
pub mod Calls
pub mod Effects
pub mod Phases
pub mod Steady
pub mod Sound
pub mod Revoked
pub mod Disclosed
pub mod Told
mod Tests
use court_kernel.Prelude.Chain.{◌>>=◌, ◌>>◌}
use court_kernel.Prelude.{
  ℕ, Bool, true, false, String, Option, none, some, List, [], ◌∷◌, ◌++◌, Table, string_Key, nat_Key,
  pair_Key, ◌==◌, get, insert, remove, Result, ok, err, Exec, lift, gets, reads, pure, raise,
  modify, ok_or, if◌then◌else◌,
}
use court_kernel.Hosted.Rights.{Rights}
use court_kernel.Hosted.Types.{CourtId, CapId, CkError, CkResult, Descriptor}
use court_kernel.Hosted.Root.{HostedRoot, Action}
use court_kernel.Linux.Protocol.{
  WireStatus, WireCap, WireRingInfo, WireDemoConfig, WireTrace, WireMessage, from_rights, new_trace,
  with_path,
}
use court_kernel.Linux.ShmRing.{SharedRing, RingError}
use court_kernel.Linux.Manifest.{ManifestFile, PolicyFile, CourtRole, ManifestError}

-- What the process takes from the standard library: a path joined to a directory, a number in
-- decimal, and the order in which a hash map is walked.
pub record Std : Type 0 where
  pub join : String → String → String
  pub to_string : ℕ → String
  pub walk_roles : Table String CourtRole → Table String CourtRole
  pub walk_caps :
      Table (String × String) (CapId × Rights) → Table (String × String) (CapId × Rights)
  pub walk_children : Table String (Option ℕ) → Table String (Option ℕ)

pub record RootConfig : Type 0 where
  pub run_dir : String
  pub manifest : ManifestFile
  pub policy : PolicyFile

pub record RootState : Type 0 where
  pub root : HostedRoot
  pub court_ids : Table String CourtId
  pub descriptors : Table String Descriptor
  pub caps_by_id : Table ℕ CapId
  pub caps_by_key : Table (String × String) (CapId × Rights)
  pub court_roles : Table String CourtRole
  pub policy : PolicyFile
  pub ring_info : Table String WireRingInfo
  pub demo : WireDemoConfig
  pub trace : List WireTrace
  -- `_rings`, each under the path of the file that it maps
  pub rings : Table String SharedRing

pub record Peer : Type 0 where
  pub inbox : List WireMessage
  pub outbox : List WireMessage

pub record World : Type 0 where
  pub state : RootState
  pub peers : Table String Peer
  pub children : Table String (Option ℕ)

pub data RootError : Type 0 where
  invalid : ManifestError → RootError
  core : CkError → RootError
  ring : RingError → RootError
  unexpected : WireMessage → RootError
  open_failed : WireStatus → RootError
  unknown_court unknown_descriptor missing_court missing_ring_info missing_cap missing_child :
      RootError
  not_connected closed unknown_cap bad_exit no_app no_recv no_corridor : RootError

abbrev pub Act : Type 0 → Type 0
Act A = Exec RootError World A

-- `ck`
abbrev pub ck : {A : Type 0} → CkResult A → Result RootError A
ck (ok a) = ok a
ck (err e) = err (core e)

-- A method of `state.root`, and its result as a value.
abbrev pub attempt : {A : Type 0} → Action A → Act (CkResult A)
attempt m w =
    let (res, r) = m w.state.root in (ok res, record w { state = record w.state { root = r } })

-- A method of `state.root`, with `ck` and `?`.
abbrev pub on_root : {A : Type 0} → Action A → Act A
on_root m w =
    let (res, r) = m w.state.root in (ck res, record w { state = record w.state { root = r } })

abbrev pub wire_cap : CapId → Rights → WireCap
wire_cap id rights = record { id = id; rights = from_rights rights }

-- `TraceSink::record`
unfoldable pub record_trace : WireTrace → Act (Unit {0})
record_trace event =
    modify λ w. record w { state = record w.state { trace = w.state.trace ++ event ∷ [] } }

-- `peers.get_mut(court).ok_or_else(..)?`
unfoldable pub connected : String → Act Peer
connected court = reads λ w. ok_or (get w.peers court) not_connected

-- `peer.send(..)`
unfoldable pub transmit : String → WireMessage → Act (Unit {0})
transmit court message = do
  peer ← connected court
  modify (λ w. record w {
    peers = insert w.peers court (record peer { outbox = peer.outbox ++ message ∷ [] });
  })

abbrev pub first_message : Peer → Result RootError (WireMessage × Peer)
first_message peer = elim peer.inbox [
  | [] ↦ err closed
  | message ∷ rest ↦ ok (message, record peer { inbox = rest })
]

-- `peer.recv()`
unfoldable pub receive : String → Act WireMessage
receive court = do
  peer ← connected court
  (message, rest) ← lift (first_message peer)
  modify (λ w. record w { peers = insert w.peers court rest })
  pure message

unfoldable pub court_id_of : String → Act CourtId
court_id_of court = reads λ w. ok_or (get w.state.court_ids court) unknown_court

unfoldable pub descriptor_of : String → Act Descriptor
descriptor_of path = reads λ w. ok_or (get w.state.descriptors path) unknown_descriptor

unfoldable pub keep_trace : WireMessage → Act (Unit {0})
keep_trace (WireMessage.trace event) = record_trace event
keep_trace other = raise (unexpected other)

unfoldable pub record_trace_from : String → Act (Unit {0})
record_trace_from court = do message ← receive court; keep_trace message

abbrev pub is_ok : WireStatus → Bool
is_ok WireStatus.ok = true
is_ok _ = false
