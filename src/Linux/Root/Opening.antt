-- ===== src/Linux/Root/Opening.antt =====
-- crates/court-hosted-linux/src/root.rs: `handle_app_lookup_and_denied_open` and `handle_grant_and_open`.
use Prim.Native.String.{◌++◌ as ◌<>◌}
use court_kernel.Prelude.Chain.{◌>>=◌, ◌>>◌}
use court_kernel.Prelude.{
  ◌&&◌, String, Option, none, some, string_Key, nat_Key, pair_Key, ◌==◌, get, insert, Result, ok,
  err, gets, reads, pure, raise, modify, if◌then◌else◌,
}
use court_kernel.Hosted.Rights
use court_kernel.Hosted.Rights.{Rights, covers}
use court_kernel.Hosted.Types.{CourtId, CapId, CkResult, Descriptor}
use court_kernel.Hosted.Root.{lookup, open_cap, grant_corridor_cap}
use court_kernel.Linux.Protocol.{
  WireStatus, wire_status, to_rights, WireCap, WireRingInfo, WireMessage, from_descriptor,
  new_trace, with_path, with_detail,
}
use court_kernel.Linux.Root.{
  Std, World, RootError, Act, unexpected, unknown_cap, missing_ring_info, open_failed, on_root,
  attempt, wire_cap, record_trace, transmit, receive, court_id_of, descriptor_of, is_ok,
}

unfoldable pub demo_path : Act String
demo_path = gets λ w. w.state.demo.path

unfoldable pub answer_lookup : String → String → Act (Unit {0})
answer_lookup app path = do
  id ← court_id_of app
  descriptor ← on_root (lookup id path)
  record_trace (with_path (new_trace "lookup" app WireStatus.ok) path)
  transmit app (WireMessage.lookup_result WireStatus.ok (some (from_descriptor descriptor)))

unfoldable pub on_lookup : String → WireMessage → Act (Unit {0})
on_lookup app (WireMessage.lookup path) = do
  demo ← demo_path
  if path == demo then answer_lookup app path else raise (unexpected (WireMessage.lookup path))
on_lookup app other = raise (unexpected other)

-- `Ok(_) => WireStatus::Ok, Err(error) => error.into()`
abbrev pub open_status : CkResult CapId → WireStatus
open_status (ok id) = WireStatus.ok
open_status (err e) = wire_status e

unfoldable pub deny_open : String → String → Act (Unit {0})
deny_open app path = do
  id ← court_id_of app
  descriptor ← descriptor_of path
  res ← attempt (open_cap id descriptor none Rights.send)
  record_trace (with_path (new_trace "open_denied" app (open_status res)) path)
  transmit app (WireMessage.open_result (open_status res) none none)

unfoldable pub on_denied_open : String → WireMessage → Act (Unit {0})
on_denied_open app (WireMessage.opening path none rights) = do
  demo ← demo_path
  if path == demo && covers (to_rights rights) Rights.send
      then deny_open app path
      else raise (unexpected (WireMessage.opening path none rights))
on_denied_open app other = raise (unexpected other)

unfoldable pub handle_app_lookup_and_denied_open : String → Act (Unit {0})
unfolding answer_lookup deny_open
handle_app_lookup_and_denied_open app = do
  first ← receive app
  on_lookup app first
  second ← receive app
  on_denied_open app second

-- the `ring` of the answer to an open
abbrev pub ring_for : WireStatus → String → World → Result RootError (Option WireRingInfo)
ring_for st path w =
    if is_ok st
    then elim (get w.state.ring_info path) [
      | none ↦ err missing_ring_info
      | some info ↦ ok (some info)
    ]
    else ok none

-- An open with a capability that `caps_by_id` knows.
unfoldable pub open_known :
    String → String → CourtId → Descriptor → WireCap → Rights → CapId → Act (Unit {0})
open_known court path court_id descriptor request rights id = do
  res ← attempt (open_cap court_id descriptor (some id) rights)
  record_trace (with_path (new_trace "open" court (open_status res)) path)
  ring ← reads (ring_for (open_status res) path)
  transmit court (
      WireMessage.open_result (open_status res)
        (if is_ok (open_status res) then some request else none) ring)
  if is_ok (open_status res) then pure tt else raise (open_failed (open_status res))

unfoldable pub open_unknown : String → Act (Unit {0})
open_unknown court = do
  transmit court (WireMessage.open_result WireStatus.bad_cap none none)
  raise unknown_cap

unfoldable pub on_open : String → String → CourtId → Descriptor → WireMessage → Act (Unit {0})
on_open court path court_id descriptor (WireMessage.opening request_path (some request) rights) = do
  known ← gets (λ w. get w.state.caps_by_id request.id)
  if request_path == path
      then elim known [
        | some id ↦ open_known court path court_id descriptor request (to_rights rights) id
        | none ↦ open_unknown court
      ]
      else raise (unexpected (WireMessage.opening request_path (some request) rights))
on_open court path court_id descriptor other = raise (unexpected other)

unfoldable pub handle_grant_and_open : Std → String → String → Rights → Act CapId
unfolding open_known open_unknown
handle_grant_and_open std court path rights = do
  court_id ← court_id_of court
  descriptor ← descriptor_of path
  id ← on_root (grant_corridor_cap court_id descriptor rights)
  modify (λ w. record w {
    state = record w.state {
      caps_by_id = insert w.state.caps_by_id id id;
      caps_by_key = insert w.state.caps_by_key (court, path) (id, rights);
    };
  })
  record_trace (
      with_detail (with_path (new_trace "grant" "root" WireStatus.ok) path)
        (court <> (":" <> std.to_string id)))
  transmit court (WireMessage.grant path (wire_cap id rights))
  message ← receive court
  on_open court path court_id descriptor message
  pure id
