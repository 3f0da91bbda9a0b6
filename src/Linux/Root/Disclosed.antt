-- ===== src/Linux/Root/Disclosed.antt =====
-- crates/court-hosted-linux/src/root.rs: the root process tells a court where a ring is, only after the core has let
-- that court open it.
use court_kernel.Prelude.Chain.{◌>>=◌, ◌>>◌}
use court_kernel.Prelude.{
  ℕ, ◌≡◌, refl, sym, ap, subst, ◌∙◌, ◌⊎◌, inl, inr, Bool, false, String, Option, none, some,
  Option-cases, Bool-cases, Memᴰ, List, [], ◌∷◌, ◌++◌, get, get-insert_self, insert, string_Key,
  nat_Key, ok, err, Result-cases, pure, raise, arith, if◌then◌else◌, ◌==◌,
}
use court_kernel.Hosted.Rights.{Rights}
use court_kernel.Hosted.Types.{CourtId, CapId, CkError, CkResult, Descriptor}
use court_kernel.Hosted.Root.{open_cap}
use court_kernel.Linux.Protocol.{
  WireStatus, wire_status, WireCap, WireRingInfo, WireMessage, to_rights,
}
use court_kernel.Linux.Root.{
  World, Act, Peer, record_trace, connected, transmit, is_ok, open_failed, unknown_cap, RootError,
}
use court_kernel.Linux.Root.Opening.{open_status, ring_for, open_known, open_unknown, on_open}

-- What a court was sent.
abbrev pub outbox_of : Option Peer → List WireMessage
outbox_of none = []
outbox_of (some p) = p.outbox

abbrev pub sent_to : World → String → List WireMessage
sent_to w court = outbox_of (get w.peers court)

last_or_old : {A : Type 0} (x m : A) (xs : List A) → Memᴰ x (xs ++ (m ∷ [])) → Memᴰ x xs ⊎ (x ≡ m)
last_or_old x m [] (Memᴰ.head e) = inr e
last_or_old x m [] (Memᴰ.tail h) = elim h [ ]
last_or_old x m (y ∷ ys) (Memᴰ.head e) = inl (Memᴰ.head e)
last_or_old x m (y ∷ ys) (Memᴰ.tail h) = elim (last_or_old x m ys h) [
  | inl old ↦ inl (Memᴰ.tail old)
  | inr new ↦ inr new
]

pub transmit_connected :
    (court : String) (m : WireMessage) (w : World) (p : Peer)
    → get w.peers court ≡ some p
    → (transmit court m w).1
      ≡ record w { peers = insert w.peers court (record p { outbox = p.outbox ++ m ∷ [] }) }
unfolding transmit connected ◌>>=◌
transmit_connected court m w p e = rw e refl

pub transmit_lost :
    (court : String) (m : WireMessage) (w : World)
    → get w.peers court ≡ none
    → (transmit court m w).1 ≡ w
unfolding transmit connected ◌>>=◌
transmit_lost court m w e = rw e refl

pub transmit-sent :
    (court : String) (m x : WireMessage) (w : World)
    → Memᴰ x (sent_to (transmit court m w).1 court)
    → Memᴰ x (sent_to w court) ⊎ (x ≡ m)
transmit-sent court m x w h = elim (Option-cases (get w.peers court)) [
  | inl e ↦ inl (rw (transmit_lost court m w e) at h)
  | inr (p, e) ↦
      let now =
        ap (λ t. sent_to t court) (transmit_connected court m w p e)
        ∙ ap outbox_of (get-insert_self w.peers court (record p { outbox = p.outbox ++ m ∷ [] })) in
      rw (ap outbox_of e) (last_or_old x m p.outbox (rw now at h))
]

refusal : (e : CkError) → is_ok (wire_status e) ≡ false
unfolding wire_status
refusal CkError.bad_cap = refl
refusal CkError.no_right = refl
refusal CkError.revoked = refl
refusal CkError.not_found = refl
refusal CkError.invalid_object = refl
refusal CkError.invalid_state = refl
refusal CkError.peer_down = refl
refusal CkError.queue_full = refl
refusal CkError.queue_empty = refl

-- The answer to an open that the core allowed, with the ring of the path.
abbrev pub IsAllowed : CkResult CapId → String → World → WireStatus → WireRingInfo → Type 0
IsAllowed res path w st info =
    ((id : CapId) × (res ≡ ok id)) × (st ≡ WireStatus.ok) × (get w.state.ring_info path ≡ some info)

answer-IsAllowed :
    (res : CkResult CapId) (path : String) (w : World) (info : WireRingInfo)
    → ring_for (open_status res) path w ≡ ok (some info)
    → IsAllowed res path w (open_status res) info
answer-IsAllowed (err e) path w info h = absurd (ground (arith, h, refusal e))
answer-IsAllowed (ok id) path w info h = ((id, refl), refl, ground arith)

-- the end of `open_known`, once the core has answered
abbrev answered : String → String → WireCap → CkResult CapId → Option WireRingInfo → Act (Unit {0})
answered court path request res ring = do
  transmit court (
      WireMessage.open_result (open_status res)
        (if is_ok (open_status res) then some request else none) ring)
  if is_ok (open_status res) then pure tt else raise (open_failed (open_status res))

ends_same :
    (b : Bool) (act : Act (Unit {0})) (e : RootError) (w : World)
    → ((act >> (if b then pure tt else raise e)) w).1 ≡ (act w).1
unfolding ◌>>◌
ends_same b act e w = elim (Result-cases (act w).0) [
  | inl (x, h) ↦ rw h refl
  | inr (u, h) ↦ rw h (elim (Bool-cases b) [ inl c ↦ rw c refl | inr c ↦ rw c refl ])
]

raises_same :
    (act : Act (Unit {0})) (e : RootError) (w : World)
    → ((act >> raise {A = Unit {0}} e) w).1 ≡ (act w).1
raises_same act e w = ends_same false act e w

answered-sent :
    (court path : String) (request : WireCap) (res : CkResult CapId) (ring : Option WireRingInfo)
    (x : WireMessage) (w : World)
    → Memᴰ x (sent_to (answered court path request res ring w).1 court)
    → Memᴰ x (sent_to w court)
      ⊎ (x
          ≡ WireMessage.open_result
              (open_status res)
              (if is_ok (open_status res) then some request else none)
              ring)
answered-sent court path request res ring x w h =
    let m =
      WireMessage.open_result (open_status res)
        (if is_ok (open_status res) then some request else none) ring in
    let same =
      ends_same (is_ok (open_status res)) (transmit court m) (open_failed (open_status res)) w in
    transmit-sent court m x w (subst (λ t. Memᴰ x (sent_to t court)) same h)

-- The ring and the status of an answer.
abbrev pub ring_in : WireMessage → Option WireRingInfo
ring_in (WireMessage.open_result st c ring) = ring
ring_in other = none

abbrev status_in : WireMessage → WireStatus
status_in (WireMessage.open_result st c ring) = st
status_in other = WireStatus.ok

-- Whatever the core answers: a ring that the court was told of, it had been told of before, or the core allowed this
-- open and the ring is that of the path.
open_known_disclosed :
    (court path : String) (id : CourtId) (d : Descriptor) (request : WireCap) (rights : Rights)
    (held : CapId) (w : World) (st : WireStatus) (c : Option WireCap) (info : WireRingInfo)
    → let told = WireMessage.open_result st c (some info) in
      Memᴰ told (sent_to (open_known court path id d request rights held w).1 court)
      → Memᴰ told (sent_to w court)
        ⊎ IsAllowed (open_cap id d (some held) rights w.state.root).0 path w st info
unfolding open_known record_trace ◌>>=◌ ◌>>◌
open_known_disclosed court path id d request rights held w st c info =
    let res = (open_cap id d (some held) rights w.state.root).0 in
    elim (Result-cases (ring_for (open_status res) path w)) [
      | inl (e, r) ↦ rw r (λ h. inl h)
      | inr (ring, r) ↦ rw r (λ h. elim (answered-sent court path request res ring _ _ h) [
        | inl old ↦ inl old
        | inr e ↦
            let p = ap ring_in e in
            let q = ap status_in e in
            let a = answer-IsAllowed res path w info (r ∙ ap (λ t. ok t) (sym p)) in
            inr (a.0, q ∙ a.1, a.2)
      ])
    ]

open_unknown_disclosed :
    (court : String) (w : World) (st : WireStatus) (c : Option WireCap) (info : WireRingInfo)
    → let told = WireMessage.open_result st c (some info) in
      Memᴰ told (sent_to (open_unknown court w).1 court) → Memᴰ told (sent_to w court)
unfolding open_unknown ◌>>◌
open_unknown_disclosed court w st c info h =
    let refused = WireMessage.open_result WireStatus.bad_cap none none in
    elim (transmit-sent court refused (WireMessage.open_result st c (some info)) w (
      subst (λ t. Memᴰ (WireMessage.open_result st c (some info)) (sent_to t court))
        (raises_same (transmit court refused) unknown_cap w) h)) [
          | inl old ↦ old
          | inr e ↦ absurd (let p = ap ring_in e in ground (arith, p))
        ]

-- Whatever message a court answers a grant with: if it was told of a ring, it had been told of that ring before, or
-- the core allowed an open by this court with a capability that the root keeps, the answer is `ok`, and the ring is
-- that of the path.
pub on_open_disclosed :
    (court path : String) (id : CourtId) (d : Descriptor) (m : WireMessage) (w : World)
    (st : WireStatus) (c : Option WireCap) (info : WireRingInfo)
    → let told = WireMessage.open_result st c (some info) in
      Memᴰ told (sent_to (on_open court path id d m w).1 court)
      → Memᴰ told (sent_to w court)
        ⊎ ((key : ℕ) × (held : CapId) × (rights : Rights) × (get w.state.caps_by_id key ≡ some held)
            × IsAllowed (open_cap id d (some held) rights w.state.root).0 path w st info)
unfolding on_open ◌>>=◌
on_open_disclosed court path id d (WireMessage.opening asked (some request) rights) w st c info =
    elim (Bool-cases (asked == path)) [
      | inr off ↦ rw off (λ h. inl h)
      | inl on ↦ elim (Option-cases (get w.state.caps_by_id request.id)) [
        | inl e ↦ rw (on, e) (λ h. inl (open_unknown_disclosed court w st c info h))
        | inr (held, e) ↦
            rw (on, e)
              (λ h.
                elim (open_known_disclosed court path id d request (to_rights rights) held w st c
                  info h) [
                    | inl old ↦ inl old
                    | inr a ↦ inr (request.id, held, to_rights rights, e, a)
                  ])
      ]
    ]
on_open_disclosed court path id d other w st c info = λ h. inl h
