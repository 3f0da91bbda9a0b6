-- ===== src/Linux/Clients/Once.antt =====
-- crates/court-hosted-linux/src/app.rs: what the sending client does to its ring, whatever it is sent.
use std.Path.{fun_ext}
use mathlib.Core.List.Memᴰ.{eq_of_singleton, append_cases, append_left, append_right}
use court_kernel.Prelude.{
  String, false, Option, some, Memᴰ, List, [], ◌∷◌, ◌++◌, ◌==◌, string_Key, nat_eq, ◌≡◌, ◌≢◌, none,
  true, refl, sym, ap, subst, ◌∙◌, ◌⊎◌, inl, inr, Result, ok, err, Exec, Result-cases, Option-cases,
  Bool-cases, arith, if◌then◌else◌, pure,
}
use court_kernel.Prelude.Chain.{◌>>◌, bind-err, bind-ok, then-ok}
use court_kernel.Hosted.Types.{Payload}
use court_kernel.Linux.Protocol.{
  WireStatus, WireMessage, WireCap, EndpointState, mark_revoked, status, new_trace, with_path,
}
use court_kernel.Linux.ShmRing.{SharedRing, send}
use court_kernel.Linux.Clients.{Event, Client, ClientError, arrive, transmit, on_ring, no_file}
use court_kernel.Linux.Clients.App.{
  Session, late_payload, on_revoke, on_peer_down, on_message, app_loop,
}
use court_kernel.Linux.Clients.Quiet.{append_assoc, Quiet, Quiet-trans, Quiet-trans_seen, later}

-- A send through a revoked endpoint is refused and leaves the ring.
send_revoked :
    (e : EndpointState) (p : Payload) (r : SharedRing)
    → e.is_peer_down ≡ false
    → send (mark_revoked e) p r ≡ (err WireStatus.revoked, r)
unfolding send status
send_revoked e p r h = rw h refl

-- The messages that the client sends from its loop.
abbrev pub refusal_of : Session → WireMessage
refusal_of s =
    WireMessage.trace (with_path (new_trace "send_after_revoke" s.court WireStatus.revoked) s.path)

abbrev pub peer_loss_of : Session → WireMessage
peer_loss_of s =
    WireMessage.trace (with_path (new_trace "peer_down" s.court WireStatus.peer_down) s.path)

abbrev pub completion_of : Session → WireMessage
completion_of s = WireMessage.demo_done s.court WireStatus.ok

abbrev pub IsReport : Session → WireMessage → Type 0
IsReport s m = (m ≡ refusal_of s) ⊎ ((m ≡ peer_loss_of s) ⊎ (m ≡ completion_of s))

-- a message that revokes the capability of the session
abbrev pub IsRevoke : Session → WireMessage → Type 0
IsRevoke s m =
    (revoked : WireCap) × (m ≡ WireMessage.revoke revoked)
    × (nat_eq revoked.id s.wire_cap.id ≡ true)

-- What the client says between two states, and of the rings that it leaves them.
record Says (s : Session) (c d : Client) : Type 0 where
  inbox : d.inbox ≡ c.inbox
  files : d.files ≡ c.files
  news : List WireMessage
  sent : d.outbox ≡ c.outbox ++ news
  reports : (m : WireMessage) → Memᴰ m news → IsReport s m

silent : (s : Session) (c : Client) → Says s c c
silent s c = record {
  inbox = refl;
  files = refl;
  news = [];
  sent = append-nil c.outbox;
  reports = λ m h. elim h [ ];
}
  where
    append-nil : (xs : List WireMessage) → xs ≡ xs ++ []
    append-nil [] = refl
    append-nil (x ∷ xs) = ap (λ t. x ∷ t) (append-nil xs)

one_report : (s : Session) (c : Client) (m : WireMessage) → IsReport s m → Says s c (transmit m c).1
unfolding transmit
one_report s c m is = record {
  inbox = refl;
  files = refl;
  news = m ∷ [];
  sent = refl;
  reports = λ x h. rw (eq_of_singleton h) is;
}

-- A call that is refused leaves the rings.
on_ring_lem :
    {A : Type 0} (path : String) (act : Exec WireStatus SharedRing A) (st : WireStatus) (c : Client)
    → ((r : SharedRing) → act r ≡ (err st, r))
    → (on_ring path act c ≡ (err no_file, c)) ⊎ (on_ring path act c ≡ (ok (err st), c))
unfolding on_ring
on_ring_lem path act st c same = elim (Option-cases (c.files path)) [
  | inl e ↦ inl (ground (arith, e))
  | inr (r, e) ↦
      let kept : (λ p. if p == path then some r else c.files p) ≡ c.files = fun_ext (λ p.
        elim (Bool-cases (p == path)) [
          | inl h ↦
              let at : p ≡ path = (string_Key.same_iff p path).0 h in
              rw h (sym e ∙ ap c.files (sym at))
          | inr h ↦ rw h refl
        ]) in
      let told : on_ring path act c
          ≡ (ok (err st), record c { files = λ p. if p == path then some r else c.files p }) =
        ground (arith, e, same r) in
      inr (told ∙ ap (λ f. (ok (err st), record c { files = f })) kept)
]

-- A round: what was said, the answer to a revocation, the last word, and that the loop does not go on with an endpoint
-- whose peer is down.
abbrev Goes :
    Session → WireMessage → Client → Result ClientError (Option EndpointState) × Client → Type 0
Goes s m c (res, d) =
    (x : Says s c d) × ((next : EndpointState) → res ≡ ok (some next) → next.is_peer_down ≡ false)
    × ((r : SharedRing) → IsRevoke s m → c.files s.ring ≡ some r → Memᴰ (refusal_of s) x.news)
    × (res ≡ ok none → Memᴰ (completion_of s) x.news)

on_ring_there :
    {A : Type 0} (path : String) (act : Exec WireStatus SharedRing A) (r : SharedRing) (c : Client)
    → c.files path ≡ some r
    → on_ring path act c ≢ (err no_file, c)
unfolding on_ring
on_ring_there path act r c e h = ground (arith, e, h)

on_revoke_lem :
    (s : Session) (e : EndpointState) (m : WireMessage) (c : Client)
    → e.is_peer_down ≡ false
    → Goes s m c (on_revoke s e c)
unfolding on_revoke transmit one_report
on_revoke_lem s e m c up =
    elim (on_ring_lem s.ring (send (mark_revoked e) late_payload) WireStatus.revoked c
      (λ r. send_revoked e late_payload r up)) [
        | inl h ↦ subst (Goes s m c) (sym (bind-err _ _ c c no_file h)) (
          silent s c,
          λ next bad. absurd (ground (arith, bad)),
          λ r _ there. absurd (on_ring_there s.ring _ r c there h),
          λ bad. absurd (ground (arith, bad)),
        )
        | inr h ↦
            subst (Goes s m c)
              (sym (
                bind-ok _ _ c c _ h
                ∙ then-ok (transmit (refusal_of s)) (pure (some (mark_revoked e))) c
                    (transmit (refusal_of s) c).1 tt refl))
              (
                one_report s c (refusal_of s) (inl refl),
                λ next is. ground (arith, is, up),
                λ r _ _. Memᴰ.head refl,
                λ bad. absurd (ground (arith, bad)),
              )
      ]

more_reports : (s : Session) (c d f : Client) → Says s c d → Says s d f → Says s c f
more_reports s c d f a b = record {
  inbox = b.inbox ∙ a.inbox;
  files = b.files ∙ a.files;
  news = a.news ++ b.news;
  sent = b.sent ∙ ap (λ t. t ++ b.news) a.sent ∙ sym (append_assoc c.outbox a.news b.news);
  reports = λ m h. elim (append_cases a.news h) [ inl x ↦ a.reports m x | inr y ↦ b.reports m y ];
}

on_peer_down_lem :
    (s : Session) (e : EndpointState) (path : String) (c : Client)
    → Goes s (WireMessage.peer_down path) c (on_peer_down s e c)
unfolding on_peer_down transmit ◌>>◌ status more_reports one_report
on_peer_down_lem s e path c =
    let d = (transmit (peer_loss_of s) c).1 in
    (
      more_reports s c d _ (one_report s c (peer_loss_of s) (inr (inl refl)))
          (one_report s d (completion_of s) (inr (inr refl))),
      λ next bad. absurd (ground (arith, bad)),
      λ r (revoked, bad, _) _. absurd (ground (arith, bad)),
      λ _. Memᴰ.tail (Memᴰ.head refl),
    )

-- A round that is refused before anything is said.
refused :
    (s : Session) (m : WireMessage) (x : ClientError) (c : Client)
    → ¬ IsRevoke s m
    → Goes s m c (err x, c)
refused s m x c off = (
  silent s c,
  λ next bad. absurd (ground (arith, bad)),
  λ r is _. absurd (off is),
  λ bad. absurd (ground (arith, bad)),
)

on_message_lem :
    (s : Session) (e : EndpointState) (m : WireMessage) (c : Client)
    → e.is_peer_down ≡ false
    → Goes s m c (on_message s e m c)
unfolding on_message
on_message_lem s e (WireMessage.revoke revoked) c up =
    elim (Bool-cases (nat_eq revoked.id s.wire_cap.id)) [
      | inl h ↦ rw h (on_revoke_lem s e (WireMessage.revoke revoked) c up)
      | inr h ↦ rw h (
          refused s (WireMessage.revoke revoked) _ c (λ (w, is, same). ground (arith, h, is, same)))
    ]
on_message_lem s e (WireMessage.peer_down path) c up = elim (Bool-cases (path == s.path)) [
  | inl h ↦ rw h (on_peer_down_lem s e path c)
  | inr h ↦ rw h (refused s (WireMessage.peer_down path) _ c (λ (w, is, _). ground (arith, is)))
]
on_message_lem s e other c up = refused s other _ c (λ (w, is, _). ground (arith, is))

-- What the client does in its loop: it takes messages, reports, and leaves the rings to others.
pub record Obeys (s : Session) (c d : Client) : Type 0 where
  pub quiet : Quiet c d
  pub news : List WireMessage
  pub sent : d.outbox ≡ c.outbox ++ news
  pub reports : (m : WireMessage) → Memᴰ m news → IsReport s m

begins :
    (s : Session) (c d : Client) (event : Event) (rest : List Event)
    → c.inbox ≡ event ∷ rest
    → Says s (arrive event rest c) d
    → Obeys s c d
unfolding later
begins s c d event rest h a = record {
  quiet = record {
    seen = event ∷ [];
    taken = h ∙ ap (λ t. event ∷ t) (sym a.inbox);
    left = a.files;
  };
  news = a.news;
  sent = a.sent;
  reports = a.reports;
}

goes_on : (s : Session) (c d f : Client) → Obeys s c d → Obeys s d f → Obeys s c f
goes_on s c d f a b = record {
  quiet = Quiet-trans c d f a.quiet b.quiet;
  news = a.news ++ b.news;
  sent = b.sent ∙ ap (λ t. t ++ b.news) a.sent ∙ sym (append_assoc c.outbox a.news b.news);
  reports = λ m h. elim (append_cases a.news h) [ inl x ↦ a.reports m x | inr y ↦ b.reports m y ];
}

-- Every revocation that the client took was answered with the report that its send was refused, if the ring is mapped,
-- and the end of the loop was announced.
abbrev pub Answers : Session → Client → Result ClientError (Unit {0}) × Client → Type 0
Answers s c (res, d) =
    (x : Obeys s c d) × ((r : SharedRing) (event : Event)
      → c.files s.ring ≡ some r
      → Memᴰ event x.quiet.seen
      → IsRevoke s event.message
      → Memᴰ (refusal_of s) x.news)
    × (res ≡ ok tt → Memᴰ (completion_of s) x.news)

arrived :
    (event : Event) (rest : List Event) (c : Client) (path : String) (r : SharedRing)
    → c.files path ≡ some r
    → (arrive event rest c).files path ≡ some (event.others path r)
arrived event rest c path r h = ground (arith, h)

-- One round is all, with that result.
ends :
    (s : Session) (c : Client) (event : Event) (rest : List Event)
    (out : Result ClientError (Option EndpointState) × Client) (res : Result ClientError (Unit {0}))
    → c.inbox ≡ event ∷ rest
    → Goes s event.message (arrive event rest c) out
    → (res ≡ ok tt → out.0 ≡ ok none)
    → Answers s c (res, out.1)
unfolding begins
ends s c event rest out res h (said, _, heard, last) same = (
  begins s c out.1 event rest h said,
  λ r x there m is. elim m [
    | Memᴰ.head e ↦ heard _ (rw e at is) (arrived event rest c s.ring r there)
    | Memᴰ.tail n ↦ elim n [ ]
  ],
  λ fine. last (same fine),
)

-- One round, and more.
continues :
    (s : Session) (c : Client) (event : Event) (rest : List Event)
    (out : Result ClientError (Option EndpointState) × Client)
    (end : Result ClientError (Unit {0}) × Client)
    → c.inbox ≡ event ∷ rest
    → Goes s event.message (arrive event rest c) out
    → Answers s out.1 end
    → Answers s c end
unfolding begins goes_on
continues s c event rest out end h (said, _, heard, _) (x, more, last) =
    let first = begins s c out.1 event rest h said in
    (
      goes_on s c out.1 end.1 first x,
      λ r y there m is. elim (rw (Quiet-trans_seen c out.1 end.1 first.quiet x.quiet) at m) [
        | Memᴰ.head e ↦
            append_left x.news (heard _ (rw e at is) (arrived event rest c s.ring r there))
        | Memᴰ.tail n ↦
            append_right said.news
              (more _ y (ap (λ f. f s.ring) said.files ∙ arrived event rest c s.ring r there) n is)
      ],
      λ fine. append_right said.news (last fine),
    )

-- From an endpoint whose peer is not known to be down, whatever messages come and whatever the others do meanwhile:
-- the loop of the sending client changes no ring itself, and sends nothing but reports, that a send after the
-- revocation was refused as revoked, that the peer is down, and that the demo is done; if its ring is mapped and it
-- took a revocation of its capability, it has sent the first of these, and if the loop returns without an error, the
-- last.
pub app_loop_lem :
    (s : Session) (events : List Event) (e : EndpointState) (c : Client)
    → c.inbox ≡ events
    → e.is_peer_down ≡ false
    → Answers s c (app_loop s events e c)
unfolding app_loop silent later
app_loop_lem s [] e c h up =
    let x = silent s c in
    (
      record {
        quiet = record { seen = []; taken = refl; left = refl };
        news = x.news;
        sent = x.sent;
        reports = x.reports;
      },
      λ r event there m is. elim m [ ],
      λ bad. absurd (ground (arith, bad)),
    )
app_loop_lem s (event ∷ rest) e c h up =
    let c0 = arrive event rest c in
    let out = on_message s e event.message c0 in
    let round = on_message_lem s e event.message c0 up in
    elim (Result-cases out.0) [
      | inl (x, r) ↦
          rw (r, app_loop)
            (ends s c event rest out (err x) h round (λ bad. absurd (ground (arith, bad))))
      | inr (more, r) ↦ elim (Option-cases more) [
        | inl none_left ↦
            rw (r, none_left, app_loop)
              (ends s c event rest out (ok tt) h round (λ _. r ∙ ap ok none_left))
        | inr (e', go) ↦
            rw (r, go, app_loop)
              (continues s c event rest out _ h round
                (app_loop_lem s rest e' out.1 (round.0).inbox (round.1 e' (r ∙ ap ok go))))
      ]
    ]
