-- ===== src/Linux/Clients/Packet.antt =====
-- crates/court-hosted-linux/src/app.rs: the sending client puts one packet into its ring at most.
use court_kernel.Prelude.{
  String, some, ◌==◌, string_Key, ◌≡◌, refl, sym, subst, ◌⊎◌, inl, inr, Option-cases, arith,
  if◌then◌else◌, lift,
}
use court_kernel.Prelude.Chain.{◌>>=◌, ◌>>◌, bind_elim}
use court_kernel.Hosted.Types.{Payload}
use court_kernel.Linux.Protocol.{EndpointState, fresh_endpoint}
use court_kernel.Linux.ShmRing.{SharedRing, send}
use court_kernel.Linux.Clients.{
  Text, Client, ClientAct, transmit, receive, on_ring, open_ring, expect_hello_ack,
}
use court_kernel.Linux.Clients.App.{Session, app_loop, send_packet, join_demo, run_app}
use court_kernel.Linux.Clients.Quiet.{
  Quiet, Quiet-refl, Quiet-trans, transmit-Quiet, receive-Quiet, bind-Quiet, then-Quiet,
  open_ring-Quiet, expect_hello_ack-Quiet,
}
use court_kernel.Linux.Clients.Once.{app_loop_lem}

join_demo-Quiet : (court : String) (c : Client) → Quiet c (join_demo court c).1
unfolding join_demo
join_demo-Quiet court c = then-Quiet (transmit _) _ c (transmit-Quiet _ c) (λ c1.
    bind-Quiet (expect_hello_ack court) _ c1 (expect_hello_ack-Quiet court c1) (λ demo c2.
      then-Quiet (transmit _) _ c2 (transmit-Quiet _ c2) (λ c3.
        bind-Quiet receive _ c3 (receive-Quiet c3) (λ answer c4.
          bind-Quiet (lift _) _ c4 (Quiet-refl c4) (λ descriptor c5.
            then-Quiet (transmit _) _ c5 (transmit-Quiet _ c5) (λ c6.
              bind-Quiet receive _ c6 (receive-Quiet c6) (λ first c7.
                then-Quiet (lift _) _ c7 (Quiet-refl c7) (λ c8.
                  bind-Quiet receive _ c8 (receive-Quiet c8) (λ offer c9.
                    bind-Quiet (lift _) _ c9 (Quiet-refl c9) (λ wire_cap d1.
                      then-Quiet (transmit _) _ d1 (transmit-Quiet _ d1) (λ d2.
                        bind-Quiet receive _ d2 (receive-Quiet d2) (λ second d3.
                          bind-Quiet (lift _) _ d3 (Quiet-refl d3) (λ ring d4.
                            then-Quiet (open_ring ring.path) _ d4 (open_ring-Quiet ring.path d4)
                              (λ d5. Quiet-refl d5))))))))))))))

-- One send on one ring, and nothing else.
pub record Sends (c d : Client) : Type 0 where
  pub path : String
  pub endpoint : EndpointState
  pub payload : Payload
  pub old : SharedRing
  pub there : c.files path ≡ some old
  pub same_inbox : d.inbox ≡ c.inbox
  pub new :
      (p : String)
      → d.files p ≡ (if p == path then some (send endpoint payload old).1 else c.files p)

-- The rings are left to others, but for one send at most.
abbrev pub AtMostOnce : Client → Client → Type 0
AtMostOnce c t =
    Quiet c t
    ⊎ ((before : Client) × (after : Client) × Quiet c before × Sends before after × Quiet after t)

on_ring-once :
    (path : String) (endpoint : EndpointState) (payload : Payload) (c : Client)
    → ((on_ring path (send endpoint payload) c).1 ≡ c)
      ⊎ Sends c (on_ring path (send endpoint payload) c).1
unfolding on_ring
on_ring-once path endpoint payload c = elim (Option-cases (c.files path)) [
  | inl e ↦ inl (ground (arith, e))
  | inr (r, e) ↦ inr (
      rw (e, on_ring)
        (record {
          path = path;
          endpoint = endpoint;
          payload = payload;
          old = r;
          there = e;
          same_inbox = refl;
          new = λ p. refl;
        }))
]

once-Quiet : (c d t : Client) → AtMostOnce c d → Quiet d t → AtMostOnce c t
once-Quiet c d t (inl q) r = inl (Quiet-trans c d t q r)
once-Quiet c d t (inr (before, after, q, sends, r)) u =
    inr (before, after, q, sends, Quiet-trans after d t r u)

Quiet-once : (c d t : Client) → Quiet c d → AtMostOnce d t → AtMostOnce c t
Quiet-once c d t q (inl r) = inl (Quiet-trans c d t q r)
Quiet-once c d t q (inr (before, after, r, sends, u)) =
    inr (before, after, Quiet-trans c d before q r, sends, u)

module _ {A B : Type 0} (first : ClientAct A) (rest : A → ClientAct B) (c : Client) where
  bind_once :
      AtMostOnce c (first c).1
      → ((a : A) (d : Client) → Quiet d (rest a d).1)
      → AtMostOnce c ((first >>= rest) c).1
  bind_once q next =
      bind_elim first rest c (λ z. AtMostOnce c z.1) (λ e h. q)
        (λ a h. once-Quiet c _ _ q (next a _))

  bind_later :
      Quiet c (first c).1
      → ((a : A) (d : Client) → AtMostOnce d (rest a d).1)
      → AtMostOnce c ((first >>= rest) c).1
  bind_later q next =
      bind_elim first rest c (λ z. AtMostOnce c z.1) (λ e h. inl q)
        (λ a h. Quiet-once c _ _ q (next a _))

send_packet-once :
    (s : Session) (e : EndpointState) (payload : Payload) (c : Client)
    → AtMostOnce c (send_packet s e payload c).1
unfolding send_packet
send_packet-once s e payload c =
    bind_once (on_ring s.ring (send e payload)) _ c
      (elim (on_ring-once s.ring e payload c) [
        | inl same ↦ inl (subst (Quiet c) (sym same) (Quiet-refl c))
        | inr sends ↦ inr (c, _, Quiet-refl c, sends, Quiet-refl _)
      ])
      (λ sent d. then-Quiet (lift _) (transmit _) d (Quiet-refl d) (λ f. transmit-Quiet _ f))

-- Whatever the sending client is sent, and whatever the others do to the rings meanwhile, its whole run changes the
-- rings by at most one send through one endpoint: all else that happens to the rings is what the others do.
pub run_app_lem :
    (text : Text) (court : String) (c : Client) → AtMostOnce c (run_app text court c).1
unfolding run_app ◌>>◌ ◌>>=◌
run_app_lem text court c = bind_later (join_demo court) _ c (join_demo-Quiet court c) (λ x d.
    bind_once (send_packet x.0 (fresh_endpoint x.0.wire_cap) (text.as_bytes x.1.packet_payload))
      (λ _ f. app_loop x.0 f.inbox (fresh_endpoint x.0.wire_cap) f) d (send_packet-once x.0 _ _ d)
      (λ _ f.
        let y = app_loop_lem x.0 f.inbox (fresh_endpoint x.0.wire_cap) f refl refl in (y.0).quiet))
