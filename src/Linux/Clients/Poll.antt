-- ===== src/Linux/Clients/Poll.antt =====
-- crates/court-hosted-linux/src/net.rs: the polls of the receiving client.
use court_kernel.Prelude.{
  ℕ, ◌≤◌, ◌<◌, String, Option, none, some, List, [], ◌∷◌, ◌++◌, Memᴰ, ltb, nat_eq, ◌≡◌, refl, ap,
  ◌∙◌, Result, ok, err, Exec, arith, if◌then◌else◌, true, false, ◌==◌, string_Key,
}
use court_kernel.Hosted.Types.{Payload}
use court_kernel.Linux.Protocol.{WireStatus, WireCap, fresh_endpoint, status}
use court_kernel.Linux.ShmRing.{SharedRing, recv, check}
use court_kernel.Linux.ShmRing.Slots.{Holds}
use court_kernel.Linux.ShmRing.Fifo.{recv_open}
use court_kernel.Linux.Clients.{Client, ClientError, changed, on_ring, timed_out}
use court_kernel.Linux.Clients.Net.{Poll, poll_loop}

-- A ring of that shape with nothing in it, after `n` sends.
abbrev pub IsEmpty : ℕ → ℕ → ℕ → SharedRing → Type 0
IsEmpty capacity slot_size n r =
    Holds r [] × (r.capacity ≡ capacity) × (r.slot_size ≡ slot_size) × (r.producer ≡ n)

fresh_open : (wire_cap : WireCap) → check (status (fresh_endpoint wire_cap)) ≡ ok tt
unfolding status
fresh_open wire_cap = refl

recv-none :
    (wire_cap : WireCap) (r : SharedRing)
    → Holds r []
    → recv (fresh_endpoint wire_cap) r ≡ (ok none, r)
unfolding recv status
recv-none wire_cap r h =
    let c = h.counted in
    let empty : nat_eq r.consumer r.producer ≡ true = ground arith in rw (recv, empty) refl

on_ring-some :
    {A : Type 0} (path : String) (act : Exec WireStatus SharedRing A) (c : Client) (r : SharedRing)
    → c.files path ≡ some r
    → on_ring path act c
      ≡ (ok (act r).0, record c { files = λ p. if p == path then some (act r).1 else c.files p })
unfolding on_ring
on_ring-some path act c r e = ground (arith, e)

-- One poll, by the ring that it finds.
module _ (path : String) (wire_cap : WireCap) (poll : Poll) (c : Client) (r : SharedRing)
    (there : c.files path ≡ some r) where
  abbrev polled : Result ClientError (Result WireStatus (Option Payload)) × Client
  polled =
      on_ring path (recv (fresh_endpoint wire_cap))
        (record c { files = changed poll.others c.files })

  abbrev received : Result WireStatus (Option Payload) × SharedRing
  received = recv (fresh_endpoint wire_cap) (poll.others path r)

  polled_lem : (polled.0 ≡ ok received.0) × (polled.1.files path ≡ some received.1)
  polled_lem =
      let seen : changed poll.others c.files path ≡ some (poll.others path r) =
        ground (arith, there) in
      let at =
        on_ring-some path (recv (fresh_endpoint wire_cap))
          (record c { files = changed poll.others c.files }) (poll.others path r) seen in
      let same : path == path ≡ true = (string_Key.same_iff path path).1 refl in
      rw at (refl, rw same refl)

-- The shape of the ring at `path`, and how many payloads were sent through it.
module _ (path : String) (wire_cap : WireCap) (deadline capacity slot_size n : ℕ) where
  -- What the others did before a poll puts those payloads into the empty ring.
  abbrev pub Fills : Poll → List Payload → Type 0
  Fills poll q = (r : SharedRing) → IsEmpty capacity slot_size n r → Holds (poll.others path r) q

  -- A poll before the deadline that finds nothing.
  abbrev pub Idles : Poll → Type 0
  Idles poll =
      poll.now ≤ deadline
      × ((r : SharedRing)
          → IsEmpty capacity slot_size n r
          → IsEmpty capacity slot_size n (poll.others path r))

  -- On a ring that is empty, after polls before the deadline that found nothing: a poll that starts after the deadline
  -- times out, whatever the ring then holds, and otherwise, when the others have put payloads into the ring before the
  -- poll, it returns the first of them.
  pub poll_loop_lem :
      (waits : List Poll) (last : Poll) (rest : List Poll) (c : Client) (r : SharedRing)
      → c.files path ≡ some r
      → IsEmpty capacity slot_size n r
      → ((poll : Poll) → Memᴰ poll waits → Idles poll)
      → let res = (poll_loop path (fresh_endpoint wire_cap) deadline (waits ++ last ∷ rest) c).0 in
        (deadline < last.now → res ≡ err timed_out)
        × ((p : Payload) (more : List Payload)
            → last.now ≤ deadline
            → Fills last (p ∷ more)
            → res ≡ ok p)
  unfolding poll_loop
  poll_loop_lem [] last rest c r there h idle = (
    λ late. ground arith,
    λ p more early fills.
        let (out, _) = polled_lem path wire_cap last c r there in
        let (got, _) =
          recv_open (fresh_endpoint wire_cap) (last.others path r) (p ∷ more) (fresh_open wire_cap)
            (fills r h) in
        rw (out, got, poll_loop) (ground arith),
  )
  poll_loop_lem (w ∷ waits) last rest c r there h idle =
      let (early, same) = idle w (Memᴰ.head refl) in
      let empty = same r h in
      let (out, still) = polled_lem path wire_cap w c r there in
      let got = recv-none wire_cap (w.others path r) empty.0 in
      let later =
        poll_loop_lem waits last rest (polled path wire_cap w c r there).1 (w.others path r)
          (still ∙ ap (λ z. some z.1) got) empty (λ x m. idle x (Memᴰ.tail m)) in
      let in_time : ltb deadline w.now ≡ false = ground arith in
      rw (out, ap (λ z. z.0) got, in_time, poll_loop) later
