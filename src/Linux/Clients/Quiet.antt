-- ===== src/Linux/Clients/Quiet.antt =====
-- crates/court-hosted-linux/src/app.rs and net.rs: steps of a client that leave the rings to others.
use court_kernel.Prelude.{
  String, List, [], ◌∷◌, ◌++◌, string_Key, ◌≡◌, refl, ap, sym, subst, ◌∙◌, ok, err, arith, inl, inr,
  ◌⊎◌, Option-cases, Result-cases,
}
use court_kernel.Prelude.Chain.{◌>>=◌, ◌>>◌, bind_elim}
use court_kernel.Linux.Protocol.{WireMessage}
use court_kernel.Linux.ShmRing.{validate}
use court_kernel.Linux.Clients.{
  Files, Event, Client, ClientAct, changed, arrive, closed, transmit, receive, expect_hello_ack,
  open_ring,
}

-- What the others did to the rings while those messages came.
unfoldable pub later : List Event → Files → Files
later [] files = files
later (event ∷ events) files = later events (changed event.others files)

later-append :
    (xs ys : List Event) (files : Files) → later (xs ++ ys) files ≡ later ys (later xs files)
unfolding later
later-append [] ys files = refl
later-append (x ∷ xs) ys files = later-append xs ys (changed x.others files)

pub append_assoc : {A : Type 0} (xs ys zs : List A) → xs ++ (ys ++ zs) ≡ (xs ++ ys) ++ zs
append_assoc [] ys zs = refl
append_assoc (x ∷ xs) ys zs = ap (λ t. x ∷ t) (append_assoc xs ys zs)

-- The client took some messages, and the rings are as the others made them meanwhile.
pub record Quiet (c d : Client) : Type 0 where
  pub seen : List Event
  pub taken : c.inbox ≡ seen ++ d.inbox
  pub left : d.files ≡ later seen c.files

pub Quiet-refl : (c : Client) → Quiet c c
unfolding later
Quiet-refl c = record { seen = []; taken = refl; left = refl }

pub Quiet-trans : (c d e : Client) → Quiet c d → Quiet d e → Quiet c e
Quiet-trans c d e a b = record {
  seen = a.seen ++ b.seen;
  taken = a.taken ∙ ap (λ t. a.seen ++ t) b.taken ∙ append_assoc a.seen b.seen e.inbox;
  left = b.left ∙ ap (later b.seen) a.left ∙ sym (later-append a.seen b.seen c.files);
}

pub Quiet-trans_seen :
    (c d e : Client) (a : Quiet c d) (b : Quiet d e)
    → (Quiet-trans c d e a b).seen ≡ a.seen ++ b.seen
unfolding Quiet-trans
Quiet-trans_seen c d e a b = refl

pub transmit-Quiet : (message : WireMessage) (c : Client) → Quiet c (transmit message c).1
unfolding transmit later
transmit-Quiet message c = record { seen = []; taken = refl; left = refl }

inbox_cases : (xs : List Event) → (xs ≡ []) ⊎ ((x : Event) × (rest : List Event) × (xs ≡ x ∷ rest))
inbox_cases [] = inl refl
inbox_cases (x ∷ rest) = inr (x, rest, refl)

receive-none : (c : Client) → c.inbox ≡ [] → receive c ≡ (err closed, c)
unfolding receive
receive-none c e = ground (arith, e)

receive-some :
    (c : Client) (x : Event) (rest : List Event)
    → c.inbox ≡ x ∷ rest
    → receive c ≡ (ok x.message, arrive x rest c)
unfolding receive
receive-some c x rest e = ground (arith, e)

pub arrive-Quiet :
    (c : Client) (x : Event) (rest : List Event) → c.inbox ≡ x ∷ rest → Quiet c (arrive x rest c)
unfolding later
arrive-Quiet c x rest e = record { seen = x ∷ []; taken = e; left = refl }

pub receive-Quiet : (c : Client) → Quiet c (receive c).1
receive-Quiet c = elim (inbox_cases c.inbox) [
  | inl e ↦ subst (λ z. Quiet c z.1) (sym (receive-none c e)) (Quiet-refl c)
  | inr (x, rest, e) ↦
      subst (λ z. Quiet c z.1) (sym (receive-some c x rest e)) (arrive-Quiet c x rest e)
]

-- Two steps, whatever the first returns.
pub bind-Quiet :
    {A B : Type 0} (first : ClientAct A) (rest : A → ClientAct B) (c : Client)
    → Quiet c (first c).1
    → ((a : A) → (d : Client) → Quiet d (rest a d).1)
    → Quiet c ((first >>= rest) c).1
bind-Quiet first rest c q next =
    bind_elim first rest c (λ z. Quiet c z.1) (λ e h. q) (λ a h. Quiet-trans c _ _ q (next a _))

pub then-Quiet :
    {A B : Type 0} (first : ClientAct A) (rest : ClientAct B) (c : Client)
    → Quiet c (first c).1
    → ((d : Client) → Quiet d (rest d).1)
    → Quiet c ((first >> rest) c).1
unfolding ◌>>=◌ ◌>>◌
then-Quiet first rest c q next = bind-Quiet first (λ _. rest) c q (λ _. next)

pub open_ring-Quiet : (path : String) (c : Client) → Quiet c (open_ring path c).1
unfolding open_ring
open_ring-Quiet path c = elim (Option-cases (c.files path)) [
  | inl e ↦ rw (e, open_ring) (Quiet-refl c)
  | inr (r, e) ↦ elim (Result-cases (validate r)) [
    | inl (x, h) ↦ rw (e, open_ring) (rw h (Quiet-refl c))
    | inr (x, h) ↦ rw (e, open_ring) (rw h (Quiet-refl c))
  ]
]

pub expect_hello_ack-Quiet : (court : String) (c : Client) → Quiet c (expect_hello_ack court c).1
unfolding expect_hello_ack
expect_hello_ack-Quiet court c = bind-Quiet receive _ c (receive-Quiet c) (λ _ d. Quiet-refl d)
