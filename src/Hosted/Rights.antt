-- ===== src/Hosted/Rights.antt =====
-- crates/court-hosted/src/lib.rs: `Rights(u64)`, a set of bits.
use court_kernel.Prelude.{
  ℕ, ◌≡◌, ◌∙◌, sym, ap, Bool, true, bit_and, bit_or, bit_and_self, bit_and_assoc, nat_eq,
  nat_eq_iff,
}

abbrev pub Rights : Type 0
Rights = ℕ

abbrev pub none : Rights
none = 0

abbrev pub read : Rights
read = 1

abbrev pub write : Rights
write = 2

abbrev pub send : Rights
send = 4

abbrev pub recv : Rights
recv = 8

abbrev pub delegate : Rights
delegate = 16

abbrev pub revoke : Rights
revoke = 32

abbrev pub observe : Rights
observe = 64

-- `self.contains(required)`
unfoldable pub covers : Rights → Rights → Bool
covers self required = nat_eq (bit_and self required) required

-- `self | rhs`
abbrev pub union : Rights → Rights → Rights
union self rhs = bit_or self rhs

pub covers_refl : (a : Rights) → covers a a ≡ true
unfolding covers
covers_refl a = (nat_eq_iff _ a).1 (bit_and_self a)

-- A right that is covered twice over is covered.
pub covers_trans : (a b c : Rights) → covers a b ≡ true → covers b c ≡ true → covers a c ≡ true
unfolding covers
covers_trans a b c p q =
    (nat_eq_iff _ c).1
      (ap (bit_and a) (sym bc) ∙ sym (bit_and_assoc a b c) ∙ ap (λ t. bit_and t c) ab ∙ bc)
  where
    ab : bit_and a b ≡ b
    ab = (nat_eq_iff _ b).0 p

    bc : bit_and b c ≡ c
    bc = (nat_eq_iff _ c).0 q
