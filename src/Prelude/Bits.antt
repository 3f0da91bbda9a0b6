-- ===== src/Prelude/Bits.antt =====
-- Laws of `&` on machine words of every width. The native operation is compared with a recursion on
-- binary digits that has more fuel than it needs, and the laws are proved of that.
use Prim.Native.Nat.{ℕ, zero, suc, ◌+◌, ◌*◌, ◌/◌, ◌%◌, ◌≤◌, min, bit_and, digits, bit_and-bitwise}
use mathlib.Core.Path.{◌≡◌, refl, ◌∙◌, sym, ap}
use native.Mathlib.Omega.{arith}

-- the digits that two numbers share, the lowest first
conj : ℕ → ℕ → ℕ → ℕ
conj zero a b = 0
conj (suc k) a b = min (a % 2) (b % 2) + 2 * conj k (a / 2) (b / 2)

conj_zero : (k b : ℕ) → conj k 0 b ≡ 0
unfolding conj
conj_zero zero b = refl
conj_zero (suc k) b = omega (arith, conj_zero k (b / 2))

digits-conj : (k n a b : ℕ) → a ≤ k → a ≤ n → digits (λ _. 0) min n a b ≡ conj k a b
unfolding conj
digits-conj k zero zero b p q = sym (conj_zero k b)
digits-conj k (suc n) zero b p q = sym (conj_zero k b)
digits-conj k zero (suc a) b p q = absurd (omega arith)
digits-conj zero (suc n) (suc a) b p q = absurd (omega arith)
digits-conj (suc k) (suc n) (suc a) b p q =
    let half = digits-conj k n (suc a / 2) (b / 2) (omega arith) (omega arith) in
    omega (arith, half)

-- Any fuel that reaches the first argument will do.
bit_and-conj : (k a b : ℕ) → a ≤ k → bit_and a b ≡ conj k a b
bit_and-conj k a b h = bit_and-bitwise a b ∙ digits-conj k a a b h (omega arith)

conj_self : (k a : ℕ) → a ≤ k → conj k a a ≡ a
unfolding conj
conj_self zero a h = omega arith
conj_self (suc k) a h = omega (arith, conj_self k (a / 2) (omega arith))

conj_le : (k a b : ℕ) → conj k a b ≤ a
unfolding conj
conj_le zero a b = omega arith
conj_le (suc k) a b = omega (arith, conj_le k (a / 2) (b / 2))

conj_assoc : (k a b c : ℕ) → conj k (conj k a b) c ≡ conj k a (conj k b c)
unfolding conj
conj_assoc zero a b c = refl
conj_assoc (suc k) a b c =
    let x = conj k (a / 2) (b / 2) in
    let y = conj k (b / 2) (c / 2) in
    let left : (min (a % 2) (b % 2) + 2 * x) / 2 ≡ x = omega arith in
    let right : (min (b % 2) (c % 2) + 2 * y) / 2 ≡ y = omega arith in
    omega (
      arith,
      ap (λ t. conj k t (c / 2)) left,
      ap (conj k (a / 2)) right,
      conj_assoc k (a / 2) (b / 2) (c / 2),
    )

pub bit_and_self : (a : ℕ) → bit_and a a ≡ a
bit_and_self a = bit_and-conj a a a (omega arith) ∙ conj_self a a (omega arith)

pub bit_and_assoc : (a b c : ℕ) → bit_and (bit_and a b) c ≡ bit_and a (bit_and b c)
bit_and_assoc a b c =
    let k = a + b in
    let ab = bit_and-conj k a b (omega arith) in
    let bc = bit_and-conj k b c (omega arith) in
    bit_and-conj k (bit_and a b) c (omega (arith, ab, conj_le k a b))
    ∙ ap (λ t. conj k t c) ab
    ∙ conj_assoc k a b c
    ∙ ap (conj k a) (sym bc)
    ∙ sym (bit_and-conj k a (bit_and b c) (omega arith))
