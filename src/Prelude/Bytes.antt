-- ===== src/Prelude/Bytes.antt =====
-- Bytes in memory, little-endian words, and arithmetic on strides and rings of slots.
use native.Mathlib.Nat.{mod-add-div'}
use Prim.Native.Nat.{ℕ, zero, suc, ◌+◌, ◌*◌, ◌/◌, ◌%◌, ◌^◌, ◌≤◌, ◌<◌}
use mathlib.Core.Path.{◌≡◌, refl, ap, ◌∙◌}
use mathlib.Core.Logic.{◌⊎◌, inl, inr}
use mathlib.Core.List.{List, [], ◌∷◌}
use native.Mathlib.Omega.{arith}
use court_kernel.Prelude.Tests.{nat_eq, ltb, ltb→lt, Bool-cases, if◌then◌else◌}
use court_kernel.Prelude.Lists.{length}

abbrev pub Memory : Type 0
Memory = ℕ → ℕ

-- `copy_nonoverlapping` to and from memory
unfoldable pub store : Memory → ℕ → List ℕ → Memory
store m at [] = m
store m at (b ∷ bs) = store (λ i. if nat_eq i at then b else m i) (at + 1) bs

unfoldable pub load : Memory → ℕ → ℕ → List ℕ
load m at zero = []
load m at (suc n) = m at ∷ load m (at + 1) n

unfoldable pub to_le : ℕ → ℕ → List ℕ
to_le zero n = []
to_le (suc w) n = n % 256 ∷ to_le w (n / 256)

unfoldable pub from_le : List ℕ → ℕ
from_le [] = 0
from_le (b ∷ bs) = b + 256 * from_le bs

pub length-to_le : (w n : ℕ) → length (to_le w n) ≡ w
unfolding to_le
length-to_le zero n = refl
length-to_le (suc w) n = ap suc (length-to_le w (n / 256))

pub from_le-to_le : (w n : ℕ) → n < 256 ^ w → from_le (to_le w n) ≡ n
unfolding to_le from_le
from_le-to_le zero n h = omega arith
from_le-to_le (suc w) n h = omega (arith, from_le-to_le w (n / 256) (omega arith))

-- A write does not reach below or above its bytes.
pub store_outside :
    (m : Memory) (at : ℕ) (bs : List ℕ) (i : ℕ)
    → (i < at) ⊎ (at + length bs ≤ i)
    → store m at bs i ≡ m i
unfolding store
store_outside m at [] i h = refl
store_outside m at (b ∷ bs) i h =
    store_outside (λ i. if nat_eq i at then b else m i) (at + 1) bs i (ground (arith, h))
    ∙ ground (arith, h)

pub load_same :
    (m k : Memory) (at n : ℕ)
    → ((i : ℕ) → at ≤ i → i < at + n → m i ≡ k i)
    → load m at n ≡ load k at n
unfolding load
load_same m k at zero h = refl
load_same m k at (suc n) h =
    let rest = load_same m k (at + 1) n (λ i p q. h i (omega arith) (omega arith)) in
    let first = h at (omega arith) (omega arith) in ground (arith, rest, first)

pub load_outside :
    (m : Memory) (at : ℕ) (bs : List ℕ) (i n : ℕ)
    → (i + n ≤ at) ⊎ (at + length bs ≤ i)
    → load (store m at bs) i n ≡ load m i n
load_outside m at bs i n h =
    load_same (store m at bs) m i n (λ j p q. store_outside m at bs j (ground (arith, h)))

-- What was written is read back.
pub load-store : (m : Memory) (at : ℕ) (bs : List ℕ) → load (store m at bs) at (length bs) ≡ bs
unfolding load store
load-store m at [] = refl
load-store m at (b ∷ bs) =
    let k : Memory = λ i. if nat_eq i at then b else m i in
    let first : store k (at + 1) bs at ≡ b =
      store_outside k (at + 1) bs at (inl (omega arith)) ∙ ground arith in
    ground (arith, first, load-store k (at + 1) bs)

lt_or_ge : (a b : ℕ) → (a < b) ⊎ (b ≤ a)
lt_or_ge a b = elim (Bool-cases (ltb a b)) [
  | inl h ↦ inl (ltb→lt a b h)
  | inr h ↦ inr (ground arith)
]

-- Two slots of one stride do not overlap, and a slot lies below the number of slots.
pub stride_gap : (a b n : ℕ) → a < b → a * n + n ≤ b * n
stride_gap a zero n h = absurd (omega arith)
stride_gap zero (suc b) n h = omega arith
stride_gap (suc a) (suc b) n h = omega (arith, stride_gap a b n (omega arith))

-- One quotient is the other, or the products are a whole stride apart.
stride_cases : (a b n : ℕ) → (a ≡ b) ⊎ ((a * n + n ≤ b * n) ⊎ (b * n + n ≤ a * n))
stride_cases a b n = elim (lt_or_ge a b) [
  | inl p ↦ inr (inl (stride_gap a b n p))
  | inr p ↦ elim (lt_or_ge b a) [
    | inl q ↦ inr (inr (stride_gap b a n q))
    | inr q ↦ inl (omega arith)
  ]
]

-- Going round a ring, fewer steps than its size lead to different slots.
pub ring_distinct : (c i j n : ℕ) → i < n → j < n → (c + i) % n ≡ (c + j) % n → i ≡ j
ring_distinct c i j n p q e = elim (stride_cases ((c + i) / n) ((c + j) / n) n) [
  | inl same ↦ omega (arith, mod-add-div' (c + i) n, mod-add-div' (c + j) n, ap (λ t. t * n) same)
  | inr far ↦ ground (arith, far, mod-add-div' (c + i) n, mod-add-div' (c + j) n)
]
