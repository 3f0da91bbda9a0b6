-- ===== src/RootCourt/Loader/Bytes.antt =====
-- crates/root-court/src/image.rs: the bytes of words in memory, and writes of bytes.
use court_kernel.Prelude.{
  ℕ, zero, suc, ◌+◌, ◌-◌, ◌*◌, ◌/◌, ◌%◌, ◌≤◌, ◌<◌, ◌≡◌, refl, ◌∙◌, inl, inr, ◌&&◌, List, [], ◌∷◌,
  length, nat_eq, ltb, leb, arith, Bool-cases, if◌then◌else◌,
}
use court_kernel.RootCourt.Paging.{Words, written}

-- A byte of a slice, 0 out of its bounds.
unfoldable pub byte_at : List ℕ → ℕ → ℕ
byte_at [] i = 0
byte_at (b ∷ bs) zero = b
byte_at (b ∷ bs) (suc i) = byte_at bs i

-- The byte of a little-endian word, and the word with that byte replaced.
unfoldable pub byte_of : ℕ → ℕ → ℕ
byte_of zero word = word % 256
byte_of (suc k) word = byte_of k (word / 256)

unfoldable pub with_byte : ℕ → ℕ → ℕ → ℕ
with_byte zero b word = word / 256 * 256 + b
with_byte (suc k) b word = word % 256 + 256 * with_byte k b (word / 256)

abbrev pub load_byte : Words → ℕ → ℕ
load_byte memory at = byte_of (at % 8) (memory (at / 8 * 8))

abbrev pub store_byte : ℕ → ℕ → Words → Words
store_byte at b memory = written (at / 8 * 8) (with_byte (at % 8) b (memory (at / 8 * 8))) memory

-- `write_bytes(0, len)` and `copy_from_nonoverlapping`
abbrev pub cleared : ℕ → ℕ → Words → Words
cleared at len memory a = if leb at a && ltb a (at + len) then 0 else memory a

unfoldable pub copied : ℕ → List ℕ → Words → Words
copied at [] memory = memory
copied at (b ∷ bs) memory = copied (at + 1) bs (store_byte at b memory)

byte_of-with_byte :
    (j k b word : ℕ)
    → b < 256
    → byte_of j (with_byte k b word) ≡ (if nat_eq j k then b else byte_of j word)
unfolding byte_of with_byte
byte_of-with_byte zero zero b word h = omega arith
byte_of-with_byte zero (suc k) b word h = ground arith
byte_of-with_byte (suc j) zero b word h =
    let e : (word / 256 * 256 + b) / 256 ≡ word / 256 = omega arith in rw e (ground arith)
byte_of-with_byte (suc j) (suc k) b word h =
    let e : (word % 256 + 256 * with_byte k b (word / 256)) / 256 ≡ with_byte k b (word / 256) =
      omega arith in
    rw e (byte_of-with_byte j k b (word / 256) h ∙ ground arith)

pub byte_of-zero : (k : ℕ) → byte_of k 0 ≡ 0
unfolding byte_of
byte_of-zero zero = refl
byte_of-zero (suc k) = byte_of-zero k

load_byte-store_byte :
    (at b : ℕ) (memory : Words) (i : ℕ)
    → b < 256
    → load_byte (store_byte at b memory) i ≡ (if nat_eq i at then b else load_byte memory i)
load_byte-store_byte at b memory i h = elim (Bool-cases (nat_eq (i / 8 * 8) (at / 8 * 8))) [
  | inl e ↦
      let same : i / 8 * 8 ≡ at / 8 * 8 = ground arith in
      rw (e, same) (byte_of-with_byte (i % 8) (at % 8) b (memory (at / 8 * 8)) h ∙ ground arith)
  | inr e ↦ rw e (ground arith)
]

-- A copy is read back byte by byte, and changes no other byte.
pub load_byte-copied :
    (bs : List ℕ) (at : ℕ) (memory : Words) (i : ℕ)
    → ((j : ℕ) → byte_at bs j < 256)
    → load_byte (copied at bs memory) i
      ≡ (if leb at i && ltb i (at + length bs) then byte_at bs (i - at) else load_byte memory i)
unfolding copied byte_at
load_byte-copied [] at memory i small = ground arith
load_byte-copied (b ∷ bs) at memory i small =
    let ih = load_byte-copied bs (at + 1) (store_byte at b memory) i (λ j. small (suc j)) in
    let one = load_byte-store_byte at b memory i (small 0) in
    elim (Bool-cases (nat_eq i at)) [
      | inl e ↦ let zeroth : i - at ≡ 0 = ground arith in rw zeroth (ih ∙ ground (arith, one))
      | inr e ↦ elim (Bool-cases (leb at i)) [
        | inl up ↦
            let next : i - at ≡ suc (i - (at + 1)) = ground arith in
            rw next (ih ∙ ground (arith, one))
        | inr down ↦ rw down (ih ∙ ground (arith, one))
      ]
    ]

-- Words below the first byte are left alone.
pub copied_below :
    (bs : List ℕ) (at low : ℕ) (memory : Words) (a : ℕ)
    → low % 8 ≡ 0
    → low ≤ at
    → a < low
    → copied at bs memory a ≡ memory a
unfolding copied
copied_below [] at low memory a even h k = refl
copied_below (b ∷ bs) at low memory a even h k =
    copied_below bs (at + 1) low (store_byte at b memory) a even (omega arith) k ∙ ground arith
