-- ===== src/RootCourt/Loader/Fixtures.antt =====
-- crates/root-court/src/image.rs: an image with one segment of code.
use court_kernel.Prelude.{
  zero, suc, ltb, ◌&&◌, Bool, ◌<◌, arith, ℕ, ◌≡◌, refl, List, [], ◌∷◌, ◌++◌, replicate, from_le,
  load as load_bytes, true,
}
use court_kernel.RootCourt.Loader.Bytes.{byte_at}
use court_kernel.RootCourt.Loader.Contents.{IsBytes}
use court_kernel.RootCourt.Loader.Reads.{header_of}

abbrev pub zeros : ℕ → List ℕ
zeros n = replicate n 0

-- one segment: three bytes of the file at 120, eight in memory at 0x100078, entered at its second byte
abbrev pub image : List ℕ
image =
    (0x7f ∷ 0x45 ∷ 0x4c ∷ 0x46 ∷ 2 ∷ 1 ∷ 1 ∷ 0 ∷ zeros 8)
    ++ (2 ∷ 0 ∷ 62 ∷ 0 ∷ 1 ∷ 0 ∷ 0 ∷ 0 ∷ 0x79 ∷ 0 ∷ 0x10 ∷ zeros 5)
    ++ (64 ∷ zeros 21)
    ++ (56 ∷ 0 ∷ 1 ∷ 0 ∷ zeros 6)
    ++ (1 ∷ 0 ∷ 0 ∷ 0 ∷ 5 ∷ 0 ∷ 0 ∷ 0 ∷ [])
    ++ (120 ∷ zeros 7)
    ++ (0x78 ∷ 0 ∷ 0x10 ∷ zeros 13)
    ++ (3 ∷ zeros 7)
    ++ (8 ∷ zeros 7)
    ++ zeros 8
    ++ (0x90 ∷ 0xeb ∷ 0xfe ∷ [])

pub one_header : 0 < (header_of image).phnum
unfolding byte_at from_le load_bytes
one_header = omega arith

unfoldable check_bytes : (bs : List ℕ) → Bool
check_bytes [] = true
check_bytes (b ∷ bs) = ltb b 256 && check_bytes bs

check_bytes-IsBytes : (bs : List ℕ) → check_bytes bs ≡ true → IsBytes bs
unfolding check_bytes byte_at
check_bytes-IsBytes [] h i = omega arith
check_bytes-IsBytes (b ∷ bs) h zero = ground (arith, h)
check_bytes-IsBytes (b ∷ bs) h (suc i) = check_bytes-IsBytes bs (ground (arith, h)) i

pub image-IsBytes : IsBytes image
unfolding check_bytes
image-IsBytes = check_bytes-IsBytes image refl
