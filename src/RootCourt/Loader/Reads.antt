-- ===== src/RootCourt/Loader/Reads.antt =====
-- crates/root-court/src/image.rs: the reads and checks of `load` change nothing, and what they return.
use court_kernel.Prelude.{
  ℕ, ◌+◌, ◌*◌, ◌≤◌, ◌≡◌, refl, ◌⊎◌, inl, inr, Bool, true, List, Result, ok, err, lift, guard,
  length, leb, arith, Bool-cases,
}
use court_kernel.Prelude.Chain.{◌>>=◌, ◌>>◌}
use court_kernel.RootCourt.Paging.Build.{Kernel}
use court_kernel.RootCourt.Loader.{
  LoadError, LoadAct, Header, Segment, check_ident, read_fields, check_segment, phdr_size, read_le,
  read_segment, field, out_of_bounds,
}
use court_kernel.RootCourt.Loader.Contents.{IsChecked}

-- The program header at an offset.
abbrev pub segment_at : List ℕ → ℕ → Segment
segment_at image off = record {
  offset = field image (off + 8) 8;
  vaddr = field image (off + 16) 8;
  filesz = field image (off + 32) 8;
  memsz = field image (off + 40) 8;
}

abbrev pub header_of : List ℕ → Header
header_of image = record {
  entry = field image 24 8;
  phoff = field image 32 8;
  phnum = field image 56 2;
}

-- The offset of the program header at the index.
abbrev pub nth_header : List ℕ → ℕ → ℕ
nth_header image i = (header_of image).phoff + i * phdr_size

-- An action that changes nothing and fails, or returns that value, of which `P` holds.
abbrev pub Only : {A : Type 0} → Kernel → Result LoadError A × Kernel → A → Type 0 → Type 0
Only k out a P = ((e : LoadError) × (out ≡ (err e, k))) ⊎ ((out ≡ (ok a, k)) × P)

-- A read, and what follows it.
after_read :
    {B : Type 0} (width : ℕ) (image : List ℕ) (off : ℕ) (rest : ℕ → LoadAct B) (k : Kernel) (b : B)
    (P : Type 0)
    → Only k (rest (field image off width) k) b P
    → Only k ((lift (read_le width image off) >>= rest) k) b P
unfolding ◌>>=◌
after_read width image off rest k b P next = elim (Bool-cases (leb (off + width) (length image))) [
  | inl inside ↦ rw inside next
  | inr outside ↦ rw outside (inl (out_of_bounds, refl))
]

pub read_lem :
    (width : ℕ) (image : List ℕ) (off : ℕ) (k : Kernel)
    → Only k (lift (read_le width image off) k) (field image off width) Unit
read_lem width image off k = elim (Bool-cases (leb (off + width) (length image))) [
  | inl inside ↦ rw inside (inr (refl, tt))
  | inr outside ↦ rw outside (inl (out_of_bounds, refl))
]

-- A guard, and what follows it.
after_guard :
    {B : Type 0} (test : Bool) (e : LoadError) (rest : LoadAct B) (k : Kernel) (b : B) (P : Type 0)
    → (test ≡ true → Only k (rest k) b P)
    → Only k ((lift (guard test e) >> rest) k) b P
unfolding ◌>>◌
after_guard test e rest k b P next = elim (Bool-cases test) [
  | inl holds ↦ rw holds (next holds)
  | inr fails ↦ rw fails (inl (e, refl))
]

last_guard :
    (test : Bool) (e : LoadError) (k : Kernel) (P : Type 0)
    → (test ≡ true → P)
    → Only k (lift (guard test e) k) tt P
last_guard test e k P next = elim (Bool-cases test) [
  | inl holds ↦ rw holds (inr (refl, next holds))
  | inr fails ↦ rw fails (inl (e, refl))
]

pub check_ident_lem :
    (image : List ℕ) (k : Kernel) → Only k (check_ident image k) tt (64 ≤ length image)
unfolding check_ident
check_ident_lem image k = after_guard _ _ _ k tt _ (λ a.
    after_guard _ _ _ k tt _
      (λ b. after_guard _ _ _ k tt _ (λ c. last_guard _ _ k _ (λ d. ground arith))))

pub read_segment_lem :
    (image : List ℕ) (off : ℕ) (k : Kernel)
    → Only k (read_segment image off k) (segment_at image off) Unit
unfolding read_segment
read_segment_lem image off k = after_read 8 image (off + 8) _ k _ _ (
    after_read 8 image (off + 16) _ k _ _ (
      after_read 8 image (off + 32) _ k _ _
        (after_read 8 image (off + 40) _ k _ _ (inr (refl, tt)))))

pub check_segment_lem : (s : Segment) (k : Kernel) → Only k (check_segment s k) tt (IsChecked s)
unfolding check_segment
check_segment_lem s k = after_guard _ _ _ k tt _ (λ a. after_guard _ _ _ k tt _ (λ b.
    after_guard _ _ _ k tt _
      (λ c. last_guard _ _ k _ (λ d. (ground arith, ground arith, ground arith)))))

-- The program headers lie in the image, and there are one to eight of them.
abbrev pub IsHeaders : List ℕ → Type 0
IsHeaders image =
    let h = header_of image in 1 ≤ h.phnum × h.phnum ≤ 8 × h.phoff + h.phnum * 56 ≤ length image

pub read_fields_lem :
    (image : List ℕ) (k : Kernel) → Only k (read_fields image k) (header_of image) (IsHeaders image)
unfolding read_fields
read_fields_lem image k = after_read 2 image 16 _ k _ _ (
    after_guard _ _ _ k _ _ (λ a. after_read 2 image 18 _ k _ _ (
      after_guard _ _ _ k _ _ (λ b. after_read 8 image 24 _ k _ _ (
        after_read 8 image 32 _ k _ _ (
          after_read 2 image 54 _ k _ _ (
            after_read 2 image 56 _ k _ _ (
              after_guard _ _ _ k _ _ (λ size. after_guard _ _ _ k _ _ (λ count.
                after_guard _ _ _ k _ _ (λ c. after_guard _ _ _ k _ _ (λ d.
                  after_guard _ _ _ k _ _
                    (λ fits. inr (refl, (ground arith, ground arith, ground arith)))))))))))))))
