-- ===== src/RootCourt/Courtlets/Block.antt =====
-- crates/root-court/src/courtlet.rs: pages that are taken for a court and what they hold.
use court_kernel.Prelude.{
  ℕ, zero, suc, ◌+◌, ◌*◌, ◌/◌, ◌%◌, ◌^◌, ◌≤◌, ◌<◌, ◌≡◌, refl, sym, ap, subst, ◌∙◌, inl, inr, List,
  [], ◌∷◌, Result, err, length, nat_eq, ltb, arith, Bool-cases, if◌then◌else◌,
}
use court_kernel.Prelude.Chain.{◌>>=◌, ◌>>◌, bind-err, bind-ok}
use court_kernel.RootCourt.Mm.{page, virt}
use court_kernel.RootCourt.Paging.{Mapper, Words, written, word_at, entry}
use court_kernel.RootCourt.Paging.Build.{Kernel, mapper}
use court_kernel.RootCourt.Paging.Tree.{IsTree, IsPage, Grows-IsPage, entry_lem}
use court_kernel.RootCourt.Loader.{LoadError, take_pages}
use court_kernel.RootCourt.Loader.Bytes.{byte_at, cleared}
use court_kernel.RootCourt.Loader.Frames.{Step, InFrame, with_frames, taken-Step, taken-InFrame}
use court_kernel.RootCourt.Loader.Placed.{Loads, stays, take_pages_outcome}
use court_kernel.RootCourt.Courtlets.{write_words, new_block}

write_words_below :
    (ws : List ℕ) (at : ℕ) (memory : Words) (a : ℕ) → a < at → write_words at ws memory a ≡ memory a
unfolding write_words
write_words_below [] at memory a h = refl
write_words_below (w ∷ ws) at memory a h =
    write_words_below ws (at + 8) (written at w memory) a (omega arith) ∙ ground arith

write_words_lem :
    (ws : List ℕ) (at : ℕ) (memory : Words) (i : ℕ)
    → write_words at ws memory (at + 8 * i)
      ≡ (if ltb i (length ws) then byte_at ws i else memory (at + 8 * i))
unfolding write_words byte_at
write_words_lem [] at memory i = ground arith
write_words_lem (w ∷ ws) at memory zero =
    write_words_below ws (at + 8) (written at w memory) (at + 8 * 0) (omega arith) ∙ ground arith
write_words_lem (w ∷ ws) at memory (suc i) =
    let e : at + 8 + 8 * i ≡ at + 8 * suc i = omega arith in
    ap (write_words (at + 8) ws (written at w memory)) (sym e)
    ∙ write_words_lem ws (at + 8) (written at w memory) i
    ∙ rw e (ground arith)

-- Whole pages below 2^52 that hold no table, with the words at their start and 0 behind.
pub record IsBlock (pages : ℕ) (ws : List ℕ) (phys : ℕ) (level : ℕ → ℕ) (n : Mapper) : Type 0 where
  pub low : phys + pages * page ≤ 2 ^ 52
  pub aligned : phys % page ≡ 0
  pub frames : (d : ℕ) → d < pages * page → InFrame level n (phys + d)
  pub words :
      (j i : ℕ)
      → j < pages
      → i < 512
      → word_at n (phys + j * page) i ≡ (if nat_eq j 0 then byte_at ws i else 0)

pub IsBlock-Step :
    (pages : ℕ) (ws : List ℕ) (phys : ℕ) (level levels : ℕ → ℕ) (m n : Mapper)
    → Step level m levels n
    → IsBlock pages ws phys level m
    → IsBlock pages ws phys levels n
IsBlock-Step pages ws phys level levels m n step b = record {
  low = b.low;
  aligned = b.aligned;
  frames = λ d h. let (p, e) = b.frames d h in (Grows-IsPage step.grows _ p, step.same _ p ∙ e);
  words = λ j i h k.
      let a = b.aligned in
      let (p, e) = b.frames (j * page) (omega arith) in
      let at : (phys + j * page) / page * page ≡ phys + j * page = omega arith in
      step.frames (phys + j * page) i (rw at at p) (rw at at e) k ∙ b.words j i h k;
}

byte_at-out : (ws : List ℕ) (i : ℕ) → length ws ≤ i → byte_at ws i ≡ 0
unfolding byte_at
byte_at-out [] i h = refl
byte_at-out (w ∷ ws) zero h = absurd (omega arith)
byte_at-out (w ∷ ws) (suc i) h = byte_at-out ws i (omega arith)

module _ (e : LoadError) (pages : ℕ) (ws : List ℕ) (level : ℕ → ℕ) (k : Kernel) (root : ℕ)
    (short : length ws ≤ 512) (v : IsTree level (mapper k root 0)) where
  module _ (room : k.bump.cursor + pages * page ≤ k.bump.end) where
    abbrev base : ℕ
    base = virt k.bump k.bump.cursor

    abbrev blank : Words
    blank = cleared base (pages * page) k.memory

    abbrev after : Kernel
    after = record k {
      bump = record k.bump { cursor = k.bump.cursor + pages * page };
      memory = write_words base ws blank;
    }

    base_lem : base ≡ k.bump.hhdm + k.bump.cursor
    base_lem =
        let x = v.sound in let b = x.bump in let flat = x.flat in let high = b.high in omega arith

    below : (a : ℕ) → a < k.bump.hhdm + k.bump.cursor → write_words base ws blank a ≡ k.memory a
    below a h = let at = base_lem in write_words_below ws base blank a (omega arith) ∙ ground arith

    after-Step :
        Step level (mapper k root 0) (with_frames level k.bump.cursor) (mapper after root 0)
    after-Step = taken-Step level (mapper k root 0) pages _ v room below

    -- Words that are written, and those behind, in the first page and in others.
    word_of :
        (j i : ℕ)
        → i < 512
        → (if ltb (512 * j + i) (length ws) then byte_at ws (512 * j + i) else 0)
          ≡ (if nat_eq j 0 then byte_at ws i else 0)
    word_of j i l = elim (Bool-cases (nat_eq j 0)) [
      | inr later ↦ ground (arith, later)
      | inl first ↦
          let is : 512 * j + i ≡ i = ground arith in
          let out = byte_at-out ws i in rw (is, first) (ground (arith, out))
    ]

    word_lem :
        (j i : ℕ)
        → j < pages
        → i < 512
        → word_at (mapper after root 0) (k.bump.cursor + j * page) i
          ≡ (if nat_eq j 0 then byte_at ws i else 0)
    word_lem j i h l =
        let s = after-Step in
        let t = s.tree in
        let x = v.sound in
        let b = x.bump in
        let aligned = b.aligned in
        let at = base_lem in
        let p : IsPage (mapper after root 0) (k.bump.cursor + j * page) =
          (omega arith, omega arith) in
        let there : entry (mapper after root 0) (k.bump.cursor + j * page) i
            ≡ base + 8 * (512 * j + i) =
          entry_lem (mapper after root 0) (k.bump.cursor + j * page) i t.sound p l ∙ omega arith in
        let w = write_words_lem ws base blank (512 * j + i) in
        let empty : blank (base + 8 * (512 * j + i)) ≡ 0 = ground arith in
        ap (write_words base ws blank) there ∙ w ∙ rw empty (word_of j i l)

    after-IsBlock :
        IsBlock pages ws k.bump.cursor (with_frames level k.bump.cursor) (mapper after root 0)
    after-IsBlock =
        let x = v.sound in
        let b = x.bump in
        record {
          low = let r = x.small in omega arith;
          aligned = b.aligned;
          frames = taken-InFrame level (mapper k root 0) pages _ v room below;
          words = word_lem;
        }

  abbrev Done : Result LoadError (ℕ × ℕ) × Kernel → Type 0
  Done (res, k') = Loads level k root res k' (λ x. IsBlock pages ws x.0)

  pub new_block_lem : Done (new_block e pages ws k)
  unfolding new_block ◌>>=◌ ◌>>◌
  new_block_lem = elim (take_pages_outcome e pages k (v.sound).bump) [
    | inl h ↦
        subst Done (sym (bind-err (take_pages e pages) _ k k e h))
          (stays level k root (err e) _ v (λ _ bad. absurd (ground (arith, bad))))
    | inr (room, h) ↦ subst Done (sym (bind-ok (take_pages e pages) _ k _ _ h)) (record {
      levels = with_frames level k.bump.cursor;
      step = after-Step room;
      holds = λ x fine.
          let is : k.bump.cursor ≡ x.0 = ground (arith, fine) in
          subst
            (λ p. IsBlock pages ws p (with_frames level k.bump.cursor) (mapper (after room) root 0))
            is (after-IsBlock room);
    })
  ]
