-- ===== src/RootCourt/Loader/Contents.antt =====
-- crates/root-court/src/image.rs: the bytes of a segment in the pages that were taken for it, and
-- `map_segment` as a whole.
use court_kernel.Prelude.{
  ℕ, zero, suc, ◌+◌, ◌-◌, ◌*◌, ◌/◌, ◌%◌, ◌≤◌, ◌<◌, ◌≡◌, refl, sym, ap, ◌∙◌, true, ◌&&◌, List,
  length, load as load_bytes, ltb, leb, arith, if◌then◌else◌,
}
use court_kernel.RootCourt.Mm.{page, virt}
use court_kernel.RootCourt.Paging.{Mapper, Words}
use court_kernel.RootCourt.Paging.Build.{Kernel, mapper}
use court_kernel.RootCourt.Paging.Walk.{translate}
use court_kernel.RootCourt.Paging.Tree.{IsTree}
use court_kernel.RootCourt.Paging.Range.{MapsRange}
use court_kernel.RootCourt.Loader.{Segment, page_off, segment_pages, lower_half_end, max_segment}
use court_kernel.RootCourt.Loader.Bytes.{
  byte_at, load_byte, cleared, copied, load_byte-copied, copied_below, byte_of-zero,
}
use court_kernel.RootCourt.Loader.Frames.{
  Step, phys_byte, with_frames, taken-Step, taken-InFrame, Step-phys_byte,
}
use court_kernel.RootCourt.Loader.Placed.{Held}

-- What a slice of bytes is.
abbrev pub IsBytes : List ℕ → Type 0
IsBytes image = (i : ℕ) → byte_at image i < 256

pub length-load : (memory : ℕ → ℕ) (at n : ℕ) → length (load_bytes memory at n) ≡ n
unfolding load_bytes
length-load memory at zero = refl
length-load memory at (suc n) = ap suc (length-load memory (at + 1) n)

pub byte_at-load :
    (memory : ℕ → ℕ) (at n i : ℕ)
    → byte_at (load_bytes memory at n) i ≡ (if ltb i n then memory (at + i) else 0)
unfolding load_bytes byte_at
byte_at-load memory at zero i = ground arith
byte_at-load memory at (suc n) zero = let e : at + 0 ≡ at = omega arith in ground (arith, e)
byte_at-load memory at (suc n) (suc i) =
    let e : (at + 1) + i ≡ at + suc i = omega arith in
    let ih = byte_at-load memory (at + 1) n i in ground (arith, e, ih)

-- The checks of a segment.
abbrev pub IsChecked : Segment → Type 0
IsChecked s = s.vaddr < lower_half_end × s.memsz ≤ max_segment × s.filesz ≤ s.memsz

module _ (image : List ℕ) (s : Segment) (level : ℕ → ℕ) (k : Kernel) (root : ℕ)
    (small : IsBytes image) (v : IsTree level (mapper k root 0))
    (room : k.bump.cursor + segment_pages s * page ≤ k.bump.end) where
  abbrev pub base : ℕ
  base = virt k.bump k.bump.cursor

  abbrev pub blank : Words
  blank = cleared base (segment_pages s * page) k.memory

  abbrev pub filled : Words
  filled = copied (base + page_off s) (load_bytes (byte_at image) s.offset s.filesz) blank

  base_lem : (base ≡ k.bump.hhdm + k.bump.cursor) × (base % 8 ≡ 0)
  base_lem =
      let x = v.sound in
      let b = x.bump in
      let flat = x.flat in
      let even = x.even in
      let high = b.high in let aligned = b.aligned in (omega arith, omega arith)

  pub blank_below : (a : ℕ) → a < k.bump.hhdm + k.bump.cursor → blank a ≡ k.memory a
  blank_below a h = let e = base_lem.0 in ground arith

  pub filled_below : (a : ℕ) → a < k.bump.hhdm + k.bump.cursor → filled a ≡ k.memory a
  filled_below a h =
      let (e, even) = base_lem in
      copied_below _ (base + page_off s) base blank a even (omega arith) (omega arith)
      ∙ blank_below a h

  blank_byte : (i : ℕ) → base ≤ i → i < base + segment_pages s * page → load_byte blank i ≡ 0
  blank_byte i a b =
      let even = base_lem.1 in
      let inside : leb base (i / 8 * 8) && ltb (i / 8 * 8) (base + segment_pages s * page) ≡ true =
        ground arith in
      rw inside (byte_of-zero (i % 8))

  slice : List ℕ
  slice = load_bytes (byte_at image) s.offset s.filesz

  slice-IsBytes : IsBytes slice
  unfolding slice
  slice-IsBytes i =
      let e = byte_at-load (byte_at image) s.offset s.filesz i in
      let b = small (s.offset + i) in ground (arith, e, b)

  filled_byte :
      s.filesz ≤ s.memsz
      → (d : ℕ) → d < s.memsz
      → load_byte filled (base + page_off s + d)
        ≡ (if ltb d s.filesz then byte_at image (s.offset + d) else 0)
  unfolding slice
  filled_byte sizes d h =
      let i = base + page_off s + d in
      let copy = load_byte-copied slice (base + page_off s) blank i slice-IsBytes in
      let long = length-load (byte_at image) s.offset s.filesz in
      let zero_byte = blank_byte i (omega arith) (omega arith) in
      let off : base + page_off s + d - (base + page_off s) ≡ d = omega arith in
      let e = byte_at-load (byte_at image) s.offset s.filesz d in
      copy ∙ rw (long, off, e, zero_byte) (ground arith)

  -- The state before the call of the mapper.
  abbrev pub written : Words → Kernel
  written memory = record k {
    bump = record k.bump { cursor = k.bump.cursor + segment_pages s * page };
    memory = memory;
  }

  pub written-Step :
      (memory : Words)
      → ((a : ℕ) → a < k.bump.hhdm + k.bump.cursor → memory a ≡ k.memory a)
      → Step level
          (mapper k root 0)
          (with_frames level k.bump.cursor)
          (mapper (written memory) root 0)
  written-Step memory below =
      taken-Step level (mapper k root 0) (segment_pages s) memory v room below

  -- What the pages hold is what the segment holds, where they are mapped.
  pub filled-Held :
      IsChecked s
      → (levels : ℕ → ℕ) (n : Mapper)
      → Step (with_frames level k.bump.cursor) (mapper (written filled) root 0) levels n
      → MapsRange (s.vaddr - page_off s) k.bump.cursor (segment_pages s * page / page * page) n
      → Held image s levels n
  filled-Held c levels n step maps d h =
      let at = k.bump.cursor + (page_off s + d) in
      let w = written-Step filled filled_below in
      let there =
        taken-InFrame level (mapper k root 0) (segment_pages s) filled v room filled_below
          (page_off s + d) (omega arith) in
      let (same, in_frame) =
        Step-phys_byte (with_frames level k.bump.cursor) levels (mapper (written filled) root 0) n
          at w.tree step there in
      let x = v.sound in
      let flat = x.flat in
      let e : virt (written filled).bump at ≡ base + page_off s + d =
        let b = base_lem.0 in omega arith in
      let byte : phys_byte (mapper (written filled) root 0) at
          ≡ (if ltb d s.filesz then byte_at image (s.offset + d) else 0) =
        rw e (filled_byte c.2 d h) in
      let va : s.vaddr - page_off s + (page_off s + d) ≡ s.vaddr + d = omega arith in
      (at, ap (translate n) (sym va) ∙ maps (page_off s + d) (omega arith), same ∙ byte, in_frame)
