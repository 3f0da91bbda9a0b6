-- ===== src/RootCourt/Loader/Sound.antt =====
-- crates/root-court/src/image.rs: what a court finds in its address space after `load`, and what the
-- other spaces keep.
use court_kernel.Prelude.{
  ℕ, ◌+◌, ◌*◌, ◌≤◌, ◌<◌, ◌≡◌, refl, ◌∙◌, List, ok, length, ltb, some, if◌then◌else◌,
}
use court_kernel.RootCourt.Paging.{Mapper}
use court_kernel.RootCourt.Paging.Build.{Kernel, mapper}
use court_kernel.RootCourt.Paging.Space.{AddressSpace}
use court_kernel.RootCourt.Paging.Walk.{translate}
use court_kernel.RootCourt.Paging.Mapping.{translate-Grows}
use court_kernel.RootCourt.Paging.Tree.{IsTree, Grows, Grows-IsPage}
use court_kernel.RootCourt.Loader.{phdr_size, field, load}
use court_kernel.RootCourt.Loader.Bytes.{byte_at}
use court_kernel.RootCourt.Loader.Frames.{Step, phys_byte}
use court_kernel.RootCourt.Loader.Contents.{IsBytes}
use court_kernel.RootCourt.Loader.Reads.{segment_at, header_of, nth_header}
use court_kernel.RootCourt.Loader.Placed.{Held-Step}
use court_kernel.RootCourt.Loader.Image.{EntryIn, load_outcome}

-- Each byte of the memory of a loadable segment is mapped, to a byte of the file, or to 0 behind
-- the bytes that the file has.
abbrev pub Shows : List ℕ → ℕ → Mapper → Type 0
Shows image off n =
    let s = segment_at image off in
    field image off 4 ≡ 1
    → (d : ℕ) → d < s.memsz
    → (at : ℕ) × (translate n (s.vaddr + d) ≡ some at)
      × (phys_byte n at ≡ (if ltb d s.filesz then byte_at image (s.offset + d) else 0))

-- A step in one space, seen from another over the same levels.
pub elsewhere :
    (level levels : ℕ → ℕ) (k t : Kernel) (root other : ℕ)
    → Step level (mapper k root 0) levels (mapper t root 0)
    → IsTree level (mapper k other 0)
    → Step level (mapper k other 0) levels (mapper t other 0)
elsewhere level levels k t root other step v =
    let g = step.grows in
    let w = step.tree in
    let s = w.sound in
    let grows : Grows (mapper k other 0) (mapper t other 0) = record {
      same_root = refl;
      further = g.further;
      keeps = g.keeps;
    } in
    record {
      same = step.same;
      tree = record {
        sound = record { bump = s.bump; flat = s.flat; even = s.even; small = s.small };
        root = Grows-IsPage grows other v.root;
        top = step.same other v.root ∙ v.top;
        down = w.down;
      };
      grows = grows;
      frames = step.frames;
    }

-- On sound tables of a space, when `load` of an image succeeds, it returns the entry point that the image names. The
-- image has one to eight program headers, within its bytes; in the space, as the processor walks its tables, each
-- byte of every loadable segment is the byte of the file or, behind those, 0; and the entry point lies in a loadable
-- segment that starts in the lower half.
pub load_lem :
    (level : ℕ → ℕ) (k : Kernel) (space : AddressSpace) (image : List ℕ) (entry : ℕ)
    → IsBytes image
    → IsTree level (mapper k space.pml4_phys 0)
    → (load space image k).0 ≡ ok entry
    → let h = header_of image in
      (entry ≡ h.entry)
      × (1 ≤ h.phnum × h.phnum ≤ 8 × h.phoff + h.phnum * phdr_size ≤ length image)
      × ((i : ℕ)
          → i < h.phnum
          → Shows image (nth_header image i) (mapper (load space image k).1 space.pml4_phys 0))
      × ((i : ℕ) × i < h.phnum × EntryIn image (nth_header image i))
load_lem level k space image entry small v fine =
    let x = load_outcome space image small level k v in
    let (same, headers, held, found) = x.holds entry fine in
    (
      same,
      headers,
      λ i high is d h. let (at, walk, byte, _) = held i high is d h in (at, walk, byte),
      found,
    )

-- Whatever `load` into one space returns, the levels stay sound for this space and for every other over them, and no
-- address that either translates is translated otherwise.
pub load_keeps :
    (level : ℕ → ℕ) (k : Kernel) (space : AddressSpace) (image : List ℕ) (other : ℕ)
    → IsBytes image
    → IsTree level (mapper k space.pml4_phys 0)
    → IsTree level (mapper k other 0)
    → let t = (load space image k).1 in
      ((levels : ℕ → ℕ) × IsTree levels (mapper t space.pml4_phys 0)
        × IsTree levels (mapper t other 0))
      × ((va x : ℕ)
          → translate (mapper k space.pml4_phys 0) va ≡ some x
          → translate (mapper t space.pml4_phys 0) va ≡ some x)
      × ((va x : ℕ)
          → translate (mapper k other 0) va ≡ some x
          → translate (mapper t other 0) va ≡ some x)
load_keeps level k space image other small v w =
    let x = load_outcome space image small level k v in
    let t = (load space image k).1 in
    let y = elsewhere level x.levels k t space.pml4_phys other x.step w in
    let here = x.step in
    (
      (x.levels, here.tree, y.tree),
      translate-Grows level (mapper k space.pml4_phys 0) (mapper t space.pml4_phys 0) v here.grows,
      translate-Grows level (mapper k other 0) (mapper t other 0) w y.grows,
    )

-- When an image was loaded into one space, each byte of its loadable segments is the byte of its file, or 0, also
-- after another image is loaded into a second space over the same levels, whatever that load returns.
pub load_isolated :
    (level : ℕ → ℕ) (k : Kernel) (first second : AddressSpace) (image later : List ℕ) (entry : ℕ)
    → IsBytes image
    → IsBytes later
    → IsTree level (mapper k first.pml4_phys 0)
    → IsTree level (mapper k second.pml4_phys 0)
    → (load first image k).0 ≡ ok entry
    → (i : ℕ) → i < (header_of image).phnum
    → let t = (load second later (load first image k).1).1 in
      Shows image (nth_header image i) (mapper t first.pml4_phys 0)
load_isolated level k first second image later entry small fine_too v w fine i high is d h =
    let x = load_outcome first image small level k v in
    let k1 = (load first image k).1 in
    let here = x.step in
    let next = elsewhere level x.levels k k1 first.pml4_phys second.pml4_phys here w in
    let y = load_outcome second later fine_too x.levels k1 next.tree in
    let t = (load second later k1).1 in
    let back = elsewhere x.levels y.levels k1 t second.pml4_phys first.pml4_phys y.step here.tree in
    let (_, _, held, _) = x.holds entry fine in
    let (at, walk, byte, _) =
      Held-Step image (segment_at image (nth_header image i)) x.levels y.levels
        (mapper k1 first.pml4_phys 0) (mapper t first.pml4_phys 0) here.tree back (held i high is) d
        h in
    (at, walk, byte)
