-- ===== src/Linux/RingFile/Collide.antt =====
-- crates/court-hosted-linux/src/root.rs: two corridors whose paths end alike have one ring file.
use Prim.Native.String.{String, [] as nil, ◌∷◌ as ◌◂◌, ◌++◌ as ◌<>◌}
use text.Mathlib.TextLemmas.{nil-append, cons-append}
use court_kernel.Prelude.{
  ◌≡◌, ◌≢◌, refl, sym, ap, ◌∙◌, inl, inr, false, some, List, [], ◌∷◌, ◌++◌, Bool-cases,
}
use court_kernel.Linux.RingFile.{is_slash, split_path, nonempty, last_two, ring_file_name}

-- A name of one path component.
abbrev pub IsPart : String → Type 0
IsPart nil = Unit
IsPart (c ◂ s) = (is_slash c ≡ false) × IsPart s

split_some : (s : String) → (p : String) × (ps : List String) × (split_path s ≡ p ∷ ps)
unfolding split_path
split_some nil = (nil, [], refl)
split_some (c ◂ s) = elim (Bool-cases (is_slash c)) [
  | inl e ↦ (nil, split_path s, rw e)
  | inr e ↦ let (p, ps, f) = split_some s in (c ◂ p, ps, rw (e, f))
]

split_slash : (r : String) → split_path ("/" <> r) ≡ nil ∷ split_path r
unfolding split_path
split_slash r = ap split_path (cons-append "/" nil r) ∙ ap (λ t. nil ∷ split_path t) (nil-append r)

split_path-append : (p r : String) → split_path (p <> ("/" <> r)) ≡ split_path p ++ split_path r
unfolding split_path
split_path-append nil r = ap split_path (nil-append ("/" <> r)) ∙ split_slash r
split_path-append (c ◂ p) r =
    ap split_path (cons-append c p ("/" <> r)) ∙ elim (Bool-cases (is_slash c)) [
      | inl e ↦ rw (split_path, e, split_path-append p r)
      | inr e ↦ let (q, qs, f) = split_some p in rw (split_path, e, split_path-append p r, f)
    ]

split_part : (x : String) → IsPart x → split_path x ≡ x ∷ []
unfolding split_path
split_part nil h = refl
split_part (c ◂ s) h = rw (split_path, h.0, split_part s h.1)

nonempty-append : (ps qs : List String) → nonempty (ps ++ qs) ≡ nonempty ps ++ nonempty qs
nonempty-append [] qs = refl
nonempty-append (nil ∷ ps) qs = nonempty-append ps qs
nonempty-append ((c ◂ p) ∷ ps) qs = ap (λ t. (c ◂ p) ∷ t) (nonempty-append ps qs)

last_two-snoc : (ps : List String) (x y : String) → last_two (ps ++ (x ∷ y ∷ [])) ≡ some (x, y)
last_two-snoc [] x y = refl
last_two-snoc (p ∷ []) x y = refl
last_two-snoc (p ∷ q ∷ []) x y = refl
last_two-snoc (p ∷ q ∷ r ∷ ps) x y = last_two-snoc (q ∷ r ∷ ps) x y

nonempty_part : (x : String) → x ≢ nil → nonempty (x ∷ []) ≡ x ∷ []
nonempty_part nil h = absurd (h refl)
nonempty_part (c ◂ s) h = refl

-- The file of a corridor whose path has at least two components is named after the last two.
pub ring_file_name_lem :
    (p x y : String)
    → IsPart x
    → x ≢ nil
    → IsPart y
    → y ≢ nil
    → ring_file_name (p <> ("/" <> (x <> ("/" <> y)))) ≡ (x <> ("-" <> y)) <> ".ring"
unfolding ring_file_name
ring_file_name_lem p x y a b c d =
    let parts : nonempty (split_path (p <> ("/" <> (x <> ("/" <> y)))))
        ≡ nonempty (split_path p) ++ (x ∷ y ∷ []) =
      ap nonempty (
        split_path-append p (x <> ("/" <> y)) ∙ ap (λ t. split_path p ++ t) (split_path-append x y))
      ∙ nonempty-append (split_path p) (split_path x ++ split_path y)
      ∙ ap (λ t. nonempty (split_path p) ++ t) (tail x y a b c d) in
    rw (ring_file_name, parts, last_two-snoc (nonempty (split_path p)) x y)
  where
    tail :
        (x y : String)
        → IsPart x
        → x ≢ nil
        → IsPart y
        → y ≢ nil
        → nonempty (split_path x ++ split_path y) ≡ x ∷ y ∷ []
    tail x y a b c d =
        nonempty-append (split_path x) (split_path y)
        ∙ ap (λ t. nonempty t ++ nonempty (split_path y)) (split_part x a)
        ∙ ap (λ t. t ++ nonempty (split_path y)) (nonempty_part x b)
        ∙ ap (λ t. x ∷ nonempty t) (split_part y c)
        ∙ ap (λ t. x ∷ t) (nonempty_part y d)

-- Corridors whose paths differ only before their last two components have the same ring file.
pub ring_files_collide :
    (p q x y : String)
    → IsPart x
    → x ≢ nil
    → IsPart y
    → y ≢ nil
    → ring_file_name (p <> ("/" <> (x <> ("/" <> y))))
      ≡ ring_file_name (q <> ("/" <> (x <> ("/" <> y))))
ring_files_collide p q x y a b c d =
    ring_file_name_lem p x y a b c d ∙ sym (ring_file_name_lem q x y a b c d)
