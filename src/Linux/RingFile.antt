-- ===== src/Linux/RingFile.antt =====
-- crates/court-hosted-linux/src/root.rs: `ring_file_name`, the file of a corridor's ring.
pub mod Collide
use Prim.Native.Char.{Char, code}
use Prim.Native.String.{String, [] as nil, ◌∷◌ as ◌◂◌, ◌++◌ as ◌<>◌}
use court_kernel.Prelude.{
  ℕ, Bool, true, false, Option, none, some, List, [], ◌∷◌, nat_eq, if◌then◌else◌,
}

abbrev pub is_slash : Char → Bool
is_slash c = nat_eq (code c) 47

abbrev pub push : Char → List String → List String
push c [] = (c ◂ nil) ∷ []
push c (p ∷ ps) = (c ◂ p) ∷ ps

-- `split('/')`
unfoldable pub split_path : String → List String
split_path nil = nil ∷ []
split_path (c ◂ s) = if is_slash c then nil ∷ split_path s else push c (split_path s)

-- `filter(|part| !part.is_empty())`
abbrev pub nonempty : List String → List String
nonempty [] = []
nonempty (nil ∷ ps) = nonempty ps
nonempty ((c ◂ p) ∷ ps) = (c ◂ p) ∷ nonempty ps

abbrev pub last_two : List String → Option (String × String)
last_two [] = none
last_two (x ∷ []) = none
last_two (x ∷ y ∷ []) = some (x, y)
last_two (x ∷ y ∷ z ∷ ps) = last_two (y ∷ z ∷ ps)

-- `trim_matches('/')` and `replace('/', "-")`
unfoldable pub trim_start : String → String
trim_start nil = nil
trim_start (c ◂ s) = let rest = trim_start s in if is_slash c then rest else c ◂ s

abbrev pub cut : Char → String → String
cut c nil = if is_slash c then nil else c ◂ nil
cut c (d ◂ s) = c ◂ d ◂ s

unfoldable pub trim_end : String → String
trim_end nil = nil
trim_end (c ◂ s) = cut c (trim_end s)

unfoldable pub dashes : String → String
dashes nil = nil
dashes (c ◂ s) = if is_slash c then "-" <> dashes s else c ◂ dashes s

unfoldable pub ring_file_name : String → String
unfolding split_path trim_start trim_end dashes
ring_file_name path = elim (last_two (nonempty (split_path path))) [
  | some (x, y) ↦ (x <> ("-" <> y)) <> ".ring"
  | none ↦ dashes (trim_end (trim_start path)) <> ".ring"
]
