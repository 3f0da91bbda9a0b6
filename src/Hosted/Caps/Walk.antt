-- ===== src/Hosted/Caps/Walk.antt =====
-- crates/court-hosted/src/lib.rs: the loop of `CapRegistry::revoke`, and what it marks.
use mathlib.Core.List.Memᴰ.{not-nil, append_left, append_right, append_cases}
use court_kernel.Prelude.{
  ℕ, zero, suc, ◌≡◌, refl, sym, ◌∙◌, ◌⊎◌, inl, inr, Bool, true, false, Option, none, some, List, [],
  ◌∷◌, ◌++◌, reverse, Memᴰ, reverse-Memᴰ, Memᴰ-reverse, Table, nat_Key, get, get-insert, arith,
  Option-cases,
}
use court_kernel.Hosted.Types.{CapId}
use court_kernel.Hosted.Caps.{Capability, children_of, mark, revoke_loop}

-- The entries below `a` by the table of children, `a` included.
pub data Under (children : Table CapId (List CapId)) : CapId → CapId → Type 0 where
  self : {a c : CapId} → a ≡ c → Under children a c
  via :
      {a c : CapId} (x : CapId)
      → Memᴰ x (children_of children a)
      → Under children x c
      → Under children a c

abbrev pub Reached : Table CapId (List CapId) → List CapId → CapId → Type 0
Reached children stack c = (x : CapId) × Memᴰ x stack × Under children x c

abbrev pub is_dead : Table CapId Capability → CapId → Bool
is_dead caps c = elim (get caps c) [ none ↦ false | some k ↦ k.is_revoked ]

abbrev pub alive : Capability → Capability
alive k = record k { is_revoked = false }

-- An entry but for its mark.
abbrev pub shape : Table CapId Capability → CapId → Option Capability
shape caps c = elim (get caps c) [ none ↦ none | some k ↦ some (alive k) ]

mark-shape : (caps : Table CapId Capability) (x c : CapId) → shape (mark caps x) c ≡ shape caps c
unfolding mark
mark-shape caps x c = elim (Option-cases (get caps x)) [
  | inl e ↦ rw (e, mark) refl
  | inr (k, e) ↦ rw (e, mark) (ground (arith, get-insert caps x c (record k { is_revoked = true })))
]

mark_only :
    (caps : Table CapId Capability) (x c : CapId)
    → is_dead (mark caps x) c ≡ true
    → (is_dead caps c ≡ true) ⊎ (x ≡ c)
unfolding mark
mark_only caps x c h = elim (Option-cases (get caps x)) [
  | inl e ↦ inl (rw (e, mark) at h)
  | inr (k, e) ↦ ground (arith, e, get-insert caps x c (record k { is_revoked = true }))
]

mark_all :
    (caps : Table CapId Capability) (x c : CapId) (k : Capability)
    → shape caps c ≡ some k
    → (is_dead caps c ≡ true) ⊎ (x ≡ c)
    → is_dead (mark caps x) c ≡ true
unfolding mark
mark_all caps x c k s h = elim (Option-cases (get caps x)) [
  | inl e ↦ ground (arith, e)
  | inr (j, e) ↦ ground (arith, e, get-insert caps x c (record j { is_revoked = true }))
]

module _ (children : Table CapId (List CapId)) where
  pub loop-shape :
      (fuel : ℕ) (stack : List CapId) (caps : Table CapId Capability) (c : CapId)
      → shape (revoke_loop fuel children stack caps).1 c ≡ shape caps c
  unfolding revoke_loop
  loop-shape zero [] caps c = refl
  loop-shape (suc fuel) [] caps c = refl
  loop-shape zero (x ∷ stack) caps c = refl
  loop-shape (suc fuel) (x ∷ stack) caps c = loop-shape fuel _ (mark caps x) c ∙ mark-shape caps x c

  -- What the stack reaches is what its top is, or what the next stack reaches.
  Reached-next :
      (x : CapId) (stack : List CapId) (c : CapId)
      → Reached children (reverse (children_of children x) ++ stack) c
      → Reached children (x ∷ stack) c
  Reached-next x stack c (y, m, u) = elim (append_cases (reverse (children_of children x)) m) [
    | inl child ↦ (x, Memᴰ.head refl, via y (reverse-Memᴰ _ child) u)
    | inr old ↦ (y, Memᴰ.tail old, u)
  ]

  Reached-top :
      (x : CapId) (stack : List CapId) (c : CapId)
      → Reached children (x ∷ stack) c
      → (x ≡ c) ⊎ Reached children (reverse (children_of children x) ++ stack) c
  Reached-top x stack c (y, Memᴰ.tail m, u) =
      inr (y, append_right (reverse (children_of children x)) m, u)
  Reached-top x stack c (y, Memᴰ.head e, self p) = inl (sym e ∙ p)
  Reached-top x stack c (y, Memᴰ.head e, via z m u) =
      inr (z, append_left stack (Memᴰ-reverse _ (rw e at m)), u)

  pub loop_only :
      (fuel : ℕ) (stack : List CapId) (caps : Table CapId Capability) (c : CapId)
      → is_dead (revoke_loop fuel children stack caps).1 c ≡ true
      → (is_dead caps c ≡ true) ⊎ Reached children stack c
  unfolding revoke_loop
  loop_only zero [] caps c h = inl h
  loop_only (suc fuel) [] caps c h = inl h
  loop_only zero (x ∷ stack) caps c h = inl h
  loop_only (suc fuel) (x ∷ stack) caps c h = elim (loop_only fuel _ (mark caps x) c h) [
    | inl dead ↦ elim (mark_only caps x c dead) [
      | inl old ↦ inl old
      | inr top ↦ inr (x, Memᴰ.head refl, self top)
    ]
    | inr below ↦ inr (Reached-next x stack c below)
  ]

  pub loop_all :
      (fuel : ℕ) (stack : List CapId) (caps : Table CapId Capability) (c : CapId) (k : Capability)
      → (revoke_loop fuel children stack caps).0 ≡ []
      → shape caps c ≡ some k
      → (is_dead caps c ≡ true) ⊎ Reached children stack c
      → is_dead (revoke_loop fuel children stack caps).1 c ≡ true
  unfolding revoke_loop
  loop_all zero [] caps c k done s (inl h) = h
  loop_all zero [] caps c k done s (inr (y, m, u)) = absurd (not-nil m)
  loop_all (suc fuel) [] caps c k done s (inl h) = h
  loop_all (suc fuel) [] caps c k done s (inr (y, m, u)) = absurd (not-nil m)
  loop_all zero (x ∷ stack) caps c k done s h = absurd (ground arith)
  loop_all (suc fuel) (x ∷ stack) caps c k done s (inl h) =
      loop_all fuel _ (mark caps x) c k done (mark-shape caps x c ∙ s)
        (inl (mark_all caps x c k s (inl h)))
  loop_all (suc fuel) (x ∷ stack) caps c k done s (inr h) =
      loop_all fuel _ (mark caps x) c k done (mark-shape caps x c ∙ s)
        (elim (Reached-top x stack c h) [
          | inl top ↦ inl (mark_all caps x c k s (inr top))
          | inr below ↦ inr below
        ])

  -- A mark is never taken away.
  pub loop_still :
      (fuel : ℕ) (stack : List CapId) (caps : Table CapId Capability) (c : CapId)
      → is_dead caps c ≡ true
      → is_dead (revoke_loop fuel children stack caps).1 c ≡ true
  unfolding revoke_loop
  loop_still zero [] caps c h = h
  loop_still (suc fuel) [] caps c h = h
  loop_still zero (x ∷ stack) caps c h = h
  loop_still (suc fuel) (x ∷ stack) caps c h =
      loop_still fuel _ (mark caps x) c (elim (Option-cases (get caps c)) [
        | inl e ↦ absurd (ground (arith, h))
        | inr (k, e) ↦ mark_all caps x c (alive k) (rw (e, shape) refl) (inl h)
      ])
