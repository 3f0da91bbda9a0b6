-- ===== src/RootCourt/Loader/Loaded.antt =====
-- crates/root-court/src/image.rs: what `load` leaves, on success and on every error.
use court_kernel.Prelude.{
  ℕ, ◌+◌, ◌-◌, ◌*◌, ◌≤◌, refl, sym, subst, ◌∙◌, inl, inr, List, Result, err, arith,
}
use court_kernel.Prelude.Chain.{◌>>◌, bind-err, bind-ok, then-err, then-ok}
use court_kernel.RootCourt.Mm.{page, virt}
use court_kernel.RootCourt.Paging.Build.{Kernel, mapper}
use court_kernel.RootCourt.Paging.Space.{AddressSpace, map_in}
use court_kernel.RootCourt.Paging.Tree.{IsTree}
use court_kernel.RootCourt.Loader.{
  LoadError, LoadAct, Segment, page_off, segment_pages, take_pages, copy_file, map_segment,
  no_pages, clear_pages, mapping,
}
use court_kernel.RootCourt.Loader.Frames.{Step-trans, with_frames}
use court_kernel.RootCourt.Loader.Placed.{
  Loads, Held, stays, map_in_lem, copy_file_outcome, take_pages_outcome,
}
use court_kernel.RootCourt.Loader.Contents.{
  IsBytes, IsChecked, blank, blank_below, filled, filled_below, written, written-Step, filled-Held,
}

module _ (level : ℕ → ℕ) (k : Kernel) (space : AddressSpace) (image : List ℕ) (s : Segment)
    (small : IsBytes image) (v : IsTree level (mapper k space.pml4_phys 0)) where
  abbrev Done : Result LoadError (Unit {0}) × Kernel → Type 0
  Done (res, k') = Loads level k space.pml4_phys res k' (λ _. Held image s)

  module _ (room : k.bump.cursor + segment_pages s * page ≤ k.bump.end) where
    abbrev with_blank : Kernel
    with_blank =
        written image s level k space.pml4_phys small v room
          (blank image s level k space.pml4_phys small v room)

    abbrev with_file : Kernel
    with_file =
        written image s level k space.pml4_phys small v room
          (filled image s level k space.pml4_phys small v room)

    abbrev at : ℕ
    at = virt k.bump k.bump.cursor

    abbrev map_it : LoadAct (Unit {0})
    map_it = mapping (map_in space (s.vaddr - page_off s) k.bump.cursor (segment_pages s * page))

    -- With the pages taken and their bytes written.
    placed : IsChecked s → Done (map_it with_file)
    placed c =
        let w =
          written-Step image s level k space.pml4_phys small v room _
            (filled_below image s level k space.pml4_phys small v room) in
        let x =
          map_in_lem (with_frames level k.bump.cursor) with_file space (s.vaddr - page_off s)
            k.bump.cursor (segment_pages s * page) w.tree (omega arith)
            (let t = v.sound in let r = t.small in omega arith) in
        record {
          levels = x.levels;
          step = Step-trans level _ x.levels _ _ _ w x.step;
          holds = λ u fine.
              filled-Held image s level k space.pml4_phys small v room c x.levels _ x.step
                (x.holds u fine);
        }

    -- The file has no such bytes.
    cut_short : (e : LoadError) → Done (err e, with_blank)
    cut_short e = record {
      levels = with_frames level k.bump.cursor;
      step =
          written-Step image s level k space.pml4_phys small v room _
            (blank_below image s level k space.pml4_phys small v room);
      holds = λ _ bad. absurd (ground (arith, bad));
    }

    copied_lem : IsChecked s → Done ((copy_file image s at >> map_it) with_blank)
    copied_lem c = elim (copy_file_outcome image s at with_blank) [
      | inl (e, h) ↦
          subst Done (sym (then-err (copy_file image s at) map_it with_blank with_blank e h))
            (cut_short e)
      | inr h ↦
          subst Done (sym (then-ok (copy_file image s at) map_it with_blank with_file tt h))
            (placed c)
    ]

  pub map_segment_lem : IsChecked s → Done (map_segment space image s k)
  unfolding map_segment
  map_segment_lem c = elim (take_pages_outcome no_pages (segment_pages s) k (v.sound).bump) [
    | inl e ↦
        subst Done (sym (bind-err (take_pages no_pages (segment_pages s)) _ k k no_pages e))
          (stays level k space.pml4_phys (err no_pages) _ v (λ _ bad. absurd (ground (arith, bad))))
    | inr (room, e) ↦
        subst Done
          (sym (
            bind-ok (take_pages no_pages (segment_pages s)) _ k _ _ e
            ∙ then-ok (clear_pages (at room) (segment_pages s * page))
                (copy_file image s (at room) >> map_it room) _ (with_blank room) tt refl))
          (copied_lem room c)
  ]
