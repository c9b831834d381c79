-- ===== src/Wm/Damage/Merge.antt =====
-- include/wm/interaction_policy.h: the two loops of normalize_dirty_rects that merge rectangles, for
-- any test of which two are merged.
use uni_os.Prelude.{
  ℕ, zero, suc, ◌<◌, ◌≤◌, ◌≡◌, inl, inr, refl, sym, ap, arith, Bool, true, false, ◌||◌, Bool-cases,
  List, [], ◌∷◌, length, All, if◌then◌else◌,
}
use uni_os.Wm.Rect.{DirtyRect, rect_union}
use uni_os.Wm.Damage.{move_last, merge_row, merge_pass, merge_while}
use uni_os.Wm.Damage.Lists.{length-move_last}

module _ (merges : DirtyRect → DirtyRect → Bool) where
  -- No rectangle is merged with a later one.
  abbrev pub AllApart : List DirtyRect → Type 0
  AllApart [] = Unit {0}
  AllApart (r ∷ rs) = All (λ s. merges r s ≡ false) rs × AllApart rs

  -- A row leaves the list as it is, or makes it shorter.
  abbrev IsStill : DirtyRect → List DirtyRect → DirtyRect × List DirtyRect × Bool → Type 0
  IsStill cur rs (cur', rs', false) = (cur' ≡ cur) × (rs' ≡ rs) × All (λ s. merges cur s ≡ false) rs
  IsStill cur rs (cur', rs', true) = length rs' < length rs

  IsStill-cons :
      (cur r : DirtyRect) (rs : List DirtyRect) (row : DirtyRect × List DirtyRect × Bool)
      → merges cur r ≡ false
      → IsStill cur rs row
      → IsStill cur (r ∷ rs) (row.0, r ∷ row.1, row.2)
  IsStill-cons cur r rs (cur', rs', false) e h = (h.0, ap (λ l. r ∷ l) h.1, (e, h.2))
  IsStill-cons cur r rs (cur', rs', true) e h = omega (arith, h)

  IsStill-le :
      (cur : DirtyRect) (rs : List DirtyRect) (row : DirtyRect × List DirtyRect × Bool)
      → IsStill cur rs row
      → length row.1 ≤ length rs
  IsStill-le cur rs (cur', rs', false) h = rw h.1 (omega arith)
  IsStill-le cur rs (cur', rs', true) h = omega (arith, h)

  merge_row-IsStill :
      (fuel : ℕ) (cur : DirtyRect) (rs : List DirtyRect)
      → length rs ≤ fuel
      → IsStill cur rs (merge_row merges fuel cur rs)
  unfolding merge_row
  merge_row-IsStill zero cur [] h = (refl, refl, tt)
  merge_row-IsStill zero cur (r ∷ rs) h = absurd (omega arith)
  merge_row-IsStill (suc fuel) cur [] h = (refl, refl, tt)
  merge_row-IsStill (suc fuel) cur (r ∷ rs) h = elim (Bool-cases (merges cur r)) [
    | inl e ↦
        let n = length-move_last rs in
        let row = merge_row merges fuel (rect_union cur r) (move_last rs) in
        let shorter : length row.1 ≤ length (move_last rs) =
          IsStill-le (rect_union cur r) (move_last rs) row
            (merge_row-IsStill fuel (rect_union cur r) (move_last rs) (omega (arith, n))) in
        rw e (omega (arith, n, shorter))
    | inr e ↦ rw e (
        IsStill-cons cur r rs (merge_row merges fuel cur rs) e
          (merge_row-IsStill fuel cur rs (omega arith)))
  ]

  pub merge_row-le :
      (fuel : ℕ) (cur : DirtyRect) (rs : List DirtyRect)
      → length rs ≤ fuel
      → length (merge_row merges fuel cur rs).1 ≤ length rs
  merge_row-le fuel cur rs h =
      IsStill-le cur rs (merge_row merges fuel cur rs) (merge_row-IsStill fuel cur rs h)

  abbrev IsStillAll : List DirtyRect → List DirtyRect × Bool → Type 0
  IsStillAll rs (rs', false) = (rs' ≡ rs) × AllApart rs
  IsStillAll rs (rs', true) = length rs' < length rs

  IsStillAll-cons :
      (r : DirtyRect) (rs : List DirtyRect) (row : DirtyRect × List DirtyRect × Bool)
      (pass : List DirtyRect × Bool)
      → IsStill r rs row
      → IsStillAll row.1 pass
      → IsStillAll (r ∷ rs) (row.0 ∷ pass.0, row.2 || pass.1)
  IsStillAll-cons r rs (cur', rs', false) (rest, false) h k =
      (rw (h.0, k.0, h.1) refl, (h.2, rw (sym h.1) k.1))
  IsStillAll-cons r rs (cur', rs', false) (rest, true) h k = rw (sym h.1) (omega (arith, k))
  IsStillAll-cons r rs (cur', rs', true) (rest, false) h k = rw k.0 (omega (arith, h))
  IsStillAll-cons r rs (cur', rs', true) (rest, true) h k = omega (arith, h, k)

  merge_pass-IsStillAll :
      (fuel : ℕ) (rs : List DirtyRect)
      → length rs ≤ fuel
      → IsStillAll rs (merge_pass merges fuel rs)
  unfolding merge_pass
  merge_pass-IsStillAll zero [] h = (refl, tt)
  merge_pass-IsStillAll zero (r ∷ rs) h = absurd (omega arith)
  merge_pass-IsStillAll (suc fuel) [] h = (refl, tt)
  merge_pass-IsStillAll (suc fuel) (r ∷ rs) h =
      let row = merge_row merges (length rs) r rs in
      let still = merge_row-IsStill (length rs) r rs (omega arith) in
      IsStillAll-cons r rs row (merge_pass merges fuel row.1) still
        (merge_pass-IsStillAll fuel row.1 (omega (arith, IsStill-le r rs row still)))

  while_step :
      (fuel : ℕ) (rs : List DirtyRect) (pass : List DirtyRect × Bool)
      → length rs ≤ suc fuel
      → IsStillAll rs pass
      → ((l : List DirtyRect) → length l ≤ fuel → AllApart (merge_while merges fuel l))
      → AllApart (if pass.1 then merge_while merges fuel pass.0 else pass.0)
  while_step fuel rs (rs', true) h s rest = rest rs' (omega (arith, h, s))
  while_step fuel rs (rs', false) h s rest = rw s.0 s.1

  -- Whatever the test is that merges rectangles, the loop `while (merged)` comes to its end within as
  -- many rounds as there are rectangles: in the list it leaves the test fails for each rectangle and
  -- every later one.
  pub merge_while-AllApart :
      (fuel : ℕ) (rs : List DirtyRect) → length rs ≤ fuel → AllApart (merge_while merges fuel rs)
  unfolding merge_while
  merge_while-AllApart zero [] h = tt
  merge_while-AllApart zero (r ∷ rs) h = absurd (omega arith)
  merge_while-AllApart (suc fuel) rs h =
      while_step fuel rs (merge_pass merges (length rs) rs) h
        (merge_pass-IsStillAll (length rs) rs (omega arith)) (λ l. merge_while-AllApart fuel l)
