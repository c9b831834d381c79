-- ===== src/Wm/Rect/Pieces.antt =====
-- include/wm/interaction_policy.h: what two rectangles have in common, and the pieces around it.
use uni_os.Prelude.{
  ◌≡◌, inl, inr, refl, sym, ◌∙◌, arith, Bool, true, false, ◌&&◌, ◌||◌, Bool-cases, Option, none,
  some, List, [], ◌∷◌, ◌++◌,
}
use uni_os.Prelude.Int.{ℤ, ◌-ℤ◌, ltb_ℤ}
use uni_os.Wm.Rect.{
  DirtyRect, rect_right_i64, rect_bottom_i64, smaller, larger, rect_intersection, above, below,
  to_the_left, to_the_right,
}
use uni_os.Wm.Rect.Points.{
  inside, on_side, IsRect, IsRect-full, clamp_lem, larger-IsCoord, smaller-IsCoord, between-IsRect,
  on_side-both, on_side-none, and_swap, diff-IsInt, IsCoord-IsInt, sum_diff,
}

-- The points of a list of rectangles.
abbrev pub covered : List DirtyRect → ℤ → ℤ → Bool
covered [] px py = false
covered (r ∷ rs) px py = inside r px py || covered rs px py

pub covered-append :
    (a b : List DirtyRect) (px py : ℤ)
    → covered (a ++ b) px py ≡ (covered a px py || covered b px py)
covered-append [] b px py = refl
covered-append (r ∷ a) b px py = ground (arith, covered-append a b px py)

-- What two rectangles have in common.
abbrev pub IsMeet : DirtyRect → DirtyRect → Option DirtyRect → Type 0
IsMeet a b none = (px py : ℤ) → (inside a px py && inside b px py) ≡ false
IsMeet a b (some r) =
    IsRect r
    × (r.x ≡ larger a.x b.x)
    × (r.y ≡ larger a.y b.y)
    × (rect_right_i64 r ≡ smaller (rect_right_i64 a) (rect_right_i64 b))
    × (rect_bottom_i64 r ≡ smaller (rect_bottom_i64 a) (rect_bottom_i64 b))

pub and_false : (b : Bool) → (b && false) ≡ false
and_false true = refl
and_false false = refl

pub meet_inside :
    (a b : DirtyRect) (px py : ℤ)
    → (inside a px py && inside b px py) ≡ (
        on_side (larger a.x b.x) (smaller (rect_right_i64 a) (rect_right_i64 b)) px
        && on_side (larger a.y b.y) (smaller (rect_bottom_i64 a) (rect_bottom_i64 b)) py)
meet_inside a b px py =
    rw
      (
        on_side-both a.x (rect_right_i64 a) b.x (rect_right_i64 b) px,
        on_side-both a.y (rect_bottom_i64 a) b.y (rect_bottom_i64 b) py,
      )
      (and_swap (on_side a.x (rect_right_i64 a) px) (on_side a.y (rect_bottom_i64 a) py)
        (on_side b.x (rect_right_i64 b) px) (on_side b.y (rect_bottom_i64 b) py))

pub rect_intersection-IsMeet :
    (a b : DirtyRect) → IsRect a → IsRect b → IsMeet a b (rect_intersection a b)
unfolding rect_intersection
rect_intersection-IsMeet a b h k =
    let x1 = larger a.x b.x in
    let y1 = larger a.y b.y in
    let x2 = smaller (rect_right_i64 a) (rect_right_i64 b) in
    let y2 = smaller (rect_bottom_i64 a) (rect_bottom_i64 b) in
    elim (Bool-cases (ltb_ℤ x1 x2)) [
      | inr apart ↦
          rw (IsRect-full a h, IsRect-full b k, apart)
            (λ px py. meet_inside a b px py ∙ (rw (on_side-none x1 x2 px apart) refl))
      | inl wide ↦ elim (Bool-cases (ltb_ℤ y1 y2)) [
        | inr apart ↦
            rw (IsRect-full a h, IsRect-full b k, wide, apart)
              (λ px py.
                meet_inside a b px py
                ∙ (rw (on_side-none y1 y2 py apart) (and_false (on_side x1 x2 px))))
        | inl high ↦
            rw (IsRect-full a h, IsRect-full b k, wide, high)
              (between-IsRect x1 y1 x2 y2 (larger-IsCoord a.x b.x h.left k.left)
                (larger-IsCoord a.y b.y h.top k.top)
                (smaller-IsCoord (rect_right_i64 a) (rect_right_i64 b) h.right k.right)
                (smaller-IsCoord (rect_bottom_i64 a) (rect_bottom_i64 b) h.bottom k.bottom) wide
                high)
      ]
    ]

-- Facts of the old rectangle and of a part of it.
pub record IsPart (old o : DirtyRect) : Type 0 where
  pub outer : IsRect old
  pub inner : IsRect o
  pub left : ltb_ℤ o.x old.x ≡ false
  pub top : ltb_ℤ o.y old.y ≡ false
  pub right : ltb_ℤ (rect_right_i64 old) (rect_right_i64 o) ≡ false
  pub bottom : ltb_ℤ (rect_bottom_i64 old) (rect_bottom_i64 o) ≡ false

module _ (old o : DirtyRect) (h : IsPart old o) (px py : ℤ) where
  pub above-covered :
      covered (above old o) px py ≡ (on_side old.x (rect_right_i64 old) px && on_side old.y o.y py)
  above-covered = elim (Bool-cases (ltb_ℤ old.y o.y)) [
    | inl some_rows ↦ let e = sum_diff old.y o.y in rw (some_rows, e) (ground arith)
    | inr no_rows ↦
        rw (no_rows, on_side-none old.y o.y py no_rows)
          (sym (and_false (on_side old.x (rect_right_i64 old) px)))
  ]

  pub below-covered : covered (below old o) px py ≡ (
      on_side old.x (rect_right_i64 old) px && on_side (rect_bottom_i64 o) (rect_bottom_i64 old) py)
  below-covered =
      let a = rect_bottom_i64 o in
      let b = rect_bottom_i64 old in
      elim (Bool-cases (ltb_ℤ a b)) [
        | inl some_rows ↦
            let e = sum_diff a b in
            let c = clamp_lem a (IsCoord-IsInt a h.inner.bottom) in
            let d = clamp_lem (b -ℤ a) (diff-IsInt a b h.inner.bottom h.outer.bottom) in
            rw (some_rows, c, d, e) (ground arith)
        | inr no_rows ↦
            rw (no_rows, on_side-none a b py no_rows)
              (sym (and_false (on_side old.x (rect_right_i64 old) px)))
      ]

  pub to_the_left-covered :
      covered (to_the_left old o) px py
      ≡ (on_side old.x o.x px && on_side o.y (rect_bottom_i64 o) py)
  to_the_left-covered = elim (Bool-cases (ltb_ℤ old.x o.x)) [
    | inl some_columns ↦ let e = sum_diff old.x o.x in rw (some_columns, e) (ground arith)
    | inr no_columns ↦ rw (no_columns, on_side-none old.x o.x px no_columns) refl
  ]

  pub to_the_right-covered :
      covered (to_the_right old o) px py
      ≡ (on_side (rect_right_i64 o) (rect_right_i64 old) px && on_side o.y (rect_bottom_i64 o) py)
  to_the_right-covered =
      let a = rect_right_i64 o in
      let b = rect_right_i64 old in
      elim (Bool-cases (ltb_ℤ a b)) [
        | inl some_columns ↦
            let e = sum_diff a b in
            let c = clamp_lem a (IsCoord-IsInt a h.inner.right) in
            let d = clamp_lem (b -ℤ a) (diff-IsInt a b h.inner.right h.outer.right) in
            rw (some_columns, c, d, e) (ground arith)
        | inr no_columns ↦ rw (no_columns, on_side-none a b px no_columns) refl
      ]
