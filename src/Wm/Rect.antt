-- ===== src/Wm/Rect.antt =====
-- include/wm/interaction_policy.h: rectangles of the screen. A coordinate is an `int` of 32 bits, and
-- sums and differences are taken in 64 bits, where they do not wrap, but for two differences in
-- compute_exposed_transition_damage, which are those of a part of a rectangle and its whole.
pub mod Points
pub mod Pieces
pub mod Exposed
use uni_os.Prelude.{
  ℕ, zero, suc, ◌+◌, ◌-◌, ◌*◌, ◌%◌, ◌^◌, ◌<◌, Bool, true, false, not, ◌&&◌, ◌||◌, Option, none,
  some, List, [], ◌∷◌, ◌++◌, ltb, leb, ◌==◌, if◌then◌else◌,
}
use uni_os.Prelude.Int.{ℤ, pos, negsuc, pos_part, neg_part, ◌+ℤ◌, ◌-ℤ◌, ltb_ℤ}

pub record DirtyRect : Type 0 where
  pub x : ℤ
  pub y : ℤ
  pub w : ℤ
  pub h : ℤ

unfoldable pub clamp_i64_to_i32 : ℤ → ℤ
clamp_i64_to_i32 value =
    if ltb_ℤ value (negsuc (2 ^ 31 - 1))
    then negsuc (2 ^ 31 - 1)
    else if ltb_ℤ (pos (2 ^ 31 - 1)) value
    then pos (2 ^ 31 - 1)
    else value

abbrev pub rect_right_i64 : DirtyRect → ℤ
rect_right_i64 rect = rect.x +ℤ rect.w

abbrev pub rect_bottom_i64 : DirtyRect → ℤ
rect_bottom_i64 rect = rect.y +ℤ rect.h

-- `w <= 0 || h <= 0`.
abbrev pub is_empty : DirtyRect → Bool
is_empty rect = not (ltb_ℤ (pos 0) rect.w) || not (ltb_ℤ (pos 0) rect.h)

abbrev pub smaller : ℤ → ℤ → ℤ
smaller a b = if ltb_ℤ a b then a else b

abbrev pub larger : ℤ → ℤ → ℤ
larger a b = if ltb_ℤ b a then a else b

-- The rectangle between two corners.
abbrev pub between : (x1 y1 x2 y2 : ℤ) → DirtyRect
between x1 y1 x2 y2 = record {
  x = clamp_i64_to_i32 x1;
  y = clamp_i64_to_i32 y1;
  w = clamp_i64_to_i32 (x2 -ℤ x1);
  h = clamp_i64_to_i32 (y2 -ℤ y1);
}

unfoldable pub rect_touch_or_overlap : DirtyRect → DirtyRect → Bool
rect_touch_or_overlap a b =
    if is_empty a || is_empty b
    then false
    else not (
        ltb_ℤ (rect_right_i64 a) b.x
        || (ltb_ℤ (rect_right_i64 b) a.x
            || (ltb_ℤ (rect_bottom_i64 a) b.y || ltb_ℤ (rect_bottom_i64 b) a.y)))

unfoldable pub rect_union : DirtyRect → DirtyRect → DirtyRect
rect_union a b =
    between (smaller a.x b.x) (smaller a.y b.y) (larger (rect_right_i64 a) (rect_right_i64 b))
      (larger (rect_bottom_i64 a) (rect_bottom_i64 b))

-- `none` for the answer false.
unfoldable pub clip_rect_to_screen : DirtyRect → (screen_w screen_h : ℤ) → Option DirtyRect
clip_rect_to_screen rect screen_w screen_h =
    if not (ltb_ℤ (pos 0) screen_w) || (not (ltb_ℤ (pos 0) screen_h) || is_empty rect)
    then none
    else let x1 = larger rect.x (pos 0) in
      let y1 = larger rect.y (pos 0) in
      let x2 = smaller (rect_right_i64 rect) screen_w in
      let y2 = smaller (rect_bottom_i64 rect) screen_h in
      if not (ltb_ℤ x1 x2) || not (ltb_ℤ y1 y2) then none else some (between x1 y1 x2 y2)

unfoldable pub rect_intersection : DirtyRect → DirtyRect → Option DirtyRect
rect_intersection a b =
    if is_empty a || is_empty b
    then none
    else let x1 = larger a.x b.x in
      let y1 = larger a.y b.y in
      let x2 = smaller (rect_right_i64 a) (rect_right_i64 b) in
      let y2 = smaller (rect_bottom_i64 a) (rect_bottom_i64 b) in
      if not (ltb_ℤ x1 x2) || not (ltb_ℤ y1 y2) then none else some (between x1 y1 x2 y2)

unfoldable pub rect_contains : DirtyRect → DirtyRect → Bool
rect_contains outer inner =
    if is_empty outer || is_empty inner
    then false
    else not (ltb_ℤ inner.x outer.x)
      && (not (ltb_ℤ inner.y outer.y)
          && (not (ltb_ℤ (rect_right_i64 outer) (rect_right_i64 inner))
              && not (ltb_ℤ (rect_bottom_i64 outer) (rect_bottom_i64 inner))))

abbrev pub above : DirtyRect → DirtyRect → List DirtyRect
above old overlap =
    if ltb_ℤ old.y overlap.y
    then record { x = old.x; y = old.y; w = old.w; h = overlap.y -ℤ old.y } ∷ []
    else []

abbrev pub below : DirtyRect → DirtyRect → List DirtyRect
below old overlap =
    let old_bottom = rect_bottom_i64 old in
    let overlap_bottom = rect_bottom_i64 overlap in
    if ltb_ℤ overlap_bottom old_bottom
    then record {
      x = old.x;
      y = clamp_i64_to_i32 overlap_bottom;
      w = old.w;
      h = clamp_i64_to_i32 (old_bottom -ℤ overlap_bottom);
    }
      ∷ []
    else []

abbrev pub to_the_left : DirtyRect → DirtyRect → List DirtyRect
to_the_left old overlap =
    if ltb_ℤ old.x overlap.x
    then record { x = old.x; y = overlap.y; w = overlap.x -ℤ old.x; h = overlap.h } ∷ []
    else []

abbrev pub to_the_right : DirtyRect → DirtyRect → List DirtyRect
to_the_right old overlap =
    let old_right = rect_right_i64 old in
    let overlap_right = rect_right_i64 overlap in
    if ltb_ℤ overlap_right old_right
    then record {
      x = clamp_i64_to_i32 overlap_right;
      y = overlap.y;
      w = clamp_i64_to_i32 (old_right -ℤ overlap_right);
      h = overlap.h;
    }
      ∷ []
    else []

abbrev pub around : DirtyRect → DirtyRect → List DirtyRect
around old overlap =
    if rect_contains overlap old
    then []
    else above old overlap
      ++ (below old overlap ++ (to_the_left old overlap ++ to_the_right old overlap))

-- The first `count` of the four rectangles.
unfoldable pub compute_exposed_transition_damage :
    (old_outer new_outer : DirtyRect) → List DirtyRect
compute_exposed_transition_damage old_outer new_outer =
    elim (rect_intersection old_outer new_outer) [
      | none ↦ old_outer ∷ []
      | some overlap ↦ around old_outer overlap
    ]
