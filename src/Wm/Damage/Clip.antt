-- ===== src/Wm/Damage/Clip.antt =====
-- include/wm/interaction_policy.h: the part of a rectangle that is on the screen.
use uni_os.Prelude.{
  ◌<◌, ◌≡◌, inl, inr, refl, sym, ◌∙◌, arith, Bool, true, false, not, ◌&&◌, ◌||◌, Bool-cases, some,
}
use uni_os.Prelude.Int.{ℤ, pos, pos_part, ltb_ℤ}
use uni_os.Wm.Rect.{
  DirtyRect, between, rect_right_i64, rect_bottom_i64, smaller, larger, is_empty,
  clip_rect_to_screen,
}
use uni_os.Wm.Rect.Points.{inside, on_side, between-IsRect, on_side-both, on_side-none, and_swap}
use uni_os.Wm.Rect.Pieces.{and_false}
use uni_os.Wm.Damage.Union.{IsScreen, on_screen, IsClip, IsCoord-on, side_empty}

larger_ge_0 : (a : ℤ) → ltb_ℤ (larger a (pos 0)) (pos 0) ≡ false
larger_ge_0 a = ground arith

smaller_le_size : (a s : ℤ) → ltb_ℤ s (smaller a s) ≡ false
smaller_le_size a s = ground arith

below_size : (a b s : ℤ) → ltb_ℤ a b ≡ true → ltb_ℤ s b ≡ false → ltb_ℤ s a ≡ false
below_size a b s h k = ground (arith, h, k)

above_zero : (a b : ℤ) → ltb_ℤ a b ≡ true → ltb_ℤ a (pos 0) ≡ false → ltb_ℤ b (pos 0) ≡ false
above_zero a b h k = ground (arith, h, k)

positive : (s : ℤ) → 0 < pos_part s → ltb_ℤ (pos 0) s ≡ true
positive s h = ground (arith, h)

empty_sides :
    (a b c d : Bool) (l m : Bool)
    → (a ≡ false → l ≡ false)
    → (b ≡ false → m ≡ false)
    → (not a || not b) ≡ true
    → ((l && m) && (c && d)) ≡ false
empty_sides true true c d l m h k e = ground (arith, e)
empty_sides false b c d l m h k e = rw (h refl) refl
empty_sides true false c d true m h k e = rw (k refl) refl
empty_sides true false c d false m h k e = refl

module _ (screen_w screen_h : ℤ) (screen : IsScreen screen_w screen_h) (r : DirtyRect) where
  clip_points :
      (px py : ℤ)
      → (inside r px py && on_screen screen_w screen_h px py) ≡ (
          on_side (larger r.x (pos 0)) (smaller (rect_right_i64 r) screen_w) px
          && on_side (larger r.y (pos 0)) (smaller (rect_bottom_i64 r) screen_h) py)
  clip_points px py =
      rw
        (
          on_side-both r.x (rect_right_i64 r) (pos 0) screen_w px,
          on_side-both r.y (rect_bottom_i64 r) (pos 0) screen_h py,
        )
        (and_swap (on_side r.x (rect_right_i64 r) px) (on_side r.y (rect_bottom_i64 r) py)
          (on_side (pos 0) screen_w px) (on_side (pos 0) screen_h py))

  IsClip-between :
      let x1 = larger r.x (pos 0) in
      let y1 = larger r.y (pos 0) in
      let x2 = smaller (rect_right_i64 r) screen_w in
      let y2 = smaller (rect_bottom_i64 r) screen_h in
      ltb_ℤ x1 x2 ≡ true
      → ltb_ℤ y1 y2 ≡ true
      → IsClip screen_w screen_h r (some (between x1 y1 x2 y2))
  IsClip-between wide high =
      let x1 = larger r.x (pos 0) in
      let y1 = larger r.y (pos 0) in
      let x2 = smaller (rect_right_i64 r) screen_w in
      let y2 = smaller (rect_bottom_i64 r) screen_h in
      let columns = screen.columns.1 in
      let rows = screen.rows.1 in
      let l = larger_ge_0 r.x in
      let t = larger_ge_0 r.y in
      let rr = smaller_le_size (rect_right_i64 r) screen_w in
      let bb = smaller_le_size (rect_bottom_i64 r) screen_h in
      let (a, ex, ey, er, eb) =
        between-IsRect x1 y1 x2 y2
          (IsCoord-on x1 screen_w columns l (below_size x1 x2 screen_w wide rr))
          (IsCoord-on y1 screen_h rows t (below_size y1 y2 screen_h high bb))
          (IsCoord-on x2 screen_w columns (above_zero x1 x2 wide l) rr)
          (IsCoord-on y2 screen_h rows (above_zero y1 y2 high t) bb) wide high in
      (
        record { rect = a; left = rw ex l; top = rw ey t; right = rw er rr; bottom = rw eb bb },
        λ px py. rw (er, eb, ex, ey) (sym (clip_points px py)),
      )

  -- For a screen of at least one and fewer than 2^30 points in each direction clip_rect_to_screen gives exactly the points
  -- of the rectangle that are on the screen, as a rectangle on it, and `none` just if there are none.
  pub clip_rect_to_screen-IsClip :
      IsClip screen_w screen_h r (clip_rect_to_screen r screen_w screen_h)
  unfolding clip_rect_to_screen
  clip_rect_to_screen-IsClip =
      let x1 = larger r.x (pos 0) in
      let y1 = larger r.y (pos 0) in
      let x2 = smaller (rect_right_i64 r) screen_w in
      let y2 = smaller (rect_bottom_i64 r) screen_h in
      let c = positive screen_w screen.columns.0 in
      let d = positive screen_h screen.rows.0 in
      elim (Bool-cases (is_empty r)) [
        | inl e ↦
            rw (c, d, e)
              (λ px py.
                empty_sides (ltb_ℤ (pos 0) r.w) (ltb_ℤ (pos 0) r.h) (on_side (pos 0) screen_w px)
                  (on_side (pos 0) screen_h py) (on_side r.x (rect_right_i64 r) px)
                  (on_side r.y (rect_bottom_i64 r) py) (side_empty r.x r.w px)
                  (side_empty r.y r.h py) e)
        | inr e ↦ elim (Bool-cases (ltb_ℤ x1 x2)) [
          | inr apart ↦
              rw (c, d, e, apart)
                (λ px py. clip_points px py ∙ (rw (on_side-none x1 x2 px apart) refl))
          | inl wide ↦ elim (Bool-cases (ltb_ℤ y1 y2)) [
            | inr apart ↦
                rw (c, d, e, wide, apart)
                  (λ px py.
                    clip_points px py
                    ∙ (rw (on_side-none y1 y2 py apart) (and_false (on_side x1 x2 px))))
            | inl high ↦ rw (c, d, e, wide, high) (IsClip-between wide high)
          ]
        ]
      ]
