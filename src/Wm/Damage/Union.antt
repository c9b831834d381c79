-- ===== src/Wm/Damage/Union.antt =====
-- include/wm/interaction_policy.h: rectangles on the screen, their clipping and their union.
use uni_os.Prelude.{◌^◌, ◌<◌, ◌≡◌, arith, Bool, true, false, not, ◌&&◌, ◌||◌, Option, none, some}
use uni_os.Prelude.Int.{ℤ, pos, pos_part, neg_part, ◌+ℤ◌, ltb_ℤ}
use uni_os.Wm.Rect.{DirtyRect, rect_right_i64, rect_bottom_i64, smaller, larger, rect_union}
use uni_os.Wm.Rect.Points.{
  inside, on_side, IsCoord, IsRect, larger-IsCoord, smaller-IsCoord, between-IsRect,
}
use uni_os.Wm.Rect.Exposed.{side_length}

smaller_ge : (a b c : ℤ) → ltb_ℤ a c ≡ false → ltb_ℤ b c ≡ false → ltb_ℤ (smaller a b) c ≡ false
smaller_ge a b c h k = ground (arith, h, k)

larger_le : (a b c : ℤ) → ltb_ℤ c a ≡ false → ltb_ℤ c b ≡ false → ltb_ℤ c (larger a b) ≡ false
larger_le a b c h k = ground (arith, h, k)

wider : (a b c d : ℤ) → ltb_ℤ a b ≡ true → ltb_ℤ (smaller a c) (larger b d) ≡ true
wider a b c d h = ground (arith, h)

side_joined :
    (a b c d p : ℤ)
    → ((on_side a b p && not (on_side (smaller a c) (larger b d) p)) ≡ false)
      × ((on_side c d p && not (on_side (smaller a c) (larger b d) p)) ≡ false)
side_joined a b c d p = (ground arith, ground arith)

joined :
    (a b c d s t : Bool)
    → (a && not s) ≡ false
    → (b && not t) ≡ false
    → (c && not s) ≡ false
    → (d && not t) ≡ false
    → (a && b || c && d) ≡ true
    → (s && t) ≡ true
joined a b c d s t h k l m e = ground (arith, h, k, l, m, e)

-- A side of no length.
pub side_empty : (a w p : ℤ) → ltb_ℤ (pos 0) w ≡ false → on_side a (a +ℤ w) p ≡ false
unfolding ◌+ℤ◌
side_empty a w p h = ground (arith, h)

-- A screen of at least one and fewer than 2^30 points in each direction.
pub record IsScreen (screen_w screen_h : ℤ) : Type 0 where
  pub columns : (0 < pos_part screen_w) × (pos_part screen_w < 2 ^ 30) × (neg_part screen_w ≡ 0)
  pub rows : (0 < pos_part screen_h) × (pos_part screen_h < 2 ^ 30) × (neg_part screen_h ≡ 0)

-- A coordinate on the screen.
pub IsCoord-on :
    (v size : ℤ)
    → pos_part size < 2 ^ 30
    → ltb_ℤ v (pos 0) ≡ false
    → ltb_ℤ size v ≡ false
    → IsCoord v
IsCoord-on v size lt h k = (ground (arith, h, k), ground (arith, h, k))

module _ (screen_w screen_h : ℤ) where
  -- A rectangle with points, all on the screen.
  pub record OnScreen (r : DirtyRect) : Type 0 where
    pub rect : IsRect r
    pub left : ltb_ℤ r.x (pos 0) ≡ false
    pub top : ltb_ℤ r.y (pos 0) ≡ false
    pub right : ltb_ℤ screen_w (rect_right_i64 r) ≡ false
    pub bottom : ltb_ℤ screen_h (rect_bottom_i64 r) ≡ false

  abbrev pub on_screen : ℤ → ℤ → Bool
  on_screen px py = on_side (pos 0) screen_w px && on_side (pos 0) screen_h py

  -- The union is on the screen as the two are, and has the points of both.
  pub rect_union-OnScreen :
      (a b : DirtyRect)
      → OnScreen a
      → OnScreen b
      → OnScreen (rect_union a b)
        × ((px py : ℤ)
            → (inside a px py || inside b px py) ≡ true
            → inside (rect_union a b) px py ≡ true)
  unfolding rect_union
  rect_union-OnScreen a b h k =
      let ra = rect_right_i64 a in
      let rb = rect_right_i64 b in
      let ba = rect_bottom_i64 a in
      let bb = rect_bottom_i64 b in
      let (r, ex, ey, er, eb) =
        between-IsRect (smaller a.x b.x) (smaller a.y b.y) (larger ra rb) (larger ba bb)
          (smaller-IsCoord a.x b.x h.rect.left k.rect.left)
          (smaller-IsCoord a.y b.y h.rect.top k.rect.top)
          (larger-IsCoord ra rb h.rect.right k.rect.right)
          (larger-IsCoord ba bb h.rect.bottom k.rect.bottom)
          (wider a.x ra b.x rb (side_length a.x a.w h.rect.wide))
          (wider a.y ba b.y bb (side_length a.y a.h h.rect.high)) in
      (
        record {
          rect = r;
          left = rw ex (smaller_ge a.x b.x (pos 0) h.left k.left);
          top = rw ey (smaller_ge a.y b.y (pos 0) h.top k.top);
          right = rw er (larger_le ra rb screen_w h.right k.right);
          bottom = rw eb (larger_le ba bb screen_h h.bottom k.bottom);
        },
        λ px py e.
            let cols = side_joined a.x ra b.x rb px in
            let rows = side_joined a.y ba b.y bb py in
            rw (er, eb, ex, ey)
              (joined (on_side a.x ra px) (on_side a.y ba py) (on_side b.x rb px)
                (on_side b.y bb py) (on_side (smaller a.x b.x) (larger ra rb) px)
                (on_side (smaller a.y b.y) (larger ba bb) py) cols.0 rows.0 cols.1 rows.1 e),
      )

  -- What clipping leads to: the points that are on the screen, if there are any.
  abbrev pub IsClip : DirtyRect → Option DirtyRect → Type 0
  IsClip r none = (px py : ℤ) → (inside r px py && on_screen px py) ≡ false
  IsClip r (some r') =
      OnScreen r' × ((px py : ℤ) → inside r' px py ≡ (inside r px py && on_screen px py))
