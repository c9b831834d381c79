-- ===== src/Wm/Rect/Points.antt =====
-- include/wm/interaction_policy.h: the points of the rectangles.
use uni_os.Prelude.{
  ◌^◌, ◌<◌, ◌≤◌, ◌≡◌, inl, inr, refl, arith, Bool, true, false, not, ◌&&◌, Bool-cases,
}
use uni_os.Prelude.Int.{ℤ, pos, pos_part, neg_part, ◌+ℤ◌, ◌-ℤ◌, ltb_ℤ, int_laws}
use uni_os.Wm.Rect.{
  DirtyRect, clamp_i64_to_i32, between, rect_right_i64, rect_bottom_i64, smaller, larger, is_empty,
}

-- A side between two ends.
abbrev pub on_side : ℤ → ℤ → ℤ → Bool
on_side a b p = not (ltb_ℤ p a) && ltb_ℤ p b

-- Whether a point is in a rectangle.
abbrev pub inside : DirtyRect → ℤ → ℤ → Bool
inside r px py = on_side r.x (rect_right_i64 r) px && on_side r.y (rect_bottom_i64 r) py

-- An `int` of 32 bits.
abbrev pub IsInt : ℤ → Type 0
IsInt v = (pos_part v < 2 ^ 31) × (neg_part v ≤ 2 ^ 31)

pub clamp_lem : (v : ℤ) → IsInt v → clamp_i64_to_i32 v ≡ v
unfolding clamp_i64_to_i32
clamp_lem v h = ground arith

-- Less than 2^30 from the origin.
abbrev pub IsCoord : ℤ → Type 0
IsCoord v = (pos_part v < 2 ^ 30) × (neg_part v < 2 ^ 30)

-- A rectangle with points, its corners less than 2^30 from the origin.
pub record IsRect (r : DirtyRect) : Type 0 where
  pub left : IsCoord r.x
  pub top : IsCoord r.y
  pub right : IsCoord (rect_right_i64 r)
  pub bottom : IsCoord (rect_bottom_i64 r)
  pub wide : ltb_ℤ (pos 0) r.w ≡ true
  pub high : ltb_ℤ (pos 0) r.h ≡ true

pub IsRect-full : (r : DirtyRect) → IsRect r → is_empty r ≡ false
IsRect-full r h = rw (h.wide, h.high) refl

pub larger-IsCoord : (a b : ℤ) → IsCoord a → IsCoord b → IsCoord (larger a b)
larger-IsCoord a b h k = elim (Bool-cases (ltb_ℤ b a)) [ inl e ↦ rw e h | inr e ↦ rw e k ]

pub smaller-IsCoord : (a b : ℤ) → IsCoord a → IsCoord b → IsCoord (smaller a b)
smaller-IsCoord a b h k = elim (Bool-cases (ltb_ℤ a b)) [ inl e ↦ rw e h | inr e ↦ rw e k ]

pub IsCoord-IsInt : (a : ℤ) → IsCoord a → IsInt a
IsCoord-IsInt a h = omega arith

pub diff-IsInt : (a b : ℤ) → IsCoord a → IsCoord b → IsInt (b -ℤ a)
unfolding ◌-ℤ◌
diff-IsInt a b h k = ground arith

pub sum_diff : (a b : ℤ) → a +ℤ (b -ℤ a) ≡ b
sum_diff a b = omega int_laws

diff_pos : (a b : ℤ) → ltb_ℤ a b ≡ true → ltb_ℤ (pos 0) (b -ℤ a) ≡ true
unfolding ◌-ℤ◌
diff_pos a b h = ground arith

-- Between two corners lies a rectangle with the points from the one to the other.
pub between-IsRect :
    (x1 y1 x2 y2 : ℤ)
    → IsCoord x1
    → IsCoord y1
    → IsCoord x2
    → IsCoord y2
    → ltb_ℤ x1 x2 ≡ true
    → ltb_ℤ y1 y2 ≡ true
    → let r = between x1 y1 x2 y2 in
      IsRect r × (r.x ≡ x1) × (r.y ≡ y1) × (rect_right_i64 r ≡ x2) × (rect_bottom_i64 r ≡ y2)
between-IsRect x1 y1 x2 y2 a b c d wide high =
    let ex = sum_diff x1 x2 in
    let ey = sum_diff y1 y2 in
    rw
      (
        clamp_lem x1 (IsCoord-IsInt x1 a),
        clamp_lem y1 (IsCoord-IsInt y1 b),
        clamp_lem (x2 -ℤ x1) (diff-IsInt x1 x2 a c),
        clamp_lem (y2 -ℤ y1) (diff-IsInt y1 y2 b d),
      )
      (
        record {
          left = a;
          top = b;
          right = rw ex c;
          bottom = rw ey d;
          wide = diff_pos x1 x2 wide;
          high = diff_pos y1 y2 high;
        },
        refl,
        refl,
        ex,
        ey,
      )

pub on_side-both :
    (a b c d p : ℤ) → on_side (larger a c) (smaller b d) p ≡ (on_side a b p && on_side c d p)
on_side-both a b c d p = ground arith

pub on_side-none : (a b p : ℤ) → ltb_ℤ a b ≡ false → on_side a b p ≡ false
on_side-none a b p h = ground (arith, h)

pub and_swap : (a b c d : Bool) → ((a && b) && (c && d)) ≡ ((a && c) && (b && d))
and_swap true true c d = refl
and_swap true false true d = refl
and_swap true false false d = refl
and_swap false b c d = refl
