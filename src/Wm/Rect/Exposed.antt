-- ===== src/Wm/Rect/Exposed.antt =====
-- include/wm/interaction_policy.h: what a window uncovers that moves.
use uni_os.Prelude.{
  ◌≡◌, inl, inr, sym, ◌∙◌, arith, Bool, true, false, not, ◌&&◌, ◌||◌, Bool-cases, Option, none,
  some, List, [], ◌∷◌, ◌++◌, if◌then◌else◌,
}
use uni_os.Prelude.Int.{ℤ, pos, ◌+ℤ◌, ltb_ℤ}
use uni_os.Wm.Rect.{
  DirtyRect, rect_right_i64, rect_bottom_i64, smaller, larger, is_empty, rect_intersection,
  rect_contains, above, below, to_the_left, to_the_right, around, compute_exposed_transition_damage,
}
use uni_os.Wm.Rect.Points.{inside, on_side, IsRect}
use uni_os.Wm.Rect.Pieces.{
  covered, covered-append, IsMeet, meet_inside, rect_intersection-IsMeet, IsPart, above-covered,
  below-covered, to_the_left-covered, to_the_right-covered,
}

-- A side that is cut twice.
side_split :
    (a b c d p : ℤ)
    → ltb_ℤ b a ≡ false
    → ltb_ℤ b c ≡ true
    → ltb_ℤ d c ≡ false
    → (on_side a d p ≡ (on_side a b p || (on_side b c p || on_side c d p)))
      × ((on_side b c p && (on_side a b p || on_side c d p)) ≡ false)
side_split a b c d p h k l = ground (arith, h, k, l)

four_parts :
    (l c r t m b w v : Bool)
    → w ≡ (l || (c || r))
    → v ≡ (t || (m || b))
    → (c && (l || r)) ≡ false
    → (m && (t || b)) ≡ false
    → ((w && t) || ((w && b) || ((l && m) || (r && m)))) ≡ ((w && v) && not (c && m))
four_parts l c r t m b w v e f g k = ground (arith, e, f, g, k)

pub side_length : (a w : ℤ) → ltb_ℤ (pos 0) w ≡ true → ltb_ℤ a (a +ℤ w) ≡ true
unfolding ◌+ℤ◌
side_length a w h = ground (arith, h)

all_four :
    (a b c d e : Bool)
    → (if e then false else not a && (not b && (not c && not d))) ≡ true
    → (a ≡ false) × (b ≡ false) × (c ≡ false) × (d ≡ false)
all_four a b c d e h = ground (arith, h)

rect_contains-sides :
    (outer inner : DirtyRect)
    → rect_contains outer inner ≡ true
    → (ltb_ℤ inner.x outer.x ≡ false)
      × (ltb_ℤ inner.y outer.y ≡ false)
      × (ltb_ℤ (rect_right_i64 outer) (rect_right_i64 inner) ≡ false)
      × (ltb_ℤ (rect_bottom_i64 outer) (rect_bottom_i64 inner) ≡ false)
unfolding rect_contains
rect_contains-sides outer inner h =
    all_four (ltb_ℤ inner.x outer.x) (ltb_ℤ inner.y outer.y)
      (ltb_ℤ (rect_right_i64 outer) (rect_right_i64 inner))
      (ltb_ℤ (rect_bottom_i64 outer) (rect_bottom_i64 inner)) (is_empty outer || is_empty inner) h

side_within :
    (a b c d p : ℤ)
    → ltb_ℤ a c ≡ false
    → ltb_ℤ d b ≡ false
    → (on_side a b p && not (on_side c d p)) ≡ false
side_within a b c d p h k = ground (arith, h, k)

not_both :
    (a b c d : Bool)
    → (a && not c) ≡ false
    → (b && not d) ≡ false
    → (a && b && not (c && d)) ≡ false
not_both a b c d h k = ground (arith, h, k)

module _ (old o : DirtyRect) (h : IsPart old o) (px py : ℤ) where
  pieces : List DirtyRect
  pieces = above old o ++ (below old o ++ (to_the_left old o ++ to_the_right old o))

  pieces-covered : covered pieces px py ≡ (inside old px py && not (inside o px py))
  unfolding pieces
  pieces-covered =
      let columns =
        side_split old.x o.x (rect_right_i64 o) (rect_right_i64 old) px h.left
          (side_length o.x o.w h.inner.wide) h.right in
      let rows =
        side_split old.y o.y (rect_bottom_i64 o) (rect_bottom_i64 old) py h.top
          (side_length o.y o.h h.inner.high) h.bottom in
      rw
        (
          covered-append (above old o) (below old o ++ (to_the_left old o ++ to_the_right old o)) px
              py,
          covered-append (below old o) (to_the_left old o ++ to_the_right old o) px py,
          covered-append (to_the_left old o) (to_the_right old o) px py,
          above-covered old o h px py,
          below-covered old o h px py,
          to_the_left-covered old o h px py,
          to_the_right-covered old o h px py,
        )
        (four_parts (on_side old.x o.x px) (on_side o.x (rect_right_i64 o) px)
          (on_side (rect_right_i64 o) (rect_right_i64 old) px) (on_side old.y o.y py)
          (on_side o.y (rect_bottom_i64 o) py)
          (on_side (rect_bottom_i64 o) (rect_bottom_i64 old) py)
          (on_side old.x (rect_right_i64 old) px) (on_side old.y (rect_bottom_i64 old) py) columns.0
          rows.0 columns.1 rows.1)

  contained : rect_contains o old ≡ true → (inside old px py && not (inside o px py)) ≡ false
  contained e =
      let (l, t, r, b) = rect_contains-sides o old e in
      not_both (on_side old.x (rect_right_i64 old) px) (on_side old.y (rect_bottom_i64 old) py)
        (on_side o.x (rect_right_i64 o) px) (on_side o.y (rect_bottom_i64 o) py)
        (side_within old.x (rect_right_i64 old) o.x (rect_right_i64 o) px l r)
        (side_within old.y (rect_bottom_i64 old) o.y (rect_bottom_i64 o) py t b)

  around-covered : covered (around old o) px py ≡ (inside old px py && not (inside o px py))
  around-covered = elim (Bool-cases (rect_contains o old)) [
    | inl all ↦ rw all (sym (contained all))
    | inr part ↦ rw part (unfold pieces in pieces-covered)
  ]

larger_ge : (a b : ℤ) → ltb_ℤ (larger a b) a ≡ false
larger_ge a b = ground arith

smaller_le : (a b : ℤ) → ltb_ℤ a (smaller a b) ≡ false
smaller_le a b = ground arith

not_two : (a b c : Bool) → c ≡ (a && b) → (a && not c) ≡ (a && not b)
not_two a b c e = ground (arith, e)

disjoint : (a b : Bool) → (a && b) ≡ false → a ≡ (a && not b)
disjoint a b e = ground (arith, e)

exposed_after :
    (old new : DirtyRect) (m : Option DirtyRect) (px py : ℤ)
    → IsRect old
    → IsMeet old new m
    → covered (elim m [ none ↦ old ∷ [] | some o ↦ around old o ]) px py
      ≡ (inside old px py && not (inside new px py))
exposed_after old new none px py h k =
    let e = disjoint (inside old px py) (inside new px py) (k px py) in ground (arith, e)
exposed_after old new (some o) px py h (r, ex, ey, er, eb) =
    let part : IsPart old o = record {
      outer = h;
      inner = r;
      left = rw ex (larger_ge old.x new.x);
      top = rw ey (larger_ge old.y new.y);
      right = rw er (smaller_le (rect_right_i64 old) (rect_right_i64 new));
      bottom = rw eb (smaller_le (rect_bottom_i64 old) (rect_bottom_i64 new));
    } in
    let both : inside o px py ≡ (inside old px py && inside new px py) =
      rw (er, eb, ex, ey) (sym (meet_inside old new px py)) in
    around-covered old o part px py
    ∙ not_two (inside old px py) (inside new px py) (inside o px py) both

-- The damage of a window that moves is exactly what it uncovers: for two rectangles with points and
-- with corners less than 2^30 from the origin, a point is in one of the rectangles that
-- compute_exposed_transition_damage gives just if it is in the old one and not in the new one.
pub compute_exposed_transition_damage-covered :
    (old new : DirtyRect) (px py : ℤ)
    → IsRect old
    → IsRect new
    → covered (compute_exposed_transition_damage old new) px py
      ≡ (inside old px py && not (inside new px py))
unfolding compute_exposed_transition_damage
compute_exposed_transition_damage-covered old new px py h k =
    exposed_after old new (rect_intersection old new) px py h (rect_intersection-IsMeet old new h k)
