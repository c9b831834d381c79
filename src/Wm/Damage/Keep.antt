-- ===== src/Wm/Damage/Keep.antt =====
-- include/wm/interaction_policy.h: the points that the passes of normalize_dirty_rects keep.
use uni_os.Prelude.{
  ℕ, zero, suc, ◌≤◌, ◌≡◌, inl, inr, refl, arith, Bool, true, false, ◌||◌, Bool-cases, List, [], ◌∷◌,
  length, All,
}
use uni_os.Prelude.Int.{ℤ}
use uni_os.Wm.Rect.{DirtyRect, rect_union}
use uni_os.Wm.Rect.Points.{inside}
use uni_os.Wm.Rect.Pieces.{covered}
use uni_os.Wm.Damage.{move_last, merge_row, merge_pass, merge_while, bounds}
use uni_os.Wm.Damage.Lists.{length-move_last, move_last-covered, move_last-All}
use uni_os.Wm.Damage.Union.{OnScreen, rect_union-OnScreen}
use uni_os.Wm.Damage.Merge.{merge_row-le}

or_mono : (a b c u : Bool) → ((a || b) ≡ true → u ≡ true) → (a || (b || c)) ≡ true → (u || c) ≡ true
or_mono true b c u h e = rw (h refl) refl
or_mono false true c u h e = rw (h refl) refl
or_mono false false c true h e = refl
or_mono false false c false h e = e

between_mono :
    (a l b m r : Bool)
    → ((a || l) ≡ true → (b || m) ≡ true)
    → (a || (r || l)) ≡ true
    → (b || (r || m)) ≡ true
between_mono a l true m r h e = refl
between_mono a l false m true h e = refl
between_mono true l false m false h e = h refl
between_mono false l false m false h e = h e

module _ (screen_w screen_h : ℤ) where
  -- The list `after` is on the screen and has the points of `before`.
  pub record IsKept (before after : List DirtyRect) : Type 0 where
    pub on : All (OnScreen screen_w screen_h) after
    pub points : (px py : ℤ) → covered before px py ≡ true → covered after px py ≡ true

  pub IsKept-self : (l : List DirtyRect) → All (OnScreen screen_w screen_h) l → IsKept l l
  IsKept-self l h = record { on = h; points = λ px py e. e }

  pub IsKept-trans : (a b c : List DirtyRect) → IsKept a b → IsKept b c → IsKept a c
  IsKept-trans a b c h k = record {
    on = k.on;
    points = λ px py e. k.points px py (h.points px py e);
  }

  pub IsKept-cons :
      (r : DirtyRect) (a b : List DirtyRect)
      → OnScreen screen_w screen_h r
      → IsKept a b
      → IsKept (r ∷ a) (r ∷ b)
  IsKept-cons r a b h k = record {
    on = (h, k.on);
    points = λ px py e. let rest = k.points px py in ground (arith, rest, e);
  }

  pub IsKept-rect_union :
      (a b : DirtyRect) (l : List DirtyRect)
      → OnScreen screen_w screen_h a
      → OnScreen screen_w screen_h b
      → All (OnScreen screen_w screen_h) l
      → IsKept (a ∷ b ∷ l) (rect_union a b ∷ l)
  IsKept-rect_union a b l h k all =
      let (on, points) = rect_union-OnScreen screen_w screen_h a b h k in
      record {
        on = (on, all);
        points = λ px py e.
            let u = points px py in
            or_mono (inside a px py) (inside b px py) (covered l px py)
              (inside (rect_union a b) px py) u e;
      }

  pub bounds-IsKept :
      (r : DirtyRect) (rs : List DirtyRect)
      → OnScreen screen_w screen_h r
      → All (OnScreen screen_w screen_h) rs
      → IsKept (r ∷ rs) (bounds r rs ∷ [])
  unfolding bounds
  bounds-IsKept r [] h k = IsKept-self (r ∷ []) (h, tt)
  bounds-IsKept r (s ∷ rs) h k =
      let u = rect_union r s in
      let joined = IsKept-rect_union r s rs h k.0 k.1 in
      IsKept-trans (r ∷ s ∷ rs) (u ∷ rs) (bounds u rs ∷ []) joined
        (bounds-IsKept u rs joined.on.0 k.1)

  IsKept-second :
      (r a b : DirtyRect) (l m : List DirtyRect)
      → OnScreen screen_w screen_h r
      → IsKept (a ∷ l) (b ∷ m)
      → IsKept (a ∷ r ∷ l) (b ∷ r ∷ m)
  IsKept-second r a b l m h k = record {
    on = (k.on.0, (h, k.on.1));
    points = λ px py e.
        between_mono (inside a px py) (covered l px py) (inside b px py) (covered m px py)
          (inside r px py) (k.points px py) e;
  }

  IsKept-moved :
      (r : DirtyRect) (l : List DirtyRect)
      → OnScreen screen_w screen_h r
      → All (OnScreen screen_w screen_h) l
      → IsKept (r ∷ l) (r ∷ move_last l)
  IsKept-moved r l h k = record {
    on = (h, move_last-All (OnScreen screen_w screen_h) l k);
    points = λ px py e. rw (move_last-covered l px py) e;
  }

  module _ (merges : DirtyRect → DirtyRect → Bool) where
    merge_row-IsKept :
        (fuel : ℕ) (cur : DirtyRect) (rs : List DirtyRect)
        → length rs ≤ fuel
        → OnScreen screen_w screen_h cur
        → All (OnScreen screen_w screen_h) rs
        → let row = merge_row merges fuel cur rs in IsKept (cur ∷ rs) (row.0 ∷ row.1)
    unfolding merge_row
    merge_row-IsKept zero cur [] le h k = IsKept-self (cur ∷ []) (h, tt)
    merge_row-IsKept zero cur (r ∷ rs) le h k = absurd (omega arith)
    merge_row-IsKept (suc fuel) cur [] le h k = IsKept-self (cur ∷ []) (h, tt)
    merge_row-IsKept (suc fuel) cur (r ∷ rs) le h k = elim (Bool-cases (merges cur r)) [
      | inl e ↦
          let u = rect_union cur r in
          let joined = IsKept-rect_union cur r rs h k.0 k.1 in
          let moved = IsKept-moved u rs joined.on.0 k.1 in
          let row = merge_row merges fuel u (move_last rs) in
          let rest =
            merge_row-IsKept fuel u (move_last rs) (omega (arith, length-move_last rs)) joined.on.0
              moved.on.1 in
          rw e (
            IsKept-trans (cur ∷ r ∷ rs) (u ∷ rs) (row.0 ∷ row.1) joined
              (IsKept-trans (u ∷ rs) (u ∷ move_last rs) (row.0 ∷ row.1) moved rest))
      | inr e ↦
          let row = merge_row merges fuel cur rs in
          rw e (
            IsKept-second r cur row.0 rs row.1 k.0
              (merge_row-IsKept fuel cur rs (omega arith) h k.1))
    ]

    merge_pass-IsKept :
        (fuel : ℕ) (rs : List DirtyRect)
        → length rs ≤ fuel
        → All (OnScreen screen_w screen_h) rs
        → IsKept rs (merge_pass merges fuel rs).0
    unfolding merge_pass
    merge_pass-IsKept zero [] le h = IsKept-self [] tt
    merge_pass-IsKept zero (r ∷ rs) le h = absurd (omega arith)
    merge_pass-IsKept (suc fuel) [] le h = IsKept-self [] tt
    merge_pass-IsKept (suc fuel) (r ∷ rs) le h =
        let row = merge_row merges (length rs) r rs in
        let kept = merge_row-IsKept (length rs) r rs (omega arith) h.0 h.1 in
        let shorter = merge_row-le merges (length rs) r rs (omega arith) in
        let rest = merge_pass-IsKept fuel row.1 (omega (arith, shorter)) kept.on.1 in
        let pass = merge_pass merges fuel row.1 in
        IsKept-trans (r ∷ rs) (row.0 ∷ row.1) (row.0 ∷ pass.0) kept
          (IsKept-cons row.0 row.1 pass.0 kept.on.0 rest)

    pub merge_while-IsKept :
        (fuel : ℕ) (rs : List DirtyRect)
        → All (OnScreen screen_w screen_h) rs
        → IsKept rs (merge_while merges fuel rs)
    unfolding merge_while
    merge_while-IsKept zero rs h = IsKept-self rs h
    merge_while-IsKept (suc fuel) rs h =
        let pass = merge_pass merges (length rs) rs in
        let kept = merge_pass-IsKept (length rs) rs (omega arith) h in
        let rest = merge_while-IsKept fuel pass.0 kept.on in
        elim (Bool-cases pass.1) [
          | inl e ↦ rw e (IsKept-trans rs pass.0 (merge_while merges fuel pass.0) kept rest)
          | inr e ↦ rw e kept
        ]
