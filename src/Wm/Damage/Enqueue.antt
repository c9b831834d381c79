-- ===== src/Wm/Damage/Enqueue.antt =====
-- include/wm/interaction_policy.h: what enqueue_damage_rect covers.
use uni_os.Prelude.{
  suc, ◌≡◌, inl, inr, refl, ap, arith, Bool, true, false, not, ◌&&◌, ◌||◌, Bool-cases, Option, none,
  some, List, [], ◌∷◌, ◌++◌, length, All,
}
use uni_os.Prelude.Int.{ℤ, pos, ltb_ℤ, ◌+ℤ◌}
use uni_os.Wm.Rect.{DirtyRect, rect_right_i64, rect_bottom_i64, rect_union, rect_touch_or_overlap}
use uni_os.Wm.Rect.Points.{inside, on_side}
use uni_os.Wm.Rect.Pieces.{covered}
use uni_os.Wm.Damage.{add_to_first, is_equal, fills_screen}
use uni_os.Wm.Damage.Union.{OnScreen, on_screen}
use uni_os.Wm.Damage.Keep.{IsKept, IsKept-self, IsKept-trans, IsKept-rect_union, IsKept-cons}

side_screen :
    (a b size p : ℤ)
    → ltb_ℤ a (pos 0) ≡ false
    → ltb_ℤ size b ≡ false
    → (on_side a b p && not (on_side (pos 0) size p)) ≡ false
side_screen a b size p h k = ground (arith, h, k)

-- A side that is the whole of the screen's.
side_full :
    (a w size p : ℤ)
    → is_equal a (pos 0) ≡ true
    → is_equal w size ≡ true
    → on_side (pos 0) size p ≡ true
    → on_side a (a +ℤ w) p ≡ true
unfolding ◌+ℤ◌
side_full a w size p h k e = ground (arith, h, k, e)

four_and :
    (a b c d : Bool)
    → (a && (b && (c && d))) ≡ true
    → (a ≡ true) × (b ≡ true) × (c ≡ true) × (d ≡ true)
four_and a b c d h = ground (arith, h)

two_and : (a b : Bool) → (a && b) ≡ true → (a ≡ true) × (b ≡ true)
two_and a b h = ground (arith, h)

within :
    (a b s t : Bool)
    → (a && not s) ≡ false
    → (b && not t) ≡ false
    → (a && b) ≡ true
    → (s && t) ≡ true
within a b s t h k e = ground (arith, h, k, e)

either_or :
    (a b s : Bool) → (a ≡ true → s ≡ true) → (b ≡ true → s ≡ true) → (a || b) ≡ true → s ≡ true
either_or true b s h k e = h refl
either_or false b s h k e = k e

pub length-append_one :
    (rs : List DirtyRect) (r : DirtyRect) → length (rs ++ (r ∷ [])) ≡ suc (length rs)
length-append_one [] r = refl
length-append_one (s ∷ rs) r = ap suc (length-append_one rs r)

module _ (screen_w screen_h : ℤ) where
  inside-on_screen :
      (r : DirtyRect)
      → OnScreen screen_w screen_h r
      → (px py : ℤ) → inside r px py ≡ true
      → on_screen screen_w screen_h px py ≡ true
  inside-on_screen r h px py e =
      within (on_side r.x (rect_right_i64 r) px) (on_side r.y (rect_bottom_i64 r) py)
        (on_side (pos 0) screen_w px) (on_side (pos 0) screen_h py)
        (side_screen r.x (rect_right_i64 r) screen_w px h.left h.right)
        (side_screen r.y (rect_bottom_i64 r) screen_h py h.top h.bottom) e

  covered-on_screen :
      (rs : List DirtyRect)
      → All (OnScreen screen_w screen_h) rs
      → (px py : ℤ) → covered rs px py ≡ true
      → on_screen screen_w screen_h px py ≡ true
  covered-on_screen [] h px py e = absurd (ground (arith, e))
  covered-on_screen (r ∷ rs) h px py e =
      either_or (inside r px py) (covered rs px py) (on_screen screen_w screen_h px py)
        (inside-on_screen r h.0 px py) (covered-on_screen rs h.1 px py) e

  -- A rectangle that fills the screen stands for any list on the screen.
  pub full-IsKept :
      (r : DirtyRect) (rs : List DirtyRect)
      → OnScreen screen_w screen_h r
      → All (OnScreen screen_w screen_h) rs
      → fills_screen r screen_w screen_h ≡ true
      → IsKept screen_w screen_h (r ∷ rs) (r ∷ [])
  full-IsKept r rs h k e =
      let (l, t, w, b) =
        four_and (is_equal r.x (pos 0)) (is_equal r.y (pos 0)) (is_equal r.w screen_w)
          (is_equal r.h screen_h) e in
      record {
        on = (h, tt);
        points = λ px py p.
            let (c, d) =
              two_and (on_side (pos 0) screen_w px) (on_side (pos 0) screen_h py)
                (covered-on_screen (r ∷ rs) (h, k) px py p) in
            rw (side_full r.x r.w screen_w px l w c, side_full r.y r.h screen_h py t b d) refl;
      }

  pub append-IsKept :
      (incoming : DirtyRect) (rs : List DirtyRect)
      → OnScreen screen_w screen_h incoming
      → All (OnScreen screen_w screen_h) rs
      → IsKept screen_w screen_h (incoming ∷ rs) (rs ++ (incoming ∷ []))
  append-IsKept incoming [] h k = IsKept-self screen_w screen_h (incoming ∷ []) (h, tt)
  append-IsKept incoming (r ∷ rs) h k =
      let rest = append-IsKept incoming rs h k.1 in
      record {
        on = (k.0, rest.on);
        points = λ px py e.
            let p = rest.points px py in
            swap_first (inside incoming px py) (inside r px py) (covered rs px py)
              (covered (rs ++ (incoming ∷ [])) px py) p e;
      }
    where
      swap_first :
          (i r c k : Bool) → ((i || c) ≡ true → k ≡ true) → (i || (r || c)) ≡ true → (r || k) ≡ true
      swap_first i true c k h e = refl
      swap_first i false c k h e = h e

  pub first_two :
      (a b : DirtyRect) (l : List DirtyRect)
      → OnScreen screen_w screen_h a
      → OnScreen screen_w screen_h b
      → All (OnScreen screen_w screen_h) l
      → IsKept screen_w screen_h (a ∷ b ∷ l) (b ∷ a ∷ l)
  first_two a b l h k all = record {
    on = (k, (h, all));
    points = λ px py e. swapped (inside a px py) (inside b px py) (covered l px py) e;
  }
    where
      swapped : (a b c : Bool) → (a || (b || c)) ≡ true → (b || (a || c)) ≡ true
      swapped true true c e = refl
      swapped true false c e = refl
      swapped false true c e = refl
      swapped false false c e = e

  abbrev pub IsAdded : DirtyRect → List DirtyRect → Option (List DirtyRect) → Type 0
  IsAdded incoming rs none = Unit {0}
  IsAdded incoming rs (some rs') =
      IsKept screen_w screen_h (incoming ∷ rs) rs' × (length rs' ≡ length rs)

  IsAdded-later :
      (incoming r : DirtyRect) (rs : List DirtyRect) (rest : Option (List DirtyRect))
      → OnScreen screen_w screen_h incoming
      → OnScreen screen_w screen_h r
      → All (OnScreen screen_w screen_h) rs
      → IsAdded incoming rs rest
      → IsAdded incoming (r ∷ rs) (elim rest [ none ↦ none | some rs' ↦ some (r ∷ rs') ])
  IsAdded-later incoming r rs none h k all a = tt
  IsAdded-later incoming r rs (some rs') h k all (kept, n) = (
    IsKept-trans screen_w screen_h (incoming ∷ r ∷ rs) (r ∷ incoming ∷ rs) (r ∷ rs')
        (first_two incoming r rs h k all)
        (IsKept-cons screen_w screen_h r (incoming ∷ rs) rs' k kept),
    omega (arith, n),
  )

  pub add_to_first-IsAdded :
      (incoming : DirtyRect) (rs : List DirtyRect)
      → OnScreen screen_w screen_h incoming
      → All (OnScreen screen_w screen_h) rs
      → IsAdded incoming rs (add_to_first incoming rs)
  unfolding add_to_first
  add_to_first-IsAdded incoming [] h k = tt
  add_to_first-IsAdded incoming (r ∷ rs) h k =
      elim (Bool-cases (rect_touch_or_overlap r incoming)) [
        | inl e ↦ rw e (
          IsKept-trans screen_w screen_h (incoming ∷ r ∷ rs) (r ∷ incoming ∷ rs)
              (rect_union r incoming ∷ rs) (first_two incoming r rs h k.0 k.1)
              (IsKept-rect_union screen_w screen_h r incoming rs k.0 h k.1),
          refl,
        )
        | inr e ↦ rw e (
            IsAdded-later incoming r rs (add_to_first incoming rs) h k.0 k.1
              (add_to_first-IsAdded incoming rs h k.1))
      ]
