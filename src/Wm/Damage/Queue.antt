-- ===== src/Wm/Damage/Queue.antt =====
-- include/wm/interaction_policy.h: enqueue_damage_rect as a whole.
use uni_os.Prelude.{
  ℕ, ◌<◌, ◌≤◌, ◌≡◌, inl, inr, refl, arith, Bool, true, false, ◌&&◌, ◌||◌, Bool-cases, Option, none,
  some, List, [], ◌∷◌, length, All, ltb, ◌==◌,
}
use uni_os.Prelude.Int.{ℤ}
use uni_os.Wm.Rect.{DirtyRect, rect_union, clip_rect_to_screen}
use uni_os.Wm.Rect.Points.{inside}
use uni_os.Wm.Rect.Pieces.{covered}
use uni_os.Wm.Damage.{
  bounds, add_to_first, fills_screen, all_in_one, append_or_join, enqueue_clipped,
  enqueue_damage_rect,
}
use uni_os.Wm.Damage.Union.{IsScreen, OnScreen, on_screen, IsClip}
use uni_os.Wm.Damage.Clip.{clip_rect_to_screen-IsClip}
use uni_os.Wm.Damage.Keep.{
  IsKept, bounds-IsKept, IsKept-self, IsKept-trans, IsKept-rect_union, IsKept-cons,
}
use uni_os.Wm.Damage.Enqueue.{
  full-IsKept, append-IsKept, length-append_one, first_two, IsAdded, add_to_first-IsAdded,
}

clipped_point :
    (i s r c k : Bool)
    → i ≡ (r && s)
    → ((i || c) ≡ true → k ≡ true)
    → ((r && s) || c) ≡ true
    → k ≡ true
clipped_point i s r c k e h p = h (rw e p)

no_point : (a c k : Bool) → a ≡ false → (c ≡ true → k ≡ true) → (a || c) ≡ true → k ≡ true
no_point true c k e h p = absurd (ground (arith, e))
no_point false c k e h p = h p

module _ (screen_w screen_h : ℤ) (max_rects : ℕ) (some_room : 0 < max_rects) where
  all_in_one-IsKept :
      (incoming : DirtyRect) (rs : List DirtyRect)
      → OnScreen screen_w screen_h incoming
      → All (OnScreen screen_w screen_h) rs
      → IsKept screen_w screen_h (incoming ∷ rs) (all_in_one incoming rs)
        × (length (all_in_one incoming rs) ≡ 1)
  all_in_one-IsKept incoming [] h k = (IsKept-self screen_w screen_h (incoming ∷ []) (h, tt), refl)
  all_in_one-IsKept incoming (r ∷ rs) h k =
      let b = bounds r rs in
      let all = bounds-IsKept screen_w screen_h r rs k.0 k.1 in
      (
        IsKept-trans screen_w screen_h (incoming ∷ r ∷ rs) (incoming ∷ b ∷ [])
            (rect_union b incoming ∷ [])
            (IsKept-cons screen_w screen_h incoming (r ∷ rs) (b ∷ []) h all)
            (IsKept-trans screen_w screen_h (incoming ∷ b ∷ []) (b ∷ incoming ∷ [])
              (rect_union b incoming ∷ []) (first_two screen_w screen_h incoming b [] h all.on.0 tt)
              (IsKept-rect_union screen_w screen_h b incoming [] all.on.0 h tt)),
        refl,
      )

  append_or_join-IsKept :
      (incoming : DirtyRect) (rs : List DirtyRect) (added : Option (List DirtyRect))
      → OnScreen screen_w screen_h incoming
      → All (OnScreen screen_w screen_h) rs
      → length rs ≤ max_rects
      → IsAdded screen_w screen_h incoming rs added
      → IsKept screen_w screen_h (incoming ∷ rs) (append_or_join max_rects incoming rs added)
        × (length (append_or_join max_rects incoming rs added) ≤ max_rects)
  append_or_join-IsKept incoming rs (some rs') h k le a = (a.0, omega (arith, a.1, le))
  append_or_join-IsKept incoming rs none h k le a = elim (Bool-cases (ltb (length rs) max_rects)) [
    | inl e ↦
        let n = length-append_one rs incoming in
        rw e (append-IsKept screen_w screen_h incoming rs h k, ground (arith, n, e))
    | inr e ↦ let (kept, one) = all_in_one-IsKept incoming rs h k in rw e (kept, omega (arith, one))
  ]

  -- What a list of damage keeps when a rectangle comes in.
  pub record IsQueued (incoming : DirtyRect) (before after : List DirtyRect) : Type 0 where
    pub on : All (OnScreen screen_w screen_h) after
    pub room : length after ≤ max_rects
    pub points :
        (px py : ℤ)
        → (inside incoming px py && on_screen screen_w screen_h px py || covered before px py)
          ≡ true
        → covered after px py ≡ true

  queued :
      (incoming c : DirtyRect) (rs after : List DirtyRect)
      → ((px py : ℤ)
          → inside c px py ≡ (inside incoming px py && on_screen screen_w screen_h px py))
      → IsKept screen_w screen_h (c ∷ rs) after
      → length after ≤ max_rects
      → IsQueued incoming rs after
  queued incoming c rs after same kept n = record {
    on = kept.on;
    room = n;
    points = λ px py.
        clipped_point (inside c px py) (on_screen screen_w screen_h px py) (inside incoming px py)
          (covered rs px py) (covered after px py) (same px py) (kept.points px py);
  }

  enqueue_clipped-IsQueued :
      (incoming : DirtyRect) (rs : List DirtyRect) (clipped : Option DirtyRect)
      → IsClip screen_w screen_h incoming clipped
      → All (OnScreen screen_w screen_h) rs
      → length rs ≤ max_rects
      → IsQueued incoming rs (enqueue_clipped max_rects screen_w screen_h rs clipped)
  enqueue_clipped-IsQueued incoming rs none h k le = record {
    on = k;
    room = le;
    points = λ px py.
        no_point (inside incoming px py && on_screen screen_w screen_h px py) (covered rs px py)
          (covered rs px py) (h px py) (λ e. e);
  }
  enqueue_clipped-IsQueued incoming rs (some c) (on, same) k le =
      elim (Bool-cases (fills_screen c screen_w screen_h)) [
        | inl e ↦ rw e (
            queued incoming c rs (c ∷ []) same (full-IsKept screen_w screen_h c rs on k e)
              some_room)
        | inr e ↦
            let added = add_to_first c rs in
            let (kept, n) =
              append_or_join-IsKept c rs added on k le
                (add_to_first-IsAdded screen_w screen_h c rs on k) in
            rw e (queued incoming c rs (append_or_join max_rects c rs added) same kept n)
      ]

  -- For a screen of at least one and fewer than 2^30 points in each direction and an array with
  -- room for a rectangle,
  -- enqueue_damage_rect keeps the damage: where the rectangles before are on the screen and fit the
  -- array, those after are and do, and they have every point of those before and every point of the new
  -- one that is on the screen.
  pub enqueue_damage_rect-IsQueued :
      (rects : List DirtyRect) (incoming : DirtyRect)
      → IsScreen screen_w screen_h
      → All (OnScreen screen_w screen_h) rects
      → length rects ≤ max_rects
      → IsQueued incoming rects (enqueue_damage_rect rects max_rects screen_w screen_h incoming)
  unfolding enqueue_damage_rect
  enqueue_damage_rect-IsQueued rects incoming screen h le =
      let open_room : (max_rects == 0) ≡ false = ground (arith, some_room) in
      rw open_room (
        enqueue_clipped-IsQueued incoming rects (clip_rect_to_screen incoming screen_w screen_h)
          (clip_rect_to_screen-IsClip screen_w screen_h screen incoming) h le)
