-- ===== src/Wm/Damage/Cover.antt =====
-- include/wm/interaction_policy.h: what normalize_dirty_rects covers.
use uni_os.Prelude.{
  ℕ, zero, suc, ◌<◌, ◌≤◌, ◌≡◌, inl, inr, refl, sym, arith, Bool, true, false, ◌&&◌, ◌||◌,
  Bool-cases, Option, none, some, List, [], ◌∷◌, length, All, ltb, leb, if◌then◌else◌,
}
use uni_os.Prelude.Int.{ℤ}
use uni_os.Wm.Rect.{DirtyRect, rect_touch_or_overlap, clip_rect_to_screen}
use uni_os.Wm.Rect.Points.{inside}
use uni_os.Wm.Rect.Pieces.{covered}
use uni_os.Wm.Damage.{
  move_last, clip_pass, merge_while, worth_merging, collapse, normalize_dirty_rects,
}
use uni_os.Wm.Damage.Lists.{length-move_last, move_last-covered}
use uni_os.Wm.Damage.Union.{IsScreen, OnScreen, on_screen, IsClip}
use uni_os.Wm.Damage.Clip.{clip_rect_to_screen-IsClip}
use uni_os.Wm.Damage.Keep.{IsKept, bounds-IsKept, IsKept-self, merge_while-IsKept}

clip_or :
    (r c s k : Bool)
    → (r && s) ≡ false
    → (c && s ≡ true → k ≡ true)
    → ((r || c) && s) ≡ true
    → k ≡ true
clip_or true c true k h g e = absurd (ground (arith, h))
clip_or true c false k h g e = absurd (ground (arith, e))
clip_or false c s k h g e = g e

clip_kept :
    (r c s k r' : Bool)
    → r' ≡ (r && s)
    → (c && s ≡ true → k ≡ true)
    → ((r || c) && s) ≡ true
    → (r' || k) ≡ true
clip_kept true c true k r' h g e = rw h refl
clip_kept true c false k r' h g e = absurd (ground (arith, e))
clip_kept false c s k r' h g e = rw h (g e)

module _ (screen_w screen_h : ℤ) (screen : IsScreen screen_w screen_h) where
  -- The list `after` is on the screen and has the points of `before` that are on the screen.
  pub record IsCover (before after : List DirtyRect) : Type 0 where
    pub on : All (OnScreen screen_w screen_h) after
    pub points :
        (px py : ℤ)
        → (covered before px py && on_screen screen_w screen_h px py) ≡ true
        → covered after px py ≡ true

  IsCover-kept : (a b c : List DirtyRect) → IsCover a b → IsKept screen_w screen_h b c → IsCover a c
  IsCover-kept a b c h k = record {
    on = k.on;
    points = λ px py e. k.points px py (h.points px py e);
  }

  clip_step :
      (r : DirtyRect) (rs dropped kept : List DirtyRect) (r' : Option DirtyRect)
      → IsClip screen_w screen_h r r'
      → IsCover (move_last rs) dropped
      → IsCover rs kept
      → IsCover (r ∷ rs) (elim r' [ none ↦ dropped | some c ↦ c ∷ kept ])
  clip_step r rs dropped kept none h d k = record {
    on = d.on;
    points = λ px py.
        clip_or (inside r px py) (covered rs px py) (on_screen screen_w screen_h px py)
          (covered dropped px py) (h px py)
          (rw (sym (move_last-covered rs px py)) (d.points px py));
  }
  clip_step r rs dropped kept (some c) (on, points) d k = record {
    on = (on, k.on);
    points = λ px py.
        clip_kept (inside r px py) (covered rs px py) (on_screen screen_w screen_h px py)
          (covered kept px py) (inside c px py) (points px py) (k.points px py);
  }

  pub clip_pass-IsCover :
      (fuel : ℕ) (rs : List DirtyRect)
      → length rs ≤ fuel
      → IsCover rs (clip_pass fuel screen_w screen_h rs)
  unfolding clip_pass
  clip_pass-IsCover zero [] h = record { on = tt; points = λ px py e. e }
  clip_pass-IsCover zero (r ∷ rs) h = absurd (omega arith)
  clip_pass-IsCover (suc fuel) [] h = record { on = tt; points = λ px py e. e }
  clip_pass-IsCover (suc fuel) (r ∷ rs) h =
      clip_step r rs (clip_pass fuel screen_w screen_h (move_last rs))
        (clip_pass fuel screen_w screen_h rs) (clip_rect_to_screen r screen_w screen_h)
        (clip_rect_to_screen-IsClip screen_w screen_h screen r)
        (clip_pass-IsCover fuel (move_last rs) (omega (arith, length-move_last rs)))
        (clip_pass-IsCover fuel rs (omega arith))

  collapse-IsKept :
      (limit : ℕ) (rs : List DirtyRect)
      → All (OnScreen screen_w screen_h) rs
      → IsKept screen_w screen_h rs (collapse limit rs)
  unfolding collapse
  collapse-IsKept limit [] h = IsKept-self screen_w screen_h [] tt
  collapse-IsKept limit (r ∷ rs) h = elim (Bool-cases (ltb limit (length (r ∷ rs)))) [
    | inl e ↦ rw e (bounds-IsKept screen_w screen_h r rs h.0 h.1)
    | inr e ↦ rw e (IsKept-self screen_w screen_h (r ∷ rs) h)
  ]

  length-collapse :
      (limit : ℕ) (rs : List DirtyRect) → 0 < limit → length (collapse limit rs) ≤ limit
  unfolding collapse
  length-collapse limit [] h = omega arith
  length-collapse limit (r ∷ rs) h = elim (Bool-cases (ltb limit (length (r ∷ rs)))) [
    | inl e ↦ rw e h
    | inr e ↦ rw e (ground (arith, e))
  ]

  -- For a screen of at least one and fewer than 2^30 points in each direction
  -- normalize_dirty_rects leaves rectangles that
  -- have points and are on the screen, at most 24 of them in interactive use and else at most 16, and
  -- each point on the screen that was in one of the rectangles is in one of those it leaves.
  pub normalize_dirty_rects-IsCover :
      (rects : List DirtyRect) (interactive : Bool)
      → let after = normalize_dirty_rects rects screen_w screen_h interactive in
        IsCover rects after × (length after ≤ (if interactive then 24 else 16))
  unfolding normalize_dirty_rects
  normalize_dirty_rects-IsCover rects interactive =
      let limit : ℕ = if interactive then 24 else 16 in
      let enough : 0 < limit = ground arith in
      let clipped = clip_pass (length rects) screen_w screen_h rects in
      let apart = merge_while rect_touch_or_overlap (length clipped) clipped in
      let few = merge_while worth_merging (length apart) apart in
      let a = clip_pass-IsCover (length rects) rects (omega arith) in
      let b =
        merge_while-IsKept screen_w screen_h rect_touch_or_overlap (length clipped) clipped a.on in
      let ab = IsCover-kept rects clipped apart a b in
      let c = merge_while-IsKept screen_w screen_h worth_merging (length apart) apart ab.on in
      let abc = IsCover-kept rects apart few ab c in
      let d = collapse-IsKept limit few abc.on in
      elim (Bool-cases (leb (length clipped) 1)) [
        | inl e ↦ rw e (a, ground (arith, e))
        | inr e ↦ elim (Bool-cases (leb (length apart) 1)) [
          | inl e' ↦ rw (e, e') (ab, ground (arith, e'))
          | inr e' ↦
              rw (e, e')
                (
                  IsCover-kept rects few (collapse limit few) abc d,
                  length-collapse limit few enough,
                )
        ]
      ]
