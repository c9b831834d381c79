-- ===== src/Tests/Wm.antt =====
-- Runs of include/wm/interaction_policy.h.
use uni_os.Prelude.{◌≤◌, ◌≡◌, refl, true, not, ◌&&◌, arith, [], ◌∷◌, length, if◌then◌else◌}
use uni_os.Prelude.Int.{pos, negsuc, ◌+ℤ◌, ◌-ℤ◌}
use uni_os.Wm.Rect.{
  DirtyRect, rect_touch_or_overlap, rect_intersection, rect_contains, clamp_i64_to_i32,
  compute_exposed_transition_damage,
}
use uni_os.Wm.Rect.Points.{IsRect, inside}
use uni_os.Wm.Rect.Pieces.{covered}
use uni_os.Wm.Rect.Exposed.{compute_exposed_transition_damage-covered}
use uni_os.Wm.Damage.{merge_while, normalize_dirty_rects, enqueue_damage_rect}
use uni_os.Wm.Damage.Union.{IsScreen, OnScreen}
use uni_os.Wm.Damage.Merge.{AllApart, merge_while-AllApart}
use uni_os.Wm.Damage.Cover.{IsCover, normalize_dirty_rects-IsCover}
use uni_os.Wm.Damage.Queue.{IsQueued, enqueue_damage_rect-IsQueued}

abbrev window : DirtyRect
window = record { x = pos 10; y = pos 10; w = pos 40; h = pos 30 }

abbrev moved_window : DirtyRect
moved_window = record { x = pos 25; y = pos 20; w = pos 40; h = pos 30 }

-- It reaches over the left edge of the screen.
abbrev hanging : DirtyRect
hanging = record { x = negsuc 4; y = pos 70; w = pos 20; h = pos 10 }

window-IsRect : IsRect window
unfolding ◌+ℤ◌
window-IsRect = record {
  left = (omega arith, omega arith);
  top = (omega arith, omega arith);
  right = (omega arith, omega arith);
  bottom = (omega arith, omega arith);
  wide = refl;
  high = refl;
}

moved_window-IsRect : IsRect moved_window
unfolding ◌+ℤ◌
moved_window-IsRect = record {
  left = (omega arith, omega arith);
  top = (omega arith, omega arith);
  right = (omega arith, omega arith);
  bottom = (omega arith, omega arith);
  wide = refl;
  high = refl;
}

window-OnScreen : OnScreen (pos 100) (pos 90) window
unfolding ◌+ℤ◌
window-OnScreen = record {
  rect = window-IsRect;
  left = refl;
  top = refl;
  right = refl;
  bottom = refl;
}

screen-IsScreen : IsScreen (pos 100) (pos 90)
screen-IsScreen = record {
  columns = (omega arith, omega arith, refl);
  rows = (omega arith, omega arith, refl);
}

-- Two strips: the rows above the new place and the columns left of it.
exposed_strips :
    compute_exposed_transition_damage window moved_window
    ≡ record { x = pos 10; y = pos 10; w = pos 40; h = pos 10 }
      ∷ record { x = pos 10; y = pos 20; w = pos 15; h = pos 20 }
      ∷ []
unfolding compute_exposed_transition_damage ◌+ℤ◌ ◌-ℤ◌ rect_intersection rect_contains
    clamp_i64_to_i32
exposed_strips = refl

compute_exposed_transition_damage-covered_example :
    covered (compute_exposed_transition_damage window moved_window) (pos 12) (pos 30)
    ≡ (inside window (pos 12) (pos 30) && not (inside moved_window (pos 12) (pos 30)))
compute_exposed_transition_damage-covered_example =
    compute_exposed_transition_damage-covered window moved_window (pos 12) (pos 30) window-IsRect
      moved_window-IsRect

merge_while-AllApart_example :
    AllApart rect_touch_or_overlap
      (merge_while rect_touch_or_overlap 3 (window ∷ hanging ∷ moved_window ∷ []))
merge_while-AllApart_example =
    merge_while-AllApart rect_touch_or_overlap 3 (window ∷ hanging ∷ moved_window ∷ [])
      (omega arith)

normalize_dirty_rects-IsCover_example :
    let after =
      normalize_dirty_rects (window ∷ hanging ∷ moved_window ∷ []) (pos 100) (pos 90) true in
    IsCover (pos 100) (pos 90) screen-IsScreen (window ∷ hanging ∷ moved_window ∷ []) after
    × (length after ≤ (if true then 24 else 16))
normalize_dirty_rects-IsCover_example =
    normalize_dirty_rects-IsCover (pos 100) (pos 90) screen-IsScreen
      (window ∷ hanging ∷ moved_window ∷ []) true

enqueue_damage_rect-IsQueued_example :
    IsQueued
      (pos 100)
      (pos 90)
      1
      (omega arith)
      hanging
      (window ∷ [])
      (enqueue_damage_rect (window ∷ []) 1 (pos 100) (pos 90) hanging)
enqueue_damage_rect-IsQueued_example =
    enqueue_damage_rect-IsQueued (pos 100) (pos 90) 1 (omega arith) (window ∷ []) hanging
      screen-IsScreen (window-OnScreen, tt) (omega arith)
