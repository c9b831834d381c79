-- ===== src/Wm/Damage.antt =====
-- include/wm/interaction_policy.h: the list of damaged rectangles. The first `count` elements of the
-- array are a list, the pointers are not null and the counts not negative. A loop has as fuel the number of elements that it
-- has still to look at, and `while (merged)` the number of rectangles.
pub mod Lists
pub mod Union
pub mod Clip
pub mod Merge
pub mod Keep
pub mod Cover
pub mod Enqueue
pub mod Queue
use uni_os.Prelude.{
  ℕ, zero, suc, ◌+◌, ◌-◌, ◌*◌, ◌%◌, ◌^◌, ◌<◌, Bool, true, false, not, ◌&&◌, ◌||◌, Option, none,
  some, List, [], ◌∷◌, ◌++◌, ltb, leb, ◌==◌, if◌then◌else◌, length,
}
use uni_os.Prelude.Int.{ℤ, pos, negsuc, ltb_ℤ}
use uni_os.Wm.Rect.{DirtyRect, rect_touch_or_overlap, rect_union, clip_rect_to_screen}

abbrev pub last_of : DirtyRect → List DirtyRect → DirtyRect
last_of r [] = r
last_of r (s ∷ rs) = last_of s rs

abbrev pub init_of : DirtyRect → List DirtyRect → List DirtyRect
init_of r [] = []
init_of r (s ∷ rs) = r ∷ init_of s rs

-- The last element comes to the place of one that is dropped, before these.
unfoldable pub move_last : List DirtyRect → List DirtyRect
move_last [] = []
move_last (r ∷ rs) = last_of r rs ∷ init_of r rs

-- `for (int i = 0; i < *count;)`: what is off the screen is dropped.
unfoldable pub clip_pass : ℕ → (screen_w screen_h : ℤ) → List DirtyRect → List DirtyRect
clip_pass zero screen_w screen_h rects = []
clip_pass (suc fuel) screen_w screen_h [] = []
clip_pass (suc fuel) screen_w screen_h (r ∷ rs) =
    let dropped = clip_pass fuel screen_w screen_h (move_last rs) in
    let kept = clip_pass fuel screen_w screen_h rs in
    elim (clip_rect_to_screen r screen_w screen_h) [ none ↦ dropped | some r' ↦ r' ∷ kept ]

-- The loop over `j`: the rectangle `i`, those that stay, and whether any was merged.
unfoldable pub merge_row :
    (DirtyRect → DirtyRect → Bool)
    → ℕ
    → DirtyRect
    → List DirtyRect
    → DirtyRect × List DirtyRect × Bool
merge_row merges zero cur rects = (cur, [], false)
merge_row merges (suc fuel) cur [] = (cur, [], false)
merge_row merges (suc fuel) cur (r ∷ rs) =
    let joined = merge_row merges fuel (rect_union cur r) (move_last rs) in
    let apart = merge_row merges fuel cur rs in
    if merges cur r then (joined.0, joined.1, true) else (apart.0, r ∷ apart.1, apart.2)

-- The loop over `i`.
unfoldable pub merge_pass :
    (DirtyRect → DirtyRect → Bool) → ℕ → List DirtyRect → List DirtyRect × Bool
merge_pass merges zero rects = ([], false)
merge_pass merges (suc fuel) [] = ([], false)
merge_pass merges (suc fuel) (r ∷ rs) =
    let (cur, kept, merged) = merge_row merges (length rs) r rs in
    let (rest, more) = merge_pass merges fuel kept in (cur ∷ rest, merged || more)

-- `while (merged)`.
unfoldable pub merge_while : (DirtyRect → DirtyRect → Bool) → ℕ → List DirtyRect → List DirtyRect
merge_while merges zero rects = rects
merge_while merges (suc fuel) rects =
    let (rects', merged) = merge_pass merges (length rects) rects in
    let again = merge_while merges fuel rects' in if merged then again else rects'

-- `(uint64_t)value`.
abbrev pub u64_of : ℤ → ℕ
u64_of (pos n) = n
u64_of (negsuc n) = 2 ^ 64 - 1 - n

abbrev pub area : DirtyRect → ℕ
area r = u64_of r.w * u64_of r.h % 2 ^ 64

unfoldable pub worth_merging : DirtyRect → DirtyRect → Bool
worth_merging a b = ltb (area (rect_union a b) * 2 % 2 ^ 64) ((area a + area b) * 3 % 2 ^ 64)

unfoldable pub bounds : DirtyRect → List DirtyRect → DirtyRect
bounds r [] = r
bounds r (s ∷ rs) = bounds (rect_union r s) rs

unfoldable pub collapse : (collapse_limit : ℕ) → List DirtyRect → List DirtyRect
collapse collapse_limit [] = []
collapse collapse_limit (r ∷ rs) =
    if ltb collapse_limit (length (r ∷ rs)) then bounds r rs ∷ [] else r ∷ rs

unfoldable pub normalize_dirty_rects :
    List DirtyRect → (screen_w screen_h : ℤ) → (interactive : Bool) → List DirtyRect
normalize_dirty_rects rects screen_w screen_h interactive =
    let clipped = clip_pass (length rects) screen_w screen_h rects in
    let apart = merge_while rect_touch_or_overlap (length clipped) clipped in
    let few = merge_while worth_merging (length apart) apart in
    if leb (length clipped) 1
    then clipped
    else if leb (length apart) 1
    then apart
    else collapse (if interactive then 24 else 16) few

-- The first rectangle that meets the new one takes it in; `none` if there is no such.
unfoldable pub add_to_first : DirtyRect → List DirtyRect → Option (List DirtyRect)
add_to_first incoming [] = none
add_to_first incoming (r ∷ rs) =
    let rest = add_to_first incoming rs in
    if rect_touch_or_overlap r incoming
    then some (rect_union r incoming ∷ rs)
    else elim rest [ none ↦ none | some rs' ↦ some (r ∷ rs') ]

abbrev pub is_equal : ℤ → ℤ → Bool
is_equal a b = not (ltb_ℤ a b) && not (ltb_ℤ b a)

abbrev pub fills_screen : DirtyRect → (screen_w screen_h : ℤ) → Bool
fills_screen r screen_w screen_h =
    is_equal r.x (pos 0)
    && (is_equal r.y (pos 0) && (is_equal r.w screen_w && is_equal r.h screen_h))

-- The array is full: one rectangle for all.
abbrev pub all_in_one : DirtyRect → List DirtyRect → List DirtyRect
all_in_one incoming [] = incoming ∷ []
all_in_one incoming (r ∷ rs) = rect_union (bounds r rs) incoming ∷ []

abbrev pub append_or_join :
    (max_rects : ℕ) → DirtyRect → List DirtyRect → Option (List DirtyRect) → List DirtyRect
append_or_join max_rects incoming rects (some rects') = rects'
append_or_join max_rects incoming rects none =
    if ltb (length rects) max_rects then rects ++ (incoming ∷ []) else all_in_one incoming rects

abbrev pub enqueue_clipped :
    (max_rects : ℕ) → (screen_w screen_h : ℤ) → List DirtyRect → Option DirtyRect → List DirtyRect
enqueue_clipped max_rects screen_w screen_h rects none = rects
enqueue_clipped max_rects screen_w screen_h rects (some incoming) =
    if fills_screen incoming screen_w screen_h
    then incoming ∷ []
    else append_or_join max_rects incoming rects (add_to_first incoming rects)

unfoldable pub enqueue_damage_rect :
    List DirtyRect → (max_rects : ℕ) → (screen_w screen_h : ℤ) → DirtyRect → List DirtyRect
enqueue_damage_rect rects max_rects screen_w screen_h incoming =
    if max_rects == 0
    then rects
    else enqueue_clipped max_rects screen_w screen_h rects
        (clip_rect_to_screen incoming screen_w screen_h)
