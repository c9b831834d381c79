-- ===== src/Wm/Damage/Lists.antt =====
-- include/wm/interaction_policy.h: the move of the last rectangle of an array.
use uni_os.Prelude.{suc, ◌≡◌, refl, ap, arith, List, [], ◌∷◌, length, All}
use uni_os.Prelude.Int.{ℤ}
use uni_os.Wm.Rect.{DirtyRect}
use uni_os.Wm.Rect.Pieces.{covered}
use uni_os.Wm.Damage.{last_of, init_of, move_last}

length-init_of : (r : DirtyRect) (rs : List DirtyRect) → length (init_of r rs) ≡ length rs
length-init_of r [] = refl
length-init_of r (s ∷ rs) = ap suc (length-init_of s rs)

pub length-move_last : (rs : List DirtyRect) → length (move_last rs) ≡ length rs
unfolding move_last
length-move_last [] = refl
length-move_last (r ∷ rs) = ap suc (length-init_of r rs)

ends-covered :
    (r : DirtyRect) (rs : List DirtyRect) (px py : ℤ)
    → covered (last_of r rs ∷ init_of r rs) px py ≡ covered (r ∷ rs) px py
ends-covered r [] px py = refl
ends-covered r (s ∷ rs) px py = let rest = ends-covered s rs px py in ground (arith, rest)

pub move_last-covered :
    (rs : List DirtyRect) (px py : ℤ) → covered (move_last rs) px py ≡ covered rs px py
unfolding move_last
move_last-covered [] px py = refl
move_last-covered (r ∷ rs) px py = ends-covered r rs px py

ends-All :
    (P : DirtyRect → Type 0) (r : DirtyRect) (rs : List DirtyRect)
    → P r
    → All P rs
    → P (last_of r rs) × All P (init_of r rs)
ends-All P r [] h k = (h, tt)
ends-All P r (s ∷ rs) h k = let (a, b) = ends-All P s rs k.0 k.1 in (a, (h, b))

pub move_last-All : (P : DirtyRect → Type 0) (rs : List DirtyRect) → All P rs → All P (move_last rs)
unfolding move_last
move_last-All P [] h = tt
move_last-All P (r ∷ rs) h = ends-All P r rs h.0 h.1
