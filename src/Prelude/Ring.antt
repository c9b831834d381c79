-- ===== src/Prelude/Ring.antt =====
-- An array of `size` places read round its end, as the pipes and the event queue keep their data.
-- No code of the repository is modelled here.
use Prim.Native.Nat.{ℕ, zero, suc, ◌+◌, ◌%◌, ◌≤◌, ◌<◌}
use mathlib.Core.Path.{◌≡◌, refl, ap, ap₂, sym, ◌∙◌}
use mathlib.Core.Logic.{◌≢◌}
use mathlib.Core.List.{List, [], ◌∷◌, ◌++◌}
use native.Mathlib.Nat.{mod-add-mod}
use native.Mathlib.Omega.{arith}
use uni_os.Prelude.Lists.{length, get_or, set, get_or-set_self, get_or-set_ne}

-- `h + n` steps round the ring, one after the other or at once.
pub mod_step : (size h n : ℕ) → (h + suc n) % size ≡ ((h + 1) % size + n) % size
mod_step size h n = rw mod-add-mod (ap (λ k. k % size) (omega arith))

-- Fewer than `size` steps do not come back to the start.
pub mod_ne : (size h m n : ℕ) → h < size → n < m → m < size → (h + m) % size ≢ (h + n) % size
mod_ne size h m n hh nm ms = grind arith

module _ {ℓ} {A : Type ℓ} (d : A) (size : ℕ) where
  -- The `n` elements from index `h` on.
  abbrev pub window : List A → ℕ → ℕ → List A
  window buf h zero = []
  window buf h (suc n) = get_or buf h d ∷ window buf ((h + 1) % size) n

  pub length-window : (buf : List A) (h n : ℕ) → length (window buf h n) ≡ n
  length-window buf h zero = refl
  length-window buf h (suc n) = ap suc (length-window buf ((h + 1) % size) n)

  pub window_split :
      (buf : List A) (h n k : ℕ)
      → h < size
      → window buf h (n + k) ≡ window buf h n ++ window buf ((h + n) % size) k
  window_split buf h zero k lt =
      let e : (h + 0) % size ≡ h = grind arith in let f : zero + k ≡ k = omega arith in rw (e, f)
  window_split buf h (suc n) k lt =
      let f : suc n + k ≡ suc (n + k) = omega arith in
      let pos : (h + 1) % size < size = grind arith in
      rw (f, mod_step size h n)
        (ap (λ w. get_or buf h d ∷ w) (window_split buf ((h + 1) % size) n k pos))

  -- A write behind the window does not show in it.
  pub window-set_ne :
      (buf : List A) (h n m i : ℕ) (v : A)
      → h < size
      → n ≤ m
      → m < size
      → i ≡ (h + m) % size
      → window (set buf i v) h n ≡ window buf h n
  window-set_ne buf h zero m i v lt le ms e = refl
  window-set_ne buf h (suc n) zero i v lt le ms e = absurd (omega arith)
  window-set_ne buf h (suc n) (suc m) i v lt le ms e = ap₂ ◌∷◌ (get_or-set_ne buf i h v d off) (
      window-set_ne buf ((h + 1) % size) n m i v (grind arith) (omega arith) (omega arith)
        (e ∙ mod_step size h m))
    where
      here : (h + 0) % size ≡ h
      here = grind arith

      off : i ≢ h
      off = λ p. mod_ne size h (suc m) 0 lt (omega arith) ms (sym e ∙ p ∙ sym here)

  -- A write just behind the window makes it longer by the element written.
  pub window-set_next :
      (buf : List A) (h n i : ℕ) (v : A)
      → h < size
      → n < size
      → size ≤ length buf
      → i ≡ (h + n) % size
      → window (set buf i v) h (n + 1) ≡ window buf h n ++ (v ∷ [])
  window-set_next buf h n i v lt ns big e = rw (
    window_split (set buf i v) h n 1 lt,
    window-set_ne buf h n n i v lt (omega arith) ns e,
    ← e,
    get_or-set_self buf i v d (grind arith),
  )
