-- ===== src/Memory/Pmm/Count.antt =====
-- src/mm/pmm.cpp: how many frames are free, and what changes of it when frames are marked.
use uni_os.Prelude.{
  ℕ, zero, suc, ◌+◌, ◌-◌, ◌<◌, ◌≤◌, ◌≡◌, refl, Bool, true, ◌&&◌, arith, ltb, leb, ◌==◌,
  if◌then◌else◌, Bool-cases, inl, inr,
}
use uni_os.Memory.Bitmap.{Bitmap, get, put}
use uni_os.Memory.Bitmap.Write.{IsBuffer, raw_test-raw_put, raw_put-IsBuffer}
use uni_os.Memory.Bitmap.Sequence.Last.{IsClearTo}

-- The clear bits below `n`.
unfoldable pub clear_count : (ℕ → Bool) → ℕ → ℕ
clear_count p zero = 0
clear_count p (suc n) = (if p n then 0 else 1) + clear_count p n

pub clear_count-le : (p : ℕ → Bool) (n : ℕ) → clear_count p n ≤ n
unfolding clear_count
clear_count-le p zero = omega arith
clear_count-le p (suc n) = ground (arith, clear_count-le p n)

pub clear_count-congr :
    (p q : ℕ → Bool) (n : ℕ) → ((j : ℕ) → j < n → q j ≡ p j) → clear_count q n ≡ clear_count p n
unfolding clear_count
clear_count-congr p q zero h = refl
clear_count-congr p q (suc n) h =
    ground (arith, h n (omega arith), clear_count-congr p q n (λ j lt. h j (omega arith)))

-- Bits from `a` up to `b` that were clear are set.
pub clear_count-mark :
    (p q : ℕ → Bool) (a b n : ℕ)
    → a ≤ b
    → IsClearTo p a b
    → ((j : ℕ) → j < n → q j ≡ (if leb a j && ltb j b then true else p j))
    → clear_count p n ≡ clear_count q n + ((if leb b n then b else n) - a)
unfolding clear_count
clear_count-mark p q a b zero le clear h = ground arith
clear_count-mark p q a b (suc n) le clear h = ground (
  arith,
  h n (omega arith),
  clear n,
  clear_count-mark p q a b n le clear (λ j lt. h j (omega arith)),
)

-- One write through `set`.
pub get-put :
    (b : Bitmap) (i j : ℕ) (value : Bool)
    → IsBuffer b.size b.buffer
    → i < b.size
    → get (put b i value) j ≡ (if i == j then value else get b j)
unfolding get put
get-put b i j value h lt = ground (arith, raw_test-raw_put b.size b.buffer i j value h lt)

pub put-IsBuffer :
    (b : Bitmap) (i : ℕ) (value : Bool)
    → IsBuffer b.size b.buffer
    → IsBuffer b.size (put b i value).buffer
unfolding put
put-IsBuffer b i value h = elim (Bool-cases (leb b.size i)) [
  | inl out ↦ rw out h
  | inr inside ↦ rw inside (raw_put-IsBuffer b.size b.buffer i value h)
]

pub size-put : (b : Bitmap) (i : ℕ) (value : Bool) → (put b i value).size ≡ b.size
unfolding put
size-put b i value = ground arith
