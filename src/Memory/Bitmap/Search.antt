-- ===== src/Memory/Bitmap/Search.antt =====
-- src/mm/bitmap.cpp: what `find_first_free` answers.
use uni_os.Prelude.{
  ℕ, ◌-◌, ◌/◌, ◌≤◌, ◌<◌, ◌≡◌, ◌⊎◌, inl, inr, refl, Bool, false, Option, none, some, arith, leb,
  ◌==◌, if◌then◌else◌, Bool-cases,
}
use uni_os.Memory.Bitmap.{
  Bitmap, get, Scan, found, reached, continue, result, scan_range, search_from, search_start,
  move_hint, find_first_free,
}
use uni_os.Memory.Bitmap.Write.{IsBuffer}
use uni_os.Memory.Bitmap.Words.{IsSetTo}
use uni_os.Memory.Bitmap.FirstFree.{
  IsScan, IsSetTo-trans, scan_to_word-IsScan, scan_to_word-reached, scan_words-IsScan,
  scan_to_end-IsScan, scan_to_end-reached,
}

-- The answer of a search from `a` to `end`: the first bit that is clear, if there is one.
abbrev pub IsFirst : (ℕ → Bool) → (a end : ℕ) → Option ℕ → Type 0
IsFirst p a end none = IsSetTo p a end
IsFirst p a end (some k) = IsSetTo p a k × (p k ≡ false) × (a ≤ k) × (k < end)

IsFirst-after :
    (p : ℕ → Bool) (a b end : ℕ) (o : Option ℕ)
    → IsSetTo p a b
    → a ≤ b
    → IsFirst p b end o
    → IsFirst p a end o
IsFirst-after p a b end none f le h = IsSetTo-trans p a b end f h
IsFirst-after p a b end (some k) f le h =
    (IsSetTo-trans p a b k f h.0, h.1, omega (arith, h.2), h.3)

-- One loop of the scan, with the rest of the scan behind it.
continue-IsFirst :
    (p : ℕ → Bool) (a end : ℕ) (s : Scan) (next : ℕ → Scan)
    → IsScan p a end s
    → ((i : ℕ) → s ≡ reached i → i ≤ end → IsFirst p i end (result (next i)))
    → IsFirst p a end (result (continue s next))
continue-IsFirst p a end (found k) next h rest = h
continue-IsFirst p a end (reached i) next h rest =
    IsFirst-after p a i end (result (next i)) h.0 h.1 (rest i refl h.2)

last-IsFirst :
    (p : ℕ → Bool) (a end : ℕ) (s : Scan)
    → IsScan p a end s
    → ((i : ℕ) → s ≡ reached i → i ≡ end)
    → IsFirst p a end (result s)
last-IsFirst p a end (found k) h all = h
last-IsFirst p a end (reached i) h all = let e = all i refl in λ j le lt. h.0 j le (omega arith)

pub scan_range-IsFirst :
    (b : Bitmap) (begin end : ℕ)
    → IsBuffer b.size b.buffer
    → end ≤ b.size
    → IsFirst (get b) begin end (scan_range b begin end)
unfolding scan_range
scan_range-IsFirst b begin end h fits = elim (Bool-cases (leb end begin)) [
  | inl empty ↦ rw empty (λ j le lt. absurd (ground arith))
  | inr go ↦
      let le : begin ≤ end = ground arith in
      rw go (
        continue-IsFirst (get b) begin end _ _ (scan_to_word-IsScan b (end - begin) begin end le)
          (λ i e ie.
            continue-IsFirst (get b) i end _ _
              (scan_words-IsScan b h (end / 64) i end ie fits
                (scan_to_word-reached b (end - begin) begin end i le (omega arith) e))
              (λ i' e' ie'.
                last-IsFirst (get b) i' end _ (scan_to_end-IsScan b (end - i') i' end ie')
                  (λ k. scan_to_end-reached b (end - i') i' end k ie' (omega arith)))))
]

-- A search that starts at `start` answers the first clear bit from there on, or else the first of
-- all.
abbrev pub IsFound : (ℕ → Bool) → (size start : ℕ) → Option ℕ → Type 0
IsFound p size start none = IsSetTo p 0 size
IsFound p size start (some k) =
    (p k ≡ false)
    × (k < size)
    × (((start ≤ k) × IsSetTo p start k) ⊎ (IsSetTo p start size × IsSetTo p 0 k))

search_from-IsFound :
    (b : Bitmap) (start : ℕ)
    → IsBuffer b.size b.buffer
    → start ≤ b.size
    → IsFound (get b) b.size start (search_from b start)
unfolding search_from
search_from-IsFound b start h le =
    go (scan_range b start b.size) (scan_range b 0 start)
      (scan_range-IsFirst b start b.size h (omega arith)) (scan_range-IsFirst b 0 start h le)
  where
    again :
        (y : Option ℕ)
        → IsSetTo (get b) start b.size
        → IsFirst (get b) 0 start y
        → IsFound (get b) b.size start y
    again none f g = IsSetTo-trans (get b) 0 start b.size g f
    again (some k) f g = (g.1, omega (arith, g.3), inr (f, g.0))

    go :
        (x y : Option ℕ)
        → IsFirst (get b) start b.size x
        → IsFirst (get b) 0 start y
        → IsFound
            (get b)
            b.size
            start
            (elim x [ some k ↦ some k | none ↦ if start == 0 then none else y ])
    go (some k) y f g = (f.1, f.3, inl (f.2, f.0))
    go none y f g = elim (Bool-cases (start == 0)) [
      | inl first ↦ let e : start ≡ 0 = ground arith in rw first (λ j from to. f j (omega arith) to)
      | inr later ↦ rw later (again y f g)
    ]

search_start_le : (b : Bitmap) (start_index : ℕ) → search_start b start_index ≤ b.size
unfolding search_start
search_start_le b start_index = ground arith

-- The answer of a search, beside a bitmap with the same bits.
abbrev pub IsAnswer : Bitmap → ℕ → Option ℕ × Bitmap → Type 0
IsAnswer b start r =
    IsFound (get b) b.size start r.0 × (r.1.buffer ≡ b.buffer) × (r.1.size ≡ b.size)

move_hint-IsAnswer :
    (b : Bitmap) (start : ℕ) (o : Option ℕ)
    → IsFound (get b) b.size start o
    → IsAnswer b start (move_hint b o)
move_hint-IsAnswer b start none f = (f, refl, refl)
move_hint-IsAnswer b start (some k) f = (f, refl, refl)

-- On a buffer of bytes that is long enough find_first_free answers a clear bit of the bitmap: the
-- first one from where it starts to look, or else, if all the bits from there on are set, the first
-- of all. It answers none only if every bit is set. No bit and no size is changed.
pub find_first_free-IsAnswer :
    (b : Bitmap) (start_index : ℕ)
    → IsBuffer b.size b.buffer
    → IsAnswer b (search_start b start_index) (find_first_free b start_index)
unfolding find_first_free
find_first_free-IsAnswer b start_index h =
    let start = search_start b start_index in
    elim (Bool-cases (b.size == 0)) [
      | inl empty ↦
          let e : b.size ≡ 0 = ground arith in
          rw empty (move_hint-IsAnswer b start none (λ j le lt. absurd (omega arith)))
      | inr full ↦ rw full (
          move_hint-IsAnswer b start (search_from b start)
            (search_from-IsFound b start h (search_start_le b start_index)))
    ]
