-- ===== src/Memory/Bitmap/Sequence/Last.antt =====
-- src/mm/bitmap.cpp: what `find_last_free_sequence` answers.
use uni_os.Prelude.{
  ℕ, zero, suc, ◌+◌, ◌<◌, ◌≤◌, ◌≡◌, ◌⊎◌, Bool, true, false, Option, none, some, arith, ◌==◌,
  Bool-cases, inl, inr,
}
use uni_os.Memory.Bitmap.{Bitmap, get}
use uni_os.Memory.Bitmap.Write.{IsBuffer}
use uni_os.Memory.Bitmap.Sequence.{walked, last_step, last_bits, find_last_free_sequence}
use uni_os.Memory.Bitmap.Sequence.Bitwise.{find_last_free_sequence-bits}

-- The bits from `a` up to `b` are clear.
abbrev pub IsClearTo : (ℕ → Bool) → ℕ → ℕ → Type 0
IsClearTo p a b = (j : ℕ) → a ≤ j → j < b → p j ≡ false

module _ (p : ℕ → Bool) (count size : ℕ) where
  -- No `count` clear bits in a row start at `i` or behind it.
  abbrev pub NoRun : ℕ → Type 0
  NoRun i = (k : ℕ) → i ≤ k → k + count ≤ size → ¬ IsClearTo p k (k + count)

  -- The bits from `i` on were looked at, the first `run` of them are clear, and no more.
  record IsTail (i run : ℕ) : Type 0 where
    clear : IsClearTo p i (i + run)
    fits : i + run ≤ size
    less : run < count
    none_before : NoRun i
    edge : (i + run ≡ size) ⊎ (p (i + run) ≡ true)

  -- The last place where `count` clear bits in a row start, if there is one.
  abbrev pub IsLast : Option ℕ → Type 0
  IsLast none = NoRun 0
  IsLast (some k) = (k + count ≤ size) × IsClearTo p k (k + count) × NoRun (k + 1)

  IsClearTo-down : (i b : ℕ) → p i ≡ false → IsClearTo p (i + 1) b → IsClearTo p i b
  IsClearTo-down i b e h = λ j le lt. elim (Bool-cases (i == j)) [
    | inl same ↦ let f : j ≡ i = ground arith in rw f e
    | inr other ↦ h j (ground arith) lt
  ]

  NoRun-down : (i : ℕ) → (i + count ≤ size → ¬ IsClearTo p i (i + count)) → NoRun (i + 1) → NoRun i
  NoRun-down i f h = λ k le fit clear. elim (Bool-cases (i == k)) [
    | inl same ↦
        let e : k ≡ i = ground arith in
        f (omega arith) (λ j a b. clear j (omega arith) (omega arith))
    | inr other ↦ h k (ground arith) fit clear
  ]

  set_bit-IsTail : (i run : ℕ) → p i ≡ true → IsTail (i + 1) run → IsTail i 0
  set_bit-IsTail i run e h =
      let here : p (i + 0) ≡ true = let z : i + 0 ≡ i = omega arith in rw z e in
      record {
        clear = λ j a b. absurd (omega arith);
        fits = omega (arith, h.fits);
        less = omega (arith, h.less);
        none_before =
            NoRun-down i (λ fit clear. cc (e, clear i (omega arith) (omega (arith, h.less))))
              h.none_before;
        edge = inr here;
      }

  clear_bit-IsTail :
      (i run : ℕ) → p i ≡ false → run + 1 < count → IsTail (i + 1) run → IsTail i (run + 1)
  clear_bit-IsTail i run e lt h =
      let f : i + 1 + run ≡ i + (run + 1) = omega arith in
      record {
        clear = IsClearTo-down i (i + (run + 1)) e (λ j a b. h.clear j a (omega arith));
        fits = omega (arith, h.fits);
        less = lt;
        none_before = NoRun-down i blocked h.none_before;
        edge = elim h.edge [ inl end ↦ inl (omega arith) | inr set ↦ inr (rw⁻¹ f set) ];
      }
    where
      blocked : i + count ≤ size → ¬ IsClearTo p i (i + count)
      blocked fit clear = elim h.edge [
        | inl end ↦ absurd (omega arith)
        | inr set ↦ cc (set, clear (i + 1 + run) (omega arith) (omega arith))
      ]

  last_bits-IsLast : (n run : ℕ) → IsTail n run → IsLast (walked (last_bits p count 0 n run))
  unfolding last_bits last_step
  last_bits-IsLast zero run h = h.none_before
  last_bits-IsLast (suc n) run h =
      let z : 0 + n ≡ n = omega arith in
      let e : suc n ≡ n + 1 = omega arith in
      let h' : IsTail (n + 1) run = rw⁻¹ e h in
      elim (Bool-cases (p n)) [
        | inl set ↦ rw (z, set) (last_bits-IsLast n 0 (set_bit-IsTail n run set h'))
        | inr clear ↦ elim (Bool-cases (run + 1 == count)) [
          | inl done ↦
              let c : n + 1 + run ≡ n + count = ground arith in
              rw (z, clear, done)
                (
                  ground (arith, h'.fits),
                  IsClearTo-down n (n + count) clear (rw⁻¹ c h'.clear),
                  h'.none_before,
                )
          | inr more ↦
              rw (z, clear, more)
                (last_bits-IsLast n (run + 1)
                  (clear_bit-IsTail n run clear (ground (arith, h'.less)) h'))
        ]
      ]

-- On a buffer of bytes that is long enough find_last_free_sequence answers the last index from which
-- `count` bits in a row are clear, all inside the bitmap, and none only if there is no such index,
-- for a count that is neither 0 nor above the size.
pub find_last_free_sequence-IsLast :
    (b : Bitmap) (count : ℕ)
    → IsBuffer b.size b.buffer
    → 0 < count
    → count ≤ b.size
    → IsLast (get b) count b.size (find_last_free_sequence b count)
find_last_free_sequence-IsLast b count h pos le =
    rw (find_last_free_sequence-bits b count h pos le) (
      last_bits-IsLast (get b) count b.size b.size 0 (record {
        clear = λ j x y. absurd (omega arith);
        fits = omega arith;
        less = pos;
        none_before = λ k x y. absurd (omega arith);
        edge = inl (omega arith);
      }))
