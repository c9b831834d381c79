-- ===== src/Memory/Bitmap/FirstFree.antt =====
-- src/mm/bitmap.cpp: `scan_range` looks at the bits in order, eight bytes at a time where it can.
use uni_os.Prelude.{
  ℕ, zero, suc, ◌+◌, ◌-◌, ◌/◌, ◌%◌, ◌≤◌, ◌<◌, ◌≡◌, ◌≢◌, ◌⊎◌, inl, inr, ap, Bool, true, false, not,
  ◌&&◌, arith, ltb, ◌==◌, if◌then◌else◌, Bool-cases, ==_iff,
}
use uni_os.Memory.Bitmap.{
  Bitmap, raw_test, get, Scan, found, reached, scan_to_word, qword, all_ones, ctz, scan_words,
  scan_to_end, word_end,
}
use uni_os.Memory.Bitmap.Write.{IsBuffer}
use uni_os.Memory.Bitmap.Words.{IsSetTo, IsSetTo-next, Matches-qword, full_qword, free_qword}

-- What a loop says of the bits from `a` on: those before the place it stands at are set, and the
-- bit it found is clear.
abbrev pub IsScan : (ℕ → Bool) → (a end : ℕ) → Scan → Type 0
IsScan p a end (found k) = IsSetTo p a k × (p k ≡ false) × (a ≤ k) × (k < end)
IsScan p a end (reached i) = IsSetTo p a i × (a ≤ i) × (i ≤ end)

IsSetTo-none : (p : ℕ → Bool) (a : ℕ) → IsSetTo p a a
IsSetTo-none p a = λ j le lt. absurd (omega arith)

pub IsSetTo-trans : (p : ℕ → Bool) (a b c : ℕ) → IsSetTo p a b → IsSetTo p b c → IsSetTo p a c
IsSetTo-trans p a b c f g = λ j le lt. elim (Bool-cases (ltb j b)) [
  | inl before ↦ f j le (ground arith)
  | inr after ↦ g j (ground arith) lt
]

IsScan-after :
    (p : ℕ → Bool) (a b end : ℕ) (s : Scan)
    → IsSetTo p a b
    → a ≤ b
    → IsScan p b end s
    → IsScan p a end s
IsScan-after p a b end (found k) f le h =
    (IsSetTo-trans p a b k f h.0, h.1, omega (arith, h.2), h.3)
IsScan-after p a b end (reached i) f le h = (IsSetTo-trans p a b i f h.0, omega (arith, h.1), h.2)

IsScan-next :
    (p : ℕ → Bool) (a end : ℕ) (s : Scan) → p a ≡ true → IsScan p (a + 1) end s → IsScan p a end s
IsScan-next p a end s e =
    IsScan-after p a (a + 1) end s (IsSetTo-next p a (a + 1) e (IsSetTo-none p (a + 1)))
      (omega arith)

IsScan-here : (p : ℕ → Bool) (a end : ℕ) → a < end → p a ≡ false → IsScan p a end (found a)
IsScan-here p a end lt e = (IsSetTo-none p a, e, omega arith, lt)

IsScan-stop : (p : ℕ → Bool) (a end : ℕ) → a ≤ end → IsScan p a end (reached a)
IsScan-stop p a end le = (IsSetTo-none p a, omega arith, le)

reached_inj : (i k : ℕ) → reached i ≡ reached k → i ≡ k
reached_inj i k e = ap (λ s. elim s [ found j ↦ j | reached j ↦ j ]) e

found_reached : (i k : ℕ) → found i ≢ reached k
found_reached i k e = cc

module _ (b : Bitmap) where
  one_bit :
      (i end : ℕ) (rest : Scan)
      → i < end
      → (get b i ≡ true → IsScan (get b) (i + 1) end rest)
      → IsScan (get b) i end (if get b i then rest else found i)
  one_bit i end rest lt h = elim (Bool-cases (get b i)) [
    | inl t ↦ rw t (IsScan-next (get b) i end rest t (h t))
    | inr f ↦ rw f (IsScan-here (get b) i end lt f)
  ]

  pub scan_to_word-IsScan :
      (fuel i end : ℕ) → i ≤ end → IsScan (get b) i end (scan_to_word fuel b i end)
  unfolding scan_to_word
  scan_to_word-IsScan zero i end le = IsScan-stop (get b) i end le
  scan_to_word-IsScan (suc fuel) i end le = elim (Bool-cases (ltb i end && not (i % 64 == 0))) [
    | inl go ↦
        let lt : i < end = ground arith in
        rw go (
          one_bit i end (scan_to_word fuel b (i + 1) end) lt
            (λ t. scan_to_word-IsScan fuel (i + 1) end (omega arith)))
    | inr stop ↦ rw stop (IsScan-stop (get b) i end le)
  ]

  pub scan_to_end-IsScan :
      (fuel i end : ℕ) → i ≤ end → IsScan (get b) i end (scan_to_end fuel b i end)
  unfolding scan_to_end
  scan_to_end-IsScan zero i end le = IsScan-stop (get b) i end le
  scan_to_end-IsScan (suc fuel) i end le = elim (Bool-cases (ltb i end)) [
    | inl go ↦
        let lt : i < end = ground arith in
        rw go (
          one_bit i end (scan_to_end fuel b (i + 1) end) lt
            (λ t. scan_to_end-IsScan fuel (i + 1) end (omega arith)))
    | inr stop ↦ rw stop (IsScan-stop (get b) i end le)
  ]

  pub scan_to_end-reached :
      (fuel i end k : ℕ) → i ≤ end → end ≤ i + fuel → scan_to_end fuel b i end ≡ reached k → k ≡ end
  unfolding scan_to_end
  scan_to_end-reached zero i end k le f e = omega (arith, reached_inj i k e)
  scan_to_end-reached (suc fuel) i end k le f e = ground (
    arith,
    λ (lt : i < end). scan_to_end-reached fuel (i + 1) end k (omega arith) (omega arith),
    reached_inj i k,
  )

  -- The loop over single bits stops at the end or at the start of a word.
  pub scan_to_word-reached :
      (fuel i end k : ℕ)
      → i ≤ end
      → end ≤ i + fuel
      → scan_to_word fuel b i end ≡ reached k
      → (k ≡ end) ⊎ (k % 64 ≡ 0)
  unfolding scan_to_word
  scan_to_word-reached zero i end k le f e = inl (omega (arith, reached_inj i k e))
  scan_to_word-reached (suc fuel) i end k le f e = ground (
    arith,
    λ (lt : i < end). scan_to_word-reached fuel (i + 1) end k (omega arith) (omega arith),
    reached_inj i k,
  )

  module _ (h : IsBuffer b.size b.buffer) where
    get-raw : (j : ℕ) → j < b.size → get b j ≡ raw_test b.buffer j
    unfolding get
    get-raw j lt = ground arith

    set_below : (i k : ℕ) → k ≤ b.size → IsSetTo (raw_test b.buffer) i k → IsSetTo (get b) i k
    set_below i k le f = λ j from to. rw (get-raw j (omega arith)) (f j from to)

    pub scan_words-IsScan :
        (fuel i end : ℕ)
        → i ≤ end
        → end ≤ b.size
        → (i ≡ end) ⊎ (i % 64 ≡ 0)
        → IsScan (get b) i end (scan_words fuel b i (word_end end))
    unfolding scan_words
    scan_words-IsScan zero i end le fits at = IsScan-stop (get b) i end le
    scan_words-IsScan (suc fuel) i end le fits at = elim (Bool-cases (ltb i (word_end end))) [
      | inr stop ↦ rw stop (IsScan-stop (get b) i end le)
      | inl go ↦
          let qw = qword b.buffer (i / 64) in
          let lt : i < word_end end = ground arith in
          let aligned : i % 64 ≡ 0 = ground arith in
          let m = Matches-qword b.size b.buffer i (i / 64) h (omega arith) in
          elim (Bool-cases (qw == all_ones)) [
            | inl full ↦
                let all = full_qword (raw_test b.buffer) i qw m ((==_iff qw all_ones).0 full) in
                rw (go, full)
                  (IsScan-after (get b) i (i + 64) end _ (set_below i (i + 64) (omega arith) all)
                    (omega arith)
                    (scan_words-IsScan fuel (i + 64) end (omega arith) fits (inr (omega arith))))
            | inr free ↦
                let (clear, below, small) = free_qword (raw_test b.buffer) i qw m (ground arith) in
                rw (go, free)
                  (
                    set_below i _ (omega (arith, small)) below,
                    rw (get-raw (i + ctz 64 (all_ones - qw)) (omega (arith, small))) clear,
                    omega arith,
                    omega (arith, small),
                  )
          ]
    ]
