-- ===== src/Memory/Bitmap/Sequence/Bitwise.antt =====
-- src/mm/bitmap.cpp: `find_last_free_sequence` beside a search that looks at one bit after the other.
use uni_os.Prelude.{
  ℕ, zero, suc, ◌+◌, ◌-◌, ◌*◌, ◌/◌, ◌^◌, ◌<◌, ◌≤◌, ◌≡◌, refl, ap, sym, ◌∙◌, Bool, true, false, ◌||◌,
  arith, ltb, leb, ◌==◌, if◌then◌else◌, Bool-cases, inl, inr, ==_iff,
}
use mathlib.Core.Path.{subst}
use native.Mathlib.Nat.{div-div-eq-div-mul}
use uni_os.Memory.Bitmap.{Bitmap, get, raw_test, qword, all_ones, word_end}
use uni_os.Memory.Bitmap.Write.{IsBuffer}
use uni_os.Memory.Bitmap.Words.{Matches, Matches-qword, full_qword}
use uni_os.Memory.Bitmap.Sequence.{
  Walk, searching, answered, walk_on, walked, last_step, last_bits, word_bit, last_word, last_words,
  find_last_free_sequence,
}

-- The search sees nothing of a test but its values.
last_bits-congr :
    (p q : ℕ → Bool) (count base n run : ℕ)
    → ((j : ℕ) → base ≤ j → j < base + n → p j ≡ q j)
    → last_bits p count base n run ≡ last_bits q count base n run
unfolding last_bits
last_bits-congr p q count base zero run h = refl
last_bits-congr p q count base (suc n) run h = rw (h (base + n) (omega arith) (omega arith)) (
    next (last_step count (base + n) (q (base + n)) run)
      (λ r. last_bits-congr p q count base n r (λ j a b. h j a (omega arith))))
  where
    next :
        (w : Walk)
        → ((r : ℕ) → last_bits p count base n r ≡ last_bits q count base n r)
        → walk_on w (last_bits p count base n) ≡ walk_on w (last_bits q count base n)
    next (searching r) f = f r
    next (answered k) f = refl

walk_on_assoc :
    (w : Walk) (f g : ℕ → Walk) → walk_on (walk_on w f) g ≡ walk_on w (λ r. walk_on (f r) g)
walk_on_assoc (searching r) f g = refl
walk_on_assoc (answered k) f g = refl

walk_on-congr : (w : Walk) (f g : ℕ → Walk) → ((r : ℕ) → f r ≡ g r) → walk_on w f ≡ walk_on w g
walk_on-congr (searching r) f g h = h r
walk_on-congr (answered k) f g h = refl

-- First the upper `n` bits, then the lower `m`.
last_bits-split :
    (p : ℕ → Bool) (count base m n run : ℕ)
    → last_bits p count base (m + n) run
      ≡ walk_on (last_bits p count (base + m) n run) (last_bits p count base m)
unfolding last_bits
last_bits-split p count base m zero run = let e : m + zero ≡ m = omega arith in rw e refl
last_bits-split p count base m (suc n) run =
    let e : m + suc n ≡ suc (m + n) = omega arith in
    let f : base + (m + n) ≡ base + m + n = omega arith in
    let step = last_step count (base + m + n) (p (base + m + n)) run in
    rw (e, f)
      (walk_on-congr step _ _ (last_bits-split p count base m n)
        ∙ sym (walk_on_assoc step (last_bits p count (base + m) n) (last_bits p count base m)))

last_bits-split_zero :
    (p : ℕ → Bool) (count m n run : ℕ)
    → last_bits p count 0 (m + n) run ≡ walk_on (last_bits p count m n run) (last_bits p count 0 m)
last_bits-split_zero p count m n run =
    let e : 0 + m ≡ m = omega arith in
    subst
      (λ k.
        last_bits p count 0 (m + n) run
        ≡ walk_on (last_bits p count k n run) (last_bits p count 0 m))
      e (last_bits-split p count 0 m n run)

-- A stretch of clear bits, taken at once.
last_bits-clear :
    (p : ℕ → Bool) (count base n run : ℕ)
    → ((j : ℕ) → base ≤ j → j < base + n → p j ≡ false)
    → run < count
    → last_bits p count base n run
      ≡ (if leb count (run + n) then answered (base + (run + n - count)) else searching (run + n))
unfolding last_bits last_step
last_bits-clear p count base zero run h lt = ground arith
last_bits-clear p count base (suc n) run h lt =
    rw (h (base + n) (omega arith) (omega arith))
      (ground (arith, last_bits-clear p count base n (run + 1) (λ j a b. h j a (omega arith))))

last_bits-set :
    (p : ℕ → Bool) (count base n run : ℕ)
    → ((j : ℕ) → base ≤ j → j < base + n → p j ≡ true)
    → last_bits p count base n run ≡ searching (if n == 0 then run else 0)
unfolding last_bits last_step
last_bits-set p count base zero run h = refl
last_bits-set p count base (suc n) run h =
    rw (h (base + n) (omega arith) (omega arith))
      (ground (arith, last_bits-set p count base n 0 (λ j a b. h j a (omega arith))))

half_digit : (w j : ℕ) → w / 2 ^ suc j ≡ w / 2 / 2 ^ j
half_digit w j =
    let e : 2 ^ suc j ≡ 2 * 2 ^ j = grind arith in rw (e, div-div-eq-div-mul w 2 (2 ^ j)) refl

Matches-digit : (p : ℕ → Bool) (i n w j : ℕ) → Matches p i n w → j < n → p (i + j) ≡ word_bit w j
unfolding Matches word_bit
Matches-digit p i zero w j h lt = absurd (omega arith)
Matches-digit p i (suc n) w zero h lt = ground (arith, h.0)
Matches-digit p i (suc n) w (suc j) h lt =
    let e : i + suc j ≡ i + 1 + j = omega arith in
    rw (e, half_digit w j) (Matches-digit p (i + 1) n (w / 2) j h.1 (omega arith))

Matches-zero :
    (p : ℕ → Bool) (i n w : ℕ) → Matches p i n w → w ≡ 0 → (j : ℕ) → i ≤ j → j < i + n → p j ≡ false
unfolding Matches
Matches-zero p i zero w h e j a b = absurd (omega arith)
Matches-zero p i (suc n) w h e j a b = elim (Bool-cases (i == j)) [
  | inl here ↦ ground (arith, h.0)
  | inr later ↦ Matches-zero p (i + 1) n (w / 2) h.1 (omega arith) j (ground arith) (omega arith)
]

-- The length of a run that does not answer yet.
abbrev IsRun : ℕ → Walk → Type 0
IsRun count (searching run) = run < count
IsRun count (answered k) = Unit

module _ (p : ℕ → Bool) (count : ℕ) where
  last_step-IsRun : (i run : ℕ) (t : Bool) → run < count → IsRun count (last_step count i t run)
  unfolding last_step
  last_step-IsRun i run t lt = ground arith

  last_bits-IsRun : (base n run : ℕ) → run < count → IsRun count (last_bits p count base n run)
  unfolding last_bits
  last_bits-IsRun base zero run lt = lt
  last_bits-IsRun base (suc n) run lt =
      next (last_step count (base + n) (p (base + n)) run)
        (last_step-IsRun (base + n) run (p (base + n)) lt) (last_bits-IsRun base n)
    where
      next :
          (w : Walk)
          → IsRun count w
          → ((r : ℕ) → r < count → IsRun count (last_bits p count base n r))
          → IsRun count (walk_on w (last_bits p count base n))
      next (searching r) h f = f r h
      next (answered k) h f = tt

walk_on-IsRun :
    (count : ℕ) (w : Walk) (f g : ℕ → Walk)
    → IsRun count w
    → ((r : ℕ) → r < count → f r ≡ g r)
    → walk_on w f ≡ walk_on w g
walk_on-IsRun count (searching r) f g h k = k r h
walk_on-IsRun count (answered k) f g h e = refl

last_word-bits :
    (p : ℕ → Bool) (count q qw run : ℕ)
    → run < count
    → Matches p (q * 64) 64 qw
    → last_word count q qw run ≡ last_bits p count (q * 64) 64 run
unfolding last_word
last_word-bits p count q qw run lt m = elim (Bool-cases (qw == 0)) [
  | inl z ↦
      let clear = Matches-zero p (q * 64) 64 qw m ((==_iff qw 0).0 z) in
      rw (z, last_bits-clear p count (q * 64) 64 run clear lt) refl
  | inr nz ↦ elim (Bool-cases (qw == all_ones)) [
    | inl full ↦
        let set = full_qword p (q * 64) qw m ((==_iff qw all_ones).0 full) in
        rw (nz, full, last_bits-set p count (q * 64) 64 run set) refl
    | inr mixed ↦
        rw (nz, mixed)
          (last_bits-congr (λ i. word_bit qw (i - q * 64)) p count (q * 64) 64 run
            (λ j a b. digit j a b))
  ]
]
  where
    digit : (j : ℕ) → q * 64 ≤ j → j < q * 64 + 64 → word_bit qw (j - q * 64) ≡ p j
    digit j a b =
        let e : q * 64 + (j - q * 64) ≡ j = omega arith in
        let d : p (q * 64 + (j - q * 64)) ≡ word_bit qw (j - q * 64) =
          Matches-digit p (q * 64) 64 qw (j - q * 64) m (omega arith) in
        cc (d, ap p e)

last_words-bits :
    (b : Bitmap) (count q run : ℕ)
    → IsBuffer b.size b.buffer
    → run < count
    → last_words b count q run ≡ last_bits (raw_test b.buffer) count 0 (q * 64) run
unfolding last_words
last_words-bits b count zero run h lt = unfold last_bits in refl
last_words-bits b count (suc q) run h lt =
    let p = raw_test b.buffer in
    let e : suc q * 64 ≡ q * 64 + 64 = omega arith in
    let word =
      last_word-bits p count q (qword b.buffer q) run lt
        (Matches-qword b.size b.buffer (q * 64) q h (omega arith)) in
    rw (e, last_bits-split_zero p count (q * 64) 64 run, word)
      (walk_on-IsRun count (last_bits p count (q * 64) 64 run) _ _
        (last_bits-IsRun p count (q * 64) 64 run lt) (λ r less. last_words-bits b count q r h less))

get-raw : (b : Bitmap) (j : ℕ) → j < b.size → get b j ≡ raw_test b.buffer j
unfolding get
get-raw b j lt = ground arith

-- The search by words answers what a search by bits does, from the last bit to the first.
pub find_last_free_sequence-bits :
    (b : Bitmap) (count : ℕ)
    → IsBuffer b.size b.buffer
    → 0 < count
    → count ≤ b.size
    → find_last_free_sequence b count ≡ walked (last_bits (get b) count 0 b.size 0)
unfolding find_last_free_sequence
find_last_free_sequence-bits b count h pos le =
    let we = word_end b.size in
    let q : ℕ = we / 64 in
    let go : (count == 0 || ltb b.size count) ≡ false = ground arith in
    let total : we + (b.size - we) ≡ b.size = omega arith in
    let full : q * 64 ≡ we = omega arith in
    let low = λ (r : ℕ) (less : r < count).
      last_words-bits b count q r h less
      ∙ ap (λ n. last_bits (raw_test b.buffer) count 0 n r) full
      ∙ sym (
          last_bits-congr (get b) (raw_test b.buffer) count 0 we r
            (λ j x y. raw j (omega arith))) in
    let parts = last_bits-split_zero (get b) count we (b.size - we) 0 in
    let whole : last_bits (get b) count 0 b.size 0
        ≡ last_bits (get b) count 0 (we + (b.size - we)) 0 =
      ap (λ n. last_bits (get b) count 0 n 0) (sym total) in
    rw (go, whole, parts)
      (ap walked (
        walk_on-IsRun count (last_bits (get b) count we (b.size - we) 0) _ _
          (last_bits-IsRun (get b) count we (b.size - we) 0 pos) low))
  where
    raw : (j : ℕ) → j < b.size → get b j ≡ raw_test b.buffer j
    raw j lt = get-raw b j lt
