-- ===== src/Memory/Pmm/Alloc.antt =====
-- src/mm/pmm.cpp: what `pmm_alloc_frame` hands out.
use uni_os.Prelude.{
  ℕ, zero, suc, ◌*◌, ◌<◌, ◌≡◌, ◌≢◌, ◌⊎◌, refl, sym, Bool, true, false, arith, inl, inr, Option,
  none, some,
}
use uni_os.Memory.Bitmap.{Bitmap, get, find_first_free}
use uni_os.Memory.Bitmap.Words.{IsSetTo}
use uni_os.Memory.Bitmap.Search.{IsFound, find_first_free-IsAnswer}
use uni_os.Memory.Bitmap.{search_start}
use uni_os.Memory.Pmm.{
  Pmm, refcount, reserve_frame_permanently, take_frame, with_bitmap, after_search, pmm_alloc_frame,
}
use uni_os.Memory.Pmm.Claim.{IsPmm, Claimed, Claimed-IsPmm}
use uni_os.Memory.Pmm.Take.{take_frame-Claimed, reserve-Claimed, get-same, with_bitmap-IsPmm}

-- Frames other than 0 and `i` are as they were.
abbrev pub OthersKept : (p q : Pmm) → ℕ → Type 0
OthersKept p q i =
    (j : ℕ)
    → 0 < j
    → j < p.bits
    → j ≢ i
    → (get q.bitmap j ≡ get p.bitmap j) × (refcount q j ≡ refcount p j)

-- The frame `i` was free and is used once.
abbrev pub IsTaken : (p q : Pmm) → ℕ → Type 0
IsTaken p q i =
    (0 < i) × (i < p.bits) × (get p.bitmap i ≡ false) × (get q.bitmap i ≡ true) × (refcount q i ≡ 1)

-- What an allocation of one frame leads to.
abbrev pub IsGiven : Pmm → ℕ × Pmm → Type 0
IsGiven p (address, q) =
    IsPmm q
    × (q.bits ≡ p.bits)
    × (((address ≡ 0) × IsSetTo (get p.bitmap) 1 p.bits × OthersKept p q 0)
        ⊎ ((i : ℕ) × (address ≡ i * 4096) × IsTaken p q i × OthersKept p q i))

-- The frame that a search found is taken, where the state differs from the first one at frame 0 at
-- most.
take_frame-IsGiven :
    (p r : Pmm) (start : ℕ) (o : Option ℕ)
    → IsPmm r
    → r.bits ≡ p.bits
    → OthersKept p r 0
    → IsFound (get r.bitmap) r.bits start o
    → o ≢ some 0
    → IsGiven p (take_frame r o)
unfolding take_frame
take_frame-IsGiven p r start none h e kept f ne = (
  h,
  e,
  inl (
    refl,
    (λ j le lt.
        ground (
          arith,
          kept j (omega arith) lt (λ z. omega arith),
          f j (omega arith) (omega (arith, e)),
        )),
    kept,
  ),
)
take_frame-IsGiven p r start (some zero) h e kept f ne = absurd (ne refl)
take_frame-IsGiven p r start (some (suc i)) h e kept f ne =
    let k = suc i in
    let (address, c) = take_frame-Claimed r k h f.1 f.0 in
    let lt : k < p.bits = omega (arith, e, f.1) in
    let old = kept k (omega arith) lt (λ z. omega arith) in
    (
      Claimed-IsPmm r _ k 1 c h,
      cc (c.bits, e),
      inr (
        k,
        address,
        (omega arith, lt, cc (old.0, f.0), ground (arith, c.used k f.1), ground (arith, c.once k)),
        λ j pos below ne.
            ground
              (arith, kept j pos below (λ z. omega arith), c.used j (omega (arith, e)), c.once j),
      ),
    )

reserve-kept : (p q : Pmm) → Claimed p q 0 1 → OthersKept p q 0
reserve-kept p q c = λ j pos lt ne. ground (arith, c.used j lt, c.once j)

with_bitmap-kept :
    (p q : Pmm) (b : Bitmap)
    → OthersKept p q 0
    → b.buffer ≡ q.bitmap.buffer
    → b.size ≡ q.bitmap.size
    → OthersKept p (with_bitmap q b) 0
with_bitmap-kept p q b kept e f =
    λ j pos lt ne. let (x, y) = kept j pos lt ne in (cc (x, get-same q.bitmap b j f e), y)

IsFound-congr :
    (b c : Bitmap) (size size' start : ℕ) (o : Option ℕ)
    → c.size ≡ b.size
    → c.buffer ≡ b.buffer
    → size' ≡ size
    → IsFound (get b) size start o
    → IsFound (get c) size' start o
IsFound-congr b c size size' start none f e g h =
    λ j le lt. cc (get-same b c j f e, h j le (omega arith))
IsFound-congr b c size size' start (some k) f e g h =
    let same = λ (j : ℕ). get-same b c j f e in
    (
      cc (same k, h.0),
      omega (arith, h.1),
      elim h.2 [
        | inl t ↦ inl (t.0, λ j le lt. cc (same j, t.1 j le lt))
        | inr t ↦
            inr
              (λ j le lt. cc (same j, t.0 j le (omega arith)), λ j le lt. cc (same j, t.1 j le lt))
      ],
    )

-- A search that starts behind frame 0 does not come to it when it is used.
not_first :
    (p : ℕ → Bool) (size start : ℕ) (o : Option ℕ)
    → p 0 ≡ true
    → IsFound p size start o
    → o ≢ some 0
not_first p size start none e f z = absurd (cc z)
not_first p size start (some k) e f z =
    let k0 : k ≡ 0 = grind (arith, z) in let g : p 0 ≡ false = rw⁻¹ k0 f.0 in cc (e, g)

after_search-IsGiven :
    (p : Pmm) (start : ℕ) (o : Option ℕ)
    → IsPmm p
    → IsFound (get p.bitmap) p.bits start o
    → IsGiven p (after_search p o)
unfolding after_search
after_search-IsGiven p start none h f =
    take_frame-IsGiven p p start none h refl (λ j pos lt ne. (refl, refl)) f (λ z. absurd (cc z))
after_search-IsGiven p start (some (suc i)) h f =
    take_frame-IsGiven p p start (some (suc i)) h refl (λ j pos lt ne. (refl, refl)) f
      (λ z. absurd (grind (arith, z)))
after_search-IsGiven p start (some zero) h f =
    let r = reserve_frame_permanently 0 p in
    let c = reserve-Claimed p 0 h f.1 f.0 in
    let hr = Claimed-IsPmm p r 0 1 c h in
    let (o, b) = find_first_free r.bitmap 1 in
    let (g, e, s) = find_first_free-IsAnswer r.bitmap 1 hr.buffer in
    let g' =
      IsFound-congr r.bitmap b r.bitmap.size r.bits (search_start r.bitmap 1) o s e (sym hr.size)
        g in
    let first : get r.bitmap 0 ≡ true = ground (arith, c.used 0 f.1) in
    take_frame-IsGiven p (with_bitmap r b) (search_start r.bitmap 1) o
      (with_bitmap-IsPmm r b hr e s) c.bits (with_bitmap-kept p r b (reserve-kept p r c) e s) g'
      (not_first (get b) r.bits (search_start r.bitmap 1) o (cc (get-same r.bitmap b 0 s e, first))
        g')

IsGiven-congr :
    (p : Pmm) (b : Bitmap) (r : ℕ × Pmm)
    → b.buffer ≡ p.bitmap.buffer
    → b.size ≡ p.bitmap.size
    → IsGiven (with_bitmap p b) r
    → IsGiven p r
IsGiven-congr p b r e f h =
    let same = λ (j : ℕ). get-same p.bitmap b j f e in
    let others : (i : ℕ) → OthersKept (with_bitmap p b) r.1 i → OthersKept p r.1 i =
      λ i k j pos lt ne. let (x, y) = k j pos lt ne in (cc (same j, x), y) in
    (
      h.0,
      h.1,
      elim h.2 [
        | inl t ↦ inl (t.0, (λ j le lt. cc (same j, t.1 j le lt)), others 0 t.2)
        | inr (i, a, t, k) ↦ inr (i, a, (t.0, t.1, cc (same i, t.2), t.3, t.4), others i k)
      ],
    )

-- From a state that meets the invariant pmm_alloc_frame comes to one that does, with as many frames.
-- Either the address is 0, every frame but the first was used already, and no frame but the first is
-- changed; or the address is that of a frame other than the first that was free, is now used and has
-- the count 1, and no frame but this and the first is changed.
pub pmm_alloc_frame-IsGiven : (p : Pmm) → IsPmm p → IsGiven p (pmm_alloc_frame p)
unfolding pmm_alloc_frame
pmm_alloc_frame-IsGiven p h =
    let (o, b) = find_first_free p.bitmap 0 in
    let (f, e, s) = find_first_free-IsAnswer p.bitmap 0 h.buffer in
    let start = search_start p.bitmap 0 in
    IsGiven-congr p b _ e s (
      after_search-IsGiven (with_bitmap p b) start o (with_bitmap-IsPmm p b h e s)
        (IsFound-congr p.bitmap b p.bitmap.size p.bits start o s e (sym h.size) f))
