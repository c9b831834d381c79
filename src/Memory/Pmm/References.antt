-- ===== src/Memory/Pmm/References.antt =====
-- src/mm/pmm.cpp: adding and dropping the references of a frame.
use uni_os.Prelude.{
  ℕ, ◌+◌, ◌-◌, ◌/◌, ◌%◌, ◌^◌, ◌<◌, ◌≡◌, ◌≢◌, ◌⊎◌, refl, sym, true, false, ◌||◌, arith, leb, ◌==◌,
  if◌then◌else◌, Bool-cases, inl, inr, length, get_or, set, length-set, set-set, set-get_or,
  get_or-set_self, ◌∙◌, some,
}
use mathlib.Core.Option
use mathlib.Core.Option.{some-injective, none-ne-some}
use uni_os.Memory.Bitmap.{get, put}
use uni_os.Memory.Bitmap.Write.{IsBuffer}
use uni_os.Memory.Pmm.{Pmm, refcount, pmm_refcount_inc, pmm_refcount_dec}
use uni_os.Memory.Pmm.Count.{clear_count-mark, clear_count-le, get-put, put-IsBuffer, size-put}
use uni_os.Memory.Pmm.Claim.{IsPmm, Claimed, refcount-set}
use uni_os.Memory.Pmm.Frames.{get-hint}

-- The counts are changed of a frame that is used.
pub set_count-IsPmm :
    (p : Pmm) (i v : ℕ)
    → IsPmm p
    → i < p.bits
    → get p.bitmap i ≡ true
    → IsPmm (record p { refcounts = set p.refcounts i v })
set_count-IsPmm p i v h lt used = record {
  size = h.size;
  buffer = h.buffer;
  counts = cc (h.counts, length-set p.refcounts i v);
  small = h.small;
  unused = λ j below clear. ground (
    arith,
    refcount-set p.refcounts i j v (omega (arith, h.counts)),
    h.unused j below clear,
    other j clear,
  );
  memory = h.memory;
}
  where
    other : (j : ℕ) → get p.bitmap j ≡ false → j ≢ i
    other j clear e = let f : get p.bitmap i ≡ false = rw⁻¹ e clear in cc (used, f)

-- A frame with a count is used.
counted : (p : Pmm) (i : ℕ) → IsPmm p → i < p.bits → refcount p i ≢ 0 → get p.bitmap i ≡ true
counted p i h lt ne = elim (Bool-cases (get p.bitmap i)) [
  | inl e ↦ e
  | inr e ↦ absurd (ne (h.unused i lt e))
]

-- A frame that was used once is free again: the reverse of a claim.
unclaimed-IsPmm :
    (p q : Pmm) (i : ℕ)
    → IsBuffer q.bitmap.size q.bitmap.buffer
    → refcount q i ≡ 0
    → Claimed q p i 1
    → IsPmm p
    → IsPmm q
unclaimed-IsPmm p q i buffer gone c h = record {
  size = cc (c.size, c.bits, h.size);
  buffer = buffer;
  counts = cc (c.counts, c.bits, h.counts);
  small = omega (arith, c.bits, h.small);
  unused = λ j lt clear. elim (Bool-cases (i == j)) [
    | inl same ↦ let e : j ≡ i = ground arith in rw e gone
    | inr other ↦ ground (arith, c.used j lt, c.once j, h.unused j (omega (arith, c.bits)))
  ];
  memory = rw⁻¹ c.bits (
      ground (
        arith,
        c.memory,
        h.memory,
        c.bits,
        c.inside,
        clear_count-mark (get q.bitmap) (get p.bitmap) i (i + 1) q.bits (omega arith) c.free c.used,
      ));
}

-- The last reference is dropped.
free_frame-Claimed :
    (p : Pmm) (i : ℕ)
    → IsPmm p
    → i < p.bits
    → refcount p i ≡ 1
    → let q = record p {
      bitmap = record (put p.bitmap i false) { hint = i };
      refcounts = set p.refcounts i 0;
      free_memory = (p.free_memory + 4096) % 2 ^ 64;
    } in
      Claimed q p i 1 × IsPmm q
free_frame-Claimed p i h lt one =
    let b = put p.bitmap i false in
    let s = size-put p.bitmap i false in
    let used = counted p i h lt (λ e. absurd (omega arith)) in
    let bits : (j : ℕ)
        → get (record b { hint = i }) j ≡ (if i == j then false else get p.bitmap j) =
      λ j. cc (get-hint b i j, get-put p.bitmap i j false h.buffer (omega (arith, h.size))) in
    let counts = λ (j : ℕ). refcount-set p.refcounts i j 0 (omega (arith, h.counts)) in
    let clear : get (record b { hint = i }) i ≡ false = ground (arith, bits i) in
    let buffer : IsBuffer b.size b.buffer = rw s (put-IsBuffer p.bitmap i false h.buffer) in
    let count = clear_count-le (get p.bitmap) p.bits in
    let c : Claimed
        (record p {
          bitmap = record b { hint = i };
          refcounts = set p.refcounts i 0;
          free_memory = (p.free_memory + 4096) % 2 ^ 64;
        })
        p i 1 =
      record {
        free = λ j x y. let e : j ≡ i = omega arith in rw e clear;
        inside = omega arith;
        bits = refl;
        size = sym s;
        buffer = h.buffer;
        counts = sym (length-set p.refcounts i 0);
        used = λ j below. elim (Bool-cases (i == j)) [
          | inl same ↦ let e : j ≡ i = ground arith in rw e (ground (arith, used))
          | inr other ↦ ground (arith, bits j)
        ];
        once = λ j. elim (Bool-cases (i == j)) [
          | inl same ↦ let e : j ≡ i = ground arith in rw e (ground (arith, one))
          | inr other ↦ ground (arith, counts j)
        ];
        memory = omega (arith, h.memory, h.small, count);
      } in
    (c, unclaimed-IsPmm p _ i buffer (ground (arith, counts i)) c h)

-- What dropping a reference does to the frame `i`: nothing if it has none, or one less, or the last
-- one goes, and then the state before is the state after with the frame claimed.
abbrev pub IsReleased : Pmm → ℕ → Pmm → Type 0
IsReleased p i q =
    ((refcount p i ≡ 0) × (q ≡ p))
    ⊎ (((1 < refcount p i) × (q ≡ record p { refcounts = set p.refcounts i (refcount p i - 1) }))
        ⊎ ((refcount p i ≡ 1) × (get q.bitmap i ≡ false) × Claimed q p i 1))

-- From a state that meets the invariant pmm_refcount_dec of an address in a managed frame other than
-- the first comes to one that does. A frame without references is left alone; of more than one, one
-- goes and nothing else changes; when the last one goes the frame is free, the free memory is more by
-- its size, and no other frame is changed.
pub pmm_refcount_dec-IsReleased :
    (frame : ℕ) (p : Pmm)
    → IsPmm p
    → 0 < frame
    → frame / 4096 < p.bits
    → let q = pmm_refcount_dec frame p in IsPmm q × IsReleased p (frame / 4096) q
unfolding pmm_refcount_dec
pmm_refcount_dec-IsReleased frame p h pos lt =
    let i = frame / 4096 in
    let nonnull : (frame == 0) ≡ false = ground arith in
    let managed : leb p.bits i ≡ false = ground arith in
    elim (Bool-cases (refcount p i == 0)) [
      | inl unused ↦ rw (nonnull, managed, unused) (h, inl (ground arith, refl))
      | inr counts ↦ elim (Bool-cases (refcount p i - 1 == 0)) [
        | inl last ↦
            let one : refcount p i ≡ 1 = ground arith in
            let (c, hq) = free_frame-Claimed p i h lt one in
            rw (nonnull, managed, counts, last)
              (hq, inr (inr (one, c.free i (omega arith) (omega arith), c)))
        | inr more ↦
            let used = counted p i h lt (λ e. ground arith) in
            rw (nonnull, managed, counts, more)
              (set_count-IsPmm p i (refcount p i - 1) h lt used, inr (inl (ground arith, refl)))
      ]
    ]

-- A reference that is added to a frame with at least one, and fewer than 65535, and is dropped again
-- leaves the state as it was.
pub pmm_refcount_inc-pmm_refcount_dec :
    (frame : ℕ) (p : Pmm)
    → IsPmm p
    → 0 < refcount p (frame / 4096)
    → refcount p (frame / 4096) < 65535
    → Option.map (pmm_refcount_dec frame) (pmm_refcount_inc frame p) ≡ some p
unfolding pmm_refcount_inc pmm_refcount_dec
pmm_refcount_inc-pmm_refcount_dec frame p h used room =
    let i = frame / 4096 in
    elim (Bool-cases (frame == 0 || leb p.bits i)) [
      | inl out ↦
          let e : (frame == 0 || (leb p.bits i || refcount p i == 0)) ≡ true = ground arith in
          rw (out, e) refl
      | inr inside ↦
          let n = refcount p i in
          let full : (n == 65535) ≡ false = ground arith in
          let lt : i < length p.refcounts = ground (arith, h.counts) in
          let here : get_or (set p.refcounts i (n + 1)) i 0 ≡ n + 1 =
            get_or-set_self p.refcounts i (n + 1) 0 lt in
          let stays : (frame == 0 || (leb p.bits i || n + 1 == 0)) ≡ false = ground arith in
          let less : n + 1 - 1 ≡ n = omega arith in
          let left : (n == 0) ≡ false = ground arith in
          let same : set (set p.refcounts i (n + 1)) i n ≡ p.refcounts =
            set-set p.refcounts i (n + 1) n ∙ set-get_or p.refcounts i 0 lt in
          rw (inside, full, here, stays, less, left, same) refl
    ]
