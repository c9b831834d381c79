-- ===== src/Memory/Pmm/Calls.antt =====
-- src/mm/pmm.cpp: sequences of calls.
use uni_os.Prelude.{
  ℕ, zero, suc, ◌+◌, ◌/◌, ◌≡◌, refl, true, ◌||◌, arith, leb, ◌==◌, Bool-cases, inl, inr, set, none,
  some,
}
use mathlib.Core.Option.{some-injective, none-ne-some}
use uni_os.Memory.Bitmap.{get}
use uni_os.Memory.Pmm.{
  Pmm, refcount, pmm_alloc_frame, pmm_alloc_frames, pmm_refcount_inc, pmm_refcount_dec,
}
use uni_os.Memory.Pmm.Claim.{IsPmm, Claimed-IsPmm}
use uni_os.Memory.Pmm.References.{set_count-IsPmm, pmm_refcount_dec-IsReleased}
use uni_os.Memory.Pmm.Alloc.{pmm_alloc_frame-IsGiven}
use uni_os.Memory.Pmm.Frames.{pmm_alloc_frames-IsRun}

-- The calls of the allocator, each from a state to the next. A reference is added only to a frame
-- that is used.
pub data Call : Pmm → Pmm → Type 0 where
  alloc_frame : (p : Pmm) → Call p (pmm_alloc_frame p).1
  alloc_frames : (count : ℕ) (p : Pmm) → Call p (pmm_alloc_frames count p).1
  refcount_inc :
      (frame : ℕ) (p q : Pmm)
      → get p.bitmap (frame / 4096) ≡ true
      → pmm_refcount_inc frame p ≡ some q
      → Call p q
  refcount_dec : (frame : ℕ) (p : Pmm) → Call p (pmm_refcount_dec frame p)

pub data Calls (p : Pmm) : Pmm → Type 0 where
  no_calls : Calls p p
  after : {q r : Pmm} → Calls p q → Call q r → Calls p r

pmm_alloc_frames-IsPmm : (count : ℕ) (p : Pmm) → IsPmm p → IsPmm (pmm_alloc_frames count p).1
unfolding pmm_alloc_frames
pmm_alloc_frames-IsPmm zero p h = h
pmm_alloc_frames-IsPmm (suc zero) p h = (pmm_alloc_frame-IsGiven p h).0
pmm_alloc_frames-IsPmm (suc (suc n)) p h =
    elim (pmm_alloc_frames-IsRun (suc (suc n)) p (omega arith) h) [
      | inl (a, e, why) ↦ rw e h
      | inr (i, a, last, c, low) ↦ Claimed-IsPmm p _ i (suc (suc n)) c h
    ]

pmm_refcount_inc-IsPmm :
    (frame : ℕ) (p q : Pmm)
    → IsPmm p
    → get p.bitmap (frame / 4096) ≡ true
    → pmm_refcount_inc frame p ≡ some q
    → IsPmm q
unfolding pmm_refcount_inc
pmm_refcount_inc-IsPmm frame p q h used e =
    let i = frame / 4096 in
    elim (Bool-cases (frame == 0 || leb p.bits i)) [
      | inl out ↦
          let f : some p ≡ some q = rw⁻¹ e (rw out refl) in
          let g : p ≡ q = some-injective p q f in rw⁻¹ g h
      | inr inside ↦ elim (Bool-cases (refcount p i == 65535)) [
        | inl full ↦
            let f : none ≡ some q = rw⁻¹ e (rw (inside, full) refl) in absurd (none-ne-some q f)
        | inr room ↦
            let p' = record p { refcounts = set p.refcounts i (refcount p i + 1) } in
            let f : some p' ≡ some q = rw⁻¹ e (rw (inside, room) refl) in
            let g : p' ≡ q = some-injective p' q f in
            rw⁻¹ g (set_count-IsPmm p i (refcount p i + 1) h (ground arith) used)
      ]
    ]

pmm_refcount_dec-IsPmm : (frame : ℕ) (p : Pmm) → IsPmm p → IsPmm (pmm_refcount_dec frame p)
unfolding pmm_refcount_dec
pmm_refcount_dec-IsPmm frame p h = elim (Bool-cases (frame == 0 || leb p.bits (frame / 4096))) [
  | inl out ↦
      let e : (frame == 0 || (leb p.bits (frame / 4096) || refcount p (frame / 4096) == 0)) ≡ true =
        ground arith in
      rw e h
  | inr inside ↦ (pmm_refcount_dec-IsReleased frame p h (ground arith) (ground arith)).0
]

Call-IsPmm : {p q : Pmm} → Call p q → IsPmm p → IsPmm q
Call-IsPmm (alloc_frame p) h = (pmm_alloc_frame-IsGiven p h).0
Call-IsPmm (alloc_frames count p) h = pmm_alloc_frames-IsPmm count p h
Call-IsPmm (refcount_inc frame p q used e) h = pmm_refcount_inc-IsPmm frame p q h used e
Call-IsPmm (refcount_dec frame p) h = pmm_refcount_dec-IsPmm frame p h

-- Whatever calls of pmm_alloc_frame, pmm_alloc_frames, pmm_refcount_inc (of used frames, and without
-- a panic) and pmm_refcount_dec are made, in any order and with any arguments, the invariant is kept:
-- free frames have no references, and the free memory is that of the free frames.
pub Calls-IsPmm : {p q : Pmm} → IsPmm p → Calls p q → IsPmm q
Calls-IsPmm h no_calls = h
Calls-IsPmm h (after calls call) = Call-IsPmm call (Calls-IsPmm h calls)
