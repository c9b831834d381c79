-- ===== src/Memory/Pmm/Take.antt =====
-- src/mm/pmm.cpp: the marking of one frame.
use uni_os.Prelude.{
  ℕ, ◌+◌, ◌-◌, ◌*◌, ◌^◌, ◌<◌, ◌≤◌, ◌≡◌, refl, Bool, true, false, arith, ltb, leb, ◌==◌, set,
  length-set, some,
}
use uni_os.Memory.Bitmap.{Bitmap, get, put}
use uni_os.Memory.Bitmap.Sequence.Last.{IsClearTo}
use uni_os.Memory.Pmm.{
  Pmm, refcount, less_memory, reserve_frame_permanently, take_frame, with_bitmap,
}
use uni_os.Memory.Pmm.Count.{clear_count-congr, get-put, put-IsBuffer, size-put}
use uni_os.Memory.Pmm.Claim.{IsPmm, Claimed, Claimed-room, memory_small, refcount-set}

IsClearTo-one : (f : ℕ → Bool) (i : ℕ) → f i ≡ false → IsClearTo f i (i + 1)
IsClearTo-one f i e = λ j a b. let s : j ≡ i = omega arith in rw s e

-- One frame that was free is marked.
mark-Claimed :
    (p : Pmm) (i free_memory : ℕ)
    → IsPmm p
    → i < p.bits
    → get p.bitmap i ≡ false
    → free_memory ≡ p.free_memory - 4096
    → Claimed p
        (record p {
          bitmap = put p.bitmap i true;
          refcounts = set p.refcounts i 1;
          free_memory = free_memory;
        })
        i
        1
mark-Claimed p i free_memory h lt clear e =
    let one = IsClearTo-one (get p.bitmap) i clear in
    record {
      free = one;
      inside = omega arith;
      bits = refl;
      size = size-put p.bitmap i true;
      buffer = rw (size-put p.bitmap i true) (put-IsBuffer p.bitmap i true h.buffer);
      counts = length-set p.refcounts i 1;
      used = λ j below. ground (arith, get-put p.bitmap i j true h.buffer (omega (arith, h.size)));
      once = λ j. ground (arith, refcount-set p.refcounts i j 1 (omega (arith, h.counts)));
      memory = omega (arith, e, Claimed-room p i 1 h one (omega arith));
    }

pub less_memory-sub : (m n : ℕ) → n ≤ m → m < 2 ^ 64 → less_memory m n ≡ m - n
less_memory-sub m n le lt = ground arith

pub take_frame-Claimed :
    (p : Pmm) (i : ℕ)
    → IsPmm p
    → i < p.bits
    → get p.bitmap i ≡ false
    → let (address, p') = take_frame p (some i) in (address ≡ i * 4096) × Claimed p p' i 1
unfolding take_frame
take_frame-Claimed p i h lt clear =
    let room = Claimed-room p i 1 h (IsClearTo-one (get p.bitmap) i clear) (omega arith) in
    let e : ltb i p.bits ≡ true = ground arith in
    rw e (
      refl,
      mark-Claimed p i _ h lt clear
          (less_memory-sub p.free_memory 4096 (omega (arith, room)) (memory_small p h)),
    )

pub reserve-Claimed :
    (p : Pmm) (i : ℕ)
    → IsPmm p
    → i < p.bits
    → get p.bitmap i ≡ false
    → Claimed p (reserve_frame_permanently i p) i 1
unfolding reserve_frame_permanently
reserve-Claimed p i h lt clear =
    let room = Claimed-room p i 1 h (IsClearTo-one (get p.bitmap) i clear) (omega arith) in
    let e : leb p.bits i ≡ false = ground arith in
    let z : (refcount p i == 0) ≡ true = ground (arith, h.unused i lt clear) in
    let m : leb 4096 p.free_memory ≡ true = ground (arith, room) in
    rw (e, z, clear, m) (mark-Claimed p i (p.free_memory - 4096) h lt clear refl)

pub get-same : (b c : Bitmap) (j : ℕ) → c.size ≡ b.size → c.buffer ≡ b.buffer → get c j ≡ get b j
unfolding get
get-same b c j e f = rw (e, f) refl

pub with_bitmap-IsPmm :
    (p : Pmm) (b : Bitmap)
    → IsPmm p
    → b.buffer ≡ p.bitmap.buffer
    → b.size ≡ p.bitmap.size
    → IsPmm (with_bitmap p b)
with_bitmap-IsPmm p b h e f = record {
  size = cc (f, h.size);
  buffer = rw (e, f) h.buffer;
  counts = h.counts;
  small = h.small;
  unused = λ i lt clear. h.unused i lt (cc (clear, get-same p.bitmap b i f e));
  memory = cc (
    h.memory,
    clear_count-congr (get p.bitmap) (get b) p.bits (λ j lt. get-same p.bitmap b j f e),
  );
}
