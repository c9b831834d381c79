-- ===== src/Memory/Pmm/Claim.antt =====
-- src/mm/pmm.cpp: the allocator's invariant, and what marking frames as used does to it.
use uni_os.Prelude.{
  ℕ, ◌+◌, ◌*◌, ◌^◌, ◌<◌, ◌≤◌, ◌≡◌, refl, true, false, ◌&&◌, arith, ltb, leb, ◌==◌, if◌then◌else◌,
  List, length, get_or, set, get_or-set_self, get_or-set_ne,
}
use uni_os.Memory.Bitmap.{get}
use uni_os.Memory.Bitmap.Write.{IsBuffer}
use uni_os.Memory.Bitmap.Sequence.Last.{IsClearTo}
use uni_os.Memory.Pmm.{Pmm, refcount}
use uni_os.Memory.Pmm.Count.{clear_count, clear_count-mark, clear_count-le}

-- Physical addresses have 52 bits. The bitmap covers the frames, there is one count for each, a free frame has the count 0, and the
-- free memory is the size of the free frames.
pub record IsPmm (p : Pmm) : Type 0 where
  pub size : p.bitmap.size ≡ p.bits
  pub buffer : IsBuffer p.bitmap.size p.bitmap.buffer
  pub counts : length p.refcounts ≡ p.bits
  pub small : p.bits ≤ 2 ^ 40
  pub unused : (i : ℕ) → i < p.bits → get p.bitmap i ≡ false → refcount p i ≡ 0
  pub memory : p.free_memory ≡ 4096 * clear_count (get p.bitmap) p.bits

-- The frames from `a` on, `n` of them, were free and are used once, and no other frame is changed.
pub record Claimed (p q : Pmm) (a n : ℕ) : Type 0 where
  pub free : IsClearTo (get p.bitmap) a (a + n)
  pub inside : a + n ≤ p.bits
  pub bits : q.bits ≡ p.bits
  pub size : q.bitmap.size ≡ p.bitmap.size
  pub buffer : IsBuffer q.bitmap.size q.bitmap.buffer
  pub counts : length q.refcounts ≡ length p.refcounts
  pub used :
      (j : ℕ)
      → j < p.bits
      → get q.bitmap j ≡ (if leb a j && ltb j (a + n) then true else get p.bitmap j)
  pub once : (j : ℕ) → refcount q j ≡ (if leb a j && ltb j (a + n) then 1 else refcount p j)
  pub memory : q.free_memory + 4096 * n ≡ p.free_memory

-- A frame is free or used.
pub Claimed-IsPmm : (p q : Pmm) (a n : ℕ) → Claimed p q a n → IsPmm p → IsPmm q
Claimed-IsPmm p q a n c h = record {
  size = cc (c.size, c.bits, h.size);
  buffer = c.buffer;
  counts = cc (c.counts, c.bits, h.counts);
  small = omega (arith, c.bits, h.small);
  unused = λ i lt e.
      let lt' : i < p.bits = omega (arith, c.bits) in
      ground (arith, c.used i lt', c.once i, h.unused i lt', e);
  memory = rw c.bits (
      ground (
        arith,
        c.memory,
        h.memory,
        c.inside,
        clear_count-mark (get p.bitmap) (get q.bitmap) a (a + n) p.bits (omega arith) c.free c.used,
      ));
}

-- There is as much free memory as the free frames hold.
pub Claimed-room :
    (p : Pmm) (a n : ℕ)
    → IsPmm p
    → IsClearTo (get p.bitmap) a (a + n)
    → a + n ≤ p.bits
    → 4096 * n ≤ p.free_memory
Claimed-room p a n h clear le = ground (
  arith,
  h.memory,
  clear_count-mark (get p.bitmap) (λ j. if leb a j && ltb j (a + n) then true else get p.bitmap j) a
      (a + n) p.bits (omega arith) clear (λ j lt. refl),
)

pub memory_small : (p : Pmm) → IsPmm p → p.free_memory < 2 ^ 64
memory_small p h = omega (arith, h.memory, h.small, clear_count-le (get p.bitmap) p.bits)

pub Claimed-none : (p : Pmm) → IsPmm p → Claimed p p 0 0
Claimed-none p h = record {
  free = λ j a b. absurd (omega arith);
  inside = omega arith;
  bits = refl;
  size = refl;
  buffer = h.buffer;
  counts = refl;
  used = λ j lt. ground arith;
  once = λ j. ground arith;
  memory = omega arith;
}

-- One count.
pub refcount-set :
    (l : List ℕ) (i j v : ℕ)
    → i < length l
    → get_or (set l i v) j 0 ≡ (if i == j then v else get_or l j 0)
refcount-set l i j v lt = ground (arith, get_or-set_self l i v 0 lt, get_or-set_ne l i j v 0)
