-- ===== src/Memory/Pmm/Frames.antt =====
-- src/mm/pmm.cpp: what `pmm_alloc_frames` hands out.
use uni_os.Prelude.{
  ℕ, zero, suc, ◌+◌, ◌-◌, ◌*◌, ◌/◌, ◌^◌, ◌<◌, ◌≤◌, ◌≡◌, ◌⊎◌, refl, Bool, true, false, ◌&&◌, ◌||◌,
  arith, ltb, leb, ◌==◌, if◌then◌else◌, Bool-cases, inl, inr, List, length, get_or, set, length-set,
  Option, none, some,
}
use uni_os.Memory.Bitmap.{Bitmap, get, set_range}
use uni_os.Memory.Bitmap.Range.{set_range-IsRange}
use uni_os.Memory.Bitmap.Sequence.{find_last_free_sequence}
use uni_os.Memory.Bitmap.Sequence.Last.{IsClearTo, NoRun, IsLast, find_last_free_sequence-IsLast}
use uni_os.Memory.Pmm.{Pmm, frame_size, set_ones, take_frames, pmm_alloc_frames}
use uni_os.Memory.Pmm.Claim.{IsPmm, Claimed, Claimed-room, memory_small, refcount-set}
use uni_os.Memory.Pmm.Take.{less_memory-sub}

length-set_ones : (n i : ℕ) (l : List ℕ) → length (set_ones n i l) ≡ length l
unfolding set_ones
length-set_ones zero i l = refl
length-set_ones (suc n) i l = cc (length-set l i 1, length-set_ones n (i + 1) (set l i 1))

get_or-set_ones :
    (n i : ℕ) (l : List ℕ) (j : ℕ)
    → i + n ≤ length l
    → get_or (set_ones n i l) j 0 ≡ (if leb i j && ltb j (i + n) then 1 else get_or l j 0)
unfolding set_ones
get_or-set_ones zero i l j le = ground arith
get_or-set_ones (suc n) i l j le = ground (
  arith,
  refcount-set l i j 1 (omega arith),
  get_or-set_ones n (i + 1) (set l i 1) j (omega (arith, length-set l i 1)),
)

size-set_range :
    (b : Bitmap) (start count : ℕ) (value : Bool) → (set_range b start count value).size ≡ b.size
unfolding set_range
size-set_range b start count value = ground arith

pub get-hint : (b : Bitmap) (hint j : ℕ) → get (record b { hint = hint }) j ≡ get b j
unfolding get
get-hint b hint j = refl

take_run :
    (p : Pmm) (i count free_memory hint : ℕ)
    → IsPmm p
    → IsClearTo (get p.bitmap) i (i + count)
    → i + count ≤ p.bits
    → free_memory ≡ p.free_memory - 4096 * count
    → Claimed p
        (record p {
          bitmap = record (set_range p.bitmap i count true) { hint = hint };
          refcounts = set_ones count i p.refcounts;
          free_memory = free_memory;
        })
        i
        count
take_run p i count free_memory hint h clear le e =
    let b = set_range p.bitmap i count true in
    let s = size-set_range p.bitmap i count true in
    let (bytes, written) =
      set_range-IsRange p.bitmap i count true h.buffer (omega (arith, h.size, h.small))
        (omega (arith, h.small)) in
    record {
      free = clear;
      inside = le;
      bits = refl;
      size = s;
      buffer = rw s bytes;
      counts = length-set_ones count i p.refcounts;
      used = λ j lt. ground (arith, get-hint b hint j, written j, h.size);
      once = λ j. get_or-set_ones count i p.refcounts j (omega (arith, h.counts));
      memory = omega (arith, e, Claimed-room p i count h clear le);
    }

-- What an allocation of frames in a row leads to. The last place where they are free is taken, if
-- the frames do not go past the highest page.
abbrev pub IsRun : Pmm → ℕ → ℕ × Pmm → Type 0
IsRun p count (address, q) =
    ((address ≡ 0)
      × (q ≡ p)
      × (NoRun (get p.bitmap) count p.bits 0
          ⊎ ((i : ℕ) × IsLast (get p.bitmap) count p.bits (some i)
              × (p.highest_page < i + count - 1))))
    ⊎ ((i : ℕ) × (address ≡ i * 4096)
        × IsLast (get p.bitmap) count p.bits (some i)
        × Claimed p q i count
        × (i + count - 1 ≤ p.highest_page))

take_frames-IsRun :
    (p : Pmm) (count : ℕ) (o : Option ℕ)
    → IsPmm p
    → 0 < count
    → IsLast (get p.bitmap) count p.bits o
    → IsRun p count (take_frames p count o)
unfolding take_frames
take_frames-IsRun p count none h pos f = inl (refl, refl, inl f)
take_frames-IsRun p count (some i) h pos f =
    let room = Claimed-room p i count h f.1 f.0 in
    elim (Bool-cases (leb count (p.bits - i) && leb (i + count - 1) p.highest_page)) [
      | inr high ↦ rw high (inl (refl, refl, inr (i, f, ground (arith, f.0))))
      | inl low ↦ rw low (
          inr (
            i,
            refl,
            f,
            take_run p i count _ _ h f.1 f.0
                (less_memory-sub p.free_memory (4096 * count) room (memory_small p h)),
            ground arith,
          ))
    ]

-- From a state that meets the invariant, and for more than one frame, pmm_alloc_frames finds the last
-- place where that many frames in a row are free. If there is none, or if they go past the highest
-- page, the address is 0 and the state is the old one. Otherwise the address is that of the first of
-- them, they are now used, each with the count 1, the free memory is less by their size, and no other
-- frame is changed.
pub pmm_alloc_frames-IsRun :
    (count : ℕ) (p : Pmm) → 1 < count → IsPmm p → IsRun p count (pmm_alloc_frames count p)
unfolding pmm_alloc_frames find_last_free_sequence
pmm_alloc_frames-IsRun count p more h =
    let one : (count == 1) ≡ false = ground arith in
    elim (Bool-cases (count == 0 || ltb ((2 ^ 64 - 1) / frame_size) count)) [
      | inl big ↦ rw big (inl (refl, refl, inl (λ k le fits. absurd (ground (arith, h.small)))))
      | inr fine ↦
          rw (fine, one)
            (take_frames-IsRun p count (find_last_free_sequence p.bitmap count) h (omega arith)
              found)
    ]
  where
    found : IsLast (get p.bitmap) count p.bits (find_last_free_sequence p.bitmap count)
    found = elim (Bool-cases (leb count p.bits)) [
      | inl fits ↦ rw⁻¹ h.size (
          find_last_free_sequence-IsLast p.bitmap count h.buffer (omega arith)
            (ground (arith, h.size)))
      | inr short ↦
          let e : (count == 0 || ltb p.bitmap.size count) ≡ true = ground (arith, h.size) in
          rw e (λ k le fits. absurd (ground arith))
    ]
