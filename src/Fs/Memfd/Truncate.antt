-- ===== src/Fs/Memfd/Truncate.antt =====
-- src/kernel/fs/memfd.cpp: a file in memory that is made longer or shorter.
use uni_os.Prelude.{
  ℕ, zero, suc, ◌+◌, ◌-◌, ◌*◌, ◌/◌, ◌%◌, ◌<◌, ◌≤◌, ◌≡◌, ◌⊎◌, inl, inr, refl, ap, arith, Bool, true,
  false, Bool-cases, List, [], ◌∷◌, ltb, leb, if◌then◌else◌, length, length-take, take, get_or,
}
use uni_os.Fs.Memfd.{MemFd, Page, zero_page, add_pages, resized, memfd_vfs_truncate}
use uni_os.Fs.Memfd.Pages.{byte_of, byte_of-add_pages, length-add_pages}
use uni_os.Fs.Memfd.Refine.{IsMemFd}

get_or-take :
    (n : ℕ) (pages : List Page) (k : ℕ)
    → k < n
    → get_or (take n pages) k zero_page ≡ get_or pages k zero_page
get_or-take zero pages k lt = absurd (omega arith)
get_or-take (suc n) [] k lt = refl
get_or-take (suc n) (p ∷ pages) zero lt = refl
get_or-take (suc n) (p ∷ pages) (suc k) lt = get_or-take n pages k (omega arith)

-- What a change of the size leads to: the file has the size and its bytes below that; or it cannot be
-- that long or there are too few frames, and then no byte and no size is changed.
abbrev pub IsTruncate : (frames size : ℕ) → MemFd → Bool × MemFd → Type 0
IsTruncate frames size m (done, m') =
    IsMemFd m'
    × (((done ≡ true)
          × (m'.size ≡ size)
          × ((a : ℕ) → a < size → byte_of m'.pages a ≡ byte_of m.pages a))
        ⊎ ((done ≡ false)
            × (m'.size ≡ m.size)
            × ((a : ℕ) → byte_of m'.pages a ≡ byte_of m.pages a)
            × ((4096 * 4096 < size) ⊎ (4096 * (length m.pages + frames) < size))))

resized-IsTruncate :
    (frames size : ℕ) (m : MemFd) (r : Bool × List Page)
    → IsMemFd m
    → size ≤ 4096 * 4096
    → ((a : ℕ) → byte_of r.1 a ≡ byte_of m.pages a)
    → (r.0 ≡ leb ((size + 4095) / 4096 - length m.pages) frames)
    → (length r.1
        ≡ length m.pages + (if r.0 then (size + 4095) / 4096 - length m.pages else frames))
    → IsTruncate frames size m (resized size m r)
resized-IsTruncate frames size m (false, pages) h short same e l = (
  record { room = omega (arith, h.room); few = ground (arith, h.few) },
  inr (refl, refl, same, ground arith),
)
resized-IsTruncate frames size m (true, pages) h short same e l =
    (record { room = ground arith; few = omega (arith, h.few) }, inl (refl, refl, λ a lt. same a))

-- From a file within its invariant a change of its size comes to one. Either it succeeds, and then the
-- file has the new size and below it the bytes that it had, zeros where it had no page; or it fails,
-- and then no byte and no size is changed, and either the size is above 16 MiB or the pages and the
-- free frames do not reach it.
pub memfd_vfs_truncate-IsTruncate :
    (frames size : ℕ) (m : MemFd)
    → IsMemFd m
    → IsTruncate frames size m (memfd_vfs_truncate frames size m)
unfolding memfd_vfs_truncate
memfd_vfs_truncate-IsTruncate frames size m h =
    let needed = (size + 4095) / 4096 in
    let missing = needed - length m.pages in
    let added = length-add_pages missing frames m.pages in
    elim (Bool-cases (ltb (4096 * 4096) size)) [
      | inl long ↦ rw long (h, inr (refl, refl, (λ a. refl), inl (ground arith)))
      | inr short ↦ elim (Bool-cases (ltb (length m.pages) needed)) [
        | inl grow ↦
            rw (short, grow)
              (resized-IsTruncate frames size m (add_pages missing frames m.pages) h (ground arith)
                (byte_of-add_pages missing frames m.pages) added.0 added.1)
        | inr shrink ↦
            let l = length-take needed m.pages in
            rw (short, shrink)
              (
                record { room = ground (arith, l); few = ground (arith, l, h.few) },
                inl (
                  refl,
                  refl,
                  λ a lt.
                      ap (λ (p : Page). p (a % 4096))
                        (get_or-take needed m.pages (a / 4096) (omega arith)),
                ),
              )
      ]
    ]
