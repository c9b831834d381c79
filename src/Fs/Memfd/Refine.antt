-- ===== src/Fs/Memfd/Refine.antt =====
-- src/kernel/fs/memfd.cpp: a file in memory as an array of bytes.
use uni_os.Prelude.{
  ℕ, suc, ◌+◌, ◌-◌, ◌*◌, ◌/◌, ◌%◌, ◌^◌, ◌<◌, ◌≤◌, ◌≡◌, ◌⊎◌, inl, inr, refl, ap, ◌∙◌, arith, Bool,
  true, false, Bool-cases, List, [], ◌∷◌, ltb, leb, if◌then◌else◌, length, get_or,
}
use uni_os.Fs.Memfd.{
  MemFd, Page, page_bytes, add_pages, write_grown, memfd_vfs_read, memfd_vfs_write,
}
use uni_os.Fs.Memfd.Pages.{byte_of, byte_of-add_pages, length-add_pages, page_bytes-congr}
use uni_os.Fs.Memfd.Loops.{read_loop-page_bytes, overlay, write_loop-overlay}

-- Every byte of the file has a page, and there are no more pages than the array has places.
pub record IsMemFd (m : MemFd) : Type 0 where
  pub room : m.size ≤ 4096 * length m.pages
  pub few : length m.pages ≤ 4096

-- How many bytes a read gives.
abbrev pub read_length : (size offset : ℕ) → MemFd → ℕ
read_length size offset m = if ltb (m.size - offset) size then m.size - offset else size

-- A read of a file within its invariant, for a range that ends below 2^64, gives the bytes of the file
-- from the offset on, as many as were asked for or as there are up to the end.
pub memfd_vfs_read-page_bytes :
    (size offset : ℕ) (m : MemFd)
    → IsMemFd m
    → offset + size < 2 ^ 64
    → memfd_vfs_read size offset m ≡ page_bytes (byte_of m.pages) offset (read_length size offset m)
unfolding memfd_vfs_read
memfd_vfs_read-page_bytes size offset m h lt = elim (Bool-cases (leb m.size offset)) [
  | inl past ↦
      let z : read_length size offset m ≡ 0 = ground arith in
      rw (past, z) (unfold page_bytes in refl)
  | inr inside ↦
      let to_read = if ltb m.size ((offset + size) % 2 ^ 64) then m.size - offset else size in
      let e : to_read ≡ read_length size offset m = ground arith in
      let first : offset + 0 ≡ offset = omega arith in
      let all : to_read - 0 ≡ to_read = omega arith in
      let loop =
        read_loop-page_bytes to_read m.pages offset to_read 0 (omega arith) (omega arith)
          (ground (arith, h.room, h.few)) in
      rw inside (
        loop
        ∙ ap (λ i. page_bytes (byte_of m.pages) i (to_read - 0)) first
        ∙ ap (page_bytes (byte_of m.pages) offset) (all ∙ e))
]

-- What a write leads to: the bytes are in the file, which ends behind them at least; or the range goes
-- past the limit of the size or there are too few frames, and then no byte and no size is changed.
abbrev pub IsWrite : (frames : ℕ) → List ℕ → (offset : ℕ) → MemFd → Bool × MemFd → Type 0
IsWrite frames buf offset m (done, m') =
    IsMemFd m'
    × (((done ≡ true)
          × (m'.size ≡ (if ltb m.size (offset + length buf) then offset + length buf else m.size))
          × ((a : ℕ) → byte_of m'.pages a ≡ overlay buf offset 0 (byte_of m.pages) a))
        ⊎ ((done ≡ false)
            × (m'.size ≡ m.size)
            × ((a : ℕ) → byte_of m'.pages a ≡ byte_of m.pages a)
            × ((4096 * 4096 < offset + length buf)
                ⊎ (4096 * (length m.pages + frames) < offset + length buf))))

write_grown-IsWrite :
    (frames : ℕ) (buf : List ℕ) (offset : ℕ) (m : MemFd) (r : Bool × List Page)
    → IsMemFd m
    → offset + length buf ≤ 4096 * 4096
    → ((a : ℕ) → byte_of r.1 a ≡ byte_of m.pages a)
    → (r.0 ≡ leb ((offset + length buf + 4095) / 4096 - length m.pages) frames)
    → (length r.1
        ≡ length m.pages
          + (if r.0 then (offset + length buf + 4095) / 4096 - length m.pages else frames))
    → IsWrite frames buf offset m (write_grown buf offset (offset + length buf) m r)
unfolding write_grown
write_grown-IsWrite frames buf offset m (false, pages) h short same e l = (
  record { room = omega (arith, h.room); few = ground (arith, h.few) },
  inr (refl, refl, same, ground arith),
)
write_grown-IsWrite frames buf offset m (true, pages) h short same e l =
    let (l', bytes) =
      write_loop-overlay (length buf) buf offset 0 pages (omega arith) (omega arith) (omega arith)
        (omega arith) in
    (
      record { room = ground (arith, h.room); few = omega (arith, h.few) },
      inl (refl, refl, λ a. ground (arith, bytes a, same a)),
    )

-- From a file within its invariant, and with a range that ends below 2^64, a write comes to one. Either
-- it succeeds, and then the file has the bytes of the buffer from the offset on, is as long as before
-- or up to their end, and every other byte is as it was; or it fails, and then no byte and no size is
-- changed, and either the range ends past 16 MiB or the pages and the free frames do not reach its end.
pub memfd_vfs_write-IsWrite :
    (frames : ℕ) (buf : List ℕ) (offset : ℕ) (m : MemFd)
    → IsMemFd m
    → offset + length buf < 2 ^ 64
    → IsWrite frames buf offset m (memfd_vfs_write frames buf offset m)
unfolding memfd_vfs_write
memfd_vfs_write-IsWrite frames buf offset m h lt =
    let nowrap : (offset + length buf) % 2 ^ 64 ≡ offset + length buf = omega arith in
    let missing = (offset + length buf + 4095) / 4096 - length m.pages in
    let added = length-add_pages missing frames m.pages in
    elim (Bool-cases (ltb (4096 * 4096) (offset + length buf))) [
      | inl long ↦ rw (nowrap, long) (h, inr (refl, refl, (λ a. refl), inl (ground arith)))
      | inr short ↦
          rw (nowrap, short)
            (write_grown-IsWrite frames buf offset m (add_pages missing frames m.pages) h
              (ground arith) (byte_of-add_pages missing frames m.pages) added.0 added.1)
    ]

page_bytes_self : (buf : List ℕ) → page_bytes (λ i. get_or buf i 0) 0 (length buf) ≡ buf
unfolding page_bytes
page_bytes_self [] = refl
page_bytes_self (b ∷ buf) =
    ap (λ l. b ∷ l)
      (page_bytes-congr (λ i. get_or (b ∷ buf) i 0) (λ i. get_or buf i 0) 1 0 (length buf)
          (λ k lt.
            let one : 1 + k ≡ suc k = omega arith in
            let start : 0 + k ≡ k = omega arith in rw (one, start) refl)
        ∙ page_bytes_self buf)

-- In a file within its invariant a write succeeds whose range ends at 16 MiB at most and for which the
-- pages and the free frames suffice, and a read of that range then gives the bytes that were written.
pub memfd_vfs_read-memfd_vfs_write :
    (frames : ℕ) (buf : List ℕ) (offset : ℕ) (m : MemFd)
    → IsMemFd m
    → offset + length buf ≤ 4096 * 4096
    → offset + length buf ≤ 4096 * (length m.pages + frames)
    → let (done, m') = memfd_vfs_write frames buf offset m in
      (done ≡ true) × (memfd_vfs_read (length buf) offset m' ≡ buf)
memfd_vfs_read-memfd_vfs_write frames buf offset m h short enough =
    let (h', w) = memfd_vfs_write-IsWrite frames buf offset m h (omega arith) in
    let m' = (memfd_vfs_write frames buf offset m).1 in
    elim w [
      | inr (failed, size, bytes, why) ↦ absurd (ground arith)
      | inl (yes', size, bytes) ↦
          let n : read_length (length buf) offset m' ≡ length buf = ground (arith, size) in
          (
            yes',
            memfd_vfs_read-page_bytes (length buf) offset m' h' (omega arith)
                ∙ ap (page_bytes (byte_of m'.pages) offset) n
                ∙ page_bytes-congr (byte_of m'.pages) (λ i. get_or buf i 0) offset 0 (length buf)
                    (λ k lt.
                      let d : offset + k - offset ≡ 0 + k = omega arith in
                      let e : get_or buf (offset + k - offset) 0 ≡ get_or buf (0 + k) 0 =
                        ap (λ i. get_or buf i 0) d in
                      ground (arith, bytes (offset + k), e))
                ∙ page_bytes_self buf,
          )
    ]
