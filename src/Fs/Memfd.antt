-- ===== src/Fs/Memfd.antt =====
-- src/kernel/fs/memfd.cpp: files in memory. A page is the function from a place in it to its byte, and
-- the array of pages is the list of those in use. How many more frames pmm_alloc_frame has to give is
-- an argument. The node and the buffer are not null.
pub mod Pages
pub mod Loops
pub mod Refine
pub mod Truncate
use uni_os.Prelude.{
  ℕ, zero, suc, ◌+◌, ◌-◌, ◌*◌, ◌/◌, ◌%◌, ◌^◌, ◌<◌, Bool, true, false, not, ◌&&◌, ◌||◌, Option, none,
  some, List, [], ◌∷◌, ◌++◌, ltb, leb, ◌==◌, if◌then◌else◌, length, get_or, set, take,
}

abbrev pub memfd_max_pages : ℕ
memfd_max_pages = 4096

abbrev pub Page : Type 0
Page = ℕ → ℕ

abbrev pub zero_page : Page
zero_page i = 0

pub record MemFd : Type 0 where
  pub pages : List Page
  pub size : ℕ

abbrev pub memfd_create : MemFd
memfd_create = record { pages = []; size = 0 }

-- `n` bytes from the place `i` on.
unfoldable pub page_bytes : (ℕ → ℕ) → (i n : ℕ) → List ℕ
page_bytes page i zero = []
page_bytes page i (suc n) = page i ∷ page_bytes page (i + 1) n

abbrev pub min_chunk : (page_off left : ℕ) → ℕ
min_chunk page_off left = let chunk = 4096 - page_off in if ltb left chunk then left else chunk

-- `while (read_bytes < to_read)`, on the number of bytes that are left. A page that is not in use reads
-- as zeros.
unfoldable pub read_loop : ℕ → List Page → (offset to_read read_bytes : ℕ) → List ℕ
read_loop zero pages offset to_read read_bytes = []
read_loop (suc fuel) pages offset to_read read_bytes =
    let curr_offset = (offset + read_bytes) % 2 ^ 64 in
    let page_off = curr_offset % 4096 in
    let chunk = min_chunk page_off (to_read - read_bytes) in
    let rest = read_loop fuel pages offset to_read (read_bytes + chunk) in
    if ltb read_bytes to_read
    then page_bytes (get_or pages (curr_offset / 4096) zero_page) page_off chunk ++ rest
    else []

-- The bytes that come to the buffer, as many as the answer says.
unfoldable pub memfd_vfs_read : (size offset : ℕ) → MemFd → List ℕ
memfd_vfs_read size offset m =
    if leb m.size offset
    then []
    else let to_read = if ltb m.size ((offset + size) % 2 ^ 64) then m.size - offset else size in
      read_loop to_read m.pages offset to_read 0

-- `while (page_count < needed_pages)`, with the number of rounds that are left: whether it comes to
-- its end.
unfoldable pub add_pages : (missing frames : ℕ) → List Page → Bool × List Page
add_pages zero frames pages = (true, pages)
add_pages (suc missing) zero pages = (false, pages)
add_pages (suc missing) (suc frames) pages = add_pages missing frames (pages ++ zero_page ∷ [])

-- `memcpy` of `n` bytes of `buf` from `from` on to the place `page_off` of a page.
abbrev pub copy_to_page : (page_off from n : ℕ) → List ℕ → Page → Page
copy_to_page page_off from n buf page i =
    if leb page_off i && ltb i (page_off + n) then get_or buf (from + (i - page_off)) 0 else page i

-- `while (written_bytes < size)`, on the number of bytes that are left.
unfoldable pub write_loop : ℕ → List ℕ → (offset written_bytes : ℕ) → List Page → List Page
write_loop zero buf offset written_bytes pages = pages
write_loop (suc fuel) buf offset written_bytes pages =
    let size = length buf in
    let curr_offset = (offset + written_bytes) % 2 ^ 64 in
    let page_idx = curr_offset / 4096 in
    let page_off = curr_offset % 4096 in
    let chunk = min_chunk page_off (size - written_bytes) in
    let page = copy_to_page page_off written_bytes chunk buf (get_or pages page_idx zero_page) in
    let rest = write_loop fuel buf offset (written_bytes + chunk) (set pages page_idx page) in
    if ltb written_bytes size then rest else pages

-- What follows the allocation: a file that is too small grows.
unfoldable pub write_grown :
    List ℕ → (offset end_offset : ℕ) → MemFd → Bool × List Page → Bool × MemFd
write_grown buf offset end_offset m (false, pages) = (false, record m { pages = pages })
write_grown buf offset end_offset m (true, pages) = (
  true,
  record {
    pages = write_loop (length buf) buf offset 0 pages;
    size = if ltb m.size end_offset then end_offset else m.size;
  },
)

-- `false` for the answer -1; otherwise all bytes were written.
unfoldable pub memfd_vfs_write : (frames : ℕ) → List ℕ → (offset : ℕ) → MemFd → Bool × MemFd
memfd_vfs_write frames buf offset m =
    let end_offset = (offset + length buf) % 2 ^ 64 in
    let needed_pages = (end_offset + 4095) / 4096 in
    if ltb (memfd_max_pages * 4096) end_offset
    then (false, m)
    else write_grown buf offset end_offset m
        (add_pages (needed_pages - length m.pages) frames m.pages)

abbrev pub resized : ℕ → MemFd → Bool × List Page → Bool × MemFd
resized size m (false, pages) = (false, record m { pages = pages })
resized size m (true, pages) = (true, record { pages = pages; size = size })

unfoldable pub memfd_vfs_truncate : (frames size : ℕ) → MemFd → Bool × MemFd
memfd_vfs_truncate frames size m =
    let needed_pages = (size + 4095) / 4096 in
    if ltb (memfd_max_pages * 4096) size
    then (false, m)
    else if ltb (length m.pages) needed_pages
    then resized size m (add_pages (needed_pages - length m.pages) frames m.pages)
    else (true, record { pages = take needed_pages m.pages; size = size })

abbrev pub got_page : ℕ → MemFd → Bool × List Page → Option Page × MemFd
got_page page_idx m (false, pages) = (none, record m { pages = pages })
got_page page_idx m (true, pages) =
    (some (get_or pages page_idx zero_page), record m { pages = pages })

unfoldable pub memfd_get_page : (frames page_idx : ℕ) → MemFd → Option Page × MemFd
memfd_get_page frames page_idx m =
    if leb memfd_max_pages page_idx
    then (none, m)
    else got_page page_idx m (add_pages (page_idx + 1 - length m.pages) frames m.pages)
