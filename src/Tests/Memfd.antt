-- ===== src/Tests/Memfd.antt =====
-- Runs of src/kernel/fs/memfd.cpp.
use uni_os.Prelude.{ℕ, ◌≡◌, refl, true, List, [], ◌∷◌, arith}
use uni_os.Fs.Memfd.{
  MemFd, memfd_create, page_bytes, read_loop, add_pages, write_loop, write_grown, memfd_vfs_read,
  memfd_vfs_write, memfd_vfs_truncate,
}
use uni_os.Fs.Memfd.Refine.{
  IsMemFd, IsWrite, memfd_vfs_write-IsWrite, memfd_vfs_read-memfd_vfs_write,
}
use uni_os.Fs.Memfd.Truncate.{IsTruncate, memfd_vfs_truncate-IsTruncate}

memfd_create-IsMemFd : IsMemFd memfd_create
memfd_create-IsMemFd = record { room = omega arith; few = omega arith }

abbrev bytes : List ℕ
bytes = 65 ∷ 66 ∷ 67 ∷ []

-- Two bytes on the first page and one on the second.
abbrev written : MemFd
written = (memfd_vfs_write 2 bytes 4094 memfd_create).1

written-IsMemFd : IsMemFd written
written-IsMemFd =
    (memfd_vfs_write-IsWrite 2 bytes 4094 memfd_create memfd_create-IsMemFd (omega arith)).0

-- A file that is cut to one byte and made longer again shows its old bytes.
stale :
    memfd_vfs_read 3 0
      (memfd_vfs_truncate 9 3
        (memfd_vfs_truncate 9 1 (memfd_vfs_write 9 bytes 0 memfd_create).1).1).1
    ≡ bytes
unfolding memfd_vfs_read memfd_vfs_write memfd_vfs_truncate write_grown write_loop read_loop
    add_pages page_bytes
stale = refl

memfd_vfs_write-IsWrite_example :
    IsWrite 2 bytes 4094 memfd_create (memfd_vfs_write 2 bytes 4094 memfd_create)
memfd_vfs_write-IsWrite_example =
    memfd_vfs_write-IsWrite 2 bytes 4094 memfd_create memfd_create-IsMemFd (omega arith)

memfd_vfs_read-memfd_vfs_write_example :
    let (done, m') = memfd_vfs_write 2 bytes 4094 memfd_create in
    (done ≡ true) × (memfd_vfs_read 3 4094 m' ≡ bytes)
memfd_vfs_read-memfd_vfs_write_example =
    memfd_vfs_read-memfd_vfs_write 2 bytes 4094 memfd_create memfd_create-IsMemFd (omega arith)
      (omega arith)

memfd_vfs_truncate-IsTruncate_example :
    IsTruncate 3 10000 written (memfd_vfs_truncate 3 10000 written)
memfd_vfs_truncate-IsTruncate_example =
    memfd_vfs_truncate-IsTruncate 3 10000 written written-IsMemFd
