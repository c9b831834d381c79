-- ===== src/Tests/Pipe.antt =====
-- The pipes of src/fs/pipe.cpp on concrete bytes.
use uni_os.Prelude.{
  ℕ, ◌≡◌, ◌≢◌, ◌↔◌, refl, true, false, List, [], ◌∷◌, ◌++◌, arith, bit_or, length-replicate,
}
use uni_os.Prelude.Int.{pos}
use uni_os.Fs.Pipe.{
  Pipe, wait, unused, fresh, read_pass, write_pass, copy_in, copy_out, close_write_end,
  pipe_get_vnode, pipe_vfs_read, pipe_vfs_write, pipe_is_ready, epoll_in, epoll_out, epoll_err,
  pipe_buffer_size,
}
use uni_os.Fs.Pipe.Stream.{IsValid, contents}
use uni_os.Fs.Pipe.Fifo.{Call, read, write, close_write, run, run_fifo}
use uni_os.Fs.Pipe.Ready.{pipe_is_ready_iff}

abbrev opened : Pipe
opened = fresh unused

opened-IsValid : IsValid opened
opened-IsValid = record {
  storage = length-replicate {A = ℕ} pipe_buffer_size 0;
  read_in = omega arith;
  count_in = omega arith;
  write_at = omega arith;
}

-- Three bytes go in, two come out, one more and the end of the file follow.
abbrev script : List Call
script = write (7 ∷ 8 ∷ 9 ∷ []) ∷ read 2 ∷ close_write ∷ read 2 ∷ read 2 ∷ []

script_runs : (run opened script).0 ≡ 7 ∷ 8 ∷ 9 ∷ []
unfolding run read_pass write_pass copy_in copy_out close_write_end
script_runs = refl

abbrev table : List Pipe
table = opened ∷ []

run_fifo_example :
    let (out, taken, p') = run opened script in contents opened ++ taken ≡ out ++ contents p'
run_fifo_example = run_fifo opened script opened-IsValid

pipe_is_ready_iff_example :
    (((pipe_is_ready table (pipe_get_vnode (pos 0) false) epoll_in).0 ≡ true)
      ↔ ((pipe_vfs_read table (pipe_get_vnode (pos 0) false) 4).0 ≢ wait))
    × (((pipe_is_ready table (pipe_get_vnode (pos 0) true) (bit_or epoll_out epoll_err)).0 ≡ true)
        ↔ ((pipe_vfs_write table (pipe_get_vnode (pos 0) true) (5 ∷ [])).0 ≢ wait))
pipe_is_ready_iff_example = pipe_is_ready_iff table (pos 0) 4 (5 ∷ []) {p = opened} refl
