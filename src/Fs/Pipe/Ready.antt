-- ===== src/Fs/Pipe/Ready.antt =====
-- src/fs/pipe.cpp: what `pipe_is_ready` tells a poller.
use uni_os.Prelude.{ℕ, ◌≡◌, ◌≢◌, ◌↔◌, true, false, some, List, arith, bit_or}
use uni_os.Prelude.Int.{ℤ}
use uni_os.Fs.Pipe.{
  Pipe, wait, open_pipe, read_pass, write_pass, pipe_read, pipe_write, pipe_get_vnode,
  pipe_vfs_read, pipe_vfs_write, occurred, pipe_is_ready, epoll_in, epoll_out, epoll_err,
}

-- At the read end of an open pipe EPOLLIN is reported exactly when a read does not sleep, and at
-- the write end EPOLLOUT or EPOLLERR exactly when a write does not.
pub pipe_is_ready_iff :
    (t : List Pipe) (id : ℤ) (n : ℕ) (src : List ℕ) {p : Pipe}
    → open_pipe t id ≡ some p
    → (((pipe_is_ready t (pipe_get_vnode id false) epoll_in).0 ≡ true)
        ↔ ((pipe_vfs_read t (pipe_get_vnode id false) n).0 ≢ wait))
      × (((pipe_is_ready t (pipe_get_vnode id true) (bit_or epoll_out epoll_err)).0 ≡ true)
          ↔ ((pipe_vfs_write t (pipe_get_vnode id true) src).0 ≢ wait))
unfolding pipe_is_ready occurred pipe_vfs_read pipe_vfs_write pipe_get_vnode pipe_read pipe_write
    read_pass write_pass
pipe_is_ready_iff t id n src h = ground arith
