-- ===== src/Fs/Pipe.antt =====
-- src/fs/pipe.cpp and include/kernel/fs/pipe.h: the kernel's table of pipes.
-- A call holds the pipe's lock from its start to its return, except where it sleeps: `read_pass` and
-- `write_pass` are one round of the loop `while (true)` of `pipe_read` and `pipe_write`, and `wait`
-- says that the round ends in `scheduler_wait`, after which the loop goes round again in the state
-- that other calls have left. Waking the sleepers and the debug counters change no pipe.
pub mod Fifo
pub mod Ready
pub mod Stream
pub mod Table
use uni_os.Prelude.{
  ℕ, zero, suc, ◌+◌, ◌-◌, ◌%◌, ◌≤◌, ◌<◌, bit_and, bit_or, Bool, true, false, not, ◌&&◌, ◌||◌,
  Option, none, some, List, [], ◌∷◌, ltb, leb, ◌==◌, if◌then◌else◌, length, get_elem?, get_or, set,
  take, replicate,
}
use uni_os.Prelude.Int.{ℤ, pos, negsuc}

abbrev pub pipe_buffer_size : ℕ
pipe_buffer_size = 4096

abbrev pub max_pipes : ℕ
max_pipes = 8

pub record Pipe : Type 0 where
  pub in_use : Bool
  pub buffer : List ℕ
  pub read_pos : ℕ
  pub write_pos : ℕ
  pub count : ℕ
  pub write_closed : Bool
  pub read_closed : Bool

-- How a round of a call ends: with the value returned, or asleep on the pipe's queue.
pub data Outcome : Type 0 where
  returned : ℤ → Outcome
  wait : Outcome

-- `for (i = 0; i < to_read; i++)`: the bytes that go to the caller, and the pipe.
unfoldable pub copy_out : ℕ → Pipe → List ℕ × Pipe
copy_out zero p = ([], p)
copy_out (suc n) p =
    let (bytes, p') = copy_out n (record p { read_pos = (p.read_pos + 1) % pipe_buffer_size }) in
    (get_or p.buffer p.read_pos 0 ∷ bytes, p')

-- `for (i = 0; i < to_write; i++)` over the bytes to be written.
unfoldable pub copy_in : List ℕ → Pipe → Pipe
copy_in [] p = p
copy_in (b ∷ bytes) p = copy_in bytes (record p {
  buffer = set p.buffer p.write_pos b;
  write_pos = (p.write_pos + 1) % pipe_buffer_size;
})

unfoldable pub read_pass : Pipe → ℕ → Outcome × List ℕ × Pipe
read_pass p count =
    if ltb 0 p.count
    then (let to_read = if ltb count p.count then count else p.count in
        let (bytes, p') = copy_out to_read p in
        (returned (pos to_read), bytes, record p' { count = p'.count - to_read }))
    else if p.write_closed
    then (returned (pos 0), [], p)
    else (wait, [], p)

-- `src` is the buffer of `count` bytes.
unfoldable pub write_pass : Pipe → List ℕ → Outcome × Pipe
write_pass p src =
    if p.read_closed
    then (returned (negsuc 0), p)
    else let space = pipe_buffer_size - p.count in
      if ltb 0 space
      then (let to_write = if ltb (length src) space then length src else space in
          let p' = copy_in (take to_write src) p in
          (returned (pos to_write), record p' { count = p'.count + to_write }))
      else (wait, p)

-- The entry that `pipes[pipe_id]` names, if the three tests at the start of a call pass. A table
-- has `max_pipes` entries.
abbrev pub open_pipe : List Pipe → ℤ → Option Pipe
open_pipe t (negsuc n) = none
open_pipe t (pos i) = elim (get_elem? t i) [
  | none ↦ none
  | some p ↦ if p.in_use then some p else none
]

abbrev pub set_pipe : List Pipe → ℤ → Pipe → List Pipe
set_pipe t (negsuc n) p = t
set_pipe t (pos i) p = set t i p

unfoldable pub pipe_read : List Pipe → ℤ → ℕ → Outcome × List ℕ × List Pipe
pipe_read t pipe_id count = elim (open_pipe t pipe_id) [
  | none ↦ (returned (negsuc 0), [], t)
  | some p ↦ let (o, bytes, p') = read_pass p count in (o, bytes, set_pipe t pipe_id p')
]

unfoldable pub pipe_write : List Pipe → ℤ → List ℕ → Outcome × List Pipe
pipe_write t pipe_id src = elim (open_pipe t pipe_id) [
  | none ↦ (returned (negsuc 0), t)
  | some p ↦ let (o, p') = write_pass p src in (o, set_pipe t pipe_id p')
]

-- `pipe_create` on a free entry. Its buffer keeps what it held.
abbrev pub fresh : Pipe → Pipe
fresh p = record p {
  in_use = true;
  read_pos = 0;
  write_pos = 0;
  count = 0;
  write_closed = false;
  read_closed = false;
}

-- `pipe_create` from index `i` on; -1 is `negsuc 0`.
unfoldable pub create_from : ℕ → List Pipe → ℤ × List Pipe
create_from i [] = (negsuc 0, [])
create_from i (p ∷ t) =
    let (id, t') = create_from (i + 1) t in if p.in_use then (id, p ∷ t') else (pos i, fresh p ∷ t)

-- `pipe_init` runs once, at the first call, on a table that is all zero; `initial_table` is its
-- result, and so the state before the first call.
unfoldable pub pipe_create : List Pipe → ℤ × List Pipe
unfolding create_from
pipe_create t = create_from 0 t

abbrev pub unused : Pipe
unused = record {
  in_use = false;
  buffer = replicate pipe_buffer_size 0;
  read_pos = 0;
  write_pos = 0;
  count = 0;
  write_closed = false;
  read_closed = false;
}

unfoldable pub initial_table : List Pipe
initial_table = replicate max_pipes unused

-- A close does not ask whether the pipe is in use.
unfoldable pub close_read_end : Pipe → Pipe
close_read_end p =
    if p.write_closed
    then record p { read_closed = true; in_use = false }
    else record p { read_closed = true }

unfoldable pub close_write_end : Pipe → Pipe
close_write_end p =
    if p.read_closed
    then record p { write_closed = true; in_use = false }
    else record p { write_closed = true }

abbrev pub update_pipe : List Pipe → ℤ → (Pipe → Pipe) → List Pipe
update_pipe t (negsuc n) f = t
update_pipe t (pos i) f = elim (get_elem? t i) [ none ↦ t | some p ↦ set t i (f p) ]

unfoldable pub pipe_close_read : List Pipe → ℤ → List Pipe
pipe_close_read t pipe_id = update_pipe t pipe_id close_read_end

unfoldable pub pipe_close_write : List Pipe → ℤ → List Pipe
pipe_close_write t pipe_id = update_pipe t pipe_id close_write_end

-- A node of the file system that stands for an end of a pipe: `inode_id` is 0 at the read end.
pub record PipeNode : Type 0 where
  pub inode_id : ℕ
  pub pipe_id : ℤ

unfoldable pub pipe_get_vnode : ℤ → Bool → PipeNode
pipe_get_vnode pipe_id is_write = record { inode_id = if is_write then 1 else 0; pipe_id = pipe_id }

unfoldable pub pipe_vfs_read : List Pipe → PipeNode → ℕ → Outcome × List ℕ × List Pipe
pipe_vfs_read t node size = pipe_read t node.pipe_id size

unfoldable pub pipe_vfs_write : List Pipe → PipeNode → List ℕ → Outcome × List Pipe
pipe_vfs_write t node buf = pipe_write t node.pipe_id buf

unfoldable pub pipe_vfs_close : List Pipe → PipeNode → List Pipe
pipe_vfs_close t node =
    if node.inode_id == 0 then pipe_close_read t node.pipe_id else pipe_close_write t node.pipe_id

abbrev pub epoll_in : ℕ
epoll_in = 1

abbrev pub epoll_out : ℕ
epoll_out = 2

abbrev pub epoll_err : ℕ
epoll_err = 4

abbrev pub epoll_hup : ℕ
epoll_hup = 8

-- The events that an end of a pipe shows.
unfoldable pub occurred : PipeNode → Pipe → ℕ
occurred node p =
    if node.inode_id == 0
    then (let readable = if ltb 0 p.count then epoll_in else 0 in
        if p.write_closed then bit_or readable (bit_or epoll_in epoll_hup) else readable)
    else let writable =
        if ltb 0 (pipe_buffer_size - p.count) && not p.read_closed then epoll_out else 0 in
      if p.read_closed then bit_or writable (bit_or epoll_err epoll_hup) else writable

-- The node is one of a pipe. The option is what `*out_occurred` is set to, where it is given.
unfoldable pub pipe_is_ready : List Pipe → PipeNode → ℕ → Bool × Option ℕ
pipe_is_ready t node events = elim (open_pipe t node.pipe_id) [
  | none ↦ (false, none)
  | some p ↦
      let active = bit_and (occurred node p) events in
      if active == 0 then (false, none) else (true, some active)
]
