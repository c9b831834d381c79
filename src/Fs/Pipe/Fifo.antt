-- ===== src/Fs/Pipe/Fifo.antt =====
-- src/fs/pipe.cpp: any calls on one pipe in a row, as a first-in-first-out stream.
use mathlib.Core.List.{append-nil, append_assoc}
use uni_os.Prelude.{ℕ, ◌≡◌, List, [], ◌∷◌, ◌++◌, arith, take}
use uni_os.Fs.Pipe.{Pipe, read_pass, write_pass, close_read_end, close_write_end}
use uni_os.Fs.Pipe.Stream.{
  IsValid, contents, accepted, read_pass-IsValid, write_pass-IsValid, read_pass_lem, write_pass_lem,
}

-- A call on one pipe.
pub data Call : Type 0 where
  read : ℕ → Call
  write : List ℕ → Call
  close_read close_write : Call

-- The bytes that calls in a row hand to their callers, those that they take, and the pipe.
unfoldable pub run : Pipe → List Call → List ℕ × List ℕ × Pipe
run p [] = ([], [], p)
run p (read n ∷ calls) =
    let (o, bytes, p') = read_pass p n in
    let (out, taken, q) = run p' calls in (bytes ++ out, taken, q)
run p (write src ∷ calls) =
    let (o, p') = write_pass p src in
    let (out, taken, q) = run p' calls in (out, take (accepted o) src ++ taken, q)
run p (close_read ∷ calls) = run (close_read_end p) calls
run p (close_write ∷ calls) = run (close_write_end p) calls

close-IsValid : (p : Pipe) → IsValid p → IsValid (close_read_end p) × IsValid (close_write_end p)
unfolding close_read_end close_write_end
close-IsValid p v = ground arith

contents-close :
    (p : Pipe)
    → (contents (close_read_end p) ≡ contents p) × (contents (close_write_end p) ≡ contents p)
unfolding close_read_end close_write_end
contents-close p = ground arith

-- A pipe is first in, first out: in whatever order reads, writes and closes come, the bytes that
-- the reads handed over, with those still in the pipe behind them, are the bytes that were in it at
-- first with those that the writes took behind them.
pub run_fifo :
    (p : Pipe) (calls : List Call)
    → IsValid p
    → let (out, taken, p') = run p calls in contents p ++ taken ≡ out ++ contents p'
unfolding run
run_fifo p [] v = append-nil (contents p)
run_fifo p (read n ∷ calls) v =
    let (o, bytes, p') = read_pass p n in
    let (out, taken, q) = run p' calls in
    ground (
      arith,
      read_pass_lem p n v,
      run_fifo p' calls (read_pass-IsValid p n v),
      append_assoc bytes (contents p') taken,
      append_assoc bytes out (contents q),
    )
run_fifo p (write src ∷ calls) v =
    let (o, p') = write_pass p src in
    let (out, taken, q) = run p' calls in
    ground (
      arith,
      write_pass_lem p src v,
      run_fifo p' calls (write_pass-IsValid p src v),
      append_assoc (contents p) (take (accepted o) src) taken,
    )
run_fifo p (close_read ∷ calls) v =
    ground (arith, contents-close p, run_fifo (close_read_end p) calls (close-IsValid p v).0)
run_fifo p (close_write ∷ calls) v =
    ground (arith, contents-close p, run_fifo (close_write_end p) calls (close-IsValid p v).1)
