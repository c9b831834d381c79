-- ===== src/Fs/Pipe/Stream.antt =====
-- src/fs/pipe.cpp: what one round of `pipe_read` and of `pipe_write` does to the bytes in a pipe.
use native.Mathlib.Nat.{add-zero}
use mathlib.Core.List.{append-nil, append_assoc}
use uni_os.Prelude.{
  ℕ, zero, suc, ◌+◌, ◌-◌, ◌%◌, ◌≤◌, ◌<◌, ◌≡◌, refl, ap, ◌∙◌, List, [], ◌∷◌, ◌++◌, arith, length,
  length-set, set, take, min, length-take, ltb, if◌then◌else◌,
}
use uni_os.Prelude.Int.{pos, negsuc}
use uni_os.Prelude.Ring.{window, length-window, window_split, window-set_next, mod_step}
use uni_os.Fs.Pipe.{
  Pipe, Outcome, returned, wait, pipe_buffer_size, copy_out, copy_in, read_pass, write_pass,
}

pub record IsValid (p : Pipe) : Type 0 where
  pub storage : length p.buffer ≡ pipe_buffer_size
  pub read_in : p.read_pos < pipe_buffer_size
  pub count_in : p.count ≤ pipe_buffer_size
  pub write_at : p.write_pos ≡ (p.read_pos + p.count) % pipe_buffer_size

-- The bytes in the pipe, the oldest first.
abbrev pub contents : Pipe → List ℕ
contents p = window 0 pipe_buffer_size p.buffer p.read_pos p.count

copy_out_lem :
    (n : ℕ) (p : Pipe)
    → p.read_pos < pipe_buffer_size
    → copy_out n p ≡ (
      window 0 pipe_buffer_size p.buffer p.read_pos n,
      record p { read_pos = (p.read_pos + n) % pipe_buffer_size },
    )
unfolding copy_out
copy_out_lem zero p lt =
    let e : p.read_pos ≡ (p.read_pos + 0) % pipe_buffer_size = omega arith in
    λ i. ([], record p { read_pos = e i })
copy_out_lem (suc n) p lt = rw (
  copy_out_lem n (record p { read_pos = (p.read_pos + 1) % pipe_buffer_size }) (omega arith),
  mod_step pipe_buffer_size p.read_pos n,
)

-- What the copying loop of a write has done: `m` bytes stood behind `p.read_pos` before.
record CopiedIn (bytes : List ℕ) (m : ℕ) (p p' : Pipe) : Type 0 where
  storage : length p'.buffer ≡ pipe_buffer_size
  stored :
      window 0 pipe_buffer_size p'.buffer p.read_pos (m + length bytes)
      ≡ window 0 pipe_buffer_size p.buffer p.read_pos m ++ bytes
  write_at : p'.write_pos ≡ (p.read_pos + (m + length bytes)) % pipe_buffer_size
  same : p' ≡ record p { buffer = p'.buffer; write_pos = p'.write_pos }

copy_in-CopiedIn :
    (bytes : List ℕ) (m : ℕ) (p : Pipe)
    → length p.buffer ≡ pipe_buffer_size
    → p.read_pos < pipe_buffer_size
    → p.write_pos ≡ (p.read_pos + m) % pipe_buffer_size
    → m + length bytes ≤ pipe_buffer_size
    → CopiedIn bytes m p (copy_in bytes p)
unfolding copy_in
copy_in-CopiedIn [] m p len lt at le = record {
  storage = len;
  stored = rw (add-zero, append-nil);
  write_at = omega arith;
  same = refl;
}
copy_in-CopiedIn (b ∷ bytes) m p len lt at le =
    let q : Pipe = record p {
      buffer = set p.buffer p.write_pos b;
      write_pos = (p.write_pos + 1) % pipe_buffer_size;
    } in
    let ih : CopiedIn bytes (m + 1) q (copy_in bytes q) =
      copy_in-CopiedIn bytes (m + 1) q (length-set p.buffer p.write_pos b ∙ len) lt (omega arith)
        (omega arith) in
    record {
      storage = ih.storage;
      stored = rw (let e : m + suc (length bytes) ≡ m + 1 + length bytes = omega arith in e) (
          ih.stored
          ∙ ap (λ w. w ++ bytes)
              (window-set_next 0 pipe_buffer_size p.buffer p.read_pos m p.write_pos b lt
                (omega arith) (omega arith) at)
          ∙ append_assoc (window 0 pipe_buffer_size p.buffer p.read_pos m) (b ∷ []) bytes);
      write_at = omega (arith, ih.write_at);
      same = ih.same;
    }

contents_split :
    (p : Pipe) (n : ℕ)
    → p.read_pos < pipe_buffer_size
    → n ≤ p.count
    → contents p
      ≡ window 0 pipe_buffer_size p.buffer p.read_pos n
        ++ window 0 pipe_buffer_size p.buffer ((p.read_pos + n) % pipe_buffer_size) (p.count - n)
contents_split p n lt le =
    ap (window 0 pipe_buffer_size p.buffer p.read_pos) (omega arith)
    ∙ window_split 0 pipe_buffer_size p.buffer p.read_pos n (p.count - n) lt

pub read_pass-IsValid : (p : Pipe) (n : ℕ) → IsValid p → IsValid (read_pass p n).2
unfolding read_pass
read_pass-IsValid p n v =
    ground (arith, copy_out_lem (if ltb n p.count then n else p.count) p v.read_in)

window_empty : (p : Pipe) → p.count ≡ 0 → contents p ≡ []
window_empty p e = ap (window 0 pipe_buffer_size p.buffer p.read_pos) e

-- Whatever a round of a read returns, the bytes that it hands over and those that stay are together
-- the bytes that were in the pipe, in their order. A round on a pipe with bytes returns as many as
-- asked for or as there are; on an empty pipe it returns 0 if the write end is closed, and sleeps
-- otherwise.
pub read_pass_lem :
    (p : Pipe) (n : ℕ)
    → IsValid p
    → let (o, bytes, p') = read_pass p n in
      (contents p ≡ bytes ++ contents p')
      × (length bytes ≡ min n p.count)
      × (o ≡ (
          if ltb 0 p.count
          then returned (pos (min n p.count))
          else if p.write_closed
          then returned (pos 0)
          else wait))
unfolding read_pass
read_pass_lem p n v = ground (
  arith,
  copy_out_lem n p v.read_in,
  copy_out_lem p.count p v.read_in,
  contents_split p n v.read_in,
  contents_split p p.count v.read_in,
  length-window 0 pipe_buffer_size p.buffer p.read_pos n,
  length-window 0 pipe_buffer_size p.buffer p.read_pos p.count,
  window_empty p,
)

taken :
    (p : Pipe) (src : List ℕ) (k : ℕ)
    → IsValid p
    → k ≤ length src
    → k ≤ pipe_buffer_size - p.count
    → CopiedIn (take k src) p.count p (copy_in (take k src) p) × (length (take k src) ≡ k)
taken p src k v le fits =
    let e : length (take k src) ≡ k = omega (arith, length-take k src) in
    (copy_in-CopiedIn (take k src) p.count p v.storage v.read_in v.write_at (omega arith), e)

pub write_pass-IsValid : (p : Pipe) (src : List ℕ) → IsValid p → IsValid (write_pass p src).1
unfolding write_pass
write_pass-IsValid p src v =
    ground (arith, taken p src (length src) v, taken p src (pipe_buffer_size - p.count) v)

-- How many bytes a round of a write took.
abbrev pub accepted : Outcome → ℕ
accepted (returned (pos k)) = k
accepted (returned (negsuc k)) = 0
accepted wait = 0

-- A round of a write leaves in the pipe what was there, with the bytes that it took behind it: the
-- first ones of `src`, as many as there are or as there is room for. It returns their number; it
-- returns -1 and takes none if the read end is closed, and sleeps if there is no room.
pub write_pass_lem :
    (p : Pipe) (src : List ℕ)
    → IsValid p
    → let (o, p') = write_pass p src in
      (contents p' ≡ contents p ++ take (accepted o) src)
      × (o ≡ (
          if p.read_closed
          then returned (negsuc 0)
          else if ltb p.count pipe_buffer_size
          then returned (pos (min (length src) (pipe_buffer_size - p.count)))
          else wait))
unfolding write_pass
write_pass_lem p src v = ground (
  arith,
  taken p src (length src) v,
  taken p src (pipe_buffer_size - p.count) v,
  append-nil (contents p),
)

-- A round of a read or a write changes no mark of the pipe.
pub record SameMarks (p p' : Pipe) : Type 0 where
  pub in_use : p'.in_use ≡ p.in_use
  pub write_closed : p'.write_closed ≡ p.write_closed
  pub read_closed : p'.read_closed ≡ p.read_closed

pub read_pass-SameMarks : (p : Pipe) (n : ℕ) → IsValid p → SameMarks p (read_pass p n).2
unfolding read_pass
read_pass-SameMarks p n v =
    ground (arith, copy_out_lem (if ltb n p.count then n else p.count) p v.read_in)

pub write_pass-SameMarks : (p : Pipe) (src : List ℕ) → IsValid p → SameMarks p (write_pass p src).1
unfolding write_pass
write_pass-SameMarks p src v =
    ground (arith, taken p src (length src) v, taken p src (pipe_buffer_size - p.count) v)
