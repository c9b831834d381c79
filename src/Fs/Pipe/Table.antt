-- ===== src/Fs/Pipe/Table.antt =====
-- src/fs/pipe.cpp: the table of pipes under the calls of any processes.
use mathlib.Core.Option
use uni_os.Prelude.{
  Option, suc, ℕ, ◌+◌, ◌≡◌, refl, true, false, ◌&&◌, none, some, List, [], ◌∷◌, arith, get_elem?,
  set, All, All-set, All-get_elem?, All-replicate, length-replicate, if◌then◌else◌, inl, inr,
  Option-cases,
}
use uni_os.Prelude.Int.{ℤ, pos, negsuc}
use uni_os.Fs.Pipe.{
  Pipe, open_pipe, set_pipe, update_pipe, pipe_buffer_size, max_pipes, read_pass, write_pass,
  pipe_read, pipe_write, create_from, pipe_create, fresh, unused, initial_table, close_read_end,
  close_write_end, pipe_close_read, pipe_close_write,
}
use uni_os.Fs.Pipe.Stream.{
  IsValid, read_pass-IsValid, write_pass-IsValid, read_pass-SameMarks, write_pass-SameMarks,
}

-- An entry of the table: its ring is in order, and one in use has an end that is open.
pub record IsEntry (p : Pipe) : Type 0 where
  pub valid : IsValid p
  pub held : p.in_use ≡ true → (p.read_closed && p.write_closed) ≡ false

-- A call of any process on the table.
pub data TableCall : Type 0 where
  create : TableCall
  read_from : ℤ → ℕ → TableCall
  write_to : ℤ → List ℕ → TableCall
  shut_read shut_write : ℤ → TableCall

pub step : List Pipe → TableCall → List Pipe
step t create = (pipe_create t).1
step t (read_from id n) = (pipe_read t id n).2
step t (write_to id src) = (pipe_write t id src).1
step t (shut_read id) = pipe_close_read t id
step t (shut_write id) = pipe_close_write t id

pub steps : List Pipe → List TableCall → List Pipe
steps t [] = t
steps t (c ∷ calls) = steps (step t c) calls

unused-IsEntry : IsEntry unused
unused-IsEntry = record {
  valid = record {
    storage = length-replicate {A = ℕ} pipe_buffer_size 0;
    read_in = omega arith;
    count_in = omega arith;
    write_at = omega arith;
  };
  held = λ e. cc;
}

read_pass-IsEntry : (p : Pipe) (n : ℕ) → IsEntry p → IsEntry (read_pass p n).2
read_pass-IsEntry p n e =
    ground (arith, read_pass-IsValid p n e.valid, read_pass-SameMarks p n e.valid)

write_pass-IsEntry : (p : Pipe) (src : List ℕ) → IsEntry p → IsEntry (write_pass p src).1
write_pass-IsEntry p src e =
    ground (arith, write_pass-IsValid p src e.valid, write_pass-SameMarks p src e.valid)

close-IsEntry : (p : Pipe) → IsEntry p → IsEntry (close_read_end p) × IsEntry (close_write_end p)
unfolding close_read_end close_write_end
close-IsEntry p e = ground arith

create_from-All : (i : ℕ) (t : List Pipe) → All IsEntry t → All IsEntry (create_from i t).1
unfolding create_from
create_from-All i [] h = tt
create_from-All i (p ∷ t) h = ground (arith, create_from-All (i + 1) t h.1)

open_pipe-IsEntry :
    (t : List Pipe) (id : ℤ) {p : Pipe} → All IsEntry t → open_pipe t id ≡ some p → IsEntry p
open_pipe-IsEntry t (negsuc i) h e = absurd (cc)
open_pipe-IsEntry t (pos i) h e = All-get_elem? IsEntry t i h (ground arith)

set_pipe-All :
    (t : List Pipe) (id : ℤ) (p : Pipe) → All IsEntry t → IsEntry p → All IsEntry (set_pipe t id p)
set_pipe-All t (negsuc i) p h e = h
set_pipe-All t (pos i) p h e = All-set IsEntry t i p h e

update_pipe-All :
    (t : List Pipe) (id : ℤ) (f : Pipe → Pipe)
    → All IsEntry t
    → ((p : Pipe) → IsEntry p → IsEntry (f p))
    → All IsEntry (update_pipe t id f)
update_pipe-All t (negsuc i) f h keep = h
update_pipe-All t (pos i) f h keep = elim (Option-cases (get_elem? t i)) [
  | inl e ↦ let same : update_pipe t (pos i) f ≡ t = ground arith in rw same h
  | inr (p, e) ↦
      let new : update_pipe t (pos i) f ≡ set t i (f p) = ground arith in
      rw new (All-set IsEntry t i (f p) h (keep p (All-get_elem? IsEntry t i h e)))
]

step-All : (t : List Pipe) (c : TableCall) → All IsEntry t → All IsEntry (step t c)
unfolding step pipe_create pipe_read pipe_write pipe_close_read pipe_close_write
step-All t create h = create_from-All 0 t h
step-All t (read_from id n) h = elim (Option-cases (open_pipe t id)) [
  | inl e ↦ let same : (pipe_read t id n).2 ≡ t = ground arith in rw same h
  | inr (p, e) ↦
      let new : (pipe_read t id n).2 ≡ set_pipe t id (read_pass p n).2 = ground arith in
      rw new
        (set_pipe-All t id (read_pass p n).2 h (read_pass-IsEntry p n (open_pipe-IsEntry t id h e)))
]
step-All t (write_to id src) h = elim (Option-cases (open_pipe t id)) [
  | inl e ↦ let same : (pipe_write t id src).1 ≡ t = ground arith in rw same h
  | inr (p, e) ↦
      let new : (pipe_write t id src).1 ≡ set_pipe t id (write_pass p src).1 = ground arith in
      rw new (
        set_pipe-All t id (write_pass p src).1 h
          (write_pass-IsEntry p src (open_pipe-IsEntry t id h e)))
]
step-All t (shut_read id) h = update_pipe-All t id close_read_end h (λ p e. (close-IsEntry p e).0)
step-All t (shut_write id) h = update_pipe-All t id close_write_end h (λ p e. (close-IsEntry p e).1)

steps-All : (t : List Pipe) (calls : List TableCall) → All IsEntry t → All IsEntry (steps t calls)
unfolding steps
steps-All t [] h = h
steps-All t (c ∷ calls) h = steps-All (step t c) calls (step-All t c h)

-- In every table that calls of any processes make of the first one, each entry is a ring in order,
-- and no entry is in use with both its ends closed.
pub steps-IsEntry : (calls : List TableCall) → All IsEntry (steps initial_table calls)
unfolding initial_table
steps-IsEntry calls =
    steps-All initial_table calls (All-replicate IsEntry max_pipes unused unused-IsEntry)

-- The first entry that is not in use.
abbrev pub first_free : List Pipe → Option ℕ
first_free [] = none
first_free (p ∷ t) = let later = Option.map suc (first_free t) in if p.in_use then later else some 0

create_from_lem :
    (i : ℕ) (t : List Pipe)
    → create_from i t ≡ (elim (first_free t) [
      | none ↦ (negsuc 0, t)
      | some k ↦ (pos (i + k), elim (get_elem? t k) [ none ↦ t | some p ↦ set t k (fresh p) ])
    ])
unfolding create_from
create_from_lem i [] = refl
create_from_lem i (p ∷ t) = ground (arith, create_from_lem (i + 1) t)

-- `pipe_create` opens the first entry that is not in use, empty and with both ends open, leaves the
-- others as they are and returns its index; it returns -1 and changes nothing if all are in use.
pub pipe_create_lem :
    (t : List Pipe)
    → pipe_create t ≡ (elim (first_free t) [
      | none ↦ (negsuc 0, t)
      | some k ↦ (pos k, elim (get_elem? t k) [ none ↦ t | some p ↦ set t k (fresh p) ])
    ])
unfolding pipe_create
pipe_create_lem t = ground (arith, create_from_lem 0 t)
