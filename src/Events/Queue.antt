-- ===== src/Events/Queue.antt =====
-- src/kernel/core/input_event.cpp: the ring of events, seen as a list.
use uni_os.Prelude.{
  ℕ, zero, suc, ◌+◌, ◌-◌, ◌%◌, ◌<◌, ◌≤◌, ◌≡◌, refl, ap, true, arith, Option, none, some, List, [],
  ◌∷◌, ◌++◌, ltb, ◌==◌, if◌then◌else◌, length, get_or, sym, take, take-append_length, length-set,
  Bool-cases, inl, inr,
}
use mathlib.Core.List.{append_assoc}
use uni_os.Prelude.Ring.{window, length-window, window-set_next}
use uni_os.Events.{Event, nothing, EventQueue, event_queue_size, event_push, event_poll, push_all}

pub record IsQueue (q : EventQueue) : Type 0 where
  pub room : length q.events ≡ event_queue_size
  pub head_lt : q.head < event_queue_size
  pub tail_lt : q.tail < event_queue_size

abbrev count : EventQueue → ℕ
count q = (q.tail + event_queue_size - q.head) % event_queue_size

-- The events that wait, the oldest first.
unfoldable pub contents : EventQueue → List Event
contents q = window nothing event_queue_size q.events q.head (count q)

pub event_push-IsQueue : (q : EventQueue) (e : Event) → IsQueue q → IsQueue (event_push q e)
unfolding event_push
event_push-IsQueue q e h = elim (Bool-cases ((q.tail + 1) % event_queue_size == q.head)) [
  | inl full ↦ rw full h
  | inr free ↦ rw free (record {
    room = omega (arith, h.room, length-set q.events q.tail e);
    head_lt = h.head_lt;
    tail_lt = grind arith;
  })
]

-- A queue with room takes an event behind the others; a full one drops it.
abbrev pub bounded : List Event → Event → List Event
bounded es e = if ltb (length es) 127 then es ++ (e ∷ []) else es

pub contents-event_push :
    (q : EventQueue) (e : Event) → IsQueue q → contents (event_push q e) ≡ bounded (contents q) e
unfolding event_push contents
contents-event_push q e h = elim (Bool-cases ((q.tail + 1) % event_queue_size == q.head)) [
  | inl full ↦
      let n : count q ≡ 127 = ground (arith, h.head_lt, h.tail_lt) in
      let c : length (window nothing event_queue_size q.events q.head (count q)) ≡ count q =
        length-window nothing event_queue_size q.events q.head (count q) in
      rw (full, c, n) refl
  | inr free ↦
      let c : length (window nothing event_queue_size q.events q.head (count q)) ≡ count q =
        length-window nothing event_queue_size q.events q.head (count q) in
      let small : ltb (count q) 127 ≡ true = ground (arith, h.head_lt, h.tail_lt) in
      let n : ((q.tail + 1) % event_queue_size + event_queue_size - q.head) % event_queue_size
          ≡ count q + 1 =
        ground (arith, h.head_lt, h.tail_lt) in
      let lt : count q < event_queue_size = omega arith in
      rw (free, c, small, n)
        (window-set_next nothing event_queue_size q.events q.head (count q) q.tail e h.head_lt lt
          (omega (arith, h.room)) (omega (arith, h.head_lt, h.tail_lt)))
]

-- The first element of a list, and the others.
abbrev pub uncons : List Event → Option Event × List Event
uncons [] = (none, [])
uncons (e ∷ es) = (some e, es)

pub event_poll-IsQueue : (q : EventQueue) → IsQueue q → IsQueue (event_poll q).1
unfolding event_poll
event_poll-IsQueue q h = elim (Bool-cases (q.head == q.tail)) [
  | inl none_left ↦ rw none_left h
  | inr some_left ↦
      rw some_left (record { room = h.room; head_lt = grind arith; tail_lt = h.tail_lt })
]

window_next :
    (q : EventQueue) (k n : ℕ)
    → n ≡ suc k
    → uncons (window nothing event_queue_size q.events q.head n) ≡ (
      some (get_or q.events q.head nothing),
      window nothing event_queue_size q.events ((q.head + 1) % event_queue_size) k,
    )
window_next q k n e = rw e refl

pub contents-event_poll :
    (q : EventQueue)
    → IsQueue q
    → ((event_poll q).0, contents (event_poll q).1) ≡ uncons (contents q)
unfolding event_poll contents
contents-event_poll q h = elim (Bool-cases (q.head == q.tail)) [
  | inl none_left ↦ let n : count q ≡ 0 = ground (arith, h.head_lt) in rw (none_left, n) refl
  | inr some_left ↦
      let k = (q.tail + event_queue_size - (q.head + 1) % event_queue_size) % event_queue_size in
      rw (some_left, window_next q k (count q) (ground (arith, h.head_lt, h.tail_lt))) refl
]

-- A call by one of the queue's users.
pub data Call : Type 0 where
  push : Event → Call
  poll : Call

-- What the polls of a sequence of calls answer.
unfoldable pub answers : List Call → EventQueue → List (Option Event)
answers [] q = []
answers (push e ∷ calls) q = answers calls (event_push q e)
answers (poll ∷ calls) q = (event_poll q).0 ∷ answers calls (event_poll q).1

-- The same of a list that holds at most 127 events.
unfoldable pub list_answers : List Call → List Event → List (Option Event)
list_answers [] es = []
list_answers (push e ∷ calls) es = list_answers calls (bounded es e)
list_answers (poll ∷ calls) es = (uncons es).0 ∷ list_answers calls (uncons es).1

-- In whatever order events are pushed and polled, the polls answer what a first-in first-out list
-- would that drops what comes while it holds 127 events.
pub answers-contents :
    (calls : List Call) (q : EventQueue)
    → IsQueue q
    → answers calls q ≡ list_answers calls (contents q)
unfolding answers list_answers
answers-contents [] q h = refl
answers-contents (push e ∷ calls) q h =
    rw
      (
        answers-contents calls (event_push q e) (event_push-IsQueue q e h),
        contents-event_push q e h,
      )
      refl
answers-contents (poll ∷ calls) q h =
    let polled = contents-event_poll q h in
    rw (answers-contents calls (event_poll q).1 (event_poll-IsQueue q h), ← polled) refl

append_nil : (l : List Event) → l ++ [] ≡ l
append_nil [] = refl
append_nil (e ∷ es) = ap (λ w. e ∷ w) (append_nil es)

pub take_all : (n : ℕ) (l : List Event) → length l ≤ n → take n l ≡ l
take_all zero [] h = refl
take_all zero (e ∷ es) h = absurd (omega arith)
take_all (suc n) [] h = refl
take_all (suc n) (e ∷ es) h = ap (λ w. e ∷ w) (take_all n es (omega arith))

length-contents_le : (q : EventQueue) → length (contents q) ≤ 127
unfolding contents
length-contents_le q =
    omega (arith, length-window nothing event_queue_size q.events q.head (count q))

take-bounded :
    (l es : List Event) (e : Event)
    → length l ≤ 127
    → take 127 (bounded l e ++ es) ≡ take 127 (l ++ (e ∷ es))
take-bounded l es e le = elim (Bool-cases (ltb (length l) 127)) [
  | inl more ↦ rw (more, append_assoc l (e ∷ []) es) refl
  | inr full ↦
      let n : 127 ≡ length l = ground arith in
      rw (full, take-append_length l es 127 n, take-append_length l (e ∷ es) 127 n) refl
]

-- Of the events that are pushed those are kept that fit behind the ones that wait.
pub contents-push_all :
    (q : EventQueue) (es : List Event)
    → IsQueue q
    → contents (push_all q es) ≡ take 127 (contents q ++ es)
unfolding push_all
contents-push_all q [] h =
    rw (append_nil (contents q)) (sym (take_all 127 (contents q) (length-contents_le q)))
contents-push_all q (e ∷ es) h =
    rw (contents-push_all (event_push q e) es (event_push-IsQueue q e h), contents-event_push q e h)
      (take-bounded (contents q) es e (length-contents_le q))

pub push_all-IsQueue : (q : EventQueue) (es : List Event) → IsQueue q → IsQueue (push_all q es)
unfolding push_all
push_all-IsQueue q [] h = h
push_all-IsQueue q (e ∷ es) h = push_all-IsQueue (event_push q e) es (event_push-IsQueue q e h)
