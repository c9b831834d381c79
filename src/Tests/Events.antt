-- ===== src/Tests/Events.antt =====
-- Runs of src/kernel/core/input_event.cpp.
use uni_os.Prelude.{ℕ, List, ◌≡◌, refl, true, false, Option, none, some, [], ◌∷◌, arith, replicate}
use uni_os.Prelude.Int.{pos, negsuc}
use uni_os.Events.{
  Event, nothing, key, evt_key_down, EventQueue, MouseState, Gui, event_queue_size, event_push,
  event_poll,
}
use uni_os.Events.Queue.{IsQueue, contents, push, poll, answers, list_answers, answers-contents}
use uni_os.Events.Read.{Use, pump, read}

abbrev idle : EventQueue
idle = record { events = replicate event_queue_size nothing; head = 127; tail = 127 }

idle-IsQueue : IsQueue idle
idle-IsQueue = record { room = refl; head_lt = omega arith; tail_lt = omega arith }

abbrev gui : Gui
gui = record {
  wm_pid = 3;
  focus_pid = 3;
  last_mx = negsuc 0;
  last_my = negsuc 0;
  prev_left = false;
  prev_right = false;
}

abbrev press : MouseState
press = record { x = pos 5; y = pos 6; left = true; right = false; scroll_delta = pos 0 }

abbrev release : MouseState
release = record press { left = false }

abbrev letter : Event
letter = key evt_key_down (record { c = 97; scancode = 0 })

abbrev only_wm : ℕ → Option EventQueue
only_wm pid = some idle

round_the_end :
    answers (push letter ∷ push nothing ∷ poll ∷ poll ∷ poll ∷ []) idle
    ≡ (some letter ∷ some nothing ∷ none ∷ [])
unfolding answers event_push event_poll
round_the_end = refl

answers-contents_example :
    answers (push letter ∷ poll ∷ poll ∷ []) idle
    ≡ list_answers (push letter ∷ poll ∷ poll ∷ []) (contents idle)
answers-contents_example = answers-contents (push letter ∷ poll ∷ poll ∷ []) idle idle-IsQueue

-- A press and a release with a poll between them, and the events that are left.
abbrev click : List Use
click = pump press [] ∷ read ∷ read ∷ pump release (97 ∷ []) ∷ read ∷ []
