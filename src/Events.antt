-- ===== src/Events.antt =====
-- src/kernel/core/input_event.cpp: the event queue of a process, and the pump that turns the state
-- of mouse and keyboard into events. Drivers and process table are outside the model: the state of
-- the mouse, the keys that are waiting and the queues of the live processes are arguments.
pub mod Queue
pub mod Pump
pub mod Read
use uni_os.Prelude.{
  ℕ, ◌+◌, ◌-◌, ◌%◌, ◌<◌, Bool, true, false, not, ◌&&◌, ◌||◌, Option, none, some, List, [], ◌∷◌,
  ◌++◌, ltb, ◌==◌, if◌then◌else◌, length, get_or, set,
}
use uni_os.Prelude.Int.{ℤ, pos, negsuc, pos_part, neg_part}

abbrev pub event_queue_size : ℕ
event_queue_size = 128

-- The types that the pump makes.
pub data EventType : Type 0 where
  evt_none : EventType
  evt_mouse_move : EventType
  evt_mouse_down : EventType
  evt_mouse_up : EventType
  evt_mouse_scroll : EventType
  evt_key_down : EventType

pub record EventMouseData : Type 0 where
  pub x : ℤ
  pub y : ℤ
  pub button : ℕ
  pub scroll_y : ℤ

pub record EventKeyData : Type 0 where
  pub c : ℕ
  pub scancode : ℕ

-- The union is told apart by the type.
pub data Event : Type 0 where
  nothing : Event
  mouse : EventType → EventMouseData → Event
  key : EventType → EventKeyData → Event

pub record EventQueue : Type 0 where
  pub events : List Event
  pub head : ℕ
  pub tail : ℕ

unfoldable pub event_init : EventQueue → EventQueue
event_init q = record q { head = 0; tail = 0 }

unfoldable pub event_push : EventQueue → Event → EventQueue
event_push q e =
    let next = (q.tail + 1) % event_queue_size in
    if next == q.head then q else record q { events = set q.events q.tail e; tail = next }

unfoldable pub event_poll : EventQueue → Option Event × EventQueue
event_poll q = if q.head == q.tail then (none, q) else (
  some (get_or q.events q.head nothing),
  record q { head = (q.head + 1) % event_queue_size },
)

unfoldable pub event_empty : EventQueue → Bool
event_empty q = q.head == q.tail

pub record MouseState : Type 0 where
  pub x : ℤ
  pub y : ℤ
  pub left : Bool
  pub right : Bool
  pub scroll_delta : ℤ

pub record Gui : Type 0 where
  pub wm_pid : ℕ
  pub focus_pid : ℕ
  pub last_mx : ℤ
  pub last_my : ℤ
  pub prev_left : Bool
  pub prev_right : Bool

unfoldable pub gui_set_wm_pid : ℕ → Gui → Gui
gui_set_wm_pid pid g = record g {
  wm_pid = pid;
  focus_pid = if g.focus_pid == 0 then pid else g.focus_pid;
}

unfoldable pub gui_set_focus_pid : ℕ → Gui → Gui
gui_set_focus_pid pid g = record g { focus_pid = pid }

abbrev pub eq_ℤ : ℤ → ℤ → Bool
eq_ℤ a b = pos_part a == pos_part b && neg_part a == neg_part b

abbrev pub at_mouse : EventType → MouseState → ℕ → ℤ → Event
at_mouse t ms button scroll =
    mouse t (record { x = ms.x; y = ms.y; button = button; scroll_y = scroll })

-- The events for one button, which was down or up before.
unfoldable pub button_events : MouseState → ℕ → (now before : Bool) → List Event
button_events ms button now before =
    if now && not before
    then at_mouse evt_mouse_down ms button (pos 0) ∷ []
    else if not now && before
    then at_mouse evt_mouse_up ms button (pos 0) ∷ []
    else []

unfoldable pub move_events : MouseState → Gui → List Event
move_events ms g =
    if not (eq_ℤ ms.x g.last_mx) || not (eq_ℤ ms.y g.last_my)
    then at_mouse evt_mouse_move ms 0 (pos 0) ∷ []
    else []

unfoldable pub scroll_events : MouseState → List Event
scroll_events ms =
    if eq_ℤ ms.scroll_delta (pos 0) then [] else at_mouse evt_mouse_scroll ms 0 ms.scroll_delta ∷ []

unfoldable pub key_events : List ℕ → List Event
key_events [] = []
key_events (c ∷ cs) = key evt_key_down (record { c = c; scancode = 0 }) ∷ key_events cs

-- What the pump pushes, in its order.
unfoldable pub pumped : MouseState → List ℕ → Gui → List Event
pumped ms keys g =
    move_events ms g
    ++ (button_events ms 1 ms.left g.prev_left
        ++ (button_events ms 2 ms.right g.prev_right ++ (scroll_events ms ++ key_events keys)))

unfoldable pub push_all : EventQueue → List Event → EventQueue
push_all q [] = q
push_all q (e ∷ es) = push_all (event_push q e) es

-- `wm_pid ? process_find_by_pid(wm_pid) : nullptr`, by its queue.
abbrev pub find_process : (ℕ → Option EventQueue) → ℕ → Option EventQueue
find_process find pid = if pid == 0 then none else find pid

-- Without a window manager its process id is forgotten, and the focus with it.
unfoldable pub forget_wm : Gui → Gui
forget_wm g =
    if g.wm_pid == 0
    then g
    else record g { wm_pid = 0; focus_pid = if g.focus_pid == g.wm_pid then 0 else g.focus_pid }

abbrev pub checked_focus : Option EventQueue → ℕ → ℕ
checked_focus none focus_pid = 0
checked_focus (some q) focus_pid = focus_pid

unfoldable pub pump_with :
    (ℕ → Option EventQueue)
    → Option EventQueue
    → MouseState
    → List ℕ
    → Gui
    → Option EventQueue × Gui
pump_with find none ms keys g = (none, forget_wm g)
pump_with find (some q) ms keys g = (
  some (push_all q (pumped ms keys g)),
  record g {
    focus_pid = checked_focus (find_process find g.focus_pid) g.focus_pid;
    last_mx = ms.x;
    last_my = ms.y;
    prev_left = ms.left;
    prev_right = ms.right;
  },
)

-- The queue of the window manager, if there is one, and the state that the pump keeps.
unfoldable pub pump_events :
    (ℕ → Option EventQueue) → MouseState → List ℕ → Gui → Option EventQueue × Gui
pump_events find ms keys g = pump_with find (find_process find g.wm_pid) ms keys g
