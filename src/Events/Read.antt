-- ===== src/Events/Read.antt =====
-- src/kernel/core/input_event.cpp: what the window manager reads of mouse and keyboard, in whatever
-- order pumps and its polls come.
use uni_os.Prelude.{
  ℕ, ◌+◌, ◌≤◌, ◌≡◌, ◌≢◌, Bool, Option, none, some, List, [], ◌∷◌, ◌==◌, if◌then◌else◌, length, ◌⊎◌,
}
use uni_os.Events.{Event, EventQueue, MouseState, Gui, event_poll, pump_events}
use uni_os.Events.Queue.{IsQueue, contents}
use uni_os.Events.Pump.{follow, before}

-- A pump, or a poll by the window manager.
pub data Use : Type 0 where
  pump : MouseState → List ℕ → Use
  read : Use

-- The processes, of which the window manager has the queue `q`.
abbrev pub with_wm : (ℕ → Option EventQueue) → Gui → EventQueue → ℕ → Option EventQueue
with_wm find g q pid = if pid == g.wm_pid then some q else find pid

-- The queue of the window manager after a pump.
abbrev pub queue_after : EventQueue → Option EventQueue → EventQueue
queue_after q none = q
queue_after q (some q') = q'

abbrev pub heard : Option Event → List Event → List Event
heard none events = events
heard (some e) events = e ∷ events

-- What the polls deliver, the queue that is left and the state of the pump.
unfoldable pub uses :
    (ℕ → Option EventQueue) → List Use → EventQueue → Gui → List Event × EventQueue × Gui
uses find [] q g = ([], q, g)
uses find (pump ms keys ∷ us) q g =
    let (q', g') = pump_events (with_wm find g q) ms keys g in uses find us (queue_after q q') g'
uses find (read ∷ us) q g =
    let (e, q') = event_poll q in
    let (events, q'', g') = uses find us q' g in (heard e events, q'', g')

-- Every pump finds room for its keys and four events of the mouse.
unfoldable pub HasRoom : (ℕ → Option EventQueue) → List Use → EventQueue → Gui → Type 0
HasRoom find [] q g = Unit {0}
HasRoom find (pump ms keys ∷ us) q g =
    (length (contents q) + 4 + length keys ≤ 127)
    × let (q', g') = pump_events (with_wm find g q) ms keys g in
      HasRoom find us (queue_after q q') g'
HasRoom find (read ∷ us) q g = HasRoom find us (event_poll q).1 g

module _ (find : ℕ → Option EventQueue) (button : ℕ) (b : (button ≡ 1) ⊎ (button ≡ 2)) where
  -- The pump is between calls: a reader who has read what was delivered, and goes on to read what waits,
  -- comes to the button as it is remembered.
  pub record IsFollowed (held : Bool) (q : EventQueue) (g : Gui) : Type 0 where
    pub queue : IsQueue q
    pub alive : g.wm_pid ≢ 0
    pub waiting : follow button (contents q) held ≡ some (before button g)
