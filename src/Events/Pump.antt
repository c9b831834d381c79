-- ===== src/Events/Pump.antt =====
-- src/kernel/core/input_event.cpp: the events of one pump, as a reader follows a button in them.
use uni_os.Prelude.{
  ℕ, ◌<◌, ◌≡◌, ◌≢◌, refl, Bool, true, false, arith, Option, none, some, List, [], ◌∷◌, ◌++◌, ◌==◌,
  if◌then◌else◌, take, inl, inr, ◌⊎◌,
}
use uni_os.Events.{
  Event, nothing, mouse, key, EventType, evt_none, evt_mouse_move, evt_mouse_down, evt_mouse_up,
  evt_mouse_scroll, evt_key_down, EventQueue, MouseState, Gui, button_events, move_events,
  scroll_events, key_events, pumped, find_process, pump_with, pump_events,
}
use uni_os.Events.Queue.{IsQueue, contents, contents-push_all}

-- One event as a reader sees it who follows a button: a press while it is down, or a release while
-- it is up, makes no sense to it.
follow_mouse : EventType → Bool → Option Bool
follow_mouse evt_mouse_down true = none
follow_mouse evt_mouse_down false = some true
follow_mouse evt_mouse_up true = some false
follow_mouse evt_mouse_up false = none
follow_mouse evt_none held = some held
follow_mouse evt_mouse_move held = some held
follow_mouse evt_mouse_scroll held = some held
follow_mouse evt_key_down held = some held

pub follow_one : ℕ → Event → Bool → Option Bool
follow_one button nothing held = some held
follow_one button (mouse t d) held = if d.button == button then follow_mouse t held else some held
follow_one button (key t d) held = some held

abbrev pub then_follow : (Bool → Option Bool) → Option Bool → Option Bool
then_follow f none = none
then_follow f (some held) = f held

-- Whether the button is down after the events, if they make sense.
unfoldable pub follow : ℕ → List Event → Bool → Option Bool
follow button [] held = some held
follow button (e ∷ es) held = then_follow (follow button es) (follow_one button e held)

then_follow_then :
    (f g k : Bool → Option Bool) (o : Option Bool)
    → ((held : Bool) → f held ≡ then_follow k (g held))
    → then_follow f o ≡ then_follow k (then_follow g o)
then_follow_then f g k none h = refl
then_follow_then f g k (some held) h = h held

pub follow-append :
    (button : ℕ) (es fs : List Event) (held : Bool)
    → follow button (es ++ fs) held ≡ then_follow (follow button fs) (follow button es held)
unfolding follow
follow-append button [] fs held = refl
follow-append button (e ∷ es) fs held =
    then_follow_then (follow button (es ++ fs)) (follow button es) (follow button fs)
      (follow_one button e held) (follow-append button es fs)

follow-button_events :
    (ms : MouseState) (button other : ℕ) (now before : Bool) (held : Bool)
    → (other ≡ button → held ≡ before)
    → follow other (button_events ms button now before) held
      ≡ some (if other == button then now else held)
unfolding follow follow_one follow_mouse button_events
follow-button_events ms button other now before held h = ground arith

follow-move_events :
    (ms : MouseState) (g : Gui) (button : ℕ) (held : Bool)
    → 0 < button
    → follow button (move_events ms g) held ≡ some held
unfolding follow follow_one follow_mouse move_events
follow-move_events ms g button held lt = ground arith

follow-key_events :
    (keys : List ℕ) (button : ℕ) (held : Bool) → follow button (key_events keys) held ≡ some held
unfolding follow follow_one key_events
follow-key_events [] button held = refl
follow-key_events (c ∷ cs) button held = follow-key_events cs button held

follow-scroll_events :
    (ms : MouseState) (button : ℕ) (held : Bool)
    → 0 < button
    → follow button (scroll_events ms) held ≡ some held
unfolding follow follow_one follow_mouse scroll_events
follow-scroll_events ms button held lt = ground arith

-- Whether a button was down, for a reader who follows it.
abbrev pub before : ℕ → Gui → Bool
before button g = if button == 1 then g.prev_left else g.prev_right

abbrev pub now : ℕ → MouseState → Bool
now button ms = if button == 1 then ms.left else ms.right

pub follow-pumped :
    (ms : MouseState) (keys : List ℕ) (g : Gui) (button : ℕ)
    → (button ≡ 1) ⊎ (button ≡ 2)
    → follow button (pumped ms keys g) (before button g) ≡ some (now button ms)
unfolding pumped
follow-pumped ms keys g button (inl e) = rw (
  e,
  follow-append 1 (move_events ms g) _ g.prev_left,
  follow-move_events ms g 1 g.prev_left (omega arith),
  follow-append 1 (button_events ms 1 ms.left g.prev_left) _ g.prev_left,
  follow-button_events ms 1 1 ms.left g.prev_left g.prev_left (λ p. refl),
  follow-append 1 (button_events ms 2 ms.right g.prev_right) _ ms.left,
  follow-button_events ms 2 1 ms.right g.prev_right ms.left (λ p. absurd (omega arith)),
  follow-append 1 (scroll_events ms) (key_events keys) ms.left,
  follow-scroll_events ms 1 ms.left (omega arith),
  follow-key_events keys 1 ms.left,
)
follow-pumped ms keys g button (inr e) = rw (
  e,
  follow-append 2 (move_events ms g) _ g.prev_right,
  follow-move_events ms g 2 g.prev_right (omega arith),
  follow-append 2 (button_events ms 1 ms.left g.prev_left) _ g.prev_right,
  follow-button_events ms 1 2 ms.left g.prev_left g.prev_right (λ p. absurd (omega arith)),
  follow-append 2 (button_events ms 2 ms.right g.prev_right) _ g.prev_right,
  follow-button_events ms 2 2 ms.right g.prev_right g.prev_right (λ p. refl),
  follow-append 2 (scroll_events ms) (key_events keys) ms.right,
  follow-scroll_events ms 2 ms.right (omega arith),
  follow-key_events keys 2 ms.right,
)

-- One pump with a live window manager that has the queue `q`.
abbrev pub IsPumped : EventQueue → MouseState → List ℕ → Gui → Option EventQueue × Gui → Type 0
IsPumped q ms keys g (none, g') = ⊥
IsPumped q ms keys g (some q', g') =
    (contents q' ≡ take 127 (contents q ++ pumped ms keys g))
    × (g'.wm_pid ≡ g.wm_pid)
    × ((button : ℕ) → before button g' ≡ now button ms)

-- While the window manager lives, a pump adds to its queue the events of mouse and keyboard in
-- their order, as many as there is room for, and remembers the buttons.
pub pump_events-IsPumped :
    (find : ℕ → Option EventQueue) (q : EventQueue) (ms : MouseState) (keys : List ℕ) (g : Gui)
    → g.wm_pid ≢ 0
    → find g.wm_pid ≡ some q
    → IsQueue q
    → IsPumped q ms keys g (pump_events find ms keys g)
unfolding pump_events pump_with
pump_events-IsPumped find q ms keys g nz e h =
    let live : find_process find g.wm_pid ≡ some q = ground (arith, e, nz) in
    rw live (contents-push_all q (pumped ms keys g) h, refl, λ button. refl)
