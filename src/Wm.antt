-- ===== src/Wm.antt =====
-- include/wm/interaction_policy.h: when the window manager presents a frame. The numbers are of 32
-- bits.
pub mod Present
pub mod Rect
pub mod Damage
use uni_os.Prelude.{ℕ, ◌+◌, ◌-◌, ◌<◌, Bool, true, false, not, ◌&&◌, ltb, leb, if◌then◌else◌}

pub data PresentPolicyDecision : Type 0 where
  submit : PresentPolicyDecision
  wait : PresentPolicyDecision
  skip : PresentPolicyDecision

pub record PresentPolicyInput : Type 0 where
  pub pending : ℕ
  pub queue_limit : ℕ
  pub strict_sync : Bool
  pub interactive : Bool
  pub copy_path : Bool
  pub active_manipulation : Bool

unfoldable pub choose_present_policy : PresentPolicyInput → PresentPolicyDecision
choose_present_policy input =
    if ltb input.pending input.queue_limit
    then submit
    else if not input.strict_sync && (input.interactive && input.active_manipulation)
    then skip
    else wait

unfoldable pub pending_presents : (last_submitted_sequence completed_sequence : ℕ) → ℕ
pending_presents last_submitted_sequence completed_sequence =
    if leb last_submitted_sequence completed_sequence
    then 0
    else last_submitted_sequence - completed_sequence

unfoldable pub completion_target_for_available_slot : (last_submitted_sequence queue_limit : ℕ) → ℕ
completion_target_for_available_slot last_submitted_sequence queue_limit =
    if leb queue_limit 1
    then last_submitted_sequence
    else if ltb last_submitted_sequence queue_limit
    then 0
    else last_submitted_sequence - queue_limit + 1
