-- ===== src/Wm/Present.antt =====
-- include/wm/interaction_policy.h: what the window manager waits for.
use uni_os.Prelude.{ℕ, ◌≤◌, ◌≡◌, Bool, true, false, arith, leb}
use uni_os.Wm.{
  PresentPolicyDecision, submit, wait, skip, PresentPolicyInput, choose_present_policy,
  pending_presents, completion_target_for_available_slot,
}

abbrev pub presents_now : PresentPolicyDecision → Bool
presents_now submit = true
presents_now wait = false
presents_now skip = false

-- With a queue of at least one frame the policy submits, with the number of frames pending that
-- pending_presents gives, exactly if the frame that completion_target_for_available_slot names is
-- completed: a wait for that frame ends as soon as it may, and no later.
pub choose_present_policy-target :
    (input : PresentPolicyInput) (last completed : ℕ)
    → 1 ≤ input.queue_limit
    → input.pending ≡ pending_presents last completed
    → presents_now (choose_present_policy input)
      ≡ leb (completion_target_for_available_slot last input.queue_limit) completed
unfolding choose_present_policy pending_presents completion_target_for_available_slot
choose_present_policy-target input last completed pos e = ground (arith, e)
