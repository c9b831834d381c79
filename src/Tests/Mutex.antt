-- ===== src/Tests/Mutex.antt =====
-- Runs of src/kernel/sync/mutex.cpp.
use uni_os.Prelude.{[], ◌∷◌, true, false, refl}
use uni_os.Kernel.Mutex.{
  testing, taking, missing, releasing, freeing, waking, unguarded, locking, unlocking, System,
  start, test_and_set, lock_access, unlock_access, try_exchange, enter, lock_next, unlock_next,
  move, call_lock, call_unlock, try, Reach, here, next,
}
use uni_os.Kernel.Mutex.Exclusion.{IsSystem, system_of, Reach-IsSystem}
use uni_os.Kernel.Mutex.Progress.{CanGet, Reach-CanGet}

-- Process 7 has the mutex.
abbrev taken : System
taken = system_of true 7 [] unguarded [] [] (7 ∷ [])

-- Process 8 sleeps.
abbrev asleep : System
asleep = system_of true 7 (8 ∷ []) unguarded [] [] (7 ∷ [])

-- Process 7 has released it, and has not woken process 8.
abbrev released : System
released = system_of false 0 (8 ∷ []) (unlocking 7 waking) [] [] []

-- The exchange of process 5 has won in mutex_try_lock and its store is to come, while process 7 is about
-- to sleep.
abbrev claimed : System
claimed = system_of true 0 [] (locking 7 missing) [] (5 ∷ []) []

Reach-taken : Reach start taken
unfolding lock_access test_and_set
Reach-taken =
    next
      (next (next (next here (call_lock 7)) (move (enter 7 [] [] refl refl)))
        (move (lock_next 7 testing refl)))
      (move (lock_next 7 taking refl))

Reach-asleep : Reach start asleep
unfolding lock_access test_and_set
Reach-asleep =
    next
      (next (next (next Reach-taken (call_lock 8)) (move (enter 8 [] [] refl refl)))
        (move (lock_next 8 testing refl)))
      (move (lock_next 8 missing refl))

Reach-released : Reach start released
unfolding unlock_access
Reach-released =
    next
      (next (next Reach-asleep (call_unlock 7 [] [] refl refl))
        (move (unlock_next 7 releasing refl)))
      (move (unlock_next 7 freeing refl))

Reach-claimed : Reach start claimed
unfolding lock_access test_and_set try_exchange
Reach-claimed =
    next (next (next (next here (try 5)) (call_lock 7)) (move (enter 7 [] [] refl refl)))
      (move (lock_next 7 testing refl))

Reach-IsSystem_example : IsSystem claimed
Reach-IsSystem_example = Reach-IsSystem Reach-claimed

Reach-CanGet_example : CanGet released (8 ∷ [])
Reach-CanGet_example = Reach-CanGet Reach-released refl (λ e. absurd (cc e))
