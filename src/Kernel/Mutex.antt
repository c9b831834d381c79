-- ===== src/Kernel/Mutex.antt =====
-- src/kernel/sync/mutex.cpp and include/kernel/sync/mutex.h: the mutex on which processes sleep. Each
-- access to the mutex is a step of its own: mutex_lock and mutex_unlock make theirs one after the other
-- while they have the wait lock, and mutex_try_lock makes its two without it, between any others. The
-- boost of the owner's priority changes no state that is modelled.
pub mod Exclusion
pub mod Progress
use uni_os.Prelude.{
  ℕ, zero, suc, Bool, true, false, Option, none, some, List, [], ◌∷◌, ◌++◌, ◌≡◌, if◌then◌else◌,
}

pub record Mutex : Type 0 where
  pub locked : Bool
  pub owner_pid : ℕ
  pub wait_queue : List ℕ

abbrev pub mutex_init : Mutex
mutex_init = record { locked = false; owner_pid = 0; wait_queue = [] }

-- Where a process is in mutex_lock: before the exchange, or after it, before the store of the owner or
-- before it goes to sleep.
pub data LockPhase : Type 0 where
  testing taking missing : LockPhase

-- Where a process is in mutex_unlock: before the owner is cleared, before the mutex is released, before
-- the first sleeper is woken.
pub data UnlockPhase : Type 0 where
  releasing freeing waking : UnlockPhase

-- Who has the wait lock.
pub data Guard : Type 0 where
  unguarded : Guard
  locking : ℕ → LockPhase → Guard
  unlocking : ℕ → UnlockPhase → Guard

-- The processes around a mutex: `trying` are in the loop of mutex_lock, awake and without the wait lock,
-- `claiming` in mutex_try_lock after an exchange that won, and `holding` are back from a call that got
-- them the mutex.
pub record System : Type 0 where
  pub mutex : Mutex
  pub guard : Guard
  pub trying : List ℕ
  pub claiming : List ℕ
  pub holding : List ℕ

abbrev pub start : System
start = record { mutex = mutex_init; guard = unguarded; trying = []; claiming = []; holding = [] }

-- `__sync_lock_test_and_set(&mtx->locked, 1)`: what was there before, and the mutex.
unfoldable pub test_and_set : Mutex → Bool × Mutex
test_and_set m = (m.locked, record m { locked = true })

-- The next access of a process in mutex_lock. With the last the wait lock is free again: mutex_lock
-- releases it, or scheduler_wait does, and the process is asleep.
unfoldable pub lock_access : ℕ → LockPhase → System → System
lock_access p testing s =
    let (was_locked, m) = test_and_set s.mutex in
    record s { mutex = m; guard = locking p (if was_locked then missing else taking) }
lock_access p taking s = record s {
  mutex = record s.mutex { owner_pid = p };
  guard = unguarded;
  holding = p ∷ s.holding;
}
lock_access p missing s = record s {
  mutex = record s.mutex { wait_queue = s.mutex.wait_queue ++ (p ∷ []) };
  guard = unguarded;
}

-- `scheduler_wake_one`: the head of the queue, and the queue without it.
unfoldable pub wake_one : List ℕ → Option ℕ × List ℕ
wake_one [] = (none, [])
wake_one (p ∷ queue) = (some p, queue)

abbrev pub with_woken : Option ℕ → List ℕ → List ℕ
with_woken none trying = trying
with_woken (some p) trying = p ∷ trying

-- The next access of a process in mutex_unlock. A process that is woken is in its loop again.
unfoldable pub unlock_access : ℕ → UnlockPhase → System → System
unlock_access p releasing s = record s {
  mutex = record s.mutex { owner_pid = 0 };
  guard = unlocking p freeing;
}
unlock_access p freeing s = record s {
  mutex = record s.mutex { locked = false };
  guard = unlocking p waking;
}
unlock_access p waking s =
    let (woken, queue) = wake_one s.mutex.wait_queue in
    record s {
      mutex = record s.mutex { wait_queue = queue };
      guard = unguarded;
      trying = with_woken woken s.trying;
    }

-- The exchange of mutex_try_lock, which answers false if the mutex was locked.
unfoldable pub try_exchange : ℕ → System → System
try_exchange p s =
    let (was_locked, m) = test_and_set s.mutex in
    record s { mutex = m; claiming = if was_locked then s.claiming else p ∷ s.claiming }

-- Its store of the owner, after an exchange that won: `others` are the other processes that claim.
unfoldable pub try_owner : ℕ → (others : List ℕ) → System → System
try_owner p others s = record s {
  mutex = record s.mutex { owner_pid = p };
  claiming = others;
  holding = p ∷ s.holding;
}

-- A step of a process that is in mutex_lock or in mutex_unlock: it takes the wait lock to go on in its
-- loop, or makes its next access.
pub data Move (s : System) : System → Type 0 where
  enter :
      (p : ℕ) (before after : List ℕ)
      → s.guard ≡ unguarded
      → s.trying ≡ before ++ (p ∷ after)
      → Move s (record s { guard = locking p testing; trying = before ++ after })
  lock_next :
      (p : ℕ) (phase : LockPhase) → s.guard ≡ locking p phase → Move s (lock_access p phase s)
  unlock_next :
      (p : ℕ) (phase : UnlockPhase) → s.guard ≡ unlocking p phase → Move s (unlock_access p phase s)

-- A step of any process. It calls mutex_unlock only while it has the mutex. Which process comes next is
-- open.
pub data Step (s : System) : System → Type 0 where
  move : {t : System} → Move s t → Step s t
  call_lock : (p : ℕ) → Step s (record s { trying = p ∷ s.trying })
  call_unlock :
      (p : ℕ) (before after : List ℕ)
      → s.guard ≡ unguarded
      → s.holding ≡ before ++ (p ∷ after)
      → Step s (record s { guard = unlocking p releasing; holding = before ++ after })
  try : (p : ℕ) → Step s (try_exchange p s)
  claim :
      (p : ℕ) (before after : List ℕ)
      → s.claiming ≡ before ++ (p ∷ after)
      → Step s (try_owner p (before ++ after) s)

pub data Reach (s : System) : System → Type 0 where
  here : Reach s s
  next : {t u : System} → Reach s t → Step t u → Reach s u
