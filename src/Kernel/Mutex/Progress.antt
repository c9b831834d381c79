-- ===== src/Kernel/Mutex/Progress.antt =====
-- src/kernel/sync/mutex.cpp: who gets a mutex that is free.
use mathlib.Core.List.{Memᴰ}
use uni_os.Prelude.{ℕ, ◌≡◌, ◌≢◌, inl, inr, refl, ap, Bool, true, false, List, [], ◌∷◌, ◌++◌}
use uni_os.Kernel.Mutex.{
  testing, taking, missing, releasing, freeing, waking, Guard, unguarded, locking, unlocking,
  System, start, test_and_set, lock_access, wake_one, unlock_access, Move, enter, lock_next,
  unlock_next, Reach,
}
use uni_os.Kernel.Mutex.Exclusion.{IsSystem, system_of, cons-ne, Reach-IsSystem}

-- Steps of processes in mutex_lock and mutex_unlock, one after the other.
pub data Moves (s : System) : System → Type 0 where
  stay : Moves s s
  more : {t u : System} → Moves s t → Move t u → Moves s u

abbrev pub tested : Guard → List ℕ
tested (locking p testing) = p ∷ []
tested (locking p taking) = []
tested (locking p missing) = []
tested unguarded = []
tested (unlocking p phase) = []

-- The processes that are in the loop of mutex_lock, before its exchange or asleep.
abbrev pub waiting : System → List ℕ
waiting s = tested s.guard ++ (s.trying ++ s.mutex.wait_queue)

-- A process of `l` can get the mutex by moves alone, and then it alone has it.
abbrev pub CanGet : System → List ℕ → Type 0
CanGet s l =
    (p : ℕ) × (t : System) × Memᴰ p l × Moves s t × (t.holding ≡ p ∷ []) × (t.mutex.owner_pid ≡ p)

Mem-append : (p : ℕ) (before after : List ℕ) → Memᴰ p (before ++ (p ∷ after))
Mem-append p [] after = Memᴰ.head refl
Mem-append p (q ∷ before) after = Memᴰ.tail (Mem-append p before after)

module _ (s : System) (owner : ℕ) (queue claiming holding : List ℕ) (none_back : holding ≡ [])
    (l : List ℕ) where
  -- The process that has the wait lock before its exchange.
  CanGet-testing :
      (p : ℕ) (trying : List ℕ)
      → Memᴰ p l
      → Moves s (system_of false owner queue (locking p testing) trying claiming holding)
      → CanGet s l
  unfolding lock_access test_and_set
  CanGet-testing p trying m moves = (
    p,
    _,
    m,
    more (more moves (lock_next p testing refl)) (lock_next p taking refl),
    ap (λ k. p ∷ k) none_back,
    refl,
  )

  -- The first process in the loop, while the wait lock is free.
  CanGet-trying :
      (p : ℕ) (trying : List ℕ)
      → Memᴰ p l
      → Moves s (system_of false owner queue unguarded (p ∷ trying) claiming holding)
      → CanGet s l
  CanGet-trying p trying m moves =
      CanGet-testing p trying m (more moves (enter p [] trying refl refl))

free_progress :
    (owner : ℕ) (queue : List ℕ) (guard : Guard) (trying claiming holding : List ℕ)
    → let s = system_of false owner queue guard trying claiming holding in
      IsSystem s → waiting s ≢ [] → CanGet s (waiting s)
unfolding unlock_access wake_one
free_progress owner queue (locking p testing) trying claiming holding h wants =
    CanGet-testing (system_of false owner queue (locking p testing) trying claiming holding) owner
      queue claiming holding h.held.1 (p ∷ (trying ++ queue)) p trying (Memᴰ.head refl) stay
free_progress owner queue (locking p taking) trying claiming holding h wants =
    absurd (cons-ne p claiming h.held.0)
free_progress owner queue (locking p missing) trying claiming holding h wants =
    let e = h.missed in absurd (cc e)
free_progress owner queue (unlocking p releasing) trying claiming holding h wants =
    absurd (cons-ne p claiming h.held.0)
free_progress owner queue (unlocking p freeing) trying claiming holding h wants =
    absurd (cons-ne p claiming h.held.0)
free_progress owner (q ∷ queue) (unlocking r waking) trying claiming holding h wants =
    CanGet-trying (system_of false owner (q ∷ queue) (unlocking r waking) trying claiming holding)
      owner queue claiming holding h.held.1 (trying ++ (q ∷ queue)) q trying
      (Mem-append q trying queue) (more stay (unlock_next r waking refl))
free_progress owner [] (unlocking r waking) (p ∷ trying) claiming holding h wants =
    CanGet-trying (system_of false owner [] (unlocking r waking) (p ∷ trying) claiming holding)
      owner [] claiming holding h.held.1 (p ∷ (trying ++ [])) p trying (Memᴰ.head refl)
      (more stay (unlock_next r waking refl))
free_progress owner [] (unlocking r waking) [] claiming holding h wants = absurd (wants refl)
free_progress owner queue unguarded (p ∷ trying) claiming holding h wants =
    CanGet-trying (system_of false owner queue unguarded (p ∷ trying) claiming holding) owner queue
      claiming holding h.held.1 (p ∷ (trying ++ queue)) p trying (Memᴰ.head refl) stay
free_progress owner [] unguarded [] claiming holding h wants = absurd (wants refl)
free_progress owner (q ∷ queue) unguarded [] claiming holding h wants = absurd (elim h.awaited [
  | inl e ↦ cons-ne q queue e
  | inr rest ↦ elim rest [ inl f ↦ f refl | inr on ↦ on ]
])

known_free :
    (locked : Bool) (owner : ℕ) (queue : List ℕ) (guard : Guard) (trying claiming holding : List ℕ)
    → let s = system_of locked owner queue guard trying claiming holding in
      IsSystem s → locked ≡ false → waiting s ≢ [] → CanGet s (waiting s)
known_free true owner queue guard trying claiming holding h e wants = absurd (cc e)
known_free false owner queue guard trying claiming holding h e wants =
    free_progress owner queue guard trying claiming holding h wants

-- A free mutex goes to one who waits for it: in any state that accesses lead to, while the mutex is free
-- and a process is in the loop of mutex_lock, before its exchange or asleep, there is such a process
-- that gets the mutex by steps of processes in mutex_lock and mutex_unlock alone, with no new call and no
-- step of mutex_try_lock. Then it alone is back from a call with the mutex, which names it.
pub Reach-CanGet :
    {s : System} → Reach start s → s.mutex.locked ≡ false → waiting s ≢ [] → CanGet s (waiting s)
Reach-CanGet {s} reach free wants =
    known_free s.mutex.locked s.mutex.owner_pid s.mutex.wait_queue s.guard s.trying s.claiming
      s.holding (Reach-IsSystem reach) free wants
