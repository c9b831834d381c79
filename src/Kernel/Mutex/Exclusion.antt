-- ===== src/Kernel/Mutex/Exclusion.antt =====
-- src/kernel/sync/mutex.cpp: who has the mutex.
use mathlib.Core.Path.{subst}
use mathlib.Core.List.{append_assoc}
use uni_os.Prelude.{
  ℕ, ◌≡◌, ◌≢◌, ◌⊎◌, inl, inr, refl, ap, sym, ◌∙◌, Bool, true, false, List, [], ◌∷◌, ◌++◌,
}
use uni_os.Kernel.Mutex.{
  LockPhase, testing, taking, missing, UnlockPhase, releasing, freeing, waking, Guard, unguarded,
  locking, unlocking, System, start, test_and_set, lock_access, wake_one, with_woken, unlock_access,
  try_exchange, try_owner, Move, enter, lock_next, unlock_next, Step, move, call_lock, call_unlock,
  try, claim, Reach, here, next,
}

-- The process that has the mutex and the wait lock: in mutex_lock after an exchange that won, or in
-- mutex_unlock before the release.
abbrev pub has : Guard → List ℕ
has unguarded = []
has (locking p testing) = []
has (locking p taking) = p ∷ []
has (locking p missing) = []
has (unlocking p releasing) = p ∷ []
has (unlocking p freeing) = p ∷ []
has (unlocking p waking) = []

-- Those that have the mutex inside of a call.
abbrev pub inside : Guard → (claiming : List ℕ) → List ℕ
inside guard claiming = has guard ++ claiming

-- Nobody has a free mutex. One process has a locked one: it is inside of a call, or else back from the
-- call that got it the mutex, and then the mutex names it.
abbrev pub IsHeld : Bool → (owner : ℕ) → (inside holding : List ℕ) → Type 0
IsHeld false owner inside holding = (inside ≡ []) × (holding ≡ [])
IsHeld true owner inside holding =
    ((holding ≡ []) × (p : ℕ) × (inside ≡ p ∷ [])) ⊎ ((inside ≡ []) × (holding ≡ owner ∷ []))

-- While a process has the wait lock to go to sleep, the mutex stays locked.
abbrev pub IsMissed : Guard → Bool → Type 0
IsMissed (locking p missing) locked = locked ≡ true
IsMissed (locking p testing) locked = Unit {0}
IsMissed (locking p taking) locked = Unit {0}
IsMissed unguarded locked = Unit {0}
IsMissed (unlocking p phase) locked = Unit {0}

-- Whoever has the wait lock is about to try the mutex or to wake a sleeper.
abbrev pub IsOn : Guard → Type 0
IsOn (locking p testing) = Unit {0}
IsOn (unlocking p waking) = Unit {0}
IsOn (locking p taking) = ⊥
IsOn (locking p missing) = ⊥
IsOn unguarded = ⊥
IsOn (unlocking p releasing) = ⊥
IsOn (unlocking p freeing) = ⊥

-- Whoever sleeps can be woken: the mutex is locked, or a process is on the way to it.
abbrev pub IsAwaited : Bool → (queue trying : List ℕ) → Guard → Type 0
IsAwaited true queue trying guard = Unit {0}
IsAwaited false queue trying guard = (queue ≡ []) ⊎ (trying ≢ []) ⊎ IsOn guard

pub record IsSystem (s : System) : Type 0 where
  pub held : IsHeld s.mutex.locked s.mutex.owner_pid (inside s.guard s.claiming) s.holding
  pub missed : IsMissed s.guard s.mutex.locked
  pub awaited : IsAwaited s.mutex.locked s.mutex.wait_queue s.trying s.guard

abbrev pub system_of :
    Bool → ℕ → (queue : List ℕ) → Guard → (trying claiming holding : List ℕ) → System
system_of locked owner queue guard trying claiming holding = record {
  mutex = record { locked = locked; owner_pid = owner; wait_queue = queue };
  guard = guard;
  trying = trying;
  claiming = claiming;
  holding = holding;
}

pub cons-ne : (p : ℕ) (l : List ℕ) → (p ∷ l) ≢ []
cons-ne p l e = absurd (cc e)

rest_empty : (p q : ℕ) (l : List ℕ) → (p ∷ l) ≡ (q ∷ []) → l ≡ []
rest_empty p q [] e = refl
rest_empty p q (r ∷ l) e = absurd (cc e)

-- A list with a process in it that has one entry has no other.
no_others :
    (before after : List ℕ) (p owner : ℕ)
    → before ++ (p ∷ after) ≡ owner ∷ []
    → before ++ after ≡ []
no_others [] [] p owner e = refl
no_others [] (q ∷ after) p owner e = absurd (cc e)
no_others (q ∷ []) after p owner e = absurd (cc e)
no_others (q ∷ r ∷ before) after p owner e = absurd (cc e)

not_empty : (before after : List ℕ) (p : ℕ) → before ++ (p ∷ after) ≢ []
not_empty [] after p e = absurd (cc e)
not_empty (q ∷ before) after p e = absurd (cc e)

one_more : (l after : List ℕ) (p : ℕ) → l ++ after ≡ [] → l ++ (p ∷ after) ≡ p ∷ []
one_more [] after p e = rw e refl
one_more (q ∷ l) after p e = absurd (cc e)

IsAwaited-woken :
    (locked : Bool) (queue trying : List ℕ)
    → let (woken, left) = wake_one queue in
      IsAwaited locked left (with_woken woken trying) unguarded
unfolding wake_one
IsAwaited-woken true queue trying = tt
IsAwaited-woken false [] trying = inl refl
IsAwaited-woken false (q ∷ queue) trying = inr (inl (cons-ne q trying))

IsAwaited-more :
    (locked : Bool) (queue trying : List ℕ) (guard : Guard) (p : ℕ)
    → IsAwaited locked queue (p ∷ trying) guard
IsAwaited-more true queue trying guard p = tt
IsAwaited-more false queue trying guard p = inr (inl (cons-ne p trying))

IsAwaited-on :
    (locked : Bool) (queue trying : List ℕ) (guard : Guard)
    → IsOn guard
    → IsAwaited locked queue trying guard
IsAwaited-on true queue trying guard h = tt
IsAwaited-on false queue trying guard h = inr (inr h)

IsMissed-locked : (guard : Guard) → IsMissed guard true
IsMissed-locked unguarded = tt
IsMissed-locked (locking p testing) = tt
IsMissed-locked (locking p taking) = tt
IsMissed-locked (locking p missing) = refl
IsMissed-locked (unlocking p phase) = tt

module _ (owner : ℕ) (queue trying claiming holding : List ℕ) where
  lock_access-IsSystem :
      (locked : Bool) (p : ℕ) (phase : LockPhase)
      → let s = system_of locked owner queue (locking p phase) trying claiming holding in
        IsSystem s → IsSystem (lock_access p phase s)
  unfolding lock_access test_and_set
  lock_access-IsSystem true p testing h = record { held = h.held; missed = refl; awaited = tt }
  lock_access-IsSystem false p testing h = record {
    held = inl (h.held.1, p, ap (λ l. p ∷ l) h.held.0);
    missed = tt;
    awaited = tt;
  }
  lock_access-IsSystem true p taking h = record {
    held = elim h.held [
      | inl (e, q, f) ↦ inr (rest_empty p q claiming f, ap (λ l. p ∷ l) e)
      | inr (e, f) ↦ absurd (cons-ne p claiming e)
    ];
    missed = tt;
    awaited = tt;
  }
  lock_access-IsSystem false p taking h = absurd (cons-ne p claiming h.held.0)
  lock_access-IsSystem true p missing h = record { held = h.held; missed = tt; awaited = tt }
  lock_access-IsSystem false p missing h = let e = h.missed in absurd (cc e)

  unlock_access-IsSystem :
      (locked : Bool) (p : ℕ) (phase : UnlockPhase)
      → let s = system_of locked owner queue (unlocking p phase) trying claiming holding in
        IsSystem s → IsSystem (unlock_access p phase s)
  unfolding unlock_access wake_one
  unlock_access-IsSystem true p releasing h = record {
    held = elim h.held [ inl one ↦ inl one | inr (e, f) ↦ absurd (cons-ne p claiming e) ];
    missed = tt;
    awaited = tt;
  }
  unlock_access-IsSystem false p releasing h = absurd (cons-ne p claiming h.held.0)
  unlock_access-IsSystem true p freeing h = record {
    held = elim h.held [
      | inl (e, q, f) ↦ (rest_empty p q claiming f, e)
      | inr (e, f) ↦ absurd (cons-ne p claiming e)
    ];
    missed = tt;
    awaited = inr (inr tt);
  }
  unlock_access-IsSystem false p freeing h = absurd (cons-ne p claiming h.held.0)
  unlock_access-IsSystem locked p waking h = record {
    held = h.held;
    missed = tt;
    awaited = IsAwaited-woken locked queue trying;
  }

  try_exchange-IsSystem :
      (locked : Bool) (guard : Guard) (p : ℕ)
      → let s = system_of locked owner queue guard trying claiming holding in
        IsSystem s → IsSystem (try_exchange p s)
  unfolding try_exchange test_and_set
  try_exchange-IsSystem true guard p h = h
  try_exchange-IsSystem false guard p h = record {
    held = inl (h.held.1, p, one_more (has guard) claiming p h.held.0);
    missed = IsMissed-locked guard;
    awaited = tt;
  }

  try_owner-IsSystem :
      (locked : Bool) (guard : Guard) (p : ℕ) (before after : List ℕ)
      → claiming ≡ before ++ (p ∷ after)
      → let s = system_of locked owner queue guard trying claiming holding in
        IsSystem s → IsSystem (try_owner p (before ++ after) s)
  unfolding try_owner
  try_owner-IsSystem locked guard p before after e h =
      let split : inside guard claiming ≡ (has guard ++ before) ++ (p ∷ after) =
        ap (λ l. has guard ++ l) e ∙ sym (append_assoc (has guard) before (p ∷ after)) in
      owned locked guard p before after split h
    where
      owned :
          (locked : Bool) (guard : Guard) (p : ℕ) (before after : List ℕ)
          → inside guard claiming ≡ (has guard ++ before) ++ (p ∷ after)
          → let s = system_of locked owner queue guard trying claiming holding in
            IsSystem s → IsSystem (try_owner p (before ++ after) s)
      owned false guard p before after e h =
          absurd (not_empty (has guard ++ before) after p (sym e ∙ h.held.0))
      owned true guard p before after e h = record {
        held = elim h.held [
          | inl (none_back, q, f) ↦ inr (
            sym (append_assoc (has guard) before after)
                ∙ no_others (has guard ++ before) after p q (sym e ∙ f),
            ap (λ l. p ∷ l) none_back,
          )
          | inr (f, back) ↦ absurd (not_empty (has guard ++ before) after p (sym e ∙ f))
        ];
        missed = h.missed;
        awaited = tt;
      }

  call_unlock-IsSystem :
      (locked : Bool) (p : ℕ) (before after : List ℕ)
      → holding ≡ before ++ (p ∷ after)
      → IsSystem (system_of locked owner queue unguarded trying claiming holding)
      → IsSystem
          (system_of locked owner queue (unlocking p releasing) trying claiming (before ++ after))
  call_unlock-IsSystem false p before after e h =
      absurd (not_empty before after p (sym e ∙ h.held.1))
  call_unlock-IsSystem true p before after e h = record {
    held = elim h.held [
      | inl (none_back, q, f) ↦ absurd (not_empty before after p (sym e ∙ none_back))
      | inr (f, back) ↦ inl (no_others before after p owner (sym e ∙ back), p, ap (λ l. p ∷ l) f)
    ];
    missed = tt;
    awaited = tt;
  }

-- The same system, the guard of which is known.
abbrev with_guard : System → Guard → System
with_guard s guard = record s { guard = guard }

-- The accesses do not look at the guard.
lock_access-with_guard :
    (s : System) (guard : Guard) (p : ℕ) (phase : LockPhase)
    → lock_access p phase (with_guard s guard) ≡ lock_access p phase s
unfolding lock_access test_and_set
lock_access-with_guard s guard p testing = refl
lock_access-with_guard s guard p taking = refl
lock_access-with_guard s guard p missing = refl

unlock_access-with_guard :
    (s : System) (guard : Guard) (p : ℕ) (phase : UnlockPhase)
    → unlock_access p phase (with_guard s guard) ≡ unlock_access p phase s
unfolding unlock_access
unlock_access-with_guard s guard p releasing = refl
unlock_access-with_guard s guard p freeing = refl
unlock_access-with_guard s guard p waking = refl

Move-IsSystem : {s t : System} → Move s t → IsSystem s → IsSystem t
Move-IsSystem {s} (enter p before after e f) h =
    let h' : IsSystem (with_guard s unguarded) = subst (λ g. IsSystem (with_guard s g)) e h in
    record {
      held = h'.held;
      missed = tt;
      awaited =
          IsAwaited-on s.mutex.locked s.mutex.wait_queue (before ++ after) (locking p testing) tt;
    }
Move-IsSystem {s} (lock_next p phase e) h =
    subst IsSystem (lock_access-with_guard s (locking p phase) p phase) (
      lock_access-IsSystem s.mutex.owner_pid s.mutex.wait_queue s.trying s.claiming s.holding
        s.mutex.locked p phase (subst (λ g. IsSystem (with_guard s g)) e h))
Move-IsSystem {s} (unlock_next p phase e) h =
    subst IsSystem (unlock_access-with_guard s (unlocking p phase) p phase) (
      unlock_access-IsSystem s.mutex.owner_pid s.mutex.wait_queue s.trying s.claiming s.holding
        s.mutex.locked p phase (subst (λ g. IsSystem (with_guard s g)) e h))

Step-IsSystem : {s t : System} → Step s t → IsSystem s → IsSystem t
Step-IsSystem (move m) h = Move-IsSystem m h
Step-IsSystem {s} (call_lock p) h = record {
  held = h.held;
  missed = h.missed;
  awaited = IsAwaited-more s.mutex.locked s.mutex.wait_queue s.trying s.guard p;
}
Step-IsSystem {s} (call_unlock p before after e f) h =
    call_unlock-IsSystem s.mutex.owner_pid s.mutex.wait_queue s.trying s.claiming s.holding
      s.mutex.locked p before after f (subst (λ g. IsSystem (with_guard s g)) e h)
Step-IsSystem {s} (try p) h =
    try_exchange-IsSystem s.mutex.owner_pid s.mutex.wait_queue s.trying s.claiming s.holding
      s.mutex.locked s.guard p h
Step-IsSystem {s} (claim p before after e) h =
    try_owner-IsSystem s.mutex.owner_pid s.mutex.wait_queue s.trying s.claiming s.holding
      s.mutex.locked s.guard p before after e h

-- In whatever order the accesses of processes come that call mutex_lock, mutex_try_lock and
-- mutex_unlock, the last only while they have the mutex, no two have it at a time: while it is free
-- nobody has it, and while it is locked exactly one process does. It is inside of a call, which may not
-- have stored the owner yet, or back from the call, and then the mutex names it. And nobody sleeps for
-- want of a wake: while the mutex is free and a process sleeps, another is in the loop of mutex_lock, or
-- a call of mutex_unlock is about to wake one.
pub Reach-IsSystem : {s : System} → Reach start s → IsSystem s
Reach-IsSystem here = record { held = (refl, refl); missed = tt; awaited = inl refl }
Reach-IsSystem (next reach step) = Step-IsSystem step (Reach-IsSystem reach)
