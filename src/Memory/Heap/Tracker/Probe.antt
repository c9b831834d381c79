-- ===== src/Memory/Heap/Tracker/Probe.antt =====
-- src/mm/heap.cpp: the probes of page_tracker_find.
use uni_os.Prelude.{
  ℕ, zero, suc, ◌+◌, ◌<◌, ◌≤◌, ◌≡◌, ◌≢◌, ◌↔◌, inl, inr, refl, ap, arith, false, Bool-cases, Option,
  none, some, List, length, ◌==◌, ==_iff, if◌then◌else◌, get_or, replicate, length-replicate,
}
use mathlib.Core.Path.{subst}
use uni_os.Memory.Heap.Tracker.{PageSlot, empty_slot, probe, page_at, find_from, page_tracker_find}

module _ (capacity : ℕ) where
  pub probe_lt : (page i : ℕ) → 0 < capacity → probe capacity page i < capacity
  unfolding probe
  probe_lt page i h = grind arith

  module _ (slots : List PageSlot) where
    -- A probe of the page comes to the slot, and none before it to an empty one.
    abbrev pub IsReached : (page q : ℕ) → Type 0
    IsReached page q =
        (i : ℕ) × (i < capacity)
        × (probe capacity page i ≡ q)
        × ((j : ℕ) → j < i → page_at capacity slots (probe capacity page j) ≢ 0)

    pub record IsTable : Type 0 where
      pub size : length slots ≡ capacity
      pub room : 0 < capacity
      pub reached :
          (q : ℕ)
          → q < capacity
          → 2 ≤ page_at capacity slots q
          → IsReached (page_at capacity slots q) q
      pub single :
          (q r : ℕ)
          → q < capacity
          → r < capacity
          → 2 ≤ page_at capacity slots q
          → page_at capacity slots q ≡ page_at capacity slots r
          → q ≡ r

    module _ (page : ℕ) where
      abbrev IsFound : Option ℕ → Type 0
      IsFound none = Unit {0}
      IsFound (some q) = (q < capacity) × (page_at capacity slots q ≡ page)

      IsFound-if :
          (p : ℕ) (rest : Option ℕ)
          → p < capacity
          → IsFound rest
          → let k = page_at capacity slots p in
            IsFound (if k == page then some p else if k == 0 then none else rest)
      IsFound-if p rest lt h =
          let k = page_at capacity slots p in
          elim (Bool-cases (k == page)) [
            | inl e ↦ rw e (lt, (==_iff k page).0 e)
            | inr e ↦ elim (Bool-cases (k == 0)) [ inl e' ↦ rw (e, e') tt | inr e' ↦ rw (e, e') h ]
          ]

      find_from-IsFound :
          (rounds i : ℕ) → 0 < capacity → IsFound (find_from capacity slots page rounds i)
      unfolding find_from
      find_from-IsFound zero i h = tt
      find_from-IsFound (suc rounds) i h =
          IsFound-if (probe capacity page i) (find_from capacity slots page rounds (i + 1))
            (probe_lt page i h) (find_from-IsFound rounds (i + 1) h)

      module _ (h : IsTable) (q : ℕ) (lt : q < capacity) (big : 2 ≤ page)
          (holds : page_at capacity slots q ≡ page) where
        find_from-some :
            (k rounds i : ℕ)
            → i ≤ k
            → k < i + rounds
            → probe capacity page k ≡ q
            → ((j : ℕ) → j < k → page_at capacity slots (probe capacity page j) ≢ 0)
            → find_from capacity slots page rounds i ≡ some q
        unfolding find_from
        find_from-some k zero i le some_left e full = absurd (omega arith)
        find_from-some k (suc rounds) i le some_left e full =
            let p = probe capacity page i in
            let c = page_at capacity slots p in
            elim (Bool-cases (c == page)) [
              | inl hit ↦
                  let same = (==_iff c page).0 hit in
                  let at : p ≡ q =
                    h.single p q (probe_lt page i h.room) lt (omega (arith, same, big))
                      (omega (arith, same, holds)) in
                  rw hit (ap some at)
              | inr miss ↦ elim (Bool-cases (i == k)) [
                | inl here ↦
                    let ik = (==_iff i k).0 here in absurd (ground (arith, miss, holds, e, ik))
                | inr later ↦
                    let before : i < k = ground (arith, later, le) in
                    let not_empty = full i before in
                    let go_on : (c == 0) ≡ false = ground (arith, not_empty) in
                    rw (miss, go_on)
                      (find_from-some k rounds (i + 1) (omega (arith, before))
                        (omega (arith, some_left)) e full)
              ]
            ]

      -- In a table that is in order page_tracker_find finds the slot of a page just if there is one.
      pub page_tracker_find_iff :
          (q : ℕ)
          → IsTable
          → 2 ≤ page
          → (page_tracker_find capacity slots page ≡ some q)
            ↔ ((q < capacity) × (page_at capacity slots q ≡ page))
      unfolding page_tracker_find
      page_tracker_find_iff q h big = (
        λ e. subst IsFound e (find_from-IsFound capacity 0 h.room),
        λ (lt, holds).
            let reached = h.reached q lt (omega (arith, holds, big)) in
            let (k, some_left, e, full) = subst (λ n. IsReached n q) holds reached in
            find_from-some h q lt big holds k capacity 0 (omega arith) (omega (arith, some_left)) e
              full,
      )

get_or-replicate : (n q : ℕ) → get_or (replicate n empty_slot) q empty_slot ≡ empty_slot
get_or-replicate zero q = refl
get_or-replicate (suc n) zero = refl
get_or-replicate (suc n) (suc q) = get_or-replicate n q

-- The table of heap_init.
pub replicate-IsTable :
    (capacity : ℕ) → 0 < capacity → IsTable capacity (replicate capacity empty_slot)
replicate-IsTable capacity room = record {
  size = length-replicate capacity empty_slot;
  room = room;
  reached = λ q lt big. absurd (no_page q big);
  single = λ q r lt m big same. absurd (no_page q big);
}
  where
    no_page : (q : ℕ) → 2 ≤ page_at capacity (replicate capacity empty_slot) q → ⊥
    no_page q big =
        let e = ap (λ (s : PageSlot). s.page_virt) (get_or-replicate capacity q) in
        omega (arith, e, big)
