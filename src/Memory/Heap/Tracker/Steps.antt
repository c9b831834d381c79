-- ===== src/Memory/Heap/Tracker/Steps.antt =====
-- src/mm/heap.cpp: what the operations on the table of pages do to the map from pages to slots.
use uni_os.Prelude.{
  some-none, ℕ, ◌+◌, ◌-◌, ◌%◌, ◌<◌, ◌≤◌, ◌≡◌, ◌≢◌, inl, inr, sym, ap, ◌∙◌, arith, Bool-cases,
  Option, none, some, List, ltb, ◌==◌, ==_iff, if◌then◌else◌, get_or, set,
}
use mathlib.Core.Path.{subst}
use native.Mathlib.Nat.{mod-lt, mod-eq_of_lt, add-mod_left}
use uni_os.Memory.Heap.Tracker.{
  PageSlot, empty_slot, hash_page, probe, page_at, open_from, page_tracker_add,
}
use uni_os.Memory.Heap.Tracker.Probe.{IsTable}
use uni_os.Memory.Heap.Tracker.Add.{IsOpenAt, open_from-IsOpenAt, IsTable-set}
use uni_os.Memory.Heap.Tracker.Pages.{slot_of, slot_of-some, slot_of-set_self, slot_of-set_ne}

module _ (capacity : ℕ) where
  hash_lt : (page : ℕ) → 0 < capacity → hash_page capacity page < capacity
  unfolding hash_page
  hash_lt page room = mod-lt _ room

  -- Every slot is probed.
  probe_onto : (page q : ℕ) → q < capacity → (i : ℕ) × (i < capacity) × (probe capacity page i ≡ q)
  unfolding probe
  probe_onto page q lt =
      let h = hash_page capacity page in
      let small : h < capacity = hash_lt page (omega (arith, lt)) in
      elim (Bool-cases (ltb q h)) [
        | inl e ↦
            let sum : h + (capacity - h + q) ≡ capacity + q = omega (arith, small) in
            (
              capacity - h + q,
              ground (arith, e, small),
              ap (λ n. n % capacity) sum ∙ add-mod_left capacity q ∙ mod-eq_of_lt lt,
            )
        | inr e ↦
            let sum : h + (q - h) ≡ q = ground (arith, e) in
            (q - h, omega (arith, lt), ap (λ n. n % capacity) sum ∙ mod-eq_of_lt lt)
      ]

  module _ (slots : List PageSlot) (h : IsTable capacity slots) where
    module _ (page bucket_idx total : ℕ) (big : 2 ≤ page)
        (absent : slot_of capacity slots page ≡ none) where
      abbrev new_slot : PageSlot
      new_slot = record {
        page_virt = page;
        bucket_idx = bucket_idx;
        free_count = total;
        total_count = total;
      }

      -- What page_tracker_add leads to.
      abbrev pub IsAdded : Option (List PageSlot) → Type 0
      IsAdded none = (q : ℕ) → q < capacity → 2 ≤ page_at capacity slots q
      IsAdded (some slots') =
          IsTable capacity slots'
          × ((page' : ℕ)
              → 2 ≤ page'
              → slot_of capacity slots' page'
                ≡ (if page == page' then some new_slot else slot_of capacity slots page'))

      no_slot : (q : ℕ) → q < capacity → page_at capacity slots q ≢ page
      no_slot q lt e =
          some-none (get_or slots q empty_slot)
            (sym (slot_of-some capacity slots h page big q lt e) ∙ absent)

      added :
          (o : Option ℕ)
          → IsOpenAt capacity slots page 0 o
          → IsAdded (elim o [ none ↦ none | some r ↦ some (set slots r new_slot) ])
      added none k = λ q lt.
          let (i, l, e) = probe_onto page q lt in
          subst (λ n. 2 ≤ page_at capacity slots n) e (k i (omega arith) l)
      added (some r) (lt, free, k, l, e, before) =
          let ordered =
            IsTable-set capacity slots r new_slot h lt (λ z. absurd (omega (arith, z, big)))
              (λ b. (k, l, e, λ j m. before j (omega arith) m)) (λ q m n b. no_slot q m) in
          (
            ordered,
            λ page' big'. elim (Bool-cases (page == page')) [
              | inl z ↦
                  let same = (==_iff page page').0 z in
                  rw z (slot_of-set_self capacity slots r new_slot h ordered lt page' big' same)
              | inr z ↦ rw z (
                  slot_of-set_ne capacity slots r new_slot h ordered lt page' big'
                    (λ y. omega (arith, y, free, big')) (λ y. ground (arith, z, y)))
            ],
          )

      -- page_tracker_add of a page from address 2 on that a table in order does not have: it answers
      -- false only where every slot of the table has a page; else the table stays in order, the page gets
      -- a slot with all its blocks free, and every other page from address 2 on keeps what it had.
      pub page_tracker_add-IsAdded : IsAdded (page_tracker_add capacity slots page bucket_idx total)
      unfolding page_tracker_add
      page_tracker_add-IsAdded =
          added (open_from capacity slots page capacity 0)
            (open_from-IsOpenAt capacity slots page capacity 0 (omega arith) h.room)
