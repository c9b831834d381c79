-- ===== src/Memory/Heap/Tracker/Counts.antt =====
-- src/mm/heap.cpp: the counts of free blocks in the table of pages.
use uni_os.Prelude.{
  ℕ, ◌+◌, ◌-◌, ◌%◌, ◌^◌, ◌<◌, ◌≤◌, ◌≡◌, ◌≢◌, inl, inr, refl, sym, ap, ◌∙◌, arith, Bool-cases,
  Option, none, some, List, ltb, ◌==◌, ==_iff, if◌then◌else◌, get_or, set,
}
use mathlib.Core.Path.{subst}
use uni_os.Memory.Heap.Tracker.{
  PageSlot, empty_slot, with_free, with_page, page_at, page_around, page_tracker_find, alloc_at,
  free_at, page_tracker_alloc_block, page_tracker_free_block,
}
use uni_os.Memory.Heap.Tracker.Probe.{IsTable, page_tracker_find_iff}
use uni_os.Memory.Heap.Tracker.Add.{IsTable-set}
use uni_os.Memory.Heap.Tracker.Pages.{
  slot_at, slot_of, slot_of-some, slot_of-set_self, slot_of-set_gone, slot_of-set_ne,
}

-- A slot after one of its free blocks is taken.
abbrev pub taken : Option PageSlot → Option PageSlot
taken none = none
taken (some s) = if ltb 0 s.free_count then some (with_free s (s.free_count - 1)) else some s

-- A slot after one of its blocks is free again, and what is handed back.
abbrev pub count_after : PageSlot → ℕ
count_after s = (s.free_count + 1) % 2 ^ 16

abbrev pub freed : Option PageSlot → Option PageSlot
freed none = none
freed (some s) = if count_after s == s.total_count then none else some (with_free s (count_after s))

abbrev pub emptied : Option PageSlot → Option (ℕ × ℕ)
emptied none = none
emptied (some s) = if count_after s == s.total_count then some (s.page_virt, s.bucket_idx) else none

module _ (capacity : ℕ) where
  -- The table `slots'` is in order and has `change` done to the slot of one page.
  pub record IsChanged (change : Option PageSlot → Option PageSlot) (page : ℕ)
      (slots slots' : List PageSlot) : Type 0 where
    pub order : IsTable capacity slots'
    pub pages :
        (page' : ℕ)
        → 2 ≤ page'
        → slot_of capacity slots' page' ≡ (
            if page == page'
            then change (slot_of capacity slots page')
            else slot_of capacity slots page')

  module _ (slots : List PageSlot) (h : IsTable capacity slots) (page : ℕ) (big : 2 ≤ page) where
    -- The slot of the page gets a new count.
    counted :
        (change : Option PageSlot → Option PageSlot) (q n : ℕ)
        → q < capacity
        → page_at capacity slots q ≡ page
        → let s = get_or slots q empty_slot in
          change (some s) ≡ some (with_free s n)
          → IsChanged change page slots (set slots q (with_free s n))
    counted change q n lt e makes =
        let s = get_or slots q empty_slot in
        let s' = with_free s n in
        let ordered =
          IsTable-set capacity slots q s' h lt (λ z. omega (arith, z, e, big))
            (λ b. h.reached q lt b) (λ r m other b z. other (h.single q r lt m b (sym z))) in
        record {
          order = ordered;
          pages = λ page' big'. elim (Bool-cases (page == page')) [
            | inl z ↦
                let same = (==_iff page page').0 z in
                rw z (
                  slot_of-set_self capacity slots q s' h ordered lt page' big' (e ∙ same)
                  ∙ sym makes
                  ∙ ap change (sym (slot_of-some capacity slots h page' big' q lt (e ∙ same))))
            | inr z ↦
                let other : page_at capacity slots q ≢ page' = λ y. ground (arith, z, sym e ∙ y) in
                rw z (slot_of-set_ne capacity slots q s' h ordered lt page' big' other other)
          ];
        }

    unchanged :
        (change : Option PageSlot → Option PageSlot)
        → change (slot_of capacity slots page) ≡ slot_of capacity slots page
        → IsChanged change page slots slots
    unchanged change same = record {
      order = h;
      pages = λ page' big'. elim (Bool-cases (page == page')) [
        | inl z ↦
            let e = (==_iff page page').0 z in
            rw z (
              subst (λ n. slot_of capacity slots n ≡ change (slot_of capacity slots n)) e
                (sym same))
        | inr z ↦ rw z refl
      ];
    }

    -- The slot of the page becomes a tombstone.
    buried :
        (change : Option PageSlot → Option PageSlot) (q n : ℕ)
        → q < capacity
        → page_at capacity slots q ≡ page
        → change (some (get_or slots q empty_slot)) ≡ none
        → IsChanged change page slots
            (set slots q (with_page (with_free (get_or slots q empty_slot) n) 1))
    buried change q n lt e makes =
        let s' = with_page (with_free (get_or slots q empty_slot) n) 1 in
        let ordered =
          IsTable-set capacity slots q s' h lt (λ z. absurd (omega (arith, z)))
            (λ b. absurd (omega (arith, b))) (λ r m other b z. absurd (omega (arith, b))) in
        record {
          order = ordered;
          pages = λ page' big'. elim (Bool-cases (page == page')) [
            | inl z ↦
                let same = (==_iff page page').0 z in
                rw z (
                  slot_of-set_gone capacity slots q s' h ordered lt page' big' (e ∙ same)
                    (λ y. absurd (omega (arith, y, big')))
                  ∙ sym makes
                  ∙ ap change (sym (slot_of-some capacity slots h page' big' q lt (e ∙ same))))
            | inr z ↦
                let other : page_at capacity slots q ≢ page' = λ y. ground (arith, z, sym e ∙ y) in
                rw z (
                  slot_of-set_ne capacity slots q s' h ordered lt page' big' other
                    (λ y. absurd (omega (arith, y, big'))))
          ];
        }

  module _ (slots : List PageSlot) (h : IsTable capacity slots) (block : ℕ)
      (big : 2 ≤ page_around block) where
    alloc_at-IsChanged :
        (o : Option ℕ)
        → page_tracker_find capacity slots (page_around block) ≡ o
        → IsChanged taken (page_around block) slots (alloc_at capacity slots o)
    unfolding slot_of
    alloc_at-IsChanged none e =
        unchanged slots h (page_around block) big taken
          (ap (λ o. taken (slot_at slots o)) e ∙ sym (ap (slot_at slots) e))
    alloc_at-IsChanged (some p) e =
        let (lt, at) = (page_tracker_find_iff capacity slots (page_around block) p h big).0 e in
        let s = get_or slots p empty_slot in
        elim (Bool-cases (ltb 0 s.free_count)) [
          | inl z ↦
              rw z (
                counted slots h (page_around block) big taken p (s.free_count - 1) lt at
                  (rw z refl))
          | inr z ↦
              let same : taken (some s) ≡ some s = rw z refl in
              rw z (
                unchanged slots h (page_around block) big taken
                  (ap (λ o. taken (slot_at slots o)) e ∙ same ∙ sym (ap (slot_at slots) e)))
        ]

    -- page_tracker_alloc_block counts the block off from the slot of its page, where the page has one
    -- with a count above 0, and leaves every other page what it had.
    pub page_tracker_alloc_block-IsChanged :
        IsChanged taken (page_around block) slots (page_tracker_alloc_block capacity slots block)
    unfolding page_tracker_alloc_block
    page_tracker_alloc_block-IsChanged =
        alloc_at-IsChanged (page_tracker_find capacity slots (page_around block)) refl

    free_at-IsChanged :
        (o : Option ℕ)
        → page_tracker_find capacity slots (page_around block) ≡ o
        → IsChanged freed (page_around block) slots (free_at capacity slots o).0
          × ((free_at capacity slots o).1 ≡ emptied (slot_of capacity slots (page_around block)))
    unfolding slot_of
    free_at-IsChanged none e = (
      unchanged slots h (page_around block) big freed
          (ap (λ o. freed (slot_at slots o)) e ∙ sym (ap (slot_at slots) e)),
      sym (ap (λ o. emptied (slot_at slots o)) e),
    )
    free_at-IsChanged (some p) e =
        let (lt, at) = (page_tracker_find_iff capacity slots (page_around block) p h big).0 e in
        let s = get_or slots p empty_slot in
        let n = count_after s in
        let found = sym (ap (λ o. emptied (slot_at slots o)) e) in
        elim (Bool-cases (n == s.total_count)) [
          | inl z ↦ rw z (
            buried slots h (page_around block) big freed p n lt at (rw z refl),
            (rw z refl) ∙ found,
          )
          | inr z ↦ rw z (
            counted slots h (page_around block) big freed p n lt at (rw z refl),
            (rw z refl) ∙ found,
          )
        ]

    -- For a table of pages in order and a block in a page from address 2 on: page_tracker_free_block
    -- leaves the table in order and counts the block on to the slot of its page, where the page has one.
    -- Where the count comes to the number of its blocks the page leaves the table, and the answer is the
    -- page with its bucket; else there is no answer. Every other page from address 2 on keeps what it had.
    pub page_tracker_free_block-IsChanged :
        let (slots', answer) = page_tracker_free_block capacity slots block in
        IsChanged freed (page_around block) slots slots'
        × (answer ≡ emptied (slot_of capacity slots (page_around block)))
    unfolding page_tracker_free_block
    page_tracker_free_block-IsChanged =
        free_at-IsChanged (page_tracker_find capacity slots (page_around block)) refl
