-- ===== src/Memory/Heap/Tracker/Pages.antt =====
-- src/mm/heap.cpp: the table of pages as a map from pages to their slots.
use uni_os.Prelude.{
  some-none, ℕ, ◌<◌, ◌≤◌, ◌≡◌, ◌≢◌, ◌⊎◌, inl, inr, refl, sym, ap, ◌∙◌, arith, Option-cases, Option,
  none, some, List, length, get_or, set, get_or-set_self, get_or-set_ne,
}
use mathlib.Core.Path.{subst}
use uni_os.Memory.Heap.Tracker.{PageSlot, empty_slot, page_at, page_tracker_find}
use uni_os.Memory.Heap.Tracker.Probe.{IsTable, page_tracker_find_iff}
use uni_os.Memory.Heap.Tracker.Add.{page_at-set}

abbrev pub slot_at : List PageSlot → Option ℕ → Option PageSlot
slot_at slots none = none
slot_at slots (some q) = some (get_or slots q empty_slot)

module _ (capacity : ℕ) where
  -- The slot of a page.
  unfoldable pub slot_of : List PageSlot → (page : ℕ) → Option PageSlot
  slot_of slots page = slot_at slots (page_tracker_find capacity slots page)

  module _ (slots : List PageSlot) (h : IsTable capacity slots) (page : ℕ) (big : 2 ≤ page) where
    pub slot_of-some :
        (q : ℕ)
        → q < capacity
        → page_at capacity slots q ≡ page
        → slot_of slots page ≡ some (get_or slots q empty_slot)
    unfolding slot_of
    slot_of-some q lt e =
        ap (slot_at slots) ((page_tracker_find_iff capacity slots page q h big).1 (lt, e))

    pub slot_of-none :
        ((q : ℕ) → q < capacity → page_at capacity slots q ≢ page) → slot_of slots page ≡ none
    unfolding slot_of
    slot_of-none absent = elim (Option-cases (page_tracker_find capacity slots page)) [
      | inl e ↦ ap (slot_at slots) e
      | inr (q, e) ↦
          let (lt, at) = (page_tracker_find_iff capacity slots page q h big).0 e in
          absurd (absent q lt at)
    ]

    pub page_cases :
        ((q : ℕ) × (q < capacity) × (page_at capacity slots q ≡ page))
        ⊎ ((q : ℕ) → q < capacity → page_at capacity slots q ≢ page)
    page_cases = elim (Option-cases (page_tracker_find capacity slots page)) [
      | inl e ↦ inr (λ q lt at.
          let found = (page_tracker_find_iff capacity slots page q h big).1 (lt, at) in
          some-none q (sym found ∙ e))
      | inr (q, e) ↦
          let (lt, at) = (page_tracker_find_iff capacity slots page q h big).0 e in inl (q, lt, at)
    ]

  -- A write to one slot of a table, of which both before and after are in order.
  module _ (slots : List PageSlot) (r : ℕ) (s : PageSlot) (h : IsTable capacity slots)
      (h' : IsTable capacity (set slots r s)) (lt : r < capacity) (page : ℕ) (big : 2 ≤ page) where
    room : r < length slots
    room = omega (arith, lt, h.size)

    -- The page that the slot gets.
    pub slot_of-set_self : s.page_virt ≡ page → slot_of (set slots r s) page ≡ some s
    slot_of-set_self e = elim (page_at-set capacity slots r s r room) [
      | inl (same, at) ↦
          slot_of-some (set slots r s) h' page big r lt (at ∙ e)
          ∙ ap some (get_or-set_self slots r s empty_slot room)
      | inr (other, at) ↦ absurd (other refl)
    ]

    -- A page that the slot had.
    pub slot_of-set_gone :
        page_at capacity slots r ≡ page → s.page_virt ≢ page → slot_of (set slots r s) page ≡ none
    slot_of-set_gone e changed = slot_of-none (set slots r s) h' page big (λ q l z.
        elim (page_at-set capacity slots r s q room) [
          | inl (same, at) ↦ changed (sym at ∙ z)
          | inr (other, at) ↦ other (h.single r q lt l (omega (arith, e, big)) (e ∙ sym z ∙ at))
        ])

    -- Any other page.
    pub slot_of-set_ne :
        page_at capacity slots r ≢ page
        → s.page_virt ≢ page
        → slot_of (set slots r s) page ≡ slot_of slots page
    slot_of-set_ne before after = elim (page_cases slots h page big) [
      | inl (q, l, e) ↦ elim (page_at-set capacity slots r s q room) [
        | inl (same, at) ↦
            absurd (before (subst (λ n. page_at capacity slots n ≡ page) (sym same) e))
        | inr (other, at) ↦
            slot_of-some (set slots r s) h' page big q l (at ∙ e)
            ∙ ap some (get_or-set_ne slots r q s empty_slot other)
            ∙ sym (slot_of-some slots h page big q l e)
      ]
      | inr absent ↦
          slot_of-none (set slots r s) h' page big (λ q l z.
            elim (page_at-set capacity slots r s q room) [
              | inl (same, at) ↦ after (sym at ∙ z)
              | inr (other, at) ↦ absent q l (sym at ∙ z)
            ])
          ∙ sym (slot_of-none slots h page big absent)
    ]
