-- ===== src/Memory/Heap/Tracker/Add.antt =====
-- src/mm/heap.cpp: page_tracker_add, and writes to the table that keep it in order.
use uni_os.Prelude.{
  ℕ, zero, suc, ◌+◌, ◌<◌, ◌≤◌, ◌≡◌, ◌≢◌, ◌⊎◌, inl, inr, refl, sym, ap, ◌∙◌, arith, ◌||◌, Bool-cases,
  Option, none, some, List, length, ◌==◌, ==_iff, set, get_or-set_self, get_or-set_ne, length-set,
}
use mathlib.Core.Path.{subst}
use uni_os.Memory.Heap.Tracker.{PageSlot, empty_slot, probe, page_at, open_from}
use uni_os.Memory.Heap.Tracker.Probe.{probe_lt, IsReached, IsTable}

module _ (capacity : ℕ) (slots : List PageSlot) (r : ℕ) (s : PageSlot) where
  pub page_at-set :
      (q : ℕ)
      → r < length slots
      → ((r ≡ q) × (page_at capacity (set slots r s) q ≡ s.page_virt))
        ⊎ ((r ≢ q) × (page_at capacity (set slots r s) q ≡ page_at capacity slots q))
  page_at-set q h = elim (Bool-cases (r == q)) [
    | inl e ↦
        let rq = (==_iff r q).0 e in
        let at : page_at capacity (set slots r s) r ≡ s.page_virt =
          ap (λ (t : PageSlot). t.page_virt) (get_or-set_self slots r s empty_slot h) in
        inl (rq, subst (λ n. page_at capacity (set slots r s) n ≡ s.page_virt) rq at)
    | inr e ↦
        let other : r ≢ q = λ z. ground (arith, e, z) in
        inr (other, ap (λ (t : PageSlot). t.page_virt) (get_or-set_ne slots r q s empty_slot other))
  ]

  -- A slot that gets a page keeps the probes of the others from ending.
  kept_full :
      r < length slots
      → s.page_virt ≢ 0
      → (q : ℕ) → page_at capacity slots q ≢ 0
      → page_at capacity (set slots r s) q ≢ 0
  kept_full lt full q h = elim (page_at-set q lt) [
    | inl (e, at) ↦ λ z. full (sym at ∙ z)
    | inr (e, at) ↦ λ z. h (sym at ∙ z)
  ]

  IsReached-set :
      r < length slots
      → s.page_virt ≢ 0
      → (page q : ℕ) → IsReached capacity slots page q
      → IsReached capacity (set slots r s) page q
  IsReached-set lt full page q (i, some_left, e, before) =
      (i, some_left, e, λ j l. kept_full lt full (probe capacity page j) (before j l))

  -- A table stays in order where a slot gets a page that its probes reach and no other slot has, or a
  -- mark of an open slot.
  pub IsTable-set :
      IsTable capacity slots
      → r < capacity
      → s.page_virt ≢ 0
      → (2 ≤ s.page_virt → IsReached capacity slots s.page_virt r)
      → ((q : ℕ) → q < capacity → r ≢ q → 2 ≤ s.page_virt → page_at capacity slots q ≢ s.page_virt)
      → IsTable capacity (set slots r s)
  IsTable-set h lt full reached only =
      let lt' : r < length slots = omega (arith, lt, h.size) in
      record {
        size = length-set slots r s ∙ h.size;
        room = h.room;
        reached = λ q l big. elim (page_at-set q lt') [
          | inl (e, at) ↦
              subst (λ k. IsReached capacity (set slots r s) k q) (sym at)
                (IsReached-set lt' full s.page_virt q (
                  subst (λ n. IsReached capacity slots s.page_virt n) e
                    (reached (omega (arith, big, at)))))
          | inr (e, at) ↦
              subst (λ k. IsReached capacity (set slots r s) k q) (sym at)
                (IsReached-set lt' full (page_at capacity slots q) q
                  (h.reached q l (omega (arith, big, at))))
        ];
        single = λ q p l m big same. elim (page_at-set q lt') [
          | inl (e, at) ↦ elim (page_at-set p lt') [
            | inl (e', at') ↦ sym e ∙ e'
            | inr (e', at') ↦
                absurd (only p m e' (omega (arith, big, at)) (omega (arith, same, at, at')))
          ]
          | inr (e, at) ↦ elim (page_at-set p lt') [
            | inl (e', at') ↦
                absurd (only q l e (omega (arith, big, same, at')) (omega (arith, same, at, at')))
            | inr (e', at') ↦
                h.single q p l m (omega (arith, big, at)) (omega (arith, same, at, at'))
          ]
        ];
      }

module _ (capacity : ℕ) (slots : List PageSlot) where
  module _ (page : ℕ) where
    -- What the search for an open slot finds.
    abbrev pub IsOpenAt : ℕ → Option ℕ → Type 0
    IsOpenAt i none =
        (j : ℕ) → i ≤ j → j < capacity → 2 ≤ page_at capacity slots (probe capacity page j)
    IsOpenAt i (some r) =
        (r < capacity)
        × (page_at capacity slots r < 2)
        × (k : ℕ) × (k < capacity)
        × (probe capacity page k ≡ r)
        × ((j : ℕ) → i ≤ j → j < k → page_at capacity slots (probe capacity page j) ≢ 0)

    open_later :
        (i : ℕ) (rest : Option ℕ)
        → 2 ≤ page_at capacity slots (probe capacity page i)
        → IsOpenAt (i + 1) rest
        → IsOpenAt i rest
    open_later i none h k = λ j l m. elim (Bool-cases (i == j)) [
      | inl z ↦ subst (λ n. 2 ≤ page_at capacity slots (probe capacity page n)) ((==_iff i j).0 z) h
      | inr z ↦ k j (ground (arith, z, l)) m
    ]
    open_later i (some r) h (a, b, k, c, d, e) = (
      a,
      b,
      k,
      c,
      d,
      λ j l m. elim (Bool-cases (i == j)) [
        | inl z ↦
            subst (λ n. page_at capacity slots (probe capacity page n) ≢ 0) ((==_iff i j).0 z)
              (λ y. absurd (omega (arith, h, y)))
        | inr z ↦ e j (ground (arith, z, l)) m
      ],
    )

    pub open_from-IsOpenAt :
        (rounds i : ℕ)
        → i + rounds ≡ capacity
        → 0 < capacity
        → IsOpenAt i (open_from capacity slots page rounds i)
    unfolding open_from
    open_from-IsOpenAt zero i le room = λ j l m. absurd (omega arith)
    open_from-IsOpenAt (suc rounds) i le room =
        let p = probe capacity page i in
        let c = page_at capacity slots p in
        elim (Bool-cases (c == 0 || c == 1)) [
          | inl e ↦ rw e (
            probe_lt capacity page i room,
            ground (arith, e),
            i,
            omega arith,
            refl,
            λ j l m. absurd (omega arith),
          )
          | inr e ↦ rw e (
              open_later i (open_from capacity slots page rounds (i + 1)) (ground (arith, e))
                (open_from-IsOpenAt rounds (i + 1) (omega arith) room))
        ]
