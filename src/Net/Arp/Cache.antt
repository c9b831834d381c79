-- ===== src/Net/Arp/Cache.antt =====
-- src/net/arp.cpp: what the cache holds after `arp_add_entry`.
use uni_os.Prelude.{
  ℕ, ◌<◌, ◌≡◌, ◌≢◌, refl, Bool, true, false, not, ◌&&◌, All, inl, inr, arith, Option, none, some,
  List, [], ◌∷◌, ◌==◌, if◌then◌else◌, length, Bool-cases, IfAny,
}
use uni_os.Net.Ethernet.{Mac}
use uni_os.Net.Ipv4.{broadcast_ip}
use uni_os.Net.Arp.{
  ArpEntry, arp_mac_is_unusable, update_first, behind, or_else, holds, entry, overwrite_first,
  arp_add_entry, find_mac, arp_lookup,
}

-- An entry that `arp_add_entry` may make.
abbrev pub IsUsable : ℕ → Mac → Type 0
IsUsable ip mac = (ip ≢ 0) × (ip ≢ broadcast_ip) × (arp_mac_is_unusable mac ≡ false)

-- The entry is for another address, or not in use.
abbrev pub IsOther : ℕ → ArpEntry → Type 0
IsOther ip e = holds ip e ≡ false

-- All entries are in use, for other addresses.
abbrev pub is_full : ℕ → List ArpEntry → Bool
is_full ip [] = true
is_full ip (e ∷ es) = e.valid && (not (e.ip == ip) && is_full ip es)

-- Without the entry that `arp_add_entry` overwrites.
abbrev pub kept : ℕ → List ArpEntry → List ArpEntry
kept ip [] = []
kept ip (e ∷ es) = if is_full ip (e ∷ es) then es else e ∷ es

pub IfAny-behind :
    (P Q : List ArpEntry → Type 0) (e : ArpEntry) (o : Option (List ArpEntry))
    → ((t : List ArpEntry) → Q t → P (e ∷ t))
    → IfAny Q o
    → IfAny P (behind e o)
IfAny-behind P Q e none f h = tt
IfAny-behind P Q e (some t) f h = f t h

pub update_first-none :
    (test : ArpEntry → Bool) (f : ArpEntry → ArpEntry) (table : List ArpEntry)
    → update_first test f table ≡ none
    → All (λ e. test e ≡ false) table
unfolding update_first
update_first-none test f [] h = tt
update_first-none test f (e ∷ es) h = elim (Bool-cases (test e)) [
  | inl t ↦ absurd (ground arith)
  | inr t ↦ (t, update_first-none test f es (ground arith))
]

module _ (ip : ℕ) (mac : Mac) where
  -- What a new cache answers, where the old one answered `before`.
  abbrev answer : ℕ → Option Mac → Option Mac
  answer other before = if other == ip then some mac else before

  abbrev Answers : List ArpEntry → List ArpEntry → Type 0
  Answers table t =
      (is_full ip table ≡ false)
      × ((other : ℕ) → find_mac other t ≡ answer other (find_mac other table))

  Answers-behind :
      (e : ArpEntry) (es t : List ArpEntry)
      → holds ip e ≡ false
      → Answers es t
      → Answers (e ∷ es) (e ∷ t)
  unfolding find_mac
  Answers-behind e es t h (full, f) = (ground arith, λ other. ground (arith, f other))

  update-Answers :
      (table : List ArpEntry)
      → IfAny (Answers table) (update_first (holds ip) (λ e. record e { mac = mac }) table)
  unfolding find_mac update_first
  update-Answers [] = tt
  update-Answers (e ∷ es) = elim (Bool-cases (holds ip e)) [
    | inl here ↦ rw here (ground arith, λ other. ground arith)
    | inr there ↦ rw there (
        IfAny-behind (Answers (e ∷ es)) (Answers es) e _ (λ t. Answers-behind e es t there)
          (update-Answers es))
  ]

  fill-Answers :
      (table : List ArpEntry)
      → All (IsOther ip) table
      → IfAny (Answers table) (update_first (λ e. not e.valid) (λ e. entry ip mac) table)
  unfolding find_mac update_first
  fill-Answers [] h = tt
  fill-Answers (e ∷ es) h = elim (Bool-cases (not e.valid)) [
    | inl here ↦ rw here (ground arith, λ other. ground arith)
    | inr there ↦ rw there (
        IfAny-behind (Answers (e ∷ es)) (Answers es) e _ (λ t. Answers-behind e es t h.0)
          (fill-Answers es h.1))
  ]

  full-is_full :
      (table : List ArpEntry)
      → All (IsOther ip) table
      → All (λ e. not e.valid ≡ false) table
      → is_full ip table ≡ true
  full-is_full [] h k = refl
  full-is_full (e ∷ es) h k = ground (arith, full-is_full es h.1 k.1, h.0, k.0)

  overwrite-find_mac :
      (table : List ArpEntry) (other : ℕ)
      → is_full ip table ≡ true
      → 0 < length table
      → find_mac other (overwrite_first (entry ip mac) table)
        ≡ answer other (find_mac other (kept ip table))
  unfolding find_mac
  overwrite-find_mac [] other h pos = absurd (omega arith)
  overwrite-find_mac (e ∷ es) other h pos = ground arith

  kept_all : (table : List ArpEntry) → is_full ip table ≡ false → kept ip table ≡ table
  kept_all [] h = refl
  kept_all (e ∷ es) h = rw h refl

pub or_else-any :
    (P : List ArpEntry → Type 0) (o : Option (List ArpEntry)) (t : List ArpEntry)
    → IfAny P o
    → (o ≡ none → P t)
    → P (or_else o t)
or_else-any P none t h k = k refl
or_else-any P (some t') t h k = h

module _ (ip : ℕ) (mac : Mac) (table : List ArpEntry) (other : ℕ) where
  IsAnswered : List ArpEntry → Type 0
  IsAnswered t = find_mac other t ≡ answer ip mac other (find_mac other (kept ip table))

  IfAny-IsAnswered :
      (o : Option (List ArpEntry)) → IfAny (Answers ip mac table) o → IfAny IsAnswered o
  unfolding IsAnswered
  IfAny-IsAnswered none h = tt
  IfAny-IsAnswered (some t) (full, f) = rw (kept_all ip mac table full) (f other)

  or_else-IsAnswered :
      0 < length table
      → IsAnswered (
          or_else (update_first (holds ip) (λ e. record e { mac = mac }) table) (
            or_else
              (update_first (λ e. not e.valid) (λ e. entry ip mac) table)
              (overwrite_first (entry ip mac) table)))
  unfolding IsAnswered
  or_else-IsAnswered pos =
      let late = λ (e : update_first (holds ip) (λ x. record x { mac = mac }) table ≡ none).
        update_first-none (holds ip) (λ x. record x { mac = mac }) table e in
      or_else-any IsAnswered _ _ (IfAny-IsAnswered _ (update-Answers ip mac table)) (λ e.
        or_else-any IsAnswered _ _ (IfAny-IsAnswered _ (fill-Answers ip mac table (late e))) (λ e'.
          last (
            full-is_full ip mac table (late e)
              (update_first-none (λ x. not x.valid) (λ x. entry ip mac) table e'))))
    where
      last : is_full ip table ≡ true → IsAnswered (overwrite_first (entry ip mac) table)
      last full = overwrite-find_mac ip mac table other full pos

-- After an address that is neither 0 nor the broadcast address is added with a usable hardware
-- address, a lookup of it answers that hardware address. Any other address is answered as before,
-- by the whole table or, if all entries were in use for other addresses, by those behind the first.
pub arp_lookup-arp_add_entry :
    (table : List ArpEntry) (ip : ℕ) (mac : Mac) (other : ℕ)
    → IsUsable ip mac
    → 0 < length table
    → arp_lookup other (arp_add_entry ip mac table)
      ≡ (if other == ip then some mac else arp_lookup other (kept ip table))
unfolding arp_lookup arp_add_entry IsAnswered
arp_lookup-arp_add_entry table ip mac other (z, b, u) pos =
    ground (arith, or_else-IsAnswered ip mac table other pos, z, b, u)
