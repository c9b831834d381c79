-- ===== src/Net/Arp/Table.antt =====
-- src/net/arp.cpp: the entries of the cache, one by one and beside each other.
use uni_os.Prelude.{
  ℕ, ◌≡◌, ◌≢◌, true, false, not, ◌||◌, All, inl, inr, arith, Option, none, some, List, [], ◌∷◌,
  ◌==◌, Bool-cases, IfAny,
}
use uni_os.Net.Ethernet.{Mac}
use uni_os.Net.Ipv4.{broadcast_ip}
use uni_os.Net.Arp.{
  ArpEntry, arp_mac_is_unusable, update_first, or_else, holds, entry, overwrite_first,
  arp_add_entry,
}
use uni_os.Net.Arp.Cache.{IsUsable, IsOther, IfAny-behind, update_first-none, or_else-any}

abbrev pub IsDistinct : List ArpEntry → Type 0
IsDistinct [] = Unit
IsDistinct (e ∷ es) = (e.valid ≡ true → All (IsOther e.ip) es) × IsDistinct es

abbrev pub IsGood : ArpEntry → Type 0
IsGood e = e.valid ≡ true → IsUsable e.ip e.mac

-- No address has two entries in use, and those in use are usable.
pub record IsTable (table : List ArpEntry) : Type 0 where
  pub distinct : IsDistinct table
  pub good : All IsGood table

-- What the loops keep: an address that no entry is in use for has none after, but for the new one.
module _ (ip : ℕ) (mac : Mac) (usable : IsUsable ip mac) where
  record Keeps (table t : List ArpEntry) : Type 0 where
    others : (x : ℕ) → x ≢ ip → All (IsOther x) table → All (IsOther x) t
    is_table : IsTable t

  Keeps-behind :
      (e : ArpEntry) (es t : List ArpEntry)
      → holds ip e ≡ false
      → IsTable (e ∷ es)
      → Keeps es t
      → Keeps (e ∷ es) (e ∷ t)
  Keeps-behind e es t h k f = record {
    others = λ x ne g. (g.0, f.others x ne g.1);
    is_table = record {
      distinct = (λ v. f.others e.ip (ground arith) (k.distinct.0 v), f.is_table.distinct);
      good = (k.good.0, f.is_table.good);
    };
  }

  update-Keeps :
      (table : List ArpEntry)
      → IsTable table
      → IfAny (Keeps table) (update_first (holds ip) (λ e. record e { mac = mac }) table)
  unfolding update_first
  update-Keeps [] h = tt
  update-Keeps (e ∷ es) h = elim (Bool-cases (holds ip e)) [
    | inl here ↦
        let same : e.ip ≡ ip = ground arith in
        rw here (record {
          others = λ x ne g. g;
          is_table = record { distinct = h.distinct; good = (λ v. rw same usable, h.good.1) };
        })
    | inr there ↦ rw there (
        IfAny-behind (Keeps (e ∷ es)) (Keeps es) e _ (λ t. Keeps-behind e es t there h)
          (update-Keeps es (record { distinct = h.distinct.1; good = h.good.1 })))
  ]

  entry-Keeps :
      (e : ArpEntry) (es : List ArpEntry)
      → All (IsOther ip) es
      → IsTable (e ∷ es)
      → Keeps (e ∷ es) (entry ip mac ∷ es)
  entry-Keeps e es k h = record {
    others = λ x ne g. (ground arith, g.1);
    is_table = record { distinct = (λ v. k, h.distinct.1); good = (λ v. usable, h.good.1) };
  }

  fill-Keeps :
      (table : List ArpEntry)
      → All (IsOther ip) table
      → IsTable table
      → IfAny (Keeps table) (update_first (λ e. not e.valid) (λ e. entry ip mac) table)
  unfolding update_first
  fill-Keeps [] k h = tt
  fill-Keeps (e ∷ es) k h = elim (Bool-cases (not e.valid)) [
    | inl here ↦ rw here (entry-Keeps e es k.1 h)
    | inr there ↦ rw there (
        IfAny-behind (Keeps (e ∷ es)) (Keeps es) e _ (λ t. Keeps-behind e es t k.0 h)
          (fill-Keeps es k.1 (record { distinct = h.distinct.1; good = h.good.1 })))
  ]

  overwrite-IsTable :
      (table : List ArpEntry)
      → All (IsOther ip) table
      → IsTable table
      → IsTable (overwrite_first (entry ip mac) table)
  overwrite-IsTable [] k h = h
  overwrite-IsTable (e ∷ es) k h = (entry-Keeps e es k.1 h).is_table

  IfAny-IsTable :
      (table : List ArpEntry) (o : Option (List ArpEntry)) → IfAny (Keeps table) o → IfAny IsTable o
  IfAny-IsTable table none h = tt
  IfAny-IsTable table (some t) h = h.is_table

  or_else-IsTable :
      (table : List ArpEntry)
      → IsTable table
      → IsTable (
          or_else (update_first (holds ip) (λ e. record e { mac = mac }) table) (
            or_else
              (update_first (λ e. not e.valid) (λ e. entry ip mac) table)
              (overwrite_first (entry ip mac) table)))
  or_else-IsTable table h =
      let late = λ (e : update_first (holds ip) (λ x. record x { mac = mac }) table ≡ none).
        update_first-none (holds ip) (λ x. record x { mac = mac }) table e in
      or_else-any IsTable _ _ (IfAny-IsTable table _ (update-Keeps table h)) (λ e.
        or_else-any IsTable _ _ (IfAny-IsTable table _ (fill-Keeps table (late e) h))
          (λ e'. overwrite-IsTable table (late e) h))

pub arp_add_entry-IsTable :
    (table : List ArpEntry) (ip : ℕ) (mac : Mac)
    → IsTable table
    → IsTable (arp_add_entry ip mac table)
unfolding arp_add_entry
arp_add_entry-IsTable table ip mac h =
    elim (Bool-cases (ip == 0 || (ip == broadcast_ip || arp_mac_is_unusable mac))) [
      | inl bad ↦ rw bad h
      | inr fine ↦
          rw fine (or_else-IsTable ip mac (ground arith, ground arith, ground arith) table h)
    ]
