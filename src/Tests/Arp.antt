-- ===== src/Tests/Arp.antt =====
-- Runs of src/net/arp.cpp with two machines.
use uni_os.Prelude.{◌≡◌, refl, false, some, [], ◌∷◌, arith, ◌==◌, if◌then◌else◌, replicate}
use uni_os.Net.Ethernet.{Mac}
use uni_os.Net.Arp.{
  Arp, ArpEntry, arp_table_size, zero_mac, all_bytes, arp_mac_is_unusable, update_first,
  arp_add_entry, find_mac, arp_lookup, arp_send_request, ask,
}
use uni_os.Net.Arp.Table.{IsTable}
use uni_os.Net.Arp.Cache.{IsUsable, kept, arp_lookup-arp_add_entry}
use uni_os.Net.Arp.Exchange.{IsExchanged, receive_any, arp_exchange}

abbrev alice : Mac
alice = record { m0 = 2; m1 = 0; m2 = 0; m3 = 0; m4 = 0; m5 = 1 }

abbrev bob : Mac
bob = record { m0 = 2; m1 = 0; m2 = 0; m3 = 0; m4 = 0; m5 = 2 }

abbrev no_entry : ArpEntry
no_entry = record { ip = 0; mac = zero_mac; valid = false }

abbrev blank_arp : Arp
blank_arp = record {
  table = replicate arp_table_size no_entry;
  waiting = false;
  waiting_ip = 0;
  waiting_mac = zero_mac;
  resolved = false;
}

bob-IsUsable : IsUsable 20 bob
unfolding arp_mac_is_unusable all_bytes
bob-IsUsable = (omega arith, omega arith, refl)

alice-IsUsable : IsUsable 10 alice
unfolding arp_mac_is_unusable all_bytes
alice-IsUsable = (omega arith, omega arith, refl)

knows_bob : arp_lookup 20 (arp_add_entry 20 bob blank_arp.table) ≡ some bob
unfolding arp_lookup arp_add_entry find_mac update_first arp_mac_is_unusable all_bytes
knows_bob = refl

one-IsTable : IsTable (no_entry ∷ no_entry ∷ [])
one-IsTable = record {
  distinct = (λ v. absurd (cc v), (λ v. absurd (cc v), tt));
  good = (λ v. absurd (cc v), (λ v. absurd (cc v), tt));
}

arp_lookup-arp_add_entry_example :
    arp_lookup 30 (arp_add_entry 20 bob blank_arp.table)
    ≡ (if 30 == 20 then some bob else arp_lookup 30 (kept 20 blank_arp.table))
arp_lookup-arp_add_entry_example =
    arp_lookup-arp_add_entry blank_arp.table 20 bob 30 bob-IsUsable (omega arith)

arp_exchange_example :
    let (reply, b') = receive_any bob 20 (arp_send_request alice 10 20) blank_arp in
    IsExchanged alice 10 bob 20 (receive_any alice 10 reply (ask 20 blank_arp)).1 b'
arp_exchange_example =
    arp_exchange alice 10 bob 20 blank_arp blank_arp (omega arith) (omega arith) alice-IsUsable
      bob-IsUsable (omega arith) (omega arith)
