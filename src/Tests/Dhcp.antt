-- ===== src/Tests/Dhcp.antt =====
-- An offer of src/net/dhcp.cpp's server.
use uni_os.Prelude.{ℕ, ◌+◌, ◌*◌, ◌^◌, ◌≡◌, refl, true, false, some, List, [], ◌∷◌, ◌++◌, replicate}
use uni_os.Net.Bytes.{ntohl}
use uni_os.Net.Dhcp.{
  dhcp_init, and_then, read_u32, set_option, dhcp_parse_options, message_type, same_mac, on_message,
  dhcp_receive,
}
use uni_os.Net.Dhcp.Receive.{IsRead, dhcp_receive-IsRead}

abbrev mac : List ℕ
mac = 2 ∷ 4 ∷ 6 ∷ 8 ∷ 10 ∷ 12 ∷ []

-- The transaction 7, the address 10.0.2.15, and the options: an offer, the mask 255.255.255.0.
abbrev offer : List ℕ
offer =
    (2 ∷ 1 ∷ 6 ∷ 0 ∷ 0 ∷ 0 ∷ 0 ∷ 7 ∷ [])
    ++ (replicate 8 0
        ++ ((10 ∷ 0 ∷ 2 ∷ 15 ∷ [])
            ++ (replicate 8 0
                ++ (mac
                    ++ (replicate 202 0
                        ++ (99 ∷ 130 ∷ 83 ∷ 99 ∷ 53 ∷ 1 ∷ 2 ∷ 1 ∷ 4 ∷ 255 ∷ 255 ∷ 255 ∷ 0 ∷ 255
                            ∷ []))))))

offer_received :
    dhcp_receive offer mac (dhcp_init 7)
    ≡ some (record {
      xid = 7;
      server_ip = 0;
      offered_ip = 10 + 2 * 2 ^ 16 + 15 * 2 ^ 24;
      subnet_mask = 16777215;
      gateway = 0;
      dns = 0;
      got_offer = true;
      got_ack = false;
    })
unfolding dhcp_receive and_then read_u32 set_option dhcp_parse_options message_type same_mac
    on_message ntohl
offer_received = refl

dhcp_receive-IsRead_example : IsRead (dhcp_receive offer mac (dhcp_init 7))
dhcp_receive-IsRead_example = dhcp_receive-IsRead offer mac (dhcp_init 7) refl
