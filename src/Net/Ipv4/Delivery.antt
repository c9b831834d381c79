-- ===== src/Net/Ipv4/Delivery.antt =====
-- src/net/ipv4.cpp: the tests of `ipv4_receive`, on the packets that `ipv4_send` builds.
use uni_os.Prelude.{
  ℕ, ◌+◌, ◌-◌, ◌^◌, ◌≤◌, ◌<◌, ◌≡◌, true, List, [], ◌++◌, ◌==◌, ◌||◌, arith, length, length-append,
  take-append_length, if◌then◌else◌,
}
use uni_os.Net.Bytes.{htons, join16, join32, htons-lt, ntohs-htons}
use uni_os.Net.Ipv4.Checksum.{ipv4_checksum-lt}
use uni_os.Net.Ipv4.{
  dropped, ipv4_checksum, ipv4_packet, ipv4_receive, checksum_passes, is_for_us, dispatch,
  header_then, ip_make,
}

checksum_passes-packet :
    (src dst id protocol : ℕ) (payload padding : List ℕ)
    → checksum_passes (ipv4_packet src dst id protocol payload ++ padding) ≡ true
unfolding checksum_passes ipv4_packet
checksum_passes-packet src dst id protocol payload padding =
    let header = header_then (20 + length payload) id protocol 0 src dst [] in
    ground (arith, join16 (ipv4_checksum header) (ipv4_checksum-lt header))

-- A packet built from a payload of at most 1480 bytes, with any padding behind it, is handed with
-- its payload and addresses to the layer that the protocol names, if the destination passes the
-- receiver's test, and is dropped otherwise.
pub ipv4_receive-packet :
    (our_ip src dst id protocol : ℕ) (payload padding : List ℕ)
    → src < 2 ^ 32
    → dst < 2 ^ 32
    → length payload ≤ 1480
    → ipv4_receive our_ip (ipv4_packet src dst id protocol payload ++ padding)
      ≡ (if is_for_us our_ip dst then dispatch protocol payload src dst else dropped)
unfolding ipv4_receive ipv4_packet
ipv4_receive-packet our_ip src dst id protocol payload padding hs hd le = ground (
  arith,
  checksum_passes-packet src dst id protocol payload padding,
  join32 src hs,
  join32 dst hd,
  join16 (htons (20 + length payload)) (htons-lt (20 + length payload)),
  ntohs-htons (20 + length payload),
  length-append payload padding,
  take-append_length payload padding (20 + length payload - 20),
)

-- The destinations that `ipv4_receive` takes are our own address and every address whose last octet
-- is 255, the broadcast address among them.
pub is_for_us_iff :
    (our_ip a b c d : ℕ)
    → a < 256
    → b < 256
    → c < 256
    → d < 256
    → is_for_us our_ip (ip_make a b c d) ≡ (ip_make a b c d == our_ip || d == 255)
unfolding is_for_us ip_make
is_for_us_iff our_ip a b c d ha hb hc hd = ground arith
