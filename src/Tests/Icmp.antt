-- ===== src/Tests/Icmp.antt =====
-- A ping of src/net/icmp.cpp.
use uni_os.Prelude.{◌≡◌, refl, true, arith}
use uni_os.Net.Bytes.{htons}
use uni_os.Net.Icmp.{
  Icmp, reply, callback, icmp_packet, icmp_receive, icmp_send_echo_request, rtt, counting,
}
use uni_os.Net.Icmp.Echo.{ping}

abbrev idle : Icmp
idle = record { ping_id = 1234; ping_seq = 0; ping_sent_time = 0; has_callback = true }

ping_example :
    let (request, s') = icmp_send_echo_request idle 5000 20 7 1 in
    let answer = icmp_packet 0 (htons 7) (htons 1) (counting 56 0) in
    (icmp_receive idle 900 1000 request 10 ≡ reply answer)
    × (icmp_receive s' 5012 1000 answer 20 ≡ callback 20 1 (rtt 5012 5000 1000))
ping_example =
    ping idle idle 5000 5012 1000 900 20 10 7 1 (omega arith) (omega arith) (omega arith) refl
