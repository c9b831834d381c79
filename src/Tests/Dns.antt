-- ===== src/Tests/Dns.antt =====
-- Runs of src/net/dns.cpp.
use uni_os.Prelude.{ℕ, ◌≡◌, refl, true, some, List, [], ◌∷◌, length}
use uni_os.Net.Dns.{
  is_ip_from, dns_is_ip_address, with_u16, skip_name, skip_questions, find_address,
  dns_parse_response, answer, encode_from, dns_encode_name, dns_build_query,
}
use uni_os.Net.Dns.Answer.{IsSafe, dns_parse_response-IsSafe}

-- "10.0.2.3".
reads_address : dns_is_ip_address (49 ∷ 48 ∷ 46 ∷ 48 ∷ 46 ∷ 50 ∷ 46 ∷ 51 ∷ []) ≡ true
unfolding dns_is_ip_address is_ip_from
reads_address = refl

-- A query for "a.b": the type and the class have one byte each.
abbrev query : List ℕ
query = 0 ∷ 8 ∷ 1 ∷ 0 ∷ 0 ∷ 1 ∷ 0 ∷ 0 ∷ 0 ∷ 0 ∷ 0 ∷ 0 ∷ 1 ∷ 97 ∷ 1 ∷ 98 ∷ 0 ∷ 1 ∷ 1 ∷ []

builds_query : dns_build_query (97 ∷ 46 ∷ 98 ∷ []) 7 ≡ (some query, 8)
unfolding dns_build_query dns_encode_name encode_from
builds_query = refl

-- An answer to a query for "a", with the address 1.2.3.4.
abbrev response : List ℕ
response =
    0 ∷ 8 ∷ 129 ∷ 128 ∷ 0 ∷ 1 ∷ 0 ∷ 1 ∷ 0 ∷ 0 ∷ 0 ∷ 0 ∷ 1 ∷ 97 ∷ 0 ∷ 0 ∷ 1 ∷ 0 ∷ 1 ∷ 192 ∷ 12 ∷ 0
    ∷ 1 ∷ 0 ∷ 1 ∷ 0 ∷ 0 ∷ 0 ∷ 60 ∷ 0 ∷ 4 ∷ 1 ∷ 2 ∷ 3 ∷ 4 ∷ []

finds_address : dns_parse_response 8 response 35 ≡ answer 0x04030201
unfolding dns_parse_response with_u16 skip_questions skip_name find_address
finds_address = refl

dns_parse_response-IsSafe_example : IsSafe (dns_parse_response 8 response (length response))
dns_parse_response-IsSafe_example = dns_parse_response-IsSafe 8 response
