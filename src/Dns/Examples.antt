-- ===== src/Dns/Examples.antt =====
-- Runs of the parser of src/dns.c, and its theorems at a response with a question and an answer.
use myclib.Prelude.{ℕ, zero, suc, ◌≡◌, refl, List, [], ◌∷◌, length, arith}
use myclib.Dns.{
  Packet, read, read16, resp_info, parse_question, parse_rr, parse_name, dns_get_question,
  dns_get_answer, dns_resp_parse,
}
use myclib.Outcome.{ok, Returns}
use myclib.Dns.Names.{parse_name-encode}
use myclib.Dns.Message.{Ipv4, dns_resp_parse-Returns}

abbrev nth : List ℕ → ℕ → ℕ
nth [] i = 0
nth (b ∷ bs) zero = b
nth (b ∷ bs) (suc i) = nth bs i

abbrev packet : List ℕ → Packet
packet bytes = record { len = length bytes; byte = nth bytes }

-- the answer 10.0.0.7 to the question for `A.bc`
abbrev response : Packet
response = packet (
    1 ∷ 2 ∷ 128 ∷ 0 ∷ 0 ∷ 1 ∷ 0 ∷ 1 ∷ 0 ∷ 0 ∷ 0 ∷ 0 ∷ 1 ∷ 65 ∷ 2 ∷ 98 ∷ 99 ∷ 0 ∷ 0 ∷ 1 ∷ 0 ∷ 1 ∷ 192
    ∷ 12 ∷ 0 ∷ 1 ∷ 0 ∷ 1 ∷ 0 ∷ 0 ∷ 0 ∷ 60 ∷ 0 ∷ 4 ∷ 10 ∷ 0 ∷ 0 ∷ 7 ∷ [])

resp_run :
    dns_resp_parse response
    ≡ ok (record { domain = 97 ∷ 46 ∷ 98 ∷ 99 ∷ []; ipv4 = (10 ∷ 0 ∷ 0 ∷ 7 ∷ []) ∷ [] })
unfolding dns_resp_parse read16 read resp_info dns_get_question parse_question dns_get_answer
    parse_rr
resp_run = refl

dns_resp_parse-Returns_example : Returns (λ info. Ipv4 response info.ipv4) (dns_resp_parse response)
dns_resp_parse-Returns_example = dns_resp_parse-Returns response

parse_name-encode_example : parse_name response 12 ≡ ok (18, 97 ∷ 46 ∷ 98 ∷ 99 ∷ [])
parse_name-encode_example =
    parse_name-encode response ((65 ∷ []) ∷ (98 ∷ 99 ∷ []) ∷ []) 12 (omega arith)
      (refl, (refl, (refl, (refl, (refl, (refl, tt))))))
      ((omega arith, refl), ((omega arith, refl), tt)) (omega arith)
