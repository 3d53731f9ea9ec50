-- ===== src/Tests/Addresses.antt =====
-- The theorem on the client's address on a small network: an address is one code, and a network one
-- address.
use bank_statement_processor.Prelude.{
  ℕ, true, false, Option, none, some, List, [], ◌∷◌, ◌≡◌, ◌⊎◌, ◌==◌, find,
}
use bank_statement_processor.Http.ClientIp.{Network, is_trusted_proxy, entries, resolve_client_ip}
use bank_statement_processor.Http.Spoofing.{is_outside, client_ip_unspoofable}

abbrev one_code : List ℕ → Option ℕ
one_code (c ∷ []) = some c
one_code _ = none

abbrev network : Network
network = record {
  Address = ℕ;
  Net = ℕ;
  Limiter = ℕ;
  contains = λ net ip. net == ip;
  parse = one_code;
  check_key = λ ip used. (true, used);
}

-- The proxy 80 appended the address 51 to a header that the client had filled in.
client_ip_unspoofable_example :
    (is_trusted_proxy network (80 ∷ []) 80 ≡ false
      → resolve_client_ip network 80 (80 ∷ []) (some (49 ∷ 44 ∷ 51 ∷ [])) ≡ 80)
    × ((resolve_client_ip network 80 (80 ∷ []) (some (49 ∷ 44 ∷ 51 ∷ [])) ≡ 80)
        ⊎ (is_outside network
              (80 ∷ [])
              (resolve_client_ip network 80 (80 ∷ []) (some (49 ∷ 44 ∷ 51 ∷ [])))
            ≡ true))
    × ((ip : ℕ)
        → find (is_outside network (80 ∷ [])) (entries network (51 ∷ [])) ≡ some ip
        → resolve_client_ip network 80 (80 ∷ []) (some (49 ∷ 44 ∷ 51 ∷ []))
          ≡ resolve_client_ip network 80 (80 ∷ []) (some (51 ∷ [])))
client_ip_unspoofable_example =
    client_ip_unspoofable network 80 (80 ∷ []) (some (49 ∷ 44 ∷ 51 ∷ [])) (49 ∷ []) (51 ∷ [])
