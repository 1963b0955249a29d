-- ===== src/Gateway/Tests.antt =====
-- A gateway with a key and room for one request.
use llamaswap.Base.{◌≡◌, ◌↔◌, refl, true, [], ◌∷◌, string_key, get, lower, starts_with, put}
use llamaswap.Gateway.Access.{
  Policy, Request, Gateway, provided, required_key, denied, raised, enter, authorized,
  compare_digest, is_ascii, provided_key, header_dict, left_strip, right_strip, skip,
}
use llamaswap.Gateway.Denials.{enter-denied_iff, WhyDenied}
use llamaswap.Gateway.Laws.{
  Front, behind, opened, arrives, here, next, IsBalanced, Reach-IsBalanced,
}

abbrev policy : Policy
policy = record { api_key = "secret"; admin_key = ""; max_concurrency = 1 }

abbrev with_key : Request
with_key = record {
  method = "POST";
  path = "/v1/chat/completions";
  headers = ("Authorization", "Bearer  secret ") ∷ [];
}

abbrev without_key : Request
without_key = record { method = "GET"; path = "/v1/models"; headers = [] }

reads_key : provided with_key ≡ "secret"
unfolding provided get put lower provided_key header_dict starts_with left_strip right_strip skip
reads_key = refl

abbrev gateway : Gateway
gateway = record { inflight = 0; counted = [] }

enter-denied_iff_example :
    ((enter policy true without_key gateway).1 ≡ denied) ↔ WhyDenied policy true without_key
enter-denied_iff_example = enter-denied_iff policy true without_key gateway

-- A key with a letter outside of ASCII makes the gateway raise.
abbrev foreign : Request
foreign = record { method = "GET"; path = "/v1/models"; headers = ("X-Api-Key", "schlüssel") ∷ [] }

raises_foreign : (enter policy true foreign gateway).1 ≡ raised
unfolding enter authorized required_key provided get put lower provided_key header_dict starts_with
    left_strip right_strip skip compare_digest is_ascii
raises_foreign = refl

abbrev entered : Front
entered = behind true with_key opened (enter policy true with_key gateway)

Reach-IsBalanced_example : IsBalanced policy entered
Reach-IsBalanced_example = Reach-IsBalanced policy (next here (arrives true with_key refl))
