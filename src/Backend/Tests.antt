-- ===== src/Backend/Tests.antt =====
-- A wait for a server that never answers.
use llamaswap.Base.{◌≢◌, inl, inr, true, none, [], ◌∷◌, List, arith}
use llamaswap.Backend.Process.{Round, polled, waiting, wait_rounds, wait_rounds-ends}

abbrev silence : List Round
silence = polled none none 5 ∷ polled none none 11 ∷ []

wait_rounds-ends_example : wait_rounds (λ r. true) 10 silence ≢ waiting
wait_rounds-ends_example = wait_rounds-ends (λ r. true) 10 silence (inr (inl (omega arith)))
