-- ===== src/Forward/StreamTests.antt =====
-- A stream that is refused for the long prompt and comes for the short one, in chunks that cut an
-- event in two.
use llamaswap.Base.{ℕ, zero, suc, ◌≡◌, refl, none, List, [], ◌∷◌, ◌++◌, codes, arith}
use llamaswap.Forward.Retry.{proxy_json}
use llamaswap.Forward.Stream.{StreamReply, denied, streaming, proxy_stream, rewrite_chunk}
use llamaswap.Forward.Streams.{as_whole, FromLast, IsDenied, proxy_stream-alike}
use llamaswap.Forward.Errors.{strata_error}
use llamaswap.Forward.Tests.{exchange, counts, dump_body}

abbrev upstream : ℕ → List ℕ → StreamReply
upstream k body = elim k [
  | zero ↦ denied 400 (strata_error 1005 1300 [])
  | suc n ↦ streaming (codes "data: ok\n" ∷ codes "data: o" ∷ codes "k\n" ∷ []) none
]

upstream-IsDenied : (n : ℕ) (b : List ℕ) → IsDenied exchange dump_body upstream (upstream n b)
upstream-IsDenied zero b = λ e. ground (arith, e)
upstream-IsDenied (suc n) b = tt

proxy_stream-alike_example :
    ((proxy_stream exchange dump_body upstream (codes "long") counts).sent
      ≡ (proxy_json (as_whole exchange dump_body upstream) (codes "long") counts).sent)
    × FromLast exchange dump_body upstream 0 counts
        (proxy_stream exchange dump_body upstream (codes "long") counts)
proxy_stream-alike_example =
    proxy_stream-alike exchange dump_body upstream (codes "long") counts counts upstream-IsDenied

-- An event in one chunk gets the request's name.
renames : rewrite_chunk exchange dump_body (codes "data: ok\n") ≡ codes "data: short\n"
unfolding rewrite_chunk llamaswap.Forward.Tests.loads
renames = refl

-- An event that is cut in two keeps the upstream's name.
keeps_name :
    rewrite_chunk exchange dump_body (codes "data: o")
      ++ rewrite_chunk exchange dump_body (codes "k\n")
    ≡ codes "data: ok\n"
unfolding rewrite_chunk llamaswap.Forward.Tests.loads
keeps_name = refl
