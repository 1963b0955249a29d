-- ===== src/Forward/Streams.antt =====
-- A stream is trimmed and sent again as a whole answer is (app/proxy.py, `proxy_stream` and
-- `proxy_json`).
use llamaswap.Base.{
  ℕ, zero, suc, ◌+◌, String, false, Option, none, some, List, [], ◌∷◌, eqb, length, get_elem?, ◌≡◌,
  ◌≢◌, ◌⊎◌, inl, inr, refl, ap, sym, ◌∙◌, arith, Bool-cases, Option-cases,
}
use llamaswap.Json.{Json}
use llamaswap.Tokens.Meter.{Meter}
use llamaswap.Forward.Retry.{
  Exchange, Reply, refused, failed, answered, next_body, trimmed_body, trims, Counts, attempts,
  proxy_json,
}
use llamaswap.Forward.Retries.{trims_by}
use llamaswap.Forward.Stream.{
  StreamReply, unreachable, failing, denied, streaming, StreamRun, streamed, ending,
  next_stream_body, stream_attempts, proxy_stream,
}

-- The reply of an upstream that answers whole and as successfully.
abbrev pub whole_reply : StreamReply → Reply
whole_reply unreachable = refused
whole_reply (failing text) = failed text
whole_reply (denied status content) = answered status content
whole_reply (streaming chunks broken) = answered 200 []

module _ (e : Exchange) (dumps : Json → List ℕ) (upstream : ℕ → List ℕ → StreamReply) where
  -- The exchange with that upstream.
  abbrev pub as_whole : Exchange
  as_whole = record e { upstream = λ k body. whole_reply (upstream k body) }

  -- An error is told from a success by its status.
  abbrev pub IsDenied : StreamReply → Type 0
  IsDenied (denied status content) = status ≢ 200
  IsDenied r = Unit

  -- The reply to the last body makes the rest of the run, unless reading it for a trim raises.
  abbrev pub FromLast : ℕ → Counts → StreamRun e dumps → Type 0
  FromLast k p r =
      (i : ℕ) × (body : List ℕ) × (n : ℕ) × (n ≡ k + i)
      × (get_elem? r.sent i ≡ some body)
      × (length r.sent ≡ suc i)
      × (((next_stream_body e dumps (upstream n body) body ≡ none)
            × (r.whole ≡ false)
            × (r.out ≡ []))
          ⊎ (r ≡ record (ending e dumps (upstream n body) body (trims_by e i p)) { sent = r.sent }))

  streamed-sent :
      (body : List ℕ) (p : Counts) (broken : Option String)
      (r : List (List ℕ) × Option (Option Meter))
      → (streamed e dumps body p broken r).sent ≡ body ∷ []
  unfolding streamed
  streamed-sent body p broken (out, none) = refl
  streamed-sent body p none (out, some m) = refl
  streamed-sent body p (some text) (out, some m) = refl

  ending-sent :
      (r : StreamReply) (body : List ℕ) (p : Counts) → (ending e dumps r body p).sent ≡ body ∷ []
  unfolding ending
  ending-sent unreachable body p = refl
  ending-sent (failing text) body p = refl
  ending-sent (denied status content) body p = refl
  ending-sent (streaming chunks broken) body p = streamed-sent body p broken _

  ending-FromLast :
      (k : ℕ) (body : List ℕ) (p : Counts) → FromLast k p (ending e dumps (upstream k body) body p)
  ending-FromLast k body p =
      let one = ending-sent (upstream k body) body p in
      (0, body, k, omega arith, ap (λ s. get_elem? s 0) one, ap length one, inr refl)

  -- The next body is the same.
  next_stream_body-whole :
      (r : StreamReply) (body : List ℕ)
      → IsDenied r
      → next_stream_body e dumps r body ≡ next_body as_whole (whole_reply r) body
  unfolding next_stream_body next_body trimmed_body
  next_stream_body-whole unreachable body d = refl
  next_stream_body-whole (failing text) body d = refl
  next_stream_body-whole (streaming chunks broken) body d = refl
  next_stream_body-whole (denied status content) body d = elim (Bool-cases (eqb status 200)) [
    | inl success ↦ absurd (d (ground (arith, success)))
    | inr error ↦ rw error refl
  ]

  behind-FromLast :
      (k : ℕ) (body : List ℕ) (p : Counts) (r : StreamRun e dumps)
      → FromLast (suc k) (trims e p) r
      → FromLast k p (record r { sent = body ∷ r.sent })
  behind-FromLast k body p r (i, b, n, at, there, size, inl cut) =
      (suc i, b, n, omega arith, there, ap suc size, inl cut)
  behind-FromLast k body p r (i, b, n, at, there, size, inr same) = (
    suc i,
    b,
    n,
    omega arith,
    there,
    ap suc size,
    inr (ap {A = StreamRun e dumps} (λ x. record x { sent = body ∷ r.sent }) same),
  )

  abbrev Alike : ℕ → ℕ → List ℕ → Counts → Counts → Type 0
  Alike left k body p q =
      ((stream_attempts e dumps upstream left k body p).sent
        ≡ (attempts as_whole left k body q).sent)
      × FromLast k p (stream_attempts e dumps upstream left k body p)

  attempts-Alike :
      (left k : ℕ) (body : List ℕ) (p q : Counts)
      → ((n : ℕ) (b : List ℕ) → IsDenied (upstream n b))
      → Alike left k body p q
  unfolding stream_attempts attempts
  attempts-Alike zero k body p q d =
      (ending-sent (upstream k body) body p, ending-FromLast k body p)
  attempts-Alike (suc left) k body p q d =
      let same = next_stream_body-whole (upstream k body) body (d k body) in
      elim (Option-cases (next_stream_body e dumps (upstream k body) body)) [
        | inl raises ↦
            rw (raises, sym same ∙ raises, stream_attempts, attempts)
              (refl, (0, body, k, omega arith, refl, refl, inl (raises, refl, refl)))
        | inr (none, still) ↦
            rw (still, sym same ∙ still, stream_attempts, attempts)
              (ending-sent (upstream k body) body p, ending-FromLast k body p)
        | inr (some body', again) ↦
            let (sent, last) = attempts-Alike left (suc k) body' (trims e p) (trims as_whole q) d in
            rw (again, sym same ∙ again, stream_attempts, attempts)
              (ap (λ s. body ∷ s) sent, behind-FromLast k body p _ last)
      ]

  -- The bodies that a stream sends are those that `proxy_json` would send to an upstream that
  -- answers whole and as successfully, whatever is counted before. The
  -- reply to the last of them makes what the client gets and whether the generator comes to its end,
  -- and the counts behind one trim for each body that was sent again; only where that reply is an
  -- error whose trim raises does the generator raise with nothing sent.
  pub proxy_stream-alike :
      (body : List ℕ) (p q : Counts)
      → ((n : ℕ) (b : List ℕ) → IsDenied (upstream n b))
      → ((proxy_stream e dumps upstream body p).sent ≡ (proxy_json as_whole body q).sent)
        × FromLast 0 p (proxy_stream e dumps upstream body p)
  unfolding proxy_stream proxy_json
  proxy_stream-alike body p q d = attempts-Alike 3 0 body p q d
