-- ===== src/Gateway/Denials.antt =====
-- Who gets past the gateway (app/main.py, `_GatewayMiddleware`).
use llamaswap.Base.{
  ℕ, ◌≡◌, ◌≢◌, ◌↔◌, ◌⊎◌, refl, inl, inr, String, Bool, true, false, ◌&&◌, none, some, ltb, leb,
  arith, Bool-cases, Option-cases, eq_iff, string_key,
}
use llamaswap.Gateway.Access.{
  Policy, required_key, is_ascii, compare_digest, authorized, Request, provided, Gateway, denied,
  busy, raised, is_open, refuse, pass, enter,
}

-- The texts that can be compared.
abbrev pub IsComparable : String → String → Type 0
IsComparable a b = (is_ascii a ≡ true) × (is_ascii b ≡ true)

refused_iff :
    (p : Policy) (path given : String)
    → (authorized p path given ≡ some false) ↔ (
        (required_key p path ≢ "")
        × (given ≢ required_key p path)
        × ((given ≡ "") ⊎ IsComparable given (required_key p path)))
unfolding authorized compare_digest
refused_iff p path given =
    ground
      (arith, eq_iff (required_key p path) "", eq_iff given "", eq_iff given (required_key p path))

pub raised_why :
    (p : Policy) (path given : String)
    → authorized p path given ≡ none
    → (required_key p path ≢ "") × (given ≢ "") × ¬ (IsComparable given (required_key p path))
unfolding authorized compare_digest
raised_why p path given h = (
  λ e. ground (arith, h, e, eq_iff (required_key p path) ""),
  λ e. ground (arith, h, e, eq_iff given ""),
  λ (a, b). ground (arith, h, a, b),
)

refuse-denied :
    (sends : Bool) (q : Request) (status : ℕ) (g : Gateway)
    → ((refuse sends q status denied g).1 ≡ denied) ↔ (sends ≡ true)
unfolding refuse
refuse-denied true q status g = (λ _. refl, λ _. refl)
refuse-denied false q status g = (λ h. cc, λ h. cc)

busy_not_denied :
    (sends : Bool) (q : Request) (g : Gateway) → (refuse sends q 429 busy g).1 ≢ denied
unfolding refuse
busy_not_denied true q g = λ h. cc
busy_not_denied false q g = λ h. cc

pass_not_denied :
    (p : Policy) (sends : Bool) (q : Request) (g : Gateway) → (pass p sends q g).1 ≢ denied
unfolding pass
pass_not_denied p sends q g =
    elim (Bool-cases (ltb 0 p.max_concurrency && leb p.max_concurrency g.inflight)) [
      | inl full ↦ rw (full, pass) (busy_not_denied sends q g)
      | inr room ↦ elim (Bool-cases (ltb 0 p.max_concurrency)) [
        | inl caps ↦ rw (room, pass) (rw caps (λ h. cc))
        | inr free ↦ rw (room, pass) (rw free (λ h. cc))
      ]
    ]

-- Why the gateway answers 401: the path is not open and asks for a key, and the request has another
-- one or none. A key that the request has is compared, which takes ASCII only, and the answer is
-- taken by the client.
abbrev pub WhyDenied : Policy → Bool → Request → Type 0
WhyDenied p sends q =
    (is_open q.path ≡ false)
    × (required_key p q.path ≢ "")
    × (provided q ≢ required_key p q.path)
    × ((provided q ≡ "") ⊎ IsComparable (provided q) (required_key p q.path))
    × (sends ≡ true)

why_refused :
    (p : Policy) (sends : Bool) (q : Request)
    → WhyDenied p sends q
    → authorized p q.path (provided q) ≡ some false
why_refused p sends q (closed, asks, other, compares, sent) =
    (refused_iff p q.path (provided q)).1 (asks, other, compares)

enter-free :
    (p : Policy) (sends : Bool) (q : Request) (g : Gateway)
    → (is_open q.path ≡ true) ⊎ (authorized p q.path (provided q) ≡ some true)
    → enter p sends q g ≡ pass p sends q g
unfolding enter
enter-free p sends q g (inl free) = rw (free, enter) refl
enter-free p sends q g (inr known) = elim (Bool-cases (is_open q.path)) [
  | inl free ↦ rw (free, enter) refl
  | inr closed ↦ rw (closed, enter, known) refl
]

enter-foreign :
    (p : Policy) (sends : Bool) (q : Request) (g : Gateway)
    → is_open q.path ≡ false
    → authorized p q.path (provided q) ≡ none
    → enter p sends q g ≡ (g, raised)
unfolding enter
enter-foreign p sends q g closed raises = rw (closed, enter, raises) refl

enter-refused :
    (p : Policy) (sends : Bool) (q : Request) (g : Gateway)
    → is_open q.path ≡ false
    → authorized p q.path (provided q) ≡ some false
    → enter p sends q g ≡ refuse sends q 401 denied g
unfolding enter
enter-refused p sends q g closed other = rw (closed, enter, other) refl

-- The ways into the gateway.
unfoldable pub Entered : Policy → Bool → Request → Gateway → Type 0
Entered p sends q g =
    ((enter p sends q g ≡ pass p sends q g)
      × ((is_open q.path ≡ true) ⊎ (authorized p q.path (provided q) ≡ some true)))
    ⊎ (((enter p sends q g ≡ (g, raised))
          × (is_open q.path ≡ false)
          × (authorized p q.path (provided q) ≡ none))
        ⊎ ((enter p sends q g ≡ refuse sends q 401 denied g)
            × (is_open q.path ≡ false)
            × (authorized p q.path (provided q) ≡ some false)))

pub enter-Entered : (p : Policy) (sends : Bool) (q : Request) (g : Gateway) → Entered p sends q g
unfolding Entered
enter-Entered p sends q g = elim (Bool-cases (is_open q.path)) [
  | inl free ↦ inl (enter-free p sends q g (inl free), inl free)
  | inr closed ↦ elim (Option-cases (authorized p q.path (provided q))) [
    | inl raises ↦ inr (inl (enter-foreign p sends q g closed raises, closed, raises))
    | inr (true, known) ↦ inl (enter-free p sends q g (inr known), inr known)
    | inr (false, other) ↦ inr (inr (enter-refused p sends q g closed other, closed, other))
  ]
]

not_barred :
    (p : Policy) (sends : Bool) (q : Request)
    → (is_open q.path ≡ true) ⊎ (authorized p q.path (provided q) ≡ some true)
    → ¬ (WhyDenied p sends q)
not_barred p sends q (inl free) why = let closed = why.0 in cc
not_barred p sends q (inr known) why = let refused = why_refused p sends q why in cc

-- The gateway answers 401 exactly where the path is not open and asks for a key, the request has
-- another key or none, and nothing raises: a key that the request has and the key that is asked for
-- are ASCII, and the client takes the answer.
pub enter-denied_iff :
    (p : Policy) (sends : Bool) (q : Request) (g : Gateway)
    → ((enter p sends q g).1 ≡ denied) ↔ WhyDenied p sends q
unfolding Entered
enter-denied_iff p sends q g = elim (enter-Entered p sends q g) [
  | inl (e, free) ↦
      rw e
        (λ h. absurd (pass_not_denied p sends q g h), λ why. absurd (not_barred p sends q free why))
  | inr (inl (e, closed, raises)) ↦
      rw e (λ h. cc, λ why. let refused = why_refused p sends q why in cc)
  | inr (inr (e, closed, other)) ↦
      let (asks, differs, compares) = (refused_iff p q.path (provided q)).0 other in
      rw e (
        λ h. (closed, asks, differs, compares, (refuse-denied sends q 401 g).0 h),
        λ (c, asks', differs', compares', sent). (refuse-denied sends q 401 g).1 sent,
      )
]
