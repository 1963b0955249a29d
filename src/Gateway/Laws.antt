-- ===== src/Gateway/Laws.antt =====
-- How many requests are inside the gateway at a time, and which are counted (app/main.py,
-- `_GatewayMiddleware`).
use llamaswap.Base.{
  ℕ, suc, ◌+◌, ◌≤◌, ◌<◌, ◌≡◌, ◌≢◌, ◌⊎◌, refl, sym, subst, inl, inr, Bool, true, false, List, [],
  ◌∷◌, ◌++◌, length, length-append, All, ap, ltb, leb, arith, Bool-cases, string_key,
}
use llamaswap.Gateway.Access.{
  Policy, required_key, Request, provided, Gateway, Entry, denied, busy, admitted, raised, is_open,
  refuse, pass, enter, leave,
}
use llamaswap.Gateway.Denials.{IsComparable, raised_why, Entered, enter-Entered}

-- The gateway with the requests that are inside, those for which it raised with whether the client
-- would have taken an answer, and the number that have arrived.
pub record Front : Type 0 where
  pub gateway : Gateway
  pub inside : List Request
  pub failed : List (Bool × Request)
  pub arrived : ℕ

-- Where an entry leaves its request.
abbrev pub joins : Entry → Request → List Request → List Request
joins admitted q inside = q ∷ inside
joins e q inside = inside

abbrev pub fails : Entry → Bool × Request → List (Bool × Request) → List (Bool × Request)
fails raised x failed = x ∷ failed
fails e x failed = failed

abbrev pub opened : Front
opened = record {
  gateway = record { inflight = 0; counted = [] };
  inside = [];
  failed = [];
  arrived = 0;
}

-- The front behind the arrival of a request.
abbrev pub behind : Bool → Request → Front → Gateway × Entry → Front
behind sends q f (g, e) = record {
  gateway = g;
  inside = joins e q f.inside;
  failed = fails e (sends, q) f.failed;
  arrived = suc f.arrived;
}

pub data Step (p : Policy) (f f' : Front) : Type 0 where
  arrives :
      (sends : Bool) (q : Request) → f' ≡ behind sends q f (enter p sends q f.gateway) → Step p f f'
  leaves :
      (before after : List Request) (q : Request) (status : ℕ)
      → f.inside ≡ before ++ (q ∷ after)
      → f' ≡ record f { gateway = leave p q status f.gateway; inside = before ++ after }
      → Step p f f'

pub data Reach (p : Policy) : Front → Type 0 where
  here : Reach p opened
  next : {f f' : Front} → Reach p f → Step p f f' → Reach p f'

-- Why the gateway raises: the client does not take its answer, or the keys cannot be compared.
abbrev pub WhyFailed : Policy → Bool × Request → Type 0
WhyFailed p (sends, q) =
    (sends ≡ false)
    ⊎ ((is_open q.path ≡ false)
        × (required_key p q.path ≢ "")
        × (provided q ≢ "")
        × ¬ (IsComparable (provided q) (required_key p q.path)))

-- Every request that has arrived is inside, was counted once, or made the gateway raise, for a
-- reason. Where there is a cap, the counter is the number of those inside, which is at most the cap.
pub record IsBalanced (p : Policy) (f : Front) : Type 0 where
  pub all : length f.gateway.counted + length f.inside + length f.failed ≡ f.arrived
  pub capped :
      0 < p.max_concurrency
      → (f.gateway.inflight ≡ length f.inside) × (length f.inside ≤ p.max_concurrency)
  pub excused : All (WhyFailed p) f.failed

refuse-IsBalanced :
    (p : Policy) (sends : Bool) (q : Request) (status : ℕ) (e : Entry) (f : Front)
    → (e ≡ denied) ⊎ (e ≡ busy)
    → IsBalanced p f
    → IsBalanced p (behind sends q f (refuse sends q status e f.gateway))
unfolding refuse
refuse-IsBalanced p true q status denied f k h = record {
  all = omega (arith, h.all);
  capped = h.capped;
  excused = h.excused;
}
refuse-IsBalanced p true q status busy f k h = record {
  all = omega (arith, h.all);
  capped = h.capped;
  excused = h.excused;
}
refuse-IsBalanced p true q status admitted f (inl k) h = cc
refuse-IsBalanced p true q status admitted f (inr k) h = cc
refuse-IsBalanced p true q status raised f (inl k) h = cc
refuse-IsBalanced p true q status raised f (inr k) h = cc
refuse-IsBalanced p false q status e f k h = record {
  all = omega (arith, h.all);
  capped = h.capped;
  excused = (inl refl, h.excused);
}

pass-IsBalanced :
    (p : Policy) (sends : Bool) (q : Request) (f : Front)
    → IsBalanced p f
    → IsBalanced p (behind sends q f (pass p sends q f.gateway))
unfolding pass
pass-IsBalanced p sends q f h = elim (Bool-cases (ltb 0 p.max_concurrency)) [
  | inl caps ↦ elim (Bool-cases (leb p.max_concurrency f.gateway.inflight)) [
    | inl full ↦ rw (caps, full) (refuse-IsBalanced p sends q 429 busy f (inr refl) h)
    | inr room ↦
        rw (caps, room)
          (record {
            all = omega (arith, h.all);
            capped = λ c.
                let (same, below) = h.capped c in
                (omega (arith, same), ground (arith, same, below, room));
            excused = h.excused;
          })
  ]
  | inr free ↦ rw free (record {
    all = omega (arith, h.all);
    capped = λ c. absurd (ground (arith, c, free));
    excused = h.excused;
  })
]

arrives-IsBalanced :
    (p : Policy) (sends : Bool) (q : Request) (f : Front)
    → IsBalanced p f
    → IsBalanced p (behind sends q f (enter p sends q f.gateway))
unfolding Entered
arrives-IsBalanced p sends q f h = elim (enter-Entered p sends q f.gateway) [
  | inl (e, free) ↦ rw e (pass-IsBalanced p sends q f h)
  | inr (inl (e, closed, raises)) ↦
      let (asks, has, foreign) = raised_why p q.path (provided q) raises in
      rw e (record {
        all = omega (arith, h.all);
        capped = h.capped;
        excused = (inr (closed, asks, has, foreign), h.excused);
      })
  | inr (inr (e, closed, other)) ↦ rw e (refuse-IsBalanced p sends q 401 denied f (inl refl) h)
]

leaves-IsBalanced :
    (p : Policy) (before after : List Request) (q : Request) (status : ℕ) (f : Front)
    → f.inside ≡ before ++ (q ∷ after)
    → IsBalanced p f
    → IsBalanced p (record f { gateway = leave p q status f.gateway; inside = before ++ after })
unfolding leave
leaves-IsBalanced p before after q status f e h =
    let a = length-append {0} before (q ∷ after) in
    let b = length-append {0} before after in
    let s : length f.inside ≡ length (before ++ (q ∷ after)) = ap length e in
    record {
      all = omega (arith, h.all, a, b, s);
      capped = λ c.
          let (same, below) = h.capped c in
          (ground (arith, same, a, b, s, c), omega (arith, below, a, b, s));
      excused = h.excused;
    }

Step-IsBalanced : (p : Policy) (f f' : Front) → Step p f f' → IsBalanced p f → IsBalanced p f'
Step-IsBalanced p f f' (arrives sends q e) h =
    subst (IsBalanced p) (sym e) (arrives-IsBalanced p sends q f h)
Step-IsBalanced p f f' (leaves before after q status i e) h =
    subst (IsBalanced p) (sym e) (leaves-IsBalanced p before after q status f i h)

-- Whatever order requests arrive and leave in, every one that has arrived is inside, was counted
-- once, or made the gateway raise before it was counted; it raises only where the client does not
-- take its answer, or where a closed path asks for a key, the request has one, and one of the two is
-- not ASCII. Under a cap the counter of those in flight is their number and never above the cap.
pub Reach-IsBalanced : (p : Policy) {f : Front} → Reach p f → IsBalanced p f
Reach-IsBalanced p here = record { all = refl; capped = λ c. (refl, omega arith); excused = tt }
Reach-IsBalanced p (next {f = a} {f' = b} r s) = Step-IsBalanced p a b s (Reach-IsBalanced p r)
