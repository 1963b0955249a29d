-- ===== src/Events/Bounds.antt =====
-- The queues of slow subscribers (app/events.py, `emit`).
use mathlib.Core.List.{append_assoc, append-nil}
use llamaswap.Base.{
  suc, ◌-◌, ◌≤◌, ◌<◌, ◌≡◌, List, [], ◌∷◌, ◌++◌, length, drop, arith, leb, length-append, Bool-cases,
  inl, inr, ap, ◌∙◌, sym,
}
use llamaswap.Events.{Event, Queue, maxsize, offer}

-- The newest events of a run that fit into a queue.
abbrev pub newest : List Event → List Event
newest es = drop (length es - maxsize) es

newest-short : (es : List Event) → length es ≤ maxsize → newest es ≡ es
newest-short es h = let z : length es - maxsize ≡ 0 = omega arith in rw z

newest-cons : (x : Event) (es : List Event) → maxsize ≤ length es → newest (x ∷ es) ≡ newest es
newest-cons x es h =
    let z : suc (length es) - maxsize ≡ suc (length es - maxsize) = omega arith in rw z

-- With room the event goes to the end; a full queue loses its oldest event first.
offer_room : (q : Queue) (e : Event) → length q < maxsize → offer q e ≡ q ++ (e ∷ [])
unfolding offer
offer_room q e h = ground arith

offer_full :
    (x : Event) (q : Queue) (e : Event) → suc (length q) ≡ maxsize → offer (x ∷ q) e ≡ q ++ (e ∷ [])
unfolding offer
offer_full x q e h = ground arith

length-offer : (q : Queue) (e : Event) → length q ≤ maxsize → length (offer q e) ≤ maxsize
length-offer [] e h = rw (offer_room [] e (omega arith)) (omega arith)
length-offer (x ∷ q) e h = elim (Bool-cases (leb maxsize (suc (length q)))) [
  | inl full ↦ rw (offer_full x q e (ground arith)) (omega (arith, length-append {0} q (e ∷ [])))
  | inr room ↦
      rw (offer_room (x ∷ q) e (ground arith)) (ground (arith, length-append {0} q (e ∷ [])))
]

-- The queue of a subscriber that reads nothing while the events `es` are emitted.
unfoldable pub offers : Queue → List Event → Queue
offers q [] = q
offers q (e ∷ es) = offers (offer q e) es

-- A subscriber that has fallen behind holds the newest events, in the order in which they were
-- emitted, and loses only the oldest.
pub offers-newest :
    (q : Queue) (es : List Event) → length q ≤ maxsize → offers q es ≡ newest (q ++ es)
unfolding offers
offers-newest q [] h = rw append-nil (sym (newest-short q h))
offers-newest [] (e ∷ es) h =
    offers-newest (offer [] e) es (length-offer [] e h) ∙ rw (offer_room [] e (omega arith))
offers-newest (x ∷ q) (e ∷ es) h =
    offers-newest (offer (x ∷ q) e) es (length-offer (x ∷ q) e h)
    ∙ (elim (Bool-cases (leb maxsize (suc (length q)))) [
      | inl full ↦ rw (offer_full x q e (ground arith)) (
          rw append_assoc
            (sym (newest-cons x (q ++ (e ∷ es)) (ground (arith, length-append {0} q (e ∷ es))))))
      | inr room ↦
          rw (offer_room (x ∷ q) e (ground arith)) (ap newest (append_assoc (x ∷ q) (e ∷ []) es))
    ])
