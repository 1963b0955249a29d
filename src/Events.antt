-- ===== src/Events.antt =====
-- The in-process event bus (app/events.py). A payload is kept as the event that it spells.
mod Bounds
mod Tests
use llamaswap.Base.{
  ℕ, suc, String, Option, none, some, List, [], ◌∷◌, ◌++◌, map, length, leb, if◌then◌else◌, Dict,
  put, keep, not, ◌==◌, nat_key,
}

pub data Event : Type 0 where
  model_loaded : String → String → Option ℕ → Event
  model_unloaded : String → String → Event
  swap : String → String → String → Event
  load_failed : String → String → String → Event

abbrev pub Queue : Type 0
Queue = List Event

abbrev pub maxsize : ℕ
maxsize = 100

-- The subscribers, each queue under the identity of its object.
abbrev pub Bus : Type 0
Bus = Dict ℕ Queue

-- `asyncio.Queue`'s calls; `none` is `QueueFull` or `QueueEmpty`.
unfoldable pub put_nowait : Queue → Event → Option Queue
put_nowait q e = if leb maxsize (length q) then none else some (q ++ (e ∷ []))

unfoldable pub get_nowait : Queue → Option Queue
get_nowait [] = none
get_nowait (x ∷ q) = some q

abbrev or_same : Option Queue → Queue → Queue
or_same none q = q
or_same (some q') q = q'

-- The body of the loop of `emit`.
unfoldable pub offer : Queue → Event → Queue
unfolding put_nowait get_nowait
offer q e = elim (put_nowait q e) [
  | some q' ↦ q'
  | none ↦ or_same (put_nowait (or_same (get_nowait q) q) e) (or_same (get_nowait q) q)
]

unfoldable pub emit : Bus → Event → Bus
emit bus e = map (λ p. (p.0, offer p.1 e)) bus

-- `id` names the new queue object.
unfoldable pub subscribe : Bus → ℕ → Bus
subscribe bus id = put bus id []

unfoldable pub unsubscribe : Bus → ℕ → Bus
unsubscribe bus id = keep (λ p. not (p.0 == id)) bus
