-- ===== src/Events/Tests.antt =====
-- Two emissions to a subscriber that reads nothing.
use llamaswap.Base.{◌≡◌, [], ◌∷◌, arith, nat_key}
use llamaswap.Events.{Event, model_unloaded}
use llamaswap.Events.Bounds.{newest, offers, offers-newest}

abbrev stopped : Event
stopped = model_unloaded "tts" "supertonic"

offers-newest_example :
    offers (stopped ∷ []) (stopped ∷ stopped ∷ []) ≡ newest (stopped ∷ stopped ∷ stopped ∷ [])
offers-newest_example = offers-newest (stopped ∷ []) (stopped ∷ stopped ∷ []) (omega arith)
