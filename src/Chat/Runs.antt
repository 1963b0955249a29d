-- ===== src/Chat/Runs.antt =====
-- The chat manager over its whole life: a step for each thing that can happen to it.
use llamaswap.Base.{
  not, ◌||◌, ltb, ◌-◌, ℕ, ◌≤◌, ◌≡◌, ◌≢◌, refl, String, none, [], length, Bool-cases, inl, inr,
  subst, sym,
}
use llamaswap.Json.{ℤ}
use llamaswap.Registry.Query.{Registry}
use llamaswap.Backend.Process.{World, StopReply}
use llamaswap.Backend.Manager.{Manager, exit_current, pin}
use llamaswap.Backend.Invariant.{
  IsSound, cleared-IsSound, stop_current-clears, unload-clears, exit_current-IsSound, IsSound-one,
}
use llamaswap.Chat.Ensure.{chat, Visit, waits, ensure_model, unload}
use llamaswap.Chat.Idle.{watch_unload, ready_entry}
use llamaswap.Chat.Laws.{ensure_model-IsSound}

-- `__init__`
unfoldable pub init : ℕ → ℕ → String → Manager
init startup_timeout idle_unload_seconds config_dir = record {
  startup_timeout = startup_timeout;
  idle_unload_seconds = idle_unload_seconds;
  config_dir = config_dir;
  current = none;
  last_activity = 0;
  pinned_until = 0;
  live = [];
}

-- The operations hold the lock from end to end, so they follow one another; a watcher's round is
-- its half under the lock, with whatever window it took before. A call that has not returned is
-- no step.
pub data Step (m m' : Manager) : Type 0 where
  ensures :
      (v : Visit) (r : Registry) (name : String) (w : World)
      → (ensure_model v r name m w).2 ≢ waits
      → m' ≡ (ensure_model v r name m w).0
      → Step m m'
  unloads : (reply : StopReply) (w : World) → m' ≡ (unload reply m w).0 → Step m m'
  watches :
      (threshold now : ℕ) (reply : StopReply) (w : World)
      → m' ≡ (watch_unload threshold now reply m w).0
      → Step m m'
  ends : (rc : ℤ) (detail : String) → m' ≡ exit_current rc detail m → Step m m'
  pins : (now seconds : ℕ) → m' ≡ pin now seconds m → Step m m'

pub data Reach (start : Manager) : Manager → Type 0 where
  here : Reach start start
  next : {m m' : Manager} → Reach start m → Step m m' → Reach start m'

cleared : (m : Manager) → (m.current ≡ none) × (m.live ≡ []) → IsSound m
cleared m c = cleared-IsSound m c.0 c.1

watch-IsSound :
    (threshold now : ℕ) (reply : StopReply) (m : Manager) (w : World)
    → IsSound m
    → IsSound (watch_unload threshold now reply m w).0
unfolding watch_unload
watch-IsSound threshold now reply m w h =
    elim (Bool-cases (not (ready_entry m.current) || ltb (now - m.last_activity) threshold)) [
      | inl stays ↦ rw stays h
      | inr due ↦ rw due (cleared _ (stop_current-clears chat reply m w h.lives))
    ]

pin-IsSound : (now seconds : ℕ) (m : Manager) → IsSound m → IsSound (pin now seconds m)
unfolding pin
pin-IsSound now seconds m h = elim (Bool-cases (ltb 0 seconds)) [
  | inl some_time ↦ rw some_time (record { lives = h.lives; settled = h.settled })
  | inr no_time ↦ rw no_time h
]

Step-IsSound : (m m' : Manager) → Step m m' → IsSound m → IsSound m'
Step-IsSound m m' (ensures v r name w n e) h =
    subst IsSound (sym e) (ensure_model-IsSound v r name m w h n)
Step-IsSound m m' (unloads reply w e) h =
    subst IsSound (sym e) (unfold unload in cleared _ (unload-clears chat reply m w h.lives))
Step-IsSound m m' (watches t now reply w e) h =
    subst IsSound (sym e) (watch-IsSound t now reply m w h)
Step-IsSound m m' (ends rc detail e) h = subst IsSound (sym e) (exit_current-IsSound rc detail m h)
Step-IsSound m m' (pins now seconds e) h = subst IsSound (sym e) (pin-IsSound now seconds m h)

pub init-IsSound : (startup idle : ℕ) (dir : String) → IsSound (init startup idle dir)
unfolding init
init-IsSound startup idle dir = record { lives = refl; settled = refl }

Reach-IsSound : {s m : Manager} → IsSound s → Reach s m → IsSound m
Reach-IsSound h here = h
Reach-IsSound h (next {m} {m'} r st) = Step-IsSound m m' st (Reach-IsSound h r)

-- Whatever happens to the chat manager, between two of its operations at most one of its backend
-- processes runs: it is the current one, and no load is under way.
pub Reach-one_process :
    (startup idle : ℕ) (dir : String) {m : Manager}
    → Reach (init startup idle dir) m
    → IsSound m × (length m.live ≤ 1)
Reach-one_process startup idle dir {m} r =
    let h = Reach-IsSound (init-IsSound startup idle dir) r in (h, IsSound-one m h)
