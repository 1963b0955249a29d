-- ===== src/Embedding/Laws.antt =====
-- The embedding manager after its operations (app/embedding_manager.py).
use llamaswap.Base.{
  not, ◌+◌, ◌∙◌, ap, ℕ, ◌≡◌, ◌≢◌, refl, inl, inr, String, Bool, true, false, ◌&&◌, Option, none,
  some, List, [], ◌∷◌, arith, Bool-cases, is_some, eqb_iff, if◌then◌else◌,
}
use llamaswap.Backend.Process.{
  World, Process, is_loading, ready, loading, failed, is_ready, StopReply, gone, Health, healthy,
  waiting, broken, wait_rounds, cancelled,
}
use llamaswap.Backend.Manager.{Launch, Spawn, refused, runs, Loaded, up, pending, raised, reap}
use llamaswap.Embedding.Ensure.{
  Embedding, stop_process, stop_locked, settle, start_spawned, start, stop, stop_for_resources,
  Answer, answers, interrupted, waits, ensure_running, has_process, is_healthy, answer_of,
}

abbrev pub live_of : Option Process → List ℕ
live_of none = []
live_of (some proc) = if is_some proc.returncode then [] else proc.pid ∷ []

-- The processes that run are the one that the manager knows of.
abbrev pub IsSound : Embedding → Type 0
IsSound e = e.live ≡ live_of e.process

process_clears :
    (reply : StopReply) (p : Option Process) (e : Embedding) (w : World)
    → e.live ≡ live_of p
    → e.process ≡ none
    → ((stop_process reply p e w).0.process ≡ none) × ((stop_process reply p e w).0.live ≡ [])
unfolding stop_process
process_clears reply none e w h n = (n, h)
process_clears gone (some proc) e w h n = ground (arith, eqb_iff proc.pid proc.pid)
process_clears _ (some proc) e w h n = ground (arith, eqb_iff proc.pid proc.pid)

locked_clears :
    (reply : StopReply) (e : Embedding) (w : World)
    → IsSound e
    → ((stop_locked reply e w).0.process ≡ none) × ((stop_locked reply e w).0.live ≡ [])
unfolding stop_locked
locked_clears reply e w h = process_clears reply e.process (record e { process = none }) w h refl

process_state :
    (reply : StopReply) (p : Option Process) (e : Embedding) (w : World)
    → (stop_process reply p e w).0.state ≡ e.state
unfolding stop_process
process_state reply none e w = refl
process_state gone (some proc) e w = ground arith
process_state _ (some proc) e w = ground arith

locked_state :
    (reply : StopReply) (e : Embedding) (w : World) → (stop_locked reply e w).0.state ≡ e.state
unfolding stop_locked
locked_state reply e w = process_state reply e.process (record e { process = none }) w

-- What a stop leaves: no process, and a state that is not taken for a running server.
abbrev pub IsDown : Embedding → Type 0
IsDown e = (e.live ≡ []) × (e.process ≡ none) × (e.state ≢ ready) × (e.state ≢ loading)

pub stop-IsDown :
    (reply : StopReply) (e : Embedding) (w : World) → IsSound e → IsDown (stop reply e w).0
unfolding stop
stop-IsDown reply e w h =
    let (p, l) = locked_clears reply e w h in
    let s = locked_state reply e w in (ground arith, ground arith, ground arith, ground arith)

-- A stop, whether it frees resources or not, ends every embedding process, and the server is not
-- taken for a running or a loading one any more. One that frees resources is remembered.
pub stop_for_resources-IsDown :
    (reason : String) (reply : StopReply) (e : Embedding) (w : World)
    → IsSound e
    → IsDown (stop reply e w).0
      × IsDown (stop_for_resources reason reply e w).0
      × ((stop_for_resources reason reply e w).0.stopped_for_resources ≡ true)
unfolding stop_for_resources
stop_for_resources-IsDown reason reply e w h =
    let (p, l) = locked_clears reply e w h in
    let s = locked_state reply e w in
    (
      stop-IsDown reply e w h,
      (ground arith, ground arith, ground arith, ground arith),
      ground arith,
    )

-- How `start` leaves the manager.
abbrev pub Started : Loaded → Embedding → Type 0
Started up e =
    (proc : Process) × (e.process ≡ some proc)
    × (proc.returncode ≡ none)
    × (e.live ≡ proc.pid ∷ [])
    × (e.state ≡ ready)
Started pending e = IsSound e × (e.state ≡ loading)
Started (raised x) e = (e.process ≡ none) × (e.live ≡ []) × (e.state ≡ failed)

settle-Started :
    (l : Launch) (pid : ℕ) (h : Health) (e : Embedding) (w : World)
    → e.process ≡ some (record { pid = pid; returncode = none })
    → e.live ≡ pid ∷ []
    → e.state ≡ loading
    → Started (settle l pid h e w).2 (settle l pid h e w).0
unfolding settle
settle-Started l pid healthy e w p k s = (_, p, refl, k, refl)
settle-Started l pid waiting e w p k s = (rw p k, s)
settle-Started l pid (broken err rc) e w p k s =
    let (q, c) =
      locked_clears l.stop
        (record e {
          process = some (record { pid = pid; returncode = rc });
          live = if is_some rc then reap pid e.live else e.live;
        })
        w (ground (arith, eqb_iff pid pid)) in
    (q, c, refl)

spawned_Started :
    (l : Launch) (s : Spawn) (e : Embedding) (w : World)
    → e.process ≡ none
    → e.live ≡ []
    → Started (start_spawned l s e w).2 (start_spawned l s e w).0
unfolding start_spawned
spawned_Started l (refused error) e w p k = (p, k, refl)
spawned_Started l (runs pid) e w p k =
    settle-Started l pid (wait_rounds is_healthy (l.start + e.startup_timeout) l.rounds) _ w refl
      (rw k) refl

alive_process :
    (p : Option Process)
    → has_process p ≡ true
    → (proc : Process) × (p ≡ some proc) × (proc.returncode ≡ none)
alive_process none h = cc
alive_process (some proc) h = (proc, refl, ground arith)

-- A start that returns leaves one live process that is ready, the one that was there or a new one.
-- One that raises leaves no process and the state FAILED.
pub start-Started :
    (reply : StopReply) (l : Launch) (e : Embedding) (w : World)
    → IsSound e
    → Started (start reply l e w).2 (start reply l e w).0
unfolding start
start-Started reply l e w h = elim (Bool-cases (is_ready e.state && has_process e.process)) [
  | inl serves ↦
      let (proc, p, alive) = alive_process e.process (ground arith) in
      rw serves (proc, p, alive, h ∙ ap live_of p ∙ rw alive, ground arith)
  | inr down ↦
      let (p, k) = locked_clears reply e w h in
      rw down (spawned_Started l l.spawn (stop_locked reply e w).0 (stop_locked reply e w).1 p k)
]

-- What an answer of `ensure_running` says of the server.
abbrev pub Answered : Answer → Embedding → Type 0
Answered (answers true) e = e.state ≡ ready
Answered (answers false) e = (e.live ≡ []) × (e.state ≡ failed)
Answered interrupted e = (e.live ≡ []) × (e.state ≡ failed)
Answered waits e = e.state ≡ loading

of_Started : (r : Loaded) (e : Embedding) → Started r e → Answered (answer_of r) e
unfolding answer_of
of_Started up e (proc, p, alive, k, s) = s
of_Started pending e (h, s) = s
of_Started (raised cancelled) e (p, k, s) = (k, s)
of_Started (raised _) e (p, k, s) = (k, s)

-- `ensure_running` says yes only with the state READY; it says no, or passes a cancellation on, only
-- with nothing running and the state FAILED; while it has not returned, the state is LOADING.
pub ensure_running-Answered :
    (restart_loading : Bool) (after : Embedding) (reply : StopReply) (l : Launch) (e : Embedding)
    (w : World)
    → IsSound e
    → IsSound after
    → Answered
        (ensure_running restart_loading after reply l e w).2
        (ensure_running restart_loading after reply l e w).0
unfolding ensure_running
ensure_running-Answered restart_loading after reply l e w h k =
    elim (Bool-cases (is_ready e.state)) [
      | inl serves ↦ rw serves (ground arith)
      | inr down ↦ elim (Bool-cases (is_loading e.state && not restart_loading)) [
        | inr goes_on ↦
            rw (down, goes_on)
              (of_Started (start reply l e w).2 (start reply l e w).0 (start-Started reply l e w h))
        | inl waits_first ↦ elim (Bool-cases (is_ready after.state)) [
          | inl came_up ↦ rw (down, waits_first, came_up) (ground arith)
          | inr still_down ↦
              rw (down, waits_first, still_down)
                (of_Started (start reply l after w).2 (start reply l after w).0
                  (start-Started reply l after w k))
        ]
      ]
    ]
