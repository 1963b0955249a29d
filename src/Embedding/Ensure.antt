-- ===== src/Embedding/Ensure.antt =====
-- Starting and stopping the embedding server (app/embedding_manager.py, `EmbeddingManager`).
use Prim.Native.String.{◌++◌}
use llamaswap.Base.{
  ℕ, ◌+◌, ◌-◌, String, Bool, true, false, not, ◌&&◌, ◌||◌, Option, none, some, List, [], ◌∷◌, eqb,
  if◌then◌else◌, is_some,
}
use llamaswap.Json.{ℤ}
use llamaswap.Metrics.{observe_load, inc_load_failure, inc_unload}
use llamaswap.Events.{model_loaded, model_unloaded, load_failed, emit}
use llamaswap.Registry.Config.{ModelConfig}
use llamaswap.Backend.Process.{
  World, Process, State, loading, ready, stopped, failed, is_ready, is_loading, StopReply, gone,
  exits, hangs, Reply, spawn_failed, cancelled, Health, healthy, waiting, broken, wait_rounds,
  unexpected, state_value,
}
use llamaswap.Backend.Manager.{Launch, Spawn, refused, runs, Loaded, up, pending, raised, reap}

-- `live` is the operating system's: the embedding processes that still run.
pub record Embedding : Type 0 where
  pub config : ModelConfig
  pub startup_timeout : ℕ
  pub process : Option Process
  pub state : State
  pub detail : String
  pub stopped_for_resources : Bool
  pub live : List ℕ

unfoldable pub init : ModelConfig → ℕ → Embedding
init cfg startup_timeout = record {
  config = cfg;
  startup_timeout = startup_timeout;
  process = none;
  state = stopped;
  detail = "";
  stopped_for_resources = false;
  live = [];
}

unfoldable pub is_running : Embedding → Bool
is_running e = is_ready e.state

unfoldable pub is_healthy : Reply → Bool
is_healthy r = eqb r.status 200

unfoldable pub told_unload : Embedding → World → World
told_unload e w =
    if is_ready e.state
    then record w {
      metrics = inc_unload w.metrics "embedding" e.config.name;
      bus = emit w.bus (model_unloaded "embedding" e.config.name);
    }
    else w

unfoldable pub terminate : StopReply → ℕ → Embedding → World → Embedding × World
terminate gone pid e w = (record e { live = reap pid e.live }, w)
terminate exits pid e w = (record e { live = reap pid e.live }, told_unload e w)
terminate hangs pid e w = (record e { live = reap pid e.live }, told_unload e w)

unfoldable pub stop_process : StopReply → Option Process → Embedding → World → Embedding × World
unfolding terminate
stop_process reply none e w = (e, w)
stop_process reply (some proc) e w =
    if is_some proc.returncode then (e, w) else terminate reply proc.pid e w

-- `_stop_locked`: the state is left to the caller.
unfoldable pub stop_locked : StopReply → Embedding → World → Embedding × World
unfolding stop_process
stop_locked reply e w = stop_process reply e.process (record e { process = none }) w

unfoldable pub told_failure : Embedding → String → World → World
told_failure e error w = record w {
  metrics = inc_load_failure w.metrics "embedding" e.config.name;
  bus = emit w.bus (load_failed "embedding" e.config.name error);
}

-- The end of `start`, by how the wait for health went.
unfoldable pub settle : Launch → ℕ → Health → Embedding → World → Embedding × World × Loaded
settle l pid healthy e w = (
  record e { state = ready; detail = ""; stopped_for_resources = false },
  record w {
    metrics = observe_load w.metrics "embedding" e.config.name (l.end_time - l.start);
    bus = emit w.bus (model_loaded "embedding" e.config.name none);
  },
  up,
)
settle l pid waiting e w = (e, w, pending)
settle l pid (broken err rc) e w =
    let seen = record e {
      process = some (record { pid = pid; returncode = rc });
      live = if is_some rc then reap pid e.live else e.live;
    } in
    let (e', w') = stop_locked l.stop seen w in
    (record e' { state = failed }, told_failure e' "did not become healthy" w', raised err)

unfoldable pub start_spawned : Launch → Spawn → Embedding → World → Embedding × World × Loaded
unfolding settle
start_spawned l (refused error) e w = (
  record e { state = failed; detail = "failed to spawn llama-server: " ++ error },
  told_failure e error w,
  raised (spawn_failed error),
)
start_spawned l (runs pid) e w =
    settle l pid (wait_rounds is_healthy (l.start + e.startup_timeout) l.rounds)
      (record e {
        process = some (record { pid = pid; returncode = none });
        state = loading;
        detail = "";
        live = pid ∷ e.live;
      })
      w

abbrev pub has_process : Option Process → Bool
has_process none = false
has_process (some proc) = not (is_some proc.returncode)

unfoldable pub start : StopReply → Launch → Embedding → World → Embedding × World × Loaded
start reply l e w =
    if is_ready e.state && has_process e.process
    then (e, w, up)
    else (let (e', w') = stop_locked reply e w in start_spawned l l.spawn e' w')

abbrev pub was_running : State → Bool
was_running s = is_ready s || is_loading s

unfoldable pub stop : StopReply → Embedding → World → Embedding × World
stop reply e w =
    let (e', w') = stop_locked reply e w in
    (if was_running e.state then record e' { state = stopped; detail = "" } else e', w')

unfoldable pub stop_for_resources : String → StopReply → Embedding → World → Embedding × World
stop_for_resources reason reply e w =
    let (e', w') = stop_locked reply e w in
    (
      if was_running e.state
          then record e' {
            state = stopped;
            detail = "stopped to make room for " ++ reason;
            stopped_for_resources = true;
          }
          else record e' { stopped_for_resources = true },
      w',
    )

-- What `ensure_running` returns, or that it passes a cancellation on, or has not returned.
pub data Answer : Type 0 where
  answers : Bool → Answer
  interrupted waits : Answer

unfoldable pub answer_of : Loaded → Answer
answer_of up = answers true
answer_of pending = waits
answer_of (raised cancelled) = interrupted
answer_of (raised e) = answers false

-- `after` is the manager when the wait for a load under way ends: the load is another call's.
unfoldable pub ensure_running :
    Bool → Embedding → StopReply → Launch → Embedding → World → Embedding × World × Answer
ensure_running restart_loading after reply l e w =
    if is_ready e.state
    then (e, w, answers true)
    else (let waits_first = is_loading e.state && not restart_loading in
        let seen = if waits_first then after else e in
        if waits_first && is_ready after.state
        then (seen, w, answers true)
        else (let (e', w', r) = start reply l seen w in (e', w', answer_of r)))

unfoldable pub exit_process : ℤ → String → Option Process → Embedding → Embedding
exit_process rc detail none e = e
exit_process rc detail (some proc) e =
    if is_some proc.returncode
    then e
    else (let dead = record e {
      process = some (record { pid = proc.pid; returncode = some rc });
      live = reap proc.pid e.live;
    } in
        if is_ready e.state && unexpected rc
        then record dead { state = failed; detail = detail }
        else dead)

-- The server ends by itself: `_tail_stderr`.
unfoldable pub exit_current : ℤ → String → Embedding → Embedding
unfolding exit_process
exit_current rc detail e = exit_process rc detail e.process e

pub record Status : Type 0 where
  pub state : String
  pub model : String
  pub port : ℕ
  pub stopped_for_resources : Bool
  pub detail : String

unfoldable pub status : Embedding → Status
status e = record {
  state = state_value e.state;
  model = e.config.name;
  port = e.config.port;
  stopped_for_resources = e.stopped_for_resources;
  detail = e.detail;
}
