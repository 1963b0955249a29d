-- ===== src/Backend/Manager.antt =====
-- The manager of one on-demand backend at a time, over what tells `ProcessManager` and
-- `RoleServerManager` apart. Their modules instantiate it.
use llamaswap.Base.{
  ℕ, ◌+◌, ◌-◌, String, Bool, true, false, not, ◌&&◌, Option, none, some, List, ◌∷◌, ltb, keep,
  if◌then◌else◌, ◌==◌, string_key, nat_key, is_some,
}
use llamaswap.Json.{ℤ, Fields, end, field}
use llamaswap.Metrics.{observe_load, inc_load_failure, inc_unload, inc_swap}
use llamaswap.Events.{model_loaded, model_unloaded, swap, load_failed, emit}
use llamaswap.Registry.Config.{ModelConfig}
use llamaswap.Backend.Process.{
  World, Process, State, loading, ready, failed, is_ready, StopReply, gone, exits, hangs, Reply,
  Round, LoadError, spawn_failed, Health, healthy, waiting, broken, wait_rounds, cleanup_config,
  write_file, unexpected,
}

-- `RunningModel`, `_RunningServer`; the name is that of the config.
pub record Running : Type 0 where
  pub config : ModelConfig
  pub process : Process
  pub state : State
  pub detail : String
  pub config_file : Option String

-- `live` is the operating system's: the processes started here that still run.
pub record Manager : Type 0 where
  pub startup_timeout : ℕ
  pub idle_unload_seconds : ℕ
  pub config_dir : String
  pub current : Option Running
  pub last_activity : ℕ
  pub pinned_until : ℕ
  pub live : List ℕ

-- The differences: the role's label, where a rendered config goes, which health replies count,
-- and whether a process that is already gone still has its config file removed.
pub record Flavour : Type 0 where
  pub label : String
  pub config_path : String → String → String
  pub accepts : Reply → Bool
  pub cleans_gone : Bool

pub data Spawn : Type 0 where
  refused : String → Spawn
  runs : ℕ → Spawn

-- What a launch meets: the spawn, the rounds of the wait, the answer to SIGTERM if it fails, and
-- the times at its start and its end.
pub record Launch : Type 0 where
  pub spawn : Spawn
  pub rounds : List Round
  pub stop : StopReply
  pub start : ℕ
  pub end_time : ℕ

pub data Loaded : Type 0 where
  up pending : Loaded
  raised : LoadError → Loaded

-- The process has ended.
abbrev pub reap : ℕ → List ℕ → List ℕ
reap pid live = keep (λ p. not (p == pid)) live

abbrev pub empty_fields : Fields → Bool
empty_fields end = true
empty_fields (field k v fs) = false

module _ (f : Flavour) where
  -- After the process has ended: counters and events for a server that was ready.
  unfoldable pub told_unload : Running → World → World
  told_unload cur w =
      if is_ready cur.state
      then record w {
        metrics = inc_unload w.metrics f.label cur.config.name;
        bus = emit w.bus (model_unloaded f.label cur.config.name);
      }
      else w

  unfoldable pub terminate : StopReply → Running → Manager → World → Manager × World
  terminate gone cur m w = (
    record m { live = reap cur.process.pid m.live },
    if f.cleans_gone then cleanup_config cur.config_file w else w,
  )
  terminate exits cur m w = (
    record m { live = reap cur.process.pid m.live },
    cleanup_config cur.config_file (told_unload cur w),
  )
  terminate hangs cur m w = (
    record m { live = reap cur.process.pid m.live },
    cleanup_config cur.config_file (told_unload cur w),
  )

  unfoldable pub stop_entry : StopReply → Option Running → Manager → World → Manager × World
  unfolding terminate
  stop_entry reply none m w = (m, w)
  stop_entry reply (some cur) m w =
      if is_some cur.process.returncode
      then (m, cleanup_config cur.config_file w)
      else terminate reply cur m w

  -- `_stop_current`: the entry is dropped before anything is awaited.
  unfoldable pub stop_current : StopReply → Manager → World → Manager × World
  unfolding stop_entry
  stop_current reply m w = stop_entry reply m.current (record m { current = none }) w

  -- `_render_config`
  unfoldable pub rendered : Manager → ModelConfig → Option String
  rendered m cfg = elim cfg.command.config_json [
    | none ↦ none
    | some fs ↦ if empty_fields fs then none else some (f.config_path m.config_dir cfg.name)
  ]

  abbrev pub written : Option String → World → World
  unfolding write_file
  written none w = w
  written (some path) w = write_file path w

  unfoldable pub told_failure : String → String → World → World
  told_failure name error w = record w {
    metrics = inc_load_failure w.metrics f.label name;
    bus = emit w.bus (load_failed f.label name error);
  }

  -- The end of `_launch`, by how the wait for health went.
  unfoldable pub settle : Launch → Running → Health → Manager → World → Manager × World × Loaded
  unfolding stop_current told_failure
  settle l entry healthy m w = (
    record m { current = some (record entry { state = ready; detail = "" }) },
    record w {
      metrics = observe_load w.metrics f.label entry.config.name (l.end_time - l.start);
      bus = emit w.bus (model_loaded f.label entry.config.name (some (l.end_time - l.start)));
    },
    up,
  )
  settle l entry waiting m w = (m, w, pending)
  settle l entry (broken e rc) m w =
      let seen = record m {
        current =
            some (record entry { process = record { pid = entry.process.pid; returncode = rc } });
        live = if is_some rc then reap entry.process.pid m.live else m.live;
      } in
      let (m', w') = stop_current l.stop seen w in
      (m', told_failure entry.config.name "did not become healthy" w', raised e)

  unfoldable pub launch_spawned :
      Launch → ModelConfig → Option String → Spawn → Manager → World → Manager × World × Loaded
  unfolding settle
  launch_spawned l cfg file (refused error) m w =
      (m, told_failure cfg.name error (cleanup_config file w), raised (spawn_failed error))
  launch_spawned l cfg file (runs pid) m w =
      let entry : Running = record {
        config = cfg;
        process = record { pid = pid; returncode = none };
        state = loading;
        detail = "";
        config_file = file;
      } in
      settle l entry (wait_rounds f.accepts (l.start + m.startup_timeout) l.rounds)
        (record m { current = some entry; live = pid ∷ m.live }) w

  unfoldable pub launch : Launch → ModelConfig → Manager → World → Manager × World × Loaded
  unfolding launch_spawned rendered
  launch l cfg m w = launch_spawned l cfg (rendered m cfg) l.spawn m (written (rendered m cfg) w)

  -- A swap is told where a ready server of another name was replaced.
  unfoldable pub told_swap : Option String → String → World → World
  told_swap none name w = w
  told_swap (some prev) name w = if prev == name then w else record w {
    metrics = inc_swap w.metrics f.label prev name;
    bus = emit w.bus (swap f.label prev name);
  }

  -- An exception of the launch passes this by.
  unfoldable pub told_loaded : Loaded → Option String → String → World → World
  unfolding told_swap
  told_loaded up prev name w = told_swap prev name w
  told_loaded r prev name w = w

  -- The part of `ensure_model` behind its early returns: stop, launch, tell.
  unfoldable pub replace :
      StopReply
      → Launch
      → ModelConfig
      → String
      → Option String
      → Manager
      → World
      → Manager × World × Loaded
  unfolding stop_current launch told_loaded
  replace reply l cfg name prev m w =
      let (m₁, w₁) = stop_current reply m w in
      let (m₂, w₂, r) = launch l cfg m₁ w₁ in (m₂, told_loaded r prev name w₂, r)

  unfoldable pub unload : StopReply → Manager → World → Manager × World × Bool
  unfolding stop_current
  unload reply m w = let (m', w') = stop_current reply m w in (m', w', is_some m.current)

-- The name of a server that is ready.
unfoldable pub ready_name : Option Running → Option String
ready_name none = none
ready_name (some cur) = if is_ready cur.state then some cur.config.name else none

unfoldable pub pin : ℕ → ℕ → Manager → Manager
pin now seconds m = if ltb 0 seconds then record m { pinned_until = now + seconds } else m

-- What the task that drains a backend's output does when the process has ended.
unfoldable pub on_exit : ℤ → String → Running → Running
on_exit rc detail cur =
    let dead = record cur { process = record { pid = cur.process.pid; returncode = some rc } } in
    if is_ready cur.state && unexpected rc
    then record dead { state = failed; detail = detail }
    else dead

unfoldable pub exit_entry : ℤ → String → Option Running → Manager → Manager
unfolding on_exit
exit_entry rc detail none m = m
exit_entry rc detail (some cur) m =
    if is_some cur.process.returncode
    then m
    else record m { current = some (on_exit rc detail cur); live = reap cur.process.pid m.live }

-- The current backend ends by itself.
unfoldable pub exit_current : ℤ → String → Manager → Manager
unfolding exit_entry
exit_current rc detail m = exit_entry rc detail m.current m
