-- ===== src/Chat/Ensure.antt =====
-- Loading, stopping and swapping the chat LLM (app/process_manager.py).
use Prim.Native.String.{◌++◌}
use llamaswap.Base.{
  ℕ, ◌-◌, String, Bool, true, false, not, ◌&&◌, Option, none, some, eqb, if◌then◌else◌, ◌==◌,
  string_key, lower, dashed, ltb,
}
use llamaswap.Json.{Json, obj, get_field, truthy}
use llamaswap.Registry.Config.{ModelConfig}
use llamaswap.Registry.Query.{Registry, find}
use llamaswap.Backend.Process.{World, is_ready, StopReply, Reply, LoadError, state_value}
use llamaswap.Backend.Manager.{
  Running, Manager, Flavour, Launch, Loaded, up, pending, raised, stop_current, launch, replace,
  ready_name,
}
use llamaswap.Backend.Manager

-- `_load_reported`: what a JSON object says under "loaded".
unfoldable pub load_reported : Option Json → Option Bool
load_reported (some (obj fs)) = elim (get_field fs "loaded") [
  | none ↦ none
  | some v ↦ some (truthy v)
]
load_reported _ = none

abbrev denies : Option Bool → Bool
denies (some false) = true
denies _ = false

-- The test of `_wait_healthy`.
unfoldable pub is_healthy : Reply → Bool
unfolding load_reported
is_healthy r = eqb r.status 200 && not (denies (load_reported r.content))

unfoldable pub config_path : String → String → String
config_path dir name = dir ++ ("/llm-" ++ (dashed (lower name) ++ ".json"))

-- A process that is already gone keeps its config file: `_stop_current` returns before it.
abbrev pub chat : Flavour
chat = record {
  label = "llm";
  config_path = config_path;
  accepts = is_healthy;
  cleans_gone = false;
}

-- What one call of `ensure_model` meets.
pub record Visit : Type 0 where
  pub now : ℕ
  pub old_stop : StopReply
  pub launch : Launch

pub data Result : Type 0 where
  unknown waits : Result
  served : String → ℕ → Result
  failed : LoadError → Result

unfoldable pub result_of : ModelConfig → String → Loaded → Result
result_of cfg name up = served name cfg.port
result_of cfg name pending = waits
result_of cfg name (raised e) = failed e

abbrev pub is_current : String → Option Running → Bool
is_current name none = false
is_current name (some cur) = cur.config.name == name && is_ready cur.state

-- The body of `ensure_model` under the lock.
unfoldable pub ensure_config :
    Visit → ModelConfig → String → Manager → World → Manager × World × Result
unfolding replace result_of
ensure_config v cfg name m w =
    let seen = record m { last_activity = v.now } in
    if is_current name m.current
    then (seen, w, served name cfg.port)
    else (let (m', w', r) =
          replace chat v.old_stop v.launch cfg name (ready_name m.current) seen w in
        (m', w', result_of cfg name r))

unfoldable pub ensure_model : Visit → Registry → String → Manager → World → Manager × World × Result
unfolding ensure_config
ensure_model v registry name m w = elim (find registry name) [
  | none ↦ (m, w, unknown)
  | some cfg ↦ ensure_config v cfg name m w
]

unfoldable pub unload : StopReply → Manager → World → Manager × World × Bool
unload reply m w = Manager.unload chat reply m w

-- `current_name`
unfoldable pub current_name : Manager → Option String
unfolding ready_name
current_name m = ready_name m.current

-- The idle window in force for a loaded model.
unfoldable pub idle_threshold : Manager → ModelConfig → ℕ
idle_threshold m cfg = elim cfg.meta.idle_unload_seconds [
  | none ↦ m.idle_unload_seconds
  | some s ↦ s
]

-- The state, the model, the detail, and the idle time with its window where they apply.
pub record Status : Type 0 where
  pub state : String
  pub model : Option String
  pub detail : String
  pub idle : Option (ℕ × ℕ)

unfoldable pub status_of : ℕ → Manager → Option Running → Status
unfolding idle_threshold
status_of now m none = record { state = "stopped"; model = none; detail = ""; idle = none }
status_of now m (some cur) = record {
  state = state_value cur.state;
  model = some cur.config.name;
  detail = cur.detail;
  idle =
      if is_ready cur.state && ltb 0 (idle_threshold m cur.config)
      then some (now - m.last_activity, idle_threshold m cur.config)
      else none;
}

unfoldable pub status : ℕ → Manager → Status
unfolding status_of
status now m = status_of now m m.current
