-- ===== src/Servers/Ensure.antt =====
-- Loading, stopping and swapping the server of one role (app/server_manager.py,
-- `RoleServerManager`).
use Prim.Native.String.{◌++◌, compare}
use Prim.Native.Nat.{Ordering}
use llamaswap.Base.{
  ℕ, ◌-◌, String, Bool, true, false, Option, none, some, List, [], ◌∷◌, Dict, put, keys, eqb,
  if◌then◌else◌, ◌&&◌, ◌==◌, string_key, ltb, foldl,
}
use llamaswap.Registry.Config.{ModelConfig, Role, role_name, same_role}
use llamaswap.Registry.Query.{Registry, find}
use llamaswap.Backend.Process.{
  World, State, stopped, is_ready, is_loading, StopReply, Reply, LoadError, state_value,
}
use llamaswap.Backend.Manager.{
  Running, Manager, Flavour, Loaded, up, pending, raised, Launch, replace, ready_name, pin,
}
use llamaswap.Backend.Manager

pub record Servers : Type 0 where
  pub role : Role
  pub configs : Dict String ModelConfig
  pub base : Manager

unfoldable pub is_healthy : Reply → Bool
is_healthy r = eqb r.status 200

unfoldable pub config_path : Role → String → String → String
config_path role dir name = dir ++ ("/" ++ (role_name role ++ ("-" ++ (name ++ ".json"))))

abbrev pub flavour : Role → Flavour
flavour role = record {
  label = role_name role;
  config_path = config_path role;
  accepts = is_healthy;
  cleans_gone = true;
}

-- `name`
unfoldable pub current_name : Servers → Option String
unfolding ready_name
current_name s = ready_name s.base.current

unfoldable pub running_entry : Option Running → Bool
running_entry none = false
running_entry (some cur) = is_ready cur.state

-- `is_running`
unfoldable pub is_running : Servers → Bool
unfolding running_entry
is_running s = running_entry s.base.current

unfoldable pub configure : List ModelConfig → Servers → Servers
configure cfgs s = record s { configs = foldl (λ d (c : ModelConfig). put d c.name c) [] cfgs }

-- The least of the names: the head of the sorted list.
unfoldable pub least_name : String → List String → String
least_name best [] = best
least_name best (n ∷ ns) = least_name (elim (compare n best) [ Ordering.lt ↦ n | _ ↦ best ]) ns

unfoldable pub least_of : List String → Option String
unfolding least_name
least_of [] = none
least_of (n ∷ ns) = some (least_name n ns)

unfoldable pub first_config_name : Servers → Option String
unfolding least_of
first_config_name s = least_of (keys s.configs)

-- What one call of `ensure_model` meets; `after_wait` is the state of the current entry when a
-- wait for a load under way ends, `none` if the entry is not there any more.
pub record Visit : Type 0 where
  pub now : ℕ
  pub old_stop : StopReply
  pub after_wait : Option State
  pub launch : Launch

pub data Result : Type 0 where
  unknown waits : Result
  served : ModelConfig → Result
  failed : LoadError → Result

unfoldable pub result_of : ModelConfig → Loaded → Result
result_of cfg up = served cfg
result_of cfg pending = waits
result_of cfg (raised e) = failed e

abbrev pub named : String → Option Running → Bool
named name none = false
named name (some cur) = cur.config.name == name

abbrev pub loading_entry : Option Running → Bool
loading_entry none = false
loading_entry (some cur) = is_loading cur.state

-- The entry after `_wait_loading_settled`.
unfoldable pub settled_to : Option State → Option Running → Option Running
settled_to none c = none
settled_to (some s) none = none
settled_to (some s) (some cur) = some (record cur { state = s })

-- Where a load is under way, the call waits until it is over; otherwise nothing changes.
unfoldable pub waited : Visit → Manager → Manager
unfolding settled_to
waited v m =
    if loading_entry m.current then record m { current = settled_to v.after_wait m.current } else m

-- The part behind the waits: what is current is stopped, and the model launched.
unfoldable pub swap_in :
    Visit → Servers → ModelConfig → String → Manager → World → Servers × World × Result
unfolding replace result_of
swap_in v s cfg name m w =
    let (m', w', r) =
      replace (flavour s.role) v.old_stop v.launch cfg name (ready_name m.current) m w in
    (record s { base = m' }, w', result_of cfg r)

-- The body of `ensure_model` under the lock. A model that is current is served if it is ready, or
-- if it is after the wait.
unfoldable pub ensure_config :
    Visit → ModelConfig → String → Servers → World → Servers × World × Result
unfolding waited swap_in running_entry
ensure_config v cfg name s w =
    let seen = record (s.base) { last_activity = v.now } in
    let m = waited v seen in
    if named name seen.current && running_entry m.current
    then (record s { base = m }, w, served cfg)
    else swap_in v s cfg name m w

unfoldable pub ensure_model : Visit → Registry → String → Servers → World → Servers × World × Result
unfolding ensure_config
ensure_model v r name s w = elim (find r name) [
  | none ↦ (s, w, unknown)
  | some cfg ↦ if same_role cfg.role s.role then ensure_config v cfg name s w else (s, w, unknown)
]

unfoldable pub unload : StopReply → Servers → World → Servers × World × Bool
unload reply s w =
    let (m, w', had) = Manager.unload (flavour s.role) reply s.base w in
    (record s { base = m }, w', had)

-- The state, the model where there is one, the port, and the idle time with its window.
pub record Status : Type 0 where
  pub role : String
  pub state : String
  pub model : Option String
  pub port : Option ℕ
  pub detail : String
  pub idle : Option (ℕ × ℕ)

abbrev shows_model : State → String → Option String
shows_model stopped name = none
shows_model s name = some name

unfoldable pub status_of : ℕ → Servers → Option Running → Status
status_of now s none = record {
  role = role_name s.role;
  state = "stopped";
  model = none;
  port = none;
  detail = "";
  idle = none;
}
status_of now s (some cur) = record {
  role = role_name s.role;
  state = state_value cur.state;
  model = shows_model cur.state cur.config.name;
  port = some cur.config.port;
  detail = cur.detail;
  idle =
      if is_ready cur.state && ltb 0 s.base.idle_unload_seconds
      then some (now - s.base.last_activity, s.base.idle_unload_seconds)
      else none;
}

unfoldable pub status : ℕ → Servers → Status
unfolding status_of
status now s = status_of now s s.base.current
