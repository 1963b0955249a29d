-- ===== src/Backend/Process.antt =====
-- Backend processes as their managers see them, and what the world answers.
use llamaswap.Base.{
  ℕ, ◌<◌, ◌≢◌, ◌⊎◌, inl, inr, String, Bool, true, false, not, Option, none, some, List, [], ◌∷◌,
  arith, ltb, keep, if◌then◌else◌, ◌==◌, string_key, contains, is_some, eqb,
}
use llamaswap.Json.{ℤ, pos, negsuc, Json}
use llamaswap.Metrics.{Metrics}
use llamaswap.Events.{Bus}

-- The state that all managers write: the counters, the event bus, and the rendered config files
-- that lie on the disk.
pub record World : Type 0 where
  pub metrics : Metrics
  pub bus : Bus
  pub files : List String

pub record Process : Type 0 where
  pub pid : ℕ
  pub returncode : Option ℤ

-- `ServerState`, `ModelState`, `EmbedState`
pub data State : Type 0 where
  loading ready stopped failed : State

abbrev pub is_ready : State → Bool
is_ready ready = true
is_ready s = false

abbrev pub is_loading : State → Bool
is_loading loading = true
is_loading s = false

unfoldable pub state_value : State → String
state_value loading = "loading"
state_value ready = "ready"
state_value stopped = "stopped"
state_value failed = "failed"

-- How a process answers SIGTERM: it is not there any more (`ProcessLookupError`), it ends in
-- time, or it has to be killed.
pub data StopReply : Type 0 where
  gone exits hangs : StopReply

-- A health reply: its status, and its body if that is JSON.
pub record Reply : Type 0 where
  pub status : ℕ
  pub content : Option Json

-- One round of the wait for health: the return code seen, the reply (`none` is an HTTP error) and
-- the time after it. The task may be cancelled instead.
pub data Round : Type 0 where
  polled : Option ℤ → Option Reply → ℕ → Round
  cancels : Option ℤ → Round

pub data LoadError : Type 0 where
  spawn_failed : String → LoadError
  exited unhealthy cancelled : LoadError

-- How a wait ends, with the return code at that time. `waiting`: the rounds given are over.
pub data Health : Type 0 where
  healthy waiting : Health
  broken : LoadError → Option ℤ → Health

abbrev pub accepted : (Reply → Bool) → Option Reply → Bool
accepted accepts none = false
accepted accepts (some r) = accepts r

unfoldable pub wait_rounds : (Reply → Bool) → ℕ → List Round → Health
wait_rounds accepts deadline [] = waiting
wait_rounds accepts deadline (cancels rc ∷ rounds) = broken cancelled rc
wait_rounds accepts deadline (polled rc reply now ∷ rounds) =
    if is_some rc
    then broken exited rc
    else if accepted accepts reply
    then healthy
    else if ltb deadline now
    then broken unhealthy rc
    else wait_rounds accepts deadline rounds

-- A round that ends the wait whatever the backend answers.
abbrev pub IsLate : ℕ → Round → Type 0
IsLate deadline (polled rc reply now) = deadline < now
IsLate deadline (cancels rc) = Unit

abbrev pub Some {ℓ} : {A : Type ℓ} → (A → Type 0) → List A → Type 0
Some P [] = ⊥
Some P (x ∷ xs) = P x ⊎ Some P xs

-- The wait ends: at the latest in the first round past the deadline.
pub wait_rounds-ends :
    (accepts : Reply → Bool) (deadline : ℕ) (rounds : List Round)
    → Some (IsLate deadline) rounds
    → wait_rounds accepts deadline rounds ≢ waiting
unfolding wait_rounds
wait_rounds-ends accepts deadline [] h = absurd h
wait_rounds-ends accepts deadline (cancels rc ∷ rounds) h = λ e. cc
wait_rounds-ends accepts deadline (polled rc reply now ∷ rounds) (inl late) = λ e. ground arith
wait_rounds-ends accepts deadline (polled rc reply now ∷ rounds) (inr later) =
    λ e. ground (arith, wait_rounds-ends accepts deadline rounds later)

-- `Path(path).unlink(missing_ok=True)`, nothing for no path or an empty one.
unfoldable pub cleanup_config : Option String → World → World
cleanup_config none w = w
cleanup_config (some path) w =
    if path == "" then w else record w { files = keep (λ p. not (p == path)) w.files }

unfoldable pub write_file : String → World → World
write_file path w = record w { files = if contains w.files path then w.files else path ∷ w.files }

-- `rc not in (0, -signal.SIGTERM)`
unfoldable pub unexpected : ℤ → Bool
unexpected (pos n) = not (eqb n 0)
unexpected (negsuc n) = not (eqb n 14)
