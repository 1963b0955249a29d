-- ===== src/Fixtures.antt =====
-- A small installation for the concrete runs: two chat models, a speech, a transcription, an image
-- and a music model, a world with nothing in it, and managers that have just been made.
use llamaswap.Base.{
  ℕ, ◌≡◌, String, none, some, [], ◌∷◌, string_key, get, arith, eq_iff, Dict, ◌==◌, All, refl,
  Bool-cases, inl, inr,
}
use llamaswap.Registry.Config.{
  CommandSpec, ModelMeta, ModelConfig, Role, llm, tts, asr, image, music,
}
use llamaswap.Registry.Query.{Registry, find}
use llamaswap.Backend.Process.{World, ready, polled, exits}
use llamaswap.Backend.Manager.{Running, Manager, Launch, runs}
use llamaswap.Backend.Invariant.{IsSound}

abbrev pub spec : CommandSpec
spec = record {
  binary = "llama-server";
  args = [];
  env = [];
  config_json = none;
  host_arg = "--host";
  port_arg = "--port";
}

abbrev pub meta : ModelMeta
meta = record {
  context_length = 4096;
  family = "";
  capabilities = [];
  request_format = "json";
  health_path = "/health";
  vram_gb = none;
  gpu = none;
  idle_unload_seconds = none;
}

abbrev pub config : String → Role → ℕ → ModelConfig
config name role port = record {
  name = name;
  description = "";
  role = role;
  command = spec;
  host = "127.0.0.1";
  port = port;
  meta = meta;
}

abbrev pub models : Dict String ModelConfig
models =
    ("small", config "small" llm 9000)
    ∷ ("big", config "big" llm 9001)
    ∷ ("voice", config "voice" tts 9002)
    ∷ ("ears", config "ears" asr 9003)
    ∷ ("paint", config "paint" image 9004)
    ∷ ("song", config "song" music 9005)
    ∷ []

abbrev pub registry : Registry
registry = record {
  models = models;
  llm_vram = ("small", 2) ∷ ("big", 9) ∷ [];
  warnings = [];
  degraded = [];
}

-- A dict whose entries are filed under their own names.
named_get :
    (d : Dict String ModelConfig) (name : String) (cfg : ModelConfig)
    → All (λ p. p.1.name ≡ p.0) d
    → get d name ≡ some cfg
    → cfg.name ≡ name
unfolding get
named_get [] name cfg a h = cc
named_get ((k, v) ∷ d) name cfg a h = elim (Bool-cases (k == name)) [
  | inl hit ↦ ground (arith, eq_iff k name, hit, a.0)
  | inr miss ↦ named_get d name cfg a.1 (ground arith)
]

pub registry-named :
    (name : String) (cfg : ModelConfig) → find registry name ≡ some cfg → cfg.name ≡ name
unfolding find
registry-named name cfg h =
    named_get models name cfg (refl, (refl, (refl, (refl, (refl, (refl, tt)))))) h

abbrev pub world : World
world = record {
  metrics = record {
    loads = [];
    load_seconds = [];
    load_seconds_count = [];
    load_failures = [];
    unloads = [];
    swaps = [];
    tool_calls = [];
    context_trims = [];
    tokens = [];
    token_baseline = [];
  };
  bus = [];
  files = [];
}

-- A launch whose server answers on its second poll.
abbrev pub launch : ℕ → Launch
launch pid = record {
  spawn = runs pid;
  rounds =
      polled none none 11 ∷ polled none (some (record { status = 200; content = none })) 12 ∷ [];
  stop = exits;
  start = 10;
  end_time = 12;
}

abbrev pub fresh : Manager
fresh = record {
  startup_timeout = 60;
  idle_unload_seconds = 300;
  config_dir = "/tmp";
  current = none;
  last_activity = 0;
  pinned_until = 0;
  live = [];
}

-- A server that is ready.
abbrev pub entry : ModelConfig → ℕ → Running
entry cfg pid = record {
  config = cfg;
  process = record { pid = pid; returncode = none };
  state = ready;
  detail = "";
  config_file = none;
}

abbrev pub serving : ModelConfig → ℕ → Manager
serving cfg pid = record fresh { current = some (entry cfg pid); live = pid ∷ [] }

pub fresh-IsSound : IsSound fresh
fresh-IsSound = record { lives = refl; settled = refl }

pub serving-IsSound : (cfg : ModelConfig) (pid : ℕ) → IsSound (serving cfg pid)
serving-IsSound cfg pid = record { lives = refl; settled = refl }
