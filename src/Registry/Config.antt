-- ===== src/Registry/Config.antt =====
-- The validated launch config of a model (app/registry.py, `CommandSpec` to `ModelConfig`).
use Prim.Native.String.{◌++◌}
use llamaswap.Base.{
  ℕ, String, Bool, true, false, Option, none, some, List, Dict, show, put, string_key, foldl,
}
use llamaswap.Json.{Fields}

-- `ROLES`: the validator lets no other text through.
pub data Role : Type 0 where
  llm embedding tts asr image music : Role

unfoldable pub role_name : Role → String
role_name llm = "llm"
role_name embedding = "embedding"
role_name tts = "tts"
role_name asr = "asr"
role_name image = "image"
role_name music = "music"

pub Role-discrete : Discrete Role
Role-discrete = hlevel

abbrev pub same_role : Role → Role → Bool
same_role llm llm = true
same_role embedding embedding = true
same_role tts tts = true
same_role asr asr = true
same_role image image = true
same_role music music = true
same_role a b = false

-- `REQUEST_FORMATS` is tested when the registry is loaded, so the field is any text.
pub record CommandSpec : Type 0 where
  pub binary : String
  pub args : List String
  pub env : Dict String String
  pub config_json : Option Fields
  pub host_arg : String
  pub port_arg : String

-- `vram_gb` is counted in thousandths, `idle_unload_seconds` in milliseconds.
pub record ModelMeta : Type 0 where
  pub context_length : ℕ
  pub family : String
  pub capabilities : List String
  pub request_format : String
  pub health_path : String
  pub vram_gb : Option ℕ
  pub gpu : Option ℕ
  pub idle_unload_seconds : Option ℕ

pub record ModelConfig : Type 0 where
  pub name : String
  pub description : String
  pub role : Role
  pub command : CommandSpec
  pub host : String
  pub port : ℕ
  pub meta : ModelMeta

unfoldable pub health_url : ModelConfig → String
health_url cfg = "http://" ++ (cfg.host ++ (":" ++ (show cfg.port ++ cfg.meta.health_path)))

-- `{**base, **env}`
abbrev merged : Dict String String → Dict String String → Dict String String
merged base env = foldl (λ d p. put d p.0 p.1) base env

-- The environment of the backend process, the GPU pin last.
unfoldable pub launch_env : ModelConfig → Dict String String → Dict String String
launch_env cfg base = elim cfg.meta.gpu [
  | none ↦ merged base cfg.command.env
  | some gpu ↦ put (merged base cfg.command.env) "CUDA_VISIBLE_DEVICES" (show gpu)
]
