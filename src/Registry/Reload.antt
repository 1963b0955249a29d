-- ===== src/Registry/Reload.antt =====
-- Loading the registry from its directory (app/registry.py, `Registry.reload` and `_model_path`).
-- A file is given with the config that yaml and pydantic make of it. `exists` says which binaries
-- there are, and `size_of` gives the bytes of a file, where it can be read.
use Prim.Native.String.{◌++◌ as str_append}
use llamaswap.Base.{
  ℕ, ◌*◌, String, Bool, true, false, not, ◌&&◌, ◌||◌, Option, none, some, List, [], ◌∷◌, ◌++◌, Dict,
  get, put, contains, if◌then◌else◌, Key, ◌==◌, string_key, eqb, eq_iff, eqb_iff, ◌≡◌, ◌↔◌, arith,
  is_some,
}
use llamaswap.Reconcile.Blocks.{after}
use llamaswap.Registry.Config.{ModelConfig, Role, llm, same_role}
use llamaswap.Registry.Query.{Registry, declared_vram}

-- A listen address.
abbrev pub same_address : String × ℕ → String × ℕ → Bool
same_address p q = p.0 == q.0 && eqb p.1 q.1

pub same_address_iff : (p q : String × ℕ) → (same_address p q ≡ true) ↔ (p ≡ q)
same_address_iff p q = ground (arith, eq_iff p.0 q.0, eqb_iff p.1 q.1)

instance abbrev pub address_key : Key (String × ℕ)
address_key = record { matches = same_address; matches_iff = same_address_iff }

pub record ConfigFile : Type 0 where
  pub file : String
  pub config : Option ModelConfig

-- Why a directory is refused, with the file.
pub data RegistryError : Type 0 where
  no_directory : RegistryError
  invalid : String → RegistryError
  duplicate : String → RegistryError
  unknown_format : String → RegistryError
  collision : String → RegistryError

pub data Loading {ℓ} (A : Type ℓ) : Type ℓ where
  loaded : A → Loading A
  failed : RegistryError → Loading A

-- `REQUEST_FORMATS`
abbrev pub request_formats : List String
request_formats = "json" ∷ "multipart" ∷ "json_path" ∷ []

-- What the loop over the files has seen.
pub record Seen : Type 0 where
  pub models : Dict String ModelConfig
  pub warnings : List String
  pub names : Dict String String
  pub ports : Dict (String × ℕ) (String × Role)

-- `key in seen_ports and seen_ports[key][1] != cfg.role`
abbrev pub collides : Option (String × Role) → Role → Bool
collides none role = false
collides (some (name, other)) role = not (same_role other role)

abbrev pub address : ModelConfig → String × ℕ
address cfg = (cfg.host, cfg.port)

abbrev missing_binary : String → ModelConfig → String
missing_binary file cfg = str_append file (str_append ": binary not found: " cfg.command.binary)

-- One more config is filed.
unfoldable pub filed : (String → Bool) → String → ModelConfig → Seen → Seen
filed exists file cfg s = record {
  models = put s.models cfg.name cfg;
  warnings =
      if exists cfg.command.binary
      then s.warnings
      else s.warnings ++ (missing_binary file cfg ∷ []);
  names = put s.names cfg.name file;
  ports = put s.ports (address cfg) (cfg.name, cfg.role);
}

unfoldable pub check_config : (String → Bool) → String → ModelConfig → Seen → Loading Seen
check_config exists file cfg s =
    if is_some (get s.names cfg.name)
    then failed (duplicate file)
    else if not (contains request_formats cfg.meta.request_format)
    then failed (unknown_format file)
    else if collides (get s.ports (address cfg)) cfg.role
    then failed (collision file)
    else loaded (filed exists file cfg s)

unfoldable pub check_file : (String → Bool) → ConfigFile → Seen → Loading Seen
check_file exists f s = elim f.config [
  | none ↦ failed (invalid f.file)
  | some cfg ↦ check_config exists f.file cfg s
]

unfoldable pub check_files : (String → Bool) → List ConfigFile → Seen → Loading Seen
check_files exists [] s = loaded s
check_files exists (f ∷ files) s = elim (check_file exists f s) [
  | failed e ↦ failed e
  | loaded s' ↦ check_files exists files s'
]

-- `_model_path`: what `--model` names.
unfoldable pub model_path : List String → Option String
model_path [] = none
model_path (a ∷ []) = after "--model=" a
model_path (a ∷ b ∷ args) =
    let later = model_path (b ∷ args) in
    if a == "--model"
    then some b
    else elim (after "--model=" a) [ some path ↦ some path | none ↦ later ]

abbrev weights : Option ℕ → Option ℕ
weights none = none
weights (some bytes) = some (bytes * 1000)

-- The VRAM of a chat LLM: declared, or the size of its weights.
unfoldable pub vram_of : (String → Option ℕ) → ModelConfig → Option ℕ
unfolding model_path
vram_of size_of cfg = elim cfg.meta.vram_gb [
  | some gb ↦ some (declared_vram gb)
  | none ↦ elim (model_path cfg.command.args) [
    | none ↦ none
    | some path ↦ weights (if path == "" then none else size_of path)
  ]
]

-- The ranking, and the warnings of the chat LLMs that are not in it.
abbrev pub ranked : String → Option ℕ → Dict String ℕ × List String → Dict String ℕ × List String
ranked name (some vram) (d, warnings) = (put d name vram, warnings)
ranked name none (d, warnings) =
    (d, warnings ++ (str_append name ": chat LLM has no VRAM estimate (declare meta.vram_gb)" ∷ []))

unfoldable pub rank :
    (String → Option ℕ)
    → Dict String ModelConfig
    → Dict String ℕ × List String
    → Dict String ℕ × List String
unfolding vram_of
rank size_of [] p = p
rank size_of ((name, cfg) ∷ models) p =
    rank size_of models (if same_role cfg.role llm then ranked name (vram_of size_of cfg) p else p)

abbrev is_empty : Dict String ℕ → Bool
is_empty [] = true
is_empty (p ∷ d) = false

abbrev has_llm : Dict String ModelConfig → Bool
has_llm [] = false
has_llm ((name, cfg) ∷ models) = same_role cfg.role llm || has_llm models

unfoldable pub registry_of : (String → Option ℕ) → Seen → Registry
registry_of size_of s =
    let (vram, warnings) = rank size_of s.models ([], s.warnings) in
    record {
      models = s.models;
      llm_vram = vram;
      warnings = warnings;
      degraded =
          if has_llm s.models && is_empty vram
          then "no chat LLM has a known VRAM estimate (weights missing, unstat-able, or no meta.vram_gb); the audio/image VRAM guards are disabled"
            ∷ []
          else [];
    }

abbrev pub nothing_seen : Seen
nothing_seen = record { models = []; warnings = []; names = []; ports = [] }

-- The registry behind a load of the directory, and the error of one that fails: then it is the old
-- registry. `none` stands for a directory that is not there.
unfoldable pub reload :
    (String → Bool)
    → (String → Option ℕ)
    → Option (List ConfigFile)
    → Registry
    → Registry × Option RegistryError
reload exists size_of none old = (old, some no_directory)
reload exists size_of (some files) old = elim (check_files exists files nothing_seen) [
  | failed e ↦ (old, some e)
  | loaded s ↦ (registry_of size_of s, none)
]
