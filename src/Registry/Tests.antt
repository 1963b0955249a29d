-- ===== src/Registry/Tests.antt =====
-- A command whose arguments set a port of their own.
use llamaswap.Base.{
  ◌≡◌, refl, String, false, none, some, List, [], ◌∷◌, ◌++◌, map, All, show, starts_with, replaced,
}
use llamaswap.Registry.Config.{ModelConfig, CommandSpec, llm}
use llamaswap.Registry.Argv.{
  flags_of, is_joined, with_path, enforced, build_argv, ends_bare, IsFree, build_argv-enforced,
  build_argv-IsFree,
}

abbrev command : CommandSpec
command = record {
  binary = "server";
  args = "--port" ∷ "1" ∷ "-c" ∷ "{config_path}" ∷ "--host=x" ∷ [];
  env = [];
  config_json = none;
  host_arg = "--host";
  port_arg = "--port";
}

abbrev served : ModelConfig
served = record {
  name = "small";
  description = "";
  role = llm;
  command = command;
  host = "127.0.0.1";
  port = 9000;
  meta = record {
    context_length = 0;
    family = "";
    capabilities = [];
    request_format = "json";
    health_path = "/health";
    vram_gb = none;
    gpu = none;
    idle_unload_seconds = none;
  };
}

runs :
    build_argv (some "/p.json") served
    ≡ "server" ∷ "-c" ∷ "/p.json" ∷ "--host" ∷ "127.0.0.1" ∷ "--port" ∷ "9000" ∷ []
unfolding build_argv starts_with replaced show
runs = refl

-- A bare flag at the end stays, and takes the enforced flag for its value.
swallows :
    build_argv none (record served { command = record command { args = "--host" ∷ [] } })
    ≡ "server" ∷ "--host" ∷ "--host" ∷ "127.0.0.1" ∷ "--port" ∷ "9000" ∷ []
unfolding build_argv starts_with replaced show
swallows = refl

ends_well : ends_bare (flags_of served) command.args ≡ false
unfolding ends_bare
ends_well = refl

build_argv-enforced_example :
    (kept : List String) × All (IsFree (flags_of served)) kept
    × (build_argv (some "/p.json") served
        ≡ "server" ∷ (map (with_path (some "/p.json")) kept ++ enforced served))
build_argv-enforced_example = build_argv-enforced (some "/p.json") served ends_well

abbrev plain : ModelConfig
plain = record served { command = record command { args = "-c" ∷ "{config_path}" ∷ [] } }

plain-IsFree : All (IsFree (flags_of plain)) ("-c" ∷ "{config_path}" ∷ [])
unfolding is_joined starts_with
plain-IsFree = ((refl, refl), ((refl, refl), tt))

build_argv-IsFree_example :
    build_argv none plain
    ≡ "server" ∷ (map (with_path none) ("-c" ∷ "{config_path}" ∷ []) ++ enforced plain)
build_argv-IsFree_example = build_argv-IsFree none plain plain-IsFree
