-- ===== src/Registry/Argv.antt =====
-- The command line of a backend (app/registry.py, `ModelConfig.build_argv`).
use Prim.Native.String.{◌++◌ as str_append}
use llamaswap.Base.{
  ◌≡◌, refl, ap, inl, inr, String, Bool, true, false, ◌||◌, Option, List, [], ◌∷◌, ◌++◌, map, ◌==◌,
  string_key, starts_with, replaced, show, All, Bool-cases, or_else,
}
use llamaswap.Registry.Config.{ModelConfig}

-- The flags of a command for its host and its port.
pub record Flags : Type 0 where
  pub host_arg : String
  pub port_arg : String

abbrev pub is_bare : Flags → String → Bool
is_bare f a = a == f.host_arg || a == f.port_arg

-- The form with `=`.
unfoldable pub is_joined : Flags → String → Bool
is_joined f a =
    starts_with (str_append f.host_arg "=") a || starts_with (str_append f.port_arg "=") a

-- The arguments without those that set the host or the port.
unfoldable pub stripped : Flags → List String → List String
unfolding is_joined
stripped f [] = []
stripped f (a ∷ []) = elim (is_joined f a) [ true ↦ [] | false ↦ a ∷ [] ]
stripped f (a ∷ b ∷ rest) = elim (is_bare f a) [
  | true ↦ stripped f rest
  | false ↦ elim (is_joined f a) [
    | true ↦ stripped f (b ∷ rest)
    | false ↦ a ∷ stripped f (b ∷ rest)
  ]
]

abbrev pub flags_of : ModelConfig → Flags
flags_of cfg = record { host_arg = cfg.command.host_arg; port_arg = cfg.command.port_arg }

abbrev pub enforced : ModelConfig → List String
enforced cfg = cfg.command.host_arg ∷ cfg.host ∷ cfg.command.port_arg ∷ show cfg.port ∷ []

-- `config_path or ""` in the place of the placeholder.
abbrev pub with_path : Option String → String → String
with_path path a = replaced "{config_path}" (or_else path "") a

unfoldable pub build_argv : Option String → ModelConfig → List String
unfolding stripped
build_argv path cfg =
    cfg.command.binary
    ∷ (map (with_path path) (stripped (flags_of cfg) cfg.command.args) ++ enforced cfg)

-- The last argument is a bare flag.
unfoldable pub ends_bare : Flags → List String → Bool
ends_bare f [] = false
ends_bare f (a ∷ []) = is_bare f a
ends_bare f (a ∷ b ∷ rest) = ends_bare f (b ∷ rest)

abbrev pub IsFree : Flags → String → Type 0
IsFree f a = (is_bare f a ≡ false) × (is_joined f a ≡ false)

behind :
    (f : Flags) (b : String) (rest : List String)
    → ends_bare f (b ∷ rest) ≡ false
    → ends_bare f rest ≡ false
unfolding ends_bare
behind f b [] h = refl
behind f b (c ∷ rest) h = h

stripped-All :
    (f : Flags) (args : List String) → ends_bare f args ≡ false → All (IsFree f) (stripped f args)
unfolding stripped ends_bare
stripped-All f [] h = tt
stripped-All f (a ∷ []) h = elim (Bool-cases (is_joined f a)) [
  | inl joined ↦ rw (joined, stripped) tt
  | inr other ↦ rw (other, stripped) ((h, other), tt)
]
stripped-All f (a ∷ b ∷ rest) h = elim (Bool-cases (is_bare f a)) [
  | inl bare ↦ rw (bare, stripped) (stripped-All f rest (behind f b rest h))
  | inr valued ↦ elim (Bool-cases (is_joined f a)) [
    | inl joined ↦ rw (valued, stripped, joined) (stripped-All f (b ∷ rest) h)
    | inr other ↦ rw (valued, stripped, other) ((valued, other), stripped-All f (b ∷ rest) h)
  ]
]

-- Unless the configured arguments end with a bare host or port flag, the command line is the
-- binary, arguments none of which sets the host or the port, with the placeholder filled, and the
-- enforced host and port at the end.
pub build_argv-enforced :
    (path : Option String) (cfg : ModelConfig)
    → ends_bare (flags_of cfg) cfg.command.args ≡ false
    → (kept : List String) × All (IsFree (flags_of cfg)) kept
      × (build_argv path cfg ≡ cfg.command.binary ∷ (map (with_path path) kept ++ enforced cfg))
unfolding build_argv
build_argv-enforced path cfg h =
    (stripped (flags_of cfg) cfg.command.args, stripped-All (flags_of cfg) cfg.command.args h, refl)

stripped-IsFree : (f : Flags) (args : List String) → All (IsFree f) args → stripped f args ≡ args
unfolding stripped
stripped-IsFree f [] h = refl
stripped-IsFree f (a ∷ []) h = rw (h.0.1, stripped) refl
stripped-IsFree f (a ∷ b ∷ rest) h =
    rw (h.0.0, stripped, h.0.1) (ap (λ xs. a ∷ xs) (stripped-IsFree f (b ∷ rest) h.1))

-- Where no configured argument sets the host or the port, all of them are kept, in their order.
pub build_argv-IsFree :
    (path : Option String) (cfg : ModelConfig)
    → All (IsFree (flags_of cfg)) cfg.command.args
    → build_argv path cfg
      ≡ cfg.command.binary ∷ (map (with_path path) cfg.command.args ++ enforced cfg)
unfolding build_argv
build_argv-IsFree path cfg h =
    ap (λ xs. cfg.command.binary ∷ (map (with_path path) xs ++ enforced cfg))
      (stripped-IsFree (flags_of cfg) cfg.command.args h)
