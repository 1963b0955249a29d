-- ===== src/Registry/Query.antt =====
-- The loaded registry and its lookups (app/registry.py, `Registry`).
use Prim.Native.Nat.{Ordering}
use Prim.Native.String.{compare}
use llamaswap.Base.{
  ℕ, ◌*◌, String, Bool, true, false, Option, none, some, List, [], ◌∷◌, Dict, get, values, keep,
  if◌then◌else◌, ltb, string_key,
}
use llamaswap.Registry.Config.{ModelConfig, Role, embedding, tts, asr, same_role}

-- `llm_vram` is counted in 1/1048576000 of a MiB, so that a declared size and a file's size are
-- both whole.
pub record Registry : Type 0 where
  pub models : Dict String ModelConfig
  pub llm_vram : Dict String ℕ
  pub warnings : List String
  pub degraded : List String

-- A declared footprint, in thousandths of a GiB, in that unit.
abbrev pub declared_vram : ℕ → ℕ
declared_vram gb = gb * 1024 * 1048576

-- `none` is `UnknownModelError`.
unfoldable pub find : Registry → String → Option ModelConfig
find r name = get r.models name

-- `min(d, key=d.get)`: the first key of the smallest value.
unfoldable pub min_key : String → ℕ → Dict String ℕ → String
min_key name least [] = name
min_key name least ((k, v) ∷ d) =
    min_key (if ltb v least then k else name) (if ltb v least then v else least) d

unfoldable pub smallest_of : Dict String ℕ → Option String
unfolding min_key
smallest_of [] = none
smallest_of ((k, v) ∷ d) = some (min_key k v d)

unfoldable pub smallest_llm : Registry → Option String
unfolding smallest_of
smallest_llm r = smallest_of r.llm_vram

unfoldable pub vram_mb : Registry → String → Option ℕ
vram_mb r name = elim (get r.llm_vram name) [
  | some v ↦ some v
  | none ↦ elim (find r name) [
    | none ↦ none
    | some cfg ↦ elim cfg.meta.vram_gb [ none ↦ none | some gb ↦ some (declared_vram gb) ]
  ]
]

-- `sorted(configs, key=lambda c: c.name)`: an insertion sort, which is stable too.
name_before : ModelConfig → ModelConfig → Bool
name_before a b = elim (compare a.name b.name) [ Ordering.gt ↦ false | _ ↦ true ]

insert_by_name : ModelConfig → List ModelConfig → List ModelConfig
insert_by_name c [] = c ∷ []
insert_by_name c (d ∷ cs) = if name_before c d then c ∷ d ∷ cs else d ∷ insert_by_name c cs

unfoldable pub sorted_by_name : List ModelConfig → List ModelConfig
unfolding insert_by_name name_before
sorted_by_name [] = []
sorted_by_name (c ∷ cs) = insert_by_name c (sorted_by_name cs)

unfoldable pub role_configs : Registry → Role → List ModelConfig
unfolding sorted_by_name
role_configs r role = sorted_by_name (keep (λ c. same_role c.role role) (values r.models))

abbrev pub head? : List ModelConfig → Option ModelConfig
head? [] = none
head? (c ∷ cs) = some c

-- The first config of a role in the order of the names.
unfoldable pub first_role : Registry → Role → Option ModelConfig
unfolding sorted_by_name
first_role r role = head? (keep (λ c. same_role c.role role) (sorted_by_name (values r.models)))

unfoldable pub embedding_config : Registry → Option ModelConfig
unfolding first_role
embedding_config r = first_role r embedding

abbrev non_empty : List ModelConfig → Bool
non_empty [] = false
non_empty (c ∷ cs) = true

unfoldable pub audio_roles : Registry → List Role
unfolding role_configs
audio_roles r = keep (λ role. non_empty (role_configs r role)) (tts ∷ asr ∷ [])
