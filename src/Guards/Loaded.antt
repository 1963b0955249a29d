-- ===== src/Guards/Loaded.antt =====
-- A registry that was loaded from its directory (app/registry.py, `Registry.reload`) is one that
-- the guards of the request handlers are right about.
use llamaswap.Base.{
  ℕ, String, Bool, true, Option, none, some, List, [], ◌∷◌, Dict, get, put, get-put, ltb, ◌==◌,
  string_key, is_some, ◌≡◌, ◌⊎◌, inl, inr, refl, sym, ap, ◌∙◌, subst, arith, eq_iff, Bool-cases,
}
use llamaswap.Registry.Config.{ModelConfig, Role, llm, same_role}
use llamaswap.Registry.Query.{Registry, find, min_key, smallest_of, smallest_llm}
use llamaswap.Registry.Reload.{
  ConfigFile, Seen, nothing_seen, address, address_key, check_files, rank, ranked, registry_of,
  reload, vram_of,
}
use llamaswap.Guards.Placement.{IsRegistry}
use llamaswap.Registry.Checked.{
  AllModels, HoldsPort, HasFormat, IsSeen, check_files-Kept, Loading-cases,
}

-- The keys of one dictionary are keys of another.
abbrev Within {ℓ κ} : {A : Type ℓ} {B : Type κ} → Dict String A → Dict String B → Type 0
Within d m = (k : String) → is_some (get d k) ≡ true → is_some (get m k) ≡ true

put-Within {ℓ κ} :
    {A : Type ℓ} {B : Type κ} (d : Dict String A) (m : Dict String B) (name : String) (a : A)
    → is_some (get m name) ≡ true
    → Within d m
    → Within (put d name a) m
put-Within d m name a filed_too w k h = elim (Bool-cases (name == k)) [
  | inl same ↦ subst (λ n. is_some (get m n) ≡ true) ((eq_iff name k).0 same) filed_too
  | inr other ↦ w k (rw (get-put d name k a, other) at h)
]

tail-Within {ℓ κ} :
    {A : Type ℓ} {B : Type κ} (name : String) (a : A) (d : Dict String A) (m : Dict String B)
    → Within ((name, a) ∷ d) m
    → Within d m
unfolding get
tail-Within name a d m w k h = elim (Bool-cases (name == k)) [
  | inl same ↦ w k (rw same refl)
  | inr other ↦ w k (rw other h)
]

ranked-Within :
    (m : Dict String ModelConfig) (name : String) (vram : Option ℕ)
    (p : Dict String ℕ × List String)
    → is_some (get m name) ≡ true
    → Within p.0 m
    → Within (ranked name vram p).0 m
ranked-Within m name (some v) p h w = put-Within p.0 m name v h w
ranked-Within m name none p h w = w

rank-Within :
    (size_of : String → Option ℕ) (m rest : Dict String ModelConfig)
    (p : Dict String ℕ × List String)
    → Within rest m
    → Within p.0 m
    → Within (rank size_of rest p).0 m
unfolding rank get
rank-Within size_of m [] p r w = w
rank-Within size_of m ((name, cfg) ∷ rest) p r w =
    let later = tail-Within name cfg rest m r in
    elim (Bool-cases (same_role cfg.role llm)) [
      | inl chat ↦
          rw (chat, rank)
            (rank-Within size_of m rest (ranked name (vram_of size_of cfg) p) later (
              ranked-Within m name (vram_of size_of cfg) p
                (r name (ground (arith, eq_iff name name))) w))
      | inr other ↦ rw (other, rank) (rank-Within size_of m rest p later w)
    ]

-- A key is the one named, or in the dictionary.
abbrev IsKey : String → Dict String ℕ → String → Type 0
IsKey name d k = (k ≡ name) ⊎ (is_some (get d k) ≡ true)

later-IsKey :
    (name k m : String) (u : ℕ) (d : Dict String ℕ) → IsKey name d m → IsKey name ((k, u) ∷ d) m
unfolding get
later-IsKey name k m u d (inl same) = inl same
later-IsKey name k m u d (inr found) = elim (Bool-cases (k == m)) [
  | inl hit ↦ inr (rw hit refl)
  | inr miss ↦ inr (rw miss found)
]

IsKey-found :
    (k m : String) (u : ℕ) (d : Dict String ℕ) → IsKey k d m → is_some (get ((k, u) ∷ d) m) ≡ true
unfolding get
IsKey-found k m u d (inl same) = rw (same, (eq_iff k k).1 refl) refl
IsKey-found k m u d (inr found) = elim (Bool-cases (k == m)) [
  | inl hit ↦ rw hit refl
  | inr miss ↦ rw miss found
]

min_key-IsKey :
    (name : String) (least : ℕ) (d : Dict String ℕ) → IsKey name d (min_key name least d)
unfolding min_key
min_key-IsKey name least [] = inl refl
min_key-IsKey name least ((k, u) ∷ d) = elim (Bool-cases (ltb u least)) [
  | inl less ↦ rw less (inr (IsKey-found k (min_key k u d) u d (min_key-IsKey k u d)))
  | inr more ↦ rw more (later-IsKey name k (min_key name least d) u d (min_key-IsKey name least d))
]

smallest_of-listed :
    (d : Dict String ℕ) (s : String) → smallest_of d ≡ some s → is_some (get d s) ≡ true
unfolding smallest_of get
smallest_of-listed [] s h = cc
smallest_of-listed ((k, v) ∷ d) s h =
    let same : min_key k v d ≡ s = cc in
    IsKey-found k s v d (subst (λ m. IsKey k d m) same (min_key-IsKey k v d))

-- Every config of the registry is filed under its own name and has a known format, configs that
-- share an address share a role, and the smallest chat LLM is a model.
pub record IsLoaded (r : Registry) : Type 0 where
  pub registry : IsRegistry r
  pub formats : AllModels (λ name cfg. HasFormat cfg) r.models
  pub ports :
      (one other : String) (a b : ModelConfig)
      → get r.models one ≡ some a
      → get r.models other ≡ some b
      → address a ≡ address b
      → a.role ≡ b.role

one_role :
    (ports : Dict (String × ℕ) (String × Role)) (a b : ModelConfig)
    → HoldsPort ports a
    → HoldsPort ports b
    → address a ≡ address b
    → a.role ≡ b.role
one_role ports a b (p, e, r) (q, f, t) same =
    let held : some p ≡ some q = sym e ∙ ap (get ports) same ∙ f in
    let one : p ≡ q = cc in sym r ∙ ap (λ p. p.1) one ∙ t

listed_model : (o : Option ModelConfig) → is_some o ≡ true → (cfg : ModelConfig) × (o ≡ some cfg)
listed_model none h = cc
listed_model (some cfg) h = (cfg, refl)

none-Within {κ} : {B : Type κ} (m : Dict String B) → Within {A = ℕ} [] m
unfolding get
none-Within m k h = cc

registry_of-IsLoaded :
    (size_of : String → Option ℕ) (s : Seen) → IsSeen s → IsLoaded (registry_of size_of s)
unfolding registry_of find smallest_llm
registry_of-IsLoaded size_of s v =
    let within =
      rank-Within size_of s.models s.models ([], s.warnings) (λ k h. h) (none-Within s.models) in
    record {
      registry = record {
        named = v.named;
        listed = λ k e.
            listed_model (get s.models k)
              (within k (smallest_of-listed (rank size_of s.models ([], s.warnings)).0 k e));
      };
      formats = v.formats;
      ports =
          λ one other a b e f same. one_role s.ports a b (v.ports one a e) (v.ports other b f) same;
    }

nothing_seen-IsSeen : IsSeen nothing_seen
unfolding get
nothing_seen-IsSeen = record { named = λ k c h. cc; formats = λ k c h. cc; ports = λ k c h. cc }

-- A load of the registry from its directory keeps its rules, whatever the directory holds and
-- whatever fails: every config is filed under its own name and has a known request format, configs
-- that listen on one address have one role, and the smallest chat LLM is a model of the registry.
pub reload-IsLoaded :
    (exists : String → Bool) (size_of : String → Option ℕ) (directory : Option (List ConfigFile))
    (old : Registry)
    → IsLoaded old
    → IsLoaded (reload exists size_of directory old).0
unfolding reload
reload-IsLoaded exists size_of none old l = l
reload-IsLoaded exists size_of (some files) old l =
    elim (Loading-cases (check_files exists files nothing_seen)) [
      | inl (e, fails) ↦ rw (fails, reload) l
      | inr (s, ends) ↦
          rw (ends, reload)
            (registry_of-IsLoaded size_of s
              (rw ends at (check_files-Kept exists files nothing_seen nothing_seen-IsSeen)))
    ]
