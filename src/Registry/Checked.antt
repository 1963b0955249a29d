-- ===== src/Registry/Checked.antt =====
-- What the checks of the registry's loader let through (app/registry.py, the loop of
-- `Registry.reload`).
use llamaswap.Base.{
  ℕ, String, Bool, true, false, not, Option, none, some, List, [], ◌∷◌, Dict, get, put, get-put,
  get-put_self, contains, ◌==◌, string_key, is_some, ◌≡◌, ◌⊎◌, inl, inr, refl, sym, ap, ◌∙◌, subst,
  eq_iff, Bool-cases, Option-cases,
}
use llamaswap.Registry.Config.{ModelConfig, Role, llm, embedding, tts, asr, image, music, same_role}
use llamaswap.Registry.Reload.{
  ConfigFile, RegistryError, Loading, loaded, failed, Seen, request_formats, collides, address,
  address_key, same_address, same_address_iff, filed, check_config, check_file, check_files,
}

same_role-eq : (a b : Role) → same_role a b ≡ true → a ≡ b
same_role-eq llm llm h = refl
same_role-eq embedding embedding h = refl
same_role-eq tts tts h = refl
same_role-eq asr asr h = refl
same_role-eq image image h = refl
same_role-eq music music h = refl
same_role-eq a b h = cc

-- What holds of a model, under the name that it is filed by.
abbrev pub AllModels : (String → ModelConfig → Type 0) → Dict String ModelConfig → Type 0
AllModels P models = (name : String) (cfg : ModelConfig) → get models name ≡ some cfg → P name cfg

-- The address of a config is taken by its role.
abbrev pub HoldsPort : Dict (String × ℕ) (String × Role) → ModelConfig → Type 0
HoldsPort ports cfg = (p : String × Role) × (get ports (address cfg) ≡ some p) × (p.1 ≡ cfg.role)

abbrev pub HasFormat : ModelConfig → Type 0
HasFormat cfg = contains request_formats cfg.meta.request_format ≡ true

pub record IsSeen (s : Seen) : Type 0 where
  pub named : AllModels (λ name cfg. cfg.name ≡ name) s.models
  pub formats : AllModels (λ name cfg. HasFormat cfg) s.models
  pub ports : AllModels (λ name cfg. HoldsPort s.ports cfg) s.models

-- A write to a dictionary keeps what held of its values, if it holds of the new one.
put-AllModels :
    (P Q : String → ModelConfig → Type 0) (models : Dict String ModelConfig) (cfg : ModelConfig)
    → Q cfg.name cfg
    → ((name : String) (c : ModelConfig) → P name c → Q name c)
    → AllModels P models
    → AllModels Q (put models cfg.name cfg)
put-AllModels P Q models cfg q keeps all name c h = elim (Bool-cases (cfg.name == name)) [
  | inl same ↦
      let found : some cfg ≡ some c = rw (get-put models cfg.name name cfg, same) at h in
      subst (λ n. Q n c) ((eq_iff cfg.name name).0 same)
        (subst (λ d. Q cfg.name d) (let e : cfg ≡ c = cc in e) q)
  | inr other ↦ keeps name c (all name c (rw (get-put models cfg.name name cfg, other) at h))
]

-- An address that does not collide is held by the role.
not-false : (b : Bool) → not b ≡ false → b ≡ true
not-false true h = refl
not-false false h = cc

held_role :
    (o : Option (String × Role)) (role : Role) (p : String × Role)
    → o ≡ some p
    → collides o role ≡ false
    → p.1 ≡ role
held_role none role p e h = cc
held_role (some (name, other)) role p e h =
    let same : other ≡ role = same_role-eq other role (not-false (same_role other role) h) in
    let at : other ≡ p.1 = cc in sym at ∙ same

module _ (exists : String → Bool) (file : String) (cfg : ModelConfig) (s : Seen) where
  still_held :
      (c : ModelConfig)
      → collides (get s.ports (address cfg)) cfg.role ≡ false
      → HoldsPort s.ports c
      → HoldsPort (put s.ports (address cfg) (cfg.name, cfg.role)) c
  still_held c apart (p, e, r) =
      let written = get-put s.ports (address cfg) (address c) (cfg.name, cfg.role) in
      elim (Bool-cases (same_address (address cfg) (address c))) [
        | inl same ↦
            let one : address cfg ≡ address c =
              (same_address_iff (address cfg) (address c)).0 same in
            (
              (cfg.name, cfg.role),
              written ∙ rw same refl,
              sym (
                    held_role (get s.ports (address cfg)) cfg.role p (ap (get s.ports) one ∙ e)
                      apart)
                  ∙ r,
            )
        | inr other ↦ (p, written ∙ rw other e, r)
      ]

  filed-IsSeen :
      IsSeen s
      → HasFormat cfg
      → collides (get s.ports (address cfg)) cfg.role ≡ false
      → IsSeen (filed exists file cfg s)
  unfolding filed
  filed-IsSeen v format apart =
      let ports = put s.ports (address cfg) (cfg.name, cfg.role) in
      record {
        named =
            put-AllModels (λ name c. c.name ≡ name) (λ name c. c.name ≡ name) s.models cfg refl
              (λ name c h. h) v.named;
        formats =
            put-AllModels (λ name c. HasFormat c) (λ name c. HasFormat c) s.models cfg format
              (λ name c h. h) v.formats;
        ports =
            put-AllModels (λ name c. HoldsPort s.ports c) (λ name c. HoldsPort ports c) s.models cfg
              ((cfg.name, cfg.role), get-put_self s.ports (address cfg) (cfg.name, cfg.role), refl)
              (λ name c h. still_held c apart h) v.ports;
      }

-- What a check lets through.
abbrev pub Kept : Loading Seen → Type 0
Kept (failed e) = Unit
Kept (loaded s) = IsSeen s

check_config-Kept :
    (exists : String → Bool) (file : String) (cfg : ModelConfig) (s : Seen)
    → IsSeen s
    → Kept (check_config exists file cfg s)
unfolding check_config
check_config-Kept exists file cfg s v = elim (Bool-cases (is_some (get s.names cfg.name))) [
  | inl twice ↦ rw twice tt
  | inr once ↦ elim (Bool-cases (contains request_formats cfg.meta.request_format)) [
    | inr unknown ↦ rw (once, unknown) tt
    | inl known ↦ elim (Bool-cases (collides (get s.ports (address cfg)) cfg.role)) [
      | inl shared ↦ rw (once, known, shared) tt
      | inr apart ↦ rw (once, known, apart) (filed-IsSeen exists file cfg s v known apart)
    ]
  ]
]

check_file-Kept :
    (exists : String → Bool) (f : ConfigFile) (s : Seen) → IsSeen s → Kept (check_file exists f s)
unfolding check_file
check_file-Kept exists f s v = elim (Option-cases f.config) [
  | inl invalid_config ↦ rw (invalid_config, check_file) tt
  | inr (cfg, valid) ↦ rw (valid, check_file) (check_config-Kept exists f.file cfg s v)
]

pub Loading-cases :
    (l : Loading Seen) → ((e : RegistryError) × (l ≡ failed e)) ⊎ ((s : Seen) × (l ≡ loaded s))
Loading-cases (failed e) = inl (e, refl)
Loading-cases (loaded s) = inr (s, refl)

pub check_files-Kept :
    (exists : String → Bool) (files : List ConfigFile) (s : Seen)
    → IsSeen s
    → Kept (check_files exists files s)
unfolding check_files
check_files-Kept exists [] s v = v
check_files-Kept exists (f ∷ files) s v = elim (Loading-cases (check_file exists f s)) [
  | inl (e, fails) ↦ rw (fails, check_files) tt
  | inr (s', goes_on) ↦
      rw (goes_on, check_files)
        (check_files-Kept exists files s' (rw goes_on at (check_file-Kept exists f s v)))
]
