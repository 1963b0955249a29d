-- ===== src/Servers/Laws.antt =====
-- The manager of a role after `ensure_model` (app/server_manager.py).
use llamaswap.Base.{
  if◌then◌else◌, ◌≡◌, ◌≢◌, refl, ap, ◌∙◌, ◌⊎◌, inl, inr, String, true, false, ◌&&◌, Option, none,
  some, [], ◌∷◌, arith, Bool-cases, Option-cases, eq_iff, string_key,
}
use llamaswap.Registry.Config.{ModelConfig, Role, same_role}
use llamaswap.Registry.Query.{Registry, find}
use llamaswap.Backend.Process.{World, ready}
use llamaswap.Backend.Manager.{Running, Manager, Loaded, up, pending, raised, ready_name}
use llamaswap.Backend.Invariant.{is_settled, IsSound, Outcome, Outcome-IsSound, replace-Outcome}
use llamaswap.Servers.Ensure.{
  Servers, flavour, Visit, Result, unknown, waits, served, failed, result_of, named, loading_entry,
  running_entry, waited, swap_in, ensure_config, ensure_model,
}

not_loading : (c : Option Running) → is_settled c ≡ true → loading_entry c ≡ false
not_loading none h = refl
not_loading (some cur) h = ground arith

waited_settled : (v : Visit) (m : Manager) → is_settled m.current ≡ true → waited v m ≡ m
unfolding waited
waited_settled v m h = rw (not_loading m.current h, waited)

-- On a settled manager a call runs as if the waits for a load under way were not there.
settled_call :
    (v : Visit) (cfg : ModelConfig) (name : String) (s : Servers) (w : World)
    → IsSound s.base
    → ensure_config v cfg name s w ≡ (
        let seen = record (s.base) { last_activity = v.now } in
        if named name seen.current && running_entry seen.current
        then (record s { base = seen }, w, served cfg)
        else swap_in v s cfg name seen w)
unfolding ensure_config
settled_call v cfg name s w h =
    rw (waited_settled v (record (s.base) { last_activity = v.now }) h.settled)

-- What a call leaves, by its result.
abbrev pub RoleEnsured : String → Servers → Servers → Result → Type 0
RoleEnsured name before s unknown = s ≡ before
RoleEnsured name before s waits = Unit
RoleEnsured name before s (failed e) = (s.base.current ≡ none) × (s.base.live ≡ [])
RoleEnsured name before s (served cfg) =
    (cfg.name ≡ name)
    × (cfg.role ≡ before.role)
    × ((cur : Running) × (s.base.current ≡ some cur)
        × (cur.config.name ≡ name)
        × (cur.state ≡ ready)
        × ((before.base.current ≡ some cur)
            ⊎ ((cur.config ≡ cfg)
                × (cur.process.returncode ≡ none)
                × (s.base.live ≡ cur.process.pid ∷ []))))

current_of :
    (name : String) (c : Option Running)
    → (named name c && running_entry c) ≡ true
    → (cur : Running) × (c ≡ some cur) × (cur.config.name ≡ name) × (cur.state ≡ ready)
unfolding running_entry
current_of name none h = cc
current_of name (some cur) h =
    (cur, refl, ground (arith, eq_iff cur.config.name name), ground arith)

of_Outcome :
    (cfg : ModelConfig) (name : String) (before : Servers) (m : Manager) (r : Loaded)
    → cfg.name ≡ name
    → cfg.role ≡ before.role
    → Outcome cfg r m
    → RoleEnsured name before (record before { base = m }) (result_of cfg r)
unfolding result_of
of_Outcome cfg name before m up e p (cur, c, k, s, rc, l) =
    (e, p, (cur, c, ap (λ (x : ModelConfig). x.name) k ∙ e, s, inr (k, rc, l)))
of_Outcome cfg name before m pending e p o = tt
of_Outcome cfg name before m (raised x) e p o = o

config_RoleEnsured :
    (v : Visit) (cfg : ModelConfig) (name : String) (s : Servers) (w : World)
    → cfg.name ≡ name
    → cfg.role ≡ s.role
    → IsSound s.base
    → RoleEnsured name s (ensure_config v cfg name s w).0 (ensure_config v cfg name s w).2
config_RoleEnsured v cfg name s w e p h =
    rw (settled_call v cfg name s w h)
      (elim (Bool-cases (named name s.base.current && running_entry s.base.current)) [
        | inl same ↦
            let (cur, c, n, st) = current_of name s.base.current same in
            rw same (e, p, (cur, c, n, st, inl c))
        | inr other ↦ rw other (
            unfold swap_in in
            of_Outcome cfg name s _ _ e p (
              replace-Outcome (flavour s.role) v.old_stop v.launch cfg name
                (ready_name s.base.current) (record (s.base) { last_activity = v.now }) w h.lives))
      ])

same_role→eq : (a b : Role) → same_role a b ≡ true → a ≡ b
same_role→eq a b h = ground arith

-- Names and configs agree in a loaded registry.
abbrev pub IsNamed : Registry → Type 0
IsNamed r = (name : String) (cfg : ModelConfig) → find r name ≡ some cfg → cfg.name ≡ name

-- A call that serves a config serves one of the name asked for and of the manager's own role, and
-- leaves its server current and ready: the one that was there, or a new one, which is the only
-- process of the role that runs. One that fails leaves nothing current and nothing running; an
-- unknown name or another role's changes nothing.
pub ensure_model-RoleEnsured :
    (v : Visit) (r : Registry) (name : String) (s : Servers) (w : World)
    → IsNamed r
    → IsSound s.base
    → RoleEnsured name s (ensure_model v r name s w).0 (ensure_model v r name s w).2
unfolding ensure_model
ensure_model-RoleEnsured v r name s w names h = elim (Option-cases (find r name)) [
  | inl missing ↦ rw (missing, ensure_model) refl
  | inr (cfg, found) ↦ elim (Bool-cases (same_role cfg.role s.role)) [
    | inl mine ↦
        rw (found, ensure_model)
          (rw mine (
            config_RoleEnsured v cfg name s w (names name cfg found)
              (same_role→eq cfg.role s.role mine) h))
    | inr other ↦ rw (found, ensure_model) (rw other refl)
  ]
]

result-not_waits : (cfg : ModelConfig) (r : Loaded) → result_of cfg r ≢ waits → r ≢ pending
unfolding result_of
result-not_waits cfg up n = λ e. cc
result-not_waits cfg pending n = λ e. n refl
result-not_waits cfg (raised x) n = λ e. cc

config-IsSound :
    (v : Visit) (cfg : ModelConfig) (name : String) (s : Servers) (w : World)
    → IsSound s.base
    → (ensure_config v cfg name s w).2 ≢ waits
    → IsSound (ensure_config v cfg name s w).0.base
config-IsSound v cfg name s w h n =
    let seen = record (s.base) { last_activity = v.now } in
    rw (settled_call v cfg name s w h)
      (elim (Bool-cases (named name seen.current && running_entry seen.current)) [
        | inl same ↦ rw same (record { lives = h.lives; settled = h.settled })
        | inr other ↦ rw other (
            unfold swap_in in
            Outcome-IsSound cfg _ _
              (result-not_waits cfg _
                (unfold swap_in in (rw (settled_call v cfg name s w h, other) at n)))
              (replace-Outcome (flavour s.role) v.old_stop v.launch cfg name
                (ready_name s.base.current) seen w h.lives))
      ])

-- A call that has returned leaves its manager sound.
pub ensure_model-IsSound :
    (v : Visit) (r : Registry) (name : String) (s : Servers) (w : World)
    → IsSound s.base
    → (ensure_model v r name s w).2 ≢ waits
    → IsSound (ensure_model v r name s w).0.base
unfolding ensure_model
ensure_model-IsSound v r name s w h n = elim (Option-cases (find r name)) [
  | inl missing ↦ rw (missing, ensure_model) h
  | inr (cfg, found) ↦ elim (Bool-cases (same_role cfg.role s.role)) [
    | inl mine ↦
        rw (found, ensure_model)
          (rw mine (config-IsSound v cfg name s w h (rw (found, ensure_model, mine) at n)))
    | inr other ↦ rw (found, ensure_model) (rw other h)
  ]
]
