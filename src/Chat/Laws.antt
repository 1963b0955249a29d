-- ===== src/Chat/Laws.antt =====
-- The chat manager after `ensure_model` (app/process_manager.py).
use llamaswap.Base.{
  eqb_iff, ◌≡◌, ◌≢◌, refl, ap, ◌∙◌, ◌⊎◌, inl, inr, String, true, false, Option, none, some, [], ◌∷◌,
  arith, Bool-cases, Option-cases, eq_iff, string_key,
}
use llamaswap.Json.{ℤ}
use llamaswap.Registry.Config.{ModelConfig}
use llamaswap.Registry.Query.{Registry, find}
use llamaswap.Backend.Process.{World, ready, unexpected}
use llamaswap.Backend.Manager.{
  Running, Manager, Loaded, up, pending, raised, ready_name, exit_current,
}
use llamaswap.Backend.Invariant.{live_of, IsSound, Outcome, replace-Outcome, Outcome-IsSound}
use llamaswap.Chat.Ensure.{
  chat, Visit, Result, unknown, waits, served, failed, result_of, is_current, ensure_config,
  ensure_model,
}

-- What a call leaves, by its result. `before` is the manager that it found.
abbrev pub Ensured : String → Manager → Manager → Result → Type 0
Ensured name before m unknown = m ≡ before
Ensured name before m waits = Unit
Ensured name before m (failed e) = (m.current ≡ none) × (m.live ≡ [])
Ensured name before m (served n port) =
    (n ≡ name)
    × ((cur : Running) × (m.current ≡ some cur)
        × (cur.config.name ≡ name)
        × (cur.state ≡ ready)
        × ((before.current ≡ some cur)
            ⊎ ((cur.config.port ≡ port)
                × (cur.process.returncode ≡ none)
                × (m.live ≡ cur.process.pid ∷ []))))

current_of :
    (name : String) (c : Option Running)
    → is_current name c ≡ true
    → (cur : Running) × (c ≡ some cur) × (cur.config.name ≡ name) × (cur.state ≡ ready)
current_of name none h = cc
current_of name (some cur) h =
    (cur, refl, ground (arith, eq_iff cur.config.name name), ground arith)

of_Outcome :
    (cfg : ModelConfig) (name : String) (before m : Manager) (r : Loaded)
    → cfg.name ≡ name
    → Outcome cfg r m
    → Ensured name before m (result_of cfg name r)
unfolding result_of
of_Outcome cfg name before m up e (cur, c, k, s, rc, l) = (
  refl,
  (
    cur,
    c,
    ap (λ (x : ModelConfig). x.name) k ∙ e,
    s,
    inr (ap (λ (x : ModelConfig). x.port) k, rc, l),
  ),
)
of_Outcome cfg name before m pending e o = tt
of_Outcome cfg name before m (raised x) e o = o

config_Ensured :
    (v : Visit) (cfg : ModelConfig) (name : String) (m : Manager) (w : World)
    → cfg.name ≡ name
    → IsSound m
    → Ensured name m (ensure_config v cfg name m w).0 (ensure_config v cfg name m w).2
unfolding ensure_config
config_Ensured v cfg name m w e h = elim (Bool-cases (is_current name m.current)) [
  | inl same ↦
      let (cur, c, n, s) = current_of name m.current same in rw same (refl, (cur, c, n, s, inl c))
  | inr other ↦ rw other (
      of_Outcome cfg name m _ _ e (
        replace-Outcome chat v.old_stop v.launch cfg name (ready_name m.current)
          (record m { last_activity = v.now }) w h.lives))
]

-- Names and configs agree in a loaded registry.
abbrev pub IsNamed : Registry → Type 0
IsNamed r = (name : String) (cfg : ModelConfig) → find r name ≡ some cfg → cfg.name ≡ name

-- A call that serves a model leaves that model current and ready: the server that was there, or a
-- new one, whose port is the answer and which is the only process that runs. One that fails leaves
-- nothing current and nothing running; an unknown name changes nothing.
pub ensure_model-Ensured :
    (v : Visit) (r : Registry) (name : String) (m : Manager) (w : World)
    → IsNamed r
    → IsSound m
    → Ensured name m (ensure_model v r name m w).0 (ensure_model v r name m w).2
unfolding ensure_model
ensure_model-Ensured v r name m w named h = elim (Option-cases (find r name)) [
  | inl missing ↦ rw (missing, ensure_model) refl
  | inr (cfg, found) ↦
      rw (found, ensure_model) (config_Ensured v cfg name m w (named name cfg found) h)
]

result-not_waits :
    (cfg : ModelConfig) (name : String) (r : Loaded) → result_of cfg name r ≢ waits → r ≢ pending
unfolding result_of
result-not_waits cfg name up n = λ e. cc
result-not_waits cfg name pending n = λ e. n refl
result-not_waits cfg name (raised x) n = λ e. cc

config-IsSound :
    (v : Visit) (cfg : ModelConfig) (name : String) (m : Manager) (w : World)
    → IsSound m
    → (ensure_config v cfg name m w).2 ≢ waits
    → IsSound (ensure_config v cfg name m w).0
unfolding ensure_config
config-IsSound v cfg name m w h n = elim (Bool-cases (is_current name m.current)) [
  | inl same ↦ rw same (record { lives = h.lives; settled = h.settled })
  | inr other ↦ rw other (
      Outcome-IsSound cfg _ _ (result-not_waits cfg name _ (rw other at n)) (
        replace-Outcome chat v.old_stop v.launch cfg name (ready_name m.current)
          (record m { last_activity = v.now }) w h.lives))
]

pub ensure_model-IsSound :
    (v : Visit) (r : Registry) (name : String) (m : Manager) (w : World)
    → IsSound m
    → (ensure_model v r name m w).2 ≢ waits
    → IsSound (ensure_model v r name m w).0
unfolding ensure_model
ensure_model-IsSound v r name m w h n = elim (Option-cases (find r name)) [
  | inl missing ↦ rw (missing, ensure_model) h
  | inr (cfg, found) ↦
      rw (found, ensure_model) (config-IsSound v cfg name m w h (rw (found, ensure_model) at n))
]

-- A clean exit is not taken for a failure.
after_exit :
    (rc : ℤ) (detail : String) (m : Manager) (cur : Running)
    → unexpected rc ≡ false
    → m.live ≡ live_of (some cur)
    → m.current ≡ some cur
    → cur.process.returncode ≡ none
    → ((exit_current rc detail m).live ≡ [])
      × ((exit_current rc detail m).current
          ≡ some (record cur { process = record { pid = cur.process.pid; returncode = some rc } }))
unfolding exit_current
after_exit rc detail m cur clean l c alive =
    rw c (ground (arith, eqb_iff cur.process.pid cur.process.pid))

serves_current :
    (v : Visit) (cfg : ModelConfig) (name : String) (m : Manager) (w : World)
    → is_current name m.current ≡ true
    → ensure_config v cfg name m w ≡ (record m { last_activity = v.now }, w, served name cfg.port)
unfolding ensure_config
serves_current v cfg name m w h = rw h

-- `_tail` leaves a model READY when its server ends with code 0 or on SIGTERM. From then on every
-- call for that model is served at once, with no process behind it.
pub ensure_model-after_clean_exit :
    (v : Visit) (r : Registry) (rc : ℤ) (detail : String) (m : Manager) (w : World) (cur : Running)
    (cfg : ModelConfig)
    → find r cur.config.name ≡ some cfg
    → unexpected rc ≡ false
    → IsSound m
    → m.current ≡ some cur
    → cur.state ≡ ready
    → cur.process.returncode ≡ none
    → ((ensure_model v r cur.config.name (exit_current rc detail m) w).2
        ≡ served cur.config.name cfg.port)
      × ((ensure_model v r cur.config.name (exit_current rc detail m) w).0.live ≡ [])
unfolding ensure_model
ensure_model-after_clean_exit v r rc detail m w cur cfg found clean h c s alive =
    let (gone_live, still) = after_exit rc detail m cur clean (h.lives ∙ ap live_of c) c alive in
    let same : is_current cur.config.name (exit_current rc detail m).current ≡ true =
      rw still (ground (arith, eq_iff cur.config.name cur.config.name)) in
    rw (found, ensure_model)
      (rw (serves_current v cfg cur.config.name (exit_current rc detail m) w same)
        (refl, gone_live))
