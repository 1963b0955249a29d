-- ===== src/Guards/Refusals.antt =====
-- The refusals of an audio request (app/main.py, `_route_audio`).
use llamaswap.Base.{
  ℕ, ◌≡◌, ◌≢◌, ◌↔◌, ◌⊎◌, ap, refl, inl, inr, String, Bool, true, false, not, Option, some, arith,
  eq_iff, ◌==◌, string_key, ◌||◌, Bool-cases, Option-cases, is_some, ◌&&◌,
}
use llamaswap.Registry.Config.{ModelConfig, same_role}
use llamaswap.Registry.Query.{find, smallest_llm}
use llamaswap.Backend.Manager.{Running}
use llamaswap.Chat.Ensure.{status, status_of}
use llamaswap.Servers.Ensure.{Servers, Visit, Result, unknown, served, waits, ensure_model}
use llamaswap.Backend.Process.{
  cancelled, exited, unhealthy, spawn_failed, State, loading, ready, stopped, failed, state_value,
}
use llamaswap.Guards.App.{App, Stops, Routed, refuses}
use llamaswap.Guards.AudioRoute.{
  Audio, role_of, blocked, servers_of, with_servers, pinned, default_model, answer, load_audio,
  admit, route_audio,
}

answer-not_409 :
    (put : Servers → App) (pins : Servers → Servers) (s : Servers) (r : Result)
    → (answer put pins s r).1 ≢ refuses 409
unfolding answer
answer-not_409 put pins s (served cfg) = λ e. cc
answer-not_409 put pins s unknown = λ e. ground arith
answer-not_409 put pins s waits = λ e. cc
answer-not_409 put pins s (Result.failed cancelled) = λ e. cc
answer-not_409 put pins s (Result.failed exited) = λ e. ground arith
answer-not_409 put pins s (Result.failed unhealthy) = λ e. ground arith
answer-not_409 put pins s (Result.failed (spawn_failed x)) = λ e. ground arith

load-not_409 :
    (v : Visit) (seconds : Option ℕ) (role : Audio) (name : String) (a : App)
    → (load_audio v seconds role name a).1 ≢ refuses 409
unfolding load_audio
load-not_409 v seconds role name a =
    let (s, w, r) = ensure_model v a.registry name (servers_of role a) a.world in
    answer-not_409 (λ x. with_servers role x w a) (pinned seconds v.now) s r

-- The model of an audio request, where it is one of the role.
pub record IsAsked (expect_body_model : Bool) (role : Audio) (model : Option String) (a : App)
    : Type 0 where
  pub name : String
  pub cfg : ModelConfig
  pub given : (expect_body_model && not (is_some model)) ≡ false
  pub chosen : default_model (role_of role) model a ≡ some name
  pub found : find a.registry name ≡ some cfg
  pub mine : same_role cfg.role (role_of role) ≡ true

admit_409 :
    (d : Stops) (v : Visit) (seconds : Option ℕ) (role : Audio) (name : String) (a : App)
    → (admit d v seconds role name a).1 ≡ refuses 409
    → (cfg : ModelConfig) × (find a.registry name ≡ some cfg)
      × (same_role cfg.role (role_of role) ≡ true)
      × (blocked a ≡ true)
      × ((admit d v seconds role name a).0 ≡ a)
unfolding admit
admit_409 d v seconds role name a h = elim (Option-cases (find a.registry name)) [
  | inl missing ↦ let bad = rw (missing, admit) at h in ground (arith, bad)
  | inr (cfg, found) ↦ elim (Bool-cases (same_role cfg.role (role_of role))) [
    | inr other ↦ let bad = rw (found, admit, other) at h in ground (arith, bad)
    | inl mine ↦ elim (Bool-cases (blocked a)) [
      | inl big ↦ (cfg, found, mine, big, rw (found, admit) (rw (mine, big) refl))
      | inr free ↦ absurd (load-not_409 v seconds role name _ (rw (found, admit, mine, free) at h))
    ]
  ]
]

IsAsked-409 :
    (d : Stops) (v : Visit) (seconds : Option ℕ) (expect_body_model : Bool) (role : Audio)
    (model : Option String) (a : App)
    → (route_audio d v seconds expect_body_model role model a).1 ≡ refuses 409
    → IsAsked expect_body_model role model a × (blocked a ≡ true)
unfolding route_audio
IsAsked-409 d v seconds expect_body_model role model a h =
    elim (Bool-cases (expect_body_model && not (is_some model))) [
      | inl nameless ↦ let bad = rw nameless at h in ground (arith, bad)
      | inr given ↦ elim (Option-cases (default_model (role_of role) model a)) [
        | inl no_model ↦ let bad = rw (given, no_model) at h in ground (arith, bad)
        | inr (name, chosen) ↦
            let (cfg, found, mine, big, same) =
              admit_409 d v seconds role name a (rw (given, chosen) at h) in
            (
              record {
                name = name;
                cfg = cfg;
                given = given;
                chosen = chosen;
                found = found;
                mine = mine;
              },
              big,
            )
      ]
    ]

blocked_409 :
    (d : Stops) (v : Visit) (seconds : Option ℕ) (expect_body_model : Bool) (role : Audio)
    (model : Option String) (a : App)
    → IsAsked expect_body_model role model a
    → blocked a ≡ true
    → route_audio d v seconds expect_body_model role model a ≡ (a, refuses 409)
unfolding route_audio admit
blocked_409 d v seconds expect_body_model role model a q big =
    rw q.given (rw q.chosen (rw (q.found, admit) (rw (q.mine, big) refl)))

-- The guard is on, and a chat LLM other than the smallest is loading or ready.
pub record IsBigLoaded (a : App) : Type 0 where
  pub guarded : a.settings.block_audio_on_big_llm ≡ true
  pub smallest : String
  pub cur : Running
  pub least : smallest_llm a.registry ≡ some smallest
  pub loaded : a.chat.current ≡ some cur
  pub big : cur.config.name ≢ smallest
  pub up : (cur.state ≡ loading) ⊎ (cur.state ≡ ready)

up_cases :
    (s : State)
    → (state_value s == "loading" || state_value s == "ready") ≡ true
    → (s ≡ loading) ⊎ (s ≡ ready)
unfolding state_value
up_cases loading h = inl refl
up_cases ready h = inr refl
up_cases stopped h = cc
up_cases failed h = cc

up_value :
    (s : State)
    → (s ≡ loading) ⊎ (s ≡ ready)
    → (state_value s == "loading" || state_value s == "ready") ≡ true
unfolding state_value
up_value loading h = refl
up_value ready h = refl
up_value stopped h = absurd (elim h [ inl e ↦ cc | inr e ↦ cc ])
up_value failed h = absurd (elim h [ inl e ↦ cc | inr e ↦ cc ])

blocked-IsBigLoaded : (a : App) → blocked a ≡ true → IsBigLoaded a
unfolding blocked status status_of
blocked-IsBigLoaded a h = elim (Option-cases (smallest_llm a.registry)) [
  | inl alone ↦ let bad = rw alone at h in ground (arith, bad)
  | inr (s, least) ↦ elim (Option-cases a.chat.current) [
    | inl gone ↦ let bad = rw (least, gone) at h in ground (arith, bad)
    | inr (cur, loaded) ↦
        let k = rw (least, loaded) at h in
        record {
          guarded = ground (arith, k);
          smallest = s;
          cur = cur;
          least = least;
          loaded = loaded;
          big = λ e. ground (arith, k, eq_iff cur.config.name s, e);
          up = up_cases cur.state (ground (arith, k));
        }
  ]
]

IsBigLoaded-blocked : (a : App) → IsBigLoaded a → blocked a ≡ true
unfolding blocked status status_of
IsBigLoaded-blocked a h =
    let u = up_value h.cur.state h.up in
    rw (h.guarded, h.least, h.loaded)
      (ground (arith, u, h.big, eq_iff h.cur.config.name h.smallest))

-- The answer 409 is given, with nothing changed, exactly to a request for a model of the role while
-- the guard is on and a chat LLM other than the smallest is loading or ready.
pub route_audio-409_iff :
    (d : Stops) (v : Visit) (seconds : Option ℕ) (expect_body_model : Bool) (role : Audio)
    (model : Option String) (a : App)
    → (route_audio d v seconds expect_body_model role model a ≡ (a, refuses 409))
      ↔ (IsAsked expect_body_model role model a × IsBigLoaded a)
route_audio-409_iff d v seconds expect_body_model role model a = (
  λ h.
      let (asked, big) =
        IsAsked-409 d v seconds expect_body_model role model a (ap (λ (p : App × Routed). p.1) h) in
      (asked, blocked-IsBigLoaded a big),
  λ p. blocked_409 d v seconds expect_body_model role model a p.0 (IsBigLoaded-blocked a p.1),
)
