-- ===== src/Guards/AudioRoute.antt =====
-- Audio requests up to the load of their server (app/main.py, `_route_audio`).
use llamaswap.Base.{
  ℕ, String, Bool, false, not, ◌&&◌, ◌||◌, Option, none, some, is_some, if◌then◌else◌, ◌==◌,
  string_key,
}
use llamaswap.Registry.Config.{Role, tts, asr, same_role}
use llamaswap.Registry.Query.{find, smallest_llm, role_configs, head?}
use llamaswap.Backend.Process.{World, cancelled, state_value}
use llamaswap.Backend.Manager.{pin}
use llamaswap.Chat.Ensure.{status}
use llamaswap.Servers.Ensure.{Servers, Visit, Result, unknown, served, failed, waits, ensure_model}
use llamaswap.Guards.App.{
  App, Stops, unload_image, unload_music, when, Routed, refuses, routed, aborted,
}

pub data Audio : Type 0 where
  speech transcription : Audio

abbrev pub role_of : Audio → Role
role_of speech = tts
role_of transcription = asr

-- `app.state.audio_managers[role]`
abbrev pub servers_of : Audio → App → Servers
servers_of speech a = a.tts
servers_of transcription a = a.asr

abbrev pub with_servers : Audio → Servers → World → App → App
with_servers speech s w a = record a { tts = s; world = w }
with_servers transcription s w a = record a { asr = s; world = w }

abbrev other_than : Option String → Option String → Bool
other_than none loaded = false
other_than (some s) none = false
other_than (some s) (some l) = not (l == s)

-- The inverse guard: a chat LLM other than the smallest is loading or ready.
unfoldable pub blocked : App → Bool
unfolding status state_value
blocked a =
    let st = status 0 a.chat in
    a.settings.block_audio_on_big_llm
    && (other_than (smallest_llm a.registry) st.model
        && (st.state == "loading" || st.state == "ready"))

-- The model of a request, with the first of the role where the body need not name one.
abbrev pub default_model : Role → Option String → App → Option String
default_model role (some name) a = some name
default_model role none a = elim (head? (role_configs a.registry role)) [
  | none ↦ none
  | some c ↦ some c.name
]

abbrev pub pinned : Option ℕ → ℕ → Servers → Servers
pinned none now s = s
pinned (some seconds) now s = record s { base = pin now seconds s.base }

-- How a load of a role's server ends its request.
unfoldable pub answer : (Servers → App) → (Servers → Servers) → Servers → Result → App × Routed
answer put pins s (served cfg) = (put (pins s), routed cfg cfg.port false)
answer put pins s unknown = (put s, refuses 404)
answer put pins s waits = (put s, Routed.waits)
answer put pins s (failed cancelled) = (put s, aborted)
answer put pins s (failed e) = (put s, refuses 503)

unfoldable pub load_audio : Visit → Option ℕ → Audio → String → App → App × Routed
unfolding answer
load_audio v seconds role name a =
    let (s, w, r) = ensure_model v a.registry name (servers_of role a) a.world in
    answer (λ x. with_servers role x w a) (pinned seconds v.now) s r

unfoldable pub make_room : Stops → App → App
make_room d a =
    when a.settings.unload_music_on_audio (unload_music d.music)
      (when a.settings.unload_image_on_audio (unload_image d.image) a)

unfoldable pub admit : Stops → Visit → Option ℕ → Audio → String → App → App × Routed
unfolding load_audio
admit d v seconds role name a = elim (find a.registry name) [
  | none ↦ (a, refuses 404)
  | some cfg ↦
      if same_role cfg.role (role_of role)
      then if blocked a then (a, refuses 409) else load_audio v seconds role name (make_room d a)
      else (a, refuses 400)
]

unfoldable pub route_audio :
    Stops → Visit → Option ℕ → Bool → Audio → Option String → App → App × Routed
unfolding admit
route_audio d v seconds expect_body_model role model a =
    if expect_body_model && not (is_some model)
    then (a, refuses 400)
    else elim (default_model (role_of role) model a) [
      | none ↦ (a, refuses 404)
      | some name ↦ admit d v seconds role name a
    ]
