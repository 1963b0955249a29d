-- ===== src/Guards/ChatRoute.antt =====
-- Chat requests (app/main.py, `_resolve_chat_model`).
use Prim.Native.Char.{code}
use llamaswap.Base.{
  ℕ, String, Bool, false, not, ◌&&◌, ◌||◌, Option, none, some, is_some, if◌then◌else◌, ◌==◌,
  string_key, eqb,
}
use llamaswap.Registry.Config.{ModelConfig, llm, same_role}
use llamaswap.Registry.Query.{Registry, find, smallest_llm, role_configs, head?}
use llamaswap.Backend.Process.{cancelled, state_value}
use llamaswap.Backend.Manager.{Manager, pin}
use llamaswap.Chat.Ensure.{Visit, Result, unknown, served, failed, waits, ensure_model, status}
use llamaswap.Servers.Ensure.{is_running}
use llamaswap.Embedding.Ensure.{Embedding}
use llamaswap.Embedding.Ensure.{is_running as embedding_running}
use llamaswap.Guards.App.{
  App, Stops, unload_audio, unload_image, unload_music, yield_embedding, when, same_name, Routed,
  refuses, routed, aborted,
}

-- `s.split(":", 1)[0]`
unfoldable pub base_name : String → String
base_name String.[] = ""
base_name (String.◌∷◌ c s) =
    let rest = base_name s in if eqb (code c) 58 then "" else String.◌∷◌ c rest

abbrev or_first : Option String → Option ModelConfig → Option String
or_first (some name) c = some name
or_first none none = none
or_first none (some cfg) = some cfg.name

-- The model of the resident LLM, where it is loading or ready.
unfoldable pub resident : Manager → Option String
unfolding status state_value
resident m =
    let st = status 0 m in if st.state == "loading" || st.state == "ready" then st.model else none

-- The model that a request without one gets.
unfoldable pub fallback : Bool → Option String → App → Option String
unfolding resident
fallback require_model (some name) a = some name
fallback require_model none a =
    if require_model then none else or_first (resident a.chat) (head? (role_configs a.registry llm))

-- An Ollama tag is dropped where only the name in front of it is registered.
unfoldable pub without_tag : Registry → String → String
unfolding base_name
without_tag r name =
    if not (name == "") && (not (is_some (find r name)) && is_some (find r (base_name name)))
    then base_name name
    else name

-- A model that is larger than the smallest is asked for, and audio gives way to it.
unfoldable pub big_request : App → String → Bool
big_request a model =
    a.settings.unload_audio_on_big_llm
    && (is_some (smallest_llm a.registry) && not (same_name (smallest_llm a.registry) model))

-- The unloads in front of a chat load.
unfoldable pub make_room : Stops → String → App → App
make_room d model a =
    let a₁ =
      when (big_request a model)
        (λ x. when a.settings.unload_on_music (unload_music d.music) (unload_audio d x)) a in
    let a₂ = when a.settings.unload_image_on_llm (unload_image d.image) a₁ in
    when a.settings.unload_music_on_llm (unload_music d.music_again) a₂

-- `audio_vram_guard`: the model that is served in place of the one asked for.
unfoldable pub substitute : App → String → String
substitute a model =
    if a.settings.audio_vram_guard && (is_running a.tts && is_running a.asr)
    then elim (smallest_llm a.registry) [ none ↦ model | some s ↦ s ]
    else model

-- What the two attempts at a load meet, the stop between them, and the pin asked for.
pub record Attempts : Type 0 where
  pub first : Visit
  pub second : Visit
  pub now : ℕ
  pub pin : Option ℕ

unfoldable pub chat_call : Visit → String → App → App × Result
chat_call v model a =
    let (m, w, r) = ensure_model v a.registry model a.chat a.world in
    (record a { chat = m; world = w }, r)

unfoldable pub may_retry : Option Embedding → Bool
may_retry none = false
may_retry (some e) = embedding_running e

-- After a failed load the embedding server gives way, and the load is tried once more.
unfoldable pub retried : Stops → Attempts → String → App × Result → App × Result
unfolding chat_call
retried d t model (a, failed cancelled) = (a, failed cancelled)
retried d t model (a, failed e) =
    if may_retry a.embedding
    then chat_call t.second model (yield_embedding "an LLM" d.embedding a)
    else (a, failed e)
retried d t model (a, r) = (a, r)

unfoldable pub relaunches : App → Bool
relaunches a =
    a.settings.embedding_auto_start
    && elim a.embedding [ none ↦ false | some e ↦ not (embedding_running e) ]

abbrev pub pinned : Option ℕ → ℕ → App → App
pinned none now a = a
pinned (some seconds) now a = record a { chat = pin now seconds a.chat }

-- The end of `_resolve_chat_model`, by how the load went. `UnknownModelError` is not caught there.
unfoldable pub answer : Attempts → ModelConfig → App × Result → App × Routed
unfolding relaunches
answer t cfg (a, served name port) = (pinned t.pin t.now a, routed cfg port (relaunches a))
answer t cfg (a, unknown) = (a, refuses 500)
answer t cfg (a, waits) = (a, Routed.waits)
answer t cfg (a, failed cancelled) = (a, aborted)
answer t cfg (a, failed e) = (a, refuses 503)

-- A load of the model that the guard left, on an application that has made room for it.
unfoldable pub load_chat : Stops → Attempts → String → App → App × Routed
unfolding retried answer
load_chat d t model a = elim (find a.registry model) [
  | none ↦ (a, refuses 500)
  | some cfg ↦ answer t cfg (retried d t model (chat_call t.first model a))
]

unfoldable pub resolve_known : Stops → Attempts → String → ModelConfig → App → App × Routed
resolve_known d t model cfg a =
    if same_role cfg.role llm
    then (let a' = make_room d model a in load_chat d t (substitute a' model) a')
    else (a, refuses 400)

unfoldable pub resolve_chat_model : Stops → Attempts → Bool → Option String → App → App × Routed
unfolding fallback without_tag resolve_known
resolve_chat_model d t require_model model a = elim (fallback require_model model a) [
  | none ↦ (a, if require_model then refuses 400 else refuses 503)
  | some asked ↦
      let name = without_tag a.registry asked in
      elim (find a.registry name) [
        | none ↦ (a, refuses 404)
        | some cfg ↦ resolve_known d t name cfg a
      ]
]
