-- ===== src/Guards/ChatPlaced.antt =====
-- The chat manager after the load of a chat request (app/main.py, `_resolve_chat_model`).
use llamaswap.Base.{
  ℕ, if◌then◌else◌, ltb, ◌≡◌, ◌≢◌, refl, ◌∙◌, inl, inr, String, Option, none, some, string_key,
  Bool-cases,
}
use llamaswap.Registry.Config.{ModelConfig}
use llamaswap.Registry.Query.{Registry, find}
use llamaswap.Backend.Process.{
  World, StopReply, LoadError, cancelled, spawn_failed, exited, unhealthy,
}
use llamaswap.Backend.Manager.{Manager, Loaded, up, pending, raised, pin}
use llamaswap.Backend.Invariant.{IsSound}
use llamaswap.Chat.Ensure.{
  Visit, Result, unknown, served, failed, waits, ensure_model, ensure_config, is_current, result_of,
}
use llamaswap.Chat.Laws.{IsNamed, Ensured, ensure_model-Ensured, ensure_model-IsSound}
use llamaswap.Embedding.Ensure.{Embedding, is_running}
use llamaswap.Guards.App.{App, Stops, yield_entry, yield_embedding, Routed}
use llamaswap.Guards.ChatRoute.{Attempts, chat_call, may_retry, retried, answer, pinned, load_chat}
use llamaswap.Guards.Placement.{HasChat}

-- Everything but the chat manager, the embedding manager and the world is as it was.
pub record HasSameRest (a b : App) : Type 0 where
  pub registry : b.registry ≡ a.registry
  pub settings : b.settings ≡ a.settings
  pub tts : b.tts ≡ a.tts
  pub asr : b.asr ≡ a.asr
  pub image : b.image ≡ a.image
  pub music : b.music ≡ a.music

-- How a call of `ensure_model` leaves the chat manager, unless it still waits.
abbrev Chatted : String → App → Result → Type 0
Chatted model b waits = Unit
Chatted model b unknown = ⊥
Chatted model b r = IsSound b.chat × HasChat model b

yield-same :
    (reason : String) (reply : StopReply) (e : Option Embedding) (a : App)
    → HasSameRest a (yield_entry reason reply e a) × ((yield_entry reason reply e a).chat ≡ a.chat)
unfolding yield_entry
yield-same reason reply none a = (
  record { registry = refl; settings = refl; tts = refl; asr = refl; image = refl; music = refl },
  refl,
)
yield-same reason reply (some e) a = elim (Bool-cases (is_running e)) [
  | inl runs ↦ rw runs (
    record { registry = refl; settings = refl; tts = refl; asr = refl; image = refl; music = refl },
    refl,
  )
  | inr down ↦ rw down (
    record { registry = refl; settings = refl; tts = refl; asr = refl; image = refl; music = refl },
    refl,
  )
]

result-known : (cfg : ModelConfig) (name : String) (r : Loaded) → result_of cfg name r ≢ unknown
unfolding result_of
result-known cfg name up = λ e. cc
result-known cfg name pending = λ e. cc
result-known cfg name (raised x) = λ e. cc

config-known :
    (v : Visit) (cfg : ModelConfig) (name : String) (m : Manager) (w : World)
    → (ensure_config v cfg name m w).2 ≢ unknown
unfolding ensure_config
config-known v cfg name m w = elim (Bool-cases (is_current name m.current)) [
  | inl same ↦ rw same (λ e. cc)
  | inr other ↦ rw other (result-known cfg name _)
]

of_Ensured :
    (model : String) (a b : App) (r : Result)
    → r ≢ unknown
    → (r ≢ waits → IsSound b.chat)
    → Ensured model a.chat b.chat r
    → Chatted model b r
of_Ensured model a b waits n s e = tt
of_Ensured model a b unknown n s e = n refl
of_Ensured model a b (failed x) n s e = (s (λ q. cc), inl e.1)
of_Ensured model a b (served name port) n s (same, (cur, c, k, s', rest)) =
    (s (λ q. cc), inr (cur, c, k))

ensure_known :
    (v : Visit) (r : Registry) (name : String) (m : Manager) (w : World) (cfg : ModelConfig)
    → find r name ≡ some cfg
    → (ensure_model v r name m w).2 ≢ unknown
unfolding ensure_model
ensure_known v r name m w cfg found = rw (found, ensure_model) (config-known v cfg name m w)

call_Chatted :
    (v : Visit) (model : String) (a : App) (cfg : ModelConfig)
    → IsNamed a.registry
    → find a.registry model ≡ some cfg
    → IsSound a.chat
    → Chatted model (chat_call v model a).0 (chat_call v model a).1
unfolding chat_call
call_Chatted v model a cfg named found h =
    of_Ensured model a (chat_call v model a).0 (chat_call v model a).1
      (ensure_known v a.registry model a.chat a.world cfg found)
      (λ n. ensure_model-IsSound v a.registry model a.chat a.world h n)
      (ensure_model-Ensured v a.registry model a.chat a.world named h)

trans-rest : {a b c : App} → HasSameRest a b → HasSameRest b c → HasSameRest a c
trans-rest p q = record {
  registry = q.registry ∙ p.registry;
  settings = q.settings ∙ p.settings;
  tts = q.tts ∙ p.tts;
  asr = q.asr ∙ p.asr;
  image = q.image ∙ p.image;
  music = q.music ∙ p.music;
}

call-rest : (v : Visit) (model : String) (a : App) → HasSameRest a (chat_call v model a).0
unfolding chat_call
call-rest v model a = record {
  registry = refl;
  settings = refl;
  tts = refl;
  asr = refl;
  image = refl;
  music = refl;
}

-- A load on an application whose audio, image and music servers are those of `a`.
abbrev Loads : String → App → App × Result → Type 0
Loads model a p = HasSameRest a p.0 × Chatted model p.0 p.1

again_Loads :
    (d : Stops) (t : Attempts) (model : String) (cfg : ModelConfig) (a b : App)
    → IsNamed a.registry
    → find a.registry model ≡ some cfg
    → HasSameRest a b
    → IsSound b.chat
    → Loads model a (chat_call t.second model (yield_embedding "an LLM" d.embedding b))
unfolding yield_embedding
again_Loads d t model cfg a b named found same h =
    let (rest, c) = yield-same "an LLM" d.embedding b.embedding b in
    let y = yield_entry "an LLM" d.embedding b.embedding b in
    let reg : y.registry ≡ a.registry = rest.registry ∙ same.registry in
    (
      trans-rest same (trans-rest rest (call-rest t.second model y)),
      call_Chatted t.second model y cfg (rw reg named) (rw reg found) (rw c h),
    )

retry_Loads :
    (d : Stops) (t : Attempts) (model : String) (cfg : ModelConfig) (a b : App) (e : LoadError)
    → IsNamed a.registry
    → find a.registry model ≡ some cfg
    → HasSameRest a b
    → IsSound b.chat
    → HasChat model b
    → Loads model a (
        if may_retry b.embedding
        then chat_call t.second model (yield_embedding "an LLM" d.embedding b)
        else (b, failed e))
retry_Loads d t model cfg a b e named found same h k = elim (Bool-cases (may_retry b.embedding)) [
  | inl tries ↦ rw tries (again_Loads d t model cfg a b named found same h)
  | inr ends ↦ rw ends (same, (h, k))
]

retried-Loads :
    (d : Stops) (t : Attempts) (model : String) (cfg : ModelConfig) (a b : App) (r : Result)
    → IsNamed a.registry
    → find a.registry model ≡ some cfg
    → Loads model a (b, r)
    → Loads model a (retried d t model (b, r))
unfolding retried
retried-Loads d t model cfg a b (failed cancelled) named found l = l
retried-Loads d t model cfg a b (failed exited) named found (same, (h, k)) =
    retry_Loads d t model cfg a b exited named found same h k
retried-Loads d t model cfg a b (failed unhealthy) named found (same, (h, k)) =
    retry_Loads d t model cfg a b unhealthy named found same h k
retried-Loads d t model cfg a b (failed (spawn_failed x)) named found (same, (h, k)) =
    retry_Loads d t model cfg a b (spawn_failed x) named found same h k
retried-Loads d t model cfg a b (served n p) named found l = l
retried-Loads d t model cfg a b waits named found l = l
retried-Loads d t model cfg a b unknown named found l = absurd l.1

pin_sound :
    (seconds : Option ℕ) (now : ℕ) (model : String) (b : App)
    → IsSound b.chat
    → HasChat model b
    → IsSound (pinned seconds now b).chat × HasChat model (pinned seconds now b)
unfolding pin
pin_sound none now model b h k = (h, k)
pin_sound (some seconds) now model b h k = elim (Bool-cases (ltb 0 seconds)) [
  | inl longer ↦ rw longer (record { lives = h.lives; settled = h.settled }, k)
  | inr never ↦ rw never (h, k)
]

pin-rest : (seconds : Option ℕ) (now : ℕ) (b : App) → HasSameRest b (pinned seconds now b)
pin-rest none now b = record {
  registry = refl;
  settings = refl;
  tts = refl;
  asr = refl;
  image = refl;
  music = refl;
}
pin-rest (some seconds) now b = record {
  registry = refl;
  settings = refl;
  tts = refl;
  asr = refl;
  image = refl;
  music = refl;
}

-- The application after a load that has ended.
abbrev pub Placed : String → App → App → Type 0
Placed model a b = HasSameRest a b × IsSound b.chat × HasChat model b

answer-Placed :
    (t : Attempts) (model : String) (cfg : ModelConfig) (a b : App) (r : Result)
    → Loads model a (b, r)
    → (answer t cfg (b, r)).1 ≢ Routed.waits
    → Placed model a (answer t cfg (b, r)).0
unfolding answer
answer-Placed t model cfg a b (served n p) (same, (h, k)) w =
    let (h', k') = pin_sound t.pin t.now model b h k in
    (trans-rest same (pin-rest t.pin t.now b), h', k')
answer-Placed t model cfg a b (failed cancelled) (same, (h, k)) w = (same, h, k)
answer-Placed t model cfg a b (failed exited) (same, (h, k)) w = (same, h, k)
answer-Placed t model cfg a b (failed unhealthy) (same, (h, k)) w = (same, h, k)
answer-Placed t model cfg a b (failed (spawn_failed x)) (same, (h, k)) w = (same, h, k)
answer-Placed t model cfg a b waits l w = absurd (w refl)
answer-Placed t model cfg a b unknown l w = absurd l.1

-- A load of a known model that has ended.
pub load-Placed :
    (d : Stops) (t : Attempts) (model : String) (cfg : ModelConfig) (a : App)
    → IsNamed a.registry
    → find a.registry model ≡ some cfg
    → IsSound a.chat
    → (load_chat d t model a).1 ≢ Routed.waits
    → Placed model a (load_chat d t model a).0
unfolding load_chat
load-Placed d t model cfg a named found h n =
    rw (found, load_chat)
      (answer-Placed t model cfg a _ _
        (retried-Loads d t model cfg a _ _ named found
          (call-rest t.first model a, call_Chatted t.first model a cfg named found h))
        (rw (found, load_chat) at n))
