-- ===== src/Guards/Admin.antt =====
-- The admin routes that unload (app/main.py, `reset` and `unload_model`).
use llamaswap.Base.{
  ℕ, ◌≡◌, refl, String, Option, none, some, Bool-cases, inl, inr, if◌then◌else◌, ◌==◌, string_key,
  subst, sym,
}
use llamaswap.Registry.Config.{ModelConfig, Role, llm, embedding, tts, asr, image, music}
use llamaswap.Registry.Query.{find}
use llamaswap.Backend.Process.{StopReply}
use llamaswap.Embedding.Ensure.{Embedding, stop}
use llamaswap.Embedding.Laws.{stop-IsDown}
use llamaswap.Embedding.Laws
use llamaswap.Guards.App.{
  App, Stops, unload_chat, unload_tts, unload_asr, unload_image, unload_music,
}
use llamaswap.Guards.Clears.{IsDown, IsSoundApp, down-IsSound, chat_down, servers_down}

unfoldable pub stop_entry : StopReply → Option Embedding → App → App
stop_entry reply none a = a
stop_entry reply (some e) a =
    let (e', w) = stop reply e a.world in record a { embedding = some e'; world = w }

-- `POST /v1/reset`: the image server is unloaded twice.
unfoldable pub reset : Stops → App → App
unfolding stop_entry
reset d a =
    let b = unload_image d.image (
      unload_music d.music
        (unload_image d.image (unload_asr d.asr (unload_tts d.tts (unload_chat d.chat a))))) in
    stop_entry d.embedding b.embedding b

-- The managers of the GPU's servers hold and run nothing.
pub record IsCleared (a : App) : Type 0 where
  pub chat : IsDown a.chat
  pub tts : IsDown a.tts.base
  pub asr : IsDown a.asr.base
  pub image : IsDown a.image.base
  pub music : IsDown a.music.base

unloads_IsCleared :
    (d : Stops) (a : App)
    → IsSoundApp a
    → IsCleared (
        unload_image d.image (
          unload_music d.music
            (unload_image d.image (unload_asr d.asr (unload_tts d.tts (unload_chat d.chat a))))))
unfolding unload_chat unload_tts unload_asr unload_image unload_music
unloads_IsCleared d a h =
    let i = servers_down d.image a.image _ h.image in
    record {
      chat = chat_down _ _ _ h.chat;
      tts = servers_down _ _ _ h.tts;
      asr = servers_down _ _ _ h.asr;
      image = servers_down _ _ _ (down-IsSound _ i);
      music = servers_down _ _ _ h.music;
    }

entry_IsCleared :
    (reply : StopReply) (e : Option Embedding) (a : App)
    → IsCleared a
    → IsCleared (stop_entry reply e a)
unfolding stop_entry
entry_IsCleared reply none a h = h
entry_IsCleared reply (some e) a h = record {
  chat = h.chat;
  tts = h.tts;
  asr = h.asr;
  image = h.image;
  music = h.music;
}

-- What holds of the embedding server, where one is configured.
abbrev pub IsSoundEntry : Option Embedding → Type 0
IsSoundEntry none = Unit
IsSoundEntry (some e) = Laws.IsSound e

abbrev pub IsDownEntry : Option Embedding → Type 0
IsDownEntry none = Unit
IsDownEntry (some e) = Laws.IsDown e

entry_IsDownEntry :
    (reply : StopReply) (e : Option Embedding) (a : App)
    → a.embedding ≡ e
    → IsSoundEntry e
    → IsDownEntry (stop_entry reply e a).embedding
unfolding stop_entry
entry_IsDownEntry reply none a same h = rw same tt
entry_IsDownEntry reply (some e) a same h = stop-IsDown reply e a.world h

embedding_stays :
    (d : Stops) (a : App)
    → (unload_image d.image (
        unload_music d.music (
          unload_image d.image
            (unload_asr d.asr (unload_tts d.tts (unload_chat d.chat a)))))).embedding
      ≡ a.embedding
unfolding unload_chat unload_tts unload_asr unload_image unload_music
embedding_stays d a = refl

-- After a reset no backend process runs and none is taken for a running one: neither the chat LLM
-- nor any on-demand server nor the embedding server.
pub reset-IsCleared :
    (d : Stops) (a : App)
    → IsSoundApp a
    → IsSoundEntry a.embedding
    → IsCleared (reset d a) × IsDownEntry (reset d a).embedding
unfolding reset
reset-IsCleared d a h k =
    let b = unload_image d.image (
      unload_music d.music
        (unload_image d.image (unload_asr d.asr (unload_tts d.tts (unload_chat d.chat a))))) in
    (
      entry_IsCleared d.embedding b.embedding b (unloads_IsCleared d a h),
      entry_IsDownEntry d.embedding b.embedding b refl
          (subst IsSoundEntry (sym (embedding_stays d a)) k),
    )

unfoldable pub unload_embedding : StopReply → String → Option Embedding → App → App × Option ℕ
unload_embedding reply name none a = (a, some 400)
unload_embedding reply name (some e) a =
    if e.config.name == name then (stop_entry reply (some e) a, none) else (a, some 400)

unfoldable pub unload_role : Stops → String → Role → App → App × Option ℕ
unfolding unload_embedding
unload_role d name llm a = (unload_chat d.chat a, none)
unload_role d name embedding a = unload_embedding d.embedding name a.embedding a
unload_role d name tts a = (unload_tts d.tts a, none)
unload_role d name asr a = (unload_asr d.asr a, none)
unload_role d name image a = (unload_image d.image a, none)
unload_role d name music a = (unload_music d.music a, none)

-- `POST /v1/models/{model}/unload`: the status of an error, if it is one.
unfoldable pub unload_model : Stops → String → App → App × Option ℕ
unfolding unload_role
unload_model d name a = elim (find a.registry name) [
  | none ↦ (a, some 404)
  | some cfg ↦ unload_role d name cfg.role a
]

abbrev pub IsRoleDown : Role → App → Type 0
IsRoleDown llm a = IsDown a.chat
IsRoleDown embedding a = IsDownEntry a.embedding
IsRoleDown tts a = IsDown a.tts.base
IsRoleDown asr a = IsDown a.asr.base
IsRoleDown image a = IsDown a.image.base
IsRoleDown music a = IsDown a.music.base

-- What an unload of a role leaves: the role's server down, or an error and nothing changed.
abbrev pub Unloaded : Role → App → App × Option ℕ → Type 0
Unloaded role before (a, none) = IsRoleDown role a
Unloaded role before (a, some status) = (a ≡ before)

embedding_Unloaded :
    (reply : StopReply) (name : String) (e : Option Embedding) (a : App)
    → a.embedding ≡ e
    → IsSoundEntry e
    → Unloaded embedding a (unload_embedding reply name e a)
unfolding unload_embedding
embedding_Unloaded reply name none a same h = refl
embedding_Unloaded reply name (some e) a same h = elim (Bool-cases (e.config.name == name)) [
  | inl mine ↦ rw mine (entry_IsDownEntry reply (some e) a same h)
  | inr other ↦ rw other refl
]

role_Unloaded :
    (d : Stops) (name : String) (role : Role) (a : App)
    → IsSoundApp a
    → IsSoundEntry a.embedding
    → Unloaded role a (unload_role d name role a)
unfolding unload_role unload_chat unload_tts unload_asr unload_image unload_music
role_Unloaded d name llm a h k = chat_down d.chat a.chat a.world h.chat
role_Unloaded d name embedding a h k = embedding_Unloaded d.embedding name a.embedding a refl k
role_Unloaded d name tts a h k = servers_down d.tts a.tts a.world h.tts
role_Unloaded d name asr a h k = servers_down d.asr a.asr a.world h.asr
role_Unloaded d name image a h k = servers_down d.image a.image a.world h.image
role_Unloaded d name music a h k = servers_down d.music a.music a.world h.music

-- An unload of a registered model ends whatever its role's manager runs, unless it answers with an
-- error, and then nothing has changed.
pub unload_model-Unloaded :
    (d : Stops) (name : String) (cfg : ModelConfig) (a : App)
    → find a.registry name ≡ some cfg
    → IsSoundApp a
    → IsSoundEntry a.embedding
    → Unloaded cfg.role a (unload_model d name a)
unfolding unload_model
unload_model-Unloaded d name cfg a found h k =
    rw (found, unload_model) (role_Unloaded d name cfg.role a h k)
