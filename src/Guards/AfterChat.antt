-- ===== src/Guards/AfterChat.antt =====
-- The servers after a chat request (app/main.py, `_resolve_chat_model`).
use llamaswap.Base.{
  ◌≡◌, ◌≢◌, ◌⊎◌, ◌∙◌, sym, ap, subst, inl, inr, String, Bool, Option, some, ◌&&◌, Bool-cases,
  Option-cases,
}
use llamaswap.Registry.Config.{ModelConfig, llm, same_role}
use llamaswap.Registry.Query.{Registry, find, smallest_llm}
use llamaswap.Backend.Invariant.{IsSound}
use llamaswap.Servers.Ensure.{Servers, is_running}
use llamaswap.Chat.Laws.{IsNamed}
use llamaswap.Guards.App.{App, Settings, Stops, Routed}
use llamaswap.Guards.ChatRoute.{
  Attempts, load_chat, make_room, substitute, resolve_known, resolve_chat_model, without_tag,
  fallback,
}
use llamaswap.Guards.Clears.{make_room-clears, make_room-audio, make_room-IsOf}
use llamaswap.Guards.Placement.{IsGuarded, IsRegistry, HasChat, IsPlaced}
use llamaswap.Guards.ChatPlaced.{Placed, load-Placed}

-- The model that is loaded is a model, and the smallest one where the one asked for is.
substitute-cases :
    (a : App) (model : String)
    → (substitute a model ≡ model) ⊎ (smallest_llm a.registry ≡ some (substitute a model))
unfolding substitute
substitute-cases a model =
    elim (Bool-cases (a.settings.audio_vram_guard && (is_running a.tts && is_running a.asr))) [
      | inl guards ↦ elim (Option-cases (smallest_llm a.registry)) [
        | inl alone ↦ inl (rw (guards, alone, substitute))
        | inr (s, p) ↦ inr (rw (guards, p, substitute))
      ]
      | inr free ↦ inl (rw free)
    ]

module _ {r : Registry} {st : Settings} (g : IsGuarded st) (l : IsRegistry r) where
  substitute-known :
      (a : App) (model : String) (cfg : ModelConfig)
      → a.registry ≡ r
      → find r model ≡ some cfg
      → (c : ModelConfig) × (find r (substitute a model) ≡ some c)
  substitute-known a model cfg e found = elim (substitute-cases a model) [
    | inl same ↦ (cfg, rw same found)
    | inr least ↦ l.listed (substitute a model) (sym (ap smallest_llm e) ∙ least)
  ]

  chosen :
      (a : App) (model : String)
      → a.registry ≡ r
      → (substitute a model ≡ model) ⊎ (smallest_llm r ≡ some (substitute a model))
  chosen a model e = elim (substitute-cases a model) [
    | inl same ↦ inl same
    | inr least ↦ inr (sym (ap smallest_llm e) ∙ least)
  ]

  name_is :
      (name model s : String)
      → (name ≡ model) ⊎ (smallest_llm r ≡ some name)
      → smallest_llm r ≡ some s
      → model ≡ s
      → name ≡ s
  name_is name model s (inl same) e asked = same ∙ asked
  name_is name model s (inr least) e asked = cc

  loaded_IsPlaced :
      (d : Stops) (model name : String) (a b : App)
      → IsPlaced r st a
      → ((name ≡ model) ⊎ (smallest_llm r ≡ some name))
      → Placed name (make_room d model a) b
      → IsPlaced r st b
  loaded_IsPlaced d model name a b h m (same, sound, has) =
      let of = make_room-IsOf d model a h.of in
      let (image, music, chat) =
        make_room-clears d model a
          (ap (λ (x : Settings). x.unload_image_on_llm) h.of.settings ∙ g.image_for_llm)
          (ap (λ (x : Settings). x.unload_music_on_llm) h.of.settings ∙ g.music_for_llm)
          h.of.sound in
      record {
        of = record {
          registry = same.registry ∙ of.registry;
          settings = same.settings ∙ of.settings;
          sound = record {
            chat = sound;
            tts = subst (λ (x : Servers). IsSound x.base) (sym same.tts) of.sound.tts;
            asr = subst (λ (x : Servers). IsSound x.base) (sym same.asr) of.sound.asr;
            image = subst (λ (x : Servers). IsSound x.base) (sym same.image) of.sound.image;
            music = subst (λ (x : Servers). IsSound x.base) (sym same.music) of.sound.music;
          };
        };
        image = inl (ap (λ (x : Servers). x.base.live) same.image ∙ image.1);
        music = inl (ap (λ (x : Servers). x.base.live) same.music ∙ music.1);
        audio = λ s e.
            elim (make_room-audio d model s a
              (ap (λ (x : Settings). x.unload_audio_on_big_llm) h.of.settings ∙ g.audio_for_llm)
              (ap smallest_llm h.of.registry ∙ e) h.of.sound) [
                | inl asked ↦ inl (subst (λ x. HasChat x b) (name_is name model s m e asked) has)
                | inr (t, q) ↦ inr (
                  ap (λ (x : Servers). x.base.live) same.tts ∙ t.1,
                  ap (λ (x : Servers). x.base.live) same.asr ∙ q.1,
                )
              ];
      }

  known_IsPlaced :
      (d : Stops) (t : Attempts) (name : String) (cfg : ModelConfig) (a : App)
      → find r name ≡ some cfg
      → IsPlaced r st a
      → (resolve_known d t name cfg a).1 ≢ Routed.waits
      → IsPlaced r st (resolve_known d t name cfg a).0
  unfolding resolve_known
  known_IsPlaced d t name cfg a found h n = elim (Bool-cases (same_role cfg.role llm)) [
    | inr other ↦ rw other h
    | inl chats ↦
        let a' = make_room d name a in
        let of = make_room-IsOf d name a h.of in
        let (c, known) = substitute-known a' name cfg of.registry found in
        rw chats (
          loaded_IsPlaced d name (substitute a' name) a (load_chat d t (substitute a' name) a').0 h
            (chosen a' name of.registry)
            (load-Placed d t (substitute a' name) c a'
              (subst (λ x. IsNamed x) (sym of.registry) l.named)
              (ap (λ x. find x (substitute a' name)) of.registry ∙ known) of.sound.chat
              (rw chats at n)))
  ]

  -- A chat request that has ended keeps the servers placed.
  pub chat_IsPlaced :
      (d : Stops) (t : Attempts) (require_model : Bool) (model : Option String) (a : App)
      → IsPlaced r st a
      → (resolve_chat_model d t require_model model a).1 ≢ Routed.waits
      → IsPlaced r st (resolve_chat_model d t require_model model a).0
  unfolding resolve_chat_model
  chat_IsPlaced d t require_model model a h n =
      elim (Option-cases (fallback require_model model a)) [
        | inl missing ↦ rw (missing, resolve_chat_model) h
        | inr (asked, some_name) ↦
            elim (Option-cases (find a.registry (without_tag a.registry asked))) [
              | inl unlisted ↦ rw (some_name, resolve_chat_model) (rw unlisted h)
              | inr (cfg, found) ↦
                  rw (some_name, resolve_chat_model)
                    (rw found (
                      known_IsPlaced d t (without_tag a.registry asked) cfg a
                        (sym (ap (λ x. find x (without_tag a.registry asked)) h.of.registry)
                          ∙ found)
                        h (rw (some_name, resolve_chat_model, found) at n)))
            ]
      ]
