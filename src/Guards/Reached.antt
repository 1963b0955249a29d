-- ===== src/Guards/Reached.antt =====
-- The application over its life: the guards of app/main.py, step by step.
use llamaswap.Base.{◌≡◌, refl, ◌∙◌, ap, sym, subst, inl, inr, String, Option}
use llamaswap.Json.{ℤ}
use llamaswap.Registry.Config.{ModelConfig}
use llamaswap.Registry.Query.{Registry}
use llamaswap.Backend.Process.{World}
use llamaswap.Backend.Manager.{exit_current}
use llamaswap.Backend.Invariant.{exit_current-IsSound}
use llamaswap.Embedding.Ensure.{Embedding}
use llamaswap.Guards.App.{App, Settings}
use llamaswap.Guards.Clears.{IsOf, IsSoundApp}
use llamaswap.Guards.Placement.{IsGuarded, IsRegistry, IsPlaced}
use llamaswap.Guards.Steps.{
  Slot, tts, asr, image, music, end_slot, Step, chats, speaks, paints, plays, unloads_chat, unloads,
  chat_ends, ends, embeds, Reach, here, next,
}
use llamaswap.Guards.Shrinks.{
  Shrinks, Shrinks-IsPlaced, exit-Keeps, exit-has, unload_chat-IsPlaced, slot_IsPlaced,
}
use llamaswap.Guards.AfterChat.{chat_IsPlaced}
use llamaswap.Guards.AfterAudio.{audio_IsPlaced}
use llamaswap.Guards.AfterGpu.{image_IsPlaced, music_IsPlaced}

chat_ends-Shrinks :
    (rc : ℤ) (detail : String) (a : App)
    → Shrinks a (record a { chat = exit_current rc detail a.chat })
chat_ends-Shrinks rc detail a = record {
  chat = exit-Keeps rc detail a.chat;
  tts = λ k. k;
  asr = λ k. k;
  image = λ k. k;
  music = λ k. k;
  has = λ s k. elim k [
    | inl down ↦ inl (exit-Keeps rc detail a.chat down)
    | inr (cur, e, n) ↦
        let (c, now, same) = exit-has rc detail a.chat cur e in
        inr (c, now, ap (λ (x : ModelConfig). x.name) same ∙ n)
  ];
}

slot-registry :
    (slot : Slot) (rc : ℤ) (detail : String) (a : App)
    → (end_slot slot rc detail a).registry ≡ a.registry
unfolding end_slot
slot-registry tts rc detail a = refl
slot-registry asr rc detail a = refl
slot-registry image rc detail a = refl
slot-registry music rc detail a = refl

slot-settings :
    (slot : Slot) (rc : ℤ) (detail : String) (a : App)
    → (end_slot slot rc detail a).settings ≡ a.settings
unfolding end_slot
slot-settings tts rc detail a = refl
slot-settings asr rc detail a = refl
slot-settings image rc detail a = refl
slot-settings music rc detail a = refl

slot-IsSoundApp :
    (slot : Slot) (rc : ℤ) (detail : String) (a : App)
    → IsSoundApp a
    → IsSoundApp (end_slot slot rc detail a)
unfolding end_slot
slot-IsSoundApp tts rc detail a h = record {
  chat = h.chat;
  tts = exit_current-IsSound rc detail _ h.tts;
  asr = h.asr;
  image = h.image;
  music = h.music;
}
slot-IsSoundApp asr rc detail a h = record {
  chat = h.chat;
  tts = h.tts;
  asr = exit_current-IsSound rc detail _ h.asr;
  image = h.image;
  music = h.music;
}
slot-IsSoundApp image rc detail a h = record {
  chat = h.chat;
  tts = h.tts;
  asr = h.asr;
  image = exit_current-IsSound rc detail _ h.image;
  music = h.music;
}
slot-IsSoundApp music rc detail a h = record {
  chat = h.chat;
  tts = h.tts;
  asr = h.asr;
  image = h.image;
  music = exit_current-IsSound rc detail _ h.music;
}

slot-Shrinks :
    (slot : Slot) (rc : ℤ) (detail : String) (a : App) → Shrinks a (end_slot slot rc detail a)
unfolding end_slot
slot-Shrinks tts rc detail a = record {
  chat = λ k. k;
  tts = exit-Keeps rc detail _;
  asr = λ k. k;
  image = λ k. k;
  music = λ k. k;
  has = λ s k. k;
}
slot-Shrinks asr rc detail a = record {
  chat = λ k. k;
  tts = λ k. k;
  asr = exit-Keeps rc detail _;
  image = λ k. k;
  music = λ k. k;
  has = λ s k. k;
}
slot-Shrinks image rc detail a = record {
  chat = λ k. k;
  tts = λ k. k;
  asr = λ k. k;
  image = exit-Keeps rc detail _;
  music = λ k. k;
  has = λ s k. k;
}
slot-Shrinks music rc detail a = record {
  chat = λ k. k;
  tts = λ k. k;
  asr = λ k. k;
  image = λ k. k;
  music = exit-Keeps rc detail _;
  has = λ s k. k;
}

module _ {r : Registry} {st : Settings} where
  chat_ends_IsPlaced :
      (rc : ℤ) (detail : String) (a : App)
      → IsPlaced r st a
      → IsPlaced r st (record a { chat = exit_current rc detail a.chat })
  chat_ends_IsPlaced rc detail a h =
      Shrinks-IsPlaced a (record a { chat = exit_current rc detail a.chat })
        (chat_ends-Shrinks rc detail a)
        (record {
          registry = h.of.registry;
          settings = h.of.settings;
          sound = record {
            chat = exit_current-IsSound rc detail a.chat h.of.sound.chat;
            tts = h.of.sound.tts;
            asr = h.of.sound.asr;
            image = h.of.sound.image;
            music = h.of.sound.music;
          };
        })
        h

  slot-IsOf :
      (slot : Slot) (rc : ℤ) (detail : String) (a : App)
      → IsOf r st a
      → IsOf r st (end_slot slot rc detail a)
  slot-IsOf slot rc detail a h = record {
    registry = slot-registry slot rc detail a ∙ h.registry;
    settings = slot-settings slot rc detail a ∙ h.settings;
    sound = slot-IsSoundApp slot rc detail a h.sound;
  }

  embeds_IsPlaced :
      (e : Option Embedding) (w : World) (a : App)
      → IsPlaced r st a
      → IsPlaced r st (record a { embedding = e; world = w })
  embeds_IsPlaced e w a h =
      Shrinks-IsPlaced a (record a { embedding = e; world = w })
        (record {
          chat = λ k. k;
          tts = λ k. k;
          asr = λ k. k;
          image = λ k. k;
          music = λ k. k;
          has = λ s k. k;
        })
        (record {
          registry = h.of.registry;
          settings = h.of.settings;
          sound = record {
            chat = h.of.sound.chat;
            tts = h.of.sound.tts;
            asr = h.of.sound.asr;
            image = h.of.sound.image;
            music = h.of.sound.music;
          };
        })
        h

  pub Step-IsPlaced :
      IsGuarded st → IsRegistry r → (a b : App) → Step a b → IsPlaced r st a → IsPlaced r st b
  Step-IsPlaced g l a b (chats d t q m n e) h =
      subst (IsPlaced r st) (sym e) (chat_IsPlaced g l d t q m a h n)
  Step-IsPlaced g l a b (speaks d v s x role m n e) h =
      subst (IsPlaced r st) (sym e) (audio_IsPlaced g d v s x role m a h n)
  Step-IsPlaced g l a b (paints d v s m n e) h =
      subst (IsPlaced r st) (sym e) (image_IsPlaced g d v s m a h n)
  Step-IsPlaced g l a b (plays d v s c m n e) h =
      subst (IsPlaced r st) (sym e) (music_IsPlaced g d v s c m a h n)
  Step-IsPlaced g l a b (unloads_chat reply e) h =
      subst (IsPlaced r st) (sym e) (unload_chat-IsPlaced reply a h)
  Step-IsPlaced g l a b (unloads slot reply e) h =
      subst (IsPlaced r st) (sym e) (slot_IsPlaced slot reply a h)
  Step-IsPlaced g l a b (chat_ends rc detail e) h =
      subst (IsPlaced r st) (sym e) (chat_ends_IsPlaced rc detail a h)
  Step-IsPlaced g l a b (ends slot rc detail e) h = subst (IsPlaced r st) (sym e) (
      Shrinks-IsPlaced a (end_slot slot rc detail a) (slot-Shrinks slot rc detail a)
        (slot-IsOf slot rc detail a h.of) h)
  Step-IsPlaced g l a b (embeds x w e) h = subst (IsPlaced r st) (sym e) (embeds_IsPlaced x w a h)

-- With all guards on, in whatever order requests, unloads and the ends of backends follow one
-- another, the servers stay placed: the image server's process runs beside none of the chat, audio
-- and music servers', the music server's runs alone among them too, and beside an audio server
-- runs no chat LLM but the smallest.
pub Reach-IsPlaced :
    (r : Registry) (st : Settings) (start a : App)
    → IsGuarded st
    → IsRegistry r
    → IsPlaced r st start
    → Reach start a
    → IsPlaced r st a
Reach-IsPlaced r st start a g l h here = h
Reach-IsPlaced r st start a g l h (next {a = m} p s) =
    Step-IsPlaced g l m a s (Reach-IsPlaced r st start m g l h p)
