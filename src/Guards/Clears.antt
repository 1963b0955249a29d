-- ===== src/Guards/Clears.antt =====
-- The unloads in front of a load (app/main.py, the guards of the request handlers).
use llamaswap.Base.{
  eq_iff, ◌⊎◌, ◌≡◌, refl, inl, inr, String, Bool, true, false, Option, none, some, [], arith,
  Bool-cases,
}
use llamaswap.Registry.Query.{Registry, smallest_llm}
use llamaswap.Backend.Process.{World, StopReply}
use llamaswap.Backend.Manager.{Manager}
use llamaswap.Backend.Invariant.{IsSound, unload-clears, cleared-IsSound}
use llamaswap.Chat.Ensure.{chat, unload as chat_unload}
use llamaswap.Servers.Ensure.{Servers, flavour, unload as servers_unload}
use llamaswap.Embedding.Ensure.{Embedding, is_running}
use llamaswap.Guards.App.{
  App, Settings, Stops, unload_chat, unload_tts, unload_asr, unload_audio, unload_image,
  unload_music, yield_entry, yield_embedding, when,
}
use llamaswap.Guards.ChatRoute.{big_request, make_room}
use llamaswap.Guards.AudioRoute.{make_room as audio_room}
use llamaswap.Guards.GpuRoutes.{room_for_image, room_for_music}

-- Nothing is loaded and nothing runs.
abbrev pub IsDown : Manager → Type 0
IsDown m = (m.current ≡ none) × (m.live ≡ [])

pub record IsSoundApp (a : App) : Type 0 where
  pub chat : IsSound a.chat
  pub tts : IsSound a.tts.base
  pub asr : IsSound a.asr.base
  pub image : IsSound a.image.base
  pub music : IsSound a.music.base

pub down-IsSound : (m : Manager) → IsDown m → IsSound m
down-IsSound m d = cleared-IsSound m d.0 d.1

pub chat_down :
    (reply : StopReply) (m : Manager) (w : World) → IsSound m → IsDown (chat_unload reply m w).0
unfolding chat_unload
chat_down reply m w h = unload-clears chat reply m w h.lives

pub servers_down :
    (reply : StopReply) (s : Servers) (w : World)
    → IsSound s.base
    → IsDown (servers_unload reply s w).0.base
unfolding servers_unload
servers_down reply s w h = unload-clears (flavour s.role) reply s.base w h.lives

-- In front of a chat load: image and music are cleared, and audio is for a big model.
pub make_room-clears :
    (d : Stops) (model : String) (a : App)
    → a.settings.unload_image_on_llm ≡ true
    → a.settings.unload_music_on_llm ≡ true
    → IsSoundApp a
    → IsDown (make_room d model a).image.base
      × IsDown (make_room d model a).music.base
      × ((make_room d model a).chat ≡ a.chat)
unfolding make_room unload_audio unload_tts unload_asr unload_image unload_music
make_room-clears d model a i m h = elim (Bool-cases (big_request a model)) [
  | inl big ↦ elim (Bool-cases a.settings.unload_on_music) [
    | inl both ↦
        rw (big, i, m, both)
          (
            servers_down _ _ _ h.image,
            servers_down _ _ _ (down-IsSound _ (servers_down _ _ _ h.music)),
            refl,
          )
    | inr audio ↦
        rw (big, i, m, audio) (servers_down _ _ _ h.image, servers_down _ _ _ h.music, refl)
  ]
  | inr small ↦ rw (small, i, m) (servers_down _ _ _ h.image, servers_down _ _ _ h.music, refl)
]

-- In front of a chat load audio is cleared, unless the model is the smallest one.
pub make_room-audio :
    (d : Stops) (model s : String) (a : App)
    → a.settings.unload_audio_on_big_llm ≡ true
    → smallest_llm a.registry ≡ some s
    → IsSoundApp a
    → (model ≡ s) ⊎ (IsDown (make_room d model a).tts.base × IsDown (make_room d model a).asr.base)
unfolding make_room unload_audio unload_tts unload_asr unload_image unload_music
make_room-audio d model s a u p h = elim (Bool-cases (big_request a model)) [
  | inl big ↦ inr (
      ground (
        arith,
        big,
        servers_down d.tts a.tts a.world h.tts,
        servers_down d.asr a.asr (unload_tts d.tts a).world h.asr,
      ))
  | inr small ↦ inl (unfold big_request in ground (arith, eq_iff s model))
]

-- The registry and the settings are these, and every manager is sound.
pub record IsOf (r : Registry) (st : Settings) (a : App) : Type 0 where
  pub registry : a.registry ≡ r
  pub settings : a.settings ≡ st
  pub sound : IsSoundApp a

module _ {r : Registry} {st : Settings} where
  pub unload_chat-IsOf :
      (reply : StopReply) (a : App) → IsOf r st a → IsOf r st (unload_chat reply a)
  unfolding unload_chat
  unload_chat-IsOf reply a h = record {
    registry = h.registry;
    settings = h.settings;
    sound = record {
      chat = down-IsSound _ (chat_down reply a.chat a.world h.sound.chat);
      tts = h.sound.tts;
      asr = h.sound.asr;
      image = h.sound.image;
      music = h.sound.music;
    };
  }

  pub unload_tts-IsOf : (reply : StopReply) (a : App) → IsOf r st a → IsOf r st (unload_tts reply a)
  unfolding unload_tts
  unload_tts-IsOf reply a h = record {
    registry = h.registry;
    settings = h.settings;
    sound = record {
      chat = h.sound.chat;
      tts = down-IsSound _ (servers_down reply a.tts a.world h.sound.tts);
      asr = h.sound.asr;
      image = h.sound.image;
      music = h.sound.music;
    };
  }

  pub unload_asr-IsOf : (reply : StopReply) (a : App) → IsOf r st a → IsOf r st (unload_asr reply a)
  unfolding unload_asr
  unload_asr-IsOf reply a h = record {
    registry = h.registry;
    settings = h.settings;
    sound = record {
      chat = h.sound.chat;
      tts = h.sound.tts;
      asr = down-IsSound _ (servers_down reply a.asr a.world h.sound.asr);
      image = h.sound.image;
      music = h.sound.music;
    };
  }

  pub unload_image-IsOf :
      (reply : StopReply) (a : App) → IsOf r st a → IsOf r st (unload_image reply a)
  unfolding unload_image
  unload_image-IsOf reply a h = record {
    registry = h.registry;
    settings = h.settings;
    sound = record {
      chat = h.sound.chat;
      tts = h.sound.tts;
      asr = h.sound.asr;
      image = down-IsSound _ (servers_down reply a.image a.world h.sound.image);
      music = h.sound.music;
    };
  }

  pub unload_music-IsOf :
      (reply : StopReply) (a : App) → IsOf r st a → IsOf r st (unload_music reply a)
  unfolding unload_music
  unload_music-IsOf reply a h = record {
    registry = h.registry;
    settings = h.settings;
    sound = record {
      chat = h.sound.chat;
      tts = h.sound.tts;
      asr = h.sound.asr;
      image = h.sound.image;
      music = down-IsSound _ (servers_down reply a.music a.world h.sound.music);
    };
  }

  entry-IsOf :
      (reason : String) (reply : StopReply) (e : Option Embedding) (a : App)
      → IsOf r st a
      → IsOf r st (yield_entry reason reply e a)
  unfolding yield_entry
  entry-IsOf reason reply none a h = h
  entry-IsOf reason reply (some e) a h = elim (Bool-cases (is_running e)) [
    | inl up ↦ rw up (record {
      registry = h.registry;
      settings = h.settings;
      sound = record {
        chat = h.sound.chat;
        tts = h.sound.tts;
        asr = h.sound.asr;
        image = h.sound.image;
        music = h.sound.music;
      };
    })
    | inr down ↦ rw down h
  ]

  pub yield_embedding-IsOf :
      (reason : String) (reply : StopReply) (a : App)
      → IsOf r st a
      → IsOf r st (yield_embedding reason reply a)
  unfolding yield_embedding
  yield_embedding-IsOf reason reply a h = entry-IsOf reason reply a.embedding a h

  when-IsOf :
      (b : Bool) (f : App → App) (a : App)
      → ((x : App) → IsOf r st x → IsOf r st (f x))
      → IsOf r st a
      → IsOf r st (when b f a)
  when-IsOf true f a k h = k a h
  when-IsOf false f a k h = h

ruleset room_rules = (
  unload_chat-IsOf, unload_tts-IsOf, unload_asr-IsOf, unload_image-IsOf, unload_music-IsOf,
  yield_embedding-IsOf, when-IsOf,
)

unload_audio-IsOf :
    {r : Registry} {st : Settings} (d : Stops) (a : App)
    → IsOf r st a
    → IsOf r st (unload_audio d a)
unfolding unload_audio
unload_audio-IsOf d a h = search room_rules

-- Making room for a chat model touches neither the registry nor the settings.
pub make_room-IsOf :
    {r : Registry} {st : Settings} (d : Stops) (model : String) (a : App)
    → IsOf r st a
    → IsOf r st (make_room d model a)
unfolding make_room
make_room-IsOf d model a h = search (room_rules, unload_audio-IsOf)

pub audio_room-IsOf :
    {r : Registry} {st : Settings} (d : Stops) (a : App) → IsOf r st a → IsOf r st (audio_room d a)
unfolding audio_room
audio_room-IsOf d a h = search room_rules

pub room_for_image-IsOf :
    {r : Registry} {st : Settings} (d : Stops) (a : App)
    → IsOf r st a
    → IsOf r st (room_for_image d a)
unfolding room_for_image
room_for_image-IsOf d a h = search (room_rules, unload_audio-IsOf)

pub room_for_music-IsOf :
    {r : Registry} {st : Settings} (d : Stops) (a : App)
    → IsOf r st a
    → IsOf r st (room_for_music d a)
unfolding room_for_music
room_for_music-IsOf d a h = search (room_rules, unload_audio-IsOf)

-- In front of an audio load image and music are cleared.
pub audio_room-clears :
    (d : Stops) (a : App)
    → a.settings.unload_image_on_audio ≡ true
    → a.settings.unload_music_on_audio ≡ true
    → IsSoundApp a
    → IsDown (audio_room d a).image.base
      × IsDown (audio_room d a).music.base
      × ((audio_room d a).chat ≡ a.chat)
unfolding audio_room unload_image unload_music
audio_room-clears d a i m h =
    rw (i, m) (servers_down _ _ _ h.image, servers_down _ _ _ h.music, refl)
