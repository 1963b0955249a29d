-- ===== src/Guards/Tests.antt =====
-- A speech server and the small chat model run; the big model is asked for, then speech.
use llamaswap.Base.{
  ◌≡◌, ◌≢◌, ◌↔◌, refl, inl, inr, sym, subst, String, true, false, none, some, List, [], ◌∷◌, get,
  put, ◌∙◌,
}
use llamaswap.Registry.Config.{llm, tts, asr, image, music}
use llamaswap.Registry.Query.{Registry, find, smallest_llm, smallest_of}
use llamaswap.Backend.Process.{exits, wait_rounds}
use llamaswap.Chat.Ensure.{ensure_model, is_healthy, load_reported}
use llamaswap.Servers.Ensure.{is_running, unload as servers_unload}
use llamaswap.Backend.Manager.{unload as manager_unload}
use llamaswap.Guards.App.{
  App, Settings, Stops, Routed, routed, refuses, unload_tts, unload_asr, unload_image, unload_music,
  unload_audio,
}
use llamaswap.Guards.ChatRoute.{
  Attempts, resolve_chat_model, fallback, without_tag, base_name, resolve_known, make_room,
  big_request, substitute, load_chat, retried, answer, relaunches, chat_call,
}
use llamaswap.Guards.AudioRoute.{speech, route_audio}
use llamaswap.Guards.Placement.{IsGuarded, IsRegistry, IsPlaced}
use llamaswap.Guards.Steps.{chats, here, next}
use llamaswap.Guards.Clears.{IsSoundApp}
use llamaswap.Guards.Admin.{
  reset, IsCleared, IsDownEntry, reset-IsCleared, unload_model, Unloaded, unload_model-Unloaded,
}
use llamaswap.Guards.Reached.{Reach-IsPlaced}
use llamaswap.Guards.Refusals.{IsAsked, IsBigLoaded, route_audio-409_iff}
use llamaswap.Registry.Reload.{
  ConfigFile, model_path, reload, check_files, check_file, check_config, filed, registry_of, rank,
  vram_of,
}
use llamaswap.Guards.Loaded.{IsLoaded, reload-IsLoaded}
use llamaswap.Fixtures.{
  config, registry, registry-named, world, launch, fresh, serving, fresh-IsSound, serving-IsSound,
}

abbrev settings : Settings
settings = record {
  audio_vram_guard = true;
  block_audio_on_big_llm = true;
  unload_audio_on_big_llm = true;
  unload_on_image = true;
  unload_image_on_llm = true;
  unload_image_on_audio = true;
  unload_on_music = true;
  unload_music_on_llm = true;
  unload_music_on_audio = true;
  unload_image_on_music = true;
  embedding_auto_start = true;
}

guarded : IsGuarded settings
guarded = record {
  blocks_audio = refl;
  audio_for_llm = refl;
  on_image = refl;
  image_for_llm = refl;
  image_for_audio = refl;
  on_music = refl;
  music_for_llm = refl;
  music_for_audio = refl;
  image_for_music = refl;
}

abbrev app : App
app = record {
  registry = registry;
  settings = settings;
  chat = serving (config "small" llm 9000) 70;
  tts = record { role = tts; configs = []; base = serving (config "voice" tts 9002) 71 };
  asr = record { role = asr; configs = []; base = fresh };
  image = record { role = image; configs = []; base = fresh };
  music = record { role = music; configs = []; base = fresh };
  embedding = none;
  world = world;
}

smallest : smallest_llm registry ≡ some "small"
unfolding smallest_llm smallest_of
smallest = refl

small_is : (s : String) → smallest_llm registry ≡ some s → "small" ≡ s
small_is s e = let p = sym smallest ∙ e in cc

finds_small : find registry "small" ≡ some (config "small" llm 9000)
unfolding find get
finds_small = refl

registry_ok : IsRegistry registry
registry_ok = record {
  named = registry-named;
  listed = λ s e. (
    config "small" llm 9000,
    subst (λ n. find registry n ≡ some (config "small" llm 9000)) (small_is s e) finds_small,
  );
}

placed : IsPlaced registry settings app
placed = record {
  of = record {
    registry = refl;
    settings = refl;
    sound = record {
      chat = serving-IsSound (config "small" llm 9000) 70;
      tts = serving-IsSound (config "voice" tts 9002) 71;
      asr = fresh-IsSound;
      image = fresh-IsSound;
      music = fresh-IsSound;
    };
  };
  image = inl refl;
  music = inl refl;
  audio = λ s e. inl (inr (_, refl, small_is s e));
}

abbrev stops : Stops
stops = record {
  chat = exits;
  tts = exits;
  asr = exits;
  image = exits;
  music = exits;
  music_again = exits;
  embedding = exits;
}

abbrev attempts : Attempts
attempts = record {
  first = record { now = 10; old_stop = exits; launch = launch 80 };
  second = record { now = 20; old_stop = exits; launch = launch 81 };
  now = 30;
  pin = none;
}

abbrev asked : App × Routed
asked = resolve_chat_model stops attempts false (some "big") app

served_big : asked.1 ≡ routed (config "big" llm 9001) 9001 false
unfolding resolve_chat_model fallback without_tag base_name resolve_known make_room big_request
    substitute load_chat retried answer relaunches chat_call smallest_llm smallest_of find get
    ensure_model wait_rounds is_healthy load_reported unload_tts unload_asr unload_image
    unload_music unload_audio servers_unload is_running manager_unload
served_big = refl

no_wait : asked.1 ≢ Routed.waits
no_wait = rw served_big (λ e. cc)

Reach-IsPlaced_example : IsPlaced registry settings asked.0
Reach-IsPlaced_example =
    Reach-IsPlaced registry settings app asked.0 guarded registry_ok placed
      (next here (chats stops attempts false (some "big") no_wait refl))

abbrev big_app : App
big_app = record app { chat = serving (config "big" llm 9001) 80 }

route_audio-409_iff_example :
    (route_audio stops
        (record { now = 40; old_stop = exits; after_wait = none; launch = launch 90 })
        none
        false
        speech
        (some "voice")
        big_app
      ≡ (big_app, refuses 409))
    ↔ (IsAsked false speech (some "voice") big_app × IsBigLoaded big_app)
route_audio-409_iff_example =
    route_audio-409_iff stops
      (record { now = 40; old_stop = exits; after_wait = none; launch = launch 90 }) none false
      speech (some "voice") big_app

-- The song is playing while the embedding server is not configured.
abbrev playing : App
playing = record app {
  music = record { role = music; configs = []; base = serving (config "song" music 9005) 72 };
}

playing-IsSoundApp : IsSoundApp playing
playing-IsSoundApp = record {
  chat = serving-IsSound (config "small" llm 9000) 70;
  tts = serving-IsSound (config "voice" tts 9002) 71;
  asr = fresh-IsSound;
  image = fresh-IsSound;
  music = serving-IsSound (config "song" music 9005) 72;
}

reset-IsCleared_example :
    IsCleared (reset stops playing) × IsDownEntry (reset stops playing).embedding
reset-IsCleared_example = reset-IsCleared stops playing playing-IsSoundApp tt

finds_song : find registry "song" ≡ some (config "song" music 9005)
unfolding find get
finds_song = refl

unload_model-Unloaded_example : Unloaded music playing (unload_model stops "song" playing)
unload_model-Unloaded_example =
    unload_model-Unloaded stops "song" (config "song" music 9005) playing finds_song
      playing-IsSoundApp tt

-- A directory with a chat model and a speech model that declare nothing.
abbrev files : List ConfigFile
files =
    record { file = "small.yaml"; config = some (config "small" llm 9000) }
    ∷ record { file = "voice.yaml"; config = some (config "voice" tts 9002) }
    ∷ []

abbrev empty : Registry
empty = record { models = []; llm_vram = []; warnings = []; degraded = [] }

empty-IsLoaded : IsLoaded empty
unfolding find get smallest_llm smallest_of
empty-IsLoaded = record {
  registry = record { named = λ name cfg h. cc; listed = λ s h. cc };
  formats = λ name cfg h. cc;
  ports = λ one other a b h e same. cc;
}

loads_both :
    (reload (λ binary. true) (λ path. none) (some files) empty).0.models
    ≡ (("small", config "small" llm 9000) ∷ ("voice", config "voice" tts 9002) ∷ [])
unfolding reload check_files check_file check_config filed registry_of rank get put vram_of
    model_path
loads_both = refl

reload-IsLoaded_example : IsLoaded (reload (λ binary. true) (λ path. none) (some files) empty).0
reload-IsLoaded_example =
    reload-IsLoaded (λ binary. true) (λ path. none) (some files) empty empty-IsLoaded
