-- ===== src/Guards/Placement.antt =====
-- Which servers may hold the GPU side by side (app/main.py, the guards of the request handlers).
use llamaswap.Base.{◌≡◌, ◌⊎◌, String, true, some, []}
use llamaswap.Registry.Query.{Registry, find, smallest_llm}
use llamaswap.Registry.Config.{ModelConfig}
use llamaswap.Backend.Manager.{Running}
use llamaswap.Guards.App.{App, Settings}
use llamaswap.Guards.Clears.{IsOf}

-- All the guards are on.
pub record IsGuarded (st : Settings) : Type 0 where
  pub blocks_audio : st.block_audio_on_big_llm ≡ true
  pub audio_for_llm : st.unload_audio_on_big_llm ≡ true
  pub on_image : st.unload_on_image ≡ true
  pub image_for_llm : st.unload_image_on_llm ≡ true
  pub image_for_audio : st.unload_image_on_audio ≡ true
  pub on_music : st.unload_on_music ≡ true
  pub music_for_llm : st.unload_music_on_llm ≡ true
  pub music_for_audio : st.unload_music_on_audio ≡ true
  pub image_for_music : st.unload_image_on_music ≡ true

-- No process of the chat LLM runs, or it is this one's.
abbrev pub HasChat : String → App → Type 0
HasChat name a =
    (a.chat.live ≡ []) ⊎ ((cur : Running) × (a.chat.current ≡ some cur) × (cur.config.name ≡ name))

abbrev pub IsQuiet : App → Type 0
IsQuiet a = (a.tts.base.live ≡ []) × (a.asr.base.live ≡ [])

-- Every name files its own config, and the smallest LLM is a model.
pub record IsRegistry (r : Registry) : Type 0 where
  pub named : (name : String) (cfg : ModelConfig) → find r name ≡ some cfg → cfg.name ≡ name
  pub listed : (s : String) → smallest_llm r ≡ some s → (cfg : ModelConfig) × (find r s ≡ some cfg)

-- The image server runs alone, and so does the music server; next to an audio server only the
-- smallest chat LLM runs.
pub record IsPlaced (r : Registry) (st : Settings) (a : App) : Type 0 where
  pub of : IsOf r st a
  pub image : (a.image.base.live ≡ []) ⊎ ((a.chat.live ≡ []) × IsQuiet a × (a.music.base.live ≡ []))
  pub music : (a.music.base.live ≡ []) ⊎ ((a.chat.live ≡ []) × IsQuiet a × (a.image.base.live ≡ []))
  pub audio : (s : String) → smallest_llm r ≡ some s → HasChat s a ⊎ IsQuiet a
