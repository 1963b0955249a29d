-- ===== src/Guards/App.antt =====
-- The state of the application and the settings that its guards read (app/main.py, `app.state`,
-- and app/config.py).
use llamaswap.Base.{ℕ, String, Bool, false, Option, none, some, ◌==◌, string_key, if◌then◌else◌}
use llamaswap.Registry.Config.{ModelConfig}
use llamaswap.Registry.Query.{Registry}
use llamaswap.Backend.Process.{World, StopReply}
use llamaswap.Backend.Manager.{Manager}
use llamaswap.Chat.Ensure.{unload as chat_unload}
use llamaswap.Servers.Ensure.{Servers, unload as servers_unload}
use llamaswap.Embedding.Ensure.{Embedding, is_running, stop_for_resources}

pub record Settings : Type 0 where
  pub audio_vram_guard : Bool
  pub block_audio_on_big_llm : Bool
  pub unload_audio_on_big_llm : Bool
  pub unload_on_image : Bool
  pub unload_image_on_llm : Bool
  pub unload_image_on_audio : Bool
  pub unload_on_music : Bool
  pub unload_music_on_llm : Bool
  pub unload_music_on_audio : Bool
  pub unload_image_on_music : Bool
  pub embedding_auto_start : Bool

pub record App : Type 0 where
  pub registry : Registry
  pub settings : Settings
  pub chat : Manager
  pub tts : Servers
  pub asr : Servers
  pub image : Servers
  pub music : Servers
  pub embedding : Option Embedding
  pub world : World

-- The answers to the signals that a request may send.
pub record Stops : Type 0 where
  pub chat : StopReply
  pub tts : StopReply
  pub asr : StopReply
  pub image : StopReply
  pub music : StopReply
  pub music_again : StopReply
  pub embedding : StopReply

unfoldable pub unload_chat : StopReply → App → App
unload_chat reply a =
    let (m, w, had) = chat_unload reply a.chat a.world in record a { chat = m; world = w }

unfoldable pub unload_tts : StopReply → App → App
unload_tts reply a =
    let (s, w, had) = servers_unload reply a.tts a.world in record a { tts = s; world = w }

unfoldable pub unload_asr : StopReply → App → App
unload_asr reply a =
    let (s, w, had) = servers_unload reply a.asr a.world in record a { asr = s; world = w }

unfoldable pub unload_image : StopReply → App → App
unload_image reply a =
    let (s, w, had) = servers_unload reply a.image a.world in record a { image = s; world = w }

unfoldable pub unload_music : StopReply → App → App
unload_music reply a =
    let (s, w, had) = servers_unload reply a.music a.world in record a { music = s; world = w }

unfoldable pub unload_audio : Stops → App → App
unload_audio d a = unload_asr d.asr (unload_tts d.tts a)

-- The embedding server gives way where it is running.
unfoldable pub yield_entry : String → StopReply → Option Embedding → App → App
yield_entry reason reply none a = a
yield_entry reason reply (some e) a =
    if is_running e
    then (let (e', w) = stop_for_resources reason reply e a.world in
        record a { embedding = some e'; world = w })
    else a

unfoldable pub yield_embedding : String → StopReply → App → App
unfolding yield_entry
yield_embedding reason reply a = yield_entry reason reply a.embedding a

-- Where a setting asks for it.
abbrev pub when : Bool → (App → App) → App → App
when b f a = if b then f a else a

abbrev pub same_name : Option String → String → Bool
same_name none name = false
same_name (some s) name = s == name

-- How a request ends: with a status code; with the model it was routed to, and whether the
-- embedding server is brought back in the background; with a cancellation; or not yet.
pub data Routed : Type 0 where
  refuses : ℕ → Routed
  routed : ModelConfig → ℕ → Bool → Routed
  aborted waits : Routed
