-- ===== src/Guards/Steps.antt =====
-- The application over its life: a step for each request, unload and end of a backend.
use llamaswap.Base.{ℕ, ◌≡◌, ◌≢◌, String, Bool, Option}
use llamaswap.Json.{ℤ}
use llamaswap.Backend.Process.{World, StopReply}
use llamaswap.Backend.Manager.{exit_current}
use llamaswap.Servers.Ensure.{Servers, Visit}
use llamaswap.Embedding.Ensure.{Embedding}
use llamaswap.Guards.App.{
  App, Stops, Routed, unload_chat, unload_tts, unload_asr, unload_image, unload_music,
}
use llamaswap.Guards.ChatRoute.{Attempts, resolve_chat_model}
use llamaswap.Guards.AudioRoute.{Audio, route_audio}
use llamaswap.Guards.GpuRoutes.{route_image, route_music}

-- Which of the on-demand servers a step is about.
pub data Slot : Type 0 where
  tts asr image music : Slot

unfoldable pub unload_slot : Slot → StopReply → App → App
unload_slot tts reply a = unload_tts reply a
unload_slot asr reply a = unload_asr reply a
unload_slot image reply a = unload_image reply a
unload_slot music reply a = unload_music reply a

abbrev pub end_server : ℤ → String → Servers → Servers
end_server rc detail s = record s { base = exit_current rc detail s.base }

-- The server of a role ends by itself.
unfoldable pub end_slot : Slot → ℤ → String → App → App
end_slot tts rc detail a = record a { tts = end_server rc detail a.tts }
end_slot asr rc detail a = record a { asr = end_server rc detail a.asr }
end_slot image rc detail a = record a { image = end_server rc detail a.image }
end_slot music rc detail a = record a { music = end_server rc detail a.music }

-- Requests follow one another here: a request whose load has not ended is no step. `embeds` is
-- anything that happens to the embedding server.
pub data Step (a b : App) : Type 0 where
  chats :
      (d : Stops) (t : Attempts) (require_model : Bool) (model : Option String)
      → (resolve_chat_model d t require_model model a).1 ≢ Routed.waits
      → b ≡ (resolve_chat_model d t require_model model a).0
      → Step a b
  speaks :
      (d : Stops) (v : Visit) (seconds : Option ℕ) (expect_body_model : Bool) (role : Audio)
      (model : Option String)
      → (route_audio d v seconds expect_body_model role model a).1 ≢ Routed.waits
      → b ≡ (route_audio d v seconds expect_body_model role model a).0
      → Step a b
  paints :
      (d : Stops) (v : Visit) (seconds : Option ℕ) (model : Option String)
      → (route_image d v seconds model a).1 ≢ Routed.waits
      → b ≡ (route_image d v seconds model a).0
      → Step a b
  plays :
      (d : Stops) (v : Visit) (seconds : Option ℕ) (caption : Bool) (model : Option String)
      → (route_music d v seconds caption model a).1 ≢ Routed.waits
      → b ≡ (route_music d v seconds caption model a).0
      → Step a b
  unloads_chat : (reply : StopReply) → b ≡ unload_chat reply a → Step a b
  unloads : (slot : Slot) (reply : StopReply) → b ≡ unload_slot slot reply a → Step a b
  chat_ends :
      (rc : ℤ) (detail : String) → b ≡ record a { chat = exit_current rc detail a.chat } → Step a b
  ends : (slot : Slot) (rc : ℤ) (detail : String) → b ≡ end_slot slot rc detail a → Step a b
  embeds : (e : Option Embedding) (w : World) → b ≡ record a { embedding = e; world = w } → Step a b

pub data Reach (start : App) : App → Type 0 where
  here : Reach start start
  next : {a b : App} → Reach start a → Step a b → Reach start b
