-- ===== src/Guards/GpuRoutes.antt =====
-- Image and music requests up to the load of their server (app/main.py, `_route_image` and
-- `_route_music`).
use llamaswap.Base.{ℕ, String, Bool, Option, none, some, if◌then◌else◌}
use llamaswap.Registry.Config.{image, music, same_role}
use llamaswap.Registry.Query.{find}
use llamaswap.Servers.Ensure.{Visit, ensure_model}
use llamaswap.Guards.App.{
  App, Stops, unload_chat, unload_audio, unload_image, unload_music, yield_embedding, when, Routed,
  refuses,
}
use llamaswap.Guards.AudioRoute.{default_model, answer, pinned}

-- The unloads in front of an image load.
unfoldable pub room_for_image : Stops → App → App
room_for_image d a =
    when a.settings.unload_on_image
      (λ x.
        when x.settings.unload_on_music (unload_music d.music)
          (yield_embedding "the image model" d.embedding (unload_audio d (unload_chat d.chat x))))
      a

unfoldable pub load_image : Visit → Option ℕ → String → App → App × Routed
load_image v seconds name a =
    let (s, w, r) = ensure_model v a.registry name a.image a.world in
    answer (λ x. record a { image = x; world = w }) (pinned seconds v.now) s r

unfoldable pub route_image : Stops → Visit → Option ℕ → Option String → App → App × Routed
route_image d v seconds model a = elim (default_model image model a) [
  | none ↦ (a, refuses 404)
  | some name ↦ elim (find a.registry name) [
    | none ↦ (a, refuses 404)
    | some cfg ↦
        if same_role cfg.role image
        then load_image v seconds name (room_for_image d a)
        else (a, refuses 400)
  ]
]

-- The unloads in front of a music load.
unfoldable pub room_for_music : Stops → App → App
room_for_music d a =
    when a.settings.unload_on_music
      (λ x. yield_embedding "the music model" d.embedding (
        when x.settings.unload_image_on_music (unload_image d.image)
          (unload_audio d (unload_chat d.chat x))))
      a

unfoldable pub load_music : Visit → Option ℕ → String → App → App × Routed
load_music v seconds name a =
    let (s, w, r) = ensure_model v a.registry name a.music a.world in
    answer (λ x. record a { music = x; world = w }) (pinned seconds v.now) s r

-- `caption`: the body is a JSON object that carries a caption that is not blank.
unfoldable pub route_music : Stops → Visit → Option ℕ → Bool → Option String → App → App × Routed
route_music d v seconds caption model a = elim (default_model music model a) [
  | none ↦ (a, refuses 404)
  | some name ↦ elim (find a.registry name) [
    | none ↦ (a, refuses 404)
    | some cfg ↦
        if same_role cfg.role music
        then if caption then load_music v seconds name (room_for_music d a) else (a, refuses 400)
        else (a, refuses 400)
  ]
]
