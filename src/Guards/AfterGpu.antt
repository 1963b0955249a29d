-- ===== src/Guards/AfterGpu.antt =====
-- The servers after an image or a music request (app/main.py, `_route_image`, `_route_music`).
use llamaswap.Base.{ℕ, ◌≢◌, ◌∙◌, ap, inl, inr, String, Bool, Option, Bool-cases, Option-cases}
use llamaswap.Registry.Config.{image, music, same_role}
use llamaswap.Registry.Query.{Registry, find}
use llamaswap.Backend.Process.{World}
use llamaswap.Backend.Invariant.{IsSound}
use llamaswap.Servers.Ensure.{Servers, Visit, ensure_model}
use llamaswap.Servers.Laws.{ensure_model-IsSound}
use llamaswap.Guards.App.{App, Settings, Stops, Routed}
use llamaswap.Guards.AudioRoute.{default_model, pinned}
use llamaswap.Guards.GpuRoutes.{
  room_for_image, load_image, route_image, room_for_music, load_music, route_music,
}
use llamaswap.Guards.Clears.{room_for_image-IsOf, room_for_music-IsOf}
use llamaswap.Guards.Emptied.{room_for_image-clears, room_for_music-clears}
use llamaswap.Guards.Placement.{IsGuarded, IsPlaced}
use llamaswap.Guards.AfterAudio.{answer-keeps, pinned-IsSound}

module _ {r : Registry} {st : Settings} (g : IsGuarded st) where
  -- A sound manager for images, on what is left in front of an image load.
  image_put :
      (d : Stops) (a : App) (w : World) (x : Servers)
      → IsPlaced r st a
      → IsSound x.base
      → IsPlaced r st (record (room_for_image d a) { image = x; world = w })
  image_put d a w x h s =
      let of = room_for_image-IsOf d a h.of in
      let (c, t, q, m) =
        room_for_image-clears d a
          (ap (λ (y : Settings). y.unload_on_image) h.of.settings ∙ g.on_image)
          (ap (λ (y : Settings). y.unload_on_music) h.of.settings ∙ g.on_music) h.of.sound in
      record {
        of = record {
          registry = of.registry;
          settings = of.settings;
          sound = record {
            chat = of.sound.chat;
            tts = of.sound.tts;
            asr = of.sound.asr;
            image = s;
            music = of.sound.music;
          };
        };
        image = inr (c.1, (t.1, q.1), m.1);
        music = inl m.1;
        audio = λ n e. inr (t.1, q.1);
      }

  music_put :
      (d : Stops) (a : App) (w : World) (x : Servers)
      → IsPlaced r st a
      → IsSound x.base
      → IsPlaced r st (record (room_for_music d a) { music = x; world = w })
  music_put d a w x h s =
      let of = room_for_music-IsOf d a h.of in
      let (c, t, q, i) =
        room_for_music-clears d a
          (ap (λ (y : Settings). y.unload_on_music) h.of.settings ∙ g.on_music)
          (ap (λ (y : Settings). y.unload_image_on_music) h.of.settings ∙ g.image_for_music)
          h.of.sound in
      record {
        of = record {
          registry = of.registry;
          settings = of.settings;
          sound = record {
            chat = of.sound.chat;
            tts = of.sound.tts;
            asr = of.sound.asr;
            image = of.sound.image;
            music = s;
          };
        };
        image = inl i.1;
        music = inr (c.1, (t.1, q.1), i.1);
        audio = λ n e. inr (t.1, q.1);
      }

  load_image-IsPlaced :
      (d : Stops) (v : Visit) (seconds : Option ℕ) (name : String) (a : App)
      → IsPlaced r st a
      → (load_image v seconds name (room_for_image d a)).1 ≢ Routed.waits
      → IsPlaced r st (load_image v seconds name (room_for_image d a)).0
  unfolding load_image
  load_image-IsPlaced d v seconds name a h n =
      let b = room_for_image d a in
      let c = ensure_model v b.registry name b.image b.world in
      let of = room_for_image-IsOf d a h.of in
      answer-keeps (IsPlaced r st) (λ x. record b { image = x; world = c.1 }) (pinned seconds v.now)
        c.0 c.2 (λ x s. image_put d a c.1 x h s) (pinned-IsSound seconds v.now c.0)
        (ensure_model-IsSound v b.registry name b.image b.world of.sound.image) n

  load_music-IsPlaced :
      (d : Stops) (v : Visit) (seconds : Option ℕ) (name : String) (a : App)
      → IsPlaced r st a
      → (load_music v seconds name (room_for_music d a)).1 ≢ Routed.waits
      → IsPlaced r st (load_music v seconds name (room_for_music d a)).0
  unfolding load_music
  load_music-IsPlaced d v seconds name a h n =
      let b = room_for_music d a in
      let c = ensure_model v b.registry name b.music b.world in
      let of = room_for_music-IsOf d a h.of in
      answer-keeps (IsPlaced r st) (λ x. record b { music = x; world = c.1 }) (pinned seconds v.now)
        c.0 c.2 (λ x s. music_put d a c.1 x h s) (pinned-IsSound seconds v.now c.0)
        (ensure_model-IsSound v b.registry name b.music b.world of.sound.music) n

  -- An image request that has ended keeps the servers placed.
  pub image_IsPlaced :
      (d : Stops) (v : Visit) (seconds : Option ℕ) (model : Option String) (a : App)
      → IsPlaced r st a
      → (route_image d v seconds model a).1 ≢ Routed.waits
      → IsPlaced r st (route_image d v seconds model a).0
  unfolding route_image
  image_IsPlaced d v seconds model a h n = elim (Option-cases (default_model image model a)) [
    | inl no_model ↦ rw (no_model, route_image) h
    | inr (name, chosen) ↦ elim (Option-cases (find a.registry name)) [
      | inl missing ↦ rw (chosen, route_image) (rw missing h)
      | inr (cfg, found) ↦ elim (Bool-cases (same_role cfg.role image)) [
        | inr other ↦ rw (chosen, route_image) (rw found (rw other h))
        | inl mine ↦
            rw (chosen, route_image)
              (rw found (
                rw mine (
                  load_image-IsPlaced d v seconds name a h
                    (rw (chosen, route_image, found, mine) at n))))
      ]
    ]
  ]

  -- So does a music request.
  pub music_IsPlaced :
      (d : Stops) (v : Visit) (seconds : Option ℕ) (caption : Bool) (model : Option String)
      (a : App)
      → IsPlaced r st a
      → (route_music d v seconds caption model a).1 ≢ Routed.waits
      → IsPlaced r st (route_music d v seconds caption model a).0
  unfolding route_music
  music_IsPlaced d v seconds caption model a h n =
      elim (Option-cases (default_model music model a)) [
        | inl no_model ↦ rw (no_model, route_music) h
        | inr (name, chosen) ↦ elim (Option-cases (find a.registry name)) [
          | inl missing ↦ rw (chosen, route_music) (rw missing h)
          | inr (cfg, found) ↦ elim (Bool-cases (same_role cfg.role music)) [
            | inr other ↦ rw (chosen, route_music) (rw found (rw other h))
            | inl mine ↦ elim (Bool-cases caption) [
              | inr none_given ↦ rw (chosen, route_music) (rw found (rw (mine, none_given) h))
              | inl given ↦
                  rw (chosen, route_music)
                    (rw found (
                      rw (mine, given)
                        (load_music-IsPlaced d v seconds name a h
                          (rw (chosen, route_music, found, mine, given) at n))))
            ]
          ]
        ]
      ]
