-- ===== src/Guards/Emptied.antt =====
-- The unloads in front of an image or a music load (app/main.py).
use llamaswap.Base.{◌≡◌, refl, subst, sym, inl, inr, String, true, Option, none, some, Bool-cases}
use llamaswap.Backend.Process.{StopReply}
use llamaswap.Backend.Invariant.{IsSound}
use llamaswap.Embedding.Ensure.{Embedding, is_running}
use llamaswap.Servers.Ensure.{Servers}
use llamaswap.Guards.App.{
  App, Stops, unload_chat, unload_tts, unload_asr, unload_audio, unload_image, unload_music,
  yield_entry, yield_embedding,
}
use llamaswap.Guards.GpuRoutes.{room_for_image, room_for_music}
use llamaswap.Guards.Clears.{IsDown, IsSoundApp, chat_down, servers_down}

-- Chat and audio are down; image and music are as they were.
record IsEmptied (a x : App) : Type 0 where
  chat : IsDown x.chat
  tts : IsDown x.tts.base
  asr : IsDown x.asr.base
  image : x.image ≡ a.image
  music : x.music ≡ a.music

emptied : (d : Stops) (a : App) → IsSoundApp a → IsEmptied a (unload_audio d (unload_chat d.chat a))
unfolding unload_audio unload_chat unload_tts unload_asr
emptied d a h = record {
  chat = chat_down _ _ _ h.chat;
  tts = servers_down _ _ _ h.tts;
  asr = servers_down _ _ _ h.asr;
  image = refl;
  music = refl;
}

entry-IsEmptied :
    (reason : String) (reply : StopReply) (e : Option Embedding) (a x : App)
    → IsEmptied a x
    → IsEmptied a (yield_entry reason reply e x)
unfolding yield_entry
entry-IsEmptied reason reply none a x h = h
entry-IsEmptied reason reply (some e) a x h = elim (Bool-cases (is_running e)) [
  | inl runs ↦
      rw runs (record { chat = h.chat; tts = h.tts; asr = h.asr; image = h.image; music = h.music })
  | inr down ↦ rw down h
]

yield-IsEmptied :
    (reason : String) (reply : StopReply) (a x : App)
    → IsEmptied a x
    → IsEmptied a (yield_embedding reason reply x)
unfolding yield_embedding
yield-IsEmptied reason reply a x h = entry-IsEmptied reason reply x.embedding a x h

room_for_image-all :
    (d : Stops) (a : App)
    → a.settings.unload_on_image ≡ true
    → a.settings.unload_on_music ≡ true
    → room_for_image d a
      ≡ unload_music d.music
          (yield_embedding "the image model" d.embedding (unload_audio d (unload_chat d.chat a)))
unfolding room_for_image
room_for_image-all d a i m = cc

room_for_music-all :
    (d : Stops) (a : App)
    → a.settings.unload_on_music ≡ true
    → a.settings.unload_image_on_music ≡ true
    → room_for_music d a
      ≡ yield_embedding "the music model" d.embedding
          (unload_image d.image (unload_audio d (unload_chat d.chat a)))
unfolding room_for_music
room_for_music-all d a m i = cc

-- In front of an image load everything else but the embedding server is cleared.
pub room_for_image-clears :
    (d : Stops) (a : App)
    → a.settings.unload_on_image ≡ true
    → a.settings.unload_on_music ≡ true
    → IsSoundApp a
    → IsDown (room_for_image d a).chat
      × IsDown (room_for_image d a).tts.base
      × IsDown (room_for_image d a).asr.base
      × IsDown (room_for_image d a).music.base
room_for_image-clears d a i m h =
    let y = yield-IsEmptied "the image model" d.embedding a _ (emptied d a h) in
    rw (room_for_image-all d a i m) (
      unfold unload_music in
      (
        y.chat,
        y.tts,
        y.asr,
        servers_down _ _ _ (subst (λ (x : Servers). IsSound x.base) (sym y.music) h.music),
      ))

imaged :
    (d : Stops) (a : App)
    → IsSoundApp a
    → (let b = unload_image d.image (unload_audio d (unload_chat d.chat a)) in
        IsEmptied b b × IsDown b.image.base)
unfolding unload_image
imaged d a h =
    let e = emptied d a h in
    (
      record { chat = e.chat; tts = e.tts; asr = e.asr; image = refl; music = refl },
      servers_down _ _ _ (subst (λ (x : Servers). IsSound x.base) (sym e.image) h.image),
    )

-- So it is in front of a music load.
pub room_for_music-clears :
    (d : Stops) (a : App)
    → a.settings.unload_on_music ≡ true
    → a.settings.unload_image_on_music ≡ true
    → IsSoundApp a
    → IsDown (room_for_music d a).chat
      × IsDown (room_for_music d a).tts.base
      × IsDown (room_for_music d a).asr.base
      × IsDown (room_for_music d a).image.base
room_for_music-clears d a m i h =
    let b = unload_image d.image (unload_audio d (unload_chat d.chat a)) in
    let (e, down) = imaged d a h in
    let y = yield-IsEmptied "the music model" d.embedding b b e in
    rw (room_for_music-all d a m i)
      (y.chat, y.tts, y.asr, subst (λ (x : Servers). IsDown x.base) (sym y.image) down)
