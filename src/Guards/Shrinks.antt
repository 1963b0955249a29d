-- ===== src/Guards/Shrinks.antt =====
-- The application after an unload or the end of a backend (app/main.py).
use llamaswap.Base.{
  ◌≡◌, ◌⊎◌, refl, inl, inr, String, Option, none, some, [], Bool-cases, ◌&&◌, is_some,
}
use llamaswap.Json.{ℤ}
use llamaswap.Registry.Query.{Registry}
use llamaswap.Backend.Process.{StopReply, is_ready, unexpected}
use llamaswap.Backend.Manager.{Running, Manager, exit_current, exit_entry, on_exit}
use llamaswap.Guards.App.{
  App, Settings, unload_chat, unload_tts, unload_asr, unload_image, unload_music,
}
use llamaswap.Guards.Clears.{
  IsOf, IsDown, chat_down, servers_down, unload_chat-IsOf, unload_tts-IsOf, unload_asr-IsOf,
  unload_image-IsOf, unload_music-IsOf,
}
use llamaswap.Guards.Placement.{HasChat, IsQuiet, IsPlaced}
use llamaswap.Guards.Steps.{Slot, tts, asr, image, music, unload_slot}

-- What is down in one application is down in another.
abbrev Keeps : Manager → Manager → Type 0
Keeps m n = m.live ≡ [] → n.live ≡ []

-- Where every server that was down stays down, and the chat server is still the one it was.
pub record Shrinks (a b : App) : Type 0 where
  pub chat : Keeps a.chat b.chat
  pub tts : Keeps a.tts.base b.tts.base
  pub asr : Keeps a.asr.base b.asr.base
  pub image : Keeps a.image.base b.image.base
  pub music : Keeps a.music.base b.music.base
  pub has : (s : String) → HasChat s a → HasChat s b

Shrinks-alone :
    {a b : App} (m n m' n' : Manager)
    → Shrinks a b
    → Keeps m m'
    → Keeps n n'
    → ((m.live ≡ []) ⊎ ((a.chat.live ≡ []) × IsQuiet a × (n.live ≡ [])))
    → (m'.live ≡ []) ⊎ ((b.chat.live ≡ []) × IsQuiet b × (n'.live ≡ []))
Shrinks-alone m n m' n' s k l (inl down) = inl (k down)
Shrinks-alone m n m' n' s k l (inr (c, (t, q), o)) = inr (s.chat c, (s.tts t, s.asr q), l o)

pub Shrinks-IsPlaced :
    {r : Registry} {st : Settings} (a b : App)
    → Shrinks a b
    → IsOf r st b
    → IsPlaced r st a
    → IsPlaced r st b
Shrinks-IsPlaced a b s of h = record {
  of = of;
  image =
      Shrinks-alone a.image.base a.music.base b.image.base b.music.base s s.image s.music h.image;
  music =
      Shrinks-alone a.music.base a.image.base b.music.base b.image.base s s.music s.image h.music;
  audio = λ n e. elim (h.audio n e) [
    | inl has ↦ inl (s.has n has)
    | inr (t, q) ↦ inr (s.tts t, s.asr q)
  ];
}

entry-Keeps :
    (rc : ℤ) (detail : String) (c : Option Running) (m : Manager)
    → Keeps m (exit_entry rc detail c m)
unfolding exit_entry
entry-Keeps rc detail none m h = h
entry-Keeps rc detail (some cur) m h = elim (Bool-cases (is_some cur.process.returncode)) [
  | inl dead ↦ rw dead h
  | inr alive ↦ rw alive (rw h refl)
]

pub exit-Keeps : (rc : ℤ) (detail : String) (m : Manager) → Keeps m (exit_current rc detail m)
unfolding exit_current
exit-Keeps rc detail m = entry-Keeps rc detail m.current m

exit-config :
    (rc : ℤ) (detail : String) (cur : Running) → (on_exit rc detail cur).config ≡ cur.config
unfolding on_exit
exit-config rc detail cur = elim (Bool-cases (is_ready cur.state && unexpected rc)) [
  | inl fails ↦ rw fails refl
  | inr ends_well ↦ rw ends_well refl
]

pub exit-has :
    (rc : ℤ) (detail : String) (m : Manager) (cur : Running)
    → m.current ≡ some cur
    → (c : Running) × ((exit_current rc detail m).current ≡ some c) × (c.config ≡ cur.config)
unfolding exit_current exit_entry
exit-has rc detail m cur e = elim (Bool-cases (is_some cur.process.returncode)) [
  | inl dead ↦ (cur, rw (e, exit_entry) (rw dead refl), refl)
  | inr alive ↦
      (on_exit rc detail cur, rw (e, exit_entry) (rw alive refl), exit-config rc detail cur)
]

module _ {r : Registry} {st : Settings} where
  pub unload_chat-IsPlaced :
      (reply : StopReply) (a : App) → IsPlaced r st a → IsPlaced r st (unload_chat reply a)
  unload_chat-IsPlaced reply a h =
      let d : IsDown (unload_chat reply a).chat =
        unfold unload_chat in chat_down _ _ _ h.of.sound.chat in
      Shrinks-IsPlaced a (unload_chat reply a)
        (record {
          chat = λ _. d.1;
          tts = unfold unload_chat in λ k. k;
          asr = unfold unload_chat in λ k. k;
          image = unfold unload_chat in λ k. k;
          music = unfold unload_chat in λ k. k;
          has = λ s k. inl d.1;
        })
        (unload_chat-IsOf reply a h.of) h

  pub slot_IsPlaced :
      (slot : Slot) (reply : StopReply) (a : App)
      → IsPlaced r st a
      → IsPlaced r st (unload_slot slot reply a)
  unfolding unload_slot unload_tts unload_asr unload_image unload_music
  slot_IsPlaced tts reply a h =
      Shrinks-IsPlaced a (unload_tts reply a)
        (record {
          chat = λ k. k;
          tts = λ k. (servers_down reply a.tts a.world h.of.sound.tts).1;
          asr = λ k. k;
          image = λ k. k;
          music = λ k. k;
          has = λ s k. k;
        })
        (unload_tts-IsOf reply a h.of) h
  slot_IsPlaced asr reply a h =
      Shrinks-IsPlaced a (unload_asr reply a)
        (record {
          chat = λ k. k;
          tts = λ k. k;
          asr = λ k. (servers_down reply a.asr a.world h.of.sound.asr).1;
          image = λ k. k;
          music = λ k. k;
          has = λ s k. k;
        })
        (unload_asr-IsOf reply a h.of) h
  slot_IsPlaced image reply a h =
      Shrinks-IsPlaced a (unload_image reply a)
        (record {
          chat = λ k. k;
          tts = λ k. k;
          asr = λ k. k;
          image = λ k. (servers_down reply a.image a.world h.of.sound.image).1;
          music = λ k. k;
          has = λ s k. k;
        })
        (unload_image-IsOf reply a h.of) h
  slot_IsPlaced music reply a h =
      Shrinks-IsPlaced a (unload_music reply a)
        (record {
          chat = λ k. k;
          tts = λ k. k;
          asr = λ k. k;
          image = λ k. k;
          music = λ k. (servers_down reply a.music a.world h.of.sound.music).1;
          has = λ s k. k;
        })
        (unload_music-IsOf reply a h.of) h
