-- ===== src/Guards/AfterAudio.antt =====
-- The servers after an audio request (app/main.py, `_route_audio`).
use llamaswap.Base.{
  ℕ, ◌≡◌, ◌≢◌, refl, ◌∙◌, sym, ap, inl, inr, String, Bool, true, false, not, Option, none, some,
  ◌&&◌, ◌||◌, arith, Bool-cases, Option-cases, ltb, is_some, eq_iff, ◌==◌, string_key,
}
use llamaswap.Registry.Config.{same_role}
use llamaswap.Registry.Query.{Registry, find, smallest_llm}
use llamaswap.Backend.Process.{
  World, cancelled, spawn_failed, exited, unhealthy, State, loading, ready, stopped, failed,
  state_value, is_ready, is_loading,
}
use llamaswap.Backend.Manager.{Running, pin}
use llamaswap.Backend.Invariant.{IsSound, live_of, is_settled}
use llamaswap.Chat.Ensure.{status, status_of}
use llamaswap.Servers.Ensure.{Servers, Visit, Result, unknown, served, waits, ensure_model}
use llamaswap.Servers.Laws.{ensure_model-IsSound}
use llamaswap.Guards.App.{App, Settings, Stops, Routed}
use llamaswap.Guards.AudioRoute.{
  Audio, speech, transcription, role_of, servers_of, with_servers, blocked, default_model, pinned,
  answer, load_audio, make_room, admit, route_audio,
}
use llamaswap.Guards.Clears.{IsDown, IsOf, IsSoundApp, audio_room-IsOf, audio_room-clears}
use llamaswap.Guards.Placement.{IsGuarded, HasChat, IsPlaced}

-- What holds of the application with any sound manager in the place of the one that was called
-- holds after the call.
pub answer-keeps :
    (P : App → Type 0) (put : Servers → App) (pins : Servers → Servers) (s : Servers) (r : Result)
    → ((x : Servers) → IsSound x.base → P (put x))
    → (IsSound s.base → IsSound (pins s).base)
    → (r ≢ waits → IsSound s.base)
    → (answer put pins s r).1 ≢ Routed.waits
    → P (answer put pins s r).0
unfolding answer
answer-keeps P put pins s (served cfg) k p h n = k (pins s) (p (h (λ e. cc)))
answer-keeps P put pins s unknown k p h n = k s (h (λ e. cc))
answer-keeps P put pins s waits k p h n = absurd (n refl)
answer-keeps P put pins s (Result.failed cancelled) k p h n = k s (h (λ e. cc))
answer-keeps P put pins s (Result.failed exited) k p h n = k s (h (λ e. cc))
answer-keeps P put pins s (Result.failed unhealthy) k p h n = k s (h (λ e. cc))
answer-keeps P put pins s (Result.failed (spawn_failed x)) k p h n = k s (h (λ e. cc))

pub pinned-IsSound :
    (seconds : Option ℕ) (now : ℕ) (s : Servers)
    → IsSound s.base
    → IsSound (pinned seconds now s).base
unfolding pin
pinned-IsSound none now s h = h
pinned-IsSound (some seconds) now s h = elim (Bool-cases (ltb 0 seconds)) [
  | inl longer ↦ rw longer (record { lives = h.lives; settled = h.settled })
  | inr never ↦ rw never h
]

-- A settled server that is neither loading nor ready has ended.
settled_dead :
    (st : State) (dead : Bool)
    → (state_value st == "loading" || state_value st == "ready") ≡ false
    → (is_ready st || (not (is_loading st) && dead)) ≡ true
    → dead ≡ true
unfolding state_value
settled_dead loading dead b k = cc
settled_dead ready dead b k = cc
settled_dead stopped dead b k = k
settled_dead failed dead b k = k

unblocked_entry :
    (s : String) (cur : Running) (a : App)
    → a.chat.current ≡ some cur
    → (not (cur.config.name == s)
        && (state_value cur.state == "loading" || state_value cur.state == "ready"))
      ≡ false
    → IsSound a.chat
    → HasChat s a
unfolding state_value
unblocked_entry s cur a c b h = elim (Bool-cases (cur.config.name == s)) [
  | inl small ↦ inr (cur, c, ground (arith, eq_iff cur.config.name s))
  | inr other ↦
      let dead =
        settled_dead cur.state (is_some cur.process.returncode) (rw other at b)
          (sym (ap is_settled c) ∙ h.settled) in
      inl (h.lives ∙ ap live_of c ∙ rw dead)
]

-- An audio request that is let through finds no chat LLM but the smallest.
unblocked :
    (s : String) (a : App)
    → a.settings.block_audio_on_big_llm ≡ true
    → smallest_llm a.registry ≡ some s
    → blocked a ≡ false
    → IsSound a.chat
    → HasChat s a
unfolding blocked status status_of
unblocked s a g e b h = elim (Option-cases a.chat.current) [
  | inl gone ↦ inl (h.lives ∙ ap live_of gone)
  | inr (cur, c) ↦ unblocked_entry s cur a c (rw (g, e, c) at b) h
]

servers_sound : (role : Audio) (a : App) → IsSoundApp a → IsSound (servers_of role a).base
servers_sound speech a h = h.tts
servers_sound transcription a h = h.asr

module _ {r : Registry} {st : Settings} (g : IsGuarded st) where
  audio_at :
      (role : Audio) (a : App) (w : World) (x : Servers)
      → IsOf r st a
      → IsDown a.image.base
      → IsDown a.music.base
      → ((n : String) → smallest_llm r ≡ some n → HasChat n a)
      → IsSound x.base
      → IsPlaced r st (with_servers role x w a)
  audio_at speech a w x of image music has s = record {
    of = record {
      registry = of.registry;
      settings = of.settings;
      sound = record {
        chat = of.sound.chat;
        tts = s;
        asr = of.sound.asr;
        image = of.sound.image;
        music = of.sound.music;
      };
    };
    image = inl image.1;
    music = inl music.1;
    audio = λ n e. inl (has n e);
  }
  audio_at transcription a w x of image music has s = record {
    of = record {
      registry = of.registry;
      settings = of.settings;
      sound = record {
        chat = of.sound.chat;
        tts = of.sound.tts;
        asr = s;
        image = of.sound.image;
        music = of.sound.music;
      };
    };
    image = inl image.1;
    music = inl music.1;
    audio = λ n e. inl (has n e);
  }

  -- A sound manager for an audio role, next to what an audio request that was let through finds.
  audio_put :
      (role : Audio) (d : Stops) (a : App) (w : World) (x : Servers)
      → IsPlaced r st a
      → blocked a ≡ false
      → IsSound x.base
      → IsPlaced r st (with_servers role x w (make_room d a))
  audio_put role d a w x h free s =
      let of = audio_room-IsOf d a h.of in
      let (image, music, chat) =
        audio_room-clears d a
          (ap (λ (x : Settings). x.unload_image_on_audio) h.of.settings ∙ g.image_for_audio)
          (ap (λ (x : Settings). x.unload_music_on_audio) h.of.settings ∙ g.music_for_audio)
          h.of.sound in
      let has : (n : String) → smallest_llm r ≡ some n → HasChat n (make_room d a) = λ n e.
        let k =
          unblocked n a
            (ap (λ (x : Settings). x.block_audio_on_big_llm) h.of.settings ∙ g.blocks_audio)
            (ap smallest_llm h.of.registry ∙ e) free h.of.sound.chat in
        rw chat k in
      audio_at role (make_room d a) w x of image music has s

  load_IsPlaced :
      (d : Stops) (v : Visit) (seconds : Option ℕ) (role : Audio) (name : String) (a : App)
      → IsPlaced r st a
      → blocked a ≡ false
      → (load_audio v seconds role name (make_room d a)).1 ≢ Routed.waits
      → IsPlaced r st (load_audio v seconds role name (make_room d a)).0
  unfolding load_audio
  load_IsPlaced d v seconds role name a h free n =
      let b = make_room d a in
      let c = ensure_model v b.registry name (servers_of role b) b.world in
      let of = audio_room-IsOf d a h.of in
      answer-keeps (IsPlaced r st) (λ x. with_servers role x c.1 b) (pinned seconds v.now) c.0 c.2
        (λ x s. audio_put role d a c.1 x h free s) (pinned-IsSound seconds v.now c.0)
        (ensure_model-IsSound v b.registry name (servers_of role b) b.world
          (servers_sound role b of.sound))
        n

  admit-IsPlaced :
      (d : Stops) (v : Visit) (seconds : Option ℕ) (role : Audio) (name : String) (a : App)
      → IsPlaced r st a
      → (admit d v seconds role name a).1 ≢ Routed.waits
      → IsPlaced r st (admit d v seconds role name a).0
  unfolding admit
  admit-IsPlaced d v seconds role name a h n = elim (Option-cases (find a.registry name)) [
    | inl missing ↦ rw (missing, admit) h
    | inr (cfg, found) ↦ elim (Bool-cases (same_role cfg.role (role_of role))) [
      | inr other ↦ rw (found, admit) (rw other h)
      | inl mine ↦ elim (Bool-cases (blocked a)) [
        | inl big ↦ rw (found, admit) (rw (mine, big) h)
        | inr free ↦
            rw (found, admit)
              (rw (mine, free)
                (load_IsPlaced d v seconds role name a h free (rw (found, admit, mine, free) at n)))
      ]
    ]
  ]

  -- An audio request that has ended keeps the servers placed.
  pub audio_IsPlaced :
      (d : Stops) (v : Visit) (seconds : Option ℕ) (expect_body_model : Bool) (role : Audio)
      (model : Option String) (a : App)
      → IsPlaced r st a
      → (route_audio d v seconds expect_body_model role model a).1 ≢ Routed.waits
      → IsPlaced r st (route_audio d v seconds expect_body_model role model a).0
  unfolding route_audio
  audio_IsPlaced d v seconds expect_body_model role model a h n =
      elim (Bool-cases (expect_body_model && not (is_some model))) [
        | inl nameless ↦ rw nameless h
        | inr named ↦ elim (Option-cases (default_model (role_of role) model a)) [
          | inl no_model ↦ rw named (rw no_model h)
          | inr (name, chosen) ↦
              rw named
                (rw chosen (admit-IsPlaced d v seconds role name a h (rw (named, chosen) at n)))
        ]
      ]
