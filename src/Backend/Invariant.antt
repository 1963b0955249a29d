-- ===== src/Backend/Invariant.antt =====
-- A manager between two of its operations (app/process_manager.py, app/server_manager.py).
use llamaswap.Base.{
  not, ◌&&◌, ◌||◌, Bool-cases, inl, inr, ◌∙◌, ap, sym, ◌+◌, ℕ, ◌≡◌, ◌≤◌, refl, ◌≢◌, String, Bool,
  true, Option, none, some, List, [], ◌∷◌, arith, is_some, if◌then◌else◌, length, nat_key, eqb_iff,
}
use llamaswap.Json.{ℤ}
use llamaswap.Registry.Config.{ModelConfig}
use llamaswap.Backend.Process.{
  World, loading, ready, is_loading, StopReply, gone, Health, healthy, waiting, broken, wait_rounds,
  is_ready,
}
use llamaswap.Backend.Manager.{
  Running, Manager, Flavour, Launch, Spawn, refused, runs, Loaded, up, pending, raised, reap,
  stop_entry, stop_current, settle, launch_spawned, launch, replace, unload, exit_current,
  exit_entry,
}

abbrev pub live_of : Option Running → List ℕ
live_of none = []
live_of (some cur) = if is_some cur.process.returncode then [] else cur.process.pid ∷ []

abbrev pub is_settled : Option Running → Bool
is_settled none = true
is_settled (some cur) =
    is_ready cur.state || (not (is_loading cur.state) && is_some cur.process.returncode)

pub record IsSound (m : Manager) : Type 0 where
  pub lives : m.live ≡ live_of m.current
  pub settled : is_settled m.current ≡ true

-- How a launch leaves its manager.
abbrev pub Outcome : ModelConfig → Loaded → Manager → Type 0
Outcome cfg up m =
    (cur : Running) × (m.current ≡ some cur)
    × (cur.config ≡ cfg)
    × (cur.state ≡ ready)
    × (cur.process.returncode ≡ none)
    × (m.live ≡ cur.process.pid ∷ [])
Outcome cfg (raised e) m = (m.current ≡ none) × (m.live ≡ [])
Outcome cfg pending m =
    (cur : Running) × (m.current ≡ some cur) × (cur.state ≡ loading) × (m.live ≡ live_of (some cur))

module _ (f : Flavour) where
  stop_entry-clears :
      (reply : StopReply) (c : Option Running) (m : Manager) (w : World)
      → m.live ≡ live_of c
      → m.current ≡ none
      → ((stop_entry f reply c m w).0.current ≡ none) × ((stop_entry f reply c m w).0.live ≡ [])
  unfolding stop_entry
  stop_entry-clears reply none m w h n = (n, h)
  stop_entry-clears gone (some cur) m w h n =
      ground (arith, eqb_iff cur.process.pid cur.process.pid)
  stop_entry-clears _ (some cur) m w h n = ground (arith, eqb_iff cur.process.pid cur.process.pid)

  -- Whatever the process answers, nothing runs afterwards and nothing is current.
  pub stop_current-clears :
      (reply : StopReply) (m : Manager) (w : World)
      → m.live ≡ live_of m.current
      → ((stop_current f reply m w).0.current ≡ none) × ((stop_current f reply m w).0.live ≡ [])
  unfolding stop_current
  stop_current-clears reply m w h =
      stop_entry-clears reply m.current (record m { current = none }) w h refl

  settle-Outcome :
      (l : Launch) (cfg : ModelConfig) (entry : Running) (h : Health) (m : Manager) (w : World)
      → entry.config ≡ cfg
      → entry.state ≡ loading
      → entry.process.returncode ≡ none
      → m.current ≡ some entry
      → m.live ≡ entry.process.pid ∷ []
      → Outcome cfg (settle f l entry h m w).2 (settle f l entry h m w).0
  unfolding settle
  settle-Outcome l cfg entry healthy m w a b c d e = (_, refl, a, refl, c, e)
  settle-Outcome l cfg entry waiting m w a b c d e = (entry, d, b, ground arith)
  settle-Outcome l cfg entry (broken err rc) m w a b c d e =
      stop_current-clears l.stop
        (record m {
          current =
              some (record entry { process = record { pid = entry.process.pid; returncode = rc } });
          live = if is_some rc then reap entry.process.pid m.live else m.live;
        })
        w (ground (arith, eqb_iff entry.process.pid entry.process.pid))

  spawned-Outcome :
      (l : Launch) (cfg : ModelConfig) (file : Option String) (s : Spawn) (m : Manager) (w : World)
      → m.current ≡ none
      → m.live ≡ []
      → Outcome cfg (launch_spawned f l cfg file s m w).2 (launch_spawned f l cfg file s m w).0
  unfolding launch_spawned
  spawned-Outcome l cfg file (refused error) m w a b = (a, b)
  spawned-Outcome l cfg file (runs pid) m w a b =
      settle-Outcome l cfg _ (wait_rounds f.accepts (l.start + m.startup_timeout) l.rounds) _ w refl
        refl refl refl (rw b)

  -- Launched with nothing running, the manager has the new backend ready and alive, has nothing,
  -- or is still waiting for its health.
  pub launch-Outcome :
      (l : Launch) (cfg : ModelConfig) (m : Manager) (w : World)
      → m.current ≡ none
      → m.live ≡ []
      → Outcome cfg (launch f l cfg m w).2 (launch f l cfg m w).0
  unfolding launch
  launch-Outcome l cfg m w a b = spawned-Outcome l cfg _ l.spawn m _ a b

  pub replace-Outcome :
      (reply : StopReply) (l : Launch) (cfg : ModelConfig) (name : String) (prev : Option String)
      (m : Manager) (w : World)
      → m.live ≡ live_of m.current
      → Outcome cfg (replace f reply l cfg name prev m w).2 (replace f reply l cfg name prev m w).0
  unfolding replace
  replace-Outcome reply l cfg name prev m w h =
      let (m₁, w₁) = stop_current f reply m w in
      let (a, b) = stop_current-clears reply m w h in launch-Outcome l cfg m₁ w₁ a b

  pub unload-clears :
      (reply : StopReply) (m : Manager) (w : World)
      → m.live ≡ live_of m.current
      → ((unload f reply m w).0.current ≡ none) × ((unload f reply m w).0.live ≡ [])
  unfolding unload
  unload-clears reply m w h = stop_current-clears reply m w h

pub cleared-IsSound : (m : Manager) → m.current ≡ none → m.live ≡ [] → IsSound m
cleared-IsSound m a b = record { lives = rw (a, b); settled = rw a }

-- A launch that has ended leaves its manager sound.
pub Outcome-IsSound :
    (cfg : ModelConfig) (r : Loaded) (m : Manager) → r ≢ pending → Outcome cfg r m → IsSound m
Outcome-IsSound cfg up m n (cur, c, _, s, rc, l) = record {
  lives = rw (c, l) (ground arith);
  settled = rw c (ground arith);
}
Outcome-IsSound cfg (raised e) m n (c, l) = cleared-IsSound m c l
Outcome-IsSound cfg pending m n o = absurd (n refl)

exit_entry-IsSound :
    (rc : ℤ) (detail : String) (c : Option Running) (m : Manager)
    → m.current ≡ c
    → IsSound m
    → IsSound (exit_entry rc detail c m)
unfolding exit_entry
exit_entry-IsSound rc detail none m e h = h
exit_entry-IsSound rc detail (some cur) m e h = elim (Bool-cases (is_some cur.process.returncode)) [
  | inl dead ↦ rw dead h
  | inr alive ↦
      let l : m.live ≡ live_of (some cur) = h.lives ∙ ap live_of e in
      let s : is_settled (some cur) ≡ true = sym (ap is_settled e) ∙ h.settled in
      rw alive (record {
        lives = rw (l, alive) (ground (arith, eqb_iff cur.process.pid cur.process.pid));
        settled = ground arith;
      })
]

-- A backend that ends by itself leaves its manager sound.
pub exit_current-IsSound :
    (rc : ℤ) (detail : String) (m : Manager) → IsSound m → IsSound (exit_current rc detail m)
unfolding exit_current
exit_current-IsSound rc detail m h = exit_entry-IsSound rc detail m.current m refl h

-- So at most one backend process of a manager runs.
pub IsSound-one : (m : Manager) → IsSound m → length m.live ≤ 1
IsSound-one m h = rw h.lives (ground arith)
