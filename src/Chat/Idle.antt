-- ===== src/Chat/Idle.antt =====
-- The idle watcher of the chat LLM (app/process_manager.py, `_idle_watcher`).
use llamaswap.Base.{
  Option-cases, Bool-cases, subst, sym, ℕ, ◌-◌, ◌≤◌, ◌≡◌, ◌≢◌, inl, inr, refl, Bool, false, ◌||◌,
  not, Option, none, some, ltb, eqb, if◌then◌else◌, arith,
}
use llamaswap.Backend.Process.{World, StopReply, ready, is_ready}
use llamaswap.Backend.Manager.{Running, Manager, stop_current}
use llamaswap.Chat.Ensure.{chat, idle_threshold}

abbrev pub ready_entry : Option Running → Bool
ready_entry none = false
ready_entry (some cur) = is_ready cur.state

unfoldable pub check_entry : ℕ → Option Running → Manager → Option ℕ
unfolding idle_threshold
check_entry now none m = none
check_entry now (some cur) m =
    if ltb now m.pinned_until
    then none
    else if eqb (idle_threshold m cur.config) 0
    then none
    else if ltb (now - m.last_activity) (idle_threshold m cur.config)
    then none
    else some (idle_threshold m cur.config)

-- The tests of a round before the lock: the window that has passed, if any.
unfoldable pub watch_check : ℕ → Manager → Option ℕ
unfolding check_entry
watch_check now m = check_entry now m.current m

-- The tests of a round under the lock, with the window taken before it.
unfoldable pub watch_unload : ℕ → ℕ → StopReply → Manager → World → Manager × World
watch_unload threshold now reply m w =
    if not (ready_entry m.current) || ltb (now - m.last_activity) threshold
    then (m, w)
    else stop_current chat reply m w

-- A round in which nothing else runs between its two halves.
unfoldable pub watch : ℕ → StopReply → Manager → World → Manager × World
unfolding watch_check watch_unload
watch now reply m w = elim (watch_check now m) [
  | none ↦ (m, w)
  | some threshold ↦ watch_unload threshold now reply m w
]

-- What it takes for an undisturbed round to stop the loaded model.
pub record IsIdle (now : ℕ) (m : Manager) (cur : Running) : Type 0 where
  pub unpinned : m.pinned_until ≤ now
  pub window : idle_threshold m cur.config ≢ 0
  pub passed : idle_threshold m cur.config ≤ now - m.last_activity
  pub is_up : cur.state ≡ ready

check-IsIdle :
    (now : ℕ) (c : Option Running) (m : Manager) (t : ℕ)
    → check_entry now c m ≡ some t
    → (cur : Running) × (c ≡ some cur)
      × (t ≡ idle_threshold m cur.config)
      × (m.pinned_until ≤ now)
      × (idle_threshold m cur.config ≢ 0)
      × (idle_threshold m cur.config ≤ now - m.last_activity)
unfolding check_entry
check-IsIdle now none m t h = cc
check-IsIdle now (some cur) m t h =
    (cur, refl, ground arith, ground arith, ground arith, ground arith)

check-some :
    (now : ℕ) (m : Manager) (cur : Running)
    → m.current ≡ some cur
    → IsIdle now m cur
    → watch_check now m ≡ some (idle_threshold m cur.config)
unfolding watch_check
check-some now m cur e h = rw e (unfold check_entry in ground arith)

watch-idle :
    (now : ℕ) (reply : StopReply) (m : Manager) (w : World) (cur : Running)
    → m.current ≡ some cur
    → IsIdle now m cur
    → watch now reply m w ≡ stop_current chat reply m w
unfolding watch
watch-idle now reply m w cur e h =
    rw (check-some now m cur e h, watch) (unfold watch_unload in rw e (ground arith))

busy_half :
    (t now : ℕ) (reply : StopReply) (m : Manager) (w : World) (cur : Running)
    → m.current ≡ some cur
    → watch_check now m ≡ some t
    → ¬ (IsIdle now m cur)
    → watch_unload t now reply m w ≡ (m, w)
unfolding watch_unload watch_check
busy_half t now reply m w cur e h n =
    let (cur', same, window, unpinned, open_window, passed) = check-IsIdle now m.current m t h in
    let same' : cur ≡ cur' = ground arith in
    let not_up : is_ready cur.state ≡ false = elim (Bool-cases (is_ready cur.state)) [
      | inl up ↦ absurd (
          n (
            subst (IsIdle now m) (sym same') (record {
              unpinned = unpinned;
              window = open_window;
              passed = passed;
              is_up = subst (λ (c : Running). c.state ≡ ready) same' (ground arith);
            })))
      | inr down ↦ down
    ] in
    rw e (ground arith)

watch-busy :
    (now : ℕ) (reply : StopReply) (m : Manager) (w : World) (cur : Running)
    → m.current ≡ some cur
    → ¬ (IsIdle now m cur)
    → watch now reply m w ≡ (m, w)
unfolding watch
watch-busy now reply m w cur e n = elim (Option-cases (watch_check now m)) [
  | inl none_due ↦ rw (none_due, watch)
  | inr (t, due) ↦ rw (due, watch) (busy_half t now reply m w cur e due n)
]

-- A ready model that is not pinned, has an idle window and was not used within it is stopped by
-- the next undisturbed round. Otherwise the round changes nothing: a pinned model, one whose window
-- is 0, one that was used within its window and one that is not ready all stay.
pub watch-decides :
    (now : ℕ) (reply : StopReply) (m : Manager) (w : World) (cur : Running)
    → m.current ≡ some cur
    → (IsIdle now m cur → watch now reply m w ≡ stop_current chat reply m w)
      × (¬ (IsIdle now m cur) → watch now reply m w ≡ (m, w))
watch-decides now reply m w cur e = (watch-idle now reply m w cur e, watch-busy now reply m w cur e)
