-- ===== src/Servers/Idle.antt =====
-- The idle watcher of a role's server (app/server_manager.py, `_idle_watcher`), which runs where
-- the manager has an idle window.
use llamaswap.Base.{
  ℕ, ◌-◌, ◌≤◌, ◌<◌, ◌≡◌, refl, inl, inr, Bool, true, false, not, ◌&&◌, ◌||◌, Option, none, some,
  ltb, if◌then◌else◌, arith, Bool-cases,
}
use llamaswap.Backend.Process.{World, StopReply}
use llamaswap.Backend.Manager.{Running, Manager, stop_current}
use llamaswap.Servers.Ensure.{Servers, flavour, running_entry}

abbrev is_loaded : Option Running → Bool
is_loaded none = false
is_loaded (some cur) = true

-- The tests of a round before the lock.
unfoldable pub role_due : ℕ → Manager → Bool
role_due now m =
    is_loaded m.current
    && (not (ltb now m.pinned_until) && not (ltb (now - m.last_activity) m.idle_unload_seconds))

-- The tests of a round under the lock.
unfoldable pub role_unload : ℕ → StopReply → Servers → World → Servers × World
unfolding running_entry
role_unload now reply s w =
    if not (running_entry s.base.current)
      || ltb (now - s.base.last_activity) s.base.idle_unload_seconds
    then (s, w)
    else (let (m, w') = stop_current (flavour s.role) reply s.base w in (record s { base = m }, w'))

-- A round in which nothing else runs between its two halves.
unfoldable pub role_watch : ℕ → StopReply → Servers → World → Servers × World
unfolding role_due role_unload
role_watch now reply s w =
    if ltb 0 s.base.idle_unload_seconds && role_due now s.base
    then role_unload now reply s w
    else (s, w)

-- What it takes for an undisturbed round to stop the loaded model.
pub record IsRoleIdle (now : ℕ) (m : Manager) : Type 0 where
  pub window : 0 < m.idle_unload_seconds
  pub unpinned : m.pinned_until ≤ now
  pub passed : m.idle_unload_seconds ≤ now - m.last_activity
  pub is_up : running_entry m.current ≡ true

is_up-loaded : (c : Option Running) → running_entry c ≡ true → is_loaded c ≡ true
unfolding running_entry
is_up-loaded none h = cc
is_up-loaded (some cur) h = refl

-- A round of the watcher stops the loaded model of a role if it is ready and not pinned, and the
-- manager's own idle window has passed since its last use, whatever the model's config says; and
-- otherwise it changes nothing.
pub role_watch-decides :
    (now : ℕ) (reply : StopReply) (s : Servers) (w : World)
    → (IsRoleIdle now s.base
        → ((role_watch now reply s w).0.base ≡ (stop_current (flavour s.role) reply s.base w).0)
          × ((role_watch now reply s w).1 ≡ (stop_current (flavour s.role) reply s.base w).1))
      × (¬ (IsRoleIdle now s.base) → role_watch now reply s w ≡ (s, w))
unfolding role_watch role_due role_unload
role_watch-decides now reply s w = (
  λ h.
      let loaded = is_up-loaded s.base.current h.is_up in
      let window : ltb 0 s.base.idle_unload_seconds ≡ true = ground (arith, h.window) in
      let free : ltb now s.base.pinned_until ≡ false = ground (arith, h.unpinned) in
      let over : ltb (now - s.base.last_activity) s.base.idle_unload_seconds ≡ false =
        ground (arith, h.passed) in
      simp (window, loaded, free, over, h.is_up) (refl, refl),
  λ n. elim (Bool-cases (ltb 0 s.base.idle_unload_seconds && role_due now s.base)) [
    | inr early ↦ simp early refl
    | inl due ↦
        elim (Bool-cases (
          not (running_entry s.base.current)
          || ltb (now - s.base.last_activity) s.base.idle_unload_seconds)) [
            | inl stays ↦ simp (due, stays) refl
            | inr goes ↦ absurd (
                n (record {
                  window = ground (arith, due, goes);
                  unpinned = ground (arith, due, goes);
                  passed = ground (arith, due, goes);
                  is_up = ground (arith, due, goes);
                }))
          ]
  ],
)
