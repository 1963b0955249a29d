-- ===== src/Chat/Files.antt =====
-- The config files that a stop of the chat LLM leaves (app/process_manager.py, `_stop_current`).
use llamaswap.Base.{
  ◌≡◌, ◌≢◌, refl, String, Bool, true, false, not, ◌&&◌, none, some, List, [], ◌∷◌, arith, contains,
  keep, ◌==◌, string_key, is_some, eq_iff,
}
use llamaswap.Backend.Process.{World, StopReply, gone, exits, hangs, cleanup_config}
use llamaswap.Backend.Manager.{Running, Manager, stop_current, stop_entry, told_unload}
use llamaswap.Chat.Ensure.{chat}

abbrev pub is_gone : StopReply → Bool
is_gone gone = true
is_gone reply = false

contains-keep :
    (path : String) (files : List String)
    → contains (keep (λ p. not (p == path)) files) path ≡ false
contains-keep path [] = refl
contains-keep path (p ∷ files) = ground (arith, contains-keep path files)

removed :
    (path : String) (w : World)
    → path ≢ ""
    → contains (cleanup_config (some path) w).files path ≡ false
unfolding cleanup_config
removed path w h = ground (arith, eq_iff path "", contains-keep path w.files)

entry_files :
    (reply : StopReply) (cur : Running) (m : Manager) (w : World) (path : String)
    → cur.config_file ≡ some path
    → path ≢ ""
    → contains (stop_entry chat reply (some cur) m w).1.files path
      ≡ (is_gone reply && (not (is_some cur.process.returncode) && contains w.files path))
unfolding stop_entry
entry_files gone cur m w path f h = rw f (ground (arith, removed path w h))
entry_files exits cur m w path f h =
    rw f (ground (arith, removed path w h, removed path (told_unload chat cur w) h))
entry_files hangs cur m w path f h =
    rw f (ground (arith, removed path w h, removed path (told_unload chat cur w) h))

-- After a stop of the loaded model its rendered config file lies on the disk exactly where it did
-- before, the process had not been reaped, and SIGTERM found it gone: that path returns before
-- the file is removed.
pub stop_current-files :
    (reply : StopReply) (cur : Running) (m : Manager) (w : World) (path : String)
    → m.current ≡ some cur
    → cur.config_file ≡ some path
    → path ≢ ""
    → contains (stop_current chat reply m w).1.files path
      ≡ (is_gone reply && (not (is_some cur.process.returncode) && contains w.files path))
unfolding stop_current
stop_current-files reply cur m w path c f h =
    rw c (entry_files reply cur (record m { current = none }) w path f h)
