-- ===== src/Chat/Tests.antt =====
-- The chat manager, run on a small installation.
use llamaswap.Base.{
  ◌≡◌, ◌≢◌, ◌≤◌, refl, true, false, some, [], ◌∷◌, arith, length, contains, string_key, get,
}
use llamaswap.Json.{pos}
use llamaswap.Registry.Config.{ModelConfig, llm}
use llamaswap.Registry.Query.{find}
use llamaswap.Backend.Process.{World, gone, exits, wait_rounds, unexpected}
use llamaswap.Backend.Manager.{Running, Manager, stop_current, exit_current}
use llamaswap.Backend.Invariant.{IsSound}
use llamaswap.Chat.Ensure.{
  chat, Visit, served, waits, ensure_model, idle_threshold, is_healthy, load_reported,
}
use llamaswap.Chat.Idle.{watch, IsIdle, watch-decides}
use llamaswap.Chat.Laws.{Ensured, ensure_model-Ensured, ensure_model-after_clean_exit}
use llamaswap.Chat.Runs.{init, ensures, here, next, Reach-one_process}
use llamaswap.Chat.Files.{stop_current-files}
use llamaswap.Fixtures.{
  config, registry, registry-named, world, launch, entry, serving, serving-IsSound,
}

abbrev small : ModelConfig
small = config "small" llm 9000

abbrev visit : Visit
visit = record { now = 10; old_stop = exits; launch = launch 78 }

-- A swap from the small model to the big one.
ensure_model-Ensured_example :
    Ensured "big"
      (serving small 77)
      (ensure_model visit registry "big" (serving small 77) world).0
      (ensure_model visit registry "big" (serving small 77) world).2
ensure_model-Ensured_example =
    ensure_model-Ensured visit registry "big" (serving small 77) world registry-named
      (serving-IsSound small 77)

finds_small : find registry "small" ≡ some small
unfolding find get
finds_small = refl

clean : unexpected (pos 0) ≡ false
unfolding unexpected
clean = refl

ensure_model-after_clean_exit_example :
    ((ensure_model visit registry "small" (exit_current (pos 0) "" (serving small 77)) world).2
      ≡ served "small" 9000)
    × ((ensure_model visit registry "small"
          (exit_current (pos 0) "" (serving small 77))
          world).0.live
        ≡ [])
ensure_model-after_clean_exit_example =
    ensure_model-after_clean_exit visit registry (pos 0) "" (serving small 77) world
      (entry small 77) small finds_small clean (serving-IsSound small 77) refl refl refl

rested : IsIdle 1000 (serving small 77) (entry small 77)
unfolding idle_threshold
rested = record { unpinned = omega arith; window = omega arith; passed = omega arith; is_up = refl }

watch-decides_example :
    (IsIdle 1000 (serving small 77) (entry small 77)
      → watch 1000 exits (serving small 77) world
        ≡ stop_current chat exits (serving small 77) world)
    × (¬ (IsIdle 1000 (serving small 77) (entry small 77))
        → watch 1000 exits (serving small 77) world ≡ (serving small 77, world))
watch-decides_example = watch-decides 1000 exits (serving small 77) world (entry small 77) refl

stops_rested :
    watch 1000 exits (serving small 77) world ≡ stop_current chat exits (serving small 77) world
stops_rested = (watch-decides 1000 exits (serving small 77) world (entry small 77) refl).0 rested

abbrev pinned : Manager
pinned = record (serving small 77) { pinned_until = 2000 }

pinned-not-IsIdle : ¬ (IsIdle 1000 pinned (entry small 77))
pinned-not-IsIdle h = omega (arith, h.unpinned)

keeps_pinned : watch 1000 exits pinned world ≡ (pinned, world)
keeps_pinned = (watch-decides 1000 exits pinned world (entry small 77) refl).1 pinned-not-IsIdle

abbrev started : Manager
started = init 60 300 "/tmp"

abbrev loaded : Manager
loaded = (ensure_model visit registry "small" started world).0

serves_small : (ensure_model visit registry "small" started world).2 ≡ served "small" 9000
unfolding ensure_model find get init wait_rounds is_healthy load_reported
serves_small = refl

comes_up : (ensure_model visit registry "small" started world).2 ≢ waits
comes_up = rw serves_small (λ e. cc)

Reach-one_process_example : IsSound loaded × (length loaded.live ≤ 1)
Reach-one_process_example =
    Reach-one_process 60 300 "/tmp" (next here (ensures visit registry "small" world comes_up refl))

abbrev with_file : Running
with_file = record (entry small 77) { config_file = some "/tmp/llm-small.json" }

abbrev on_disk : Manager
on_disk = record (serving small 77) { current = some with_file }

abbrev disk : World
disk = record world { files = "/tmp/llm-small.json" ∷ [] }

stop_current-files_example :
    contains (stop_current chat gone on_disk disk).1.files "/tmp/llm-small.json" ≡ true
stop_current-files_example =
    stop_current-files gone with_file on_disk disk "/tmp/llm-small.json" refl refl (λ e. cc)
