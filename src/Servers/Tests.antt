-- ===== src/Servers/Tests.antt =====
-- The manager of the speech role, run on a small installation.
use llamaswap.Base.{◌≡◌, refl, arith, none, []}
use llamaswap.Registry.Config.{ModelConfig, tts}
use llamaswap.Backend.Process.{exits}
use llamaswap.Servers.Ensure.{Servers, Visit, ensure_model, flavour, running_entry}
use llamaswap.Servers.Laws.{RoleEnsured, ensure_model-RoleEnsured}
use llamaswap.Servers.Idle.{IsRoleIdle, role_watch, role_watch-decides}
use llamaswap.Backend.Manager.{stop_current}
use llamaswap.Fixtures.{config, registry, registry-named, world, launch, serving, serving-IsSound}

abbrev old_voice : ModelConfig
old_voice = config "old" tts 9010

abbrev speaking : Servers
speaking = record { role = tts; configs = []; base = serving old_voice 70 }

abbrev visit : Visit
visit = record { now = 10; old_stop = exits; after_wait = none; launch = launch 71 }

ensure_model-RoleEnsured_example :
    RoleEnsured "voice" speaking
      (ensure_model visit registry "voice" speaking world).0
      (ensure_model visit registry "voice" speaking world).2
ensure_model-RoleEnsured_example =
    ensure_model-RoleEnsured visit registry "voice" speaking world registry-named
      (serving-IsSound old_voice 70)

role_watch-decides_example :
    (IsRoleIdle 1000 speaking.base
      → ((role_watch 1000 exits speaking world).0.base
          ≡ (stop_current (flavour tts) exits speaking.base world).0)
        × ((role_watch 1000 exits speaking world).1
            ≡ (stop_current (flavour tts) exits speaking.base world).1))
    × (¬ (IsRoleIdle 1000 speaking.base) → role_watch 1000 exits speaking world ≡ (speaking, world))
role_watch-decides_example = role_watch-decides 1000 exits speaking world

speaking-IsRoleIdle : IsRoleIdle 1000 speaking.base
unfolding running_entry
speaking-IsRoleIdle = record {
  window = omega arith;
  unpinned = omega arith;
  passed = omega arith;
  is_up = refl;
}
