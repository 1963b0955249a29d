-- ===== src/Embedding/Tests.antt =====
-- The embedding manager, run on a server that is ready and on one that is not.
use llamaswap.Base.{◌≡◌, refl, true, false, none, some, [], ◌∷◌}
use llamaswap.Registry.Config.{embedding}
use llamaswap.Backend.Process.{exits, ready, stopped}
use llamaswap.Embedding.Ensure.{Embedding, start, stop, stop_for_resources, ensure_running}
use llamaswap.Embedding.Laws.{
  IsDown, Started, Answered, stop_for_resources-IsDown, start-Started, ensure_running-Answered,
}
use llamaswap.Fixtures.{config, world, launch}

abbrev running : Embedding
running = record {
  config = config "embed" embedding 9020;
  startup_timeout = 60;
  process = some (record { pid = 50; returncode = none });
  state = ready;
  detail = "";
  stopped_for_resources = false;
  live = 50 ∷ [];
}

abbrev idle : Embedding
idle = record running { process = none; state = stopped; live = [] }

stop_for_resources-IsDown_example :
    IsDown (stop exits running world).0
    × IsDown (stop_for_resources "an LLM" exits running world).0
    × ((stop_for_resources "an LLM" exits running world).0.stopped_for_resources ≡ true)
stop_for_resources-IsDown_example = stop_for_resources-IsDown "an LLM" exits running world refl

start-Started_example :
    Started (start exits (launch 51) idle world).2 (start exits (launch 51) idle world).0
start-Started_example = start-Started exits (launch 51) idle world refl

ensure_running-Answered_example :
    Answered
      (ensure_running false idle exits (launch 51) idle world).2
      (ensure_running false idle exits (launch 51) idle world).0
ensure_running-Answered_example =
    ensure_running-Answered false idle exits (launch 51) idle world refl refl
