-- ===== src/Lib.antt =====
-- Verification of llamaswap, a proxy in front of model servers that share a GPU (app/). It starts,
-- swaps and stops backend processes on demand, guards the GPU's memory by which servers may run side
-- by side, trims chat requests that overflow a model's context window, and tells subscribers what it
-- does.
--
-- The parts and their files:
-- - Base, Json: shared helpers; JSON values as Python's json module makes them.
-- - Registry (app/registry.py): Config has the validated model configs, Argv their command line, Query
--   the loaded registry, Reload its loading from a directory, and Checked what the loading lets
--   through. Guards.Loaded says that a loaded registry is one the guards are right about.
-- - Metrics, Events (app/metrics.py, app/events.py): the counters and the event bus, which the
--   managers write. Queues hold 100 events, as in the code.
-- - Backend: what ProcessManager and RoleServerManager share. Process has the wait for health and the
--   world that managers write to; Manager the life of one backend (`_launch`, `_stop_current`, `_tail`,
--   `pin`) over a Flavour, which holds what differs between the two classes; Invariant what a settled
--   manager looks like.
-- - Chat (app/process_manager.py): ensure_model, unload, status in Ensure, the idle watcher in Idle,
--   the manager's whole life as a step relation in Runs, its config files in Files.
-- - Servers (app/server_manager.py): the manager of the speech, transcription, image and music roles,
--   with its idle watcher in Idle.
-- - Embedding (app/embedding_manager.py): the embedding server.
-- - Guards (app/main.py): App has `app.state` and the flags of app/config.py; ChatRoute is
--   `_resolve_chat_model`, AudioRoute `_route_audio`, GpuRoutes `_route_image` and `_route_music`, each
--   up to the answer of its load; Admin has `reset` and `unload_model`. Placement says which servers
--   may run side by side, and Steps what can happen to the application.
-- - Trim (app/proxy.py): trim_messages, from the token estimate to the spliced request.
-- - Tokens (app/token_store.py; app/proxy.py from `_int_or_zero` to `_stream_token_meter`): Store has
--   the token totals, with the table on the disk as part of the state, Ledger what they add up to,
--   Meter the count of a stream.
-- - Gateway (app/main.py, `_GatewayMiddleware`): keys, the cap on requests in flight, and counting, with
--   what raises before a request is counted. Denials says who gets past, Laws what is counted.
-- - Reconcile (app/tool_reconcile.py, and `_reconcile_stream` of app/main.py): Match finds the declared
--   tool that a name means, Blocks the calls in a text, Rejected those that a backend refused; Apply
--   rewrites a response, Stream and Finish a stream of events. Said is what the events of a stream say
--   together, Announced the event that it ends with, Ending its end, Relay the whole of it.
-- - Forward (app/proxy.py): Overflow reads an upstream's error, Retry is proxy_json with its trims and
--   retries, Stream is proxy_stream, Bodies the JSON body helpers, Subtitles and Transcripts the
--   formats of a transcription.
-- - Ollama (app/ollama.py): Requests and Answers translate between the Ollama and the OpenAI shapes,
--   Calls the tool calls, and Stream is `stream_response`, which yields payloads and goes on, returns
--   or raises; Grammar says in which order the payloads come.
-- - Fixtures: the data of the concrete runs, which stand in files named Tests.
--
-- How the code is modelled. A manager is a record that its operations take and return, together with
-- the World, which holds the counters, the bus and the config files on the disk. `live` in a manager
-- is the operating system's list of the processes that still run. What an operation meets outside is
-- an argument: the answer to SIGTERM, the spawn, the rounds of polling a server's health with the times
-- at which they end, the clock, the cancellation of a task. An operation holds its manager's lock from
-- end to end, so operations follow one another; the idle watcher is split where it takes the lock. The
-- chat and audio unloads that a handler gathers are made one after the other: they touch different
-- managers. Times are whole numbers and VRAM sizes are counted in a unit that makes them whole. The
-- wait for health takes a list of rounds, and an operation whose rounds are used up `waits`; the list
-- is long enough when one of its rounds ends past the deadline. `json.loads` and `json.dumps` are
-- parameters of what calls them, in Forward one for bytes and one for the text that is decoded with
-- replacements, and so are the ids that uuid4 draws. Case and white space are those
-- of ASCII. A float is a count of millionths.
--
-- Not modelled: HTTP itself, the raw pass-through calls of app/proxy.py and its multipart bodies, the
-- routes of app/main.py for pages, embeddings and the Ollama API and its other admin routes (the admin
-- load route passes the guards by), yaml and pydantic, which make a config of a file,
-- backend/exl3_server.py, and the scripts.
pub mod Base
pub mod Json
pub mod Trim
pub mod Events
pub mod Metrics
pub mod Ollama
pub mod Registry
pub mod Backend
pub mod Chat
pub mod Servers
pub mod Embedding
pub mod Guards
pub mod Tokens
pub mod Gateway
pub mod Reconcile
pub mod Forward
pub mod Fixtures
