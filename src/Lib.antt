-- ===== src/Lib.antt =====
-- Verification of voxtral-server, an OpenAI-compatible text-to-speech server.
--
-- A request reaches `HttpAdapter`, which converts it, runs the middleware (blocked clients, rate
-- limit, bearer token) and calls a handler. `handle_speech` validates the request, hands a job to the
-- `InferencePool` and waits for one of its two callbacks. The pool has a bounded queue and one worker
-- thread, which calls the backend. `TtsServer` owns the pool and the limiters, and is built from a
-- configuration that comes from a TOML file and the environment. Metrics are counted on the way.
--
-- The files and the code they model (paths from the repository's root):
--   Base         shared types: bytes, tables, decimal numbers, bit operations, floats, integers
--   Auth         include/tts/auth.hpp, src/server/auth.cpp: Compare (constant_time_equals), ClientIp
--                (extract_client_ip), Bearer (check_bearer_auth), Failures (AuthRateLimiter),
--                Requests (RequestRateLimiter)
--   Voices       include/tts/voices.hpp, src/tts/voices.cpp: VoiceCatalog
--   Validation   include/tts/validation.hpp, src/server/validation.cpp
--   Config       src/config: ServerConfig, with Parse (safe_atoi, safe_narrow, parse_bool), Load
--                (from_env, from_file_and_env) and Validate
--   Metrics      include/tts/metrics.hpp, src/server/metrics.cpp; Registry (what is registered)
--   Backend      include/tts/backend.hpp, src/tts/voxtral_backend.cpp: Wav and Pcm (the WAV files of
--                silence and of float samples), Voxtral (a build without the engine), Engine (a build
--                with it); src/tts/mock_backend.hpp: Mock
--   Logging      src/logging/logger.cpp
--   Pool         include/tts/inference_pool.hpp, src/tts/inference_pool.cpp; System has the steps of
--                clients and worker, Invariant, Drain and Liveness what follows, and Fifo what the
--                pool promises: a first-in first-out line
--   Handler      src/server/request_handler.cpp: Probes (health, ready, voices, metrics), Speech
--                (handle_speech), RequestId; Json is the interface of the JSON library
--   Server       include/tts/server.hpp, src/server/server.cpp: TtsServer
--   Adapter      src/server/http_adapter.cpp: the conversions, Middleware (run_middleware), Routes (the
--                two routes behind it), Dispatch (the table of routes), Lifecycle (start and stop)
--   Main         src/main.cpp: the arguments and the start-up; Signals (signal_handler)
--   Service      the handler over the pool over the backend
-- Each has its theorems in child modules named for what they say, and runs of the code in Tests.
--
-- State and time. An object is a record, and a method a function from its state to the new state and
-- the answer. A critical section of a mutex is one step; a reading of the clock is an argument, a
-- number of nanoseconds. The worker loop of the pool is cut where other threads can see it: at the
-- wait, the two looks at the deadline, the call of the backend, and the end of the guard that counts
-- the active job. A callback belongs to the step that calls it; so does the count of a job that has
-- expired in the queue. A string is the list of its bytes; a `size_t` counter wraps at 2 ^ 64, an `int`
-- is an integer in its range, a `float` its bit pattern.
-- The metrics are those that one request leaves when no other changes them meanwhile.
--
-- Fuel. The eviction loop of `AuthRateLimiter` has as much fuel as the table has entries, and each
-- round removes one. Decimal digits have the number itself as fuel, and each digit divides by ten. The
-- run of the worker in `shutdown` has as many steps as its list of inputs.
--
-- Parameters. The JSON library (`JsonApi`), the engine (`Engine`), the TOML table, the environment, the
-- file system, `gmtime`, and the answers of the pool to one handler are arguments; Service says which
-- answers a pool gives. A division or product of doubles is an argument too. The conversion of float
-- samples is on their bit patterns, with the rounding of IEEE 754 written out.
--
-- Not modelled: the sockets and the dispatch of the HTTP library, which lines are logged where, and
-- the text exposition of the metrics, all of which belong to libraries.
pub mod Base
pub mod Auth
pub mod Voices
pub mod Validation
pub mod Config
pub mod Metrics
pub mod Backend
pub mod Handler
pub mod Logging
pub mod Pool
pub mod Server
pub mod Adapter
pub mod Service
pub mod Main
