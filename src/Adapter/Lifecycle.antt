-- ===== src/Adapter/Lifecycle.antt =====
-- The life of an `HttpAdapter` (constructor, destructor, `start`, `stop` and `is_running` in
-- src/server/http_adapter.cpp), with the calls of the library's server as its record.
use voxtral_server.Config.{ServerConfig}
use voxtral_server.Base.{ℕ, ◌+◌, Bool, true, false, Option, none, some, if◌then◌else◌}
use voxtral_server.Base.Int.{ℤ}

-- What the code has told `httplib::Server`.
pub record Listener : Type 0 where
  pub read_timeout : Option ℤ
  pub write_timeout : Option ℤ
  pub payload_max_length : Option ℕ
  -- the calls of its `stop`
  pub stops : ℕ

-- Where the thread that calls `start` stands.
pub data Phase : Type 0 where
  before : Phase
  -- from the store to `running_` to the return of `listen`
  listening : Phase
  returned : Bool → Phase

pub record HttpAdapter : Type 0 where
  pub server : Listener
  pub running : Bool
  pub phase : Phase

-- The constructor.
unfoldable pub new_adapter : HttpAdapter
new_adapter = record {
  server = record {
    read_timeout = none;
    write_timeout = none;
    payload_max_length = none;
    stops = 0;
  };
  running = false;
  phase = before;
}

-- `start`, up to the call of `listen`.
unfoldable pub begin_start : ServerConfig → HttpAdapter → HttpAdapter
begin_start cfg a = record {
  server = record a.server {
    read_timeout = some cfg.request_timeout_seconds;
    write_timeout = some cfg.request_timeout_seconds;
    payload_max_length = some 1_048_576;
  };
  running = true;
  phase = listening;
}

-- `start`, from the return of `listen` on.
unfoldable pub end_start : Bool → HttpAdapter → HttpAdapter
end_start ok a = record a { running = false; phase = returned ok }

unfoldable pub stop : HttpAdapter → HttpAdapter
stop a =
    if a.running then record a { server = record a.server { stops = a.server.stops + 1 } } else a

unfoldable pub is_running : HttpAdapter → Bool
is_running a = a.running

-- The destructor.
unfoldable pub destroy : HttpAdapter → HttpAdapter
destroy a = stop a
