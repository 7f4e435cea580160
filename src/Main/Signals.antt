-- ===== src/Main/Signals.antt =====
-- Signals during the life of the listener: `signal_handler` and the end of `main` (src/main.cpp).
pub mod Order
use voxtral_server.Config.{ServerConfig}
use voxtral_server.Adapter.Lifecycle.{
  Listener, Phase, before, listening, returned, HttpAdapter, new_adapter, begin_start, end_start,
  stop,
}
use voxtral_server.Base.{◌<◌, ◌≡◌, Bool, true, false, if◌then◌else◌}

-- The two globals, and the adapter that `main` has constructed.
pub record Process : Type 0 where
  pub g_shutdown_requested : Bool
  -- whether `g_adapter` is set
  pub g_adapter : Bool
  pub adapter : HttpAdapter

-- The state when the handlers are installed and the adapter is constructed.
unfoldable pub new_process : Process
new_process = record { g_shutdown_requested = false; g_adapter = false; adapter = new_adapter }

unfoldable pub signal_handler : Process → Process
signal_handler p = if p.g_shutdown_requested then p else record p {
  g_shutdown_requested = true;
  adapter = if p.g_adapter then stop p.adapter else p.adapter;
}

-- A step of `main`, or a signal. `listen` answers true only once the library has been told to stop.
pub data Step (cfg : ServerConfig) (p : Process) : Process → Type 0 where
  signals : Step cfg p (signal_handler p)
  publishes :
      p.adapter.phase ≡ before → p.g_adapter ≡ false → Step cfg p (record p { g_adapter = true })
  starts :
      p.adapter.phase ≡ before
      → p.g_adapter ≡ true
      → Step cfg p (record p { adapter = begin_start cfg p.adapter })
  returns :
      (ok : Bool)
      → p.adapter.phase ≡ listening
      → (ok ≡ true → 0 < p.adapter.server.stops)
      → Step cfg p (record p { adapter = end_start ok p.adapter })
  retracts :
      (ok : Bool) → p.adapter.phase ≡ returned ok → Step cfg p (record p { g_adapter = false })

pub data Reach (cfg : ServerConfig) (p : Process) : Process → Type 0 where
  here : Reach cfg p p
  next : {q r : Process} → Reach cfg p q → Step cfg q r → Reach cfg p r
