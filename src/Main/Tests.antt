-- ===== src/Main/Tests.antt =====
-- The theorems on the start-up at concrete inputs.
use voxtral_server.Config.{ServerConfig, defaults}
use voxtral_server.Config.Validate.{validate}
use voxtral_server.Backend.Voxtral.{PathInfo}
use voxtral_server.Main.{run, parse_args, failed, start}
use voxtral_server.Adapter.Lifecycle.{listening, new_adapter, begin_start}
use voxtral_server.Main.Signals.{
  Process, new_process, signal_handler, publishes, starts, Reach, here, next,
}
use voxtral_server.Main.Signals.Order.{IsOrderly, Reach-IsOrderly, is_heard, stops-signal_handler}
use voxtral_server.Main.Laws.{is_there, Serves, start_cases}
use voxtral_server.Base.{
  ◌≡◌, refl, ◌≢◌, ◌⊎◌, true, false, none, [], ◌∷◌, bytes, eq_bytes, if◌then◌else◌,
}

-- An option that is none is passed over, and `--config` takes what follows it, whatever it is.
arguments :
    parse_args (bytes "a") (bytes "-v" ∷ bytes "--config" ∷ bytes "--help" ∷ [])
    ≡ run (bytes "--help")
unfolding parse_args eq_bytes bytes
arguments = refl

abbrev runnable : ServerConfig
runnable = record defaults { model_path = b'm' ∷ [] }

abbrev file : PathInfo
file = record { exists = true; is_regular_file = true; is_directory = false }

start_cases_example :
    ((validate runnable ≡ none)
      × (is_there file ≡ true)
      × Serves runnable true (start runnable file 5 true))
    ⊎ (((validate runnable ≢ none) ⊎ (is_there file ≡ false))
        × (start runnable file 5 true ≡ failed))
start_cases_example = start_cases runnable file 5 true

-- `main` in `start`, from the state `p` on.
abbrev published : Process → Process
published p = record p { g_adapter = true }

abbrev started : Process → Process
started p = record (published p) { adapter = begin_start runnable p.adapter }

starts_new : Reach runnable new_process (started new_process)
unfolding new_process new_adapter
starts_new = next (next here (publishes refl refl)) (starts refl refl)

Reach-IsOrderly_example : IsOrderly runnable (started new_process)
Reach-IsOrderly_example = Reach-IsOrderly runnable (started new_process) starts_new

-- A signal in front of `start` is lost: the listener runs, and no signal stops it any more.
starts_signalled :
    Reach runnable (signal_handler new_process) (started (signal_handler new_process))
unfolding signal_handler new_process new_adapter
starts_signalled = next (next here (publishes refl refl)) (starts refl refl)

runs_on : (started (signal_handler new_process)).adapter.phase ≡ listening
unfolding begin_start
runs_on = refl

stops-signal_handler_example :
    (started (signal_handler new_process)).adapter.server.stops
    ≡ (if is_heard new_process then 1 else 0)
stops-signal_handler_example =
    stops-signal_handler runnable new_process (started (signal_handler new_process)) here unasked
      starts_signalled
  where
    unasked : new_process.g_shutdown_requested ≡ false
    unasked = unfold new_process in refl
