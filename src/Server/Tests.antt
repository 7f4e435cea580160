-- ===== src/Server/Tests.antt =====
-- The theorems on the server at a concrete configuration.
use voxtral_server.Config.{ServerConfig, defaults}
use voxtral_server.Config.Validate.{throw_if, ◌>>◌, is_log_level, is_log_format, validate}
use voxtral_server.Voices.{catalog}
use voxtral_server.Server.{TtsServer, new_server, initialize}
use voxtral_server.Server.Laws.{IsStarted, initialize-IsStarted}
use voxtral_server.Base.{◌≡◌, refl, true, none, some, [], ◌∷◌, bytes, eq_bytes, is_empty}

abbrev runnable : ServerConfig
runnable = record defaults { model_path = b'm' ∷ [] }

accepted : validate runnable ≡ none
unfolding validate throw_if ◌>>◌ is_empty is_log_level is_log_format eq_bytes bytes
accepted = refl

abbrev server : TtsServer
server = new_server runnable true (some catalog) 5

initialize-IsStarted_example :
    ((initialize server true).1 ≡ true) × IsStarted runnable (initialize server true).0
initialize-IsStarted_example = initialize-IsStarted runnable (some catalog) 5 accepted
