-- ===== src/Main.antt =====
-- The command line and the start-up (src/main.cpp). Signals end the listener, whose answer is an
-- argument; so are the environment, the files, the clock and what the file system says of the model.
pub mod Laws
pub mod Args
pub mod Signals
mod Tests
use voxtral_server.Config.{ServerConfig}
use voxtral_server.Config.Load.{TomlFile, or_keep, from_file_and_env}
use voxtral_server.Config.Validate.{validate}
use voxtral_server.Backend.Voxtral.{VoxtralBackend, new_backend, PathInfo}
use voxtral_server.Backend.Voxtral
use voxtral_server.Server.{TtsServer, new_server, initialize}
use voxtral_server.Voices.{catalog}
use voxtral_server.Base.{
  ℕ, Bool, true, not, ◌&&◌, Option, none, some, List, ◌∷◌, if◌then◌else◌, Bytes, bytes, eq_bytes,
  is_empty, [],
}

-- What the arguments ask for.
pub data Command : Type 0 where
  run : Bytes → Command
  print_version : Command
  print_usage : Command
  missing_path : Command

-- The loop over the arguments after the program's name.
unfoldable pub parse_args : Bytes → List Bytes → Command
parse_args config_path [] = run config_path
parse_args config_path (arg ∷ []) =
    if eq_bytes arg (bytes "--version")
    then print_version
    else if eq_bytes arg (bytes "--help")
    then print_usage
    else if eq_bytes arg (bytes "--config")
    then missing_path
    else run config_path
parse_args config_path (arg ∷ value ∷ rest) =
    let with_value = parse_args value rest in
    let without = parse_args config_path (value ∷ rest) in
    if eq_bytes arg (bytes "--version")
    then print_version
    else if eq_bytes arg (bytes "--help")
    then print_usage
    else if eq_bytes arg (bytes "--config")
    then with_value
    else without

unfoldable pub command : (Bytes → Option Bytes) → List Bytes → Command
command getenv args =
    parse_args (or_keep (getenv (bytes "TTS_CONFIG_PATH")) (bytes "config/server.toml")) args

-- The exit code, and the server whose listener ran.
pub record Outcome : Type 0 where
  pub exit_code : ℕ
  pub served : Option TtsServer

abbrev pub failed : Outcome
failed = record { exit_code = 1; served = none }

-- From `TtsServer` on; `shutdown` of the server follows the listener.
unfoldable pub listen : TtsServer × Bool → Bool → Outcome
listen (s, initialized) listen_ok =
    if not initialized
    then failed
    else record { exit_code = if listen_ok then 0 else 1; served = some s }

-- From the validated configuration on.
unfoldable pub load : ServerConfig → PathInfo → ℕ → Bool → Outcome
load cfg model now listen_ok =
    let (backend, loaded) = Voxtral.initialize new_backend cfg.model_path model in
    if cfg.require_auth && is_empty cfg.api_key
    then failed
    else if not loaded
    then failed
    else listen (initialize (new_server cfg true (some catalog) now) (Voxtral.is_ready backend))
        listen_ok

-- From the loaded configuration on.
unfoldable pub start : ServerConfig → PathInfo → ℕ → Bool → Outcome
start cfg model now listen_ok = elim (validate cfg) [
  | some what ↦ failed
  | none ↦ load cfg model now listen_ok
]

unfoldable pub main :
    (Bytes → Option Bytes) → (Bytes → TomlFile) → PathInfo → ℕ → Bool → List Bytes → Outcome
main getenv file_at model now listen_ok args = elim (command getenv args) [
  | print_version ↦ record { exit_code = 0; served = none }
  | print_usage ↦ record { exit_code = 0; served = none }
  | missing_path ↦ failed
  | run config_path ↦
      start (from_file_and_env getenv (file_at config_path) config_path) model now listen_ok
]
