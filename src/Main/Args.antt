-- ===== src/Main/Args.antt =====
-- What the arguments of the command line ask for.
use voxtral_server.Main.{run, print_version, print_usage, missing_path, parse_args}
use voxtral_server.Base.{
  ◌≡◌, refl, ◌∙◌, false, List, [], ◌∷◌, Bytes, bytes, eq_bytes, eq_bytes_refl,
}

-- `--config` and a path, for each of the paths, in front of other arguments.
unfoldable pub configs : List Bytes → List Bytes → List Bytes
configs [] rest = rest
configs (path ∷ paths) rest = bytes "--config" ∷ path ∷ configs paths rest

unfoldable pub last_path : Bytes → List Bytes → Bytes
last_path path [] = path
last_path path (next ∷ paths) = last_path next paths

option_names :
    (eq_bytes (bytes "--config") (bytes "--version") ≡ false)
    × (eq_bytes (bytes "--config") (bytes "--help") ≡ false)
    × (eq_bytes (bytes "--help") (bytes "--version") ≡ false)
unfolding eq_bytes bytes
option_names = (refl, refl, refl)

parse_args-config :
    (path next : Bytes) (rest : List Bytes)
    → parse_args path (bytes "--config" ∷ next ∷ rest) ≡ parse_args next rest
unfolding parse_args
parse_args-config path next rest =
    let (no_version, no_help, _) = option_names in rw (no_version, no_help, eq_bytes_refl) refl

parse_args-configs :
    (path : Bytes) (paths rest : List Bytes)
    → parse_args path (configs paths rest) ≡ parse_args (last_path path paths) rest
unfolding configs last_path
parse_args-configs path [] rest = refl
parse_args-configs path (next ∷ paths) rest =
    parse_args-config path next (configs paths rest) ∙ parse_args-configs next paths rest

parse_args-version :
    (path : Bytes) (rest : List Bytes) → parse_args path (bytes "--version" ∷ rest) ≡ print_version
unfolding parse_args
parse_args-version path [] = rw eq_bytes_refl refl
parse_args-version path (next ∷ rest) = rw eq_bytes_refl refl

parse_args-help :
    (path : Bytes) (rest : List Bytes) → parse_args path (bytes "--help" ∷ rest) ≡ print_usage
unfolding parse_args
parse_args-help path [] = let (_, _, other) = option_names in rw (other, eq_bytes_refl) refl
parse_args-help path (next ∷ rest) =
    let (_, _, other) = option_names in rw (other, eq_bytes_refl) refl

parse_args-missing : (path : Bytes) → parse_args path (bytes "--config" ∷ []) ≡ missing_path
unfolding parse_args
parse_args-missing path =
    let (no_version, no_help, _) = option_names in rw (no_version, no_help, eq_bytes_refl) refl

-- After any number of `--config` options with their paths, each taken as it is, the end of the
-- arguments runs the program with the last path (or the one given before them), `--version` and
-- `--help` end it, whatever follows, and a `--config` without a path is an error.
pub parse_args_options :
    (path : Bytes) (paths rest : List Bytes)
    → (parse_args path (configs paths []) ≡ run (last_path path paths))
      × (parse_args path (configs paths (bytes "--version" ∷ rest)) ≡ print_version)
      × (parse_args path (configs paths (bytes "--help" ∷ rest)) ≡ print_usage)
      × (parse_args path (configs paths (bytes "--config" ∷ [])) ≡ missing_path)
parse_args_options path paths rest = (
  parse_args-configs path paths [] ∙ (unfold parse_args in refl),
  parse_args-configs path paths (bytes "--version" ∷ rest)
      ∙ parse_args-version (last_path path paths) rest,
  parse_args-configs path paths (bytes "--help" ∷ rest)
      ∙ parse_args-help (last_path path paths) rest,
  parse_args-configs path paths (bytes "--config" ∷ []) ∙ parse_args-missing (last_path path paths),
)
