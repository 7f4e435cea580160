-- ===== src/Main/Laws.antt =====
-- When the program serves, and with what.
use voxtral_server.Config.{ServerConfig}
use voxtral_server.Config.Validate.{validate}
use voxtral_server.Config.Valid.{validate-none_iff}
use voxtral_server.Backend.Voxtral.{
  VoxtralBackend, new_backend, PathInfo, initialize-ready, initialize_iff,
}
use voxtral_server.Backend.Voxtral
use voxtral_server.Server.{TtsServer, new_server, initialize}
use voxtral_server.Server.Laws.{IsStarted, initialize-IsStarted}
use voxtral_server.Voices.{catalog}
use voxtral_server.Main.{Outcome, failed, listen, load, start}
use voxtral_server.Base.{
  ℕ, ◌≡◌, refl, ◌∙◌, ◌≢◌, ◌⊎◌, inl, inr, Bool, true, false, ◌&&◌, ◌||◌, Option, none, some, arith,
  if◌then◌else◌, Bool-cases, Bytes, is_empty, is_empty_iff,
}

-- A file or a directory that is there.
abbrev pub is_there : PathInfo → Bool
is_there model = model.exists && (model.is_regular_file || model.is_directory)

abbrev loads : ServerConfig → PathInfo → Bool
loads cfg model = (Voxtral.initialize new_backend cfg.model_path model).1

loads-is_there :
    (cfg : ServerConfig) (model : PathInfo) → validate cfg ≡ none → loads cfg model ≡ is_there model
loads-is_there cfg model ok =
    let v = (validate-none_iff cfg).0 ok in
    ground (
      arith,
      (initialize_iff new_backend cfg.model_path model).0,
      v.model_path,
      is_empty_iff cfg.model_path,
    )

-- The listener ran, on a server that is ready with the limits of the configuration.
abbrev pub Serves : ServerConfig → Bool → Outcome → Type 0
Serves cfg listen_ok o =
    (s : TtsServer) × (o.served ≡ some s)
    × (o.exit_code ≡ (if listen_ok then 0 else 1))
    × IsStarted cfg s

load-Serves :
    (cfg : ServerConfig) (model : PathInfo) (now : ℕ) (listen_ok : Bool)
    → validate cfg ≡ none
    → loads cfg model ≡ true
    → Serves cfg listen_ok (load cfg model now listen_ok)
unfolding load listen Voxtral.is_ready
load-Serves cfg model now listen_ok ok there =
    let (worked, started) = initialize-IsStarted cfg (some catalog) now ok in
    let v = (validate-none_iff cfg).0 ok in
    let key : cfg.require_auth && is_empty cfg.api_key ≡ false =
      ground (arith, v.api_key, is_empty_iff cfg.api_key) in
    let ready = initialize-ready new_backend cfg.model_path model there in
    rw (key, there, ready, worked)
      ((initialize (new_server cfg true (some catalog) now) true).0, refl, refl, started)

load-none :
    (cfg : ServerConfig) (model : PathInfo) (now : ℕ) (listen_ok : Bool)
    → loads cfg model ≡ false
    → load cfg model now listen_ok ≡ failed
unfolding load
load-none cfg model now listen_ok gone =
    elim (Bool-cases (cfg.require_auth && is_empty cfg.api_key)) [
      | inl no_key ↦ rw no_key refl
      | inr key ↦ rw (key, gone) refl
    ]

start-load :
    (cfg : ServerConfig) (model : PathInfo) (now : ℕ) (listen_ok : Bool)
    → validate cfg ≡ none
    → start cfg model now listen_ok ≡ load cfg model now listen_ok
unfolding start
start-load cfg model now listen_ok e = rw (e, start) refl

start-some :
    (cfg : ServerConfig) (model : PathInfo) (now : ℕ) (listen_ok : Bool) (what : Bytes)
    → validate cfg ≡ some what
    → start cfg model now listen_ok ≡ failed
unfolding start
start-some cfg model now listen_ok what e = rw (e, start) refl

-- With a loaded configuration, the program either serves, and then `validate` throws nothing,
-- the model's path is a file or a directory that is there, the server that listens is ready
-- with the configuration, a new pool of its sizes and limiters of its limits and window, and
-- the exit code is 0 if the listener says true and else 1; or it exits with 1 and has not
-- served, and then `validate` throws or the model's path is no file or directory that is there.
pub start_cases :
    (cfg : ServerConfig) (model : PathInfo) (now : ℕ) (listen_ok : Bool)
    → ((validate cfg ≡ none)
        × (is_there model ≡ true)
        × Serves cfg listen_ok (start cfg model now listen_ok))
      ⊎ (((validate cfg ≢ none) ⊎ (is_there model ≡ false))
          × (start cfg model now listen_ok ≡ failed))
start_cases cfg model now listen_ok = of_result (validate cfg) refl
  where
    of_result :
        (o : Option Bytes)
        → validate cfg ≡ o
        → ((validate cfg ≡ none)
            × (is_there model ≡ true)
            × Serves cfg listen_ok (start cfg model now listen_ok))
          ⊎ (((validate cfg ≢ none) ⊎ (is_there model ≡ false))
              × (start cfg model now listen_ok ≡ failed))
    of_result (some what) e =
        inr (inl (λ valid. cc (e, valid)), start-some cfg model now listen_ok what e)
    of_result none e = elim (Bool-cases (is_there model)) [
      | inl there ↦ inl (
        e,
        there,
        rw (start-load cfg model now listen_ok e)
            (load-Serves cfg model now listen_ok e (loads-is_there cfg model e ∙ there)),
      )
      | inr gone ↦ inr (
        inr gone,
        start-load cfg model now listen_ok e
            ∙ load-none cfg model now listen_ok (loads-is_there cfg model e ∙ gone),
      )
    ]
