-- ===== src/Server.antt =====
-- relayer/src/server.ts: the `.env` file, the set-up, the configuration and the start, in this order.
-- (Serving over HTTP is not here; what a request does is in `Rpc`.)
pub mod Serves
mod Examples
use tornado_4337_relayer.Base.{ℕ, true, false, Option, none, some, List, [], ◌∷◌, Result, ok, err}
use tornado_4337_relayer.Base.Text.{Text, text_eq}
use tornado_4337_relayer.Base.Step.{Step, lift, ◌>>=◌}
use tornado_4337_relayer.Errors.{Error}
use tornado_4337_relayer.Setup.{SetupError, Node, Machine}
use tornado_4337_relayer.Setup.Ensure.{ensure_paymaster_setup}
use tornado_4337_relayer.Service.Start.{Chain, Started, create}
use tornado_4337_relayer.Config.{Env, Host, ConfigError}
use tornado_4337_relayer.Config.ForSetup.{setup_config_from_env}
use tornado_4337_relayer.Config.ForService.{config_from_env}

-- an exception of each part
pub data ServerError : Type 0 where
  in_config : ConfigError → ServerError
  in_setup : SetupError → ServerError
  in_start : Error → ServerError

unfoldable pub rethrow : {A E F : Type 0} → (E → F) → Result E A → Result F A
rethrow f (ok a) = ok a
rethrow f (err e) = err (f e)

unfoldable pub run_setup : {A : Type 0} → Step Machine SetupError A → Step Machine ServerError A
unfolding rethrow
run_setup step m = let (r, m') = step m in (rethrow in_setup r, m')

-- `if (process.env[k] === undefined) process.env[k] = v`
unfoldable pub load_variable : Env → Text × Text → Env
load_variable process (k, v) name = elim (process name) [
  | some set ↦ some set
  | none ↦ elim (text_eq k name) [ true ↦ some v | false ↦ none ]
]

unfoldable pub load_variables : Env → List (Text × Text) → Env
load_variables process [] = process
load_variables process (entry ∷ rest) = load_variables (load_variable process entry) rest

-- `none` stands for a file that is not there or cannot be read
unfoldable pub load_env : Env → Option (List (Text × Text)) → Env
unfolding load_variables
load_env process none = process
load_env process (some parsed) = load_variables process parsed

unfoldable pub serve_from : Host → Env → Node → ℕ → Chain → Step Machine ServerError Started
unfolding rethrow run_setup
serve_from host process node fuel chain = do
  setup ← lift (rethrow in_config (setup_config_from_env host process))
  paymaster ← run_setup (ensure_paymaster_setup setup.config node fuel)
  settings ← lift (rethrow in_config (config_from_env host process paymaster))
  lift (rethrow in_start (create settings.config chain))

-- `parsed` is what `parseEnv` made of the file.
unfoldable pub server :
    Host → Env → Option (List (Text × Text)) → Node → ℕ → Chain → Step Machine ServerError Started
server host process parsed node fuel chain =
    serve_from host (load_env process parsed) node fuel chain
