-- ===== src/Cli/Commands.antt =====
-- crates/netplan-cli/src/main.rs: commands as requests, and the daemon started for a call.
use netplan.Base.{
  ℕ, zero, suc, ◌==◌, Bool, true, not, ◌||◌, Option, none, some, [], ◌∷◌, if◌then◌else◌, Text, ◌++◌,
  codes, Result, ok, err,
}
use netplan.Plan.{decimal}
use netplan.Config.{ConfigFormat}
use netplan.Protocol.{Request, Response, ConfigAction}
use netplan.Protocol
use netplan.Rpc.{Value, Serde}
use netplan.Output.Answers.{
  OutputFormat, CliResult, cli_error, LifecycleResult, render, render_lifecycle,
}
use netplan.Cli.{Env, Task, CallError, pure, fail, ◌>>=◌, ◌>>◌, is_endpoint_absent, error_text}
use netplan.Cli.Lifecycle.{LifecycleAction, start_installed_service, execute}

-- `Commands`, with those of `WifiCommands`
pub data Command : Type 0 where
  lifecycle : LifecycleAction → Command
  ping capabilities adapters status : Command
  wifi_status : (if_index : Option ℕ) → Command
  wifi_scan : (if_index : Option ℕ) (cached : Bool) (timeout_ms : ℕ) → Command
  validate plan : (path : Text) (format : ConfigFormat) → Command
  apply : (path : Text) (format : ConfigFormat) (live : Bool) → Command
  job : (job_id : Text) → Command
  rpc interactive internal_autostart : Command

-- The rounds of `call_with_autostart`
abbrev pub start_attempts : ℕ
start_attempts = 40

module _ {S : Type 0} (env : Env S) where
  unfoldable pub spawn_daemon_elevated : Task S (Unit {0})
  spawn_daemon_elevated = start_installed_service env >>= λ started.
      if started then pure tt else env.start_sibling env.endpoint

  abbrev elevated_exit : Option ℕ → Task S (Unit {0})
  elevated_exit none = fail (codes "elevated daemon startup returned no exit code")
  elevated_exit (some code) =
      if code == 0
      then pure tt
      else fail (codes "elevated daemon startup failed with exit code " ++ decimal code)

  unfoldable pub spawn_daemon : Task S (Unit {0})
  spawn_daemon = env.is_elevated >>= λ elevated.
      if elevated
      then spawn_daemon_elevated
      else env.run_as_administrator (
          codes "--netplan-elevated-child"
          ∷ codes "--endpoint"
          ∷ env.endpoint
          ∷ codes "__autostart"
          ∷ [])
        >>= elevated_exit

  abbrev pub not_started : Option CallError → Text
  not_started none = codes "daemon did not create its endpoint"
  not_started (some error) = codes "daemon did not become ready: " ++ error_text error

  abbrev pub retried :
      (Option CallError → S → Result Text Response × S)
      → Result CallError Response × S
      → Result Text Response × S
  retried again (ok response, s) = (ok response, s)
  retried again (err error, s) = again (some error) s

  -- The rounds that are left, with the last error
  unfoldable pub retry : ℕ → Request → Option CallError → Task S Response
  retry zero request last_error s = (err (not_started last_error), s)
  retry (suc n) request last_error s = retried (retry n request) (env.call request (env.sleep 50 s))

  abbrev pub first_answered :
      Request → Bool → Result CallError Response × S → Result Text Response × S
  first_answered request no_autostart (ok response, s) = (ok response, s)
  first_answered request no_autostart (err error, s) =
      if no_autostart || not (is_endpoint_absent error)
      then (err (error_text error), s)
      else (spawn_daemon >> retry start_attempts request none) s

  unfoldable pub call_with_autostart : Request → (no_autostart : Bool) → Task S Response
  call_with_autostart request no_autostart s =
      first_answered request no_autostart (env.call request s)

  unfoldable pub config_request : Text → ConfigAction → ConfigFormat → Bool → Task S Request
  config_request path action format dry_run =
      env.read_file path >>= λ document. pure (Protocol.config action format document dry_run)

  -- The request of a command that has one
  unfoldable pub request_of : Command → Task S Request
  request_of ping = pure Protocol.ping
  request_of capabilities = pure Protocol.capabilities
  request_of adapters = pure Protocol.list_adapters
  request_of status = pure Protocol.network_status
  request_of (wifi_status if_index) = pure (Protocol.wifi_status if_index)
  request_of (wifi_scan if_index cached timeout_ms) =
      pure (Protocol.wifi_scan if_index (not cached) timeout_ms)
  request_of (validate path format) = config_request path Protocol.validate_only format true
  request_of (plan path format) = config_request path Protocol.plan_only format true
  request_of (apply path format live) = config_request path Protocol.apply_config format (not live)
  request_of (job job_id) = pure (Protocol.job_status job_id)
  request_of (lifecycle action) = fail (codes "no request")
  request_of rpc = fail (codes "command is unavailable inside interactive dispatch")
  request_of interactive = fail (codes "command is unavailable inside interactive dispatch")
  request_of internal_autostart = fail (codes "no request")

  module _ (serde : Serde) (pretty : Value → Result Text Text) where
    -- What a command prints, none where it prints nothing, or its error
    abbrev pub Printed : Type 0
    Printed = CliResult (Option Text)

    abbrev printed : CliResult Text → Printed
    printed (ok text) = ok (some text)
    printed (err error) = err error

    abbrev lifecycle_printed : OutputFormat → Result Text LifecycleResult × S → Printed × S
    lifecycle_printed format (ok result, s) =
        (printed (render_lifecycle serde pretty result format), s)
    lifecycle_printed format (err message, s) = (err (cli_error message), s)

    abbrev response_printed : OutputFormat → Result Text Response × S → Printed × S
    response_printed format (ok response, s) = (printed (render serde pretty response format), s)
    response_printed format (err message, s) = (err (cli_error message), s)

    abbrev spawned : Result Text (Unit {0}) × S → Printed × S
    spawned (ok u, s) = (ok none, s)
    spawned (err message, s) = (err (cli_error message), s)

    unfoldable pub run_command : Command → (no_autostart : Bool) → OutputFormat → S → Printed × S
    run_command (lifecycle action) no_autostart format s =
        lifecycle_printed format (execute env spawn_daemon action s)
    run_command internal_autostart no_autostart format s = spawned (spawn_daemon_elevated s)
    run_command command no_autostart format s =
        response_printed format
          ((request_of command >>= λ request. call_with_autostart request no_autostart) s)
