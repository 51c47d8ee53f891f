-- ===== src/Cli/Lifecycle.antt =====
-- crates/netplan-cli/src/service.rs: the lifecycle commands, as built for Windows, where the endpoint of
-- the installed service is the default one.
use netplan.Base.{
  ℕ, zero, suc, Bool, true, false, not, Option, none, some, if◌then◌else◌, Text, text_eq, ◌++◌,
  codes, Result, ok, err, fail_if,
}
use netplan.Protocol.{Request, Response}
use netplan.Protocol
use netplan.Output.Answers.{LifecycleResult}
use netplan.Cli.{Env, Task, CallError, pure, ◌>>=◌, ◌>>◌, is_endpoint_absent, error_text}
use netplan.Cli.Services.{
  is_installed, enable_service, disable_service, start_installed, stop_installed,
}

pub data LifecycleAction : Type 0 where
  enable disable start stop : LifecycleAction

-- `DAEMON_WAIT_ATTEMPTS`
abbrev pub daemon_wait_attempts : ℕ
daemon_wait_attempts = 100

module _ {S : Type 0} (env : Env S) where
  abbrev pub ready_answer : Result CallError Response × S → Result Text Bool × S
  ready_answer (ok (Protocol.pong version protocol), s) = (ok true, s)
  ready_answer (ok (Protocol.error code message), s) = (
    err (
        codes "daemon rejected readiness probe ("
        ++ (env.debug_code code ++ (codes "): " ++ message))),
    s,
  )
  ready_answer (ok response, s) = (
    err (codes "daemon returned an unexpected readiness response: " ++ env.debug_response response),
    s,
  )
  ready_answer (err error, s) =
      (if is_endpoint_absent error then ok false else err (error_text error), s)

  unfoldable pub daemon_is_ready : Task S Bool
  daemon_is_ready s = ready_answer (env.call Protocol.ping s)

  abbrev not_ready : Option Text → Text
  not_ready none = codes "daemon did not become ready"
  not_ready (some error) = codes "daemon did not become ready: " ++ error

  abbrev pub probed :
      (Option Text → S → Result Text (Unit {0}) × S)
      → Result CallError Response × S
      → Result Text (Unit {0}) × S
  probed again (ok (Protocol.pong version protocol), s) = (ok tt, s)
  probed again (ok response, s) =
      again (some (codes "unexpected response: " ++ env.debug_response response)) (env.sleep 50 s)
  probed again (err error, s) = again (some (error_text error)) (env.sleep 50 s)

  -- The attempts of `wait_until_ready` that are left, with the last error
  unfoldable pub attempt_ready : ℕ → Option Text → Task S (Unit {0})
  attempt_ready zero last_error s = (err (not_ready last_error), s)
  attempt_ready (suc n) last_error s = probed (attempt_ready n) (env.call Protocol.ping s)

  unfoldable pub wait_until_ready : Task S (Unit {0})
  wait_until_ready = attempt_ready daemon_wait_attempts none

  abbrev pub gone_probed :
      (S → Result Text (Unit {0}) × S) → Result CallError Response × S → Result Text (Unit {0}) × S
  gone_probed again (ok response, s) = again (env.sleep 50 s)
  gone_probed again (err error, s) =
      if is_endpoint_absent error then (ok tt, s) else again (env.sleep 50 s)

  unfoldable pub attempt_stopped : ℕ → Task S (Unit {0})
  attempt_stopped zero s = (err (codes "daemon did not stop within 5 seconds"), s)
  attempt_stopped (suc n) s = gone_probed (attempt_stopped n) (env.call Protocol.ping s)

  unfoldable pub wait_until_stopped : Task S (Unit {0})
  wait_until_stopped = attempt_stopped daemon_wait_attempts

  abbrev shutdown_failed : CallError → Text
  shutdown_failed error =
      codes "daemon shutdown failed: "
      ++ (error_text error
          ++ codes
              "; if this daemon predates lifecycle support, end the existing netpland process once and retry")

  abbrev pub shutdown_answered : Result CallError Response × S → Result Text Bool × S
  shutdown_answered (ok Protocol.shutdown_accepted, s) = (wait_until_stopped >>= λ u. pure true) s
  shutdown_answered (ok (Protocol.error code message), s) = (
    err (codes "daemon rejected shutdown (" ++ (env.debug_code code ++ (codes "): " ++ message))),
    s,
  )
  shutdown_answered (ok response, s) = (
    err (codes "daemon returned an unexpected shutdown response: " ++ env.debug_response response),
    s,
  )
  shutdown_answered (err error, s) =
      (if is_endpoint_absent error then ok false else err (shutdown_failed error), s)

  unfoldable pub shutdown_if_running : Task S Bool
  shutdown_if_running s = shutdown_answered (env.call Protocol.shutdown s)

  unfoldable pub require_default_service_endpoint : Task S (Unit {0})
  require_default_service_endpoint s = (
    fail_if (not (text_eq env.endpoint env.default_endpoint)) (
        codes "Windows service installation uses the default endpoint "
        ++ (env.debug env.default_endpoint ++ codes "; remove --endpoint for enable/disable")),
    s,
  )

  -- `client.endpoint() == DEFAULT_WINDOWS_ENDPOINT && windows::is_installed()?`
  abbrev pub service_here : Task S Bool
  service_here = if text_eq env.endpoint env.default_endpoint then is_installed env else pure false

  abbrev pub only_if : Bool → Task S (Unit {0}) → Task S (Unit {0})
  only_if true task = task
  only_if false task = pure tt

  unfoldable pub start_installed_service : Task S Bool
  start_installed_service =
      service_here >>= λ here. if here then start_installed env >>= (λ u. pure true) else pure false

  abbrev service_mode : Bool → Text
  service_mode installed = if installed then codes "windows-service" else codes "background-process"

  abbrev outcome : Text → Bool → Text → Text → LifecycleResult
  outcome action installed state message = record {
    action = action;
    mode = service_mode installed;
    installed = installed;
    state = state;
    message = message;
  }

  unfoldable pub enable_daemon : Task S LifecycleResult
  enable_daemon = do
    require_default_service_endpoint
    installed ← is_installed env
    only_if installed (stop_installed env)
    was_running ← shutdown_if_running
    program ← env.daemon_program
    enable_service env program
    wait_until_ready
    pure (
        outcome (codes "enable") true (codes "running")
          (codes "installed for automatic startup and started"))

  unfoldable pub disable_daemon : Task S LifecycleResult
  disable_daemon = do
    require_default_service_endpoint
    installed ← is_installed env
    only_if installed (disable_service env)
    was_running ← shutdown_if_running
    pure (record {
      action = codes "disable";
      mode = codes "windows-service";
      installed = false;
      state = codes "stopped";
      message = codes "stopped and removed from automatic startup";
    })

  unfoldable pub stop_daemon : Task S LifecycleResult
  stop_daemon = do
    installed ← service_here
    only_if installed (stop_installed env)
    was_running ← shutdown_if_running
    pure (
        outcome (codes "stop") installed (codes "stopped") (
          if installed
          then codes "Windows service is stopped; automatic startup remains enabled"
          else codes "background daemon is stopped"))

  module _ (spawn_daemon : Task S (Unit {0})) where
    abbrev pub once_probed : (ready : Bool) → Task S LifecycleResult
    once_probed true =
        pure (outcome (codes "start") false (codes "running") (codes "daemon was already running"))
    once_probed false =
        spawn_daemon
        >> (wait_until_ready
            >> pure (
                outcome (codes "start") false (codes "running")
                  (codes "started sibling netpland in the background")))

    abbrev pub start_host : (installed : Bool) → Task S LifecycleResult
    start_host true =
        start_installed env
        >> (wait_until_ready
            >> pure (
                outcome (codes "start") true (codes "running")
                  (codes "Windows service is running")))
    start_host false = daemon_is_ready >>= once_probed

    unfoldable pub start_daemon : Task S LifecycleResult
    start_daemon = service_here >>= start_host

    unfoldable pub execute : LifecycleAction → Task S LifecycleResult
    execute enable = enable_daemon
    execute disable = disable_daemon
    execute start = start_daemon
    execute stop = stop_daemon
