-- ===== src/Cli/Services.antt =====
-- crates/netplan-cli/src/service.rs: the module `windows`, the daemon as a Windows service.
use netplan.Base.{
  ℕ, zero, suc, ◌+◌, ◌==◌, leb, Bool, true, false, Option, none, some, if◌then◌else◌, Text, ◌++◌,
  codes, Result, ok, err,
}
use netplan.Plan.{decimal}
use netplan.Cli.{Env, Task, Opened, opened, missing, not_opened, pure, ◌>>=◌, ◌>>◌}

abbrev pub service_stopped : ℕ
service_stopped = 1

abbrev pub service_start_pending : ℕ
service_start_pending = 2

abbrev pub service_stop_pending : ℕ
service_stop_pending = 3

abbrev pub service_running : ℕ
service_running = 4

-- `SERVICE_WAIT_TIMEOUT`, in milliseconds
abbrev pub wait_timeout : ℕ
wait_timeout = 30000

abbrev pub not_reached : ℕ → Text
not_reached desired =
    codes "PE Netplan service did not reach state " ++ decimal desired ++ codes " within 30 seconds"

-- A call whose failure of one kind is no failure
abbrev tolerated : {S : Type 0} → Result (Bool × Text) (Unit {0}) × S → Result Text (Unit {0}) × S
tolerated (ok u, s) = (ok tt, s)
tolerated (err (true, message), s) = (ok tt, s)
tolerated (err (false, message), s) = (err message, s)

module _ {S : Type 0} (env : Env S) where
  abbrev pub polled :
      ℕ
      → ℕ
      → (S → Option (Result Text (Unit {0})) × S)
      → Result Text ℕ × S
      → Option (Result Text (Unit {0})) × S
  polled deadline desired again (err message, s) = (some (err message), s)
  polled deadline desired again (ok current, s) =
      if current == desired
      then (some (ok tt), s)
      else if leb deadline (env.now s)
      then (some (err (not_reached desired)), s)
      else again (env.sleep 100 s)

  -- The loop of `wait_for_state`, of which there are rounds enough
  unfoldable pub poll_state : ℕ → ℕ → ℕ → S → Option (Result Text (Unit {0})) × S
  poll_state zero deadline desired s = (none, s)
  poll_state (suc fuel) deadline desired s =
      polled deadline desired (poll_state fuel deadline desired) (env.query_state s)

  abbrev pub or_late : ℕ → Option (Result Text (Unit {0})) × S → Result Text (Unit {0}) × S
  or_late desired (some answer, s) = (answer, s)
  or_late desired (none, s) = (err (not_reached desired), s)

  unfoldable pub wait_for_state : ℕ → Task S (Unit {0})
  wait_for_state desired s = or_late desired (poll_state 302 (env.now s + wait_timeout) desired s)

  abbrev is_open : Opened × S → Result Text Bool × S
  is_open (opened, s) = (ok true, s)
  is_open (missing, s) = (ok false, s)
  is_open (not_opened message, s) = (err message, s)

  unfoldable pub is_installed : Task S Bool
  is_installed = env.open_manager >> λ s. is_open (env.open_service s)

  abbrev required : Opened × S → Result Text (Unit {0}) × S
  required (opened, s) = (ok tt, s)
  required (missing, s) =
      (err (codes "PE Netplan service is not installed; run `netplan enable` first"), s)
  required (not_opened message, s) = (err message, s)

  unfoldable pub open_required_service : Task S (Unit {0})
  open_required_service s = required (env.open_service s)

  abbrev start_now : Task S (Unit {0})
  start_now = (λ s. tolerated (env.start_service s)) >> wait_for_state service_running

  unfoldable pub start_handle : Task S (Unit {0})
  start_handle = env.query_state >>= λ state.
      if state == service_running
      then pure tt
      else if state == service_stop_pending
      then wait_for_state service_stopped >> start_now
      else if state == service_start_pending
      then wait_for_state service_running
      else start_now

  unfoldable pub stop_handle : Task S (Unit {0})
  stop_handle = env.query_state >>= λ state.
      if state == service_stopped
      then pure tt
      else if state == service_stop_pending
      then wait_for_state service_stopped
      else (λ s. tolerated (env.control_stop s)) >> wait_for_state service_stopped

  abbrev configured : Text → Opened × S → Result Text (Unit {0}) × S
  configured program (opened, s) = env.change_config program s
  configured program (missing, s) = env.create_service program s
  configured program (not_opened message, s) = (err message, s)

  -- `windows::enable`
  unfoldable pub enable_service : Text → Task S (Unit {0})
  enable_service program =
      env.open_manager >> (λ s. configured program (env.open_service s)) >> start_handle

  abbrev removed : Opened × S → Result Text (Unit {0}) × S
  removed (opened, s) = (stop_handle >> env.delete_service) s
  removed (missing, s) = (ok tt, s)
  removed (not_opened message, s) = (err message, s)

  -- `windows::disable`
  unfoldable pub disable_service : Task S (Unit {0})
  disable_service = env.open_manager >> λ s. removed (env.open_service s)

  -- `windows::start` and `windows::stop`
  unfoldable pub start_installed : Task S (Unit {0})
  start_installed = env.open_manager >> open_required_service >> start_handle

  unfoldable pub stop_installed : Task S (Unit {0})
  stop_installed = env.open_manager >> open_required_service >> stop_handle
