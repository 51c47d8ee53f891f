-- ===== src/Output/Answers.antt =====
-- crates/netplan-cli/src/output.rs: an answer of the daemon, of a lifecycle command, or an error, for
-- a reader or as JSON.
use netplan.Base.{
  Bool, Option, none, some, List, [], ◌∷◌, ◌++◌, map, length, if◌then◌else◌, Text, text_eq, codes,
  Result, ok, err, ◌>>=◌, map_err,
}
use netplan.Plan.{decimal}
use netplan.Protocol.{ErrorCode, JobSummary, DaemonStatus, Response}
use netplan.Protocol
use netplan.Rpc.{Value, bool, string, object, members, Serde}
use netplan.Rpc.Answers.{error_code_name, response_value}
use netplan.Output.Render.{
  join, newline, key_values, record_text, record_list, option_text, yes_no, job_state_name,
  format_duration, render_capabilities, render_adapters, render_wifi_interfaces,
  render_wifi_networks, render_validation, render_operations,
}

pub data OutputFormat : Type 0 where
  human json : OutputFormat

pub record CliError : Type 0 where
  pub code : Text
  pub message : Text

abbrev pub CliResult : Type 0 → Type 0
CliResult A = Result CliError A

-- `CliError::from` on a text, and `CliError::daemon`
abbrev pub cli_error : Text → CliError
cli_error message = record { code = codes "cli_error"; message = message }

abbrev pub daemon_failure : ErrorCode → Text → CliError
daemon_failure code message = record { code = error_code_name code; message = message }

unfoldable pub show_cli_error : CliError → Text
show_cli_error error =
    if text_eq error.code (codes "cli_error")
    then error.message
    else error.code ++ (codes ": " ++ error.message)

unfoldable pub from_json : Bool → OutputFormat
from_json use_json = if use_json then json else human

-- `LifecycleResult` of crates/netplan-cli/src/service.rs
pub record LifecycleResult : Type 0 where
  pub action : Text
  pub mode : Text
  pub installed : Bool
  pub state : Text
  pub message : Text

unfoldable pub lifecycle_mode_name : Text → Text
lifecycle_mode_name mode =
    if text_eq mode (codes "windows-service")
    then codes "Windows service"
    else if text_eq mode (codes "background-process")
    then codes "Background process"
    else mode

abbrev daemon_sections : DaemonStatus → List Text
daemon_sections status =
    key_values (codes "Daemon") (
      (codes "Version", status.daemon_version)
      ∷ (codes "Protocol", decimal status.protocol_version)
      ∷ (codes "Started (Unix ms)", decimal status.started_at_unix_ms)
      ∷ (codes "Uptime", format_duration status.uptime_ms)
      ∷ [])
    ∷ key_values (codes "Jobs") (
        (codes "Total", decimal status.total_jobs)
        ∷ (codes "Queued", decimal status.queued_jobs)
        ∷ (codes "Running", decimal status.running_jobs)
        ∷ (codes "Succeeded", decimal status.succeeded_jobs)
        ∷ (codes "Failed", decimal status.failed_jobs)
        ∷ (codes "Rolled back", decimal status.rolled_back_jobs)
        ∷ [])
    ∷ []

abbrev job_record : JobSummary → Text
job_record job = record_text job.job_id (
    (codes "State", job_state_name job.state)
    ∷ (codes "Created (ms)", decimal job.created_at_unix_ms)
    ∷ (codes "Updated (ms)", decimal job.updated_at_unix_ms)
    ∷ (codes "Message", option_text job.message)
    ∷ [])

abbrev wifi_warning : Option Text → List Text
wifi_warning none = []
wifi_warning (some error) = key_values (codes "Wi-Fi warning") ((codes "Details", error) ∷ []) ∷ []

abbrev blank : Text
blank = newline ++ newline

unfoldable pub render_human : Response → CliResult Text
render_human (Protocol.pong daemon_version version) = ok (
    key_values (codes "PE Netplan daemon is ready")
      ((codes "Daemon version", daemon_version) ∷ (codes "Protocol version", decimal version) ∷ []))
render_human (Protocol.daemon_status_response status) = ok (join blank (daemon_sections status))
render_human (Protocol.capabilities_response capabilities) = ok (render_capabilities capabilities)
render_human (Protocol.adapters adapters) = ok (render_adapters adapters)
render_human (Protocol.network_status_response captured adapters interfaces wifi_error) = ok (
    join blank (
      key_values (codes "Network status") ((codes "Captured (Unix ms)", decimal captured) ∷ [])
      ∷ render_adapters adapters
      ∷ render_wifi_interfaces interfaces
      ∷ wifi_warning wifi_error))
render_human (Protocol.wifi_status_response interfaces) = ok (render_wifi_interfaces interfaces)
render_human (Protocol.wifi_networks refreshed networks) =
    ok (render_wifi_networks refreshed networks)
render_human Protocol.shutdown_accepted = ok (codes "PE Netplan daemon is stopping")
render_human (Protocol.validation valid issues) = ok (render_validation valid issues)
render_human (Protocol.plan operations) = ok (render_operations (codes "Plan") operations)
render_human (Protocol.apply job_id state operations) = ok (
    join blank (
      key_values (codes "Apply job accepted")
        ((codes "Job ID", job_id) ∷ (codes "State", job_state_name state) ∷ [])
      ∷ render_operations (codes "Planned operations") operations
      ∷ []))
render_human (Protocol.job_status_response job_id state message) = ok (
    key_values (codes "Job status") (
      (codes "Job ID", job_id)
      ∷ (codes "State", job_state_name state)
      ∷ (codes "Message", option_text message)
      ∷ []))
render_human (Protocol.jobs jobs total) = ok (
    key_values (codes "Jobs")
      ((codes "Matching", decimal total) ∷ (codes "Displayed", decimal (length jobs)) ∷ [])
    ++ (blank
        ++ record_list (codes "Job details") (map job_record jobs)
            (codes "No jobs matched the query.")))
render_human (Protocol.error code message) = err (daemon_failure code message)

-- `pretty` is `serde_json::to_string_pretty`.
module _ (serde : Serde) (pretty : Value → Result Text Text) where
  abbrev written : Result Text Text → CliResult Text
  written result = map_err cli_error result

  abbrev rendered_json : Response → CliResult Text
  rendered_json (Protocol.error code message) = err (daemon_failure code message)
  rendered_json response =
      map_err cli_error (response_value serde response) >>= λ value. written (pretty value)

  unfoldable pub render : Response → OutputFormat → CliResult Text
  render response human = render_human response
  render response json = rendered_json response

  unfoldable pub render_lifecycle : LifecycleResult → OutputFormat → CliResult Text
  render_lifecycle result human = ok (
      key_values (codes "PE Netplan daemon") (
        (codes "Action", result.action)
        ∷ (codes "Mode", lifecycle_mode_name result.mode)
        ∷ (codes "Installed", yes_no result.installed)
        ∷ (codes "State", result.state)
        ∷ (codes "Details", result.message)
        ∷ []))
  render_lifecycle result json = written (
      pretty (
        object (
          members (
            (codes "action", string result.action)
            ∷ (codes "mode", string result.mode)
            ∷ (codes "installed", bool result.installed)
            ∷ (codes "state", string result.state)
            ∷ (codes "message", string result.message)
            ∷ []))))

  abbrev or_failed : Result Text Text → Text
  or_failed (ok rendered) = rendered
  or_failed (err error) = codes "{\"error\":{\"message\":\"output serialization failed\"}}"

  unfoldable pub render_error : CliError → OutputFormat → Text
  render_error error human = codes "netplan: " ++ show_cli_error error
  render_error error json = or_failed (
      serde.to_string (
        object (
          members (
            (
              codes "error",
              object (
                  members (
                    (codes "code", string error.code)
                    ∷ (codes "message", string error.message)
                    ∷ [])),
            )
            ∷ []))))
