-- ===== src/Protocol/Convert/Values.antt =====
-- The conversions of single values between the typed and the wire's form: enums, optional fields,
-- jobs and issues, at the end of crates/netplan/src/protocol/mod.rs.
use netplan.Base.{
  ℕ, ◌==◌, Bool, true, false, Option, none, some, List, [], if◌then◌else◌, Result, ok, err, ◌>>=◌,
}
use netplan.Error.{
  Error, protocol, unknown_config_action, unknown_config_format, unknown_capability_state,
  unknown_operation_risk, unknown_job_state, unknown_error_code,
}
use netplan.Config.{ConfigFormat, auto, yaml, json}
use netplan.Model
use netplan.Model.{
  CapabilityState, Capability, IpAddressInfo, AdapterInfo, WifiInterfaceStatus, WifiNetwork,
}
use netplan.Plan
use netplan.Plan.{Operation, OperationRisk}
use netplan.Protocol.{
  ConfigAction, validate_only, plan_only, apply_config, JobState, queued, running, succeeded,
  failed, rolled_back, ValidationIssue, JobSummary, ErrorCode, invalid_request, invalid_config,
  unsupported, permission_denied, not_found, internal,
}
use netplan.Protocol.Wire.{ValidationIssueT, JobSummaryT}

-- `has.then_some(value)`, `value.is_some()` and `value.unwrap_or_default()`
abbrev pub then_some : {A : Type 0} → Bool → A → Option A
then_some true a = some a
then_some false a = none

abbrev pub has : {A : Type 0} → Option A → Bool
has none = false
has (some a) = true

abbrev pub or_zero : Option ℕ → ℕ
or_zero none = 0
or_zero (some n) = n

abbrev pub or_false_value : Option Bool → Bool
or_false_value none = false
or_false_value (some b) = b

abbrev pub or_empty : {A : Type 0} → Option (List A) → List A
or_empty none = []
or_empty (some xs) = xs

unfoldable pub config_action_to_wire : ConfigAction → ℕ
config_action_to_wire validate_only = 0
config_action_to_wire plan_only = 1
config_action_to_wire apply_config = 2

unfoldable pub config_action_from_wire : ℕ → Result Error ConfigAction
config_action_from_wire n =
    if n == 0
    then ok validate_only
    else if n == 1
    then ok plan_only
    else if n == 2
    then ok apply_config
    else err (protocol unknown_config_action)

unfoldable pub config_format_to_wire : ConfigFormat → ℕ
config_format_to_wire auto = 0
config_format_to_wire yaml = 1
config_format_to_wire json = 2

unfoldable pub config_format_from_wire : ℕ → Result Error ConfigFormat
config_format_from_wire n =
    if n == 0
    then ok auto
    else if n == 1
    then ok yaml
    else if n == 2
    then ok json
    else err (protocol unknown_config_format)

abbrev pub capability_state_to_wire : CapabilityState → ℕ
capability_state_to_wire Model.unavailable = 0
capability_state_to_wire Model.read_only = 1
capability_state_to_wire Model.dry_run = 2
capability_state_to_wire Model.available = 3

abbrev pub capability_state_from_wire : ℕ → Result Error CapabilityState
capability_state_from_wire n =
    if n == 0
    then ok Model.unavailable
    else if n == 1
    then ok Model.read_only
    else if n == 2
    then ok Model.dry_run
    else if n == 3
    then ok Model.available
    else err (protocol unknown_capability_state)

abbrev pub risk_to_wire : OperationRisk → ℕ
risk_to_wire Plan.read_only = 0
risk_to_wire Plan.low = 1
risk_to_wire Plan.connectivity = 2
risk_to_wire Plan.destructive = 3

abbrev pub risk_from_wire : ℕ → Result Error OperationRisk
risk_from_wire n =
    if n == 0
    then ok Plan.read_only
    else if n == 1
    then ok Plan.low
    else if n == 2
    then ok Plan.connectivity
    else if n == 3
    then ok Plan.destructive
    else err (protocol unknown_operation_risk)

unfoldable pub job_state_to_wire : JobState → ℕ
job_state_to_wire queued = 0
job_state_to_wire running = 1
job_state_to_wire succeeded = 2
job_state_to_wire failed = 3
job_state_to_wire rolled_back = 4

unfoldable pub job_state_from_wire : ℕ → Result Error JobState
job_state_from_wire n =
    if n == 0
    then ok queued
    else if n == 1
    then ok running
    else if n == 2
    then ok succeeded
    else if n == 3
    then ok failed
    else if n == 4
    then ok rolled_back
    else err (protocol unknown_job_state)

unfoldable pub job_summary_to_wire : JobSummary → JobSummaryT
job_summary_to_wire value = record {
  job_id = value.job_id;
  state = job_state_to_wire value.state;
  message = value.message;
  created_at_unix_ms = value.created_at_unix_ms;
  updated_at_unix_ms = value.updated_at_unix_ms;
}

unfoldable pub job_summary_from_wire : JobSummaryT → Result Error JobSummary
job_summary_from_wire value = job_state_from_wire value.state >>= λ state. ok (record {
  job_id = value.job_id;
  state = state;
  message = value.message;
  created_at_unix_ms = value.created_at_unix_ms;
  updated_at_unix_ms = value.updated_at_unix_ms;
})

unfoldable pub error_code_to_wire : ErrorCode → ℕ
error_code_to_wire invalid_request = 1
error_code_to_wire invalid_config = 2
error_code_to_wire unsupported = 3
error_code_to_wire permission_denied = 4
error_code_to_wire not_found = 5
error_code_to_wire internal = 6

unfoldable pub error_code_from_wire : ℕ → Result Error ErrorCode
error_code_from_wire n =
    if n == 1
    then ok invalid_request
    else if n == 2
    then ok invalid_config
    else if n == 3
    then ok unsupported
    else if n == 4
    then ok permission_denied
    else if n == 5
    then ok not_found
    else if n == 6
    then ok internal
    else err (protocol unknown_error_code)

-- The closures that `encode_response` and `decode_response` map over the issues.
abbrev pub issue_to_wire : ValidationIssue → ValidationIssueT
issue_to_wire issue = record { path = issue.path; message = issue.message }

abbrev pub issue_from_wire : ValidationIssueT → ValidationIssue
issue_from_wire issue = record { path = issue.path; message = issue.message }
