-- ===== src/Protocol.antt =====
-- crates/netplan/src/protocol/mod.rs: the messages between a client and the daemon. Where a request
-- and a response share a name, the response's ends in `_response`. A number is a ℕ; its width in
-- the source is in the comment beside it.
pub mod Wire
pub mod Convert
pub mod Frames
pub mod Framing
pub mod Tables
pub mod RoundTrip
use netplan.Base.{ℕ, Bool, Option, List, Text}
use netplan.Config.{ConfigFormat}
use netplan.Model.{AdapterInfo, Capability, WifiInterfaceStatus, WifiNetwork}
use netplan.Plan.{Operation}

pub record Frame (A : Type 0) : Type 0 where
  pub request_id : ℕ  -- u64
  pub payload : A

pub data ConfigAction : Type 0 where
  validate_only plan_only apply_config : ConfigAction

pub data JobState : Type 0 where
  queued running succeeded failed rolled_back : JobState

pub data Request : Type 0 where
  ping daemon_status capabilities list_adapters : Request
  config :
      (action : ConfigAction) (format : ConfigFormat) (document : List ℕ) (dry_run : Bool) → Request
  job_status : (job_id : Text) → Request
  list_jobs : (state : Option JobState) (limit : ℕ) → Request
  network_status : Request
  wifi_status : (if_index : Option ℕ) → Request
  wifi_scan : (if_index : Option ℕ) (refresh : Bool) (timeout_ms : ℕ) → Request
  shutdown : Request

pub record ValidationIssue : Type 0 where
  pub path : Option Text
  pub message : Text

pub record JobSummary : Type 0 where
  pub job_id : Text
  pub state : JobState
  pub message : Option Text
  pub created_at_unix_ms : ℕ  -- u64
  pub updated_at_unix_ms : ℕ  -- u64

pub data ErrorCode : Type 0 where
  invalid_request invalid_config unsupported permission_denied not_found internal : ErrorCode

-- The fields of `Response::DaemonStatus`, and of the table that carries it.
pub record DaemonStatus : Type 0 where
  pub daemon_version : Text
  pub protocol_version : ℕ  -- u32
  pub started_at_unix_ms : ℕ  -- u64
  pub uptime_ms : ℕ  -- u64
  pub total_jobs : ℕ  -- u32, as all below
  pub queued_jobs : ℕ
  pub running_jobs : ℕ
  pub succeeded_jobs : ℕ
  pub failed_jobs : ℕ
  pub rolled_back_jobs : ℕ

pub data Response : Type 0 where
  pong : (daemon_version : Text) (protocol_version : ℕ) → Response
  daemon_status_response : DaemonStatus → Response
  capabilities_response : List Capability → Response
  adapters : List AdapterInfo → Response
  validation : (valid : Bool) (issues : List ValidationIssue) → Response
  plan : List Operation → Response
  apply : (job_id : Text) (state : JobState) (operations : List Operation) → Response
  job_status_response : (job_id : Text) (state : JobState) (message : Option Text) → Response
  jobs : (jobs : List JobSummary) (total : ℕ) → Response
  network_status_response :
      (captured_at_unix_ms : ℕ) (adapters : List AdapterInfo)
      (wifi_interfaces : List WifiInterfaceStatus) (wifi_error : Option Text)
      → Response
  wifi_status_response : List WifiInterfaceStatus → Response
  wifi_networks : (refreshed : Bool) (networks : List WifiNetwork) → Response
  shutdown_accepted : Response
  error : (code : ErrorCode) (message : Text) → Response
