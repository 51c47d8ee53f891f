-- ===== src/Protocol/Wire.antt =====
-- crates/netplan/src/protocol/ipc_generated.rs: the object form of the FlatBuffers tables. An enum
-- of the schema is a byte, which may be none of the named ones. The fields of a table that only the
-- payload holds are the arguments of its constructor.
use netplan.Base.{ℕ, Bool, Option, List, Text}
use netplan.Protocol.{DaemonStatus}

pub record CapabilityT : Type 0 where
  pub name : Text
  pub state : ℕ
  pub reason : Option Text

pub record IpAddressT : Type 0 where
  pub address : Text
  pub prefix_length : ℕ

pub record AdapterT : Type 0 where
  pub if_index : ℕ
  pub name : Text
  pub description : Option Text
  pub guid : Option Text
  pub mac_address : Option Text
  pub status : Option Text
  pub hardware : Bool
  pub ipv4 : Option (List IpAddressT)
  pub ipv6 : Option (List IpAddressT)

pub record ValidationIssueT : Type 0 where
  pub path : Option Text
  pub message : Text

pub record OperationT : Type 0 where
  pub id : Text
  pub capability : Text
  pub summary : Text
  pub risk : ℕ
  pub target : Option Text

pub record JobSummaryT : Type 0 where
  pub job_id : Text
  pub state : ℕ
  pub message : Option Text
  pub created_at_unix_ms : ℕ
  pub updated_at_unix_ms : ℕ

pub record WifiInterfaceStatusT : Type 0 where
  pub if_index : ℕ
  pub name : Text
  pub guid : Option Text
  pub state : Text
  pub profile_name : Option Text
  pub ssid : Option Text
  pub ssid_hex : Option Text
  pub has_signal_quality : Bool
  pub signal_quality : ℕ
  pub has_security_enabled : Bool
  pub security_enabled : Bool
  pub authentication : Option Text
  pub cipher : Option Text
  pub has_rx_rate_kbps : Bool
  pub rx_rate_kbps : ℕ
  pub has_tx_rate_kbps : Bool
  pub tx_rate_kbps : ℕ

pub record WifiNetworkT : Type 0 where
  pub interface_if_index : ℕ
  pub interface_name : Text
  pub ssid : Text
  pub ssid_hex : Text
  pub profile_name : Option Text
  pub signal_quality : ℕ
  pub security_enabled : Bool
  pub authentication : Text
  pub cipher : Text
  pub connectable : Bool
  pub has_not_connectable_reason : Bool
  pub not_connectable_reason : ℕ
  pub connected : Bool
  pub bss_count : ℕ

pub data PayloadT : Type 0 where
  no_payload : PayloadT
  ping_request capabilities_request list_adapters_request daemon_status_request : PayloadT
  network_status_request shutdown_request shutdown_response : PayloadT
  ping_response : (daemon_version : Text) (protocol_version : ℕ) → PayloadT
  capabilities_response : List CapabilityT → PayloadT
  list_adapters_response : List AdapterT → PayloadT
  config_request : (action format : ℕ) (document : List ℕ) (dry_run : Bool) → PayloadT
  validate_config_response : (valid : Bool) (issues : List ValidationIssueT) → PayloadT
  plan_config_response : List OperationT → PayloadT
  apply_config_response : (job_id : Text) (state : ℕ) (operations : List OperationT) → PayloadT
  job_status_request : (job_id : Text) → PayloadT
  job_status_response : (job_id : Text) (state : ℕ) (message : Option Text) → PayloadT
  error_response : (code : ℕ) (message : Text) → PayloadT
  daemon_status_response : DaemonStatus → PayloadT
  list_jobs_request : (has_state : Bool) (state limit : ℕ) → PayloadT
  list_jobs_response : (jobs : List JobSummaryT) (total : ℕ) → PayloadT
  network_status_response :
      (captured_at_unix_ms : ℕ) (adapters : List AdapterT)
      (wifi_interfaces : List WifiInterfaceStatusT) (wifi_error : Option Text)
      → PayloadT
  wifi_status_request : (has_if_index : Bool) (if_index : ℕ) → PayloadT
  wifi_status_response : List WifiInterfaceStatusT → PayloadT
  wifi_scan_request :
      (has_if_index : Bool) (if_index : ℕ) (refresh : Bool) (timeout_ms : ℕ) → PayloadT
  wifi_scan_response : (refreshed : Bool) (networks : List WifiNetworkT) → PayloadT

pub record EnvelopeT : Type 0 where
  pub protocol_version : ℕ
  pub request_id : ℕ
  pub payload : PayloadT
