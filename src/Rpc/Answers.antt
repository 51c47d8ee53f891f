-- ===== src/Rpc/Answers.antt =====
-- crates/netplan-cli/src/jsonrpc.rs: what the gateway answers, as JSON.
use netplan.Base.{
  ℕ, ◌==◌, ◌&&◌, Bool, true, false, Option, none, some, List, [], ◌∷◌, ◌++◌, any, map, Text,
  text_eq, codes, Unicode, eq_ignore_ascii_case, if◌then◌else◌, Result, ok, err, ◌>>=◌, map_err,
}
use netplan.Model.{AdapterInfo}
use netplan.Plan.{Operation}
use netplan.Platform.Resolve.{contains_text}
use netplan.Protocol.{
  Response, ErrorCode, JobState, queued, running, succeeded, failed, rolled_back,
}
use netplan.Protocol
use netplan.Protocol.Frames.{protocol_version}
use netplan.Rpc.{
  Value, null, bool, number, string, array, object, Number, pos_int, neg_int, values, members,
  Members, insert, RpcError, AdapterSelectorParams, Serde,
}
use netplan.Rpc.Commands.{RpcResult, rpc_methods, normalize_mac}

abbrev pub strings : List Text → Value
strings texts = array (values (map string texts))

abbrev pub natural : ℕ → Value
natural n = number (pos_int n)

abbrev pub optional : {A : Type 0} → (A → Value) → Option A → Value
optional f none = null
optional f (some a) = f a

abbrev pub each_of : {A : Type 0} → (A → Value) → List A → Value
each_of f items = array (values (map f items))

unfoldable pub error_code_name : ErrorCode → Text
error_code_name Protocol.invalid_request = codes "invalid_request"
error_code_name Protocol.invalid_config = codes "invalid_config"
error_code_name Protocol.unsupported = codes "unsupported"
error_code_name Protocol.permission_denied = codes "permission_denied"
error_code_name Protocol.not_found = codes "not_found"
error_code_name Protocol.internal = codes "internal"

abbrev with_extra : Option Value → List (Text × Value)
with_extra none = []
with_extra (some extra) = (codes "data", extra) ∷ []

unfoldable pub error_response : Value → RpcError → Value
error_response id error = object (
    members (
      (codes "jsonrpc", string (codes "2.0"))
      ∷ (codes "id", id)
      ∷ (
        codes "error",
        object (
            members (
              (codes "code", number error.code)
              ∷ (codes "message", string error.message)
              ∷ with_extra error.extra)),
      )
      ∷ []))

-- `json!({"jsonrpc": "2.0", "id": id_value, "result": result})`
unfoldable pub result_response : Value → Value → Value
result_response id result = object (
    members
      ((codes "jsonrpc", string (codes "2.0")) ∷ (codes "id", id) ∷ (codes "result", result) ∷ []))

abbrev daemon_code : ErrorCode → Number
daemon_code Protocol.not_found = neg_int 32004
daemon_code _ = neg_int 32010

unfoldable pub daemon_error : ErrorCode → Text → RpcError
daemon_error code message = record {
  code = daemon_code code;
  message = message;
  extra = some (object (members ((codes "daemon_code", string (error_code_name code)) ∷ [])));
}

unfoldable pub is_terminal_job_state : JobState → Bool
is_terminal_job_state queued = false
is_terminal_job_state running = false
is_terminal_job_state succeeded = true
is_terminal_job_state failed = true
is_terminal_job_state rolled_back = true

unfoldable pub job_wait_timeout : Text → ℕ → RpcError
job_wait_timeout job_id timeout_ms = record {
  code = neg_int 32002;
  message = codes "Job wait timed out";
  extra = some (
      object (
        members ((codes "job_id", string job_id) ∷ (codes "timeout_ms", natural timeout_ms) ∷ [])));
}

-- `is_none_or`
abbrev pub none_or : {A : Type 0} → (A → Bool) → Option A → Bool
none_or p none = true
none_or p (some a) = p a

-- `is_some_and`
abbrev pub some_and : {A : Type 0} → (A → Bool) → Option A → Bool
some_and p none = false
some_and p (some a) = p a

abbrev pub both_equal : Option Text → Option Text → Bool
both_equal (some candidate) (some expected) = text_eq candidate expected
both_equal (some candidate) none = false
both_equal none expected = false

abbrev pub and_then : {A B : Type 0} → (A → Option B) → Option A → Option B
and_then f none = none
and_then f (some a) = f a

unfoldable pub adapter_matches : Unicode → AdapterInfo → AdapterSelectorParams → Bool
adapter_matches unicode adapter selector =
    none_or (λ if_index. adapter.if_index == if_index) selector.if_index
    && none_or (λ name. eq_ignore_ascii_case adapter.name name) selector.name
    && none_or (λ guid. some_and (λ candidate. eq_ignore_ascii_case candidate guid) adapter.guid)
        selector.guid
    && none_or
        (λ mac_address.
          both_equal (and_then normalize_mac adapter.mac_address) (normalize_mac mac_address))
        selector.mac_address
    && none_or
        (λ needle.
          some_and
            (λ description.
              contains_text (unicode.to_lowercase needle) (unicode.to_lowercase description))
            adapter.description)
        selector.description_contains

unfoldable pub selector_value : AdapterSelectorParams → Value
selector_value selector = object (
    members (
      (codes "if_index", optional natural selector.if_index)
      ∷ (codes "name", optional string selector.name)
      ∷ (codes "guid", optional string selector.guid)
      ∷ (codes "mac_address", optional string selector.mac_address)
      ∷ (codes "description_contains", optional string selector.description_contains)
      ∷ []))

-- The loop over the operations, from the capabilities found so far
abbrev pub required_from : List Text → List Operation → List Text
required_from capabilities [] = capabilities
required_from capabilities (operation ∷ operations) =
    required_from
      (if any (λ capability. text_eq capability operation.capability) capabilities
        then capabilities
        else capabilities ++ operation.capability ∷ [])
      operations

unfoldable pub required_capabilities : List Operation → List Text
required_capabilities operations = required_from [] operations

unfoldable pub config_description : Value
config_description = object (
    members (
      (codes "schema_version", natural 1)
      ∷ (codes "formats", strings (codes "auto" ∷ codes "yaml" ∷ codes "json" ∷ []))
      ∷ (codes "apply_dry_run_default", bool true)
      ∷ (
        codes "selector_fields",
        strings (
            codes "if_index"
            ∷ codes "name"
            ∷ codes "guid"
            ∷ codes "mac_address"
            ∷ codes "description_contains"
            ∷ []),
      )
      ∷ (codes "secret_sources", strings (codes "env" ∷ codes "literal" ∷ []))
      ∷ (
        codes "terminal_job_states",
        strings (codes "succeeded" ∷ codes "failed" ∷ codes "rolled_back" ∷ []),
      )
      ∷ (
        codes "top_level_sections",
        strings (
            codes "protect"
            ∷ codes "identity"
            ∷ codes "adapters"
            ∷ codes "wifi"
            ∷ codes "wifi_actions"
            ∷ codes "smb"
            ∷ codes "firewall"
            ∷ codes "services"
            ∷ codes "drivers"
            ∷ codes "hooks"
            ∷ []),
      )
      ∷ []))

module _ (serde : Serde) where
  unfoldable pub unexpected_daemon_response : Response → Text → RpcError
  unexpected_daemon_response (Protocol.error code message) expected = daemon_error code message
  unexpected_daemon_response response expected = record {
    code = neg_int 32010;
    message = codes "Unexpected daemon response";
    extra = some (
        object (
          members (
            (codes "expected", string expected)
            ∷ (codes "received", string (serde.debug_response response))
            ∷ [])));
  }

  abbrev pub job_value : Text → JobState → Option Text → Value
  job_value job_id state message = object (
      members (
        (codes "job_id", string job_id)
        ∷ (codes "state", serde.job_state state)
        ∷ (codes "message", optional string message)
        ∷ []))

  unfoldable pub response_value : Response → Result Text Value
  response_value (Protocol.pong daemon_version version) = ok (
      object (
        members (
          (codes "daemon_version", string daemon_version)
          ∷ (codes "protocol_version", natural version)
          ∷ [])))
  response_value (Protocol.daemon_status_response status) = ok (
      object (
        members (
          (codes "daemon_version", string status.daemon_version)
          ∷ (codes "protocol_version", natural status.protocol_version)
          ∷ (codes "started_at_unix_ms", natural status.started_at_unix_ms)
          ∷ (codes "uptime_ms", natural status.uptime_ms)
          ∷ (codes "total_jobs", natural status.total_jobs)
          ∷ (codes "queued_jobs", natural status.queued_jobs)
          ∷ (codes "running_jobs", natural status.running_jobs)
          ∷ (codes "succeeded_jobs", natural status.succeeded_jobs)
          ∷ (codes "failed_jobs", natural status.failed_jobs)
          ∷ (codes "rolled_back_jobs", natural status.rolled_back_jobs)
          ∷ [])))
  response_value (Protocol.capabilities_response capabilities) =
      ok (each_of serde.capability capabilities)
  response_value (Protocol.adapters adapters) = ok (each_of serde.adapter adapters)
  response_value (Protocol.network_status_response captured adapters interfaces wifi_error) = ok (
      object (
        members (
          (codes "captured_at_unix_ms", natural captured)
          ∷ (codes "adapters", each_of serde.adapter adapters)
          ∷ (codes "wifi_interfaces", each_of serde.wifi_interface interfaces)
          ∷ (codes "wifi_error", optional string wifi_error)
          ∷ [])))
  response_value (Protocol.wifi_status_response interfaces) =
      ok (object (members ((codes "interfaces", each_of serde.wifi_interface interfaces) ∷ [])))
  response_value (Protocol.wifi_networks refreshed networks) = ok (
      object (
        members (
          (codes "refreshed", bool refreshed)
          ∷ (codes "networks", each_of serde.wifi_network networks)
          ∷ [])))
  response_value (Protocol.validation valid issues) = ok (
      object
        (members ((codes "valid", bool valid) ∷ (codes "issues", each_of serde.issue issues) ∷ [])))
  response_value (Protocol.plan operations) =
      ok (object (members ((codes "operations", each_of serde.operation operations) ∷ [])))
  response_value (Protocol.apply job_id state operations) = ok (
      object (
        members (
          (codes "job_id", string job_id)
          ∷ (codes "state", serde.job_state state)
          ∷ (codes "operations", each_of serde.operation operations)
          ∷ [])))
  response_value (Protocol.job_status_response job_id state message) =
      ok (job_value job_id state message)
  response_value (Protocol.jobs jobs total) = ok (
      object
        (members ((codes "jobs", each_of serde.job jobs) ∷ (codes "total", natural total) ∷ [])))
  response_value Protocol.shutdown_accepted =
      ok (object (members ((codes "stopping", bool true) ∷ [])))
  response_value (Protocol.error code message) = err (error_code_name code ++ codes ": " ++ message)

  abbrev unwritable : Text → RpcError
  unwritable message = record { code = neg_int 32010; message = message; extra = none }

  unfoldable pub response_rpc_value : Response → RpcResult Value
  response_rpc_value (Protocol.error code message) = err (daemon_error code message)
  response_rpc_value response = map_err unwritable (response_value response)

  abbrev invalid_contract : Text → RpcError
  invalid_contract error = record {
    code = neg_int 32010;
    message = codes "Bundled JSON-RPC contract is invalid";
    extra = some (string error);
  }

  -- The fields that are inserted into the bundled contract
  abbrev completed : Members → Members
  completed fields = insert (codes "method_names") (strings rpc_methods) (
      insert (codes "config_schema_version") (natural 1) (
        insert (codes "daemon_protocol_version") (natural protocol_version)
          (insert (codes "gateway_version") (string serde.package_version) fields)))

  abbrev as_object : Value → RpcResult Value
  as_object (object fields) = ok (object (completed fields))
  as_object _ = err (unwritable (codes "Bundled JSON-RPC contract is not an object"))

  unfoldable pub rpc_contract : RpcResult Value
  rpc_contract = map_err invalid_contract serde.contract >>= as_object
