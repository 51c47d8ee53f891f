-- ===== src/Rpc/Commands.antt =====
-- crates/netplan-cli/src/jsonrpc.rs: a method and its parameters, as a command.
use netplan.Base.{
  ℕ, leb, ◌==◌, ◌&&◌, not, Bool, true, false, Option, none, some, List, [], ◌∷◌, ◌++◌, is_nil,
  if◌then◌else◌, Text, text_eq, codes, bytes, ◌||◌, trim, is_ascii_hexdigit, to_ascii_lower, length,
  Result, ok, err, ◌>>=◌, ◌>>◌, fail_if, map_err,
}
use netplan.Plan.{decimal}
use netplan.Config.{ConfigFormat}
use netplan.Config
use netplan.Protocol.{ConfigAction, validate_only, plan_only, apply_config, Request}
use netplan.Protocol
use netplan.Rpc.{
  Value, null, string, array, nil, object, end, neg_int, RpcError, AdapterSelectorParams,
  ExampleFormat, yaml, json, RpcCommand, call, capability_get, adapter_get, config_inspect,
  config_describe, config_example, job_wait, discover, Serde,
}

-- `RPC_METHODS`
abbrev pub rpc_methods : List Text
rpc_methods =
    codes "netplan.ping"
    ∷ codes "netplan.daemon.status"
    ∷ codes "netplan.capabilities"
    ∷ codes "netplan.capability.get"
    ∷ codes "netplan.adapters.list"
    ∷ codes "netplan.adapter.get"
    ∷ codes "netplan.status"
    ∷ codes "netplan.wifi.status"
    ∷ codes "netplan.wifi.scan"
    ∷ codes "netplan.config.validate"
    ∷ codes "netplan.config.plan"
    ∷ codes "netplan.config.inspect"
    ∷ codes "netplan.config.apply"
    ∷ codes "netplan.config.describe"
    ∷ codes "netplan.config.example"
    ∷ codes "netplan.job.get"
    ∷ codes "netplan.job.list"
    ∷ codes "netplan.job.wait"
    ∷ codes "netplan.rpc.discover"
    ∷ []

abbrev pub RpcResult : Type 0 → Type 0
RpcResult A = Result RpcError A

abbrev pub invalid_params : Text → RpcError
invalid_params message = record {
  code = neg_int 32602;
  message = codes "Invalid params";
  extra = some (string message);
}

abbrev pub method_not_found : RpcError
method_not_found = record { code = neg_int 32601; message = codes "Method not found"; extra = none }

-- `value.unwrap_or(default)`
abbrev pub unwrap_or : {A : Type 0} → A → Option A → A
unwrap_or default none = default
unwrap_or default (some a) = a

abbrev pub takes_nothing : Value → Bool
takes_nothing null = true
takes_nothing (object end) = true
takes_nothing (array nil) = true
takes_nothing _ = false

unfoldable pub no_params : Value → RpcResult (Unit {0})
no_params params =
    fail_if (not (takes_nothing params)) (invalid_params (codes "method accepts no parameters"))

unfoldable pub parse_params : {A : Type 0} → (Value → Result Text A) → Value → RpcResult A
parse_params from_value params = map_err invalid_params (from_value params)

abbrev pub or_empty : Value → Value
or_empty null = object end
or_empty (array nil) = object end
or_empty params = params

unfoldable pub parse_optional_params : {A : Type 0} → (Value → Result Text A) → Value → RpcResult A
parse_optional_params from_value params = parse_params from_value (or_empty params)

unfoldable pub require_non_empty : Text → Text → RpcResult (Unit {0})
require_non_empty field value =
    fail_if (is_nil (trim value)) (invalid_params (field ++ codes " must not be empty"))

unfoldable pub validate_range : Text → ℕ → ℕ → ℕ → RpcResult (Unit {0})
validate_range field value minimum maximum =
    fail_if (not (leb minimum value && leb value maximum)) (
      invalid_params
        (field ++ codes " must be between " ++ decimal minimum ++ codes " and " ++ decimal maximum))

-- A MAC address without its separators, in lower case, where it has twelve digits
abbrev pub hexadecimals : Text → Option Text
hexadecimals [] = some []
hexadecimals (c ∷ s) =
    let rest = hexadecimals s in
    if is_ascii_hexdigit c
    then elim rest [ none ↦ none | some digits ↦ some (to_ascii_lower c ∷ digits) ]
    else if not (c == b':' || c == b'-')
    then none
    else rest

abbrev pub when_twelve : Option Text → Option Text
when_twelve none = none
when_twelve (some digits) = if length digits == 12 then some digits else none

unfoldable pub normalize_mac : Text → Option Text
normalize_mac value = when_twelve (hexadecimals value)

abbrev pub is_none : {A : Type 0} → Option A → Bool
is_none none = true
is_none (some a) = false

abbrev pub require_given : Text → Option Text → RpcResult (Unit {0})
require_given field none = ok tt
require_given field (some value) = require_non_empty field value

abbrev pub mac_unreadable : Option Text → Bool
mac_unreadable none = false
mac_unreadable (some value) = is_none (normalize_mac value)

unfoldable pub validate_adapter_selector : AdapterSelectorParams → RpcResult (Unit {0})
validate_adapter_selector params = do
  fail_if
      (is_none params.if_index
        && is_none params.name
        && is_none params.guid
        && is_none params.mac_address
        && is_none params.description_contains)
      (invalid_params (codes "at least one adapter selector is required"))
  require_given (codes "name") params.name
  require_given (codes "guid") params.guid
  require_given (codes "mac_address") params.mac_address
  require_given (codes "description_contains") params.description_contains
  fail_if (mac_unreadable params.mac_address)
      (invalid_params (codes "mac_address must contain exactly 12 hexadecimal digits"))

module _ (serde : Serde) where
  unfoldable pub parse_config_format : Text → RpcResult ConfigFormat
  parse_config_format value =
      if text_eq value (codes "auto")
      then ok Config.auto
      else if text_eq value (codes "yaml") || text_eq value (codes "yml")
      then ok Config.yaml
      else if text_eq value (codes "json")
      then ok Config.json
      else err (invalid_params (codes "unknown configuration format " ++ serde.debug value))

  unfoldable pub config_rpc_request : ConfigAction → Value → Bool → RpcResult Request
  config_rpc_request action params default_dry_run = do
    given ← parse_params serde.config_params params
    format ← parse_config_format (unwrap_or (codes "auto") given.format)
    ok (
        Protocol.config action format (bytes given.document)
          (unwrap_or default_dry_run given.dry_run))

  abbrev pub example_format : Text → RpcResult ExampleFormat
  example_format value =
      if text_eq value (codes "yaml") || text_eq value (codes "yml")
      then ok yaml
      else if text_eq value (codes "json")
      then ok json
      else err
          (invalid_params (codes "example format must be yaml or json, not " ++ serde.debug value))

  abbrev pub wifi_scan_request : Value → RpcResult Request
  wifi_scan_request params = do
    given ← parse_optional_params serde.wifi_scan_params params
    let timeout_ms = unwrap_or 4000 given.timeout_ms
    validate_range (codes "timeout_ms") timeout_ms 250 15000
    ok (Protocol.wifi_scan given.if_index (unwrap_or true given.refresh) timeout_ms)

  abbrev pub job_get_request : Value → RpcResult Request
  job_get_request params = do
    job_id ← parse_params serde.job_params params
    require_non_empty (codes "job_id") job_id
    ok (Protocol.job_status job_id)

  abbrev pub job_list_request : Value → RpcResult Request
  job_list_request params = do
    given ← parse_optional_params serde.job_list_params params
    let limit = unwrap_or 100 given.limit
    validate_range (codes "limit") limit 1 1000
    ok (Protocol.list_jobs given.state limit)

  unfoldable pub map_request : Text → Value → RpcResult Request
  map_request method params =
      if text_eq method (codes "netplan.ping")
      then no_params params >> ok Protocol.ping
      else if text_eq method (codes "netplan.daemon.status")
      then no_params params >> ok Protocol.daemon_status
      else if text_eq method (codes "netplan.capabilities")
      then no_params params >> ok Protocol.capabilities
      else if text_eq method (codes "netplan.adapters.list")
      then no_params params >> ok Protocol.list_adapters
      else if text_eq method (codes "netplan.status")
      then no_params params >> ok Protocol.network_status
      else if text_eq method (codes "netplan.wifi.status")
      then parse_optional_params serde.wifi_status_params params
        >>= (λ if_index. ok (Protocol.wifi_status if_index))
      else if text_eq method (codes "netplan.wifi.scan")
      then wifi_scan_request params
      else if text_eq method (codes "netplan.config.validate")
      then config_rpc_request validate_only params true
      else if text_eq method (codes "netplan.config.plan")
      then config_rpc_request plan_only params true
      else if text_eq method (codes "netplan.config.apply")
      then config_rpc_request apply_config params true
      else if text_eq method (codes "netplan.job.get")
      then job_get_request params
      else if text_eq method (codes "netplan.job.list")
      then job_list_request params
      else err method_not_found

  abbrev pub capability_command : Value → RpcResult RpcCommand
  capability_command params = do
    name ← parse_params serde.name_params params
    require_non_empty (codes "name") name
    ok (capability_get name)

  abbrev pub adapter_command : Value → RpcResult RpcCommand
  adapter_command params = do
    selector ← parse_params serde.adapter_selector_params params
    validate_adapter_selector selector
    ok (adapter_get selector)

  abbrev pub inspect_command : Value → RpcResult RpcCommand
  inspect_command params = do
    given ← parse_params serde.config_params params
    format ← parse_config_format (unwrap_or (codes "auto") given.format)
    ok (config_inspect (bytes given.document) format)

  abbrev pub example_command : Value → RpcResult RpcCommand
  example_command params = do
    given ← parse_optional_params serde.example_params params
    format ← example_format (unwrap_or (codes "yaml") given)
    ok (config_example format)

  abbrev pub wait_command : Value → RpcResult RpcCommand
  wait_command params = do
    given ← parse_params serde.job_wait_params params
    require_non_empty (codes "job_id") given.job_id
    validate_range (codes "timeout_ms") (unwrap_or 30000 given.timeout_ms) 1 300000
    validate_range (codes "interval_ms") (unwrap_or 100 given.interval_ms) 25 5000
    ok (job_wait given)

  unfoldable pub map_command : Text → Value → RpcResult RpcCommand
  map_command method params =
      if text_eq method (codes "netplan.capability.get")
      then capability_command params
      else if text_eq method (codes "netplan.adapter.get")
      then adapter_command params
      else if text_eq method (codes "netplan.config.inspect")
      then inspect_command params
      else if text_eq method (codes "netplan.config.describe")
      then no_params params >> ok config_describe
      else if text_eq method (codes "netplan.config.example")
      then example_command params
      else if text_eq method (codes "netplan.job.wait")
      then wait_command params
      else if text_eq method (codes "netplan.rpc.discover")
      then no_params params >> ok discover
      else map_request method params >>= λ request. ok (call request)
