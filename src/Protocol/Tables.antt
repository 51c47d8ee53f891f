-- ===== src/Protocol/Tables.antt =====
-- The conversions of crates/netplan/src/protocol/mod.rs undo each other.
use netplan.Base.{ℕ, Bool, ◌≡◌, refl, Option, none, some, List, [], ◌∷◌, map, Result, ok, collect}
use netplan.Config.{ConfigFormat, auto, yaml, json}
use netplan.Model
use netplan.Model.{
  CapabilityState, Capability, IpAddressInfo, AdapterInfo, WifiInterfaceStatus, WifiNetwork,
}
use netplan.Plan
use netplan.Plan.{Operation, OperationRisk}
use netplan.Protocol.{
  ConfigAction, validate_only, plan_only, apply_config, JobState, queued, running, succeeded,
  failed, rolled_back, ValidationIssue, JobSummary, ErrorCode, invalid_request, invalid_config,
  unsupported, permission_denied, not_found, internal,
}
use netplan.Protocol.Convert.{
  then_some, has, or_zero, or_false_value, config_action_to_wire, config_action_from_wire,
  config_format_to_wire, config_format_from_wire, capability_state_to_wire,
  capability_state_from_wire, ip_address_to_wire, ip_address_from_wire, risk_to_wire,
  risk_from_wire, capability_to_wire, capability_from_wire, adapter_to_wire, adapter_from_wire,
  wifi_interface_status_to_wire, wifi_interface_status_from_wire, wifi_network_to_wire,
  wifi_network_from_wire, operation_to_wire, operation_from_wire, job_state_to_wire,
  job_state_from_wire, job_summary_to_wire, job_summary_from_wire, error_code_to_wire,
  error_code_from_wire, issue_to_wire, issue_from_wire,
}

pub collect-map :
    {E A B : Type 0} (to : A → B) (from : B → Result E A)
    → ((a : A) → from (to a) ≡ ok a)
    → (xs : List A) → collect from (map to xs) ≡ ok xs
collect-map to from back [] = refl
collect-map to from back (x ∷ xs) = rw (back x, collect-map to from back xs) refl

pub map-map_back :
    {A B : Type 0} (to : A → B) (from : B → A)
    → ((a : A) → from (to a) ≡ a)
    → (xs : List A) → map from (map to xs) ≡ xs
map-map_back to from back [] = refl
map-map_back to from back (x ∷ xs) = rw (back x, map-map_back to from back xs) refl

pub then_some-or_zero : (o : Option ℕ) → then_some (has o) (or_zero o) ≡ o
then_some-or_zero none = refl
then_some-or_zero (some n) = refl

then_some-or_false : (o : Option Bool) → then_some (has o) (or_false_value o) ≡ o
then_some-or_false none = refl
then_some-or_false (some b) = refl

pub config_action-back :
    (a : ConfigAction) → config_action_from_wire (config_action_to_wire a) ≡ ok a
unfolding config_action_from_wire config_action_to_wire
config_action-back validate_only = refl
config_action-back plan_only = refl
config_action-back apply_config = refl

pub config_format-back :
    (f : ConfigFormat) → config_format_from_wire (config_format_to_wire f) ≡ ok f
unfolding config_format_from_wire config_format_to_wire
config_format-back auto = refl
config_format-back yaml = refl
config_format-back json = refl

capability_state-back :
    (s : CapabilityState) → capability_state_from_wire (capability_state_to_wire s) ≡ ok s
capability_state-back Model.unavailable = refl
capability_state-back Model.read_only = refl
capability_state-back Model.dry_run = refl
capability_state-back Model.available = refl

risk-back : (r : OperationRisk) → risk_from_wire (risk_to_wire r) ≡ ok r
risk-back Plan.read_only = refl
risk-back Plan.low = refl
risk-back Plan.connectivity = refl
risk-back Plan.destructive = refl

pub job_state-back : (s : JobState) → job_state_from_wire (job_state_to_wire s) ≡ ok s
unfolding job_state_from_wire job_state_to_wire
job_state-back queued = refl
job_state-back running = refl
job_state-back succeeded = refl
job_state-back failed = refl
job_state-back rolled_back = refl

pub error_code-back : (c : ErrorCode) → error_code_from_wire (error_code_to_wire c) ≡ ok c
unfolding error_code_from_wire error_code_to_wire
error_code-back invalid_request = refl
error_code-back invalid_config = refl
error_code-back unsupported = refl
error_code-back permission_denied = refl
error_code-back not_found = refl
error_code-back internal = refl

pub capability-back : (c : Capability) → capability_from_wire (capability_to_wire c) ≡ ok c
unfolding capability_from_wire capability_to_wire
capability-back c = rw (capability_state-back c.state) refl

pub operation-back : (o : Operation) → operation_from_wire (operation_to_wire o) ≡ ok o
unfolding operation_from_wire operation_to_wire
operation-back o = rw (risk-back o.risk) refl

pub job_summary-back : (j : JobSummary) → job_summary_from_wire (job_summary_to_wire j) ≡ ok j
unfolding job_summary_from_wire job_summary_to_wire
job_summary-back j = rw (job_state-back j.state) refl

ip_address-back : (a : IpAddressInfo) → ip_address_from_wire (ip_address_to_wire a) ≡ a
unfolding ip_address_from_wire ip_address_to_wire
ip_address-back a = refl

pub adapter-back : (a : AdapterInfo) → adapter_from_wire (adapter_to_wire a) ≡ a
unfolding adapter_from_wire adapter_to_wire
adapter-back a =
    rw
      (
        map-map_back ip_address_to_wire ip_address_from_wire ip_address-back a.ipv4,
        map-map_back ip_address_to_wire ip_address_from_wire ip_address-back a.ipv6,
      )
      refl

pub wifi_interface_status-back :
    (w : WifiInterfaceStatus)
    → wifi_interface_status_from_wire (wifi_interface_status_to_wire w) ≡ w
unfolding wifi_interface_status_from_wire wifi_interface_status_to_wire
wifi_interface_status-back w =
    rw
      (
        then_some-or_zero w.signal_quality,
        then_some-or_false w.security_enabled,
        then_some-or_zero w.rx_rate_kbps,
        then_some-or_zero w.tx_rate_kbps,
      )
      refl

pub wifi_network-back : (w : WifiNetwork) → wifi_network_from_wire (wifi_network_to_wire w) ≡ w
unfolding wifi_network_from_wire wifi_network_to_wire
wifi_network-back w = rw (then_some-or_zero w.not_connectable_reason) refl

pub issue-back : (i : ValidationIssue) → issue_from_wire (issue_to_wire i) ≡ i
issue-back i = refl
