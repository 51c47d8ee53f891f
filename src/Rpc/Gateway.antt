-- ===== src/Rpc/Gateway.antt =====
-- crates/netplan-cli/src/jsonrpc.rs: commands carried out, requests handled, and the loop over the
-- lines of the input.
use netplan.Base.{
  ℕ, zero, suc, ◌+◌, ◌-◌, ◌*◌, ◌/◌, ◌==◌, min, true, false, Option, none, some, List, [], ◌∷◌, ◌++◌,
  keep, find, if◌then◌else◌, Text, codes, eq_ignore_ascii_case, Unicode, Result, ok, err,
}
use netplan.Model.{Capability, AdapterInfo}
use netplan.Config.{ConfigFormat}
use netplan.Protocol.{Request, Response, JobState, validate_only, plan_only, ValidationIssue}
use netplan.Protocol
use netplan.Rpc.{
  Value, bool, string, array, nil, object, neg_int, members, RpcError, AdapterSelectorParams,
  JobWaitParams, ExampleFormat, yaml, json, RpcCommand, call, capability_get, adapter_get,
  config_inspect, config_describe, config_example, job_wait, discover, Serde,
}
use netplan.Rpc.Commands.{RpcResult, unwrap_or}
use netplan.Rpc.Answers.{
  strings, optional, natural, each_of, is_terminal_job_state, job_wait_timeout, adapter_matches,
  selector_value, required_capabilities, config_description, unexpected_daemon_response, job_value,
  response_rpc_value, rpc_contract,
}

-- What the gateway calls: `call_with_autostart`, the same under `tokio::time::timeout`, which gives
-- none where the time is over, and the clock, in nanoseconds.
pub record Host (S : Type 0) : Type 0 where
  pub call_daemon : Request → S → Result Text Response × S
  pub call_within : ℕ → Request → S → Option (Result Text Response) × S
  pub now : S → ℕ
  pub sleep : ℕ → S → S

-- The last is for a loop that has run out of the rounds that the model gives it.
pub data Outcome (A : Type 0) : Type 0 where
  done : A → Outcome A
  failure : RpcError → Outcome A
  unfinished : Outcome A

abbrev pub Action : Type 0 → Type 0 → Type 0
Action S A = S → Outcome A × S

abbrev pub outcome_of : {A : Type 0} → RpcResult A → Outcome A
outcome_of (ok a) = done a
outcome_of (err e) = failure e

abbrev pub from_millis : ℕ → ℕ
from_millis ms = ms * 1000000

abbrev pub call_failed : Text → RpcError
call_failed message = record { code = neg_int 32000; message = message; extra = none }

abbrev example_document : ExampleFormat → Text
example_document yaml =
    codes
      "version: 1\nprotect:\n  management_interfaces:\n    - name: REPLACE_WITH_MANAGEMENT_ADAPTER\n"
    ++ codes "adapters:\n  - selector:\n      name: REPLACE_WITH_TARGET_ADAPTER\n"
    ++ codes "    ipv4:\n      mode: dhcp\n      dns_from_dhcp: true\n"
example_document json =
    codes "{\n  \"version\": 1,\n  \"protect\": {\n    \"management_interfaces\": [\n"
    ++ codes
        "      { \"name\": \"REPLACE_WITH_MANAGEMENT_ADAPTER\" }\n    ]\n  },\n  \"adapters\": [\n"
    ++ codes "    {\n      \"selector\": { \"name\": \"REPLACE_WITH_TARGET_ADAPTER\" },\n"
    ++ codes "      \"ipv4\": { \"mode\": \"dhcp\", \"dns_from_dhcp\": true }\n    }\n  ]\n}\n"

abbrev format_name : ExampleFormat → Text
format_name yaml = codes "yaml"
format_name json = codes "json"

unfoldable pub example_of : ExampleFormat → Value
example_of format = object (
    members (
      (codes "format", string (format_name format))
      ∷ (codes "document", string (example_document format))
      ∷ (codes "dry_run_recommended", bool true)
      ∷ (
        codes "note",
        string (codes "Replace both adapter placeholders after inspecting netplan.adapters.list."),
      )
      ∷ []))

abbrev pub not_found : Text → Value → RpcError
not_found message extra = record { code = neg_int 32004; message = message; extra = some extra }

abbrev pub capability_of : Serde → Text → Option Capability → Outcome Value
capability_of serde name (some capability) = done (serde.capability capability)
capability_of serde name none =
    failure (
      not_found (codes "Capability not found")
        (object (members ((codes "name", string name) ∷ []))))

-- What an ambiguous selector's error shows of an adapter
abbrev pub brief : AdapterInfo → Value
brief adapter = object (
    members (
      (codes "if_index", natural adapter.if_index)
      ∷ (codes "name", string adapter.name)
      ∷ (codes "guid", optional string adapter.guid)
      ∷ []))

abbrev pub only_match : Serde → AdapterSelectorParams → List AdapterInfo → Outcome Value
only_match serde selector [] = failure (
    not_found (codes "Adapter not found")
      (object (members ((codes "selector", selector_value selector) ∷ []))))
only_match serde selector (adapter ∷ []) = done (serde.adapter adapter)
only_match serde selector (first ∷ second ∷ rest) = failure (record {
  code = neg_int 32009;
  message = codes "Adapter selector is ambiguous";
  extra = some (
      object (
        members (
          (codes "selector", selector_value selector)
          ∷ (codes "matches", each_of brief (first ∷ second ∷ rest))
          ∷ [])));
})

module _ {S : Type 0} (serde : Serde) (unicode : Unicode) (host : Host S) where
  -- `call_daemon(…).await?`, and what follows it
  abbrev pub answered :
      {A : Type 0} → (Response → Action S A) → Result Text Response × S → Outcome A × S
  answered next (ok response, s) = next response s
  answered next (err message, s) = (failure (call_failed message), s)

  abbrev pub asked : {A : Type 0} → Request → (Response → Action S A) → Action S A
  asked request next s = answered next (host.call_daemon request s)

  abbrev pub unexpected : {A : Type 0} → Response → Text → Action S A
  unexpected response expected s = (failure (unexpected_daemon_response serde response expected), s)

  abbrev pub capability_in : Text → Response → Action S Value
  capability_in name (Protocol.capabilities_response capabilities) s = (
    capability_of serde name
        (find (λ (c : Capability). eq_ignore_ascii_case c.name name) capabilities),
    s,
  )
  capability_in name response s = unexpected response (codes "capabilities") s

  unfoldable pub get_capability : Text → Action S Value
  get_capability name = asked Protocol.capabilities (capability_in name)

  abbrev pub adapter_in : AdapterSelectorParams → Response → Action S Value
  adapter_in selector (Protocol.adapters adapters) s = (
    only_match serde selector (keep (λ adapter. adapter_matches unicode adapter selector) adapters),
    s,
  )
  adapter_in selector response s = unexpected response (codes "adapter inventory") s

  unfoldable pub get_adapter : AdapterSelectorParams → Action S Value
  get_adapter selector = asked Protocol.list_adapters (adapter_in selector)

  abbrev pub planned : List ValidationIssue → Response → Action S Value
  planned issues (Protocol.plan operations) s = (
    done (
        object (
          members (
            (codes "valid", bool true)
            ∷ (codes "issues", each_of serde.issue issues)
            ∷ (codes "operations", each_of serde.operation operations)
            ∷ (codes "required_capabilities", strings (required_capabilities operations))
            ∷ []))),
    s,
  )
  planned issues response s = unexpected response (codes "configuration plan") s

  abbrev pub validated : List ℕ → ConfigFormat → Response → Action S Value
  validated document format (Protocol.validation false issues) s = (
    done (
        object (
          members (
            (codes "valid", bool false)
            ∷ (codes "issues", each_of serde.issue issues)
            ∷ (codes "operations", array nil)
            ∷ (codes "required_capabilities", array nil)
            ∷ []))),
    s,
  )
  validated document format (Protocol.validation true issues) s =
      asked (Protocol.config plan_only format document true) (planned issues) s
  validated document format response s = unexpected response (codes "validation result") s

  unfoldable pub inspect_config : List ℕ → ConfigFormat → Action S Value
  inspect_config document format =
      asked (Protocol.config validate_only format document true) (validated document format)

  -- The rest of a round of the loop, after the daemon's answer; `again` is the next round.
  module _ (job_id : Text) (timeout_ms interval deadline : ℕ) where
    abbrev pub pause : Action S Value → Action S Value
    pause again s =
        if deadline - host.now s == 0
        then (failure (job_wait_timeout job_id timeout_ms), s)
        else again (host.sleep (min interval (deadline - host.now s)) s)

    abbrev pub status_read : Action S Value → Response → Action S Value
    status_read again (Protocol.job_status_response id state message) s =
        if is_terminal_job_state state
        then (done (job_value serde id state message), s)
        else pause again s
    status_read again response s = unexpected response (codes "job status") s

    abbrev pub status_answered :
        Action S Value → Option (Result Text Response) × S → Outcome Value × S
    status_answered again (none, s) = (failure (job_wait_timeout job_id timeout_ms), s)
    status_answered again (some (err message), s) = (failure (call_failed message), s)
    status_answered again (some (ok response), s) = status_read again response s

    unfoldable pub poll : ℕ → Action S Value
    poll zero s = (unfinished, s)
    poll (suc fuel) s =
        let remaining = deadline - host.now s in
        let again = poll fuel in
        if remaining == 0
        then (failure (job_wait_timeout job_id timeout_ms), s)
        else status_answered again (host.call_within remaining (Protocol.job_status job_id) s)

  -- With rounds enough for the time and the interval
  unfoldable pub wait_for_job : JobWaitParams → Action S Value
  wait_for_job params s =
      let timeout_ms = unwrap_or 30000 params.timeout_ms in
      let interval_ms = unwrap_or 100 params.interval_ms in
      poll params.job_id timeout_ms (from_millis interval_ms) (host.now s + from_millis timeout_ms)
        (timeout_ms / interval_ms + 2) s

  abbrev pub responded : Response → Action S Value
  responded response s = (outcome_of (response_rpc_value serde response), s)

  unfoldable pub execute_command : RpcCommand → Action S Value
  execute_command (call request) s = asked request responded s
  execute_command (capability_get name) s = get_capability name s
  execute_command (adapter_get selector) s = get_adapter selector s
  execute_command (config_inspect document format) s = inspect_config document format s
  execute_command config_describe s = (done config_description, s)
  execute_command (config_example format) s = (done (example_of format), s)
  execute_command (job_wait params) s = wait_for_job params s
  execute_command discover s = (outcome_of (rpc_contract serde), s)
