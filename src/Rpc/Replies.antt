-- ===== src/Rpc/Replies.antt =====
-- crates/netplan-cli/src/jsonrpc.rs: what `handle` answers to a request.
use netplan.Base.{
  ℕ, List, [], ◌∷◌, ◌≡◌, ◌≢◌, ◌⊎◌, inl, inr, refl, not, true, false, Bool-cases, Option, none, some,
  if◌then◌else◌, Text, text_eq, codes, Unicode, Result, ok, err,
}
use netplan.Config.{ConfigFormat}
use netplan.Model.{Capability, AdapterInfo}
use netplan.Protocol.{Request, Response, ValidationIssue}
use netplan.Protocol
use netplan.Rpc.{
  Value, null, number, string, get, Number, RpcError, RpcRequest, AdapterSelectorParams, RpcCommand,
  call, capability_get, adapter_get, config_inspect, config_describe, config_example, job_wait,
  discover, Serde,
}
use netplan.Rpc.Commands.{RpcResult, map_command}
use netplan.Rpc.Answers.{error_response, result_response}
use netplan.Rpc.Gateway.{
  Host, Outcome, done, failure, unfinished, outcome_of, Action, answered, capability_in, adapter_in,
  capability_of, only_match, planned, validated, get_capability, get_adapter, inspect_config,
  execute_command,
}
use netplan.Rpc.Requests.{
  Handled, silent, reply, unending, id_allowed, id_value, unless_notification, concluded, commanded,
  handle,
}
use netplan.Rpc.Bounds.{Bounded, map_command-Bounded}
use netplan.Rpc.Waiting.{Timely, Waits, wait_for_job-Waits}

-- A response of JSON-RPC 2.0 to the identifier: a result, or an error with a code, never both
abbrev pub IsResponse : Value → Value → Type 0
IsResponse id v =
    (get (codes "jsonrpc") v ≡ some (string (codes "2.0")))
    × (get (codes "id") v ≡ some id)
    × (((result : Value) × (get (codes "result") v ≡ some result) × (get (codes "error") v ≡ none))
        ⊎ ((error : Value) × (code : Number) × (get (codes "error") v ≡ some error)
            × (get (codes "result") v ≡ none)
            × (get (codes "code") error ≡ some (number code))))

-- The identifier of the answer: that of the request, or null where it is of another kind
abbrev pub answer_id : Option Value → Value
answer_id id = if id_allowed (id_value id) then id_value id else null

abbrev pub Answers : Option Value → Handled → Type 0
Answers id silent = id ≡ none
Answers id (reply v) = (id ≢ none) × IsResponse (answer_id id) v
Answers id unending = ⊥

error-IsResponse : (id : Value) (error : RpcError) → IsResponse id (error_response id error)
unfolding error_response text_eq
error-IsResponse id error = (refl, refl, inr (_, error.code, refl, refl, refl))

result-IsResponse : (id result : Value) → IsResponse id (result_response id result)
unfolding result_response text_eq
result-IsResponse id result = (refl, refl, inl (result, refl, refl))

abbrev Ends : {A : Type 0} → Outcome A → Type 0
Ends (done a) = Unit {0}
Ends (failure e) = Unit {0}
Ends unfinished = ⊥

outcome_of-Ends : {A : Type 0} (r : RpcResult A) → Ends (outcome_of r)
outcome_of-Ends (ok a) = tt
outcome_of-Ends (err e) = tt

capability_of-Ends :
    (serde : Serde) (name : Text) (o : Option Capability) → Ends (capability_of serde name o)
capability_of-Ends serde name (some capability) = tt
capability_of-Ends serde name none = tt

only_match-Ends :
    (serde : Serde) (selector : AdapterSelectorParams) (adapters : List AdapterInfo)
    → Ends (only_match serde selector adapters)
only_match-Ends serde selector [] = tt
only_match-Ends serde selector (adapter ∷ []) = tt
only_match-Ends serde selector (first ∷ second ∷ rest) = tt

module _ {S : Type 0} (serde : Serde) (unicode : Unicode) (host : Host S) where
  answered-Ends :
      {A : Type 0} (next : Response → Action S A) (answer : Result Text Response × S)
      → ((response : Response) (s : S) → Ends (next response s).0)
      → Ends (answered serde unicode host next answer).0
  answered-Ends next (ok response, s) h = h response s
  answered-Ends next (err message, s) h = tt

  capability_in-Ends :
      (name : Text) (response : Response) (s : S)
      → Ends (capability_in serde unicode host name response s).0
  capability_in-Ends name (Protocol.capabilities_response capabilities) s =
      capability_of-Ends serde name _
  capability_in-Ends name response s = tt

  adapter_in-Ends :
      (selector : AdapterSelectorParams) (response : Response) (s : S)
      → Ends (adapter_in serde unicode host selector response s).0
  adapter_in-Ends selector (Protocol.adapters adapters) s = only_match-Ends serde selector _
  adapter_in-Ends selector response s = tt

  planned-Ends :
      (issues : List ValidationIssue) (response : Response) (s : S)
      → Ends (planned serde unicode host issues response s).0
  planned-Ends issues (Protocol.plan operations) s = tt
  planned-Ends issues response s = tt

  validated-Ends :
      (document : List ℕ) (format : ConfigFormat) (response : Response) (s : S)
      → Ends (validated serde unicode host document format response s).0
  validated-Ends document format (Protocol.validation true issues) s =
      answered-Ends _ (host.call_daemon (Protocol.config Protocol.plan_only format document true) s)
        (planned-Ends issues)
  validated-Ends document format (Protocol.validation false issues) s = tt
  validated-Ends document format response s = tt

  Waits-Ends :
      (job_id : Text) (outcome : Outcome Value)
      → Waits serde unicode host job_id outcome
      → Ends outcome
  Waits-Ends job_id (done v) h = tt
  Waits-Ends job_id (failure e) h = tt
  Waits-Ends job_id unfinished h = h

  execute_command-Ends :
      Timely host
      → (params : Value) (command : RpcCommand) (s : S) → Bounded serde params command
      → Ends (execute_command serde unicode host command s).0
  unfolding execute_command get_capability get_adapter inspect_config
  execute_command-Ends timely params (call request) s b =
      answered-Ends _ (host.call_daemon request s) (λ response t. outcome_of-Ends _)
  execute_command-Ends timely params (capability_get name) s b =
      answered-Ends _ (host.call_daemon Protocol.capabilities s) (capability_in-Ends name)
  execute_command-Ends timely params (adapter_get selector) s b =
      answered-Ends _ (host.call_daemon Protocol.list_adapters s) (adapter_in-Ends selector)
  execute_command-Ends timely params (config_inspect document format) s b =
      answered-Ends _
        (host.call_daemon (Protocol.config Protocol.validate_only format document true) s)
        (validated-Ends document format)
  execute_command-Ends timely params config_describe s b = tt
  execute_command-Ends timely params (config_example format) s b = tt
  execute_command-Ends timely params (job_wait given) s b =
      Waits-Ends given.job_id _ (wait_for_job-Waits serde unicode host timely given s b.2)
  execute_command-Ends timely params discover s b = outcome_of-Ends _

  concluded-Answers :
      (id : Option Value) (outcome : Outcome Value)
      → id_allowed (id_value id) ≡ true
      → Ends outcome
      → Answers id (concluded id outcome)
  concluded-Answers none (done v) a e = refl
  concluded-Answers none (failure v) a e = refl
  concluded-Answers (some id) (done v) a e = (cc, rw a (result-IsResponse id v))
  concluded-Answers (some id) (failure error) a e = (cc, rw a (error-IsResponse id error))
  concluded-Answers id unfinished a e = absurd e

  commanded-Answers :
      Timely host
      → (params : Value) (id : Option Value) (result : RpcResult RpcCommand) (s : S)
      → id_allowed (id_value id) ≡ true
      → ((command : RpcCommand) → result ≡ ok command → Bounded serde params command)
      → Answers id (commanded serde unicode host id result s).0
  commanded-Answers timely params id (ok command) s a bounded =
      concluded-Answers id _ a (execute_command-Ends timely params command s (bounded command refl))
  commanded-Answers timely params none (err error) s a bounded = refl
  commanded-Answers timely params (some id) (err error) s a bounded =
      (cc, rw a (error-IsResponse id error))

  unallowed-present : (id : Option Value) → not (id_allowed (id_value id)) ≡ true → id ≢ none
  unallowed-present none h = cc
  unallowed-present (some id) h = cc

  version-Answers :
      (id : Option Value) (error : RpcError)
      → id_allowed (id_value id) ≡ true
      → Answers id (unless_notification id (error_response (id_value id) error))
  version-Answers none error a = refl
  version-Answers (some id) error a = (cc, rw a (error-IsResponse id error))

  -- When the clock does not run backwards in a call and a sleep takes its time, `handle` ends for
  -- every request. A request without an identifier gets no answer; any other gets a response of
  -- JSON-RPC 2.0 with its identifier, null where that is no string, number or null, and with either
  -- a result or an error that has a code.
  pub handle-Answers :
      Timely host → (rpc : RpcRequest) (s : S) → Answers rpc.id (handle serde unicode host rpc s).0
  unfolding handle
  handle-Answers timely rpc s = elim (Bool-cases (id_allowed (id_value rpc.id))) [
    | inr foreign ↦
        rw foreign
          (unallowed-present rpc.id (rw foreign refl), rw foreign (error-IsResponse null _))
    | inl a ↦ elim (Bool-cases (text_eq rpc.jsonrpc (codes "2.0"))) [
      | inr other ↦ rw (a, other) (version-Answers rpc.id _ a)
      | inl version ↦
          rw (a, version)
            (commanded-Answers timely rpc.params rpc.id (map_command serde rpc.method rpc.params) s
              a (map_command-Bounded serde rpc.params rpc.method))
    ]
  ]
