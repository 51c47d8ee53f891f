-- ===== src/Rpc/Bounds.antt =====
-- crates/netplan-cli/src/jsonrpc.rs: what holds of a command that `map_command` makes.
use netplan.Base.{
  ℕ, leb, ◌≤◌, ◌≡◌, subst, refl, ap, arith, not, Bool, true, false, Option, none, some, is_nil,
  Text, codes, trim, bytes, if◌then◌else◌, Result, ok, err, ◌>>=◌, ◌>>◌, bind-eq-ok, seq-eq-ok,
  fail_if-eq-ok, ok-inj, map_err, ◌&&◌,
}
use netplan.Config.{ConfigFormat}
use netplan.Protocol.{Request, ConfigAction}
use netplan.Protocol
use netplan.Rpc.{
  Value, ConfigParams, AdapterSelectorParams, RpcCommand, call, capability_get, adapter_get,
  config_describe, job_wait, discover, Serde,
}
use netplan.Rpc.Commands.{
  RpcResult, method_not_found, unwrap_or, invalid_params, no_params, parse_params,
  parse_optional_params, require_non_empty, validate_range, require_given, is_none, mac_unreadable,
  validate_adapter_selector, parse_config_format, example_format, config_rpc_request,
  wifi_scan_request, job_get_request, job_list_request, map_request, capability_command,
  adapter_command, inspect_command, example_command, wait_command, map_command,
}

abbrev pub InRange : ℕ → ℕ → ℕ → Type 0
InRange minimum maximum n = (minimum ≤ n) × (n ≤ maximum)

-- The text is not blank.
abbrev pub Given : Text → Type 0
Given text = is_nil (trim text) ≡ false

abbrev pub GivenIfAny : Option Text → Type 0
GivenIfAny none = Unit {0}
GivenIfAny (some text) = Given text

-- The selector names something, nothing blank, and its MAC address can be read.
pub record Selects (selector : AdapterSelectorParams) : Type 0 where
  pub names_something :
      is_none selector.if_index
        && is_none selector.name
        && is_none selector.guid
        && is_none selector.mac_address
        && is_none selector.description_contains
      ≡ false
  pub name_given : GivenIfAny selector.name
  pub guid_given : GivenIfAny selector.guid
  pub mac_given : GivenIfAny selector.mac_address
  pub description_given : GivenIfAny selector.description_contains
  pub mac_readable : mac_unreadable selector.mac_address ≡ false

-- What the gateway asks of the daemon for the parameters `params`: a dry run unless they say
-- `dry_run: false`, limits within their ranges, and never the daemon's end.
abbrev pub Asks : Serde → Value → Request → Type 0
Asks serde params (Protocol.config action format document true) = Unit {0}
Asks serde params (Protocol.config action format document false) =
    (given : ConfigParams) × (serde.config_params params ≡ ok given) × (given.dry_run ≡ some false)
Asks serde params (Protocol.job_status job_id) = Given job_id
Asks serde params (Protocol.list_jobs state limit) = InRange 1 1000 limit
Asks serde params (Protocol.wifi_scan if_index refresh timeout_ms) = InRange 250 15000 timeout_ms
Asks serde params Protocol.shutdown = ⊥
Asks serde params _ = Unit {0}

abbrev pub Bounded : Serde → Value → RpcCommand → Type 0
Bounded serde params (call request) = Asks serde params request
Bounded serde params (capability_get name) = Given name
Bounded serde params (adapter_get selector) = Selects selector
Bounded serde params (job_wait given) =
    Given given.job_id
    × InRange 1 300000 (unwrap_or 30000 given.timeout_ms)
    × InRange 25 5000 (unwrap_or 100 given.interval_ms)
Bounded serde params _ = Unit {0}

-- Whatever a result gives satisfies the predicate.
abbrev Yields : {A : Type 0} → (A → Type 0) → RpcResult A → Type 0
Yields {A} P r = (a : A) → r ≡ ok a → P a

Yields-if :
    {A : Type 0} (P : A → Type 0) (b : Bool) (x y : RpcResult A)
    → Yields P x
    → Yields P y
    → Yields P (if b then x else y)
Yields-if P true x y p q = p
Yields-if P false x y p q = q

require_non_empty-Given : (field value : Text) → require_non_empty field value ≡ ok tt → Given value
unfolding require_non_empty
require_non_empty-Given field value h = fail_if-eq-ok _ _ h

validate_range-InRange :
    (field : Text) (n minimum maximum : ℕ)
    → validate_range field n minimum maximum ≡ ok tt
    → InRange minimum maximum n
unfolding validate_range
validate_range-InRange field n minimum maximum h =
    let k = fail_if-eq-ok (not (leb minimum n && leb n maximum)) _ h in ground arith

require_given-GivenIfAny :
    (field : Text) (o : Option Text) → require_given field o ≡ ok tt → GivenIfAny o
require_given-GivenIfAny field none h = tt
require_given-GivenIfAny field (some value) h = require_non_empty-Given field value h

validate_adapter_selector-Selects :
    (selector : AdapterSelectorParams)
    → validate_adapter_selector selector ≡ ok tt
    → Selects selector
unfolding validate_adapter_selector
validate_adapter_selector-Selects selector h =
    let (a, h1) = seq-eq-ok _ _ h in
    let (b, h2) = seq-eq-ok _ _ h1 in
    let (c, h3) = seq-eq-ok _ _ h2 in
    let (d, h4) = seq-eq-ok _ _ h3 in
    let (e, f) = seq-eq-ok _ _ h4 in
    record {
      names_something = fail_if-eq-ok _ _ a;
      name_given = require_given-GivenIfAny _ selector.name b;
      guid_given = require_given-GivenIfAny _ selector.guid c;
      mac_given = require_given-GivenIfAny _ selector.mac_address d;
      description_given = require_given-GivenIfAny _ selector.description_contains e;
      mac_readable = fail_if-eq-ok _ _ f;
    }

module _ (serde : Serde) (params : Value) where
  abbrev RequestIn : Request → Type 0
  RequestIn = Asks serde params

  plain :
      (request : Request) → RequestIn request → Yields RequestIn (no_params params >> ok request)
  plain request a r h = subst RequestIn (ok-inj (seq-eq-ok (no_params params) (ok request) h).1) a

  parse_params-eq-ok :
      {A : Type 0} (from_value : Value → Result Text A) (value : Value) {a : A}
      → parse_params from_value value ≡ ok a
      → from_value value ≡ ok a
  unfolding parse_params
  parse_params-eq-ok from_value value h = read (from_value value) h
    where
      read : {A : Type 0} (r : Result Text A) {a : A} → map_err invalid_params r ≡ ok a → r ≡ ok a
      read (ok b) h = ap ok (ok-inj h)
      read (err e) h = cc

  dry_run-RequestIn :
      (action : ConfigAction) (format : ConfigFormat) (given : ConfigParams) (o : Option Bool)
      → serde.config_params params ≡ ok given
      → given.dry_run ≡ o
      → RequestIn (Protocol.config action format (bytes given.document) (unwrap_or true o))
  dry_run-RequestIn action format given none e d = tt
  dry_run-RequestIn action format given (some true) e d = tt
  dry_run-RequestIn action format given (some false) e d = (given, e, d)

  config_rpc_request-Asks :
      (action : ConfigAction) → Yields RequestIn (config_rpc_request serde action params true)
  unfolding config_rpc_request
  config_rpc_request-Asks action r h =
      let (given, e, h1) = bind-eq-ok (parse_params serde.config_params params) _ h in
      let (format, f, h2) =
        bind-eq-ok (parse_config_format serde (unwrap_or (codes "auto") given.format)) _ h1 in
      let read = parse_params-eq-ok serde.config_params params e in
      subst RequestIn (ok-inj h2) (dry_run-RequestIn action format given given.dry_run read refl)

  wifi_scan_request-Asks : Yields RequestIn (wifi_scan_request serde params)
  wifi_scan_request-Asks r h =
      let (given, e, h1) = bind-eq-ok (parse_optional_params serde.wifi_scan_params params) _ h in
      let (checked, h2) =
        seq-eq-ok (validate_range (codes "timeout_ms") (unwrap_or 4000 given.timeout_ms) 250 15000)
          _ h1 in
      subst RequestIn (ok-inj h2) (validate_range-InRange _ _ 250 15000 checked)

  job_get_request-Asks : Yields RequestIn (job_get_request serde params)
  job_get_request-Asks r h =
      let (job_id, e, h1) = bind-eq-ok (parse_params serde.job_params params) _ h in
      let (checked, h2) = seq-eq-ok (require_non_empty (codes "job_id") job_id) _ h1 in
      subst RequestIn (ok-inj h2) (require_non_empty-Given _ job_id checked)

  job_list_request-Asks : Yields RequestIn (job_list_request serde params)
  job_list_request-Asks r h =
      let (given, e, h1) = bind-eq-ok (parse_optional_params serde.job_list_params params) _ h in
      let (checked, h2) =
        seq-eq-ok (validate_range (codes "limit") (unwrap_or 100 given.limit) 1 1000) _ h1 in
      subst RequestIn (ok-inj h2) (validate_range-InRange _ _ 1 1000 checked)

  wifi_status-Asks : Yields RequestIn (
      parse_optional_params serde.wifi_status_params params >>= λ if_index.
      ok (Protocol.wifi_status if_index))
  wifi_status-Asks r h =
      let (if_index, e, h1) =
        bind-eq-ok (parse_optional_params serde.wifi_status_params params) _ h in
      subst RequestIn (ok-inj h1) tt

  missing : Yields RequestIn (err method_not_found)
  missing r h = cc

  map_request-Asks : (method : Text) → Yields RequestIn (map_request serde method params)
  unfolding map_request
  map_request-Asks method = Yields-if RequestIn _ _ _ (plain Protocol.ping tt) (
      Yields-if RequestIn _ _ _ (plain Protocol.daemon_status tt) (
        Yields-if RequestIn _ _ _ (plain Protocol.capabilities tt) (
          Yields-if RequestIn _ _ _ (plain Protocol.list_adapters tt) (
            Yields-if RequestIn _ _ _ (plain Protocol.network_status tt) (
              Yields-if RequestIn _ _ _ wifi_status-Asks (
                Yields-if RequestIn _ _ _ wifi_scan_request-Asks (
                  Yields-if RequestIn _ _ _ (config_rpc_request-Asks Protocol.validate_only) (
                    Yields-if RequestIn _ _ _ (config_rpc_request-Asks Protocol.plan_only) (
                      Yields-if RequestIn _ _ _ (config_rpc_request-Asks Protocol.apply_config) (
                        Yields-if RequestIn _ _ _ job_get_request-Asks
                          (Yields-if RequestIn _ _ _ job_list_request-Asks missing)))))))))))

  abbrev CommandIn : RpcCommand → Type 0
  CommandIn = Bounded serde params

  bare :
      (command : RpcCommand) → CommandIn command → Yields CommandIn (no_params params >> ok command)
  bare command b c h = subst CommandIn (ok-inj (seq-eq-ok (no_params params) (ok command) h).1) b

  capability_command-Bounded : Yields CommandIn (capability_command serde params)
  capability_command-Bounded c h =
      let (name, e, h1) = bind-eq-ok (parse_params serde.name_params params) _ h in
      let (checked, h2) = seq-eq-ok (require_non_empty (codes "name") name) _ h1 in
      subst CommandIn (ok-inj h2) (require_non_empty-Given _ name checked)

  adapter_command-Bounded : Yields CommandIn (adapter_command serde params)
  adapter_command-Bounded c h =
      let (selector, e, h1) = bind-eq-ok (parse_params serde.adapter_selector_params params) _ h in
      let (checked, h2) = seq-eq-ok (validate_adapter_selector selector) _ h1 in
      subst CommandIn (ok-inj h2) (validate_adapter_selector-Selects selector checked)

  inspect_command-Bounded : Yields CommandIn (inspect_command serde params)
  inspect_command-Bounded c h =
      let (given, e, h1) = bind-eq-ok (parse_params serde.config_params params) _ h in
      let (format, f, h2) =
        bind-eq-ok (parse_config_format serde (unwrap_or (codes "auto") given.format)) _ h1 in
      subst CommandIn (ok-inj h2) tt

  example_command-Bounded : Yields CommandIn (example_command serde params)
  example_command-Bounded c h =
      let (given, e, h1) = bind-eq-ok (parse_optional_params serde.example_params params) _ h in
      let (format, f, h2) =
        bind-eq-ok (example_format serde (unwrap_or (codes "yaml") given)) _ h1 in
      subst CommandIn (ok-inj h2) tt

  wait_command-Bounded : Yields CommandIn (wait_command serde params)
  wait_command-Bounded c h =
      let (given, e, h1) = bind-eq-ok (parse_params serde.job_wait_params params) _ h in
      let (a, h2) = seq-eq-ok (require_non_empty (codes "job_id") given.job_id) _ h1 in
      let (b, h3) =
        seq-eq-ok (validate_range (codes "timeout_ms") (unwrap_or 30000 given.timeout_ms) 1 300000)
          _ h2 in
      let (d, h4) =
        seq-eq-ok (validate_range (codes "interval_ms") (unwrap_or 100 given.interval_ms) 25 5000) _
          h3 in
      subst CommandIn (ok-inj h4) (
        require_non_empty-Given _ given.job_id a,
        validate_range-InRange _ _ 1 300000 b,
        validate_range-InRange _ _ 25 5000 d,
      )

  call-Bounded :
      (method : Text)
      → Yields CommandIn (map_request serde method params >>= λ request. ok (call request))
  call-Bounded method c h =
      let (request, e, h1) = bind-eq-ok (map_request serde method params) _ h in
      subst CommandIn (ok-inj h1) (map_request-Asks method request e)

  -- A command that the gateway makes of a method is within its bounds: names and selectors are not
  -- blank, a selector names something and its MAC address can be read, limits and times are within
  -- their ranges, a configuration is asked for as a dry run unless the parameters say
  -- `dry_run: false`, and the end of the daemon is never asked for.
  pub map_command-Bounded :
      (method : Text) (command : RpcCommand)
      → map_command serde method params ≡ ok command
      → Bounded serde params command
  unfolding map_command
  map_command-Bounded method = Yields-if CommandIn _ _ _ capability_command-Bounded (
      Yields-if CommandIn _ _ _ adapter_command-Bounded (
        Yields-if CommandIn _ _ _ inspect_command-Bounded (
          Yields-if CommandIn _ _ _ (bare config_describe tt) (
            Yields-if CommandIn _ _ _ example_command-Bounded (
              Yields-if CommandIn _ _ _ wait_command-Bounded
                (Yields-if CommandIn _ _ _ (bare discover tt) (call-Bounded method)))))))
