-- ===== src/Rpc/Methods.antt =====
-- crates/netplan-cli/src/jsonrpc.rs: the methods that the gateway knows, and the list of them that
-- it publishes.
use netplan.Base.{
  ℕ, List, [], ◌∷◌, All, subst, String, ◌≡◌, ◌↔◌, refl, arith, Bool, true, false, ◌||◌, any,
  any-false, Option, none, some, Text, text_eq, codes, if◌then◌else◌, Result, ok, err, ◌>>=◌, ◌>>◌,
  fail_if, map_err,
}
use netplan.Protocol.{Request, ConfigAction}
use netplan.Protocol
use netplan.Rpc.{
  Value, neg_int, RpcError, AdapterSelectorParams, RpcCommand, call, config_describe, discover,
  Serde,
}
use netplan.Rpc.Commands.{
  RpcResult, rpc_methods, invalid_params, method_not_found, unwrap_or, no_params, parse_params,
  parse_optional_params, require_non_empty, validate_range, require_given,
  validate_adapter_selector, parse_config_format, example_format, config_rpc_request,
  wifi_scan_request, job_get_request, job_list_request, map_request, capability_command,
  adapter_command, inspect_command, example_command, wait_command, map_command,
}

-- The only errors that the result may be are those of invalid parameters.
abbrev Refuses : {A : Type 0} → RpcResult A → Type 0
Refuses (ok a) = Unit {0}
Refuses (err e) = e.code ≡ neg_int 32602

Refuses-bind :
    {A B : Type 0} (m : RpcResult A) (f : A → RpcResult B)
    → Refuses m
    → ((a : A) → Refuses (f a))
    → Refuses (m >>= f)
Refuses-bind (ok a) f h k = k a
Refuses-bind (err e) f h k = h

Refuses-seq :
    {B : Type 0} (m : RpcResult (Unit {0})) (k : RpcResult B)
    → Refuses m
    → Refuses k
    → Refuses (m >> k)
Refuses-seq (ok tt) k h l = l
Refuses-seq (err e) k h l = h

Refuses-if :
    {A : Type 0} (b : Bool) (x y : RpcResult A)
    → Refuses x
    → Refuses y
    → Refuses (if b then x else y)
Refuses-if true x y h k = h
Refuses-if false x y h k = k

Refuses-fail_if : (b : Bool) (message : Text) → Refuses (fail_if b (invalid_params message))
Refuses-fail_if true message = refl
Refuses-fail_if false message = tt

Refuses-map_err : {A : Type 0} (r : Result Text A) → Refuses (map_err invalid_params r)
Refuses-map_err (ok a) = tt
Refuses-map_err (err e) = refl

no_params-Refuses : (params : Value) → Refuses (no_params params)
unfolding no_params
no_params-Refuses params = Refuses-fail_if _ _

parse_params-Refuses :
    {A : Type 0} (from_value : Value → Result Text A) (params : Value)
    → Refuses (parse_params from_value params)
unfolding parse_params
parse_params-Refuses from_value params = Refuses-map_err (from_value params)

parse_optional_params-Refuses :
    {A : Type 0} (from_value : Value → Result Text A) (params : Value)
    → Refuses (parse_optional_params from_value params)
unfolding parse_optional_params
parse_optional_params-Refuses from_value params = parse_params-Refuses from_value _

require_non_empty-Refuses : (field value : Text) → Refuses (require_non_empty field value)
unfolding require_non_empty
require_non_empty-Refuses field value = Refuses-fail_if _ _

validate_range-Refuses :
    (field : Text) (n minimum maximum : ℕ) → Refuses (validate_range field n minimum maximum)
unfolding validate_range
validate_range-Refuses field n minimum maximum = Refuses-fail_if _ _

require_given-Refuses : (field : Text) (o : Option Text) → Refuses (require_given field o)
require_given-Refuses field none = tt
require_given-Refuses field (some value) = require_non_empty-Refuses field value

validate_adapter_selector-Refuses :
    (selector : AdapterSelectorParams) → Refuses (validate_adapter_selector selector)
unfolding validate_adapter_selector
validate_adapter_selector-Refuses selector = Refuses-seq _ _ (Refuses-fail_if _ _) (
    Refuses-seq (require_given (codes "name") selector.name) _
      (require_given-Refuses _ selector.name)
      (Refuses-seq (require_given (codes "guid") selector.guid) _
        (require_given-Refuses _ selector.guid)
        (Refuses-seq (require_given (codes "mac_address") selector.mac_address) _
          (require_given-Refuses _ selector.mac_address)
          (Refuses-seq (require_given (codes "description_contains") selector.description_contains)
            _ (require_given-Refuses _ selector.description_contains) (Refuses-fail_if _ _)))))

-- The methods that `map_request` tests for, and those that `map_command` does, in their order
abbrev request_methods : List Text
request_methods =
    codes "netplan.ping"
    ∷ codes "netplan.daemon.status"
    ∷ codes "netplan.capabilities"
    ∷ codes "netplan.adapters.list"
    ∷ codes "netplan.status"
    ∷ codes "netplan.wifi.status"
    ∷ codes "netplan.wifi.scan"
    ∷ codes "netplan.config.validate"
    ∷ codes "netplan.config.plan"
    ∷ codes "netplan.config.apply"
    ∷ codes "netplan.job.get"
    ∷ codes "netplan.job.list"
    ∷ []

abbrev command_methods : List Text
command_methods =
    codes "netplan.capability.get"
    ∷ codes "netplan.adapter.get"
    ∷ codes "netplan.config.inspect"
    ∷ codes "netplan.config.describe"
    ∷ codes "netplan.config.example"
    ∷ codes "netplan.job.wait"
    ∷ codes "netplan.rpc.discover"
    ∷ []

bind-err :
    (m : RpcResult Request) {e : RpcError}
    → (m >>= λ request. ok (call request)) ≡ err e
    → m ≡ err e
bind-err (ok a) h = cc
bind-err (err d) h = ground arith

-- A branch that refuses only invalid parameters is not the one that finds no method.
passes :
    {A : Type 0} (b : Bool) (x y : RpcResult A)
    → Refuses x
    → (if b then x else y) ≡ err method_not_found
    → (b ≡ false) × (y ≡ err method_not_found)
passes true x y r h = let wrong = subst Refuses h r in absurd (ground arith)
passes false x y r h = (refl, h)

module _ (serde : Serde) (params : Value) where
  plain : (request : Request) → Refuses (no_params params >> ok request)
  plain request = Refuses-seq _ (ok request) (no_params-Refuses params) tt

  bare : (command : RpcCommand) → Refuses (no_params params >> ok command)
  bare command = Refuses-seq _ (ok command) (no_params-Refuses params) tt

  parse_config_format-Refuses : (value : Text) → Refuses (parse_config_format serde value)
  unfolding parse_config_format
  parse_config_format-Refuses value = Refuses-if (text_eq value (codes "auto")) _ _ tt (
      Refuses-if (text_eq value (codes "yaml") || text_eq value (codes "yml")) _ _ tt
        (Refuses-if (text_eq value (codes "json")) _ _ tt refl))

  example_format-Refuses : (value : Text) → Refuses (example_format serde value)
  example_format-Refuses value =
      Refuses-if (text_eq value (codes "yaml") || text_eq value (codes "yml")) _ _ tt
        (Refuses-if (text_eq value (codes "json")) _ _ tt refl)

  config_rpc_request-Refuses :
      (action : ConfigAction) → Refuses (config_rpc_request serde action params true)
  unfolding config_rpc_request
  config_rpc_request-Refuses action =
      Refuses-bind (parse_params serde.config_params params) _ (parse_params-Refuses _ params)
        (λ given.
          Refuses-bind (parse_config_format serde (unwrap_or (codes "auto") given.format)) _
            (parse_config_format-Refuses _) (λ format. tt))

  wifi_status-Refuses : Refuses (
      parse_optional_params serde.wifi_status_params params >>= λ if_index.
      ok (Protocol.wifi_status if_index))
  wifi_status-Refuses =
      Refuses-bind (parse_optional_params serde.wifi_status_params params) _
        (parse_optional_params-Refuses _ params) (λ if_index. tt)

  wifi_scan_request-Refuses : Refuses (wifi_scan_request serde params)
  wifi_scan_request-Refuses =
      Refuses-bind (parse_optional_params serde.wifi_scan_params params) _
        (parse_optional_params-Refuses _ params)
        (λ given.
          Refuses-seq
            (validate_range (codes "timeout_ms") (unwrap_or 4000 given.timeout_ms) 250 15000) _
            (validate_range-Refuses _ _ _ _) tt)

  job_get_request-Refuses : Refuses (job_get_request serde params)
  job_get_request-Refuses =
      Refuses-bind (parse_params serde.job_params params) _ (parse_params-Refuses _ params)
        (λ job_id.
          Refuses-seq (require_non_empty (codes "job_id") job_id) _ (require_non_empty-Refuses _ _)
            tt)

  job_list_request-Refuses : Refuses (job_list_request serde params)
  job_list_request-Refuses =
      Refuses-bind (parse_optional_params serde.job_list_params params) _
        (parse_optional_params-Refuses _ params)
        (λ given.
          Refuses-seq (validate_range (codes "limit") (unwrap_or 100 given.limit) 1 1000) _
            (validate_range-Refuses _ _ _ _) tt)

  capability_command-Refuses : Refuses (capability_command serde params)
  capability_command-Refuses =
      Refuses-bind (parse_params serde.name_params params) _ (parse_params-Refuses _ params)
        (λ name.
          Refuses-seq (require_non_empty (codes "name") name) _ (require_non_empty-Refuses _ _) tt)

  adapter_command-Refuses : Refuses (adapter_command serde params)
  adapter_command-Refuses =
      Refuses-bind (parse_params serde.adapter_selector_params params) _
        (parse_params-Refuses _ params)
        (λ selector.
          Refuses-seq (validate_adapter_selector selector) _
            (validate_adapter_selector-Refuses selector) tt)

  inspect_command-Refuses : Refuses (inspect_command serde params)
  inspect_command-Refuses =
      Refuses-bind (parse_params serde.config_params params) _ (parse_params-Refuses _ params)
        (λ given.
          Refuses-bind (parse_config_format serde (unwrap_or (codes "auto") given.format)) _
            (parse_config_format-Refuses _) (λ format. tt))

  example_command-Refuses : Refuses (example_command serde params)
  example_command-Refuses =
      Refuses-bind (parse_optional_params serde.example_params params) _
        (parse_optional_params-Refuses _ params)
        (λ given.
          Refuses-bind (example_format serde (unwrap_or (codes "yaml") given)) _
            (example_format-Refuses _) (λ format. tt))

  wait_command-Refuses : Refuses (wait_command serde params)
  wait_command-Refuses =
      Refuses-bind (parse_params serde.job_wait_params params) _ (parse_params-Refuses _ params)
        (λ given.
          Refuses-seq (require_non_empty (codes "job_id") given.job_id) _
            (require_non_empty-Refuses _ _)
            (Refuses-seq
              (validate_range (codes "timeout_ms") (unwrap_or 30000 given.timeout_ms) 1 300000) _
              (validate_range-Refuses _ _ _ _)
              (Refuses-seq
                (validate_range (codes "interval_ms") (unwrap_or 100 given.interval_ms) 25 5000) _
                (validate_range-Refuses _ _ _ _) tt)))

  module _ (method : Text) where
    abbrev tests : String → Bool
    tests name = text_eq method (codes name)

    any-unequal :
        (names : List Text)
        → All (λ name. text_eq method name ≡ false) names
        → any (λ name. text_eq method name) names ≡ false
    any-unequal [] h = refl
    any-unequal (name ∷ names) h = rw (h.0) (any-unequal names h.1)

    unlisted :
        All (λ name. text_eq method name ≡ false) rpc_methods
        → map_command serde method params ≡ err method_not_found
    unfolding map_command map_request
    unlisted f =
        rw
          (
            f.1.1.1.0, f.1.1.1.1.1.0, f.1.1.1.1.1.1.1.1.1.1.1.0, f.1.1.1.1.1.1.1.1.1.1.1.1.1.0,
            f.1.1.1.1.1.1.1.1.1.1.1.1.1.1.0, f.1.1.1.1.1.1.1.1.1.1.1.1.1.1.1.1.1.0,
            f.1.1.1.1.1.1.1.1.1.1.1.1.1.1.1.1.1.1.0, f.0, f.1.0, f.1.1.0, f.1.1.1.1.0,
            f.1.1.1.1.1.1.0, f.1.1.1.1.1.1.1.0, f.1.1.1.1.1.1.1.1.0, f.1.1.1.1.1.1.1.1.1.0,
            f.1.1.1.1.1.1.1.1.1.1.0, f.1.1.1.1.1.1.1.1.1.1.1.1.0, f.1.1.1.1.1.1.1.1.1.1.1.1.1.1.1.0,
            f.1.1.1.1.1.1.1.1.1.1.1.1.1.1.1.1.0,
          )
          refl

    map_request-missing :
        map_request serde method params ≡ err method_not_found
        → All (λ name. text_eq method name ≡ false) request_methods
    unfolding map_request
    map_request-missing h =
        let (e0, h0) = passes (tests "netplan.ping") _ _ (plain Protocol.ping) h in
        let (e1, h1) =
          passes (tests "netplan.daemon.status") _ _ (plain Protocol.daemon_status) h0 in
        let (e2, h2) = passes (tests "netplan.capabilities") _ _ (plain Protocol.capabilities) h1 in
        let (e3, h3) =
          passes (tests "netplan.adapters.list") _ _ (plain Protocol.list_adapters) h2 in
        let (e4, h4) = passes (tests "netplan.status") _ _ (plain Protocol.network_status) h3 in
        let (e5, h5) = passes (tests "netplan.wifi.status") _ _ wifi_status-Refuses h4 in
        let (e6, h6) = passes (tests "netplan.wifi.scan") _ _ wifi_scan_request-Refuses h5 in
        let (e7, h7) =
          passes (tests "netplan.config.validate") _ _
            (config_rpc_request-Refuses Protocol.validate_only) h6 in
        let (e8, h8) =
          passes (tests "netplan.config.plan") _ _ (config_rpc_request-Refuses Protocol.plan_only)
            h7 in
        let (e9, h9) =
          passes (tests "netplan.config.apply") _ _
            (config_rpc_request-Refuses Protocol.apply_config) h8 in
        let (e10, h10) = passes (tests "netplan.job.get") _ _ job_get_request-Refuses h9 in
        let (e11, h11) = passes (tests "netplan.job.list") _ _ job_list_request-Refuses h10 in
        (e0, (e1, (e2, (e3, (e4, (e5, (e6, (e7, (e8, (e9, (e10, (e11, tt))))))))))))

    command-missing :
        map_command serde method params ≡ err method_not_found
        → All (λ name. text_eq method name ≡ false) command_methods
          × (map_request serde method params ≡ err method_not_found)
    unfolding map_command
    command-missing h =
        let (e0, h0) = passes (tests "netplan.capability.get") _ _ capability_command-Refuses h in
        let (e1, h1) = passes (tests "netplan.adapter.get") _ _ adapter_command-Refuses h0 in
        let (e2, h2) = passes (tests "netplan.config.inspect") _ _ inspect_command-Refuses h1 in
        let (e3, h3) = passes (tests "netplan.config.describe") _ _ (bare config_describe) h2 in
        let (e4, h4) = passes (tests "netplan.config.example") _ _ example_command-Refuses h3 in
        let (e5, h5) = passes (tests "netplan.job.wait") _ _ wait_command-Refuses h4 in
        let (e6, h6) = passes (tests "netplan.rpc.discover") _ _ (bare discover) h5 in
        (
          (e0, (e1, (e2, (e3, (e4, (e5, (e6, tt))))))),
          bind-err (map_request serde method params) h6,
        )

    -- The gateway finds no method exactly for the names that are not in the list that it publishes.
    pub map_command-not_found_iff :
        map_command serde method params ≡ err method_not_found
        ↔ any (λ name. text_eq method name) rpc_methods ≡ false
    map_command-not_found_iff = (
      (λ h.
          let (c, missing) = command-missing h in
          let r = map_request-missing missing in
          any-unequal rpc_methods (
            r.0,
            (
              r.1.0,
              (
                r.1.1.0,
                (
                  c.0,
                  (
                    r.1.1.1.0,
                    (
                      c.1.0,
                      (
                        r.1.1.1.1.0,
                        (
                          r.1.1.1.1.1.0,
                          (
                            r.1.1.1.1.1.1.0,
                            (
                              r.1.1.1.1.1.1.1.0,
                              (
                                r.1.1.1.1.1.1.1.1.0,
                                (
                                  c.1.1.0,
                                  (
                                    r.1.1.1.1.1.1.1.1.1.0,
                                    (
                                      c.1.1.1.0,
                                      (
                                        c.1.1.1.1.0,
                                        (
                                          r.1.1.1.1.1.1.1.1.1.1.0,
                                          (
                                            r.1.1.1.1.1.1.1.1.1.1.1.0,
                                            (c.1.1.1.1.1.0, (c.1.1.1.1.1.1.0, tt)),
                                          ),
                                        ),
                                      ),
                                    ),
                                  ),
                                ),
                              ),
                            ),
                          ),
                        ),
                      ),
                    ),
                  ),
                ),
              ),
            ),
          )),
      (λ h. unlisted (any-false (λ name. text_eq method name) rpc_methods h)),
    )
