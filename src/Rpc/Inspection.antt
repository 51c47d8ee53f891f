-- ===== src/Rpc/Inspection.antt =====
-- crates/netplan-cli/src/jsonrpc.rs with crates/netpland/src/main.rs: an inspection of a
-- configuration, which asks the daemon twice.
use netplan.Base.{ℕ, ◌≡◌, refl, true, false, none, List, [], ◌∷◌, Unicode, codes, Result, ok, err}
use netplan.Error.{Error}
use netplan.Config.{ConfigFormat, NetplanConfig}
use netplan.Config.Parse.{parse}
use netplan.Plan.Operations.{build_plan}
use netplan.Protocol.{Request}
use netplan.Protocol
use netplan.Daemon.{Daemon, Platform, Context}
use netplan.Daemon.Dispatch.{dispatch, config_action}
use netplan.Rpc.{Value, bool, array, nil, object, members, Serde}
use netplan.Rpc.Answers.{each_of, strings, required_capabilities}
use netplan.Rpc.Gateway.{Host, done, inspect_config}

-- The calls of the gateway go to this daemon.
abbrev pub Reaches : Context → Platform → Host Daemon → Type 0
Reaches context platform host =
    (request : Request) (daemon : Daemon)
    → host.call_daemon request daemon ≡ (
      ok (dispatch context platform request daemon).response,
      (dispatch context platform request daemon).daemon,
    )

module _ (serde : Serde) (context : Context) where
  -- What an inspection says of a document: that it is valid, with the operations of its plan and the
  -- capabilities that they need, or what its one issue is.
  abbrev pub inspected : Result Error NetplanConfig → Value
  inspected (ok config) = object (
      members (
        (codes "valid", bool true)
        ∷ (codes "issues", array nil)
        ∷ (codes "operations", each_of serde.operation (build_plan context.wording config))
        ∷ (
          codes "required_capabilities",
          strings (required_capabilities (build_plan context.wording config)),
        )
        ∷ []))
  inspected (err error) = object (
      members (
        (codes "valid", bool false)
        ∷ (
          codes "issues",
          each_of serde.issue (record { path = none; message = context.show_error error } ∷ []),
        )
        ∷ (codes "operations", array nil)
        ∷ (codes "required_capabilities", array nil)
        ∷ []))

  -- Where the calls of the gateway go to a daemon, `inspect_config` ends with what `parse` and
  -- `build_plan` say of the document, and leaves the daemon as it was.
  pub inspect_config-inspected :
      (unicode : Unicode) (platform : Platform) (host : Host Daemon)
      → Reaches context platform host
      → (document : List ℕ) (format : ConfigFormat) (daemon : Daemon)
      → inspect_config serde unicode host document format daemon
        ≡ (done (inspected (parse context.decoders context.unicode document format)), daemon)
  unfolding inspect_config dispatch config_action
  inspect_config-inspected unicode platform host reaches document format daemon =
      go (parse context.decoders context.unicode document format) refl
    where
      go :
          (parsed : Result Error NetplanConfig)
          → parse context.decoders context.unicode document format ≡ parsed
          → inspect_config serde unicode host document format daemon
            ≡ (done (inspected parsed), daemon)
      go (ok config) e =
          rw (reaches (Protocol.config Protocol.validate_only format document true) daemon) (
            rw e (
              rw (reaches (Protocol.config Protocol.plan_only format document true) daemon)
                (rw e refl)))
      go (err error) e =
          rw (reaches (Protocol.config Protocol.validate_only format document true) daemon)
            (rw e refl)
