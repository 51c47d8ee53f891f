-- ===== src/Daemon/Changes.antt =====
-- Which requests change the daemon: crates/netpland/src/main.rs, `dispatch`.
use netplan.Base.{◌≡◌, refl, inl, inr, ◌⊎◌, Bool, true, false, List, ℕ, ok, Result-cases}
use netplan.Config.{NetplanConfig, ConfigFormat}
use netplan.Config.Parse.{parse}
use netplan.Protocol
use netplan.Protocol.{Request, ConfigAction, apply_config, validate_only, plan_only}
use netplan.Daemon.{Daemon, Platform, Context}
use netplan.Daemon.Dispatch.{dispatch, config_action, config_request, dry_run_apply, apply_live}

module _ (context : Context) (platform : Platform) (daemon : Daemon) where
  -- The request asks to apply a document that is a valid configuration, `dry_run` or not.
  abbrev pub Applies : Request → Bool → NetplanConfig → Type 0
  Applies request dry_run config =
      (format : ConfigFormat) × (document : List ℕ) × (request
        ≡ Protocol.config apply_config format document dry_run)
      × (parse context.decoders context.unicode document format ≡ ok config)

  abbrev pub Branch : Request → Type 0
  Branch request =
      ((dispatch context platform request daemon).daemon ≡ daemon)
      ⊎ ((config : NetplanConfig) × Applies request true config
          × (dispatch context platform request daemon ≡ dry_run_apply context config daemon))
      ⊎ ((config : NetplanConfig) × Applies request false config
          × (platform.preflight config ≡ ok tt)
          × (dispatch context platform request daemon ≡ apply_live context config daemon))

  valid-Branch :
      (action : ConfigAction) (format : ConfigFormat) (document : List ℕ) (dry_run : Bool)
      (config : NetplanConfig)
      → parse context.decoders context.unicode document format ≡ ok config
      → Branch (Protocol.config action format document dry_run)
  unfolding dispatch config_action
  valid-Branch validate_only format document dry_run config e = inl (rw e refl)
  valid-Branch plan_only format document dry_run config e = inl (rw e refl)
  valid-Branch apply_config format document true config e =
      inr (inl (config, (format, document, refl, e), rw e refl))
  valid-Branch apply_config format document false config e =
      elim (Result-cases (platform.preflight config)) [
        | inl (u, p) ↦
            inr (inr (config, (format, document, refl, e), p, rw (e, config_request, p) refl))
        | inr (error, p) ↦ inl (rw (e, config_request, p) refl)
      ]

  -- Which of its branches `dispatch` has taken
  pub dispatch-Branch : (request : Request) → Branch request
  unfolding dispatch config_action
  dispatch-Branch Protocol.ping = inl refl
  dispatch-Branch Protocol.daemon_status = inl refl
  dispatch-Branch Protocol.capabilities = inl refl
  dispatch-Branch Protocol.list_adapters = inl refl
  dispatch-Branch (Protocol.config action format document dry_run) =
      elim (Result-cases (parse context.decoders context.unicode document format)) [
        | inl (config, e) ↦ valid-Branch action format document dry_run config e
        | inr (error, e) ↦ inl (rw e refl)
      ]
  dispatch-Branch (Protocol.job_status job_id) = inl refl
  dispatch-Branch (Protocol.list_jobs state limit) = inl refl
  dispatch-Branch Protocol.network_status = inl refl
  dispatch-Branch (Protocol.wifi_status if_index) = inl refl
  dispatch-Branch (Protocol.wifi_scan if_index refresh timeout_ms) = inl refl
  dispatch-Branch Protocol.shutdown = inl refl
