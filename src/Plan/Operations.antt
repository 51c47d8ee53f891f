-- ===== src/Plan/Operations.antt =====
-- `build_plan` of crates/netplan/src/plan.rs, one definition for each block of operations.
use mathlib.Core.Option
use netplan.Base.{
  ℕ, Bool, true, false, Option, none, some, List, [], ◌∷◌, ◌++◌, if◌then◌else◌, Text, codes,
}
use netplan.Config.{
  NetplanConfig, InterfaceSelector, IdentityConfig, AdapterConfig, Ipv4Config, WifiProfile,
  WifiAction, scan, connect, disconnect, SmbAccount, SmbAccountKind, local, credential, SmbShare,
  SmbMapping, FirewallConfig, ServiceConfig, DriverOperation, install, restart_adapter, HookConfig,
  HookStage, before_apply, after_apply, after_rollback,
}
use netplan.Config.Checks.{wifi_profile_name}
use netplan.Plan.{
  OperationRisk, read_only, low, connectivity, destructive, Summary, set_identity, set_enabled,
  set_mac, set_ipv4, install_profile, scan_networks, disconnect_wifi, restart_network_adapter,
  connect_profile, set_service, ensure_account, share_path, map_share, set_firewall, install_driver,
  execute_hook, Operation, Wording, decimal, indexed, when_some,
}

abbrev pub stage_name : HookStage → Text
stage_name before_apply = codes "before_apply"
stage_name after_apply = codes "after_apply"
stage_name after_rollback = codes "after_rollback"

abbrev pub stage_eq : HookStage → HookStage → Bool
stage_eq before_apply before_apply = true
stage_eq after_apply after_apply = true
stage_eq after_rollback after_rollback = true
stage_eq _ _ = false

-- `parts.join(", ")`
abbrev pub join_comma : List Text → Text
join_comma [] = []
join_comma (part ∷ []) = part
join_comma (part ∷ next ∷ parts) = part ++ (codes ", " ++ join_comma (next ∷ parts))

abbrev pub part {ℓ} : {A : Type ℓ} → (A → Text) → Option A → List Text
part f none = []
part f (some a) = f a ∷ []

-- The filter on local accounts, on what one account adds.
abbrev pub account_if : SmbAccountKind → Operation → List Operation
account_if local operation = operation ∷ []
account_if credential operation = []

module _ (wording : Wording) where
  unfoldable pub selector_summary : InterfaceSelector → Text
  selector_summary selector = join_comma (
      part (λ index. codes "if_index=" ++ decimal index) selector.if_index
      ++ (part (λ name. codes "name=" ++ wording.debug name) selector.name
          ++ (part (λ guid. codes "guid=" ++ guid) selector.guid
              ++ (part (λ mac. codes "mac=" ++ mac) selector.mac_address
                  ++ part (λ value. codes "description~=" ++ wording.debug value)
                      selector.description_contains))))

  unfoldable pub identity_field : Text → Text → Operation
  identity_field field value = record {
    id = codes "identity." ++ field;
    capability = codes "identity." ++ (field ++ codes ".apply");
    summary = wording.summary (set_identity field value);
    risk = connectivity;
    target = none;
  }

  unfoldable pub identity_operations : IdentityConfig → List Operation
  unfolding identity_field
  identity_operations identity =
      when_some (λ value. identity_field (codes "computer_name") value ∷ []) identity.computer_name
      ++ (when_some (λ value. identity_field (codes "workgroup") value ∷ []) identity.workgroup
          ++ when_some (λ value. identity_field (codes "dns_suffix") value ∷ [])
              identity.dns_suffix)

  unfoldable pub adapter_state : ℕ → Bool → Text → Operation
  adapter_state index enabled target = record {
    id = codes "adapter." ++ (decimal index ++ codes ".enabled");
    capability = codes "adapter.state.apply";
    summary = wording.summary (set_enabled enabled);
    risk = connectivity;
    target = some target;
  }

  -- `if adapter.enabled == Some(wanted) { push_adapter_state(…) }`
  abbrev pub state_if : ℕ → Bool → Option Bool → Text → List Operation
  state_if index true (some true) target = adapter_state index true target ∷ []
  state_if index false (some false) target = adapter_state index false target ∷ []
  state_if index wanted enabled target = []

  unfoldable pub adapter_mac : ℕ → Text → Text → Operation
  adapter_mac index target mac = record {
    id = codes "adapter." ++ (decimal index ++ codes ".mac");
    capability = codes "adapter.mac.apply";
    summary = wording.summary (set_mac mac);
    risk = connectivity;
    target = some target;
  }

  unfoldable pub adapter_ipv4 : ℕ → Text → Ipv4Config → Operation
  adapter_ipv4 index target ipv4 = record {
    id = codes "adapter." ++ (decimal index ++ codes ".ipv4");
    capability = codes "adapter.ipv4.apply";
    summary = wording.summary (set_ipv4 ipv4);
    risk = connectivity;
    target = some target;
  }

  unfoldable pub adapter_operations : ℕ → AdapterConfig → List Operation
  unfolding adapter_state adapter_mac adapter_ipv4
  adapter_operations index adapter =
      let target = selector_summary adapter.selector in
      state_if index true adapter.enabled target
      ++ (when_some (λ mac. adapter_mac index target mac ∷ []) adapter.mac_address
          ++ (when_some (λ ipv4. adapter_ipv4 index target ipv4 ∷ []) adapter.ipv4
              ++ state_if index false adapter.enabled target))

  unfoldable pub wifi_operations : ℕ → WifiProfile → List Operation
  wifi_operations index wifi =
      record {
        id = codes "wifi.profile." ++ decimal index;
        capability = codes "wifi.profile.apply";
        summary = wording.summary (install_profile (wifi_profile_name wifi) wifi.ssid);
        risk = connectivity;
        target = Option.map selector_summary wifi.selector;
      }
      ∷ []

  abbrev pub action_operation :
      ℕ → Text → Text → Summary → OperationRisk → Option InterfaceSelector → Operation
  action_operation index name capability summary risk selector = record {
    id = codes "wifi.action." ++ (decimal index ++ (b'.' ∷ name));
    capability = capability;
    summary = wording.summary summary;
    risk = risk;
    target = Option.map selector_summary selector;
  }

  unfoldable pub wifi_action_operations : ℕ → WifiAction → List Operation
  wifi_action_operations index (scan selector) =
      action_operation index (codes "scan") (codes "wifi.scan") scan_networks read_only selector
      ∷ []
  wifi_action_operations index (connect selector profile) =
      action_operation index (codes "connect") (codes "wifi.connect") (connect_profile profile)
        connectivity selector
      ∷ []
  wifi_action_operations index (disconnect selector) =
      action_operation index (codes "disconnect") (codes "wifi.disconnect") disconnect_wifi
        connectivity selector
      ∷ []

  unfoldable pub service_operations : ℕ → ServiceConfig → List Operation
  service_operations index service =
      record {
        id = codes "service." ++ (decimal index ++ codes ".state");
        capability = codes "service.apply";
        summary = wording.summary (set_service service.state service.name);
        risk = low;
        target = some service.name;
      }
      ∷ []

  unfoldable pub account_operations : ℕ → SmbAccount → List Operation
  account_operations index account = account_if account.kind (record {
    id = codes "smb.account." ++ decimal index;
    capability = codes "smb.account.apply";
    summary = wording.summary (ensure_account account.id account.username);
    risk = low;
    target = some account.id;
  })

  unfoldable pub share_operations : ℕ → SmbShare → List Operation
  share_operations index share =
      record {
        id = codes "smb.share." ++ decimal index;
        capability = codes "smb.share.apply";
        summary = wording.summary (share_path share.path share.name);
        risk = low;
        target = some share.name;
      }
      ∷ []

  unfoldable pub mapping_operations : ℕ → SmbMapping → List Operation
  mapping_operations index mapping =
      record {
        id = codes "smb.mapping." ++ decimal index;
        capability = codes "smb.mapping.apply";
        summary = wording.summary (map_share mapping.remote);
        risk = low;
        target = mapping.drive;
      }
      ∷ []

  unfoldable pub firewall_operations : FirewallConfig → List Operation
  firewall_operations firewall =
      record {
        id = codes "firewall.enabled";
        capability = codes "firewall.apply";
        summary = wording.summary (set_firewall firewall.enabled);
        risk = low;
        target = none;
      }
      ∷ []

  unfoldable pub driver_operations : ℕ → DriverOperation → List Operation
  driver_operations index (install inf_path hardware_id force restart) =
      record {
        id = codes "driver." ++ (decimal index ++ codes ".install");
        capability = if force then codes "driver.force_install" else codes "driver.install";
        summary = wording.summary (install_driver inf_path force restart);
        risk = destructive;
        target = hardware_id;
      }
      ∷ []
  driver_operations index (restart_adapter selector) =
      record {
        id = codes "driver." ++ (decimal index ++ codes ".restart_adapter");
        capability = codes "adapter.restart";
        summary = wording.summary restart_network_adapter;
        risk = destructive;
        target = some (selector_summary selector);
      }
      ∷ []

  unfoldable pub hook_operations : HookStage → ℕ → HookConfig → List Operation
  hook_operations stage index hook =
      if stage_eq hook.stage stage
      then record {
        id = codes "hook." ++ (decimal index ++ (b'.' ∷ stage_name stage));
        capability = codes "hook.execute";
        summary = wording.summary (execute_hook hook.program stage);
        risk = destructive;
        target = none;
      }
        ∷ []
      else []

  unfoldable pub push_hooks : NetplanConfig → HookStage → List Operation
  push_hooks config stage = indexed (hook_operations stage) 0 config.hooks

  unfoldable pub build_plan : NetplanConfig → List Operation
  build_plan config =
      push_hooks config before_apply
      ++ (when_some identity_operations config.identity
          ++ (indexed adapter_operations 0 config.adapters
              ++ (indexed wifi_operations 0 config.wifi
                  ++ (indexed wifi_action_operations 0 config.wifi_actions
                      ++ (indexed service_operations 0 config.services
                          ++ (indexed account_operations 0 config.smb.accounts
                              ++ (indexed share_operations 0 config.smb.shares
                                  ++ (indexed mapping_operations 0 config.smb.mappings
                                      ++ (when_some firewall_operations config.firewall
                                          ++ (indexed driver_operations 0 config.drivers
                                              ++ (push_hooks config after_apply
                                                  ++ push_hooks config after_rollback)))))))))))
