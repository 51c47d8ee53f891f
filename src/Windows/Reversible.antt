-- ===== src/Windows/Reversible.antt =====
-- crates/netpland/src/platform/windows/apply.rs: `apply_reversible` and `apply_wifi`, which change the
-- machine and record how each change is undone.
use netplan.Base.{
  ℕ, Bool, true, false, not, ◌&&◌, ◌||◌, Option, none, some, List, [], ◌∷◌, ◌++◌, Text, codes,
  Unicode, is_nil, eq_ignore_ascii_case, if◌then◌else◌, ok,
}
use netplan.Config.{
  NetplanConfig, IdentityConfig, Ipv4Config, AdapterConfig, WifiProfile, WifiAction, scan,
  ServiceConfig, ServiceState, running, stopped, SmbAccount, SmbShare, SmbMapping, FirewallConfig,
}
use netplan.Config
use netplan.Config.Protect.{canonical_mac}
use netplan.Config.Validate.{action_selector}
use netplan.Platform.{PlatformWording, platform_error, invalid_config}
use netplan.Platform.Resolve.{
  AdapterSnapshot, AdapterInventory, Interface, resolve_adapter, resolve_wifi_interface,
}
use netplan.Windows.{
  Call, System, JoinStatus, workgroup_joined, other_status, dns_hostname, dns_domain,
}
use netplan.Windows.Calls.{pure, fail, ◌>>=◌, ◌>>◌, lift_result, when, when_some, each, or_fail}
use netplan.Windows.Network.{set_adapter_enabled, restart_adapter, inventory_or}
use netplan.Windows.Ipv4.{apply_ipv4}
use netplan.Windows.Restore.{same, capture, record_targets}
use netplan.Windows.Services.{
  all_equal, service_is_running, set_service_running, capture_firewall, set_firewall_profile,
  find_adapter_class_key,
}
use netplan.Windows.Wifi.{profile, connection, profile_name, set_profile, connect, disconnect}
use netplan.Windows.Shares.{apply_account, apply_share, apply_mapping}
use netplan.Windows.Rollback.{
  RollbackAction, computer_name, workgroup, dns_suffix, adapter_state, adapter_ipv4, adapter_mac,
  firewall, service, wifi, smb, network_address,
}

-- What `apply_reversible` changes: the vector `rollback`, and the machine.
pub record Journal (S : Type 0) : Type 0 where
  pub rollback : List RollbackAction
  pub machine : S

abbrev pub lift : {S A : Type 0} → Call S A → Call (Journal S) A
lift m journal =
    let (result, machine) = m journal.machine in
    (result, record { rollback = journal.rollback; machine = machine })

abbrev pub push : {S : Type 0} → RollbackAction → Call (Journal S) (Unit {0})
push action journal =
    (ok tt, record { rollback = journal.rollback ++ action ∷ []; machine = journal.machine })

abbrev pub without_last : List RollbackAction → List RollbackAction
without_last [] = []
without_last (a ∷ []) = []
without_last (a ∷ b ∷ rest) = a ∷ without_last (b ∷ rest)

abbrev pub pop : {S : Type 0} → Call (Journal S) (Unit {0})
pop journal =
    (ok tt, record { rollback = without_last journal.rollback; machine = journal.machine })

-- `rollback.push(…)` of what a call made, where it made something
abbrev pub push_some : {S : Type 0} → Option RollbackAction → Call (Journal S) (Unit {0})
push_some = when_some push

abbrev is_enabled : Option Bool → Bool
is_enabled none = false
is_enabled (some enabled) = enabled

abbrev is_disabled : Option Bool → Bool
is_disabled none = false
is_disabled (some enabled) = not enabled

abbrev pub should_run : ServiceState → Bool
should_run running = true
should_run stopped = false

abbrev pub map_option : {A B : Type 0} → (A → B) → Option A → Option B
map_option f none = none
map_option f (some a) = some (f a)

module _ {S : Type 0} (unicode : Unicode) (say : PlatformWording) (system : System S) where
  abbrev pub joined_workgroup : Text × JoinStatus → Call S Text
  joined_workgroup (name, workgroup_joined) = pure name
  joined_workgroup (name, other_status) = fail (
      platform_error invalid_config (
        codes
          "refusing to change a domain-joined machine to a workgroup without rollback credentials"))

  unfoldable pub get_workgroup : Call S Text
  get_workgroup = system.net_get_join_information >>= λ joined. joined_workgroup joined

  -- A name of the machine: read, and set where it differs by more than the case of letters.
  abbrev pub change_name :
      Call S Text
      → (Text → Call S (Unit {0}))
      → (Text → RollbackAction)
      → Text
      → Call (Journal S) (Unit {0})
  change_name get set undo name = do
    previous ← lift get
    if eq_ignore_ascii_case previous name then pure tt else lift (set name) >> push (undo previous)

  unfoldable pub apply_identity : IdentityConfig → Call (Journal S) (Unit {0})
  apply_identity identity = do
    when_some
        (change_name (system.get_computer_name dns_hostname) (system.set_computer_name dns_hostname)
          computer_name)
        identity.computer_name
    when_some (change_name get_workgroup system.set_workgroup workgroup) identity.workgroup
    when_some
        (change_name (system.get_computer_name dns_domain) (system.set_computer_name dns_domain)
          dns_suffix)
        identity.dns_suffix

  abbrev pub switch_adapter : AdapterSnapshot → Bool → Call (Journal S) (Unit {0})
  switch_adapter snapshot enabled =
      lift (set_adapter_enabled system snapshot.info.name enabled)
      >> push (adapter_state snapshot.info.name (not enabled))

  abbrev pub change_mac : AdapterSnapshot → Bool → Text → Call (Journal S) (Unit {0})
  change_mac snapshot enabled_during_apply mac = do
    guid ←
        or_fail
          (platform_error invalid_config (codes "selected adapter has no stable Windows GUID"))
          snapshot.info.guid
    key ← lift (find_adapter_class_key system guid)
    previous ← lift (system.read_registry_text key network_address)
    lift (system.set_registry_string key network_address (canonical_mac unicode mac))
    push (adapter_mac key previous snapshot.info.name enabled_during_apply)
    when enabled_during_apply (lift (restart_adapter system snapshot.info.name))

  abbrev pub change_ipv4 : AdapterSnapshot → Ipv4Config → Call (Journal S) (Unit {0})
  change_ipv4 snapshot ipv4 = do
    captured ← lift (capture system snapshot)
    let restore = record_targets captured ipv4
    push (adapter_ipv4 restore)
    changed ← lift (apply_ipv4 system restore ipv4)
    when (not changed) pop

  unfoldable pub apply_adapter : AdapterInventory → AdapterConfig → Call (Journal S) (Unit {0})
  apply_adapter inventory adapter = do
    snapshot ← lift_result (resolve_adapter unicode say inventory adapter.selector)
    when (is_enabled adapter.enabled && not snapshot.admin_enabled) (switch_adapter snapshot true)
    when_some (change_mac snapshot (is_enabled adapter.enabled || snapshot.admin_enabled))
        adapter.mac_address
    when_some (change_ipv4 snapshot) adapter.ipv4
    when (is_disabled adapter.enabled && snapshot.admin_enabled) (switch_adapter snapshot false)

  abbrev pub apply_adapters : List AdapterConfig → Call (Journal S) (Unit {0})
  apply_adapters [] = pure tt
  apply_adapters (adapter ∷ adapters) = do
    inventory ← lift (inventory_or system (codes "adapter apply inventory"))
    each (apply_adapter inventory) (adapter ∷ adapters)

  abbrev pub install_profile :
      AdapterInventory → List Interface → WifiProfile → Call (Journal S) (Unit {0})
  install_profile inventory interfaces declared = do
    interface ←
        lift_result (resolve_wifi_interface unicode say inventory interfaces declared.selector)
    previous_xml ← lift (system.get_profile interface.guid (profile_name declared))
    push (wifi (profile interface.guid (profile_name declared) previous_xml))
    lift (set_profile system interface.guid declared)

  -- `rollback.push(Connection { … })`, of the profile in use
  abbrev pub push_connection : ℕ → Call (Journal S) (Unit {0})
  push_connection interface = lift (system.current_profile interface) >>= λ previous.
      push (wifi (connection interface previous))

  abbrev pub act : ℕ → WifiAction → Call (Journal S) (Unit {0})
  act interface (scan selector) = lift (system.scan interface)
  act interface (Config.connect selector wanted) =
      push_connection interface >> lift (connect system interface wanted)
  act interface (Config.disconnect selector) =
      push_connection interface >> lift (disconnect system interface)

  abbrev pub apply_action :
      AdapterInventory → List Interface → WifiAction → Call (Journal S) (Unit {0})
  apply_action inventory interfaces action = do
    interface ←
        lift_result
          (resolve_wifi_interface unicode say inventory interfaces (action_selector action))
    act interface.guid action

  unfoldable pub apply_wifi : NetplanConfig → Call (Journal S) (Unit {0})
  apply_wifi config = if is_nil config.wifi && is_nil config.wifi_actions then pure tt else do
    inventory ← lift (inventory_or system (codes "Wi-Fi apply inventory"))
    lift system.open_client
    interfaces ← lift system.interfaces
    each (install_profile inventory interfaces) config.wifi
    each (apply_action inventory interfaces) config.wifi_actions

  abbrev pub change_service : ServiceConfig → Bool → Call (Journal S) (Unit {0})
  change_service declared was_running = when (not (same was_running (should_run declared.state))) (
      push (service declared.name was_running)
      >> lift (set_service_running system declared.name (should_run declared.state)))

  unfoldable pub apply_service : ServiceConfig → Call (Journal S) (Unit {0})
  apply_service declared = lift (service_is_running system declared.name) >>= λ was_running.
      change_service declared was_running

  unfoldable pub apply_smb : NetplanConfig → Call (Journal S) (Unit {0})
  apply_smb config = do
    each
        (λ (account : SmbAccount).
          lift (apply_account system account) >>= λ made. push_some (map_option smb made))
        config.smb.accounts
    each (λ (share : SmbShare). lift (apply_share system config share) >>= λ made. push (smb made))
        config.smb.shares
    each
        (λ (mapping : SmbMapping).
          lift (apply_mapping system config mapping) >>= λ made. push_some (map_option smb made))
        config.smb.mappings

  unfoldable pub apply_firewall : FirewallConfig → Call (Journal S) (Unit {0})
  apply_firewall declared = do
    previous ← lift (capture_firewall system)
    when (not (all_equal previous declared.enabled)) (
        push (firewall previous)
        >> lift (set_firewall_profile system (codes "allprofiles") declared.enabled))

  unfoldable pub apply_reversible : NetplanConfig → Call (Journal S) (Unit {0})
  apply_reversible config = do
    when_some apply_identity config.identity
    apply_adapters config.adapters
    apply_wifi config
    each apply_service config.services
    apply_smb config
    when_some apply_firewall config.firewall
