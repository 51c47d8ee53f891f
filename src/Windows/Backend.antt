-- ===== src/Windows/Backend.antt =====
-- crates/netpland/src/platform/windows.rs: what the backend offers of itself, and its preflight.
use netplan.Base.{
  ℕ, ◌==◌, Bool, true, false, ◌&&◌, if◌then◌else◌, Option, none, some, List, [], ◌∷◌, ◌++◌, map,
  find, is_nil, Text, codes, String, Unicode, Result, ok, err,
}
use netplan.Model.{Capability, AdapterInfo, available, unavailable}
use netplan.Config.{NetplanConfig}
use netplan.Plan.{Wording, decimal}
use netplan.Platform.{PlatformResult, PlatformWording, platform_error, not_found}
use netplan.Platform.Preflight.{require_plan_capabilities}
use netplan.Platform.Resolve.{
  AdapterSnapshot, AdapterInventory, Interface, validate_runtime_protection,
}
use netplan.Windows.{Call, System}
use netplan.Windows.Calls.{pure, ◌>>=◌, ◌>>◌, lift_result}
use netplan.Windows.Network.{inventory_or}

-- What the backend finds in the image: its tools, and the libraries that its probes load, with the
-- reason where one is missing.
pub record Probes : Type 0 where
  pub netsh : Bool
  pub pnputil : Bool
  pub force_driver : Bool
  pub wifi : Result Text (Unit {0})
  pub accounts : Result Text (Unit {0})
  pub shares : Result Text (Unit {0})
  pub mappings : Result Text (Unit {0})

-- `capability(name, CapabilityState::Available, None)`
abbrev present : String → Capability
present name = record { name = codes name; state = available; reason = none }

abbrev when_found : String → Bool → String → Capability
when_found name true reason = present name
when_found name false reason = record {
  name = codes name;
  state = unavailable;
  reason = some (codes reason);
}

abbrev when_probed : Result Text (Unit {0}) → String → Capability
when_probed (ok found) name = present name
when_probed (err reason) name = record {
  name = codes name;
  state = unavailable;
  reason = some reason;
}

unfoldable pub capabilities : Probes → List Capability
capabilities probes =
    present "config.validate"
    ∷ present "config.plan"
    ∷ present "config.apply"
    ∷ present "adapter.inventory"
    ∷ when_found "adapter.ipv4.apply" probes.netsh "netsh.exe is unavailable in this image"
    ∷ when_found "adapter.state.apply" probes.netsh "netsh.exe is unavailable in this image"
    ∷ when_found "adapter.mac.apply" probes.netsh "netsh.exe is unavailable for adapter restart"
    ∷ when_found "adapter.restart" probes.netsh "netsh.exe is unavailable in this image"
    ∷ when_found "firewall.apply" probes.netsh "netsh.exe is unavailable in this image"
    ∷ present "identity.computer_name.apply"
    ∷ present "identity.workgroup.apply"
    ∷ present "identity.dns_suffix.apply"
    ∷ present "service.apply"
    ∷ present "hook.execute"
    ∷ when_found "driver.install" probes.pnputil "pnputil.exe is unavailable in this image"
    ∷ when_found "driver.force_install" probes.force_driver
        "newdev.dll force-install backend is unavailable in this image"
    ∷ (map (when_probed probes.wifi) (
          "wifi.status" ∷ "wifi.profile.apply" ∷ "wifi.scan" ∷ "wifi.connect" ∷ "wifi.disconnect"
          ∷ [])
        ++ when_probed probes.accounts "smb.account.apply"
          ∷ when_probed probes.shares "smb.share.apply"
          ∷ when_probed probes.mappings "smb.mapping.apply"
          ∷ [])

-- `Option<u32>` as an index, or all the interfaces
unfoldable pub select_wifi_interfaces : List Interface → Option ℕ → PlatformResult (List Interface)
select_wifi_interfaces interfaces (some if_index) =
    elim (find (λ (interface : Interface). interface.if_index == if_index) interfaces) [
      | some interface ↦ ok (interface ∷ [])
      | none ↦ err (
          platform_error not_found
            (codes "no enabled Native Wi-Fi interface exists with if_index=" ++ decimal if_index))
    ]
select_wifi_interfaces interfaces none =
    if is_nil interfaces
    then err (platform_error not_found (codes "no enabled Native Wi-Fi interface is available"))
    else ok interfaces

abbrev pub info_of : AdapterSnapshot → AdapterInfo
info_of adapter = adapter.info

module _ {S : Type 0} (system : System S) where
  abbrev infos : Result Text AdapterInventory × S → Result Text (List AdapterInfo) × S
  infos (ok inventory, s) = (ok (map info_of inventory.adapters), s)
  infos (err error, s) = (err error, s)

  unfoldable pub adapters : S → Result Text (List AdapterInfo) × S
  adapters s = infos (system.enumerate_inventory s)

  abbrev pub interfaces_for : NetplanConfig → Call S (List Interface)
  interfaces_for config =
      if is_nil config.wifi && is_nil config.wifi_actions
      then pure []
      else system.open_client >> system.interfaces

  unfoldable pub preflight :
      Unicode → PlatformWording → Wording → Probes → NetplanConfig → Call S (Unit {0})
  preflight unicode say wording probes config = do
    lift_result (require_plan_capabilities say wording (capabilities probes) config)
    inventory ← inventory_or system (codes "adapter preflight inventory")
    interfaces ← interfaces_for config
    lift_result (validate_runtime_protection unicode say config inventory interfaces)
