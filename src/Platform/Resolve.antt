-- ===== src/Platform/Resolve.antt =====
-- crates/netpland/src/platform/windows.rs: selectors resolved against the adapters of the machine,
-- and the check that keeps a live configuration off the protected ones.
use netplan.Base.{
  ℕ, ◌==◌, Bool, ◌&&◌, ◌||◌, Option, none, some, List, [], ◌∷◌, ◌++◌, map, any, keep, find, length,
  ok, err, ◌>>=◌, ◌>>◌, collect, fail_if, Text, Unicode, text_eq, starts_with, eq_ignore_ascii_case,
}
use netplan.Model.{AdapterInfo, IpAddressInfo}
use netplan.Config.{NetplanConfig, InterfaceSelector, AdapterConfig, WifiProfile, IpAddr}
use netplan.Config.Checks.{is_none_or}
use netplan.Config.Smb.{is_some_and}
use netplan.Config.Protect.{guid_eq, canonical_mac}
use netplan.Config.Validate.{action_selector, driver_selector, filter_map}
use netplan.Platform.{
  PlatformResult, PlatformWording, platform_error, invalid_config, not_found, several_entries,
  protected_target, not_native_wifi, no_wifi_interface, several_wifi_interfaces, no_adapter,
  ambiguous_selector,
}

pub record AdapterSnapshot : Type 0 where
  pub info : AdapterInfo
  pub admin_enabled : Bool
  pub dhcp_enabled : Bool
  pub manual_ipv4 : List IpAddressInfo
  pub gateways : List ℕ
  pub dns : List IpAddr
  pub wins : List ℕ

pub record AdapterInventory : Type 0 where
  pub adapters : List AdapterSnapshot

-- `wifi::Interface`, with its GUID and its state as numbers.
pub record Interface : Type 0 where
  pub guid : ℕ
  pub if_index : ℕ
  pub description : Text
  pub state : ℕ

-- `text.contains(part)`
abbrev pub contains_text : Text → Text → Bool
contains_text part [] = starts_with part []
contains_text part (c ∷ s) = starts_with part (c ∷ s) || contains_text part s

module _ (unicode : Unicode) where
  -- `canonical_mac` of windows.rs is that of config.rs, with its two tests in the other order.
  unfoldable pub selector_matches : InterfaceSelector → AdapterInfo → Bool
  selector_matches selector adapter =
      is_none_or (λ value. value == adapter.if_index) selector.if_index
      && is_none_or (λ value. eq_ignore_ascii_case value adapter.name) selector.name
      && is_none_or (λ value. is_some_and (λ candidate. guid_eq value candidate) adapter.guid)
          selector.guid
      && is_none_or
          (λ value.
            is_some_and
              (λ candidate. text_eq (canonical_mac unicode value) (canonical_mac unicode candidate))
              adapter.mac_address)
          selector.mac_address
      && is_none_or
          (λ value.
            is_some_and
              (λ description.
                contains_text (unicode.to_lowercase value) (unicode.to_lowercase description))
              adapter.description)
          selector.description_contains

module _ (unicode : Unicode) (say : PlatformWording) where
  abbrev pub the_only : InterfaceSelector → List AdapterSnapshot → PlatformResult AdapterSnapshot
  the_only selector (adapter ∷ []) = ok adapter
  the_only selector [] = err (platform_error not_found (say (no_adapter selector)))
  the_only selector (a ∷ b ∷ rest) =
      err
        (platform_error invalid_config (say (ambiguous_selector (length (a ∷ b ∷ rest)) selector)))

  unfoldable pub resolve_adapter :
      AdapterInventory → InterfaceSelector → PlatformResult AdapterSnapshot
  resolve_adapter inventory selector = the_only selector (
      keep (λ (adapter : AdapterSnapshot). selector_matches unicode selector adapter.info)
        inventory.adapters)

  abbrev pub interface_or : ℕ → Option Interface → PlatformResult Interface
  interface_or index none = err (platform_error invalid_config (say (not_native_wifi index)))
  interface_or index (some interface) = ok interface

  abbrev pub the_only_interface : List Interface → PlatformResult Interface
  the_only_interface [] = err (platform_error not_found (say no_wifi_interface))
  the_only_interface (first ∷ []) = ok first
  the_only_interface (first ∷ second ∷ rest) =
      err (platform_error invalid_config (say several_wifi_interfaces))

  unfoldable pub resolve_wifi_interface :
      AdapterInventory → List Interface → Option InterfaceSelector → PlatformResult Interface
  resolve_wifi_interface inventory interfaces (some selector) = do
    adapter ← resolve_adapter inventory selector
    interface_or adapter.info.if_index
        (find (λ (interface : Interface). interface.if_index == adapter.info.if_index) interfaces)
  resolve_wifi_interface inventory interfaces none = the_only_interface interfaces

  -- The loop over `config.adapters`, `targets` being what it has pushed.
  unfoldable pub adapter_targets :
      AdapterInventory → List ℕ → List AdapterConfig → PlatformResult (List ℕ)
  adapter_targets inventory targets [] = ok targets
  adapter_targets inventory targets (adapter ∷ adapters) = do
    snapshot ← resolve_adapter inventory adapter.selector
    fail_if (any (λ t. t == snapshot.info.if_index) targets)
        (platform_error invalid_config (say (several_entries snapshot.info.if_index)))
    adapter_targets inventory (targets ++ snapshot.info.if_index ∷ []) adapters

  -- The loops over `config.wifi` and `config.wifi_actions`, by the selectors of their elements.
  unfoldable pub wifi_targets :
      AdapterInventory
      → List Interface
      → List ℕ
      → List (Option InterfaceSelector)
      → PlatformResult (List ℕ)
  wifi_targets inventory interfaces targets [] = ok targets
  wifi_targets inventory interfaces targets (selector ∷ selectors) = do
    interface ← resolve_wifi_interface inventory interfaces selector
    wifi_targets inventory interfaces (targets ++ interface.if_index ∷ []) selectors

  -- The loop over the adapter restarts of `config.drivers`, by their selectors.
  unfoldable pub restart_targets :
      AdapterInventory → List ℕ → List InterfaceSelector → PlatformResult (List ℕ)
  restart_targets inventory targets [] = ok targets
  restart_targets inventory targets (selector ∷ selectors) = do
    snapshot ← resolve_adapter inventory selector
    restart_targets inventory (targets ++ snapshot.info.if_index ∷ []) selectors

  abbrev pub refuse_target : Option ℕ → PlatformResult (Unit {0})
  refuse_target none = ok tt
  refuse_target (some index) = err (platform_error invalid_config (say (protected_target index)))

  -- `resolve_adapter(inventory, selector).map(|adapter| adapter.info.if_index)`
  abbrev pub resolve_index : AdapterInventory → InterfaceSelector → PlatformResult ℕ
  resolve_index inventory selector =
      resolve_adapter inventory selector >>= λ adapter. ok adapter.info.if_index

  unfoldable pub validate_runtime_protection :
      NetplanConfig → AdapterInventory → List Interface → PlatformResult (Unit {0})
  validate_runtime_protection config inventory interfaces = do
    protected ← collect (resolve_index inventory) config.protect.management_interfaces
    t0 ← adapter_targets inventory [] config.adapters
    t1 ← wifi_targets inventory interfaces t0 (map (λ (p : WifiProfile). p.selector) config.wifi)
    t2 ← wifi_targets inventory interfaces t1 (map action_selector config.wifi_actions)
    t3 ← restart_targets inventory t2 (filter_map driver_selector config.drivers)
    refuse_target (find (λ target. any (λ p. p == target) protected) t3)
