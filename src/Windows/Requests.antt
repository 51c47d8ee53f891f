-- ===== src/Windows/Requests.antt =====
-- crates/netpland/src/platform/windows.rs: `wifi_status` and `wifi_scan` of the backend, over the
-- interfaces that a request selects.
use netplan.Base.{
  ℕ, ◌==◌, Bool, true, false, ◌&&◌, if◌then◌else◌, Option, none, some, List, [], ◌∷◌, ◌++◌, map,
  find, is_nil, Text, codes,
}
use netplan.Model.{WifiInterfaceStatus, WifiNetwork}
use netplan.Plan.{decimal}
use netplan.Plan.Operations.{join_comma}
use netplan.Platform.{platform_error, unsupported}
use netplan.Platform.Resolve.{AdapterSnapshot, AdapterInventory, Interface}
use netplan.Windows.{Call, System}
use netplan.Windows.Calls.{pure, fail, ◌>>=◌, ◌>>◌, lift_result}
use netplan.Windows.Network.{inventory_or}
use netplan.Windows.Backend.{select_wifi_interfaces}
use netplan.Windows.Radio.{InterfaceState, Radio}
use netplan.Windows.Scans.{
  is_off, radio_state, scan_and_wait, available_networks, interface_status, sort_networks,
}

module _ {S : Type 0} (system : System S) (radio : Radio S) where
  abbrev name_or : Text → Text → Text
  name_or description name = if is_nil name then description else name

  -- The adapter's name, where it has one, or the interface's description
  abbrev name_of : Interface → Option AdapterSnapshot → Text
  name_of interface none = interface.description
  name_of interface (some adapter) = name_or interface.description adapter.info.name

  abbrev guid_of : Option AdapterSnapshot → Option Text
  guid_of none = none
  guid_of (some adapter) = adapter.info.guid

  abbrev adapter_of : AdapterInventory → Interface → Option AdapterSnapshot
  adapter_of inventory interface =
      find (λ (adapter : AdapterSnapshot). adapter.info.if_index == interface.if_index)
        inventory.adapters

  -- The interfaces whose radio is not off, and the indexes of the others
  abbrev split_by_radio : List Interface → Call S (List Interface × List ℕ)
  split_by_radio [] = pure ([], [])
  split_by_radio (interface ∷ interfaces) = do
    state ← radio_state radio interface.guid
    rest ← split_by_radio interfaces
    pure (
        if is_off state
        then (rest.0, interface.if_index ∷ rest.1)
        else (interface ∷ rest.0, rest.1))

  abbrev refresh_one : Bool → ℕ → Bool → Interface → Call S Bool
  refresh_one true ms refreshed interface =
      scan_and_wait radio interface.guid ms >>= λ complete_now. pure (refreshed && complete_now)
  refresh_one false ms refreshed interface = pure refreshed

  -- The loop over the interfaces that can scan
  abbrev scan_all :
      AdapterInventory
      → Bool
      → ℕ
      → Bool
      → List WifiNetwork
      → List Interface
      → Call S (Bool × List WifiNetwork)
  scan_all inventory refresh ms refreshed networks [] = pure (refreshed, networks)
  scan_all inventory refresh ms refreshed networks (interface ∷ interfaces) = do
    refreshed_now ← refresh_one refresh ms refreshed interface
    found ←
        available_networks radio interface.guid interface.if_index
          (name_of interface (adapter_of inventory interface))
    scan_all inventory refresh ms refreshed_now (networks ++ found) interfaces

  abbrev pub scan_selected :
      AdapterInventory → Bool → ℕ → List Interface × List ℕ → Call S (Bool × List WifiNetwork)
  scan_selected inventory refresh ms ([], radio_off) = fail (
      platform_error unsupported (
        codes "Wi-Fi radio is off for Native Wi-Fi interface if_index="
        ++ join_comma (map decimal radio_off)
        ++ codes "; turn on Wi-Fi and retry"))
  scan_selected inventory refresh ms (first ∷ scannable, radio_off) = do
    answer ← scan_all inventory refresh ms (refresh && is_nil radio_off) [] (first ∷ scannable)
    pure (answer.0, sort_networks answer.1)

  unfoldable pub wifi_scan : Option ℕ → Bool → (ms : ℕ) → Call S (Bool × List WifiNetwork)
  wifi_scan if_index refresh ms = do
    inventory ← inventory_or system (codes "Wi-Fi scan inventory")
    system.open_client
    interfaces ← system.interfaces
    selected ← lift_result (select_wifi_interfaces interfaces if_index)
    split ← split_by_radio selected
    scan_selected inventory refresh ms split

  -- The state of an interface, which `Interface` holds as a number, by the constants of Windows
  abbrev collect_status :
      (ℕ → InterfaceState) → AdapterInventory → List Interface → Call S (List WifiInterfaceStatus)
  collect_status state_named inventory [] = pure []
  collect_status state_named inventory (interface ∷ interfaces) = do
    let adapter = adapter_of inventory interface
    status ←
        interface_status radio interface.guid (state_named interface.state) interface.if_index
          (name_of interface adapter) (guid_of adapter)
    statuses ← collect_status state_named inventory interfaces
    pure (status ∷ statuses)

  unfoldable pub wifi_status : (ℕ → InterfaceState) → Option ℕ → Call S (List WifiInterfaceStatus)
  wifi_status state_named if_index = do
    inventory ← inventory_or system (codes "Wi-Fi status inventory")
    system.open_client
    interfaces ← system.interfaces
    selected ← lift_result (select_wifi_interfaces interfaces if_index)
    collect_status state_named inventory selected
