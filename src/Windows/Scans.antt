-- ===== src/Windows/Scans.antt =====
-- crates/netpland/src/platform/windows/wifi.rs and windows.rs: the scans and the status of a Wi-Fi
-- interface, and the order of the networks that a scan finds.
-- The fields `scan` and `current_profile` of `System` stand for the functions of these names here.
use netplan.Base.{
  ℕ, ◌==◌, ltb, Bool, true, false, not, ◌&&◌, if◌then◌else◌, Option, none, some, List, [], ◌∷◌,
  ◌++◌, length, Text, codes, text_eq, ok, err, collect,
}
use netplan.Model.{WifiInterfaceStatus, WifiNetwork}
use netplan.Plan.{decimal}
use netplan.Platform.{PlatformResult, platform_error, unsupported}
use netplan.Windows.{Call}
use netplan.Windows.Calls.{pure, fail, ◌>>=◌, ◌>>◌, lift_result}
use netplan.Windows.Tools.{internal_error}
use netplan.Windows.Radio.{
  RadioState, on, off, unknown, InterfaceState, connected, complete, failed, Received, event,
  timeout, disconnected_channel, Radio, WlanRadioState, ConnectionAttributes, classify_radio_state,
  effective_interface_state, auth_name, cipher_name, quality, filter_empty, ssid_parts, fixed_wide,
  decode_network,
}

abbrev pub is_off : RadioState → Bool
is_off off = true
is_off on = false
is_off unknown = false

abbrev is_connected : InterfaceState → Bool
is_connected connected = true
is_connected _ = false

-- `.filter(|attributes| attributes.isState == wlan_interface_state_connected)`
abbrev when_connected : Option ConnectionAttributes → Option ConnectionAttributes
when_connected none = none
when_connected (some attributes) = if is_connected attributes.state then some attributes else none

abbrev map_option : {A B : Type 0} → (A → B) → Option A → Option B
map_option f none = none
map_option f (some a) = some (f a)

abbrev filter_some : Option Text → Option Text
filter_some none = none
filter_some (some text) = filter_empty text

abbrev some_ok : {A : Type 0} → PlatformResult A → PlatformResult (Option A)
some_ok (ok a) = ok (some a)
some_ok (err error) = err error

-- `left < right` on texts
abbrev pub text_lt : Text → Text → Bool
text_lt s [] = false
text_lt [] (c ∷ t) = true
text_lt (a ∷ s) (b ∷ t) = if a == b then text_lt s t else ltb a b

-- Whether `sort_by` places the first before the second: connected ones, then those of a better
-- signal, then by the name, then by the interface
unfoldable pub network_before : WifiNetwork → WifiNetwork → Bool
network_before left right =
    if left.connected && not right.connected
    then true
    else if right.connected && not left.connected
    then false
    else if not (left.signal_quality == right.signal_quality)
    then ltb right.signal_quality left.signal_quality
    else if not (text_eq left.ssid right.ssid)
    then text_lt left.ssid right.ssid
    else ltb left.interface_if_index right.interface_if_index

abbrev pub place : WifiNetwork → List WifiNetwork → List WifiNetwork
place network [] = network ∷ []
place network (first ∷ rest) =
    let later = place network rest in
    if network_before first network then first ∷ later else network ∷ first ∷ rest

-- `sort_by`, which is stable
unfoldable pub sort_networks : List WifiNetwork → List WifiNetwork
sort_networks [] = []
sort_networks (network ∷ networks) = place network (sort_networks networks)

module _ {S : Type 0} (radio : Radio S) where
  abbrev classified : WlanRadioState → Call S RadioState
  classified state =
      if ltb (length state.phy_radio_state) state.number_of_phys
      then fail (internal_error (codes "Native Wi-Fi returned an invalid radio PHY count"))
      else pure (classify_radio_state state)

  unfoldable pub radio_state : ℕ → Call S RadioState
  radio_state interface = radio.query_radio_state interface >>= λ state. classified state

  abbrev profile_of : Option ConnectionAttributes → Call S (Option Text)
  profile_of none = pure none
  profile_of (some attributes) =
      lift_result (fixed_wide radio attributes.profile_name) >>= λ name. pure (some name)

  unfoldable pub current_profile : ℕ → Call S (Option Text)
  current_profile interface =
      radio.query_connection interface >>= λ connection. profile_of (when_connected connection)

  -- `wlan_result("WlanScan", ERROR_NDIS_DOT11_POWER_STATE_INVALID)` where the radio is off
  unfoldable pub scan : ℕ → Call S (Unit {0})
  scan interface = radio_state interface >>= λ state.
      if is_off state
      then fail (
          platform_error unsupported (
            codes
              "WlanScan is unavailable because the Wi-Fi radio is off; turn on Wi-Fi and retry"))
      else radio.wlan_scan interface

  abbrev notified : Received → PlatformResult Bool
  notified (event complete) = ok true
  notified (event (failed reason)) =
      err
        (internal_error (codes "Native Wi-Fi scan failed with WLAN reason code " ++ decimal reason))
  notified timeout = ok false
  notified disconnected_channel =
      err (internal_error (codes "Native Wi-Fi scan notification channel disconnected"))

  -- The scan, and the notification that is waited for where it was started
  abbrev notification_result : ℕ → PlatformResult (Unit {0}) × S → PlatformResult Bool × S
  notification_result ms (ok started, s) =
      let (received, s') = radio.recv_timeout ms s in (notified received, s')
  notification_result ms (err error, s) = (err error, s)

  -- The callback is unregistered whatever the scan answered, whose error comes first.
  abbrev unregistered : PlatformResult Bool → PlatformResult (Unit {0}) → PlatformResult Bool
  unregistered (err error) done = err error
  unregistered (ok refreshed) (err error) = err error
  unregistered (ok refreshed) (ok done) = ok refreshed

  abbrev with_unregistration : PlatformResult Bool × S → PlatformResult Bool × S
  with_unregistration (result, s) =
      let (done, s') = radio.unregister_notification s in (unregistered result done, s')

  unfoldable pub scan_and_wait : ℕ → (ms : ℕ) → Call S Bool
  scan_and_wait interface ms = do
    radio.register_notification interface
    λ s. with_unregistration (notification_result ms (scan interface s))

  unfoldable pub available_networks : ℕ → ℕ → Text → Call S (List WifiNetwork)
  available_networks interface if_index interface_name = do
    list ← radio.available_network_list interface
    if ltb 4096 (length list)
        then fail (internal_error (codes "Native Wi-Fi network list exceeded the traversal limit"))
        else lift_result (collect (decode_network radio if_index interface_name) list)

  abbrev connection_unless_off : ℕ → RadioState → Call S (Option ConnectionAttributes)
  connection_unless_off interface state =
      if is_off state then pure none else radio.query_connection interface

  -- `connected.map(…).transpose()?`
  abbrev ssid_of : Option ConnectionAttributes → PlatformResult (Option (Text × Text))
  ssid_of none = ok none
  ssid_of (some attributes) = some_ok (ssid_parts radio attributes.ssid)

  unfoldable pub interface_status :
      ℕ → InterfaceState → ℕ → Text → Option Text → Call S WifiInterfaceStatus
  interface_status interface state if_index name guid = do
    radio_now ← radio_state interface
    connection ← connection_unless_off interface radio_now
    let now = when_connected connection
    ssid ← lift_result (ssid_of now)
    profile_name ← profile_of now
    pure record {
      if_index = if_index;
      name = name;
      guid = guid;
      state = effective_interface_state state radio_now;
      profile_name = filter_some profile_name;
      ssid = map_option (λ (p : Text × Text). p.0) ssid;
      ssid_hex = map_option (λ (p : Text × Text). p.1) ssid;
      signal_quality = map_option (λ (c : ConnectionAttributes). quality c.signal_quality) now;
      security_enabled = map_option (λ (c : ConnectionAttributes). c.security_enabled) now;
      authentication = map_option (λ (c : ConnectionAttributes). auth_name c.auth_algorithm) now;
      cipher = map_option (λ (c : ConnectionAttributes). cipher_name c.cipher_algorithm) now;
      rx_rate_kbps = map_option (λ (c : ConnectionAttributes). c.rx_rate) now;
      tx_rate_kbps = map_option (λ (c : ConnectionAttributes). c.tx_rate) now;
    }
