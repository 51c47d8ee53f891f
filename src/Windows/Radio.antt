-- ===== src/Windows/Radio.antt =====
-- crates/netpland/src/platform/windows/wifi.rs: what the WLAN interface answers, decoded.
use netplan.Base.{
  ℕ, ◌+◌, ◌-◌, ◌/◌, ◌%◌, min, ltb, ◌==◌, Bool, true, false, ◌&&◌, ◌||◌, if◌then◌else◌, Option, none,
  some, List, [], ◌∷◌, ◌++◌, any, all, take, length, is_nil, Text, codes, Result, ok, err, map_err,
  ◌>>=◌,
}
use netplan.Model.{WifiNetwork}
use netplan.Plan.{decimal}
use netplan.Platform.{PlatformResult}
use netplan.Windows.{Call}
use netplan.Windows.Tools.{internal_error}

pub data RadioState : Type 0 where
  on off unknown : RadioState

-- `DOT11_RADIO_STATE`
pub data PhyState : Type 0 where
  phy_on phy_off phy_unknown : PhyState

-- `WLAN_PHY_RADIO_STATE`, and `WLAN_RADIO_STATE` with all the entries of its array
pub record Phy : Type 0 where
  pub software : PhyState
  pub hardware : PhyState

pub record WlanRadioState : Type 0 where
  pub number_of_phys : ℕ
  pub phy_radio_state : List Phy

-- `WLAN_INTERFACE_STATE`
pub data InterfaceState : Type 0 where
  not_ready connected ad_hoc_network_formed disconnecting disconnected associating : InterfaceState
  discovering authenticating other_state : InterfaceState

-- `DOT11_AUTH_ALGORITHM` and `DOT11_CIPHER_ALGORITHM`, by the constants that the program names
pub data AuthAlgorithm : Type 0 where
  open_80211 shared_key_80211 wpa wpa_psk wpa_none rsna rsna_psk wpa3 wpa3_ent : AuthAlgorithm
  wpa3_sae owe : AuthAlgorithm
  other_auth : ℕ → AuthAlgorithm

pub data CipherAlgorithm : Type 0 where
  cipher_none wep40 tkip ccmp wep104 bip gcmp gcmp_256 ccmp_256 bip_gmac_128 : CipherAlgorithm
  bip_gmac_256 bip_cmac_256 rsn_use_group wep : CipherAlgorithm
  other_cipher : ℕ → CipherAlgorithm

-- `DOT11_SSID`: its length, and its array of 32 bytes
pub record Dot11Ssid : Type 0 where
  pub ssid_length : ℕ
  pub bytes : List ℕ

-- The fields of `WLAN_AVAILABLE_NETWORK` that the program reads; the last is the flag
-- `WLAN_AVAILABLE_NETWORK_CONNECTED`.
pub record AvailableNetwork : Type 0 where
  pub profile_name : List ℕ
  pub ssid : Dot11Ssid
  pub number_of_bssids : ℕ
  pub network_connectable : Bool
  pub not_connectable_reason : ℕ
  pub signal_quality : ℕ
  pub security_enabled : Bool
  pub auth_algorithm : AuthAlgorithm
  pub cipher_algorithm : CipherAlgorithm
  pub is_connected : Bool

-- The fields of `WLAN_CONNECTION_ATTRIBUTES` that the program reads
pub record ConnectionAttributes : Type 0 where
  pub state : InterfaceState
  pub profile_name : List ℕ
  pub ssid : Dot11Ssid
  pub signal_quality : ℕ
  pub rx_rate : ℕ
  pub tx_rate : ℕ
  pub security_enabled : Bool
  pub auth_algorithm : AuthAlgorithm
  pub cipher_algorithm : CipherAlgorithm

pub data ScanEvent : Type 0 where
  complete : ScanEvent
  failed : ℕ → ScanEvent

-- `receiver.recv_timeout(timeout)`
pub data Received : Type 0 where
  event : ScanEvent → Received
  timeout disconnected_channel : Received

-- The calls of the WLAN interface, and the decoders of the standard library
pub record Radio (S : Type 0) : Type 0 where
  pub from_utf8_lossy : List ℕ → Text
  -- `Err` is the text of the error
  pub from_utf16 : List ℕ → Result Text Text
  pub query_radio_state : ℕ → Call S WlanRadioState
  pub query_connection : ℕ → Call S (Option ConnectionAttributes)
  pub available_network_list : ℕ → Call S (List AvailableNetwork)
  pub wlan_scan : ℕ → Call S (Unit {0})
  pub register_notification : ℕ → Call S (Unit {0})
  pub unregister_notification : Call S (Unit {0})
  pub recv_timeout : (ms : ℕ) → S → Received × S

abbrev is_on : PhyState → Bool
is_on phy_on = true
is_on _ = false

abbrev is_off : PhyState → Bool
is_off phy_off = true
is_off _ = false

unfoldable pub classify_radio_state : WlanRadioState → RadioState
classify_radio_state state =
    if state.number_of_phys == 0 || ltb (length state.phy_radio_state) state.number_of_phys
    then unknown
    else let phys = take state.number_of_phys state.phy_radio_state in
      if any (λ (phy : Phy). is_on phy.software && is_on phy.hardware) phys
      then on
      else if all (λ (phy : Phy). is_off phy.software || is_off phy.hardware) phys
      then off
      else unknown

unfoldable pub interface_state_name : InterfaceState → Text
interface_state_name not_ready = codes "not_ready"
interface_state_name connected = codes "connected"
interface_state_name ad_hoc_network_formed = codes "ad_hoc_network_formed"
interface_state_name disconnecting = codes "disconnecting"
interface_state_name disconnected = codes "disconnected"
interface_state_name associating = codes "associating"
interface_state_name discovering = codes "discovering"
interface_state_name authenticating = codes "authenticating"
interface_state_name other_state = codes "unknown"

unfoldable pub effective_interface_state : InterfaceState → RadioState → Text
effective_interface_state state off = codes "radio_off"
effective_interface_state state on = interface_state_name state
effective_interface_state state unknown = interface_state_name state

abbrev unknown_number : ℕ → Text
unknown_number n = codes "unknown(" ++ decimal n ++ codes ")"

unfoldable pub auth_name : AuthAlgorithm → Text
auth_name open_80211 = codes "open"
auth_name shared_key_80211 = codes "shared_key"
auth_name wpa = codes "wpa_enterprise"
auth_name wpa_psk = codes "wpa_personal"
auth_name wpa_none = codes "wpa_none"
auth_name rsna = codes "wpa2_enterprise"
auth_name rsna_psk = codes "wpa2_personal"
auth_name wpa3 = codes "wpa3_enterprise"
auth_name wpa3_ent = codes "wpa3_enterprise"
auth_name wpa3_sae = codes "wpa3_personal"
auth_name owe = codes "owe"
auth_name (other_auth n) = unknown_number n

unfoldable pub cipher_name : CipherAlgorithm → Text
cipher_name cipher_none = codes "none"
cipher_name wep40 = codes "wep40"
cipher_name tkip = codes "tkip"
cipher_name ccmp = codes "ccmp"
cipher_name wep104 = codes "wep104"
cipher_name bip = codes "bip"
cipher_name gcmp = codes "gcmp"
cipher_name gcmp_256 = codes "gcmp_256"
cipher_name ccmp_256 = codes "ccmp_256"
cipher_name bip_gmac_128 = codes "bip_gmac_128"
cipher_name bip_gmac_256 = codes "bip_gmac_256"
cipher_name bip_cmac_256 = codes "bip_cmac_256"
cipher_name rsn_use_group = codes "use_group"
cipher_name wep = codes "wep"
cipher_name (other_cipher n) = unknown_number n

unfoldable pub quality : ℕ → ℕ
quality value = min value 100

-- `HEX[n]`, for a number below 16
abbrev pub hex_digit : ℕ → ℕ
hex_digit n = if ltb n 10 then b'0' + n else b'A' + (n - 10)

abbrev pub hex : List ℕ → Text
hex [] = []
hex (byte ∷ bytes) = hex_digit (byte / 16) ∷ hex_digit (byte % 16) ∷ hex bytes

abbrev pub until_nul : List ℕ → List ℕ
until_nul [] = []
until_nul (unit ∷ units) = let rest = until_nul units in if unit == 0 then [] else unit ∷ rest

unfoldable pub filter_empty : Text → Option Text
filter_empty text = if is_nil text then none else some text

module _ {S : Type 0} (radio : Radio S) where
  unfoldable pub ssid_parts : Dot11Ssid → PlatformResult (Text × Text)
  ssid_parts ssid =
      if ltb (length ssid.bytes) ssid.ssid_length
      then err (internal_error (codes "Native Wi-Fi returned an invalid SSID length"))
      else let bytes = take ssid.ssid_length ssid.bytes in
        ok (radio.from_utf8_lossy bytes, hex bytes)

  unfoldable pub fixed_wide : List ℕ → PlatformResult Text
  fixed_wide value =
      map_err (λ error. internal_error (codes "Native Wi-Fi returned invalid UTF-16: " ++ error))
        (radio.from_utf16 (until_nul value))

  unfoldable pub decode_network : ℕ → Text → AvailableNetwork → PlatformResult WifiNetwork
  decode_network if_index interface_name network = do
    parts ← ssid_parts network.ssid
    name ← fixed_wide network.profile_name
    ok record {
      interface_if_index = if_index;
      interface_name = interface_name;
      ssid = parts.0;
      ssid_hex = parts.1;
      profile_name = filter_empty name;
      signal_quality = quality network.signal_quality;
      security_enabled = network.security_enabled;
      authentication = auth_name network.auth_algorithm;
      cipher = cipher_name network.cipher_algorithm;
      connectable = network.network_connectable;
      not_connectable_reason =
          if network.network_connectable then none else some network.not_connectable_reason;
      connected = network.is_connected;
      bss_count = network.number_of_bssids;
    }
