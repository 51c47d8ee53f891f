-- ===== src/Tests/Scanning.antt =====
-- A machine with one Wi-Fi interface that finds two networks.
use netplan.Base.{
  ◌≡◌, refl, ℕ, Bool, true, false, none, List, [], ◌∷◌, map, ok, err, AllPairs, codes,
}
use netplan.Model.{WifiNetwork}
use netplan.Platform.{PlatformResult}
use netplan.Platform.Resolve.{Interface}
use netplan.Windows.{System}
use netplan.Windows.Calls.{pure, ◌>>=◌}
use netplan.Windows.Backend.{select_wifi_interfaces}
use netplan.Windows.Radio.{
  Radio, AvailableNetwork, phy_on, timeout, wpa_none, ccmp, classify_radio_state, ssid_parts,
  fixed_wide, decode_network, quality,
}
use netplan.Windows.Scans.{radio_state, available_networks, sort_networks, network_before}
use netplan.Windows.Requests.{wifi_scan}
use netplan.Windows.Sorted.{Ranked, wifi_scan-Ranked}
use netplan.Tests.Machines.{Machine, bench, idle}

abbrev wireless : Interface
wireless = record { guid = 1; if_index = 7; description = codes "radio"; state = 1 }

abbrev receiver : System Machine
receiver = record bench { open_client = pure tt; interfaces = pure (wireless ∷ []) }

-- A network of a one-letter name
abbrev seen : ℕ → ℕ → AvailableNetwork
seen letter signal = record {
  profile_name = [];
  ssid = record { ssid_length = 1; bytes = letter ∷ [] };
  number_of_bssids = 1;
  network_connectable = true;
  not_connectable_reason = 0;
  signal_quality = signal;
  security_enabled = false;
  auth_algorithm = wpa_none;
  cipher_algorithm = ccmp;
  is_connected = false;
}

abbrev radio : Radio Machine
radio = record {
  from_utf8_lossy = λ bytes. bytes;
  from_utf16 = λ units. ok units;
  query_radio_state = λ interface. pure (record {
    number_of_phys = 1;
    phy_radio_state = record { software = phy_on; hardware = phy_on } ∷ [];
  });
  query_connection = λ interface. pure none;
  available_network_list = λ interface. pure (seen 97 20 ∷ seen 98 80 ∷ []);
  wlan_scan = λ interface. pure tt;
  register_notification = λ interface. pure tt;
  unregister_notification = pure tt;
  recv_timeout = λ ms m. (timeout, m);
}

abbrev networks_of : PlatformResult (Bool × List WifiNetwork) → List WifiNetwork
networks_of (ok answer) = answer.1
networks_of (err e) = []

abbrev found : List WifiNetwork
found = networks_of (wifi_scan receiver radio none false 10 idle).0

found_signals : map (λ (n : WifiNetwork). n.signal_quality) found ≡ 80 ∷ 20 ∷ []
unfolding wifi_scan ◌>>=◌ select_wifi_interfaces radio_state classify_radio_state available_networks
    decode_network ssid_parts fixed_wide sort_networks network_before quality
found_signals = refl

wifi_scan-Ranked_example : AllPairs Ranked found
unfolding wifi_scan ◌>>=◌ select_wifi_interfaces radio_state classify_radio_state available_networks
    decode_network ssid_parts fixed_wide sort_networks network_before quality
wifi_scan-Ranked_example = wifi_scan-Ranked receiver radio none false 10 idle refl
