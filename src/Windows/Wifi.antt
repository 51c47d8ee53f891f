-- ===== src/Windows/Wifi.antt =====
-- crates/netpland/src/platform/windows/wifi.rs: profiles as XML, connections, and the undoing of a
-- change to either.
use netplan.Base.{
  ℕ, ◌+◌, ◌==◌, between, Bool, true, false, ◌&&◌, ◌||◌, Option, none, some, [], ◌∷◌, ◌++◌, all,
  Text, codes, bytes, len, is_ascii_hexdigit, eq_ignore_ascii_case, if◌then◌else◌, ok, err,
}
use netplan.Config.{
  WifiAuthentication, open_network, wpa2_personal, wpa3_personal, SecretRef, env, literal,
  WifiProfile,
}
use netplan.Config.Checks.{wifi_profile_name}
use netplan.Platform.{PlatformError, PlatformResult, platform_error, invalid_config, not_found}
use netplan.Windows.{Call, System}
use netplan.Windows.Calls.{pure, ◌>>=◌, ◌>>◌, lift_result, or_fail}
use netplan.Windows.Tools.{internal_error}
use netplan.Windows.Services.{poll, answered}

abbrev pub escaped : ℕ → Text
escaped c =
    if c == b'&'
    then codes "&amp;"
    else if c == b'<'
    then codes "&lt;"
    else if c == b'>'
    then codes "&gt;"
    else if c == b'"'
    then codes "&quot;"
    else if c == 39
    then codes "&apos;"
    else c ∷ []

unfoldable pub xml_escape : Text → Text
xml_escape [] = []
xml_escape (c ∷ s) = escaped c ++ xml_escape s

abbrev pub is_wpa2 : WifiAuthentication → Bool
is_wpa2 open_network = false
is_wpa2 wpa2_personal = true
is_wpa2 wpa3_personal = false

abbrev pub is_raw_key : Text → Bool
is_raw_key secret = len secret == 64 && all is_ascii_hexdigit (bytes secret)

unfoldable pub validate_runtime_psk : Text → WifiAuthentication → PlatformResult (Unit {0})
validate_runtime_psk secret authentication =
    if (between 8 63 (len secret) && all (between 32 126) (bytes secret))
      || (is_wpa2 authentication && is_raw_key secret)
    then ok tt
    else err (
        platform_error invalid_config (
          codes
            "resolved Wi-Fi PSK must be an 8 to 63 byte printable ASCII passphrase; WPA2 also accepts 64 hexadecimal digits"))

unfoldable pub profile_name : WifiProfile → Text
profile_name profile = wifi_profile_name profile

abbrev pub open_security : Text
open_security =
    codes "<authEncryption>"
    ++ codes "<authentication>open</authentication>"
    ++ codes "<encryption>none</encryption>"
    ++ codes "<useOneX>false</useOneX>"
    ++ codes "</authEncryption>"

abbrev pub shared_key : Text → Text → Text → Text
shared_key authentication key_type secret =
    codes "<authEncryption><authentication>"
    ++ (authentication
        ++ (codes
              "</authentication><encryption>AES</encryption><useOneX>false</useOneX></authEncryption>"
            ++ (codes "<sharedKey><keyType>"
                ++ (key_type
                    ++ (codes "</keyType><protected>false</protected><keyMaterial>"
                        ++ (xml_escape secret ++ (codes "</keyMaterial></sharedKey>")))))))

abbrev pub secured : WifiAuthentication → Text → Text
secured authentication secret =
    shared_key (if is_wpa2 authentication then codes "WPA2PSK" else codes "WPA3SAE")
      (if is_wpa2 authentication && is_raw_key secret
        then codes "networkKey"
        else codes "passPhrase")
      secret

abbrev pub profile_document : WifiProfile → Text → Text
profile_document profile security =
    codes "<?xml version=\"1.0\"?><WLANProfile "
    ++ (codes "xmlns=\"https://www.microsoft.com/networking/WLAN/profile/v1\"><name>"
        ++ (xml_escape (profile_name profile)
            ++ (codes "</name><SSIDConfig><SSID><name>"
                ++ (xml_escape profile.ssid
                    ++ (codes "</name></SSID>"
                        ++ ((if profile.hidden
                              then codes "<nonBroadcast>true</nonBroadcast>"
                              else [])
                            ++ (codes
                                  "</SSIDConfig><connectionType>ESS</connectionType><connectionMode>"
                                ++ ((if profile.auto_connect then codes "auto" else codes "manual")
                                    ++ (codes
                                          "</connectionMode><autoSwitch>false</autoSwitch><MSM><security>"
                                        ++ (security
                                            ++ (codes "</security></MSM></WLANProfile>")))))))))))

-- `Option::as_deref` on both sides, of a connection's profile and the desired one
abbrev pub is_reached : Option Text → Option Text → Bool
is_reached none none = true
is_reached (some current) (some desired) = eq_ignore_ascii_case current desired
is_reached none (some desired) = false
is_reached (some current) none = false

-- `wifi::Rollback`
pub data WifiRollback : Type 0 where
  profile : (interface : ℕ) (name : Text) (previous_xml : Option Text) → WifiRollback
  connection : (interface : ℕ) (previous_profile : Option Text) → WifiRollback

-- `CONNECTION_TIMEOUT`, in milliseconds
abbrev pub connection_timeout : ℕ
connection_timeout = 30000

module _ {S : Type 0} (system : System S) where
  -- `std::env::var(name).map_err(…)`
  abbrev pub env_or_missing : Text → Option Text → PlatformResult Text
  env_or_missing name (some value) = ok value
  env_or_missing name none = err (
      platform_error not_found (
        codes "required secret environment variable "
        ++ system.debug name
        ++ codes " is not set or is not Unicode"))

  -- `resolve_secret`, the same in smb.rs
  unfoldable pub resolve_secret : SecretRef → PlatformResult Text
  resolve_secret (literal value) = ok value
  resolve_secret (env name) = env_or_missing name (system.env_var name)

  abbrev pub secured_xml : WifiProfile → Call S Text
  secured_xml declared = do
    reference ←
        or_fail (platform_error invalid_config (codes "secured Wi-Fi profile has no PSK reference"))
          declared.psk
    secret ← lift_result (resolve_secret reference)
    lift_result (validate_runtime_psk secret declared.authentication)
    pure (secured declared.authentication secret)

  abbrev pub security_xml : WifiProfile → WifiAuthentication → Call S Text
  security_xml declared open_network = pure open_security
  security_xml declared wpa2_personal = secured_xml declared
  security_xml declared wpa3_personal = secured_xml declared

  -- The machine's state is not read: secrets come from the environment.
  unfoldable pub profile_xml : WifiProfile → Call S Text
  profile_xml declared = security_xml declared declared.authentication >>= λ security.
      pure (profile_document declared security)

  unfoldable pub set_profile : ℕ → WifiProfile → Call S (Unit {0})
  set_profile interface declared =
      profile_xml declared >>= λ xml. system.set_profile_xml interface xml

  abbrev pub wifi_late : PlatformError
  wifi_late =
      internal_error
        (codes "Native Wi-Fi did not reach the requested connection state within 30 seconds")

  abbrev pub profile_reached : ℕ → Option Text → Call S Bool
  profile_reached interface desired =
      system.current_profile interface >>= λ current. pure (is_reached current desired)

  -- A sleep is of 200 milliseconds: 150 of them reach the deadline.
  unfoldable pub wait_for_profile : ℕ → Option Text → Call S (Unit {0})
  wait_for_profile interface desired s = answered system wifi_late (
      poll system 151 (system.now s + connection_timeout) 200 wifi_late
        (profile_reached interface desired) s)

  unfoldable pub connect : ℕ → Text → Call S (Unit {0})
  connect interface wanted = do
    system.wlan_connect interface wanted
    wait_for_profile interface (some wanted)

  unfoldable pub disconnect : ℕ → Call S (Unit {0})
  disconnect interface = system.wlan_disconnect interface >>= λ was_connected.
      if was_connected then wait_for_profile interface none else pure tt

  abbrev execute_profile : ℕ → Text → Option Text → Call S (Unit {0})
  execute_profile interface name (some xml) = system.set_profile_xml interface xml
  execute_profile interface name none = system.delete_profile interface name

  abbrev execute_connection : ℕ → Option Text → Call S (Unit {0})
  execute_connection interface (some wanted) = connect interface wanted
  execute_connection interface none = disconnect interface

  abbrev execute_on_client : WifiRollback → Call S (Unit {0})
  execute_on_client (profile interface name previous_xml) =
      execute_profile interface name previous_xml
  execute_on_client (connection interface previous_profile) =
      execute_connection interface previous_profile

  unfoldable pub execute_wifi : WifiRollback → Call S (Unit {0})
  execute_wifi action = system.open_client >> execute_on_client action
