-- ===== src/Config/Validate.antt =====
-- `validate` of crates/netplan/src/config.rs, one definition for each of its loops.
use netplan.Base.{
  Bool, true, false, not, ◌&&◌, ◌||◌, Option, none, some, List, [], ◌∷◌, ◌++◌, map, any, is_nil,
  ltb, ◌==◌, Result, ok, err, ◌>>◌, if_some, for_each, for_each_after, Unicode, codes, len,
  eq_ignore_ascii_case, to_ascii_lowercase, contains, ends_with, trim,
}
use netplan.Error.{
  Error, validation, ssid_length, invalid_wifi_name, open_with_psk, secured_without_psk,
  wpa3_raw_psk, empty_env_name, duplicate_wifi_profile, unknown_wifi_profile, shares_without_server,
  mappings_without_workstation, driver_not_inf, invalid_hardware_id, restart_without_hardware_id,
  invalid_hook_program, invalid_hook_argument, unsupported_version,
}
use netplan.Config.{
  NetplanConfig, InterfaceSelector, AdapterConfig, WifiProfile, WifiAuthentication, open_network,
  wpa3_personal, SecretRef, env, literal, WifiAction, scan, connect, disconnect, RestartPolicy,
  never, DriverOperation, install, restart_adapter, HookConfig,
}
use netplan.Config.Checks.{
  reject_if, validate_mac, validate_selector, validate_identity, validate_ipv4, wifi_profile_name,
  validate_psk,
}
use netplan.Config.Protect.{reject_protected_selector}
use netplan.Config.Smb.{
  is_some, is_some_and, check_account, check_share, check_mapping, check_service,
  service_requested_stopped,
}

-- `iter().filter_map(f)`
abbrev pub filter_map {ℓ κ} : {A : Type ℓ} {B : Type κ} → (A → Option B) → List A → List B
filter_map f [] = []
filter_map f (x ∷ xs) = let rest = filter_map f xs in elim (f x) [ none ↦ rest | some y ↦ y ∷ rest ]

abbrev pub action_selector : WifiAction → Option InterfaceSelector
action_selector (scan selector) = selector
action_selector (connect selector profile) = selector
action_selector (disconnect selector) = selector

abbrev pub driver_selector : DriverOperation → Option InterfaceSelector
driver_selector (install inf_path hardware_id force restart) = none
driver_selector (restart_adapter selector) = some selector

-- The chain of iterators in front of `validate_selector`.
abbrev pub selectors : NetplanConfig → List InterfaceSelector
selectors config =
    config.protect.management_interfaces
    ++ (map (λ (adapter : AdapterConfig). adapter.selector) config.adapters
        ++ (filter_map (λ (wifi : WifiProfile). wifi.selector) config.wifi
            ++ (filter_map action_selector config.wifi_actions
                ++ filter_map driver_selector config.drivers)))

abbrev wpa3 : WifiAuthentication → Bool
wpa3 wpa3_personal = true
wpa3 _ = false

-- The `match` on the authentication and the key of a profile.
unfoldable pub check_key : WifiAuthentication → Option SecretRef → Result Error (Unit {0})
check_key open_network (some psk) = err (validation open_with_psk)
check_key open_network none = ok tt
check_key authentication none = err (validation secured_without_psk)
check_key authentication (some (literal secret)) = do
  validate_psk secret
  reject_if (wpa3 authentication && len secret == 64) wpa3_raw_psk
check_key authentication (some (env name)) = reject_if (is_nil name) empty_env_name

unfoldable pub check_wifi_name : List WifiProfile → WifiProfile → Result Error (Unit {0})
check_wifi_name before profile =
    reject_if
      (any (λ other. eq_ignore_ascii_case (wifi_profile_name other) (wifi_profile_name profile))
        before)
      (duplicate_wifi_profile (wifi_profile_name profile))

unfoldable pub check_wifi_action : NetplanConfig → WifiAction → Result Error (Unit {0})
check_wifi_action config (connect selector profile) =
    reject_if
      (not
        (any (λ candidate. eq_ignore_ascii_case (wifi_profile_name candidate) profile) config.wifi))
      (unknown_wifi_profile profile)
check_wifi_action config _ = ok tt

abbrev pub restarts : RestartPolicy → Bool
restarts never = false
restarts _ = true

unfoldable pub check_hook : HookConfig → Result Error (Unit {0})
check_hook hook = do
  reject_if (is_nil (trim hook.program) || contains 0 hook.program) invalid_hook_program
  reject_if (any (contains 0) hook.args) invalid_hook_argument

module _ (unicode : Unicode) where
  unfoldable pub check_adapter : NetplanConfig → AdapterConfig → Result Error (Unit {0})
  check_adapter config adapter = do
    reject_protected_selector unicode config adapter.selector
    if_some validate_mac adapter.mac_address
    if_some validate_ipv4 adapter.ipv4

  unfoldable pub check_wifi : NetplanConfig → WifiProfile → Result Error (Unit {0})
  check_wifi config wifi = do
    if_some (reject_protected_selector unicode config) wifi.selector
    reject_if (is_nil wifi.ssid || ltb 32 (len wifi.ssid)) ssid_length
    reject_if (is_some_and (λ name. is_nil (trim name) || contains 0 name) wifi.name)
        invalid_wifi_name
    check_key wifi.authentication wifi.psk

  unfoldable pub check_driver : NetplanConfig → DriverOperation → Result Error (Unit {0})
  check_driver config (install inf_path hardware_id force restart) = do
    reject_if
        (is_nil (trim inf_path)
          || contains 0 inf_path
          || not (ends_with (codes ".inf") (to_ascii_lowercase inf_path)))
        (driver_not_inf inf_path)
    reject_if (is_some_and (λ value. is_nil (trim value) || contains 0 value) hardware_id)
        invalid_hardware_id
    reject_if (restarts restart && not (is_some hardware_id)) restart_without_hardware_id
  check_driver config (restart_adapter selector) = reject_protected_selector unicode config selector

  unfoldable pub validate : NetplanConfig → Result Error (Unit {0})
  validate config = do
    reject_if (not (config.version == 1)) (unsupported_version config.version)
    for_each validate_selector (selectors config)
    if_some validate_identity config.identity
    for_each (check_adapter config) config.adapters
    for_each (check_wifi config) config.wifi
    for_each_after check_wifi_name [] config.wifi
    for_each (check_wifi_action config) config.wifi_actions
    for_each_after check_account [] config.smb.accounts
    for_each_after (check_share config) [] config.smb.shares
    for_each_after (check_mapping config) [] config.smb.mappings
    for_each_after check_service [] config.services
    reject_if
        (not (is_nil config.smb.shares) && service_requested_stopped config (codes "LanmanServer"))
        shares_without_server
    reject_if
        (not (is_nil config.smb.mappings)
          && service_requested_stopped config (codes "LanmanWorkstation"))
        mappings_without_workstation
    for_each (check_driver config) config.drivers
    for_each check_hook config.hooks
