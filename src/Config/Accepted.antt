-- ===== src/Config/Accepted.antt =====
-- What `validate` has checked when it accepts, loop by loop.
use netplan.Base.{
  ◌≡◌, arith, false, not, ◌&&◌, [], is_nil, ok, if_some, for_each, for_each_after, Unicode, codes,
}
use netplan.Config.{NetplanConfig}
use netplan.Config.Checks.{validate_selector, validate_identity}
use netplan.Config.Smb.{
  check_account, check_share, check_mapping, check_service, service_requested_stopped,
}
use netplan.Config.Validate.{
  selectors, check_adapter, check_wifi, check_wifi_name, check_wifi_action, check_driver,
  check_hook, validate,
}

module _ (unicode : Unicode) (config : NetplanConfig) where
  pub record Accepted : Type 0 where
    pub version_one : config.version ≡ 1
    pub selectors_ok : for_each validate_selector (selectors config) ≡ ok tt
    pub identity_ok : if_some validate_identity config.identity ≡ ok tt
    pub adapters_ok : for_each (check_adapter unicode config) config.adapters ≡ ok tt
    pub wifi_ok : for_each (check_wifi unicode config) config.wifi ≡ ok tt
    pub wifi_names_ok : for_each_after check_wifi_name [] config.wifi ≡ ok tt
    pub wifi_actions_ok : for_each (check_wifi_action config) config.wifi_actions ≡ ok tt
    pub accounts_ok : for_each_after check_account [] config.smb.accounts ≡ ok tt
    pub shares_ok : for_each_after (check_share config) [] config.smb.shares ≡ ok tt
    pub mappings_ok : for_each_after (check_mapping config) [] config.smb.mappings ≡ ok tt
    pub services_ok : for_each_after check_service [] config.services ≡ ok tt
    pub server_kept :
        not (is_nil config.smb.shares) && service_requested_stopped config (codes "LanmanServer")
        ≡ false
    pub workstation_kept :
        not (is_nil config.smb.mappings)
          && service_requested_stopped config (codes "LanmanWorkstation")
        ≡ false
    pub drivers_ok : for_each (check_driver unicode config) config.drivers ≡ ok tt
    pub hooks_ok : for_each check_hook config.hooks ≡ ok tt

  pub validate-Accepted : validate unicode config ≡ ok tt → Accepted
  unfolding validate
  validate-Accepted h = ground arith

  pub Accepted-validate : Accepted → validate unicode config ≡ ok tt
  unfolding validate
  Accepted-validate a = ground arith
