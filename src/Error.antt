-- ===== src/Error.antt =====
-- crates/netplan/src/error.rs. The text of a diagnostic is represented by a constructor for its
-- wording, with the values that it interpolates as arguments.
use netplan.Base.{ℕ, Text}

-- What `selector_label` of crates/netplan/src/config.rs shows of a selector.
pub data SelectorLabel : Type 0 where
  by_index : ℕ → SelectorLabel
  by_name : Text → SelectorLabel
  stable_selector : SelectorLabel

-- The messages of `Error::Validation` that crates/netplan/src/config.rs makes.
pub data ValidationError : Type 0 where
  unsupported_version : ℕ → ValidationError
  selector_without_matcher : ValidationError
  invalid_mac mac_not_hexadecimal mac_not_local_unicast : Text → ValidationError
  invalid_computer_name invalid_workgroup invalid_dns_suffix : Text → ValidationError
  no_static_address : ValidationError
  invalid_host_address invalid_gateway invalid_dns_server invalid_wins_server : ℕ → ValidationError
  protected_interface : SelectorLabel → ValidationError
  ssid_length invalid_wifi_name : ValidationError
  open_with_psk secured_without_psk invalid_psk wpa3_raw_psk empty_env_name : ValidationError
  duplicate_wifi_profile unknown_wifi_profile : Text → ValidationError
  invalid_account_id : ValidationError
  invalid_username invalid_local_username duplicate_account : Text → ValidationError
  invalid_env_name secret_with_nul : ValidationError
  invalid_share_name duplicate_share share_path_not_absolute : Text → ValidationError
  invalid_share_description unknown_account : Text → ValidationError
  share_account_not_local duplicate_account_reference : Text → Text → ValidationError
  mapping_not_unc invalid_drive_letter duplicate_drive : Text → ValidationError
  account_with_inline_credentials password_without_username : Text → ValidationError
  invalid_service_name duplicate_service : Text → ValidationError
  shares_without_server mappings_without_workstation : ValidationError
  driver_not_inf : Text → ValidationError
  invalid_hardware_id restart_without_hardware_id : ValidationError
  invalid_hook_program invalid_hook_argument : ValidationError

-- The format named by `Error::Decode`.
pub data DecodeFormat : Type 0 where
  utf8 json yaml : DecodeFormat

-- The messages of `Error::Protocol` that crates/netplan/src/protocol/mod.rs and client.rs make.
pub data ProtocolError : Type 0 where
  frame_too_long : ℕ → ProtocolError
  missing_prefix : ProtocolError
  invalid_length : ℕ → ℕ → ProtocolError
  missing_identifier : ProtocolError
  malformed : Text → ProtocolError
  unsupported_protocol : ℕ → ProtocolError
  not_a_request not_a_response : ProtocolError
  unknown_config_action unknown_config_format unknown_capability_state : ProtocolError
  unknown_operation_risk unknown_job_state unknown_error_code : ProtocolError
  id_mismatch : ℕ → ℕ → ProtocolError

pub data Error : Type 0 where
  decode : DecodeFormat → Text → Error
  validation : ValidationError → Error
  protocol : ProtocolError → Error
  io : Text → Error
  daemon : Text → Error
