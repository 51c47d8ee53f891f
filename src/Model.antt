-- ===== src/Model.antt =====
-- crates/netplan/src/model.rs: what the daemon reports.
use netplan.Base.{ℕ, Bool, Option, List, Text}

pub data CapabilityState : Type 0 where
  unavailable read_only dry_run available : CapabilityState

pub record Capability : Type 0 where
  pub name : Text
  pub state : CapabilityState
  pub reason : Option Text

pub record IpAddressInfo : Type 0 where
  pub address : Text
  pub prefix_length : ℕ  -- u8

pub record AdapterInfo : Type 0 where
  pub if_index : ℕ  -- u32
  pub name : Text
  pub description : Option Text
  pub guid : Option Text
  pub mac_address : Option Text
  pub status : Text
  pub hardware : Bool
  pub ipv4 : List IpAddressInfo
  pub ipv6 : List IpAddressInfo

pub record WifiInterfaceStatus : Type 0 where
  pub if_index : ℕ  -- u32
  pub name : Text
  pub guid : Option Text
  pub state : Text
  pub profile_name : Option Text
  pub ssid : Option Text
  pub ssid_hex : Option Text
  pub signal_quality : Option ℕ  -- u8
  pub security_enabled : Option Bool
  pub authentication : Option Text
  pub cipher : Option Text
  pub rx_rate_kbps : Option ℕ  -- u32
  pub tx_rate_kbps : Option ℕ  -- u32

pub record WifiNetwork : Type 0 where
  pub interface_if_index : ℕ  -- u32
  pub interface_name : Text
  pub ssid : Text
  pub ssid_hex : Text
  pub profile_name : Option Text
  pub signal_quality : ℕ  -- u8
  pub security_enabled : Bool
  pub authentication : Text
  pub cipher : Text
  pub connectable : Bool
  pub not_connectable_reason : Option ℕ  -- u32
  pub connected : Bool
  pub bss_count : ℕ  -- u32
