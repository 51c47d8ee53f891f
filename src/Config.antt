-- ===== src/Config.antt =====
-- crates/netplan/src/config.rs: the configuration document. The proofs and the operations on it
-- are in the modules below.
pub mod Checks
pub mod Protect
pub mod Smb
pub mod Validate
pub mod Parse
pub mod Accepted
pub mod Unique
pub mod Mac
pub mod Protection
pub mod Matchers
pub mod Disjoint
pub mod References
use netplan.Base.{ℕ, Bool, true, Option, List, Text}

pub data ConfigFormat : Type 0 where
  auto yaml json : ConfigFormat

pub record InterfaceSelector : Type 0 where
  pub if_index : Option ℕ
  pub name : Option Text
  pub guid : Option Text
  pub mac_address : Option Text
  pub description_contains : Option Text

pub record ProtectionConfig : Type 0 where
  pub management_interfaces : List InterfaceSelector

pub record IdentityConfig : Type 0 where
  pub computer_name : Option Text
  pub workgroup : Option Text
  pub dns_suffix : Option Text

-- An `Ipv4Addr` is its number of 32 bits, and an `Ipv6Addr` its number of 128 bits.
pub data IpAddr : Type 0 where
  v4 v6 : ℕ → IpAddr

pub record Ipv4Net : Type 0 where
  pub addr : ℕ
  pub prefix_len : ℕ

pub data Ipv4Config : Type 0 where
  dhcp : (dns_from_dhcp : Bool) → Ipv4Config
  static :
      (addresses : List Ipv4Net) (gateways : List ℕ) (dns : List IpAddr) (wins : List ℕ)
      → Ipv4Config

pub record AdapterConfig : Type 0 where
  pub selector : InterfaceSelector
  pub enabled : Option Bool
  pub mac_address : Option Text
  pub ipv4 : Option Ipv4Config

pub data WifiAuthentication : Type 0 where
  open_network wpa2_personal wpa3_personal : WifiAuthentication

pub data SecretRef : Type 0 where
  env literal : Text → SecretRef

pub record WifiProfile : Type 0 where
  pub selector : Option InterfaceSelector
  pub name : Option Text
  pub ssid : Text
  pub authentication : WifiAuthentication
  pub psk : Option SecretRef
  pub auto_connect : Bool
  pub hidden : Bool

pub data WifiAction : Type 0 where
  scan : (selector : Option InterfaceSelector) → WifiAction
  connect : (selector : Option InterfaceSelector) (profile : Text) → WifiAction
  disconnect : (selector : Option InterfaceSelector) → WifiAction

pub data SmbAccountKind : Type 0 where
  credential local : SmbAccountKind

pub record SmbAccount : Type 0 where
  pub id : Text
  pub kind : SmbAccountKind
  pub username : Text
  pub password : Option SecretRef

pub record SmbShare : Type 0 where
  pub name : Text
  pub path : Text
  pub description : Option Text
  pub read_only : Bool
  pub accounts : List Text

pub record SmbMapping : Type 0 where
  pub remote : Text
  pub drive : Option Text  -- the field `local`
  pub account : Option Text
  pub username : Option Text
  pub password : Option SecretRef

pub record SmbConfig : Type 0 where
  pub accounts : List SmbAccount
  pub shares : List SmbShare
  pub mappings : List SmbMapping

pub record FirewallConfig : Type 0 where
  pub enabled : Bool

pub data ServiceState : Type 0 where
  running stopped : ServiceState

pub record ServiceConfig : Type 0 where
  pub name : Text
  pub state : ServiceState

pub data RestartPolicy : Type 0 where
  never if_required always : RestartPolicy

pub data DriverOperation : Type 0 where
  install :
      (inf_path : Text) (hardware_id : Option Text) (force : Bool) (restart : RestartPolicy)
      → DriverOperation
  restart_adapter : (selector : InterfaceSelector) → DriverOperation

pub data HookStage : Type 0 where
  before_apply after_apply after_rollback : HookStage

pub record HookConfig : Type 0 where
  pub stage : HookStage
  pub program : Text
  pub args : List Text
  pub wait : Bool

pub record NetplanConfig : Type 0 where
  pub version : ℕ
  pub protect : ProtectionConfig
  pub identity : Option IdentityConfig
  pub adapters : List AdapterConfig
  pub wifi : List WifiProfile
  pub wifi_actions : List WifiAction
  pub smb : SmbConfig
  pub firewall : Option FirewallConfig
  pub services : List ServiceConfig
  pub drivers : List DriverOperation
  pub hooks : List HookConfig
