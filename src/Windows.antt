-- ===== src/Windows.antt =====
-- crates/netpland/src/platform/windows: the backend that changes a Windows machine. What Windows
-- does is a parameter, `System`: a call takes the machine's state and leaves another one.
pub mod Calls
pub mod Tools
pub mod Network
pub mod Ipv4
pub mod Restore
pub mod Services
pub mod Wifi
pub mod Shares
pub mod Rollback
pub mod Reversible
pub mod Transaction
pub mod Unwinding
pub mod Claims
pub mod Safety
pub mod Waiting
pub mod Verified
pub mod Radio
pub mod Scans
pub mod Ranking
pub mod Sorted
pub mod Requests
pub mod Backend
pub mod Accepted
pub mod Xml
pub mod Pieces
pub mod Keys
pub mod Described
use netplan.Base.{ℕ, Bool, Option, List, Text, Result, ok, err}
use netplan.Platform.{PlatformResult, PlatformError}
use netplan.Platform.Resolve.{AdapterInventory, Interface}

-- A function that reads and changes a state, and may fail: what it changed stays changed.
abbrev pub Call : Type 0 → Type 0 → Type 0
Call S A = S → PlatformResult A × S

-- `std::io::Error`: its kind and its text.
pub data IoErrorKind : Type 0 where
  not_found permission_denied other : IoErrorKind

pub record IoError : Type 0 where
  pub kind : IoErrorKind
  pub text : Text

-- `std::process::Output`: whether its status is a success, its code where it has one, and how the
-- status reads; the streams after `from_utf8_lossy`.
pub record Output : Type 0 where
  pub success : Bool
  pub code : Option ℕ
  pub status : Text
  pub stdout : Text
  pub stderr : Text

pub data ComputerNameFormat : Type 0 where
  dns_hostname dns_domain : ComputerNameFormat

-- The join state that `NetGetJoinInformation` reports.
pub data JoinStatus : Type 0 where
  workgroup_joined other_status : JoinStatus

-- A security identifier, by its bytes, and what an entry of an access list grants to it.
abbrev pub Sid : Type 0
Sid = List ℕ

pub data WellKnownSid : Type 0 where
  world builtin_administrators : WellKnownSid

pub data Access : Type 0 where
  generic_read generic_all : Access

-- A share of level 502, what `capture_share` keeps of it.
pub record ShareSnapshot : Type 0 where
  pub share_type : ℕ
  pub remark : Option Text
  pub permissions : ℕ
  pub max_uses : ℕ
  pub path : Text
  pub password : Option Text
  pub security_descriptor : List ℕ

-- The operations of Windows that the backend calls. A function of the source that only wraps one
-- Windows call, with the conversion of its error, stands for that call.
pub record System (S : Type 0) : Type 0 where
  -- `{text:?}`, and the text of an `Ipv6Addr`
  pub debug : Text → Text
  pub show_v6 : ℕ → Text
  -- `std::env::var`
  pub env_var : Text → Option Text
  pub get_computer_name : ComputerNameFormat → Call S Text
  pub set_computer_name : ComputerNameFormat → Text → Call S (Unit {0})
  pub net_get_join_information : Call S (Text × JoinStatus)
  pub set_workgroup : Text → Call S (Unit {0})
  -- `Err` is the text of the error.
  pub enumerate_inventory : S → Result Text AdapterInventory × S
  -- `Command::new(tool).args(…)`: run to the end, or only started
  pub run_tool : Text → List Text → S → Result IoError Output × S
  pub spawn_tool : Text → List Text → S → Result IoError (Unit {0}) × S
  pub force_install_driver : Text → Text → Call S Bool
  pub read_registry_text : Text → Text → Call S (Option Text)
  pub set_registry_string : Text → Text → Text → Call S (Unit {0})
  pub delete_registry_value : Text → Text → Call S (Unit {0})
  pub read_registry_dword : Text → Text → Call S ℕ
  -- `registry_value_has_text`, for a string and for a list of strings
  pub registry_value_has_text : Text → Text → Call S Bool
  -- a service, opened by its name
  pub query_service : Text → Call S ℕ
  pub start_service : Text → Call S (Unit {0})
  pub stop_service : Text → Call S (Unit {0})
  -- `Instant::now`, and `thread::sleep`, in milliseconds
  pub now : S → ℕ
  pub sleep : ℕ → S → S
  -- `wifi::Client`
  pub open_client : Call S (Unit {0})
  pub interfaces : Call S (List Interface)
  pub get_profile : ℕ → Text → Call S (Option Text)
  pub set_profile_xml : ℕ → Text → Call S (Unit {0})
  pub delete_profile : ℕ → Text → Call S (Unit {0})
  pub scan : ℕ → Call S (Unit {0})
  pub current_profile : ℕ → Call S (Option Text)
  pub wlan_connect : ℕ → Text → Call S (Unit {0})
  -- whether the interface was connected: else the state is `ERROR_INVALID_STATE`
  pub wlan_disconnect : ℕ → Call S Bool
  -- accounts, shares and mappings
  pub account_exists : Text → Call S Bool
  pub net_user_add : Text → Text → Call S (Unit {0})
  pub delete_account : Text → Call S (Unit {0})
  pub capture_share : Text → Call S (Option ShareSnapshot)
  pub well_known_sid : WellKnownSid → Call S Sid
  pub lookup_sid : Text → Call S Sid
  -- the security descriptor of a list of grants
  pub security_descriptor : List (Sid × Access) → Call S (List ℕ)
  pub net_share_add : (name path : Text) → Option Text → List ℕ → Call S (Unit {0})
  pub net_share_set_info : (name path : Text) → Option Text → List ℕ → Call S (Unit {0})
  pub net_share_set_snapshot : Text → ShareSnapshot → Call S (Unit {0})
  pub set_share_security : Text → List ℕ → Call S (Unit {0})
  pub delete_share : Text → Call S (Unit {0})
  pub current_mapping : Text → Call S (Option Text)
  pub add_connection : Option Text → Text → (user password : Option Text) → Call S (Unit {0})
  pub cancel_mapping : Text → Call S (Unit {0})
