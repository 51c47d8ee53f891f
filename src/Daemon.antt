-- ===== src/Daemon.antt =====
-- crates/netpland/src/main.rs: the daemon's state, and what a call of it finds outside.
pub mod Jobs
pub mod Dispatch
pub mod Listing
pub mod Reordering
pub mod Table
pub mod Changes
pub mod Effects
pub mod Unordered
pub mod Steps
pub mod Finality
pub mod Draining
pub mod Calls
use netplan.Base.{ℕ, zero, suc, Bool, Option, none, some, List, min, Text, Result, Unicode}
use netplan.Error.{Error}
use netplan.Model.{AdapterInfo, Capability, WifiInterfaceStatus, WifiNetwork}
use netplan.Config.{NetplanConfig}
use netplan.Config.Parse.{Decoders}
use netplan.Plan.{Wording}
use netplan.Protocol.{JobState}
use netplan.Platform.{PlatformResult, PlatformError, ApplyReport}

pub record JobRecord : Type 0 where
  pub state : JobState
  pub message : Option Text
  pub created_at_unix_ms : ℕ  -- u64
  pub updated_at_unix_ms : ℕ  -- u64

-- A task that `tokio::spawn` has started for a live apply, and that has not yet run to its end.
pub record Task : Type 0 where
  pub job_id : Text
  pub config : NetplanConfig

-- The `jobs` of the source are a hash map: here the entries in the order of their arrival.
-- `shutdown` is what the watch channel holds.
pub record Daemon : Type 0 where
  pub jobs : List (Text × JobRecord)
  pub tasks : List Task
  pub started_at_unix_ms : ℕ  -- u64
  pub shutdown : Bool

-- What the trait `Platform` answers at the time of a call.
pub record Platform : Type 0 where
  pub capabilities : List Capability
  pub adapters : PlatformResult (List AdapterInfo)
  pub preflight : NetplanConfig → PlatformResult (Unit {0})
  pub wifi_status : Option ℕ → PlatformResult (List WifiInterfaceStatus)
  -- A blocking task, which may also be lost: then it gives the text of the join error.
  pub wifi_scan : Option ℕ → Bool → ℕ → Result Text (PlatformResult (Bool × List WifiNetwork))

-- The rest of what a call finds: the decoders, the wording of what it shows, a fresh identifier,
-- the time since the epoch in milliseconds, where the clock stands behind it, and since the start.
pub record Context : Type 0 where
  pub decoders : Decoders
  pub unicode : Unicode
  pub wording : Wording
  pub show_error : Error → Text
  pub show_platform_error : PlatformError → Text
  pub daemon_version : Text
  pub new_v4 : Text
  pub since_epoch : Option ℕ
  pub elapsed : ℕ

-- `u64::MAX` and `u32::MAX`
abbrev pub u64_max : ℕ
u64_max = 18446744073709551615

abbrev pub u32_max : ℕ
u32_max = 4294967295

unfoldable pub now_unix_ms : Option ℕ → ℕ
now_unix_ms none = 0
now_unix_ms (some duration) = min duration u64_max
