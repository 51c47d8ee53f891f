-- ===== src/Plan.antt =====
-- crates/netplan/src/plan.rs: the parts of a plan of a configuration. Identifiers, capabilities and
-- targets are texts; what a summary says is a constructor for its wording, which a parameter renders.
pub mod Operations
pub mod Decimal
pub mod Order
pub mod Parts
pub mod Loops
pub mod Capabilities
pub mod Unique
use mathlib.Core.Option
use netplan.Base.{
  ℕ, zero, suc, ◌+◌, ◌/◌, ◌%◌, ◌==◌, Bool, true, false, Option, none, some, List, [], ◌∷◌, ◌++◌,
  if◌then◌else◌, Text, codes,
}
use netplan.Config.{
  NetplanConfig, InterfaceSelector, IdentityConfig, AdapterConfig, Ipv4Config, WifiProfile,
  WifiAction, scan, connect, disconnect, SmbAccount, SmbAccountKind, local, credential, SmbShare,
  SmbMapping, FirewallConfig, ServiceConfig, ServiceState, running, stopped, RestartPolicy,
  DriverOperation, install, restart_adapter, HookConfig, HookStage, before_apply, after_apply,
  after_rollback,
}
use netplan.Config.Checks.{wifi_profile_name}

pub data OperationRisk : Type 0 where
  read_only low connectivity destructive : OperationRisk

pub data Summary : Type 0 where
  set_identity : (field value : Text) → Summary
  set_enabled : Bool → Summary
  set_mac : Text → Summary
  set_ipv4 : Ipv4Config → Summary
  install_profile : (name ssid : Text) → Summary
  scan_networks disconnect_wifi restart_network_adapter : Summary
  connect_profile : Text → Summary
  set_service : ServiceState → Text → Summary
  ensure_account : (id username : Text) → Summary
  share_path : (path name : Text) → Summary
  map_share : Text → Summary
  set_firewall : Bool → Summary
  install_driver : (inf_path : Text) (force : Bool) (restart : RestartPolicy) → Summary
  execute_hook : Text → HookStage → Summary

pub record Operation : Type 0 where
  pub id : Text
  pub capability : Text
  pub summary : Text
  pub risk : OperationRisk
  pub target : Option Text

-- The wording of a summary, and the quoted form of a text, `{text:?}`.
pub record Wording : Type 0 where
  pub summary : Summary → Text
  pub debug : Text → Text

-- The decimal digits of an index, `{index}` in a format string.
digits_from : ℕ → ℕ → Text → Text
digits_from zero n rest = rest
digits_from (suc fuel) n rest =
    let more = digits_from fuel (n / 10) ((b'0' + n % 10) ∷ rest) in
    if n / 10 == 0 then (b'0' + n % 10) ∷ rest else more

-- A number has no more digits than its size, so that the fuel is enough.
unfoldable pub decimal : ℕ → Text
unfolding digits_from
decimal n = digits_from (suc n) n []

-- `for (index, x) in xs.iter().enumerate() { … }`, each round giving the operations that it pushes.
abbrev pub indexed {ℓ} : {A : Type ℓ} → (ℕ → A → List Operation) → ℕ → List A → List Operation
indexed f i [] = []
indexed f i (x ∷ xs) = f i x ++ indexed f (suc i) xs

-- `if let Some(x) = value { … }`
abbrev pub when_some {ℓ} : {A : Type ℓ} → (A → List Operation) → Option A → List Operation
when_some f none = []
when_some f (some a) = f a
