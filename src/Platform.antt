-- ===== src/Platform.antt =====
-- crates/netpland/src/platform/mod.rs: the boundary between the daemon and a platform. What an
-- error says is a constructor for its wording, which a parameter renders.
pub mod Preflight
pub mod Portable
pub mod Resolve
pub mod Runtime
use netplan.Base.{ℕ, Bool, false, Option, List, Text, Result}
use netplan.Config.{InterfaceSelector}

pub data PlatformErrorKind : Type 0 where
  invalid_config unsupported permission_denied not_found internal : PlatformErrorKind

pub record PlatformError : Type 0 where
  pub kind : PlatformErrorKind
  pub message : Text
  pub rolled_back : Bool

pub record ApplyReport : Type 0 where
  pub message : Text

abbrev pub PlatformResult : Type 0 → Type 0
PlatformResult = Result PlatformError

-- The messages of mod.rs and of platform/windows.rs that the model makes.
pub data PlatformMessage : Type 0 where
  unreported_capability : (id capability : Text) → PlatformMessage
  capability_refused : (id capability reason : Text) → PlatformMessage
  several_entries : ℕ → PlatformMessage
  protected_target : ℕ → PlatformMessage
  not_native_wifi : ℕ → PlatformMessage
  no_wifi_interface several_wifi_interfaces : PlatformMessage
  no_adapter : InterfaceSelector → PlatformMessage
  ambiguous_selector : ℕ → InterfaceSelector → PlatformMessage

abbrev pub PlatformWording : Type 0
PlatformWording = PlatformMessage → Text

-- `PlatformError::new`, which `invalid_config`, `not_found` and the others call.
abbrev pub platform_error : PlatformErrorKind → Text → PlatformError
platform_error kind message = record { kind = kind; message = message; rolled_back = false }
