-- ===== src/Windows/Tools.antt =====
-- crates/netpland/src/platform/windows/apply.rs: the tools that the backend runs, how it reports
-- their failures, and how it writes their arguments.
use netplan.Base.{
  ℕ, ◌/◌, ◌%◌, Bool, false, ◌||◌, Option, none, some, List, [], ◌∷◌, ◌++◌, map, String, Text, codes,
  is_nil, trim, ◌==◌, Result, ok, err, if◌then◌else◌,
}
use netplan.Config.{Ipv4Net}
use netplan.Plan.{decimal}
use netplan.Platform.{PlatformError, platform_error, permission_denied, not_found, internal}
use netplan.Windows.{Call, System, IoError, IoErrorKind, Output}
use netplan.Windows

-- `PlatformError::internal(…)`
abbrev pub internal_error : Text → PlatformError
internal_error = platform_error internal

abbrev pub process_error_of : Text → Text → IoErrorKind → PlatformError
process_error_of context text Windows.not_found =
    platform_error not_found (context ++ codes " executable was not found: " ++ text)
process_error_of context text Windows.permission_denied =
    platform_error permission_denied (context ++ codes " execution was denied: " ++ text)
process_error_of context text Windows.other =
    internal_error (context ++ codes " execution failed: " ++ text)

unfoldable pub process_error : Text → IoError → PlatformError
process_error context error = process_error_of context error.text error.kind

abbrev pub failed_with : Text → Text → Text
failed_with context text = context ++ codes " failed: " ++ text

-- The code of a Windows error, and how the error reads.
unfoldable pub windows_error : Text → (code : ℕ) (text : Text) → PlatformError
windows_error context code text =
    let win32 = code % 65536 in
    if win32 == 2 || win32 == 1060
    then platform_error not_found (failed_with context text)
    else if win32 == 5
    then platform_error permission_denied (failed_with context text)
    else internal_error (failed_with context text)

abbrev pub failed_with_status : Text → ℕ → Text
failed_with_status context code = context ++ codes " failed with status " ++ decimal code

unfoldable pub net_api_error : Text → ℕ → PlatformError
net_api_error context code =
    if code == 5
    then platform_error permission_denied (failed_with_status context code)
    else if code == 2 || code == 2221
    then platform_error not_found (failed_with_status context code)
    else internal_error (failed_with_status context code)

unfoldable pub registry_error : Text → ℕ → PlatformError
registry_error context code =
    if code == 2
    then platform_error not_found (failed_with_status context code)
    else if code == 5
    then platform_error permission_denied (failed_with_status context code)
    else internal_error (failed_with_status context code)

abbrev pub joined : Text → Text → Text
joined [] [] = []
joined [] (c ∷ stderr) = c ∷ stderr
joined (c ∷ stdout) [] = c ∷ stdout
joined (c ∷ stdout) (d ∷ stderr) = (d ∷ stderr) ++ codes "; " ++ c ∷ stdout

unfoldable pub tool_diagnostic : Output → Text
tool_diagnostic output = joined (trim output.stdout) (trim output.stderr)

abbrev pub tool_failed : Text → Output → PlatformError
tool_failed tool output =
    let diagnostic = tool_diagnostic output in
    let exited = tool ++ codes " exited with status " ++ output.status in
    internal_error (if is_nil diagnostic then exited else exited ++ codes ": " ++ diagnostic)

-- `Ipv4Addr::to_string` and `Ipv4Net::to_string`
unfoldable pub show_v4 : ℕ → Text
show_v4 a =
    decimal (a / 16777216)
    ++ b'.' ∷ decimal (a / 65536 % 256)
    ++ b'.' ∷ decimal (a / 256 % 256)
    ++ b'.' ∷ decimal (a % 256)

abbrev pub show_net : Ipv4Net → Text
show_net net = show_v4 net.addr ++ b'/' ∷ decimal net.prefix_len

-- The arguments of a command that are fixed.
abbrev pub words : List String → List Text
words = map codes

module _ {S : Type 0} (system : System S) where
  -- `PathBuf::join` on Windows writes a backslash between the parts.
  abbrev pub in_system_root : Text → Option Text → Text
  in_system_root name none = name
  in_system_root name (some root) = root ++ codes "\\System32\\" ++ name

  unfoldable pub system_tool : Text → Text
  system_tool name = in_system_root name (system.env_var (codes "SystemRoot"))

  abbrev pub netsh_result : Result IoError Output × S → Result PlatformError (Unit {0}) × S
  netsh_result (ok output, s) =
      (if output.success then ok tt else err (tool_failed (codes "netsh") output), s)
  netsh_result (err error, s) = (err (process_error (codes "netsh") error), s)

  unfoldable pub run_netsh : List Text → Call S (Unit {0})
  run_netsh args s = netsh_result (system.run_tool (system_tool (codes "netsh.exe")) args s)

  abbrev pub is_reboot_code : Option ℕ → Bool
  is_reboot_code none = false
  is_reboot_code (some code) = code == 3010

  -- The answer of a driver tool is the field `reboot_required` of `ToolOutcome`.
  abbrev pub pnputil_result : Result IoError Output × S → Result PlatformError Bool × S
  pnputil_result (ok output, s) = (
    if output.success || is_reboot_code output.code
        then ok (is_reboot_code output.code)
        else err (tool_failed (codes "pnputil") output),
    s,
  )
  pnputil_result (err error, s) = (err (process_error (codes "pnputil") error), s)

  unfoldable pub run_pnputil : List Text → Call S Bool
  run_pnputil args s = pnputil_result (system.run_tool (system_tool (codes "pnputil.exe")) args s)
