-- ===== src/Output/Render.antt =====
-- crates/netplan-cli/src/output.rs: the answers of the daemon as text for a reader, or as JSON.
use netplan.Base.{
  ℕ, ◌+◌, ◌-◌, ◌/◌, ◌%◌, ◌==◌, leb, ltb, min, Bool, true, false, not, Option, none, some, List, [],
  ◌∷◌, ◌++◌, map, length, replicate, is_nil, if◌then◌else◌, Text, codes, split,
}
use netplan.Model
use netplan.Model.{
  AdapterInfo, Capability, CapabilityState, IpAddressInfo, WifiInterfaceStatus, WifiNetwork,
}
use netplan.Plan
use netplan.Plan.{decimal, Operation, OperationRisk}
use netplan.Protocol.{JobState, queued, running, succeeded, failed, rolled_back, ValidationIssue}
use netplan.Output.{human_output_width, clean_cell, wrap_text}

-- `parts.join(separator)`
abbrev pub join : Text → List Text → Text
join separator [] = []
join separator (part ∷ []) = part
join separator (part ∷ next ∷ parts) = part ++ (separator ++ join separator (next ∷ parts))

-- `{text:<width$}`
abbrev pub pad : ℕ → Text → Text
pad width text = text ++ replicate (width - length text) 32

abbrev pub max : ℕ → ℕ → ℕ
max a b = if leb a b then b else a

abbrev pub largest : List ℕ → ℕ
largest [] = 0
largest (n ∷ ns) = max n (largest ns)

-- `str::lines`: a carriage return goes only with the line feed behind it.
abbrev pub without_end : Text → Text
without_end [] = []
without_end (c ∷ []) = if c == 13 then [] else c ∷ []
without_end (c ∷ d ∷ s) = c ∷ without_end (d ∷ s)

abbrev pub without_last : List Text → List Text
without_last [] = []
without_last (line ∷ []) = if is_nil line then [] else line ∷ []
without_last (line ∷ next ∷ lines) = without_end line ∷ without_last (next ∷ lines)

abbrev pub lines_of : Text → List Text
lines_of text = without_last (split 10 text)

abbrev pub newline : Text
newline = 10 ∷ []

abbrev prefixed : Text → Text → List Text → Text
prefixed first continuation [] = []
prefixed first continuation (line ∷ lines) =
    first ++ (line ++ prefixed continuation continuation lines)

-- What `push_wrapped_lines` adds to the output
unfoldable pub push_wrapped_lines : Text → Text → Text → ℕ → Text
push_wrapped_lines value first_prefix continuation prefix_width =
    prefixed first_prefix continuation
      (wrap_text value (max (human_output_width - prefix_width) 20))

abbrev pub key_value : ℕ → Text × Text → Text
key_value width (key, value) =
    let first_prefix = newline ++ (codes "  " ++ (pad width key ++ codes "  ")) in
    push_wrapped_lines value first_prefix (newline ++ (codes "  " ++ (pad width [] ++ codes "  ")))
      (length first_prefix - 1)

abbrev pub concat : List Text → Text
concat [] = []
concat (text ∷ texts) = text ++ concat texts

unfoldable pub key_values : Text → List (Text × Text) → Text
key_values title values =
    let width = largest (map (λ (p : Text × Text). length p.0) values) in
    title ++ concat (map (key_value width) values)

-- `record`
unfoldable pub record_text : Text → List (Text × Text) → Text
record_text title values =
    key_values (join newline (wrap_text (clean_cell title) (human_output_width - 2))) values

abbrev pub indented : Text → Text
indented text = join newline (map (λ line. codes "  " ++ line) (lines_of text))

unfoldable pub record_list : Text → List Text → Text → Text
record_list title [] empty = title ++ (newline ++ (codes "  " ++ empty))
record_list title (first ∷ records) empty =
    title ++ concat (map (λ text. newline ++ (newline ++ indented text)) (first ∷ records))

-- `title (count)`
abbrev pub counted : Text → ℕ → Text
counted title count = title ++ (codes " (" ++ (decimal count ++ codes ")"))

unfoldable pub option_text : Option Text → Text
option_text none = codes "-"
option_text (some value) = if is_nil value then codes "-" else value

unfoldable pub yes_no : Bool → Text
yes_no value = if value then codes "yes" else codes "no"

unfoldable pub capability_state_name : CapabilityState → Text
capability_state_name Model.unavailable = codes "unavailable"
capability_state_name Model.read_only = codes "read-only"
capability_state_name Model.dry_run = codes "dry-run"
capability_state_name Model.available = codes "available"

unfoldable pub job_state_name : JobState → Text
job_state_name queued = codes "queued"
job_state_name running = codes "running"
job_state_name succeeded = codes "succeeded"
job_state_name failed = codes "failed"
job_state_name rolled_back = codes "rolled-back"

unfoldable pub operation_risk_name : OperationRisk → Text
operation_risk_name Plan.read_only = codes "read-only"
operation_risk_name Plan.low = codes "low"
operation_risk_name Plan.connectivity = codes "connectivity"
operation_risk_name Plan.destructive = codes "destructive"

abbrev when_positive : ℕ → Text → List Text
when_positive n unit = if ltb 0 n then (decimal n ++ unit) ∷ [] else []

unfoldable pub format_duration : ℕ → Text
format_duration milliseconds =
    let total_seconds = milliseconds / 1000 in
    let parts =
      when_positive (total_seconds / 86400) (codes "d")
      ++ (when_positive (total_seconds % 86400 / 3600) (codes "h")
          ++ when_positive (total_seconds % 3600 / 60) (codes "m")) in
    let seconds = total_seconds % 60 in
    if ltb milliseconds 1000
    then decimal milliseconds ++ codes " ms"
    else join (codes " ") (
        if ltb 0 seconds
        then parts ++ (decimal seconds ++ codes "s") ∷ []
        else if is_nil parts
        then (decimal seconds ++ codes "s") ∷ []
        else parts)

abbrev format_address : IpAddressInfo → Text
format_address address = address.address ++ (codes "/" ++ decimal address.prefix_length)

unfoldable pub format_addresses : List IpAddressInfo → Text
format_addresses addresses =
    if is_nil addresses then codes "-" else join newline (map format_address addresses)

abbrev or_text : Text → Option Text → Text
or_text default none = default
or_text default (some text) = text

unfoldable pub wifi_security : Option Bool → Option Text → Option Text → Text
wifi_security none authentication cipher = codes "-"
wifi_security (some false) authentication cipher = codes "open"
wifi_security (some true) authentication cipher =
    or_text (codes "secured") authentication ++ (codes "/" ++ or_text (codes "unknown") cipher)

abbrev rate_text : Option ℕ → Text
rate_text none = codes "-"
rate_text (some value) = decimal value

unfoldable pub wifi_rates : Option ℕ → Option ℕ → Text
wifi_rates none none = codes "-"
wifi_rates rx tx = rate_text rx ++ (codes "/" ++ (rate_text tx ++ codes " kbps"))

abbrev reason_lines : Option Text → Text
reason_lines none = []
reason_lines (some reason) =
    if is_nil reason
    then []
    else push_wrapped_lines reason (newline ++ codes "    ") (newline ++ codes "    ") 4

abbrev capability_line : ℕ → Capability → Text
capability_line width capability =
    newline
    ++ (codes "  "
        ++ (pad width (clean_cell capability.name)
            ++ (codes "  "
                ++ (capability_state_name capability.state ++ reason_lines capability.reason))))

unfoldable pub render_capabilities : List Capability → Text
render_capabilities [] =
    codes "Capabilities (0)" ++ (newline ++ codes "  No capabilities reported.")
render_capabilities (first ∷ rest) =
    let capabilities = first ∷ rest in
    let width = min (largest (map (λ (c : Capability). length c.name) capabilities)) 36 in
    counted (codes "Capabilities") (length capabilities)
    ++ concat (map (capability_line width) capabilities)

-- `[index] name`
abbrev indexed : ℕ → Text → Text
indexed if_index name = codes "[" ++ (decimal if_index ++ (codes "] " ++ name))

abbrev adapter_record : AdapterInfo → Text
adapter_record adapter = record_text (indexed adapter.if_index adapter.name) (
    (codes "Status", adapter.status)
    ∷ (codes "Kind", if adapter.hardware then codes "physical" else codes "virtual")
    ∷ (codes "MAC", option_text adapter.mac_address)
    ∷ (codes "IPv4", format_addresses adapter.ipv4)
    ∷ (codes "IPv6", format_addresses adapter.ipv6)
    ∷ (codes "Description", option_text adapter.description)
    ∷ [])

unfoldable pub render_adapters : List AdapterInfo → Text
render_adapters adapters =
    record_list (counted (codes "Adapters") (length adapters)) (map adapter_record adapters)
      (codes "No adapters reported.")

abbrev percent : ℕ → Text
percent signal = decimal signal ++ codes "%"

abbrev signal_text : Option ℕ → Text
signal_text none = codes "-"
signal_text (some signal) = percent signal

abbrev wifi_interface_record : WifiInterfaceStatus → Text
wifi_interface_record interface = record_text (indexed interface.if_index interface.name) (
    (codes "State", interface.state)
    ∷ (codes "SSID", option_text interface.ssid)
    ∷ (codes "Signal", signal_text interface.signal_quality)
    ∷ (
      codes "Security",
      wifi_security interface.security_enabled interface.authentication interface.cipher,
    )
    ∷ (codes "Profile", option_text interface.profile_name)
    ∷ (codes "RX/TX", wifi_rates interface.rx_rate_kbps interface.tx_rate_kbps)
    ∷ [])

unfoldable pub render_wifi_interfaces : List WifiInterfaceStatus → Text
render_wifi_interfaces interfaces =
    record_list (counted (codes "Wi-Fi interfaces") (length interfaces))
      (map wifi_interface_record interfaces) (codes "No Wi-Fi interfaces reported.")

abbrev flag : Bool → Text → List Text
flag set name = if set then name ∷ [] else []

abbrev is_some : {A : Type 0} → Option A → Bool
is_some none = false
is_some (some a) = true

abbrev network_flags : WifiNetwork → List Text
network_flags network =
    flag network.connected (codes "connected")
    ++ (flag (is_some network.profile_name) (codes "saved")
        ++ flag (not network.connectable) (codes "blocked"))

abbrev network_record : WifiNetwork → Text
network_record network =
    record_text (if is_nil network.ssid then codes "<hidden network>" else network.ssid) (
      (codes "Signal", percent network.signal_quality)
      ∷ (
        codes "Security",
        if network.security_enabled
            then network.authentication ++ (codes "/" ++ network.cipher)
            else codes "open",
      )
      ∷ (
        codes "Interface",
        network.interface_name ++ (codes " [" ++ (decimal network.interface_if_index ++ codes "]")),
      )
      ∷ (
        codes "Flags",
        if is_nil (network_flags network)
            then codes "-"
            else join (codes ", ") (network_flags network),
      )
      ∷ [])

abbrev blank_line : Text
blank_line = newline ++ newline

unfoldable pub render_wifi_networks : Bool → List WifiNetwork → Text
render_wifi_networks refreshed networks =
    key_values (codes "Wi-Fi networks") (
      (codes "Scan refreshed", yes_no refreshed)
      ∷ (codes "Networks", decimal (length networks))
      ∷ [])
    ++ (blank_line
        ++ record_list (codes "Network details") (map network_record networks)
            (codes "No Wi-Fi networks reported."))

abbrev issue_record : ValidationIssue → Text
issue_record issue =
    record_text (or_text (codes "<document>") issue.path) ((codes "Message", issue.message) ∷ [])

unfoldable pub render_validation : Bool → List ValidationIssue → Text
render_validation true issues =
    key_values (codes "Configuration validation")
      ((codes "Status", codes "valid") ∷ (codes "Issues", codes "0") ∷ [])
render_validation false issues =
    key_values (codes "Configuration validation")
      ((codes "Status", codes "invalid") ∷ (codes "Issues", decimal (length issues)) ∷ [])
    ++ (blank_line
        ++ record_list (codes "Diagnostics") (map issue_record issues)
            (codes "No diagnostics reported."))

abbrev operation_record : ℕ → Operation → Text
operation_record number operation =
    record_text (decimal number ++ (codes ". " ++ operation.summary)) (
      (codes "Risk", operation_risk_name operation.risk)
      ∷ (codes "Capability", operation.capability)
      ∷ (codes "Target", option_text operation.target)
      ∷ [])

-- `enumerate`, from the number of the first
abbrev numbered : ℕ → List Operation → List Text
numbered number [] = []
numbered number (operation ∷ operations) =
    operation_record number operation ∷ numbered (number + 1) operations

unfoldable pub render_operations : Text → List Operation → Text
render_operations title operations =
    record_list (counted title (length operations)) (numbered 1 operations)
      (codes "No operations required.")
