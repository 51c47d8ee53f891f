-- ===== src/Tests/Machines.antt =====
-- A machine with a name, a service and a clock, whose other operations fail and change nothing.
use netplan.Base.{ℕ, ◌+◌, Bool, true, false, none, some, [], ◌∷◌, Text, codes, ok, err}
use netplan.Config.{NetplanConfig, running, after_apply}
use netplan.Platform.{PlatformError, platform_error, internal}
use netplan.Platform.Resolve.{AdapterSnapshot}
use netplan.Windows.{System, Call, ComputerNameFormat, dns_hostname, dns_domain, Output}
use netplan.Windows.Calls.{fail, pure}

pub record Machine : Type 0 where
  pub name : Text
  pub active : Bool
  pub clock : ℕ

abbrev pub unavailable : PlatformError
unavailable = platform_error internal (codes "unavailable")

abbrev pub absent : {A : Type 0} → Call Machine A
absent = fail unavailable

abbrev set_name : ComputerNameFormat → Text → Call Machine (Unit {0})
set_name dns_hostname name m = (ok tt, record m { name = name })
set_name dns_domain name m = (err unavailable, m)

abbrev get_name : ComputerNameFormat → Call Machine Text
get_name dns_hostname m = (ok m.name, m)
get_name dns_domain m = (err unavailable, m)

abbrev state_of : Bool → ℕ
state_of true = 4
state_of false = 1

-- What a tool answers that ran and failed
abbrev failed_run : Output
failed_run = record { success = false; code = some 1; status = codes "1"; stdout = []; stderr = [] }

abbrev pub lan : AdapterSnapshot
lan = record {
  info = record {
    if_index = 7;
    name = codes "lan";
    description = none;
    guid = some (codes "g");
    mac_address = none;
    status = codes "up";
    hardware = true;
    ipv4 = [];
    ipv6 = [];
  };
  admin_enabled = true;
  dhcp_enabled = true;
  manual_ipv4 = [];
  gateways = [];
  dns = [];
  wins = [];
}

abbrev pub bench : System Machine
bench = record {
  debug = λ t. t;
  show_v6 = λ a. [];
  env_var = λ name. none;
  get_computer_name = get_name;
  set_computer_name = set_name;
  net_get_join_information = absent;
  set_workgroup = λ name. absent;
  enumerate_inventory = λ m. (ok (record { adapters = lan ∷ [] }), m);
  run_tool = λ tool args m. (ok failed_run, m);
  spawn_tool = λ tool args m. (ok tt, m);
  force_install_driver = λ inf id. absent;
  read_registry_text = λ key value. absent;
  set_registry_string = λ key value data_. absent;
  delete_registry_value = λ key value. absent;
  read_registry_dword = λ key value. absent;
  registry_value_has_text = λ key value. pure false;
  query_service = λ name m. (ok (state_of m.active), m);
  start_service = λ name m. (ok tt, record m { active = true });
  stop_service = λ name m. (ok tt, record m { active = false });
  now = λ m. m.clock;
  sleep = λ ms m. record m { clock = m.clock + ms };
  open_client = absent;
  interfaces = absent;
  get_profile = λ interface name. absent;
  set_profile_xml = λ interface xml. absent;
  delete_profile = λ interface name. absent;
  scan = λ interface. absent;
  current_profile = λ interface. absent;
  wlan_connect = λ interface name. absent;
  wlan_disconnect = λ interface. absent;
  account_exists = λ name. absent;
  net_user_add = λ name password. absent;
  delete_account = λ name. absent;
  capture_share = λ name. absent;
  well_known_sid = λ kind. absent;
  lookup_sid = λ name. absent;
  security_descriptor = λ grants. absent;
  net_share_add = λ name path remark security. absent;
  net_share_set_info = λ name path remark security. absent;
  net_share_set_snapshot = λ name snapshot. absent;
  set_share_security = λ name security. absent;
  delete_share = λ name. absent;
  current_mapping = λ drive. absent;
  add_connection = λ drive remote user password. absent;
  cancel_mapping = λ target. absent;
}

-- A document that renames the machine and starts its service; the hook after it fails.
abbrev pub rename : NetplanConfig
rename = record {
  version = 1;
  protect = record { management_interfaces = [] };
  identity =
      some (record { computer_name = some (codes "b"); workgroup = none; dns_suffix = none });
  adapters = [];
  wifi = [];
  wifi_actions = [];
  smb = record { accounts = []; shares = []; mappings = [] };
  firewall = none;
  services = record { name = codes "Dnscache"; state = running } ∷ [];
  drivers = [];
  hooks = record { stage = after_apply; program = codes "cmd.exe"; args = []; wait = true } ∷ [];
}

abbrev pub idle : Machine
idle = record { name = codes "a"; active = false; clock = 0 }
