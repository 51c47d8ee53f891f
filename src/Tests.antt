-- ===== src/Tests.antt =====
-- Runs of the model on concrete inputs, and the data that they share.
mod Configs
mod Matchers
mod Plans
mod Frames
mod Jobs
mod Clients
mod Machines
mod Scanning
mod Gateways
mod Consoles
mod Orders
mod Profiles
mod Transactions
mod Elevations
mod Preflights
use netplan.Base.{
  ℕ, ◌+◌, ◌-◌, between, if◌then◌else◌, true, false, none, some, List, [], ◌∷◌, map, refl, Text,
  codes, Unicode,
}
use netplan.Config.{
  NetplanConfig, InterfaceSelector, AdapterConfig, dhcp, WifiProfile, wpa2_personal, literal,
  WifiAction, connect, SmbAccount, local, SmbShare, SmbMapping, FirewallConfig, ServiceConfig,
  running, restart_adapter, HookConfig, after_apply,
}
use netplan.Plan.{Wording}
use netplan.Platform.{PlatformWording}

abbrev pub lower : ℕ → ℕ
lower c = if between b'A' b'Z' c then c + 32 else c

abbrev pub ascii : Unicode
ascii = record {
  to_lowercase = map lower;
  to_uppercase = λ c. (if between b'a' b'z' c then c - 32 else c) ∷ [];
  ascii_uppercase = λ c h. refl;
}

abbrev pub wording : Wording
wording = record { summary = λ s. codes "summary"; debug = λ t. t }

abbrev pub say : PlatformWording
say m = codes "refused"

abbrev pub by_index : ℕ → InterfaceSelector
by_index i = record {
  if_index = some i;
  name = none;
  guid = none;
  mac_address = none;
  description_contains = none;
}

-- A document that uses most of the sections.
abbrev pub office : NetplanConfig
office = record {
  version = 1;
  protect = record { management_interfaces = by_index 3 ∷ [] };
  identity = none;
  adapters =
      record {
        selector = by_index 7;
        enabled = some true;
        mac_address = some (codes "02-11-22-33-44-55");
        ipv4 = some (dhcp true);
      }
      ∷ [];
  wifi =
      record {
        selector = some (by_index 9);
        name = none;
        ssid = codes "lab";
        authentication = wpa2_personal;
        psk = some (literal (codes "correct horse"));
        auto_connect = true;
        hidden = false;
      }
      ∷ [];
  wifi_actions = connect none (codes "lab") ∷ [];
  smb = record {
    accounts =
        record {
          id = codes "a";
          kind = local;
          username = codes "guest";
          password = some (literal (codes "pw"));
        }
        ∷ [];
    shares =
        record {
          name = codes "out";
          path = codes "X:\\out";
          description = none;
          read_only = true;
          accounts = codes "A" ∷ [];
        }
        ∷ [];
    mappings = [];
  };
  firewall = some (record { enabled = true });
  services = record { name = codes "Dnscache"; state = running } ∷ [];
  drivers = restart_adapter (by_index 7) ∷ [];
  hooks = record { stage = after_apply; program = codes "cmd.exe"; args = []; wait = true } ∷ [];
}
