-- ===== src/Windows/Rollback.antt =====
-- crates/netpland/src/platform/windows/apply.rs: the changes that the transaction records, and how
-- each of them is undone.
use netplan.Base.{Bool, Option, none, some, List, [], ◌∷◌, ◌++◌, reverse, Text, codes, ok, err}
use netplan.Platform.{PlatformResult}
use netplan.Windows.{Call, System, dns_hostname, dns_domain}
use netplan.Windows.Calls.{◌>>◌, when}
use netplan.Windows.Network.{NetworkRestore, set_adapter_enabled, restart_adapter}
use netplan.Windows.Restore.{restore_network}
use netplan.Windows.Services.{FirewallRestore, set_service_running, restore_firewall}
use netplan.Windows.Wifi.{WifiRollback, execute_wifi}
use netplan.Windows.Shares.{SmbRollback, execute_smb}

pub data RollbackAction : Type 0 where
  computer_name workgroup dns_suffix : Text → RollbackAction
  adapter_state : (name : Text) (enabled : Bool) → RollbackAction
  adapter_ipv4 : NetworkRestore → RollbackAction
  adapter_mac :
      (key : Text) (previous : Option Text) (name : Text) (restart : Bool) → RollbackAction
  firewall : FirewallRestore → RollbackAction
  service : (name : Text) (running : Bool) → RollbackAction
  wifi : WifiRollback → RollbackAction
  smb : SmbRollback → RollbackAction

abbrev pub network_address : Text
network_address = codes "NetworkAddress"

abbrev pub complaint : PlatformResult (Unit {0}) → List Text
complaint (ok undone) = []
complaint (err error) = (codes "rollback failed: " ++ error.message) ∷ []

module _ {S : Type 0} (system : System S) where
  abbrev pub write_back : Text → Option Text → Call S (Unit {0})
  write_back key (some value) = system.set_registry_string key network_address value
  write_back key none = system.delete_registry_value key network_address

  unfoldable pub execute : RollbackAction → Call S (Unit {0})
  execute (computer_name value) = system.set_computer_name dns_hostname value
  execute (workgroup value) = system.set_workgroup value
  execute (dns_suffix value) = system.set_computer_name dns_domain value
  execute (adapter_state name enabled) = set_adapter_enabled system name enabled
  execute (adapter_ipv4 restore) = restore_network system restore
  execute (adapter_mac key previous name restart) = do
    write_back key previous
    when restart (restart_adapter system name)
  execute (firewall restore) = restore_firewall system restore
  execute (service name running) = set_service_running system name running
  execute (wifi action) = execute_wifi system action
  execute (smb action) = execute_smb system action

  -- Every action in the order given, whatever fails, with the complaints.
  abbrev pub execute_all : List RollbackAction → S → List Text × S
  execute_all [] s = ([], s)
  execute_all (action ∷ actions) s =
      let (result, s') = execute action s in
      let (complaints, s'') = execute_all actions s' in (complaint result ++ complaints, s'')

  unfoldable pub rollback_all : List RollbackAction → S → List Text × S
  rollback_all rollback = execute_all (reverse rollback)
