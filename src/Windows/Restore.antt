-- ===== src/Windows/Restore.antt =====
-- crates/netpland/src/platform/windows/apply.rs: `NetworkRestore`, which captures how an adapter is
-- configured and puts it back.
use netplan.Base.{
  ℕ, ◌==◌, Bool, true, false, not, ◌&&◌, ◌||◌, [], ◌∷◌, ◌++◌, map, any, all, keep, is_nil, Text,
  codes, text_eq, if◌then◌else◌,
}
use netplan.Model.{IpAddressInfo}
use netplan.Config.{Ipv4Config, dhcp, static, Ipv4Net}
use netplan.Plan.{decimal}
use netplan.Platform.{platform_error, invalid_config}
use netplan.Platform.Resolve.{AdapterSnapshot}
use netplan.Windows.{Call, System}
use netplan.Windows.Calls.{pure, fail, ◌>>=◌, ◌>>◌, when, each, or_fail}
use netplan.Windows.Tools.{internal_error, show_v4}
use netplan.Windows.Network.{
  NetworkRestore, list_eq, ip_eq, skip1, first_or, first, set_primary_address, add_address,
  add_gateway, delete_address, delete_gateway, inventory_or, adapter_with, has_address, has_gateway,
  set_dns, set_wins, set_address_from_dhcp,
}

-- `a == b` and `a != b` on Booleans
abbrev pub same : Bool → Bool → Bool
same true b = b
same false b = not b

-- The derived equality of `IpAddressInfo`
abbrev pub address_eq : IpAddressInfo → IpAddressInfo → Bool
address_eq a b = text_eq a.address b.address && a.prefix_length == b.prefix_length

-- `current.manual_ipv4 == desired.manual_ipv4`
unfoldable pub manual_snapshot_matches : AdapterSnapshot → AdapterSnapshot → Bool
manual_snapshot_matches current desired = list_eq address_eq current.manual_ipv4 desired.manual_ipv4

abbrev pub gateways_match : AdapterSnapshot → AdapterSnapshot → Bool
gateways_match current desired = list_eq (λ a b. a == b) current.gateways desired.gateways

abbrev pub dns_match : AdapterSnapshot → AdapterSnapshot → Bool
dns_match current desired = list_eq ip_eq current.dns desired.dns

abbrev pub wins_match : AdapterSnapshot → AdapterSnapshot → Bool
wins_match current desired = list_eq (λ a b. a == b) current.wins desired.wins

unfoldable pub record_targets : NetworkRestore → Ipv4Config → NetworkRestore
record_targets restore (dhcp dns_from_dhcp) = restore
record_targets restore (static addresses gateways dns wins) = record restore {
  applied_addresses =
      keep
        (λ address. not (
          any (λ (existing : IpAddressInfo). text_eq existing.address (show_v4 address))
            restore.snapshot.manual_ipv4))
        (map (λ (net : Ipv4Net). net.addr) addresses);
  applied_gateways =
      keep (λ gateway. not (any (λ g. g == gateway) restore.snapshot.gateways)) gateways;
}

-- The state of an adapter, with the sources of its servers, as `verify_restored` compares it.
unfoldable pub restored_matches : NetworkRestore → NetworkRestore → Bool
unfolding manual_snapshot_matches
restored_matches captured current =
    same current.snapshot.dhcp_enabled captured.snapshot.dhcp_enabled
    && (if is_nil captured.snapshot.manual_ipv4
        then all (λ address. not (has_address (show_v4 address) current.snapshot))
            captured.applied_addresses
        else manual_snapshot_matches current.snapshot captured.snapshot
          && gateways_match current.snapshot captured.snapshot)
    && (same current.dns_from_dhcp captured.dns_from_dhcp
        && (captured.dns_from_dhcp || dns_match current.snapshot captured.snapshot))
    && (same current.wins_from_dhcp captured.wins_from_dhcp
        && (captured.wins_from_dhcp || wins_match current.snapshot captured.snapshot))

-- `format!("{}/{}", address.address, address.prefix_length)`
abbrev shown : IpAddressInfo → Text
shown address = address.address ++ b'/' ∷ decimal address.prefix_length

module _ {S : Type 0} (system : System S) where
  unfoldable pub capture : AdapterSnapshot → Call S NetworkRestore
  capture snapshot = do
    guid ←
        or_fail
          (platform_error invalid_config (codes "selected adapter has no stable Windows GUID"))
          snapshot.info.guid
    let tcpip = codes "SYSTEM\\CurrentControlSet\\Services\\Tcpip\\Parameters\\Interfaces\\" ++ guid
    let netbt =
        codes "SYSTEM\\CurrentControlSet\\Services\\NetBT\\Parameters\\Interfaces\\Tcpip_" ++ guid
    has_dns ← system.registry_value_has_text tcpip (codes "NameServer")
    has_wins ← system.registry_value_has_text netbt (codes "NameServerList")
    pure record {
      snapshot = snapshot;
      dns_from_dhcp = not has_dns;
      wins_from_dhcp = not has_wins;
      applied_addresses = [];
      applied_gateways = [];
    }

  unfoldable pub restore_static_address : NetworkRestore → ℕ → Call S (Unit {0})
  restore_static_address restore if_index = do
    primary ←
        or_fail
          (internal_error (codes "cannot restore static IPv4 adapter that had no captured address"))
          (first restore.snapshot.manual_ipv4)
    set_primary_address system if_index (shown primary)
        (first_or (codes "none") show_v4 restore.snapshot.gateways)
    each (λ address. add_address system if_index (shown address))
        (skip1 restore.snapshot.manual_ipv4)
    each (λ gateway. add_gateway system if_index (show_v4 gateway))
        (skip1 restore.snapshot.gateways)

  unfoldable pub verify_restored : NetworkRestore → ℕ → Call S (Unit {0})
  verify_restored restore if_index = do
    inventory ← inventory_or system (codes "adapter rollback verification")
    current ← adapter_with system if_index (codes "during rollback verification") inventory
    current_sources ← capture current
    if restored_matches restore current_sources
        then pure tt
        else fail (
            internal_error (
              codes "adapter if_index="
              ++ decimal if_index
              ++ codes " did not match its captured logical network state after rollback"))

  -- The address first: static ones are set again, or those of DHCP.
  abbrev pub restore_address : NetworkRestore → AdapterSnapshot → ℕ → Call S (Unit {0})
  restore_address restore current if_index =
      if not (is_nil restore.snapshot.manual_ipv4)
        && (not (manual_snapshot_matches current restore.snapshot)
            || not (gateways_match current restore.snapshot))
      then restore_static_address restore if_index
      else when
          (is_nil restore.snapshot.manual_ipv4
            && not (same restore.snapshot.dhcp_enabled current.dhcp_enabled)
            && restore.snapshot.dhcp_enabled)
          (set_address_from_dhcp system if_index)

  -- `restore`, up to its second inventory
  abbrev pub restore_settings : NetworkRestore → Call S (Unit {0})
  restore_settings restore = do
    let if_index = restore.snapshot.info.if_index
    inventory ← inventory_or system (codes "adapter rollback inventory")
    before ← adapter_with system if_index (codes "before rollback") inventory
    sources ← capture before
    restore_address restore before if_index
    when
        (not (same sources.dns_from_dhcp restore.dns_from_dhcp)
          || (not restore.dns_from_dhcp && not (dns_match before restore.snapshot)))
        (set_dns system if_index restore.snapshot.dns restore.dns_from_dhcp)
    when
        (not (same sources.wins_from_dhcp restore.wins_from_dhcp)
          || (not restore.wins_from_dhcp && not (wins_match before restore.snapshot)))
        (set_wins system if_index restore.snapshot.wins restore.wins_from_dhcp)

  -- What was added and is still there, removed
  abbrev pub remove_targets : NetworkRestore → Call S (Unit {0})
  remove_targets restore = do
    let if_index = restore.snapshot.info.if_index
    cleanup ← inventory_or system (codes "adapter rollback cleanup inventory")
    current ← adapter_with system if_index (codes "during rollback") cleanup
    each
        (λ address.
          when (has_address (show_v4 address) current)
            (delete_address system if_index (show_v4 address)))
        restore.applied_addresses
    each (λ gateway. when (has_gateway gateway current) (delete_gateway system if_index gateway))
        restore.applied_gateways

  unfoldable pub restore_network : NetworkRestore → Call S (Unit {0})
  restore_network restore = do
    restore_settings restore
    remove_targets restore
    verify_restored restore restore.snapshot.info.if_index
