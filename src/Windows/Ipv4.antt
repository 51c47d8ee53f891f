-- ===== src/Windows/Ipv4.antt =====
-- crates/netpland/src/platform/windows/apply.rs: `apply_ipv4`, what was captured of the adapter being a
-- `NetworkRestore`.
use netplan.Base.{
  ℕ, ◌==◌, Bool, true, false, not, ◌&&◌, ◌||◌, List, [], ◌∷◌, is_nil, length, codes, text_eq,
  if◌then◌else◌,
}
use netplan.Model.{IpAddressInfo}
use netplan.Config.{Ipv4Config, dhcp, static, Ipv4Net, IpAddr}
use netplan.Platform.{platform_error, invalid_config}
use netplan.Platform.Resolve.{AdapterSnapshot}
use netplan.Windows.{Call, System}
use netplan.Windows.Calls.{pure, ◌>>=◌, ◌>>◌, when, each, or_fail}
use netplan.Windows.Tools.{show_v4, show_net}
use netplan.Windows.Network.{
  NetworkRestore, list_eq, ip_eq, skip1, first_or, first, has_address, has_gateway, inventory_or,
  adapter_with, delete_address, delete_gateway, set_dns_from_dhcp, set_wins_from_dhcp,
  set_address_from_dhcp, set_primary_address, add_address, add_gateway, set_dns, set_wins,
}

abbrev pub address_matches : IpAddressInfo → Ipv4Net → Bool
address_matches actual desired =
    text_eq actual.address (show_v4 desired.addr) && actual.prefix_length == desired.prefix_len

-- Lists of the same length, whose elements match in their order.
abbrev pub zip_all {ℓ κ} : {A : Type ℓ} {B : Type κ} → (A → B → Bool) → List A → List B → Bool
zip_all p [] ys = true
zip_all p (x ∷ xs) [] = true
zip_all p (x ∷ xs) (y ∷ ys) = p x y && zip_all p xs ys

unfoldable pub manual_addresses_match : AdapterSnapshot → List Ipv4Net → Bool
manual_addresses_match snapshot desired =
    length snapshot.manual_ipv4 == length desired
    && zip_all address_matches snapshot.manual_ipv4 desired

unfoldable pub static_network_matches :
    NetworkRestore → List Ipv4Net → List ℕ → List IpAddr → List ℕ → Bool
static_network_matches restore addresses gateways dns wins =
    not restore.dns_from_dhcp
    && not restore.wins_from_dhcp
    && manual_addresses_match restore.snapshot addresses
    && list_eq (λ a b. a == b) restore.snapshot.gateways gateways
    && list_eq ip_eq restore.snapshot.dns dns
    && list_eq (λ a b. a == b) restore.snapshot.wins wins

module _ {S : Type 0} (system : System S) where
  unfoldable pub remove_captured_network : ℕ → List IpAddressInfo → List ℕ → Call S (Unit {0})
  remove_captured_network if_index addresses gateways = do
    inventory ← inventory_or system (codes "adapter cleanup inventory")
    current ← adapter_with system if_index (codes "during network cleanup") inventory
    each
        (λ (address : IpAddressInfo).
          when (has_address address.address current)
            (delete_address system if_index address.address))
        addresses
    each (λ gateway. when (has_gateway gateway current) (delete_gateway system if_index gateway))
        gateways

  -- Whether the adapter was changed: `changed` starts as false, and each command sets it.
  abbrev pub apply_dhcp : NetworkRestore → Bool → Call S Bool
  apply_dhcp restore dns_from_dhcp =
      let if_index = restore.snapshot.info.if_index in
      let readdress = not restore.snapshot.dhcp_enabled in
      let removes = not (is_nil restore.snapshot.manual_ipv4) in
      let renames = dns_from_dhcp && not restore.dns_from_dhcp in
      let rewins = dns_from_dhcp && not restore.wins_from_dhcp in
      do
        when readdress (set_address_from_dhcp system if_index)
        when removes (
            remove_captured_network if_index restore.snapshot.manual_ipv4 restore.snapshot.gateways)
        when renames (set_dns_from_dhcp system if_index)
        when rewins (set_wins_from_dhcp system if_index)
        pure (readdress || removes || renames || rewins)

  abbrev pub apply_static :
      NetworkRestore → List Ipv4Net → List ℕ → List IpAddr → List ℕ → Call S Bool
  apply_static restore addresses gateways dns wins = do
    let if_index = restore.snapshot.info.if_index
    primary ←
        or_fail (platform_error invalid_config (codes "static IPv4 plan contains no addresses"))
          (first addresses)
    set_primary_address system if_index (show_net primary)
        (first_or (codes "none") show_v4 gateways)
    each (λ address. add_address system if_index (show_net address)) (skip1 addresses)
    each (λ gateway. add_gateway system if_index (show_v4 gateway)) (skip1 gateways)
    set_dns system if_index dns false
    set_wins system if_index wins false
    pure true

  unfoldable pub apply_ipv4 : NetworkRestore → Ipv4Config → Call S Bool
  apply_ipv4 restore (dhcp dns_from_dhcp) = apply_dhcp restore dns_from_dhcp
  apply_ipv4 restore (static addresses gateways dns wins) =
      if static_network_matches restore addresses gateways dns wins
      then pure false
      else apply_static restore addresses gateways dns wins
