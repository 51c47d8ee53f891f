-- ===== src/Windows/Network.antt =====
-- crates/netpland/src/platform/windows/apply.rs: the commands that configure an adapter, and
-- the lists that they compare.
use netplan.Base.{
  ℕ, suc, ◌+◌, ◌==◌, Bool, true, false, ◌&&◌, Option, none, some, List, [], ◌∷◌, ◌++◌, any, find,
  Text, codes, text_eq, ok, err, if◌then◌else◌, map_err,
}
use netplan.Model.{IpAddressInfo}
use netplan.Config.{IpAddr, v4, v6}
use netplan.Config.Validate.{filter_map}
use netplan.Plan.{decimal}
use netplan.Platform.{PlatformError, PlatformResult, platform_error, not_found}
use netplan.Platform.Resolve.{AdapterSnapshot, AdapterInventory}
use netplan.Windows.{Call, System}
use netplan.Windows.Calls.{pure, ◌>>◌, or_fail}
use netplan.Windows.Tools.{internal_error, show_v4, words, run_netsh}

pub record NetworkRestore : Type 0 where
  pub snapshot : AdapterSnapshot
  pub dns_from_dhcp : Bool
  pub wins_from_dhcp : Bool
  pub applied_addresses : List ℕ
  pub applied_gateways : List ℕ

-- `a == b` on lists.
abbrev pub list_eq {ℓ} : {A : Type ℓ} → (A → A → Bool) → List A → List A → Bool
list_eq eq [] [] = true
list_eq eq [] (y ∷ ys) = false
list_eq eq (x ∷ xs) [] = false
list_eq eq (x ∷ xs) (y ∷ ys) = eq x y && list_eq eq xs ys

abbrev pub ip_eq : IpAddr → IpAddr → Bool
ip_eq (v4 a) (v4 b) = a == b
ip_eq (v6 a) (v6 b) = a == b
ip_eq (v4 a) (v6 b) = false
ip_eq (v6 a) (v4 b) = false

-- `first` of a list, and the rest of it
abbrev pub skip1 {ℓ} : {A : Type ℓ} → List A → List A
skip1 [] = []
skip1 (x ∷ xs) = xs

abbrev pub first_or {ℓ} : {A : Type ℓ} → Text → (A → Text) → List A → Text
first_or d f [] = d
first_or d f (x ∷ xs) = f x

abbrev pub first {ℓ} : {A : Type ℓ} → List A → Option A
first [] = none
first (x ∷ xs) = some x

abbrev pub has_address : Text → AdapterSnapshot → Bool
has_address address current =
    any (λ (candidate : IpAddressInfo). text_eq candidate.address address) current.info.ipv4

abbrev pub has_gateway : ℕ → AdapterSnapshot → Bool
has_gateway gateway current = any (λ candidate. candidate == gateway) current.gateways

module _ {S : Type 0} (system : System S) where
  unfoldable pub set_adapter_enabled : Text → Bool → Call S (Unit {0})
  set_adapter_enabled name enabled = run_netsh system (
      words ("interface" ∷ "set" ∷ "interface" ∷ [])
      ++ (codes "name=" ++ name)
        ∷ (codes "admin=" ++ (if enabled then codes "enabled" else codes "disabled"))
        ∷ [])

  abbrev pub reenabled :
      PlatformError → PlatformResult (Unit {0}) × S → PlatformResult (Unit {0}) × S
  reenabled error (ok u, s) = (
    err (
        internal_error
          (codes "adapter restart failed but the adapter was re-enabled: " ++ error.message)),
    s,
  )
  reenabled error (err recovery, s) = (
    err (
        internal_error (
          codes "adapter restart failed and re-enable recovery also failed: "
          ++ error.message
          ++ codes "; "
          ++ recovery.message)),
    s,
  )

  -- After the adapter was disabled: enabled again, and once more where that failed.
  abbrev pub recovered : Text → PlatformResult (Unit {0}) × S → PlatformResult (Unit {0}) × S
  recovered name (ok u, s) = (ok tt, s)
  recovered name (err error, s) = reenabled error (set_adapter_enabled name true s)

  unfoldable pub restart_adapter : Text → Call S (Unit {0})
  restart_adapter name = do
    set_adapter_enabled name false
    λ s. recovered name (set_adapter_enabled name true s)

  unfoldable pub set_primary_address : ℕ → Text → Text → Call S (Unit {0})
  set_primary_address if_index address gateway = run_netsh system (
      words ("interface" ∷ "ipv4" ∷ "set" ∷ "address" ∷ [])
      ++ (codes "name=" ++ decimal if_index)
        ∷ codes "source=static"
        ∷ (codes "address=" ++ address)
        ∷ (codes "gateway=" ++ gateway)
        ∷ codes "store=active"
        ∷ [])

  unfoldable pub add_address : ℕ → Text → Call S (Unit {0})
  add_address if_index address = run_netsh system (
      words ("interface" ∷ "ipv4" ∷ "add" ∷ "address" ∷ [])
      ++ (codes "name=" ++ decimal if_index)
        ∷ (codes "address=" ++ address)
        ∷ codes "gateway=none"
        ∷ codes "store=active"
        ∷ [])

  unfoldable pub add_gateway : ℕ → Text → Call S (Unit {0})
  add_gateway if_index gateway = run_netsh system (
      words ("interface" ∷ "ipv4" ∷ "add" ∷ "route" ∷ "prefix=0.0.0.0/0" ∷ [])
      ++ (codes "interface=" ++ decimal if_index)
        ∷ (codes "nexthop=" ++ gateway)
        ∷ codes "store=active"
        ∷ [])

  unfoldable pub delete_address : ℕ → Text → Call S (Unit {0})
  delete_address if_index address = run_netsh system (
      words ("interface" ∷ "ipv4" ∷ "delete" ∷ "address" ∷ [])
      ++ (codes "name=" ++ decimal if_index)
        ∷ (codes "address=" ++ address)
        ∷ codes "store=active"
        ∷ [])

  unfoldable pub delete_gateway : ℕ → ℕ → Call S (Unit {0})
  delete_gateway if_index gateway = run_netsh system (
      words ("interface" ∷ "ipv4" ∷ "delete" ∷ "route" ∷ "prefix=0.0.0.0/0" ∷ [])
      ++ (codes "interface=" ++ decimal if_index)
        ∷ (codes "nexthop=" ++ show_v4 gateway)
        ∷ codes "store=active"
        ∷ [])

  -- `enumerate_inventory().map_err(…)`, the error's text behind `context`
  abbrev pub inventory_or : Text → Call S AdapterInventory
  inventory_or context s =
      let (result, s') = system.enumerate_inventory s in
      (map_err (λ error. internal_error (context ++ codes " failed: " ++ error)) result, s')

  -- `inventory.adapters.iter().find(…).ok_or_else(…)`
  abbrev pub adapter_with : ℕ → Text → AdapterInventory → Call S AdapterSnapshot
  adapter_with if_index moment inventory =
      or_fail
        (platform_error not_found
          (codes "adapter if_index=" ++ decimal if_index ++ codes " disappeared " ++ moment))
        (find (λ (adapter : AdapterSnapshot). adapter.info.if_index == if_index) inventory.adapters)

  unfoldable pub set_dns_from_dhcp : ℕ → Call S (Unit {0})
  set_dns_from_dhcp if_index = run_netsh system (
      words ("interface" ∷ "ipv4" ∷ "set" ∷ "dnsservers" ∷ [])
      ++ (codes "name=" ++ decimal if_index) ∷ codes "source=dhcp" ∷ [])

  unfoldable pub set_wins_from_dhcp : ℕ → Call S (Unit {0})
  set_wins_from_dhcp if_index = run_netsh system (
      words ("interface" ∷ "ipv4" ∷ "set" ∷ "winsservers" ∷ [])
      ++ (codes "name=" ++ decimal if_index) ∷ codes "source=dhcp" ∷ [])

  -- `for (index, server) in servers.iter().enumerate().skip(1)`, from the index given
  abbrev pub add_dns_servers : Text → ℕ → ℕ → List Text → Call S (Unit {0})
  add_dns_servers family if_index index [] = pure tt
  add_dns_servers family if_index index (server ∷ servers) = do
    run_netsh system (
        codes "interface" ∷ family ∷ words ("add" ∷ "dnsservers" ∷ [])
        ++ (codes "name=" ++ decimal if_index)
          ∷ (codes "address=" ++ server)
          ∷ (codes "index=" ++ decimal (index + 1))
          ∷ codes "validate=no"
          ∷ [])
    add_dns_servers family if_index (suc index) servers

  unfoldable pub set_dns_family : Text → ℕ → List Text → Call S (Unit {0})
  set_dns_family family if_index servers = do
    run_netsh system (
        codes "interface" ∷ family ∷ words ("set" ∷ "dnsservers" ∷ [])
        ++ (codes "name=" ++ decimal if_index)
          ∷ codes "source=static"
          ∷ (codes "address=" ++ first_or (codes "none") (λ server. server) servers)
          ∷ codes "validate=no"
          ∷ [])
    add_dns_servers family if_index 1 (skip1 servers)

  abbrev pub shown_v4 : IpAddr → Option Text
  shown_v4 (v4 address) = some (show_v4 address)
  shown_v4 (v6 address) = none

  abbrev pub shown_v6 : IpAddr → Option Text
  shown_v6 (v4 address) = none
  shown_v6 (v6 address) = some (system.show_v6 address)

  unfoldable pub set_dns : ℕ → List IpAddr → Bool → Call S (Unit {0})
  set_dns if_index servers true = set_dns_from_dhcp if_index
  set_dns if_index servers false = do
    set_dns_family (codes "ipv4") if_index (filter_map shown_v4 servers)
    set_dns_family (codes "ipv6") if_index (filter_map shown_v6 servers)

  abbrev pub add_wins_servers : ℕ → ℕ → List ℕ → Call S (Unit {0})
  add_wins_servers if_index index [] = pure tt
  add_wins_servers if_index index (server ∷ servers) = do
    run_netsh system (
        words ("interface" ∷ "ipv4" ∷ "add" ∷ "winsservers" ∷ [])
        ++ (codes "name=" ++ decimal if_index)
          ∷ (codes "address=" ++ show_v4 server)
          ∷ (codes "index=" ++ decimal (index + 1))
          ∷ [])
    add_wins_servers if_index (suc index) servers

  unfoldable pub set_wins : ℕ → List ℕ → Bool → Call S (Unit {0})
  set_wins if_index servers true = set_wins_from_dhcp if_index
  set_wins if_index servers false = do
    run_netsh system (
        words ("interface" ∷ "ipv4" ∷ "set" ∷ "winsservers" ∷ [])
        ++ (codes "name=" ++ decimal if_index)
          ∷ codes "source=static"
          ∷ (codes "address=" ++ first_or (codes "none") show_v4 servers)
          ∷ [])
    add_wins_servers if_index 1 (skip1 servers)

  -- `netsh interface ipv4 set address … source=dhcp`
  abbrev pub set_address_from_dhcp : ℕ → Call S (Unit {0})
  set_address_from_dhcp if_index = run_netsh system (
      words ("interface" ∷ "ipv4" ∷ "set" ∷ "address" ∷ [])
      ++ (codes "name=" ++ decimal if_index) ∷ codes "source=dhcp" ∷ [])
