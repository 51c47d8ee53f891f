-- ===== src/Tests/Plans.antt =====
-- Plans, the preflight and the protection at run time.
use netplan.Base.{
  ℕ, ◌≡◌, refl, true, false, none, List, [], ◌∷◌, All, AllPairs, ok, err, collect, Text, codes,
  text_eq,
}
use netplan.Plan.Order.{Precedes}
use netplan.Plan.Operations.{
  build_plan, push_hooks, hook_operations, identity_operations, identity_field, adapter_operations,
  adapter_state, adapter_mac, adapter_ipv4, wifi_operations, wifi_action_operations,
  service_operations, account_operations, share_operations, mapping_operations, firewall_operations,
  driver_operations,
}
use netplan.Plan.Unique.{build_plan-Precedes}
use netplan.Plan.Capabilities.{plan_capabilities}
use netplan.Platform.{PlatformError, platform_error, unsupported}
use netplan.Platform.Preflight.{require_plan_capabilities, permit, permit_with}
use netplan.Platform.Resolve.{
  AdapterSnapshot, AdapterInventory, Interface, selector_matches, resolve_adapter,
  resolve_wifi_interface, adapter_targets, wifi_targets, restart_targets, resolve_index,
  validate_runtime_protection,
}
use netplan.Platform.Runtime.{Reaches, validate_runtime_protection-KeepsOff}
use netplan.Tests.{ascii, office, wording, say}

build_plan-Precedes_example : AllPairs Precedes (build_plan wording office)
build_plan-Precedes_example = build_plan-Precedes wording office

-- No capability of a plan is the empty text.
abbrev Named : Text → Type 0
Named capability = text_eq capability [] ≡ false

All-Named : All Named plan_capabilities
unfolding text_eq
All-Named = (
  refl,
  (
    refl,
    (
      refl,
      (
        refl,
        (
          refl,
          (
            refl,
            (
              refl,
              (
                refl,
                (
                  refl,
                  (
                    refl,
                    (refl, (refl, (refl, (refl, (refl, (refl, (refl, (refl, (refl, tt))))))))),
                  ),
                ),
              ),
            ),
          ),
        ),
      ),
    ),
  ),
)

abbrev refused : PlatformError
refused = platform_error unsupported (codes "refused")

office-refused : require_plan_capabilities say wording [] office ≡ err refused
unfolding require_plan_capabilities build_plan permit permit_with push_hooks hook_operations
    identity_operations identity_field adapter_operations adapter_state adapter_mac adapter_ipv4
    wifi_operations wifi_action_operations service_operations account_operations share_operations
    mapping_operations firewall_operations driver_operations
office-refused = refl

abbrev snapshot : ℕ → AdapterSnapshot
snapshot i = record {
  info = record {
    if_index = i;
    name = codes "Ethernet";
    description = none;
    guid = none;
    mac_address = none;
    status = codes "up";
    hardware = true;
    ipv4 = [];
    ipv6 = [];
  };
  admin_enabled = true;
  dhcp_enabled = true;
  manual_ipv4 = [];
  gateways = [];
  dns = [];
  wins = [];
}

abbrev machine : AdapterInventory
machine = record { adapters = snapshot 3 ∷ snapshot 7 ∷ snapshot 9 ∷ [] }

abbrev radios : List Interface
radios = record { guid = 1; if_index = 9; description = codes "WLAN"; state = 1 } ∷ []

office-runs : validate_runtime_protection ascii say office machine radios ≡ ok tt
unfolding validate_runtime_protection selector_matches resolve_adapter resolve_wifi_interface
    adapter_targets wifi_targets restart_targets
office-runs = refl

validate_runtime_protection-KeepsOff_example :
    (protected : List ℕ) × (collect
        (resolve_index ascii say machine)
        office.protect.management_interfaces
      ≡ ok protected)
    × Reaches ascii say machine office radios protected
validate_runtime_protection-KeepsOff_example =
    validate_runtime_protection-KeepsOff ascii say machine office radios office-runs
