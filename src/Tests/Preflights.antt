-- ===== src/Tests/Preflights.antt =====
-- The preflight of the Windows backend.
use netplan.Base.{ℕ, ◌≡◌, refl, List, ok, All, collect, codes, text_eq}
use netplan.Plan.Operations.{
  build_plan, push_hooks, hook_operations, identity_operations, identity_field, service_operations,
  wifi_operations, account_operations, share_operations, mapping_operations, firewall_operations,
}
use netplan.Platform.Preflight.{require_plan_capabilities, permit, permit_with, Permitted}
use netplan.Platform.Resolve.{
  AdapterInventory, Interface, resolve_index, validate_runtime_protection, adapter_targets,
  wifi_targets, restart_targets,
}
use netplan.Platform.Runtime.{Reaches}
use netplan.Windows.Calls.{◌>>=◌}
use netplan.Windows.Network.{inventory_or}
use netplan.Windows.Backend.{capabilities, interfaces_for, preflight}
use netplan.Windows.Accepted.{complete, require_plan_capabilities-complete, preflight-KeepsOff}
use netplan.Tests.{ascii, say, wording, office}
use netplan.Tests.Machines.{Machine, bench, rename, idle}

require_plan_capabilities-complete_example :
    require_plan_capabilities say wording (capabilities complete) office ≡ ok tt
require_plan_capabilities-complete_example = require_plan_capabilities-complete say wording office

preflight_test : preflight bench ascii say wording complete rename idle ≡ (ok tt, idle)
unfolding preflight capabilities require_plan_capabilities permit permit_with build_plan push_hooks
    hook_operations identity_operations identity_field service_operations wifi_operations
    account_operations share_operations mapping_operations firewall_operations
    validate_runtime_protection adapter_targets wifi_targets restart_targets text_eq ◌>>=◌
preflight_test = refl

preflight-KeepsOff_example :
    All (Permitted (capabilities complete)) (build_plan wording rename)
    × ((inventory : AdapterInventory) × (interfaces : List Interface) × (protected : List ℕ) × (u
          v : Machine)
        × (inventory_or bench (codes "adapter preflight inventory") idle ≡ (ok inventory, u))
        × (interfaces_for bench rename u ≡ (ok interfaces, v))
        × (collect (resolve_index ascii say inventory) rename.protect.management_interfaces
            ≡ ok protected)
        × Reaches ascii say inventory rename interfaces protected)
preflight-KeepsOff_example =
    preflight-KeepsOff ascii say wording bench complete rename idle idle preflight_test
