-- ===== src/Windows/Accepted.antt =====
-- crates/netpland/src/platform/windows.rs: what the preflight of the Windows backend has checked.
use netplan.Base.{
  ℕ, ◌≡◌, refl, ap, ◌∙◌, inl, arith, true, false, Bool, all, all-true, Option, none, List, find,
  some, ok, Text, codes, text_eq, Unicode, All, All-map, collect,
}
use netplan.Model.{Capability, CapabilityState, available, read_only, dry_run, unavailable}
use netplan.Config.{NetplanConfig}
use netplan.Plan.{Operation, Wording}
use netplan.Plan.Operations.{build_plan}
use netplan.Plan.Capabilities.{plan_capabilities, build_plan-Holds}
use netplan.Platform.{PlatformResult, PlatformWording}
use netplan.Platform.Preflight.{require_plan_capabilities, Permitted, require_plan_capabilities_iff}
use netplan.Platform.Resolve.{AdapterInventory, Interface, resolve_index}
use netplan.Platform.Runtime.{Reaches, validate_runtime_protection-KeepsOff}
use netplan.Windows.{System}
use netplan.Windows.Calls.{bind-ok, lift_result}
use netplan.Windows.Network.{inventory_or}
use netplan.Windows.Backend.{Probes, capabilities, interfaces_for, preflight}

-- An image that lacks nothing
abbrev pub complete : Probes
complete = record {
  netsh = true;
  pnputil = true;
  force_driver = true;
  wifi = ok tt;
  accounts = ok tt;
  shares = ok tt;
  mappings = ok tt;
}

-- The capability is reported, as available.
abbrev Offered : Text → Type 0
Offered name =
    (found : Capability) × (find (λ (candidate : Capability). text_eq candidate.name name)
        (capabilities complete)
      ≡ some found)
    × (found.state ≡ available)

abbrev is_available : CapabilityState → Bool
is_available available = true
is_available _ = false

abbrev offers : Option Capability → Bool
offers none = false
offers (some found) = is_available found.state

offers-Offered :
    (found : Option Capability)
    → offers found ≡ true
    → (c : Capability) × (found ≡ some c) × (c.state ≡ available)
offers-Offered none h = absurd (ground arith)
offers-Offered (some c) h = (c, refl, go c.state h)
  where
    go : (state : CapabilityState) → is_available state ≡ true → state ≡ available
    go available h = refl
    go read_only h = absurd (ground arith)
    go dry_run h = absurd (ground arith)
    go unavailable h = absurd (ground arith)

abbrev lookup : Text → Option Capability
lookup name = find (λ (candidate : Capability). text_eq candidate.name name) (capabilities complete)

all_offered : all (λ name. offers (lookup name)) plan_capabilities ≡ true
unfolding capabilities text_eq
all_offered = refl

All-Offered : All Offered plan_capabilities
All-Offered =
    All-map _ Offered (λ name h. offers-Offered (lookup name) h) plan_capabilities
      (all-true (λ name. offers (lookup name)) plan_capabilities all_offered)

ok-split :
    {S : Type 0} {r : PlatformResult (Unit {0})} {s t : S}
    → ◌≡◌ {A = PlatformResult (Unit {0}) × S} (r, s) (ok tt, t)
    → (r ≡ ok tt) × (s ≡ t)
ok-split h = (ap (λ p. p.0) h, ap (λ p. p.1) h)

-- On an image that lacks nothing, the capabilities that the backend reports permit every plan.
pub require_plan_capabilities-complete :
    (say : PlatformWording) (w : Wording) (config : NetplanConfig)
    → require_plan_capabilities say w (capabilities complete) config ≡ ok tt
require_plan_capabilities-complete say w config =
    (require_plan_capabilities_iff say w (capabilities complete) config).1 (
      All-map _ (Permitted (capabilities complete))
        (λ (op : Operation) (offered : Offered op.capability).
          (offered.0, offered.1, inl offered.2))
        (build_plan w config) (build_plan-Holds w Offered All-Offered config))

module _ {S : Type 0} (unicode : Unicode) (say : PlatformWording) (w : Wording)
    (system : System S) where
  -- When the preflight accepts a configuration, the capabilities reported permit its whole plan, and
  -- on the inventory that it read the configuration keeps off the protected interfaces.
  pub preflight-KeepsOff :
      (probes : Probes) (config : NetplanConfig) (s t : S)
      → preflight system unicode say w probes config s ≡ (ok tt, t)
      → All (Permitted (capabilities probes)) (build_plan w config)
        × ((inventory : AdapterInventory) × (interfaces : List Interface) × (protected : List ℕ)
            × (u v : S) × (inventory_or system (codes "adapter preflight inventory") s
                ≡ (ok inventory, u))
            × (interfaces_for system config u ≡ (ok interfaces, v))
            × (collect (resolve_index unicode say inventory) config.protect.management_interfaces
                ≡ ok protected)
            × Reaches unicode say inventory config interfaces protected)
  unfolding preflight
  preflight-KeepsOff probes config s t h =
      let (a, s0, e0, h0) =
        bind-ok (lift_result (require_plan_capabilities say w (capabilities probes) config)) _ s
          h in
      let (inventory, u, e1, h1) =
        bind-ok (inventory_or system (codes "adapter preflight inventory")) _ s0 h0 in
      let (interfaces, v, e2, h2) = bind-ok (interfaces_for system config) _ u h1 in
      let (permitted, same) = ok-split e0 in
      let (protected, e3, reaches) =
        validate_runtime_protection-KeepsOff unicode say inventory config interfaces
          (ok-split h2).0 in
      (
        (require_plan_capabilities_iff say w (capabilities probes) config).0 permitted,
        (
          inventory,
          interfaces,
          protected,
          u,
          v,
          ap (inventory_or system (codes "adapter preflight inventory")) same ∙ e1,
          e2,
          e3,
          reaches,
        ),
      )
