-- ===== src/Platform/Portable.antt =====
-- crates/netpland/src/platform/portable.rs: the backend outside Windows.
use netplan.Base.{
  ◌≡◌, ◌↔◌, refl, arith, Option, none, some, List, [], ◌∷◌, ◌++◌, map, ok, err, Text, codes, String,
  text_eq, All, find,
}
use netplan.Model.{Capability, CapabilityState, AdapterInfo, unavailable, dry_run, available}
use netplan.Config.{NetplanConfig}
use netplan.Plan.{Operation, Wording}
use netplan.Plan.Operations.{build_plan}
use netplan.Plan.Capabilities.{plan_capabilities, build_plan-Holds}
use netplan.Platform.{PlatformResult, PlatformWording, ApplyReport, platform_error, unsupported}
use netplan.Platform.Preflight.{require_plan_capabilities, Permitted, require_plan_capabilities_iff}

abbrev capability : String → CapabilityState → Option Text → Capability
capability name state reason = record { name = codes name; state = state; reason = reason }

abbrev missing : String → String → Capability
missing reason name = capability name unavailable (some (codes reason))

unfoldable pub capabilities : List Capability
capabilities =
    capability "config.validate" available none
    ∷ capability "config.plan" available none
    ∷ capability "config.apply" dry_run (some (codes "live apply is Windows-only"))
    ∷ missing "native Windows IP Helper API is unavailable" "adapter.inventory"
    ∷ missing "Windows adapter state APIs are unavailable" "adapter.state.apply"
    ∷ missing "Windows adapter registry APIs are unavailable" "adapter.mac.apply"
    ∷ missing "Windows IP configuration APIs are unavailable" "adapter.ipv4.apply"
    ∷ missing "Windows firewall APIs are unavailable" "firewall.apply"
    ∷ missing "Windows service control manager is unavailable" "service.apply"
    ∷ missing "Windows driver installation APIs are unavailable" "driver.install"
    ∷ missing "Windows driver installation APIs are unavailable" "driver.force_install"
    ∷ missing "Windows device APIs are unavailable" "adapter.restart"
    ∷ missing "live hooks are disabled outside Windows" "hook.execute"
    ∷ (map (missing "Windows identity APIs are unavailable") (
          "identity.computer_name.apply" ∷ "identity.workgroup.apply" ∷ "identity.dns_suffix.apply"
          ∷ [])
        ++ (map (missing "Windows WLAN API is unavailable") (
              "wifi.status" ∷ "wifi.profile.apply" ∷ "wifi.scan" ∷ "wifi.connect"
              ∷ "wifi.disconnect" ∷ [])
            ++ map (missing "Windows SMB APIs are unavailable")
                ("smb.account.apply" ∷ "smb.share.apply" ∷ "smb.mapping.apply" ∷ [])))

unfoldable pub adapters : List AdapterInfo
adapters = []

unfoldable pub apply : Text → NetplanConfig → PlatformResult ApplyReport
apply message config = err (platform_error unsupported message)

-- The platform reports the capability, and reports it as unavailable.
abbrev Missing : Text → Type 0
Missing name =
    (found : Capability) × (find (λ (candidate : Capability). text_eq candidate.name name)
        capabilities
      ≡ some found)
    × (found.state ≡ unavailable)

All-Missing : All Missing plan_capabilities
unfolding capabilities text_eq
All-Missing = (
  (_, refl, refl),
  (
    (_, refl, refl),
    (
      (_, refl, refl),
      (
        (_, refl, refl),
        (
          (_, refl, refl),
          (
            (_, refl, refl),
            (
              (_, refl, refl),
              (
                (_, refl, refl),
                (
                  (_, refl, refl),
                  (
                    (_, refl, refl),
                    (
                      (_, refl, refl),
                      (
                        (_, refl, refl),
                        (
                          (_, refl, refl),
                          (
                            (_, refl, refl),
                            (
                              (_, refl, refl),
                              (
                                (_, refl, refl),
                                ((_, refl, refl), ((_, refl, refl), ((_, refl, refl), tt))),
                              ),
                            ),
                          ),
                        ),
                      ),
                    ),
                  ),
                ),
              ),
            ),
          ),
        ),
      ),
    ),
  ),
)

Missing-refuses : (op : Operation) → Missing op.capability → Permitted capabilities op → ⊥
Missing-refuses op (found, e, s) (found', e', s') = ground arith

-- With the capabilities that the platform outside Windows reports, the preflight of a live apply
-- succeeds exactly for the configurations whose plan is empty.
require_plan_capabilities-empty_plan :
    (say : PlatformWording) (w : Wording) (config : NetplanConfig)
    → (require_plan_capabilities say w capabilities config ≡ ok tt) ↔ (build_plan w config ≡ [])
require_plan_capabilities-empty_plan say w config = (there, back)
  where
    empty :
        (ops : List Operation)
        → All (λ (op : Operation). Missing op.capability) ops
        → All (Permitted capabilities) ops
        → ops ≡ []
    empty [] m p = refl
    empty (op ∷ ops) m p = absurd (Missing-refuses op m.0 p.0)

    there : require_plan_capabilities say w capabilities config ≡ ok tt → build_plan w config ≡ []
    there h =
        empty _ (build_plan-Holds w Missing All-Missing config)
          ((require_plan_capabilities_iff say w capabilities config).0 h)

    back : build_plan w config ≡ [] → require_plan_capabilities say w capabilities config ≡ ok tt
    back e = (require_plan_capabilities_iff say w capabilities config).1 (rw e tt)
