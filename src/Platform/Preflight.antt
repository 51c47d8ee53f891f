-- ===== src/Platform/Preflight.antt =====
-- `require_plan_capabilities` of crates/netpland/src/platform/mod.rs: no live apply without the
-- capabilities of its plan.
use netplan.Base.{
  Option-cases, fail_if-eq-ok, ◌≡◌, ◌↔◌, ◌⊎◌, inl, inr, refl, arith, Bool, true, false, not, Option,
  none, some, List, [], ◌∷◌, ok, err, fail_if, for_each, codes, text_eq, All, All-map, find,
  for_each-All_of, All-for_each,
}
use netplan.Model.{Capability, CapabilityState, available, read_only}
use netplan.Config.{NetplanConfig}
use netplan.Config.Checks.{unwrap_or}
use netplan.Plan.{Operation, OperationRisk, low, connectivity, destructive, Wording}
use netplan.Plan
use netplan.Plan.Operations.{build_plan}
use netplan.Platform.{
  PlatformError, PlatformResult, PlatformWording, platform_error, unsupported,
  unreported_capability, capability_refused,
}

abbrev pub state_permits : CapabilityState → OperationRisk → Bool
state_permits available risk = true
state_permits read_only Plan.read_only = true
state_permits state risk = false

module _ (say : PlatformWording) where
  unfoldable pub permit_with : Operation → Option Capability → PlatformResult (Unit {0})
  permit_with operation none =
      err
        (platform_error unsupported (say (unreported_capability operation.id operation.capability)))
  permit_with operation (some capability) =
      fail_if (not (state_permits capability.state operation.risk)) (
        platform_error unsupported (
          say (
            capability_refused operation.id operation.capability (
              unwrap_or (codes "capability is not available for live execution")
                capability.reason))))

  unfoldable pub permit : List Capability → Operation → PlatformResult (Unit {0})
  permit capabilities operation =
      permit_with operation (
        find (λ (candidate : Capability). text_eq candidate.name operation.capability) capabilities)

  unfoldable pub require_plan_capabilities :
      Wording → List Capability → NetplanConfig → PlatformResult (Unit {0})
  require_plan_capabilities wording capabilities config =
      for_each (permit capabilities) (build_plan wording config)

-- The platform reports the operation's capability, and the state that it reports first allows a
-- live run: available, or read-only where the operation changes nothing.
abbrev pub Permitted : List Capability → Operation → Type 0
Permitted capabilities operation =
    (capability : Capability) × (find
        (λ (candidate : Capability). text_eq candidate.name operation.capability) capabilities
      ≡ some capability)
    × ((capability.state ≡ available)
        ⊎ (capability.state ≡ read_only) × (operation.risk ≡ Plan.read_only))

permits_iff :
    (state : CapabilityState) (risk : OperationRisk)
    → (not (state_permits state risk) ≡ false)
      ↔ ((state ≡ available) ⊎ (state ≡ read_only) × (risk ≡ Plan.read_only))
permits_iff state risk = (there state risk, back state risk)
  where
    there :
        (s : CapabilityState) (r : OperationRisk)
        → not (state_permits s r) ≡ false
        → (s ≡ available) ⊎ (s ≡ read_only) × (r ≡ Plan.read_only)
    there available r h = inl refl
    there read_only Plan.read_only h = inr (refl, refl)
    there _ _ h = cc

    back :
        (s : CapabilityState) (r : OperationRisk)
        → (s ≡ available) ⊎ (s ≡ read_only) × (r ≡ Plan.read_only)
        → not (state_permits s r) ≡ false
    back s r (inl e) = rw e
    back s r (inr (e, f)) = rw (e, f)

module _ (say : PlatformWording) (capabilities : List Capability) where
  permit-Permitted :
      (op : Operation) → permit say capabilities op ≡ ok tt → Permitted capabilities op
  unfolding permit permit_with
  permit-Permitted op h =
      elim (Option-cases
        (find (λ (candidate : Capability). text_eq candidate.name op.capability) capabilities)) [
          | inl e ↦ absurd (refused (rw (e, permit_with) at h))
          | inr (capability, e) ↦
              (capability, e, (permits_iff _ _).0 (fail_if-eq-ok _ _ (rw (e, permit_with) at h)))
        ]
    where
      refused : {e : PlatformError} → err e ≡ ok tt → ⊥
      refused p = cc

  Permitted-permit :
      (op : Operation) → Permitted capabilities op → permit say capabilities op ≡ ok tt
  unfolding permit permit_with
  Permitted-permit op (capability, e, s) = rw e (rw ((permits_iff _ _).1 s) refl)

-- `require_plan_capabilities` succeeds exactly when every operation of the plan is permitted.
pub require_plan_capabilities_iff :
    (say : PlatformWording) (w : Wording) (capabilities : List Capability) (config : NetplanConfig)
    → (require_plan_capabilities say w capabilities config ≡ ok tt)
      ↔ All (Permitted capabilities) (build_plan w config)
unfolding require_plan_capabilities
require_plan_capabilities_iff say w capabilities config = (
  for_each-All_of _ _ (permit-Permitted say capabilities) (build_plan w config),
  λ h.
      All-for_each _ (build_plan w config)
        (All-map _ _ (Permitted-permit say capabilities) (build_plan w config) h),
)

permit-refuses :
    (say : PlatformWording) (capabilities : List Capability) (op : Operation) (e : PlatformError)
    → permit say capabilities op ≡ err e
    → (e.kind ≡ unsupported) × (e.rolled_back ≡ false)
unfolding permit permit_with
permit-refuses say capabilities op e h = ground arith

-- When `require_plan_capabilities` fails, it says `unsupported` and that nothing was rolled back.
require_plan_capabilities-refuses :
    (say : PlatformWording) (w : Wording) (capabilities : List Capability) (config : NetplanConfig)
    (e : PlatformError)
    → require_plan_capabilities say w capabilities config ≡ err e
    → (e.kind ≡ unsupported) × (e.rolled_back ≡ false)
unfolding require_plan_capabilities
require_plan_capabilities-refuses say w capabilities config e h = go (build_plan w config) h
  where
    go :
        (ops : List Operation)
        → for_each (permit say capabilities) ops ≡ err e
        → (e.kind ≡ unsupported) × (e.rolled_back ≡ false)
    go [] p = cc
    go (op ∷ ops) p = ground (arith, permit-refuses say capabilities op e, go ops)
