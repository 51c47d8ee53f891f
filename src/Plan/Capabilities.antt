-- ===== src/Plan/Capabilities.antt =====
-- The capabilities that a plan can ask for.
use netplan.Base.{
  ℕ, suc, Bool, true, false, Option, none, some, List, [], ◌∷◌, if◌then◌else◌, Text, codes, All,
  All-append,
}
use netplan.Config.{
  NetplanConfig, IdentityConfig, AdapterConfig, WifiAction, scan, connect, disconnect, SmbAccount,
  SmbAccountKind, local, credential, DriverOperation, install, restart_adapter, HookConfig,
  HookStage, before_apply, after_apply, after_rollback,
}
use netplan.Plan.{Operation, Wording, indexed, when_some}
use netplan.Plan.Operations.{
  identity_operations, identity_field, adapter_operations, adapter_state, adapter_mac, adapter_ipv4,
  state_if, wifi_operations, wifi_action_operations, service_operations, account_operations,
  account_if, share_operations, mapping_operations, firewall_operations, driver_operations,
  hook_operations, stage_eq, push_hooks, build_plan,
}

abbrev pub plan_capabilities : List Text
plan_capabilities =
    codes "hook.execute"
    ∷ codes "identity.computer_name.apply"
    ∷ codes "identity.workgroup.apply"
    ∷ codes "identity.dns_suffix.apply"
    ∷ codes "adapter.state.apply"
    ∷ codes "adapter.mac.apply"
    ∷ codes "adapter.ipv4.apply"
    ∷ codes "wifi.profile.apply"
    ∷ codes "wifi.scan"
    ∷ codes "wifi.connect"
    ∷ codes "wifi.disconnect"
    ∷ codes "service.apply"
    ∷ codes "smb.account.apply"
    ∷ codes "smb.share.apply"
    ∷ codes "smb.mapping.apply"
    ∷ codes "firewall.apply"
    ∷ codes "driver.force_install"
    ∷ codes "driver.install"
    ∷ codes "adapter.restart"
    ∷ []

indexed-All {ℓ} :
    {A : Type ℓ} (P : Operation → Type 0) (f : ℕ → A → List Operation)
    → ((i : ℕ) (x : A) → All P (f i x))
    → (i : ℕ) (xs : List A) → All P (indexed f i xs)
indexed-All P f h i [] = tt
indexed-All P f h i (x ∷ xs) = All-append P (f i x) _ (h i x) (indexed-All P f h (suc i) xs)

when_some-All {ℓ} :
    {A : Type ℓ} (P : Operation → Type 0) (f : A → List Operation)
    → ((x : A) → All P (f x))
    → (o : Option A) → All P (when_some f o)
when_some-All P f h none = tt
when_some-All P f h (some x) = h x

only-local :
    (P : Operation → Type 0) (op : Operation) (kind : SmbAccountKind)
    → P op
    → All P (account_if kind op)
only-local P op local h = (h, tt)
only-local P op credential h = tt

only-if :
    (P : Operation → Type 0) (b : Bool) (op : Operation) → P op → All P (if b then op ∷ [] else [])
only-if P true op h = (h, tt)
only-if P false op h = tt

module _ (w : Wording) (P : Text → Type 0) (each : All P plan_capabilities) where
  abbrev Holds : Operation → Type 0
  Holds op = P op.capability

  hooks-Holds : (stage : HookStage) (config : NetplanConfig) → All Holds (push_hooks w config stage)
  unfolding push_hooks hook_operations
  hooks-Holds stage config =
      indexed-All Holds _ (λ i (x : HookConfig). only-if Holds (stage_eq x.stage stage) _ each.0) 0
        config.hooks

  identity-Holds : (identity : IdentityConfig) → All Holds (identity_operations w identity)
  unfolding identity_operations identity_field
  identity-Holds identity =
      All-append Holds _ _ (when_some-All Holds _ (λ v. assumption) identity.computer_name) (
        All-append Holds _ _ (when_some-All Holds _ (λ v. assumption) identity.workgroup)
          (when_some-All Holds _ (λ v. assumption) identity.dns_suffix))

  state-Holds :
      (i : ℕ) (wanted : Bool) (enabled : Option Bool) (target : Text)
      → All Holds (state_if w i wanted enabled target)
  unfolding adapter_state
  state-Holds i true (some true) target = assumption
  state-Holds i false (some false) target = assumption
  state-Holds i _ _ target = tt

  adapter-Holds : (i : ℕ) (adapter : AdapterConfig) → All Holds (adapter_operations w i adapter)
  unfolding adapter_operations adapter_mac adapter_ipv4
  adapter-Holds i adapter = All-append Holds _ _ (state-Holds i true adapter.enabled _) (
      All-append Holds _ _ (when_some-All Holds _ (λ m. assumption) adapter.mac_address) (
        All-append Holds _ _ (when_some-All Holds _ (λ v. assumption) adapter.ipv4)
          (state-Holds i false adapter.enabled _)))

  action-Holds : (i : ℕ) (action : WifiAction) → All Holds (wifi_action_operations w i action)
  unfolding wifi_action_operations
  action-Holds i (scan selector) = assumption
  action-Holds i (connect selector profile) = assumption
  action-Holds i (disconnect selector) = assumption

  driver-Holds : (i : ℕ) (driver : DriverOperation) → All Holds (driver_operations w i driver)
  unfolding driver_operations
  driver-Holds i (install inf_path hardware_id true restart) = assumption
  driver-Holds i (install inf_path hardware_id false restart) = assumption
  driver-Holds i (restart_adapter selector) = assumption

  account-Holds : (i : ℕ) (account : SmbAccount) → All Holds (account_operations w i account)
  unfolding account_operations
  account-Holds i account =
      let h : P (codes "smb.account.apply") = assumption in only-local Holds _ account.kind h

  -- What holds of the nineteen capabilities holds of the capability of every operation of a plan.
  pub build_plan-Holds :
      (config : NetplanConfig) → All (λ (op : Operation). P op.capability) (build_plan w config)
  unfolding build_plan wifi_operations service_operations account_operations share_operations
      mapping_operations firewall_operations
  build_plan-Holds config = All-append Holds _ _ (hooks-Holds before_apply config) (
      All-append Holds _ _ (when_some-All Holds _ identity-Holds config.identity) (
        All-append Holds _ _ (indexed-All Holds _ adapter-Holds 0 config.adapters) (
          All-append Holds _ _
            (indexed-All Holds (wifi_operations w) (λ i x. assumption) 0 config.wifi)
            (All-append Holds _ _ (indexed-All Holds _ action-Holds 0 config.wifi_actions) (
              All-append Holds _ _
                (indexed-All Holds (service_operations w) (λ i x. assumption) 0 config.services)
                (All-append Holds _ _ (indexed-All Holds _ account-Holds 0 config.smb.accounts) (
                  All-append Holds _ _
                    (indexed-All Holds (share_operations w) (λ i x. assumption) 0 config.smb.shares)
                    (All-append Holds _ _
                      (indexed-All Holds (mapping_operations w) (λ i x. assumption) 0
                        config.smb.mappings)
                      (All-append Holds _ _
                        (when_some-All Holds (firewall_operations w) (λ x. assumption)
                          config.firewall)
                        (All-append Holds _ _ (indexed-All Holds _ driver-Holds 0 config.drivers) (
                          All-append Holds _ _ (hooks-Holds after_apply config)
                            (hooks-Holds after_rollback config))))))))))))
