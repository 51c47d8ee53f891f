-- ===== src/Plan/Loops.antt =====
-- The operations that the other loops of `build_plan` push: their places and their identifiers.
use netplan.Base.{
  ◌∙◌, ℕ, ◌≡◌, refl, ap, Bool, true, false, Option, none, some, List, [], ◌∷◌, if◌then◌else◌, All,
}
use netplan.Config.{
  NetplanConfig, WifiProfile, WifiAction, scan, connect, disconnect, SmbAccount, SmbAccountKind,
  local, credential, SmbShare, SmbMapping, FirewallConfig, ServiceConfig, DriverOperation, install,
  restart_adapter, HookConfig, HookStage,
}
use netplan.Plan.{Operation, Wording, indexed, when_some}
use netplan.Plan.Decimal.{stops, read-decimal, read-decimal_alone, after-decimal}
use netplan.Plan.Order.{stage_place, Block, indexed-Block}
use netplan.Plan.Operations.{
  wifi_operations, wifi_action_operations, service_operations, account_operations, account_if,
  share_operations, mapping_operations, firewall_operations, driver_operations, hook_operations,
  stage_eq, stage_name, push_hooks,
}
use netplan.Plan.Parts.{Placed, Different, Indexed}

module _ (w : Wording) where
  pub wifi-Block : (i : ℕ) (xs : List WifiProfile) → Block 3 (indexed (wifi_operations w) i xs)
  unfolding wifi_operations
  wifi-Block i xs =
      indexed-Block (wifi_operations w) 13 3 (λ j x. (read-decimal_alone j, tt)) (λ j x. (tt, tt))
        (λ j x. (refl, tt)) i xs

  pub action-Block :
      (i : ℕ) (xs : List WifiAction) → Block 4 (indexed (wifi_action_operations w) i xs)
  unfolding wifi_action_operations
  action-Block = indexed-Block (wifi_action_operations w) 12 4 index different at
    where
      index : (i : ℕ) (x : WifiAction) → Indexed 12 i (wifi_action_operations w i x)
      index i (scan selector) = (read-decimal i _ refl, tt)
      index i (connect selector profile) = (read-decimal i _ refl, tt)
      index i (disconnect selector) = (read-decimal i _ refl, tt)

      different : (i : ℕ) (x : WifiAction) → Different (wifi_action_operations w i x)
      different i (scan selector) = (tt, tt)
      different i (connect selector profile) = (tt, tt)
      different i (disconnect selector) = (tt, tt)

      at : (i : ℕ) (x : WifiAction) → Placed 4 (wifi_action_operations w i x)
      at i (scan selector) = (refl, tt)
      at i (connect selector profile) = (refl, tt)
      at i (disconnect selector) = (refl, tt)

  pub service-Block :
      (i : ℕ) (xs : List ServiceConfig) → Block 5 (indexed (service_operations w) i xs)
  unfolding service_operations
  service-Block =
      indexed-Block (service_operations w) 8 5 (λ j x. (read-decimal j _ refl, tt))
        (λ j x. (tt, tt)) (λ j x. (refl, tt))

  pub account-Block : (i : ℕ) (xs : List SmbAccount) → Block 6 (indexed (account_operations w) i xs)
  unfolding account_operations
  account-Block =
      indexed-Block (account_operations w) 12 6
        (λ j (x : SmbAccount). only _ _ x.kind (read-decimal_alone j))
        (λ j (x : SmbAccount). lone _ x.kind) (λ j (x : SmbAccount). only _ _ x.kind refl)
    where
      only :
          (P : Operation → Type 0) (op : Operation) (kind : SmbAccountKind)
          → P op
          → All P (account_if kind op)
      only P op local h = (h, tt)
      only P op credential h = tt

      lone : (op : Operation) (kind : SmbAccountKind) → Different (account_if kind op)
      lone op local = (tt, tt)
      lone op credential = tt

  pub share-Block : (i : ℕ) (xs : List SmbShare) → Block 7 (indexed (share_operations w) i xs)
  unfolding share_operations
  share-Block =
      indexed-Block (share_operations w) 10 7 (λ j x. (read-decimal_alone j, tt)) (λ j x. (tt, tt))
        (λ j x. (refl, tt))

  pub mapping-Block : (i : ℕ) (xs : List SmbMapping) → Block 8 (indexed (mapping_operations w) i xs)
  unfolding mapping_operations
  mapping-Block =
      indexed-Block (mapping_operations w) 12 8 (λ j x. (read-decimal_alone j, tt))
        (λ j x. (tt, tt)) (λ j x. (refl, tt))

  pub firewall-Block :
      (firewall : Option FirewallConfig) → Block 9 (when_some (firewall_operations w) firewall)
  unfolding firewall_operations
  firewall-Block none = record { placed = tt; different = tt }
  firewall-Block (some firewall) = record { placed = (refl, tt); different = (tt, tt) }

  pub driver-Block :
      (i : ℕ) (xs : List DriverOperation) → Block 10 (indexed (driver_operations w) i xs)
  unfolding driver_operations
  driver-Block = indexed-Block (driver_operations w) 7 10 index different at
    where
      index : (i : ℕ) (x : DriverOperation) → Indexed 7 i (driver_operations w i x)
      index i (install inf_path hardware_id force restart) = (read-decimal i _ refl, tt)
      index i (restart_adapter selector) = (read-decimal i _ refl, tt)

      different : (i : ℕ) (x : DriverOperation) → Different (driver_operations w i x)
      different i (install inf_path hardware_id force restart) = (tt, tt)
      different i (restart_adapter selector) = (tt, tt)

      at : (i : ℕ) (x : DriverOperation) → Placed 10 (driver_operations w i x)
      at i (install inf_path hardware_id force restart) = (refl, tt)
      at i (restart_adapter selector) = (refl, tt)

  pub hooks-Block :
      (stage : HookStage) (k : ℕ) (config : NetplanConfig)
      → stage_place (b'.' ∷ stage_name stage) ≡ k
      → stops (b'.' ∷ stage_name stage) ≡ true
      → Block k (push_hooks w config stage)
  unfolding push_hooks hook_operations
  hooks-Block stage k config e h =
      indexed-Block (hook_operations w stage) 5 k
        (λ i (x : HookConfig). kept (stage_eq x.stage stage) _ _ (read-decimal i _ h))
        (λ i (x : HookConfig). lone (stage_eq x.stage stage) _)
        (λ i (x : HookConfig).
          kept (stage_eq x.stage stage) _ _ (ap stage_place (after-decimal i _ h) ∙ e))
        0 config.hooks
    where
      kept :
          (b : Bool) (P : Operation → Type 0) (op : Operation)
          → P op
          → All P (if b then op ∷ [] else [])
      kept true P op p = (p, tt)
      kept false P op p = tt

      lone : (b : Bool) (op : Operation) → Different (if b then op ∷ [] else [])
      lone true op = (tt, tt)
      lone false op = tt
