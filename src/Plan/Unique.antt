-- ===== src/Plan/Unique.antt =====
-- The plan of a configuration: every identifier once, and in the order of execution.
use netplan.Base.{refl, arith, ◌++◌, AllPairs, text_eq}
use netplan.Config.{NetplanConfig, before_apply, after_apply, after_rollback}
use netplan.Plan.{Wording}
use netplan.Plan.Operations.{push_hooks, build_plan}
use netplan.Plan.Order.{Precedes, From, Block-append, Block-From}
use netplan.Plan.Parts.{identity-Block, adapter-Block}
use netplan.Plan.Loops.{
  wifi-Block, action-Block, service-Block, account-Block, share-Block, mapping-Block,
  firewall-Block, driver-Block, hooks-Block,
}

module _ (w : Wording) (config : NetplanConfig) where
  last_hooks-From : From 11 (push_hooks w config after_apply ++ push_hooks w config after_rollback)
  unfolding text_eq
  last_hooks-From =
      Block-append 11 12 _ _ (omega arith) (hooks-Block w after_apply 11 config refl refl)
        (Block-From 12 _ (hooks-Block w after_rollback 12 config refl refl))

  plan-From : From 0 (build_plan w config)
  unfolding build_plan text_eq
  plan-From = Block-append 0 1 _ _ (omega arith) (hooks-Block w before_apply 0 config refl refl) (
      Block-append 1 2 _ _ (omega arith) (identity-Block w config.identity) (
        Block-append 2 3 _ _ (omega arith) (adapter-Block w 0 config.adapters) (
          Block-append 3 4 _ _ (omega arith) (wifi-Block w 0 config.wifi) (
            Block-append 4 5 _ _ (omega arith) (action-Block w 0 config.wifi_actions) (
              Block-append 5 6 _ _ (omega arith) (service-Block w 0 config.services) (
                Block-append 6 7 _ _ (omega arith) (account-Block w 0 config.smb.accounts) (
                  Block-append 7 8 _ _ (omega arith) (share-Block w 0 config.smb.shares) (
                    Block-append 8 9 _ _ (omega arith) (mapping-Block w 0 config.smb.mappings) (
                      Block-append 9 10 _ _ (omega arith) (firewall-Block w config.firewall) (
                        Block-append 10 11 _ _ (omega arith) (driver-Block w 0 config.drivers)
                          last_hooks-From))))))))))

  -- In a plan every identifier stands once, and operations follow the order of execution: hooks
  -- before the apply, identity, adapters, Wi-Fi profiles, Wi-Fi actions, services, accounts, shares,
  -- mappings, firewall, drivers, hooks after the apply, hooks after a rollback.
  pub build_plan-Precedes : AllPairs Precedes (build_plan w config)
  build_plan-Precedes = plan-From.ordered
