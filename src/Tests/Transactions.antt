-- ===== src/Tests/Transactions.antt =====
-- The transaction on a machine.
use netplan.Base.{
  ℕ, ◌+◌, ◌≤◌, ◌≡◌, ◌↔◌, refl, arith, true, false, List, [], ◌∷◌, text_eq, codes, ok, err,
}
use netplan.Config.{before_apply}
use netplan.Platform.{PlatformError, internal}
use netplan.Windows.Calls.{◌>>=◌, when, when_some, each, or_fail}
use netplan.Windows.Transaction.{run_hook, run_hooks, apply_drivers, attempt, undo, apply}
use netplan.Windows.Rollback.{RollbackAction, computer_name, service, execute, rollback_all}
use netplan.Windows.Unwinding.{Unwinds, rollback_all-Unwinds}
use netplan.Windows.Safety.{RolledBack, apply-RolledBack}
use netplan.Windows.Waiting.{Polls, wait_for_service_state-Polls}
use netplan.Windows.Verified.{Verified, restore_network-Verified}
use netplan.Windows.Network.{NetworkRestore}
use netplan.Windows.Restore.{
  capture, restored_matches, manual_snapshot_matches, verify_restored, restore_network,
}
use netplan.Windows.Services.{
  service_wait_timeout, service_late, service_reached, poll, wait_for_service_state,
  service_is_running, set_service_running,
}
use netplan.Windows.Reversible.{
  apply_identity, apply_wifi, apply_service, apply_smb, apply_reversible,
}
use netplan.Tests.{ascii, say}
use netplan.Tests.Machines.{Machine, bench, rename, idle, lan}

abbrev complaint : PlatformError
complaint = record {
  kind = internal;
  message = codes "hook cmd.exe exited with status 1";
  rolled_back = true;
}

-- The machine is renamed, its service is started, the hook fails, and both are undone.
run_test : apply ascii say bench rename idle ≡ (err complaint, idle)
unfolding apply run_hooks run_hook attempt undo rollback_all execute apply_reversible apply_identity
    apply_wifi apply_service apply_smb service_is_running set_service_running wait_for_service_state
    poll apply_drivers ◌>>=◌ when when_some each text_eq
run_test = refl

apply-RolledBack_example :
    (s0 : Machine) × (run_hooks bench rename before_apply idle ≡ (ok tt, s0))
    × RolledBack ascii say bench rename s0 idle
apply-RolledBack_example = apply-RolledBack ascii say bench rename idle complaint idle run_test refl

abbrev renamed : Machine
renamed = record { name = codes "b"; active = true; clock = 0 }

abbrev recorded : List RollbackAction
recorded = computer_name (codes "a") ∷ service (codes "Dnscache") false ∷ []

rollback_all-Unwinds_example :
    rollback_all bench recorded renamed ≡ ([], idle) ↔ Unwinds bench recorded renamed idle
rollback_all-Unwinds_example = rollback_all-Unwinds bench recorded renamed idle

wait_for_service_state-Polls_example :
    ((n : ℕ) × (n ≤ 301)
      × Polls bench
          (0 + service_wait_timeout)
          100
          (service_late bench 4)
          (service_reached bench (codes "Dnscache") 4)
          n
          idle
          (wait_for_service_state bench (codes "Dnscache") 4 idle).0
          (wait_for_service_state bench (codes "Dnscache") 4 idle).1)
    × ((wait_for_service_state bench (codes "Dnscache") 4 idle).0 ≡ ok tt
        → (u : Machine) × (bench.query_service (codes "Dnscache") u
            ≡ (ok 4, (wait_for_service_state bench (codes "Dnscache") 4 idle).1)))
wait_for_service_state-Polls_example =
    wait_for_service_state-Polls bench (codes "Dnscache") 4 idle (λ t. omega arith)
      (λ ms t. omega arith)

-- Captured from DHCP, with an address that a plan was to add
abbrev captured : NetworkRestore
captured = record {
  snapshot = lan;
  dns_from_dhcp = true;
  wins_from_dhcp = true;
  applied_addresses = 3232235777 ∷ [];
  applied_gateways = [];
}

restore_test : restore_network bench captured idle ≡ (ok tt, idle)
unfolding restore_network capture verify_restored restored_matches manual_snapshot_matches or_fail
    ◌>>=◌ when each
restore_test = refl

restore_network-Verified_example : Verified bench captured idle
restore_network-Verified_example = restore_network-Verified bench captured idle idle restore_test
