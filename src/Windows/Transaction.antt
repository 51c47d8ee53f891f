-- ===== src/Windows/Transaction.antt =====
-- crates/netpland/src/platform/windows/apply.rs: `apply`, with the hooks and the drivers, which are
-- not undone.
use netplan.Base.{
  Bool, true, false, not, ◌&&◌, Option, List, [], ◌∷◌, ◌++◌, any, keep, is_nil, length, Text, codes,
  Unicode, if◌then◌else◌, Result, ok, err,
}
use netplan.Config.{
  NetplanConfig, DriverOperation, install, restart_adapter, RestartPolicy, never, if_required,
  always, HookConfig, HookStage, before_apply, after_apply, after_rollback,
}
use netplan.Plan.{decimal}
use netplan.Plan.Operations.{stage_eq}
use netplan.Platform.{
  PlatformError, PlatformResult, PlatformWording, ApplyReport, platform_error, invalid_config,
}
use netplan.Platform.Resolve.{resolve_adapter}
use netplan.Windows.{Call, System, IoError, Output}
use netplan.Windows.Calls.{pure, ◌>>=◌, ◌>>◌, lift_result, when, each, or_fail}
use netplan.Windows.Tools.{internal_error, process_error, words, run_pnputil}
use netplan.Windows.Network
use netplan.Windows.Network.{inventory_or}
use netplan.Windows.Rollback.{rollback_all}
use netplan.Windows.Reversible.{Journal, lift, apply_reversible}

-- `details.join("; ")`
abbrev join : Text → List Text → Text
join first [] = first
join first (text ∷ texts) = first ++ codes "; " ++ join text texts

abbrev pub is_install : DriverOperation → Bool
is_install (install inf_path hardware_id force restart) = true
is_install (restart_adapter selector) = false

-- `*restart == Always || (*restart == IfRequired && outcome.reboot_required)`
abbrev pub should_restart : RestartPolicy → Bool → Bool
should_restart never reboot_required = false
should_restart if_required reboot_required = reboot_required
should_restart always reboot_required = true

abbrev pub succeeds : PlatformResult (Unit {0}) → Bool
succeeds (ok done) = true
succeeds (err error) = false

abbrev pub hook_complaint : PlatformResult (Unit {0}) → List Text
hook_complaint (ok done) = []
hook_complaint (err error) = (codes "after-rollback hook failed: " ++ error.message) ∷ []

module _ {S : Type 0} (system : System S) where
  abbrev pub waited : Text → Result IoError Output × S → PlatformResult (Unit {0}) × S
  waited program (ok output, s) = (
    if output.success
        then ok tt
        else err (
            internal_error (
              codes "hook "
              ++ system.debug program
              ++ codes " exited with status "
              ++ output.status)),
    s,
  )
  waited program (err error, s) = (err (process_error (codes "hook") error), s)

  abbrev pub started : Result IoError (Unit {0}) × S → PlatformResult (Unit {0}) × S
  started (ok done, s) = (ok tt, s)
  started (err error, s) = (err (process_error (codes "hook") error), s)

  unfoldable pub run_hook : HookConfig → Call S (Unit {0})
  run_hook hook s =
      if hook.wait
      then waited hook.program (system.run_tool hook.program hook.args s)
      else started (system.spawn_tool hook.program hook.args s)

  unfoldable pub run_hooks : NetplanConfig → HookStage → Call S (Unit {0})
  run_hooks config stage =
      each run_hook (keep (λ (hook : HookConfig). stage_eq hook.stage stage) config.hooks)

module _ {S : Type 0} (unicode : Unicode) (say : PlatformWording) (system : System S) where
  -- Whether the driver needs a reboot, once it is installed.
  abbrev install_driver : Text → Option Text → Bool → Call S Bool
  install_driver inf_path hardware_id true = do
    hardware ←
        or_fail
          (platform_error invalid_config (codes "forced driver replacement requires a hardware_id"))
          hardware_id
    system.force_install_driver inf_path hardware
  install_driver inf_path hardware_id false =
      run_pnputil system (codes "/add-driver" ∷ inf_path ∷ codes "/install" ∷ [])

  abbrev restart_device : Option Text → Call S (Unit {0})
  restart_device hardware_id = do
    hardware ←
        or_fail (platform_error invalid_config (codes "driver restart requires a hardware_id"))
          hardware_id
    run_pnputil system (words ("/restart-device" ∷ "/deviceid" ∷ []) ++ hardware ∷ [])
        >>= λ outcome. pure tt

  unfoldable pub apply_driver : DriverOperation → Call S (Unit {0})
  apply_driver (install inf_path hardware_id force restart) = do
    reboot_required ← install_driver inf_path hardware_id force
    when (should_restart restart reboot_required) (restart_device hardware_id)
  apply_driver (restart_adapter selector) = do
    inventory ← inventory_or system (codes "adapter restart inventory")
    adapter ← lift_result (resolve_adapter unicode say inventory selector)
    Network.restart_adapter system adapter.info.name

  unfoldable pub apply_drivers : NetplanConfig → Call S (Unit {0})
  apply_drivers config = each apply_driver config.drivers

  -- What the transaction did before it succeeded or failed, with `irreversible_change`.
  pub record Attempt : Type 0 where
    pub result : PlatformResult (Unit {0})
    pub irreversible_change : Bool
    pub journal : Journal S

  -- The drivers and the hooks that follow the reversible changes.
  abbrev pub finish : NetplanConfig → Call S (Unit {0})
  finish config = apply_drivers config >> run_hooks system config after_apply

  abbrev pub attempted : NetplanConfig → PlatformResult (Unit {0}) × Journal S → Attempt
  attempted config (err error, journal) = record {
    result = err error;
    irreversible_change = false;
    journal = journal;
  }
  attempted config (ok done, journal) =
      let (result, journal') = lift (finish config) journal in
      record {
        result = result;
        irreversible_change = any is_install config.drivers;
        journal = journal';
      }

  unfoldable pub attempt : NetplanConfig → S → Attempt
  attempt config s =
      attempted config
        (apply_reversible unicode say system config (record { rollback = []; machine = s }))

  -- The answer to a failure, once everything recorded was undone.
  unfoldable pub undo : NetplanConfig → PlatformError → Bool → Journal S → PlatformError × S
  undo config error irreversible_change journal =
      let (complaints, s) = rollback_all system journal.rollback journal.machine in
      let (hook, s') = run_hooks system config after_rollback s in
      (
        record {
          kind = error.kind;
          message = join error.message (complaints ++ hook_complaint hook);
          rolled_back =
              not (is_nil journal.rollback)
              && not irreversible_change
              && is_nil complaints
              && succeeds hook;
        },
        s',
      )

  abbrev pub report : Journal S → ApplyReport
  report journal = record {
    message =
        codes "live apply completed successfully; "
        ++ decimal (length journal.rollback)
        ++ codes " reversible mutation(s) recorded";
  }

  abbrev failed : PlatformError × S → PlatformResult ApplyReport × S
  failed (error, s) = (err error, s)

  abbrev pub concluded : NetplanConfig → Attempt → PlatformResult ApplyReport × S
  concluded config attempt = elim attempt.result [
    | ok done ↦ (ok (report attempt.journal), attempt.journal.machine)
    | err error ↦ failed (undo config error attempt.irreversible_change attempt.journal)
  ]

  unfoldable pub apply : NetplanConfig → Call S ApplyReport
  apply config =
      run_hooks system config before_apply >>= λ done. λ s. concluded config (attempt config s)
