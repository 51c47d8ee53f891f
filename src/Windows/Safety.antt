-- ===== src/Windows/Safety.antt =====
-- crates/netpland/src/platform/windows/apply.rs: what `apply` did when it answers.
use netplan.Base.{
  ◌≡◌, refl, ap, subst, ◌∙◌, ◌≢◌, ◌⊎◌, inl, inr, arith, Bool, true, false, not, Result-cases, [],
  any, is_nil, Unicode, ok, err,
}
use netplan.Config.{NetplanConfig, before_apply, after_rollback}
use netplan.Platform.{PlatformError, PlatformResult, PlatformWording}
use netplan.Windows.{System}
use netplan.Windows.Calls.{◌>>=◌, answer-cases, ok-err, err-pair}
use netplan.Windows.Rollback.{rollback_all}
use netplan.Windows.Reversible.{Journal, apply_reversible}
use netplan.Windows.Transaction.{
  is_install, succeeds, run_hooks, attempt, attempted, undo, concluded, apply, Attempt,
}
use netplan.Windows.Unwinding.{Unwinds, rollback_all-Unwinds}
use netplan.Windows.Claims.{
  Unclaimed, run_hooks-Unclaimed, is_nil-false, is_nil-true, and-true4, succeeds-ok,
}

module _ {S : Type 0} (unicode : Unicode) (say : PlatformWording) (system : System S) where
  -- What `undo` has done where it says that the changes are rolled back.
  undo-rolled_back :
      (config : NetplanConfig) (error : PlatformError) (irreversible : Bool) (journal : Journal S)
      → (undo unicode say system config error irreversible journal).0.rolled_back ≡ true
      → (journal.rollback ≢ [])
        × (irreversible ≡ false)
        × ((u : S) × Unwinds system journal.rollback journal.machine u
            × (run_hooks system config after_rollback u
                ≡ (ok tt, (undo unicode say system config error irreversible journal).1)))
  unfolding undo
  undo-rolled_back config error irreversible journal h =
      let undone = rollback_all system journal.rollback journal.machine in
      let hook = run_hooks system config after_rollback undone.1 in
      let (changed, reversible, quiet, hooked) =
        and-true4 (not (is_nil journal.rollback)) (not irreversible) (is_nil undone.0)
          (succeeds hook.0) h in
      (
        is_nil-false journal.rollback changed,
        ground arith,
        (
          undone.1,
          (rollback_all-Unwinds system journal.rollback journal.machine undone.1).0
              (ap (λ c. (c, undone.1)) (is_nil-true undone.0 quiet)),
          succeeds-ok hook hooked,
        ),
      )

  abbrev pub attempt_of : NetplanConfig → S → Attempt unicode say system
  attempt_of = attempt unicode say system

  abbrev pub reversible : NetplanConfig → S → PlatformResult (Unit {0}) × Journal S
  reversible config s =
      apply_reversible unicode say system config (record { rollback = []; machine = s })

  -- The transaction started at `s0` failed, reached no driver to install, and everything that it
  -- recorded was undone, the last change first, before the hooks that end at `t`.
  abbrev pub RolledBack : NetplanConfig → S → S → Type 0
  RolledBack config s0 t =
      ((attempt_of config s0).journal.rollback ≢ [])
      × (((error : PlatformError) × ((reversible config s0).0 ≡ err error))
          ⊎ (any is_install config.drivers ≡ false))
      × ((u : S) × Unwinds system (attempt_of config s0).journal.rollback
            (attempt_of config s0).journal.machine u
          × (run_hooks system config after_rollback u ≡ (ok tt, t)))

  not_irreversible :
      (config : NetplanConfig) (answer : PlatformResult (Unit {0}) × Journal S)
      → (attempted unicode say system config answer).irreversible_change ≡ false
      → ((error : PlatformError) × (answer.0 ≡ err error)) ⊎ (any is_install config.drivers ≡ false)
  not_irreversible config (ok done, journal) h = inr h
  not_irreversible config (err error, journal) h = inl (error, refl)

  attempt-not_irreversible :
      (config : NetplanConfig) (s : S)
      → (attempt_of config s).irreversible_change ≡ false
      → ((error : PlatformError) × ((reversible config s).0 ≡ err error))
        ⊎ (any is_install config.drivers ≡ false)
  unfolding attempt
  attempt-not_irreversible config s h = not_irreversible config (reversible config s) h

  concluded-RolledBack :
      (config : NetplanConfig) (s0 : S) (error : PlatformError) (t : S)
      → concluded unicode say system config (attempt_of config s0) ≡ (err error, t)
      → error.rolled_back ≡ true
      → RolledBack config s0 t
  concluded-RolledBack config s0 error t h claimed =
      let a = attempt_of config s0 in
      elim (Result-cases a.result) [
        | inl (done, e) ↦ absurd (ok-err (rw e at h))
        | inr (x, e) ↦
            let (e0, e1) =
              err-pair (undo unicode say system config x a.irreversible_change a.journal)
                (rw e at h) in
            let (changed, kept, (u, undone, hooked)) =
              undo-rolled_back config x a.irreversible_change a.journal
                (ap (λ (p : PlatformError). p.rolled_back) e0 ∙ claimed) in
            (
              changed,
              attempt-not_irreversible config s0 kept,
              (u, undone, hooked ∙ ap (λ v. (ok tt, v)) e1),
            )
      ]

  -- When `apply` answers with an error that says that the changes are rolled back, the hooks before it
  -- succeeded, something had been recorded, no driver was to be installed unless the reversible
  -- changes failed, every recorded change was undone with success, the last one first, and the hooks
  -- after the rollback succeeded.
  pub apply-RolledBack :
      (config : NetplanConfig) (s : S) (error : PlatformError) (t : S)
      → apply unicode say system config s ≡ (err error, t)
      → error.rolled_back ≡ true
      → (s0 : S) × (run_hooks system config before_apply s ≡ (ok tt, s0)) × RolledBack config s0 t
  unfolding apply ◌>>=◌
  apply-RolledBack config s error t h claimed =
      elim (answer-cases (run_hooks system config before_apply s)) [
        | inl (done, s0, e) ↦ (s0, e, concluded-RolledBack config s0 error t (rw e at h) claimed)
        | inr (x, u, e) ↦
            let e0 = (err-pair (x, u) (rw e at h)).0 in
            let quiet : x.rolled_back ≡ false =
              subst Unclaimed e (run_hooks-Unclaimed system config before_apply s) in
            absurd (ground arith)
      ]
