-- ===== src/Windows/Unwinding.antt =====
-- crates/netpland/src/platform/windows/apply.rs: what `rollback_all` does to the recorded changes.
use mathlib.Core.List.{reverse-cons, append-nil, append_assoc}
use netplan.Base.{
  ◌≡◌, refl, sym, ap, subst, ◌↔◌, arith, List, [], ◌∷◌, ◌++◌, reverse, Text, ok, err,
}
use netplan.Platform.{PlatformResult}
use netplan.Windows.{System}
use netplan.Windows.Rollback.{RollbackAction, execute, complaint, execute_all, rollback_all}

module _ {S : Type 0} (system : System S) where
  -- Every change is undone with success, from a state to another, the last recorded one first.
  abbrev pub Unwinds : List RollbackAction → S → S → Type 0
  Unwinds [] s t = s ≡ t
  Unwinds (action ∷ actions) s t =
      (u : S) × Unwinds actions s u × (execute system action u ≡ (ok tt, t))

  execute_all-append :
      (xs : List RollbackAction) (a : RollbackAction) (s : S)
      → execute_all system (xs ++ a ∷ []) s ≡ (
        (execute_all system xs s).0 ++ complaint (execute system a (execute_all system xs s).1).0,
        (execute system a (execute_all system xs s).1).1,
      )
  execute_all-append [] a s = rw (append-nil (complaint (execute system a s).0)) refl
  execute_all-append (x ∷ xs) a s =
      let s' = (execute system x s).1 in
      rw
        (
          execute_all-append xs a s',
          append_assoc (complaint (execute system x s).0) (execute_all system xs s').0
              (complaint (execute system a (execute_all system xs s').1).0),
        )
        refl

  -- The recorded change `action`, before which nothing else is undone: first those after it.
  pub rollback_all-cons :
      (action : RollbackAction) (actions : List RollbackAction) (s : S)
      → rollback_all system (action ∷ actions) s ≡ (
        (rollback_all system actions s).0
            ++ complaint (execute system action (rollback_all system actions s).1).0,
        (execute system action (rollback_all system actions s).1).1,
      )
  unfolding rollback_all
  rollback_all-cons action actions s =
      rw (reverse-cons action actions) (execute_all-append (reverse actions) action s)

  quiet_iff :
      (cs : List Text) (answer : PlatformResult (Unit {0}) × S) (t : S)
      → ◌≡◌ {A = List Text × S} (cs ++ complaint answer.0, answer.1) ([], t)
        ↔ (cs ≡ []) × (answer ≡ (ok tt, t))
  quiet_iff [] (ok done, u) t =
      (λ h. (refl, ap (λ p. (ok tt, p.1)) h), λ h. ap (λ p. ([], p.1)) h.1)
  quiet_iff [] (err e, u) t = (λ h. ground arith, λ h. ground arith)
  quiet_iff (c ∷ cs) answer t = (λ h. ground arith, λ h. ground arith)

  -- `rollback_all` reports no failure exactly when it undid every recorded change with success, the
  -- last one first.
  pub rollback_all-Unwinds :
      (actions : List RollbackAction) (s t : S)
      → rollback_all system actions s ≡ ([], t) ↔ Unwinds actions s t
  unfolding rollback_all
  rollback_all-Unwinds [] s t = (λ h. ap (λ p. p.1) h, λ h. ap (λ u. ([], u)) h)
  rollback_all-Unwinds (action ∷ actions) s t =
      let cs = (rollback_all system actions s).0 in
      let u = (rollback_all system actions s).1 in
      let undone = rollback_all-Unwinds actions s in
      let quiet = quiet_iff cs (execute system action u) t in
      rw (rollback_all-cons action actions s) (
        λ h.
            let (none_before, now) = quiet.0 h in
            (u, (undone u).0 (ap (λ c. (c, u)) none_before), now),
        λ (v, before, now).
            let e = (undone v).1 before in
            quiet.1 (
              ap (λ p. p.0) e,
              subst (λ x. execute system action x ≡ (ok tt, t)) (sym (ap (λ p. p.1) e)) now,
            ),
      )
