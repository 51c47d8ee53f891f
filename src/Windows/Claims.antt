-- ===== src/Windows/Claims.antt =====
-- crates/netpland/src/platform/windows/apply.rs: which errors do not say that the changes are rolled
-- back, and what it takes to say so.
use netplan.Base.{
  ◌≡◌, refl, subst, ◌≢◌, inl, inr, arith, Bool, true, false, not, ◌&&◌, Bool-cases, List, [], ◌∷◌,
  is_nil, Text, codes, Result, ok, err,
}
use netplan.Config.{NetplanConfig, HookConfig, HookStage}
use netplan.Platform.{PlatformResult}
use netplan.Windows
use netplan.Windows.{System, Call, IoError, IoErrorKind, Output}
use netplan.Windows.Calls.{each, ◌>>=◌, answer-cases}
use netplan.Windows.Tools.{process_error, process_error_of}
use netplan.Windows.Transaction.{waited, started, succeeds, run_hook, run_hooks}

-- An answer that does not claim that changes were undone.
abbrev pub Unclaimed : {A S : Type 0} → PlatformResult A × S → Type 0
Unclaimed (ok a, s) = Unit
Unclaimed (err error, s) = error.rolled_back ≡ false

kind-Unclaimed :
    (context text : Text) (kind : IoErrorKind)
    → (process_error_of context text kind).rolled_back ≡ false
kind-Unclaimed context text Windows.not_found = refl
kind-Unclaimed context text Windows.permission_denied = refl
kind-Unclaimed context text Windows.other = refl

process_error-Unclaimed :
    (context : Text) (error : IoError) → (process_error context error).rolled_back ≡ false
unfolding process_error
process_error-Unclaimed context error = kind-Unclaimed context error.text error.kind

pub is_nil-false : {A : Type 0} (xs : List A) → not (is_nil xs) ≡ true → xs ≢ []
is_nil-false [] h = absurd (ground arith)
is_nil-false (x ∷ xs) h = λ e. ground arith

pub is_nil-true : {A : Type 0} (xs : List A) → is_nil xs ≡ true → xs ≡ []
is_nil-true [] h = refl
is_nil-true (x ∷ xs) h = absurd (ground arith)

pub and-true4 :
    (a b c d : Bool) → a && b && c && d ≡ true → (a ≡ true) × (b ≡ true) × (c ≡ true) × (d ≡ true)
and-true4 true true true true h = (refl, refl, refl, refl)
and-true4 false b c d h = absurd (ground arith)
and-true4 true false c d h = absurd (ground arith)
and-true4 true true false d h = absurd (ground arith)
and-true4 true true true false h = absurd (ground arith)

pub succeeds-ok :
    {S : Type 0} (answer : PlatformResult (Unit {0}) × S)
    → succeeds answer.0 ≡ true
    → answer ≡ (ok tt, answer.1)
succeeds-ok (ok done, s) h = refl
succeeds-ok (err e, s) h = absurd (ground arith)

module _ {S : Type 0} (system : System S) where
  run_hook-Unclaimed : (hook : HookConfig) (s : S) → Unclaimed (run_hook system hook s)
  unfolding run_hook
  run_hook-Unclaimed hook s = elim (Bool-cases hook.wait) [
    | inl e ↦ rw e (waits (system.run_tool hook.program hook.args s))
    | inr e ↦ rw e (starts (system.spawn_tool hook.program hook.args s))
  ]
    where
      waits : (answer : Result IoError Output × S) → Unclaimed (waited system hook.program answer)
      waits (ok output, u) = elim (Bool-cases output.success) [
        | inl e ↦ rw e tt
        | inr e ↦ rw e refl
      ]
      waits (err error, u) = process_error-Unclaimed (codes "hook") error

      starts : (answer : Result IoError (Unit {0}) × S) → Unclaimed (started system answer)
      starts (ok done, u) = tt
      starts (err error, u) = process_error-Unclaimed (codes "hook") error

  each-Unclaimed :
      (f : HookConfig → Call S (Unit {0}))
      → ((hook : HookConfig) (s : S) → Unclaimed (f hook s))
      → (hooks : List HookConfig) (s : S) → Unclaimed (each f hooks s)
  unfolding each ◌>>=◌
  each-Unclaimed f h [] s = tt
  each-Unclaimed f h (hook ∷ hooks) s = elim (answer-cases (f hook s)) [
    | inl (done, u, e) ↦ rw e (each-Unclaimed f h hooks u)
    | inr (error, u, e) ↦ rw e (subst Unclaimed e (h hook s))
  ]

  pub run_hooks-Unclaimed :
      (config : NetplanConfig) (stage : HookStage) (s : S)
      → Unclaimed (run_hooks system config stage s)
  unfolding run_hooks
  run_hooks-Unclaimed config stage s = each-Unclaimed (run_hook system) run_hook-Unclaimed _ s
