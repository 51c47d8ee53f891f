-- ===== src/Cli/Answered.antt =====
-- crates/netplan-cli/src/main.rs: how `call_with_autostart` ends.
use netplan.Base.{
  ℕ, zero, suc, ◌≡◌, ◌⊎◌, refl, inl, inr, Bool, true, false, not, ◌||◌, Bool-cases, Option, none,
  some, Text, codes, ◌++◌, Result, ok, err,
}
use netplan.Protocol.{Request, Response}
use netplan.Cli.{Env, CallError, after, ◌>>=◌, is_endpoint_absent, error_text}
use netplan.Cli.Commands.{
  spawn_daemon, retried, retry, start_attempts, first_answered, call_with_autostart,
}

module _ {S : Type 0} (env : Env S) (request : Request) where
  -- At most so many rounds from a state, each of which sleeps for 50 milliseconds and then calls: the
  -- first that is answered ends them, and else the error of the last one does.
  pub data Attempts : ℕ → S → Result Text Response × S → Type 0 where
    answered :
        {n : ℕ} {s t : S} {response : Response}
        → env.call request (env.sleep 50 s) ≡ (ok response, t)
        → Attempts (suc n) s (ok response, t)
    given_up :
        {s t : S} {error : CallError}
        → env.call request (env.sleep 50 s) ≡ (err error, t)
        → Attempts 1 s (err (codes "daemon did not become ready: " ++ error_text error), t)
    again :
        {n : ℕ} {s t : S} {error : CallError} {result : Result Text Response × S}
        → env.call request (env.sleep 50 s) ≡ (err error, t)
        → Attempts (suc n) t result
        → Attempts (suc (suc n)) s result

  abbrev pub Spawned : Result Text (Unit {0}) × S → Result Text Response × S → Type 0
  Spawned (ok u, s) result = Attempts 40 s result
  Spawned (err message, s) result = result ≡ (err message, s)

  -- How a call ends, by the answer of the first attempt
  abbrev pub Concludes : Bool → Result CallError Response × S → Result Text Response × S → Type 0
  Concludes no_autostart (ok response, t) result = result ≡ (ok response, t)
  Concludes no_autostart (err error, t) result =
      ((no_autostart || not (is_endpoint_absent error) ≡ true)
        × (result ≡ (err (error_text error), t)))
      ⊎ ((no_autostart ≡ false)
          × (is_endpoint_absent error ≡ true)
          × Spawned (spawn_daemon env t) result)

  retry-once :
      (last_error : Option CallError) (s : S) (answer : Result CallError Response × S)
      → env.call request (env.sleep 50 s) ≡ answer
      → Attempts 1 s (retried env (retry env zero request) answer)
  unfolding retry
  retry-once last_error s (ok response, t) e = answered e
  retry-once last_error s (err error, t) e = given_up e

  retry-again :
      (n : ℕ) (s : S) (answer : Result CallError Response × S)
      → env.call request (env.sleep 50 s) ≡ answer
      → ((error : CallError) (t : S)
          → Attempts (suc n) t (retry env (suc n) request (some error) t))
      → Attempts (suc (suc n)) s (retried env (retry env (suc n) request) answer)
  retry-again n s (ok response, t) e h = answered e
  retry-again n s (err error, t) e h = again e (h error t)

  retry-Attempts :
      (n : ℕ) (last_error : Option CallError) (s : S)
      → Attempts (suc n) s (retry env (suc n) request last_error s)
  unfolding retry
  retry-Attempts zero last_error s =
      retry-once last_error s (env.call request (env.sleep 50 s)) refl
  retry-Attempts (suc n) last_error s =
      retry-again n s (env.call request (env.sleep 50 s)) refl
        (λ error t. retry-Attempts n (some error) t)

  spawned :
      (answer : Result Text (Unit {0}) × S)
      → Spawned answer (after (λ u. retry env start_attempts request none) answer)
  spawned (ok u, s) = retry-Attempts 39 none s
  spawned (err message, s) = refl

  first_answered-Concludes :
      (no_autostart : Bool) (answer : Result CallError Response × S)
      → Concludes no_autostart answer (first_answered env request no_autostart answer)
  unfolding ◌>>=◌
  first_answered-Concludes no_autostart (ok response, t) = refl
  first_answered-Concludes true (err error, t) = inl (refl, refl)
  first_answered-Concludes false (err error, t) = elim (Bool-cases (is_endpoint_absent error)) [
    | inl gone ↦ inr (refl, gone, rw gone (spawned (spawn_daemon env t)))
    | inr there ↦ rw there (inl (refl, refl))
  ]

  -- A call is answered by the first attempt, or fails with its error where the daemon is not to be
  -- started or the endpoint was there. Otherwise `spawn_daemon` runs once, from where the first attempt
  -- ended; where it fails, the call fails with its error, and else at most 40 rounds follow, each a
  -- sleep of 50 milliseconds and an attempt from where the one before it ended: the call ends with the
  -- first answer, or after 40 failures with the error of the last one.
  pub call_with_autostart-Concludes :
      (no_autostart : Bool) (s : S)
      → Concludes no_autostart (env.call request s) (call_with_autostart env request no_autostart s)
  unfolding call_with_autostart
  call_with_autostart-Concludes no_autostart s =
      first_answered-Concludes no_autostart (env.call request s)
