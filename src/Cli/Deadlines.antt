-- ===== src/Cli/Deadlines.antt =====
-- crates/netplan-cli/src/service.rs: how `wait_for_state` ends.
use netplan.Base.{
  ℕ, zero, suc, ◌+◌, ◌*◌, ◌≤◌, ◌<◌, ◌≡◌, ◌⊎◌, refl, subst, inl, inr, arith, false, ◌==◌, leb,
  Bool-cases, Option, none, some, Text, Result, ok, err,
}
use netplan.Cli.{Env}
use netplan.Cli.Services.{not_reached, polled, poll_state, or_late, wait_for_state, wait_timeout}

module _ {S : Type 0} (env : Env S) (desired : ℕ) where
  -- The last query read the desired state; or it failed; or it read another one when the deadline
  -- had passed.
  abbrev pub Waited : ℕ → Result Text (Unit {0}) × S → Type 0
  Waited deadline (ok u, t) = (s : S) × (env.query_state s ≡ (ok desired, t))
  Waited deadline (err message, t) =
      (s : S) × ((env.query_state s ≡ (err message, t))
        ⊎ ((current : ℕ) × (env.query_state s ≡ (ok current, t))
            × (current == desired ≡ false)
            × (deadline ≤ env.now t)
            × (message ≡ not_reached desired)))

  abbrev Ended : ℕ → Option (Result Text (Unit {0})) × S → Type 0
  Ended deadline (some answer, t) = Waited deadline (answer, t)
  Ended deadline (none, t) = ⊥

  polled-Ended :
      (deadline : ℕ) (again : S → Option (Result Text (Unit {0})) × S) (s : S)
      (answer : Result Text ℕ × S)
      → env.query_state s ≡ answer
      → (env.now answer.1 < deadline → Ended deadline (again (env.sleep 100 answer.1)))
      → Ended deadline (polled env deadline desired again answer)
  polled-Ended deadline again s (err message, t) e h = (s, inl e)
  polled-Ended deadline again s (ok current, t) e h = elim (Bool-cases (current == desired)) [
    | inl same ↦
        let there : current ≡ desired = ground arith in
        rw same (s, subst (λ c. env.query_state s ≡ (ok c, t)) there e)
    | inr other ↦ elim (Bool-cases (leb deadline (env.now t))) [
      | inl late ↦ rw (other, late) (s, inr (current, e, other, ground arith, refl))
      | inr early ↦ rw (other, early) (h (ground arith))
    ]
  ]

  or_late-Waited :
      (deadline : ℕ) (result : Option (Result Text (Unit {0})) × S)
      → Ended deadline result
      → Waited deadline (or_late env desired result)
  or_late-Waited deadline (some answer, t) h = h
  or_late-Waited deadline (none, t) h = absurd h

  module _ (reads_on : (t : S) → env.now t ≤ env.now (env.query_state t).1)
      (sleeps_on : (ms : ℕ) (t : S) → env.now t + ms ≤ env.now (env.sleep ms t)) where
    poll_state-Ended :
        (fuel deadline : ℕ) (s : S)
        → deadline ≤ env.now s + fuel * 100
        → Ended deadline (poll_state env (suc fuel) deadline desired s)
    unfolding poll_state
    poll_state-Ended zero deadline s h =
        let read = reads_on s in
        polled-Ended deadline (poll_state env zero deadline desired) s (env.query_state s) refl
          (λ early. absurd (omega arith))
    poll_state-Ended (suc fuel) deadline s h =
        let read = reads_on s in
        let slept = sleeps_on 100 (env.query_state s).1 in
        polled-Ended deadline (poll_state env (suc fuel) deadline desired) s (env.query_state s)
          refl
          (λ early.
            poll_state-Ended fuel deadline (env.sleep 100 (env.query_state s).1) (omega arith))

    -- On a clock that a query does not turn back and that a sleep advances by its length,
    -- `wait_for_state` ends with a query behind which it sleeps no more: it succeeds where that query
    -- read the desired state, fails with the error of that query, or fails because the query read
    -- another state when 30 seconds had passed since the start.
    pub wait_for_state-Waited :
        (s : S) → Waited (env.now s + wait_timeout) (wait_for_state env desired s)
    unfolding wait_for_state
    wait_for_state-Waited s =
        or_late-Waited (env.now s + wait_timeout)
          (poll_state env 302 (env.now s + wait_timeout) desired s)
          (poll_state-Ended 301 (env.now s + wait_timeout) s (omega arith))
