-- ===== src/Rpc/Waiting.antt =====
-- crates/netplan-cli/src/jsonrpc.rs: the loop of `wait_for_job`, which ends, and what it answers.
use netplan.Base.{
  ℕ, zero, suc, ◌+◌, ◌-◌, ◌*◌, ◌/◌, ◌≤◌, ◌<◌, ◌==◌, min, ◌≡◌, refl, ap, arith, true, false,
  Bool-cases, inl, inr, Option, none, some, Text, Unicode, Result, ok, err,
}
use netplan.Protocol.{Response, JobState}
use netplan.Protocol
use netplan.Rpc.{Value, JobWaitParams, Serde}
use netplan.Rpc.Commands.{unwrap_or}
use netplan.Rpc.Answers.{is_terminal_job_state, job_value}
use netplan.Rpc.Gateway.{
  Host, Outcome, done, failure, unfinished, Action, from_millis, pause, status_read,
  status_answered, poll, wait_for_job,
}
use netplan.Rpc.Bounds.{InRange}

-- The clock: it does not run backwards in a call, and a sleep takes as long as it is asked to.
pub record Timely {S : Type 0} (host : Host S) : Type 0 where
  pub calls_later :
      (ns : ℕ) (job_id : Text) (s : S)
      → host.now s ≤ host.now (host.call_within ns (Protocol.job_status job_id) s).1
  pub sleeps_long : (ns : ℕ) (s : S) → host.now s + ns ≤ host.now (host.sleep ns s)

le-mul : (fuel interval : ℕ) → 0 < fuel * interval → interval ≤ fuel * interval
le-mul zero interval h = absurd (omega arith)
le-mul (suc fuel) interval h = grind arith

-- A round takes one from the rounds that the time left needs.
rounds_left :
    (fuel interval deadline s t u : ℕ)
    → s ≤ t
    → t + min interval (deadline - t) ≤ u
    → (deadline - t == 0) ≡ false
    → deadline - s + interval ≤ suc fuel * interval
    → deadline - u + interval ≤ fuel * interval
rounds_left fuel interval deadline s t u st tu later h =
    let before : t < deadline = ground arith in
    let more : suc fuel * interval ≡ fuel * interval + interval = grind arith in
    let k : deadline - s ≤ fuel * interval = omega arith in
    let l = le-mul fuel interval (omega arith) in omega arith

rounds_enough :
    (timeout_ms interval_ms now : ℕ)
    → 25 ≤ interval_ms
    → now + from_millis timeout_ms - now + from_millis interval_ms
      ≤ (timeout_ms / interval_ms + 2) * from_millis interval_ms
rounds_enough timeout_ms interval_ms now h =
    let q = timeout_ms / interval_ms in
    let k : timeout_ms ≤ q * interval_ms + interval_ms = grind arith in
    let l : (q + 2) * (interval_ms * 1000000) ≡ (q * interval_ms + 2 * interval_ms) * 1000000 =
      grind arith in
    omega arith

module _ {S : Type 0} (serde : Serde) (unicode : Unicode) (host : Host S) where
  -- A value is what the daemon answered of a job that has ended; the loop has not run out of rounds.
  abbrev pub Waits : Text → Outcome Value → Type 0
  Waits job_id (done value) =
      (ns : ℕ) × (s : S) × (id : Text) × (state : JobState) × (message : Option Text)
      × ((host.call_within ns (Protocol.job_status job_id) s).0
          ≡ some (ok (Protocol.job_status_response id state message)))
      × (is_terminal_job_state state ≡ true)
      × (value ≡ job_value serde id state message)
  Waits job_id (failure error) = Unit {0}
  Waits job_id unfinished = ⊥

  module _ (timely : Timely host) (job_id : Text) (timeout_ms interval deadline : ℕ) where
    abbrev PollWaits : Outcome Value × S → Type 0
    PollWaits answer = Waits job_id answer.0

    abbrev pauses : Action S Value → Action S Value
    pauses = pause serde unicode host job_id timeout_ms interval deadline

    abbrev reads : Action S Value → Response → Action S Value
    reads = status_read serde unicode host job_id timeout_ms interval deadline

    read-Waits :
        (again : Action S Value) (ns : ℕ) (s t : S) (response : Response)
        → (host.call_within ns (Protocol.job_status job_id) s).0 ≡ some (ok response)
        → PollWaits (pauses again t)
        → PollWaits (reads again response t)
    read-Waits again ns s t (Protocol.job_status_response id state message) e h =
        elim (Bool-cases (is_terminal_job_state state)) [
          | inl over ↦ rw over (ns, s, id, state, message, e, over, refl)
          | inr more ↦ rw more h
        ]
    read-Waits again ns s t response e h = tt

    answered-Waits :
        (again : Action S Value) (ns : ℕ) (s : S) (answer : Option (Result Text Response) × S)
        → host.call_within ns (Protocol.job_status job_id) s ≡ answer
        → PollWaits (pauses again answer.1)
        → PollWaits
            (status_answered serde unicode host job_id timeout_ms interval deadline again answer)
    answered-Waits again ns s (none, t) e h = tt
    answered-Waits again ns s (some (err message), t) e h = tt
    answered-Waits again ns s (some (ok response), t) e h =
        read-Waits again ns s t response (ap (λ p. p.0) e) h

    pause-Waits :
        (again : Action S Value) (t : S)
        → ((deadline - host.now t == 0) ≡ false
            → PollWaits (again (host.sleep (min interval (deadline - host.now t)) t)))
        → PollWaits (pauses again t)
    pause-Waits again t h = elim (Bool-cases (deadline - host.now t == 0)) [
      | inl over ↦ rw over tt
      | inr more ↦ rw more (h more)
    ]

    poll-Waits :
        (fuel : ℕ) (s : S)
        → 0 < interval
        → deadline - host.now s + interval ≤ fuel * interval
        → PollWaits (poll serde unicode host job_id timeout_ms interval deadline fuel s)
    unfolding poll
    poll-Waits zero s p h = absurd (grind arith)
    poll-Waits (suc fuel) s p h = elim (Bool-cases (deadline - host.now s == 0)) [
      | inl over ↦ rw over tt
      | inr more ↦ rw more (
          let ns = deadline - host.now s in
          let again = poll serde unicode host job_id timeout_ms interval deadline fuel in
          let t = (host.call_within ns (Protocol.job_status job_id) s).1 in
          answered-Waits again ns s (host.call_within ns (Protocol.job_status job_id) s) refl (
            pause-Waits again t (λ later.
              poll-Waits fuel (host.sleep (min interval (deadline - host.now t)) t) p (
                rounds_left fuel interval deadline (host.now s) (host.now t)
                  (host.now (host.sleep (min interval (deadline - host.now t)) t))
                  (timely.calls_later ns job_id s)
                  (timely.sleeps_long (min interval (deadline - host.now t)) t) later h))))
    ]

  -- When the clock does not run backwards in a call and a sleep takes its time, a wait with an
  -- interval from 25 to 5000 milliseconds ends; where it gives a value, the daemon has answered that
  -- the job is over, and the value is that answer.
  pub wait_for_job-Waits :
      Timely host
      → (params : JobWaitParams) (s : S) → InRange 25 5000 (unwrap_or 100 params.interval_ms)
      → Waits params.job_id (wait_for_job serde unicode host params s).0
  unfolding wait_for_job
  wait_for_job-Waits timely params s range =
      let timeout_ms = unwrap_or 30000 params.timeout_ms in
      let interval_ms = unwrap_or 100 params.interval_ms in
      poll-Waits timely params.job_id timeout_ms (from_millis interval_ms)
        (host.now s + from_millis timeout_ms) (timeout_ms / interval_ms + 2) s (omega arith)
        (rounds_enough timeout_ms interval_ms (host.now s) range.0)
