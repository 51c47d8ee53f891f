-- ===== src/Cli/Settled.antt =====
-- crates/netplan-cli/src/service.rs: what a lifecycle command has seen of the daemon when it succeeds.
use netplan.Base.{
  ℕ, zero, suc, ◌≡◌, inl, inr, refl, ap, ◌∙◌, subst, arith, Bool, true, false, Bool-cases, Option,
  none, Text, codes, Result, ok, err, ok-inj,
}
use netplan.Protocol.{Response}
use netplan.Protocol
use netplan.Output.Answers.{LifecycleResult}
use netplan.Cli.{Env, Task, CallError, bind-ok, is_endpoint_absent}
use netplan.Cli.Lifecycle.{
  LifecycleAction, enable, disable, start, stop, probed, ready_answer, gone_probed, daemon_is_ready,
  attempt_ready, wait_until_ready, attempt_stopped, wait_until_stopped, shutdown_answered,
  shutdown_if_running, service_here, enable_daemon, disable_daemon, stop_daemon, once_probed,
  start_host, start_daemon, execute,
}

module _ {S : Type 0} (env : Env S) where
  -- A probe of the daemon has ended in the state with a pong.
  abbrev pub Ready : S → Type 0
  Ready t =
      (s : S) × (version : Text) × (protocol : ℕ) × (env.call Protocol.ping s
        ≡ (ok (Protocol.pong version protocol), t))

  -- A call has ended in the state without an endpoint.
  abbrev pub Absent : S → Type 0
  Absent t =
      (s : S) × (shutdown_or_ping : Protocol.Request) × (error : CallError) × (env.call
          shutdown_or_ping s
        ≡ (err error, t))
      × (is_endpoint_absent error ≡ true)

  probed-Ready :
      (again : Option Text → Task S (Unit {0})) (s t : S) (answer : Result CallError Response × S)
      → env.call Protocol.ping s ≡ answer
      → ((e : Option Text) (u : S) → again e u ≡ (ok tt, t) → Ready t)
      → probed env again answer ≡ (ok tt, t)
      → Ready t
  probed-Ready again s t (ok (Protocol.pong version protocol), u) e ih h = (
    s,
    version,
    protocol,
    e ∙ ap (λ v. (ok (Protocol.pong version protocol), v)) (ap (λ p. p.1) h),
  )
  probed-Ready again s t (ok response, u) e ih h = ih _ _ h
  probed-Ready again s t (err error, u) e ih h = ih _ _ h

  attempt_ready-Ready :
      (n : ℕ) (last_error : Option Text) (s t : S)
      → attempt_ready env n last_error s ≡ (ok tt, t)
      → Ready t
  unfolding attempt_ready
  attempt_ready-Ready zero last_error s t h = absurd (ground arith)
  attempt_ready-Ready (suc n) last_error s t h =
      probed-Ready (attempt_ready env n) s t (env.call Protocol.ping s) refl
        (λ e u k. attempt_ready-Ready n e u t k) h

  wait_until_ready-Ready : (s t : S) → wait_until_ready env s ≡ (ok tt, t) → Ready t
  unfolding wait_until_ready
  wait_until_ready-Ready s t h = attempt_ready-Ready _ none s t h

  gone_probed-Absent :
      (again : Task S (Unit {0})) (s t : S) (answer : Result CallError Response × S)
      → env.call Protocol.ping s ≡ answer
      → ((u : S) → again u ≡ (ok tt, t) → Absent t)
      → gone_probed env again answer ≡ (ok tt, t)
      → Absent t
  gone_probed-Absent again s t (ok response, u) e ih h = ih _ h
  gone_probed-Absent again s t (err error, u) e ih h =
      elim (Bool-cases (is_endpoint_absent error)) [
        | inl gone ↦
            let k : ◌≡◌ {A = Result Text (Unit {0}) × S} (ok tt, u) (ok tt, t) = rw gone at h in
            (s, Protocol.ping, error, e ∙ ap (λ v. (err error, v)) (ap (λ p. p.1) k), gone)
        | inr there ↦ ih _ (rw there at h)
      ]

  attempt_stopped-Absent : (n : ℕ) (s t : S) → attempt_stopped env n s ≡ (ok tt, t) → Absent t
  unfolding attempt_stopped
  attempt_stopped-Absent zero s t h = absurd (ground arith)
  attempt_stopped-Absent (suc n) s t h =
      gone_probed-Absent (attempt_stopped env n) s t (env.call Protocol.ping s) refl
        (λ u k. attempt_stopped-Absent n u t k) h

  pure_inv :
      {A : Type 0} {a b : A} {s t : S}
      → ◌≡◌ {A = Result Text A × S} (ok a, s) (ok b, t)
      → (a ≡ b) × (s ≡ t)
  pure_inv h = (ok-inj (ap (λ p. p.0) h), ap (λ p. p.1) h)

  shutdown_answered-Absent :
      (s t : S) (answer : Result CallError Response × S) (b : Bool)
      → env.call Protocol.shutdown s ≡ answer
      → shutdown_answered env answer ≡ (ok b, t)
      → Absent t
  unfolding wait_until_stopped
  shutdown_answered-Absent s t (ok Protocol.shutdown_accepted, u) b e h =
      let (done, v, k, l) = bind-ok (wait_until_stopped env) _ u h in
      subst Absent (pure_inv l).1 (attempt_stopped-Absent _ u v k)
  shutdown_answered-Absent s t (ok response, u) b e h = absurd (ground arith)
  shutdown_answered-Absent s t (err error, u) b e h = elim (Bool-cases (is_endpoint_absent error)) [
    | inl gone ↦
        let k : ◌≡◌ {A = Result Text Bool × S} (ok false, u) (ok b, t) = rw gone at h in
        (s, Protocol.shutdown, error, e ∙ ap (λ v. (err error, v)) (pure_inv k).1, gone)
    | inr there ↦ absurd (ground arith)
  ]

  shutdown_if_running-Absent :
      (s t : S) (b : Bool) → shutdown_if_running env s ≡ (ok b, t) → Absent t
  unfolding shutdown_if_running
  shutdown_if_running-Absent s t b h =
      shutdown_answered-Absent s t (env.call Protocol.shutdown s) b refl h

  -- What has been seen of the daemon in the state, by the state of it that the answer names
  abbrev pub Settles : LifecycleAction → LifecycleResult → S → Type 0
  Settles enable result t = (result.state ≡ codes "running") × Ready t
  Settles start result t = (result.state ≡ codes "running") × Ready t
  Settles disable result t = (result.state ≡ codes "stopped") × Absent t
  Settles stop result t = (result.state ≡ codes "stopped") × Absent t

  -- The end of a command: its answer, in the state where the last call has ended
  concluded-Ready :
      {result answer : LifecycleResult} {u t : S}
      → answer.state ≡ codes "running"
      → Ready u
      → ◌≡◌ {A = Result Text LifecycleResult × S} (ok answer, u) (ok result, t)
      → (result.state ≡ codes "running") × Ready t
  concluded-Ready named ready h =
      let (same, here) = pure_inv h in
      (
        subst (λ (r : LifecycleResult). r.state ≡ codes "running") same named,
        subst Ready here ready,
      )

  concluded-Absent :
      {result answer : LifecycleResult} {u t : S}
      → answer.state ≡ codes "stopped"
      → Absent u
      → ◌≡◌ {A = Result Text LifecycleResult × S} (ok answer, u) (ok result, t)
      → (result.state ≡ codes "stopped") × Absent t
  concluded-Absent named absent h =
      let (same, here) = pure_inv h in
      (
        subst (λ (r : LifecycleResult). r.state ≡ codes "stopped") same named,
        subst Absent here absent,
      )

  enable_daemon-Settles :
      (result : LifecycleResult) (s t : S)
      → enable_daemon env s ≡ (ok result, t)
      → Settles enable result t
  unfolding enable_daemon
  enable_daemon-Settles result s t h =
      let (a0, s0, e0, h0) = bind-ok _ _ s h in
      let (a1, s1, e1, h1) = bind-ok _ _ s0 h0 in
      let (a2, s2, e2, h2) = bind-ok _ _ s1 h1 in
      let (a3, s3, e3, h3) = bind-ok _ _ s2 h2 in
      let (a4, s4, e4, h4) = bind-ok _ _ s3 h3 in
      let (a5, s5, e5, h5) = bind-ok _ _ s4 h4 in
      let (a6, s6, e6, h6) = bind-ok _ _ s5 h5 in
      concluded-Ready refl (wait_until_ready-Ready s5 s6 e6) h6

  disable_daemon-Settles :
      (result : LifecycleResult) (s t : S)
      → disable_daemon env s ≡ (ok result, t)
      → Settles disable result t
  unfolding disable_daemon
  disable_daemon-Settles result s t h =
      let (a0, s0, e0, h0) = bind-ok _ _ s h in
      let (a1, s1, e1, h1) = bind-ok _ _ s0 h0 in
      let (a2, s2, e2, h2) = bind-ok _ _ s1 h1 in
      let (a3, s3, e3, h3) = bind-ok _ _ s2 h2 in
      concluded-Absent refl (shutdown_if_running-Absent s2 s3 a3 e3) h3

  stop_daemon-Settles :
      (result : LifecycleResult) (s t : S)
      → stop_daemon env s ≡ (ok result, t)
      → Settles stop result t
  unfolding stop_daemon
  stop_daemon-Settles result s t h =
      let (a0, s0, e0, h0) = bind-ok _ _ s h in
      let (a1, s1, e1, h1) = bind-ok _ _ s0 h0 in
      let (a2, s2, e2, h2) = bind-ok _ _ s1 h1 in
      concluded-Absent refl (shutdown_if_running-Absent s1 s2 a2 e2) h2

  ready_answer-Ready :
      (s t : S) (answer : Result CallError Response × S)
      → env.call Protocol.ping s ≡ answer
      → ready_answer env answer ≡ (ok true, t)
      → Ready t
  ready_answer-Ready s t (ok (Protocol.pong version protocol), u) e h =
      (s, version, protocol, e ∙ ap (λ v. (ok (Protocol.pong version protocol), v)) (pure_inv h).1)
  ready_answer-Ready s t (ok response, u) e h = absurd (ground arith)
  ready_answer-Ready s t (err error, u) e h = elim (Bool-cases (is_endpoint_absent error)) [
    | inl gone ↦ absurd (ground arith)
    | inr there ↦ absurd (ground arith)
  ]

  module _ (spawn : Task S (Unit {0})) where
    once_probed-Settles :
        (ready : Bool) (result : LifecycleResult) (s u t : S)
        → daemon_is_ready env s ≡ (ok ready, u)
        → once_probed env spawn ready u ≡ (ok result, t)
        → Settles start result t
    unfolding daemon_is_ready
    once_probed-Settles true result s u t e h =
        concluded-Ready refl (ready_answer-Ready s u (env.call Protocol.ping s) refl e) h
    once_probed-Settles false result s u t e h =
        let (a0, s0, e0, h0) = bind-ok _ _ u h in
        let (a1, s1, e1, h1) = bind-ok _ _ s0 h0 in
        concluded-Ready refl (wait_until_ready-Ready s0 s1 e1) h1

    start_host-Settles :
        (installed : Bool) (result : LifecycleResult) (u t : S)
        → start_host env spawn installed u ≡ (ok result, t)
        → Settles start result t
    start_host-Settles true result u t h =
        let (a0, s0, e0, h0) = bind-ok _ _ u h in
        let (a1, s1, e1, h1) = bind-ok _ _ s0 h0 in
        concluded-Ready refl (wait_until_ready-Ready s0 s1 e1) h1
    start_host-Settles false result u t h =
        let (ready, v, e, k) = bind-ok (daemon_is_ready env) (once_probed env spawn) u h in
        once_probed-Settles ready result u v t e k

    -- When a lifecycle command succeeds, its answer names the state that the daemon was last seen in:
    -- after enable and start the last call to it was answered with a pong, and after disable and stop
    -- the last call found no endpoint.
    pub execute-Settles :
        (action : LifecycleAction) (result : LifecycleResult) (s t : S)
        → execute env spawn action s ≡ (ok result, t)
        → Settles action result t
    unfolding execute start_daemon
    execute-Settles enable result s t h = enable_daemon-Settles result s t h
    execute-Settles disable result s t h = disable_daemon-Settles result s t h
    execute-Settles stop result s t h = stop_daemon-Settles result s t h
    execute-Settles start result s t h =
        let (installed, u, e, k) = bind-ok (service_here env) (start_host env spawn) s h in
        start_host-Settles installed result u t k
