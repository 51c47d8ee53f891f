-- ===== src/Windows/Waiting.antt =====
-- crates/netpland/src/platform/windows/apply.rs and wifi.rs: the loops that wait for a service and for
-- a connection, without fuel, and how many rounds they take.
use netplan.Base.{
  ℕ, zero, suc, ◌+◌, ◌*◌, ◌≤◌, ◌<◌, ◌≡◌, refl, sym, ap, subst, ◌∙◌, inl, inr, arith, Bool, true,
  false, if◌then◌else◌, Bool-cases, ok-inj, ==_iff, some, leb, Text, ok, err, ◌==◌,
}
use netplan.Platform.{PlatformError, PlatformResult}
use netplan.Windows.{System, Call}
use netplan.Windows.Calls.{◌>>=◌, answer-cases, bind-ok}
use netplan.Windows.Services.{
  poll, service_late, service_reached, service_wait_timeout, wait_for_service_state,
}

module _ {S : Type 0} (system : System S) (deadline pause : ℕ) (late : PlatformError)
    (reached : Call S Bool) where
  -- The loop, by its rounds: from a state, it ends with an answer in another.
  pub data Polls : ℕ → S → PlatformResult (Unit {0}) → S → Type 0 where
    stops : {s t : S} {error : PlatformError} → reached s ≡ (err error, t) → Polls 1 s (err error) t
    arrives : {s t : S} → reached s ≡ (ok true, t) → Polls 1 s (ok tt) t
    expires :
        {s t : S} → reached s ≡ (ok false, t) → deadline ≤ system.now t → Polls 1 s (err late) t
    sleeps :
        {n : ℕ} {s u t : S} {answer : PlatformResult (Unit {0})}
        → reached s ≡ (ok false, u)
        → system.now u < deadline
        → Polls n (system.sleep pause u) answer t
        → Polls (suc n) s answer t

  pub Polls-reached :
      {n : ℕ} {s t : S} {answer : PlatformResult (Unit {0})}
      → Polls n s answer t
      → answer ≡ ok tt
      → (u : S) × (reached u ≡ (ok true, t))
  Polls-reached (stops e) h = absurd (ground arith)
  Polls-reached {s = s} (arrives e) h = (s, e)
  Polls-reached (expires e l) h = absurd (ground arith)
  Polls-reached (sleeps e l p) h = Polls-reached p h

  poll-again :
      (fuel : ℕ) (s t : S)
      → reached s ≡ (ok false, t)
      → poll system (suc fuel) deadline pause late reached s ≡ (
          if leb deadline (system.now t)
          then (some (err late), t)
          else poll system fuel deadline pause late reached (system.sleep pause t))
  unfolding poll
  poll-again fuel s t e = rw e refl

  -- With this fuel the loop ends, after no more rounds than that.
  abbrev pub Ends : ℕ → S → Type 0
  Ends fuel s =
      (n : ℕ) × (n ≤ fuel)
      × (answer : PlatformResult (Unit {0})) × (t : S) × (poll system fuel deadline pause late
            reached s
          ≡ (some answer, t))
      × Polls n s answer t

  first_round :
      (fuel : ℕ) (s : S)
      → ((t : S) → reached s ≡ (ok false, t) → system.now t < deadline → Ends (suc fuel) s)
      → Ends (suc fuel) s
  unfolding poll
  first_round fuel s again = elim (answer-cases (reached s)) [
    | inr (error, t, e) ↦ (1, omega arith, err error, t, rw e refl, stops e)
    | inl (true, t, e) ↦ (1, omega arith, ok tt, t, rw e refl, arrives e)
    | inl (false, t, e) ↦ elim (Bool-cases (leb deadline (system.now t))) [
      | inl l ↦
          (1, omega arith, err late, t, poll-again fuel s t e ∙ rw l refl, expires e (ground arith))
      | inr l ↦ again t e (ground arith)
    ]
  ]

  module _ (reads_later : (s : S) → system.now s ≤ system.now (reached s).1)
      (sleeps_long : (ms : ℕ) (s : S) → system.now s + ms ≤ system.now (system.sleep ms s)) where
    later : (s t : S) → reached s ≡ (ok false, t) → system.now s ≤ system.now t
    later s t e = subst (λ answer. system.now s ≤ system.now answer.1) e (reads_later s)

    pub poll-Ends : (fuel : ℕ) (s : S) → deadline ≤ system.now s + fuel * pause → Ends (suc fuel) s
    poll-Ends zero s h = first_round zero s (λ t e l. let k = later s t e in absurd (omega arith))
    poll-Ends (suc fuel) s h = first_round (suc fuel) s (λ t e l.
        let k = later s t e in
        let slept = sleeps_long pause t in
        let (n, small, answer, u, polled, polls) =
          poll-Ends fuel (system.sleep pause t) (omega arith) in
        let before : leb deadline (system.now t) ≡ false = ground arith in
        (
          suc n,
          omega arith,
          answer,
          u,
          poll-again (suc fuel) s t e ∙ rw before polled,
          sleeps e l polls,
        ))

module _ {S : Type 0} (system : System S) where
  service_reached-state :
      (name : Text) (desired : ℕ) (s : S)
      → (service_reached system name desired s).1 ≡ (system.query_service name s).1
  unfolding ◌>>=◌
  service_reached-state name desired s = elim (answer-cases (system.query_service name s)) [
    | inl (current, t, e) ↦ rw e refl
    | inr (error, t, e) ↦ rw e refl
  ]

  service_reached-read :
      (name : Text) (desired : ℕ) (s t : S)
      → service_reached system name desired s ≡ (ok true, t)
      → system.query_service name s ≡ (ok desired, t)
  service_reached-read name desired s t h =
      let (current, u, e, g) = bind-ok (system.query_service name) _ s h in
      let same : current == desired ≡ true = ok-inj (ap (λ p. p.0) g) in
      e ∙ ap (λ p. (ok p.0, p.1)) (pair ((==_iff current desired).0 same) (ap (λ p. p.1) g))
    where
      pair : {a b : ℕ} {u v : S} → a ≡ b → u ≡ v → ◌≡◌ {A = ℕ × S} (a, u) (b, v)
      pair p q = cc

  -- On a clock that a query does not turn back and that a sleep advances by its length,
  -- `wait_for_service_state` ends after at most 301 queries, as the loop without a bound on its
  -- rounds does, and where it succeeds the last query read the desired state.
  pub wait_for_service_state-Polls :
      (name : Text) (desired : ℕ) (s : S)
      → ((t : S) → system.now t ≤ system.now (system.query_service name t).1)
      → ((ms : ℕ) (t : S) → system.now t + ms ≤ system.now (system.sleep ms t))
      → ((n : ℕ) × (n ≤ 301)
          × Polls system
              (system.now s + service_wait_timeout)
              100
              (service_late system desired)
              (service_reached system name desired)
              n
              s
              (wait_for_service_state system name desired s).0
              (wait_for_service_state system name desired s).1)
        × ((wait_for_service_state system name desired s).0 ≡ ok tt
            → (u : S) × (system.query_service name u
                ≡ (ok desired, (wait_for_service_state system name desired s).1)))
  unfolding wait_for_service_state
  wait_for_service_state-Polls name desired s reads_on sleeps_on =
      let (n, small, answer, t, polled, polls) =
        poll-Ends system (system.now s + service_wait_timeout) 100 (service_late system desired)
          (service_reached system name desired)
          (λ u.
            subst (λ v. system.now u ≤ system.now v) (sym (service_reached-state name desired u))
              (reads_on u))
          sleeps_on 300 s (omega arith) in
      rw polled (
        (n, small, polls),
        λ done.
            let (u, e) = Polls-reached _ _ _ _ _ polls done in
            (u, service_reached-read name desired u t e),
      )
