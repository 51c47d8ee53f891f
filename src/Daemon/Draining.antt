-- ===== src/Daemon/Draining.antt =====
-- crates/netpland/src/main.rs: the tasks of a daemon run to their ends.
use netplan.Base.{
  ℕ, zero, suc, ◌≤◌, ◌≡◌, ◌≢◌, refl, sym, ap, subst, arith, Bool, true, not, Bool-cases, inl, inr,
  Option, some, List, [], ◌∷◌, keep, length, Text, text_eq, text_eq_refl,
}
use netplan.Protocol.{queued, running}
use netplan.Daemon.{Daemon, JobRecord, Task}
use netplan.Daemon.Jobs.{get}
use netplan.Daemon.Dispatch.{Execution, finish_task}
use netplan.Daemon.Table.{has_task}
use netplan.Daemon.Steps.{Reachable, Consistent, finish_task-Consistent, Reachable-Consistent}

-- A job that is neither queued nor running
abbrev pub Over : JobRecord → Type 0
Over job = (job.state ≢ queued) × (job.state ≢ running)

module _ (execution : Text → Execution) (clock : Option ℕ) where
  -- Ends of tasks, one after the other, each as `execution` says
  pub data Finishes : Daemon → Daemon → Type 0 where
    finished : {d : Daemon} → Finishes d d
    one_more :
        {d e : Daemon} (id : Text)
        → has_task id d.tasks ≡ true
        → Finishes (finish_task id (execution id) clock d) e
        → Finishes d e

  shorter : (p : Task → Bool) (tasks : List Task) → length (keep p tasks) ≤ length tasks
  shorter p [] = omega arith
  shorter p (t ∷ ts) = elim (Bool-cases (p t)) [
    | inl e ↦ rw (e, keep) (omega (arith, shorter p ts))
    | inr e ↦ rw (e, keep) (omega (arith, shorter p ts))
  ]

  abbrev rest_of : Task → List Task → List Task
  rest_of first tasks = keep (λ (task : Task). not (text_eq first.job_id task.job_id)) tasks

  rest_shorter :
      (first : Task) (tasks : List Task) → length (rest_of first (first ∷ tasks)) ≤ length tasks
  rest_shorter first tasks =
      rw (ap not (text_eq_refl first.job_id), keep)
        (shorter (λ (task : Task). not (text_eq first.job_id task.job_id)) tasks)

  first-has_task : (first : Task) (tasks : List Task) → has_task first.job_id (first ∷ tasks) ≡ true
  first-has_task first tasks = rw (text_eq_refl first.job_id) refl

  abbrev Drained : Daemon → Type 0
  Drained d = (e : Daemon) × Finishes d e × Consistent e × (e.tasks ≡ [])

  drains_from :
      (n : ℕ) (d : Daemon) (tasks : List Task)
      → d.tasks ≡ tasks
      → length tasks ≤ n
      → Consistent d
      → Drained d
  unfolding finish_task
  drains_from n d [] e h c = (d, finished, c, e)
  drains_from zero d (first ∷ tasks) e h c = absurd (omega arith)
  drains_from (suc n) d (first ∷ tasks) e h c =
      let id = first.job_id in
      let present : has_task id d.tasks ≡ true =
        subst (λ ts. has_task id ts ≡ true) (sym e) (first-has_task first tasks) in
      let after = finish_task id (execution id) clock d in
      let left : after.tasks ≡ rest_of first (first ∷ tasks) = ap (rest_of first) e in
      let (last, chain, c', empty) =
        drains_from n after (rest_of first (first ∷ tasks)) left
          (omega (arith, rest_shorter first tasks))
          (finish_task-Consistent id (execution id) clock d present c) in
      (last, one_more id present chain, c', empty)

  -- From every daemon that can be reached, whatever the platform makes of each apply, the tasks that
  -- are still to end can end one after the other; then no task is left, and every job is over.
  pub Reachable-Drains :
      (daemon : Daemon)
      → Reachable daemon
      → (last : Daemon) × Finishes daemon last
        × (last.tasks ≡ [])
        × ((id : Text) (job : JobRecord) → get id last.jobs ≡ some job → Over job)
  Reachable-Drains daemon r =
      let (last, chain, c, empty) =
        drains_from (length daemon.tasks) daemon daemon.tasks refl (omega arith)
          (Reachable-Consistent daemon r) in
      (
        last,
        chain,
        empty,
        λ id job found.
            let (not_queued, has, _) = c.settled id job found in
            (
              not_queued,
              λ busy. let k = subst (λ ts. has_task id ts ≡ true) empty (has busy) in cc,
            ),
      )
