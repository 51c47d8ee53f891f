-- ===== src/Daemon/Effects.antt =====
-- What a request changes of the daemon: crates/netpland/src/main.rs, `dispatch`.
use netplan.Base.{
  ◌≡◌, refl, inl, inr, ◌⊎◌, Bool, true, false, Bool-cases, List, [], ◌∷◌, ◌++◌, ℕ, some, Text,
  text_eq, codes, Result, ok, err, Result-cases,
}
use netplan.Error.{Error}
use netplan.Config.{NetplanConfig}
use netplan.Config.Parse.{parse}
use netplan.Plan.Operations.{build_plan}
use netplan.Protocol
use netplan.Protocol.{
  Request, ConfigAction, JobState, running, succeeded, apply_config, validate_only, plan_only,
}
use netplan.Platform.{PlatformResult}
use netplan.Daemon.{Daemon, Platform, Context, JobRecord, Task, now_unix_ms}
use netplan.Daemon.Jobs.{insert, get}
use netplan.Daemon.Table.{get-insert_same, get-insert_other}
use netplan.Daemon.Dispatch.{
  Answered, dispatch, config_action, config_request, dry_run_apply, apply_live,
}

-- The table has the job under the identifier, and under the others what it had.
abbrev pub Recorded : Text → JobRecord → Daemon → Daemon → Type 0
Recorded id job before later =
    (get id later.jobs ≡ some job)
    × ((other : Text) → (text_eq other id ≡ true) ⊎ (get other later.jobs ≡ get other before.jobs))
    × (later.started_at_unix_ms ≡ before.started_at_unix_ms)
    × (later.shutdown ≡ before.shutdown)

abbrev record_of : JobState → Text → ℕ → JobRecord
record_of state message now = record {
  state = state;
  message = some message;
  created_at_unix_ms = now;
  updated_at_unix_ms = now;
}

insert-Recorded :
    (id : Text) (job : JobRecord) (before : Daemon) (tasks : List Task)
    → Recorded id job before (record before { jobs = insert id job before.jobs; tasks = tasks })
insert-Recorded id job before tasks = (get-insert_same id job before.jobs, kept, refl, refl)
  where
    kept :
        (other : Text)
        → (text_eq other id ≡ true)
          ⊎ (get other (insert id job before.jobs) ≡ get other before.jobs)
    kept other = elim (Bool-cases (text_eq other id)) [
      | inl e ↦ inl e
      | inr e ↦ inr (get-insert_other id other job before.jobs e)
    ]

module _ (context : Context) (daemon : Daemon) where
  abbrev Unchanged : Answered → Type 0
  Unchanged answered = answered.daemon ≡ daemon

  -- A dry run: a job that has succeeded, and no task
  abbrev Rehearsed : NetplanConfig → Answered → Type 0
  Rehearsed config answered =
      Recorded context.new_v4
        (record_of succeeded (codes "dry-run completed; no system state was changed")
          (now_unix_ms context.since_epoch))
        daemon answered.daemon
      × (answered.daemon.tasks ≡ daemon.tasks)
      × (answered.response
          ≡ Protocol.apply context.new_v4 succeeded (build_plan context.wording config))

  -- A live apply: a job that is running, and its task behind the others
  abbrev Started : NetplanConfig → Answered → Type 0
  Started config answered =
      Recorded context.new_v4
        (record_of running (codes "live apply is running") (now_unix_ms context.since_epoch)) daemon
        answered.daemon
      × (answered.daemon.tasks
          ≡ daemon.tasks ++ record { job_id = context.new_v4; config = config } ∷ [])
      × (answered.response
          ≡ Protocol.apply context.new_v4 running (build_plan context.wording config))

  abbrev LiveChange : NetplanConfig → PlatformResult (Unit {0}) → Answered → Type 0
  LiveChange config (ok u) answered = Started config answered
  LiveChange config (err error) answered = Unchanged answered

  -- What an apply does, by whether it is a dry run and by what `parse` made of its document
  abbrev pub ApplyChange :
      (Platform → Answered) → Platform → Bool → Result Error NetplanConfig → Type 0
  ApplyChange answers platform true (ok config) =
      Rehearsed config (answers platform) × ((other : Platform) → answers other ≡ answers platform)
  ApplyChange answers platform false (ok config) =
      LiveChange config (platform.preflight config) (answers platform)
  ApplyChange answers platform dry_run (err error) = Unchanged (answers platform)

  abbrev pub Change : (Platform → Answered) → Platform → Request → Type 0
  Change answers platform (Protocol.config apply_config format document dry_run) =
      ApplyChange answers platform dry_run (parse context.decoders context.unicode document format)
  Change answers platform request = Unchanged (answers platform)

  live-Change :
      (platform : Platform) (config : NetplanConfig) (answer : PlatformResult (Unit {0}))
      → platform.preflight config ≡ answer
      → LiveChange config answer
          (config_request context platform apply_config false (ok config) daemon)
  unfolding config_action apply_live
  live-Change platform config (ok u) e =
      let task : Task = record { job_id = context.new_v4; config = config } in
      rw e (insert-Recorded context.new_v4 _ daemon (daemon.tasks ++ task ∷ []), refl, refl)
  live-Change platform config (err error) e = rw e refl

  apply-Change :
      (platform : Platform) (dry_run : Bool) (parsed : Result Error NetplanConfig)
      → ApplyChange
          (λ other. config_request context other apply_config dry_run parsed daemon)
          platform
          dry_run
          parsed
  unfolding config_action dry_run_apply
  apply-Change platform true (ok config) =
      ((insert-Recorded context.new_v4 _ daemon daemon.tasks, refl, refl), λ other. refl)
  apply-Change platform false (ok config) =
      live-Change platform config (platform.preflight config) refl
  apply-Change platform dry_run (err error) = refl

  -- Only a request to apply a document that is a valid configuration changes the daemon. A dry run
  -- records a job that has succeeded under the fresh identifier, with the message of a dry run and the
  -- time of the request, starts no task, and is the same on every platform. A live apply changes
  -- nothing where the preflight refuses; else it records a job that is running, and puts its task,
  -- with the identifier and the configuration, behind the others. The other jobs, the time of the
  -- start and the wish to stop stay as they are, and the answer names the job, its state and the plan.
  pub dispatch-Change :
      (platform : Platform) (request : Request)
      → Change (λ other. dispatch context other request daemon) platform request
  unfolding dispatch config_action
  dispatch-Change platform (Protocol.config validate_only format document dry_run) =
      elim (Result-cases (parse context.decoders context.unicode document format)) [
        | inl (config, e) ↦ rw e refl
        | inr (error, e) ↦ rw e refl
      ]
  dispatch-Change platform (Protocol.config plan_only format document dry_run) =
      elim (Result-cases (parse context.decoders context.unicode document format)) [
        | inl (config, e) ↦ rw e refl
        | inr (error, e) ↦ rw e refl
      ]
  dispatch-Change platform (Protocol.config apply_config format document dry_run) =
      apply-Change platform dry_run (parse context.decoders context.unicode document format)
  dispatch-Change platform request = refl
