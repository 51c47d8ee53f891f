-- ===== src/Daemon/Steps.antt =====
-- The daemon as a state machine: crates/netpland/src/main.rs. Its steps are the requests that it
-- answers and the ends of the tasks that live applies have started, in any order.
use netplan.Base.{
  ℕ, ◌≡◌, ◌≢◌, inl, inr, refl, sym, ap, subst, not, ◌∙◌, arith, Bool, true, false, Option, none,
  some, List, [], ◌∷◌, ◌++◌, All, All-append, ok, err, Text, text_eq, text_eq_sound, text_eq_refl,
  Bool-cases, Unicode, if◌then◌else◌, keep,
}
use netplan.Config.{NetplanConfig}
use netplan.Config.Parse.{parse_iff}
use netplan.Config.Validate.{validate}
use netplan.Protocol.{queued, running, failed, rolled_back, Request}
use netplan.Daemon.{Daemon, Platform, Context, JobRecord, Task, now_unix_ms}
use netplan.Daemon.Jobs.{get}
use netplan.Daemon.Dispatch.{
  dispatch, dry_run_apply, apply_live, finish_task, finish_record, outcome, Execution, Answered,
}
use netplan.Daemon.Changes.{dispatch-Branch}
use netplan.Daemon.Table.{
  get-insert_same, get-insert_other, get-modify_same, get-modify_other, has_task, without,
  has_task-append, has_task-without_same, has_task-without_other,
}

-- `Daemon::new`
abbrev pub new : Option ℕ → Daemon
new since_epoch = record {
  jobs = [];
  tasks = [];
  started_at_unix_ms = now_unix_ms since_epoch;
  shutdown = false;
}

-- A fresh identifier is that of no job, as `Uuid::new_v4` documents.
pub data Step : Daemon → Daemon → Type 0 where
  call :
      (context : Context) (platform : Platform) (request : Request) (daemon : Daemon)
      → get context.new_v4 daemon.jobs ≡ none
      → Step daemon (dispatch context platform request daemon).daemon
  finish :
      (id : Text) (execution : Execution) (clock : Option ℕ) (daemon : Daemon)
      → has_task id daemon.tasks ≡ true
      → Step daemon (finish_task id execution clock daemon)

pub data Reachable : Daemon → Type 0 where
  start : (clock : Option ℕ) → Reachable (new clock)
  after : {d e : Daemon} → Reachable d → Step d e → Reachable e

-- A job that is running has a task still to end, any other has none; and none is queued.
abbrev pub Settled : JobRecord → Bool → Type 0
Settled job task =
    (job.state ≢ queued) × (job.state ≡ running → task ≡ true) × (task ≡ true → job.state ≡ running)

pub record Consistent (daemon : Daemon) : Type 0 where
  pub settled :
      (id : Text) (job : JobRecord)
      → get id daemon.jobs ≡ some job
      → Settled job (has_task id daemon.tasks)
  pub owned :
      (id : Text)
      → has_task id daemon.tasks ≡ true
      → (job : JobRecord) × (get id daemon.jobs ≡ some job)
  pub valid :
      All
        (λ (task : Task). (unicode : Unicode) × (validate unicode task.config ≡ ok tt))
        daemon.tasks

some-inj : {a b : JobRecord} → some a ≡ some b → a ≡ b
some-inj q = ground arith

-- The fresh identifier has no task where every task has a job.
no_task :
    (daemon : Daemon) (id : Text)
    → Consistent daemon
    → get id daemon.jobs ≡ none
    → has_task id daemon.tasks ≡ false
no_task daemon id c fresh = elim (Bool-cases (has_task id daemon.tasks)) [
  | inl e ↦ let (job, found) = c.owned id e in absurd (nothing job (sym fresh ∙ found))
  | inr e ↦ e
]
  where
    nothing : (job : JobRecord) → none ≡ some job → ⊥
    nothing job q = cc

new-Consistent : (clock : Option ℕ) → Consistent (new clock)
new-Consistent clock = record { settled = λ id job h. cc; owned = λ id h. cc; valid = tt }

-- One job is set to `job` and the tasks of no other job change.
module _ (daemon : Daemon) (c : Consistent daemon) (id : Text) (job : JobRecord)
    (jobs : List (Text × JobRecord)) (tasks : List Task) where
  changed-Consistent :
      get id jobs ≡ some job
      → ((other : Text) → text_eq other id ≡ false → get other jobs ≡ get other daemon.jobs)
      → ((other : Text)
          → text_eq other id ≡ false
          → has_task other tasks ≡ has_task other daemon.tasks)
      → Settled job (has_task id tasks)
      → All (λ (task : Task). (unicode : Unicode) × (validate unicode task.config ≡ ok tt)) tasks
      → Consistent (record daemon { jobs = jobs; tasks = tasks })
  changed-Consistent same others others' settled valid = record {
    settled = all_settled;
    owned = all_owned;
    valid = valid;
  }
    where
      all_settled :
          (other : Text) (j : JobRecord)
          → get other jobs ≡ some j
          → Settled j (has_task other tasks)
      all_settled other j h = elim (Bool-cases (text_eq other id)) [
        | inl e ↦
            let q = text_eq_sound other id e in
            let found : get id jobs ≡ some j = subst (λ i. get i jobs ≡ some j) q h in
            subst (λ i. Settled j (has_task i tasks)) (sym q)
              (subst (λ r. Settled r (has_task id tasks)) (some-inj (sym same ∙ found)) settled)
        | inr e ↦
            subst (Settled j) (sym (others' other e)) (c.settled other j (sym (others other e) ∙ h))
      ]

      all_owned :
          (other : Text) → has_task other tasks ≡ true → (j : JobRecord) × (get other jobs ≡ some j)
      all_owned other h = elim (Bool-cases (text_eq other id)) [
        | inl e ↦ (job, subst (λ i. get i jobs ≡ some job) (sym (text_eq_sound other id e)) same)
        | inr e ↦
            let (j, found) = c.owned other (sym (others' other e) ∙ h) in
            (j, others other e ∙ found)
      ]

module _ (context : Context) (daemon : Daemon) (c : Consistent daemon)
    (fresh : get context.new_v4 daemon.jobs ≡ none) (config : NetplanConfig) where
  dry_run_apply-Consistent : Consistent (dry_run_apply context config daemon).daemon
  unfolding dry_run_apply
  dry_run_apply-Consistent =
      changed-Consistent daemon c context.new_v4 _ _ daemon.tasks
        (get-insert_same context.new_v4 _ daemon.jobs)
        (λ other e. get-insert_other context.new_v4 other _ daemon.jobs e) (λ other e. refl)
        (λ q. cc, λ q. cc, λ q. absurd (busy (sym (no_task daemon context.new_v4 c fresh) ∙ q)))
        c.valid
    where
      busy : false ≡ true → ⊥
      busy q = cc

  live_tasks : List Task
  live_tasks = daemon.tasks ++ record { job_id = context.new_v4; config = config } ∷ []

  others_live :
      (other : Text)
      → text_eq other context.new_v4 ≡ false
      → has_task other live_tasks ≡ has_task other daemon.tasks
  unfolding live_tasks
  others_live other e = has_task-append other daemon.tasks _ ∙ rw e (ground arith)

  live : has_task context.new_v4 live_tasks ≡ true
  unfolding live_tasks
  live =
      has_task-append context.new_v4 daemon.tasks _
      ∙ rw (no_task daemon context.new_v4 c fresh, text_eq_refl context.new_v4) refl

  apply_live-Consistent :
      (unicode : Unicode)
      → validate unicode config ≡ ok tt
      → Consistent (apply_live context config daemon).daemon
  unfolding apply_live live_tasks
  apply_live-Consistent unicode v =
      changed-Consistent daemon c context.new_v4 _ _ live_tasks
        (get-insert_same context.new_v4 _ daemon.jobs)
        (λ other e. get-insert_other context.new_v4 other _ daemon.jobs e) others_live
        (λ q. cc, λ q. live, λ q. refl) (All-append _ daemon.tasks _ c.valid ((unicode, v), tt))

-- A task that has ended has settled its job.
outcome-ended :
    (execution : Execution) → ((outcome execution).0 ≢ queued) × ((outcome execution).0 ≢ running)
unfolding outcome
outcome-ended (ok (ok report)) = (λ q. cc, λ q. cc)
outcome-ended (ok (err error)) = by_rolled_back error.rolled_back
  where
    by_rolled_back :
        (b : Bool)
        → ((if b then rolled_back else failed) ≢ queued)
          × ((if b then rolled_back else failed) ≢ running)
    by_rolled_back true = (λ q. cc, λ q. cc)
    by_rolled_back false = (λ q. cc, λ q. cc)
outcome-ended (err text) = (λ q. cc, λ q. cc)

All-without :
    (P : Task → Type 0) (id : Text) (tasks : List Task) → All P tasks → All P (without id tasks)
All-without P id [] h = tt
All-without P id (task ∷ tasks) h = elim (Bool-cases (text_eq id task.job_id)) [
  | inl e ↦ rw (ap not e, keep) (All-without P id tasks h.1)
  | inr e ↦ rw (ap not e, keep) (h.0, All-without P id tasks h.1)
]

pub finish_task-Consistent :
    (id : Text) (execution : Execution) (clock : Option ℕ) (daemon : Daemon)
    → has_task id daemon.tasks ≡ true
    → Consistent daemon
    → Consistent (finish_task id execution clock daemon)
unfolding finish_task
finish_task-Consistent id execution clock daemon h c =
    let (job, found) = c.owned id h in
    let (not_queued, not_running) = outcome-ended execution in
    let f = finish_record execution (now_unix_ms clock) in
    changed-Consistent daemon c id (f job) _ (without id daemon.tasks)
      (get-modify_same f id job daemon.jobs found)
      (λ other e. get-modify_other f id other daemon.jobs e)
      (λ other e. has_task-without_other id other daemon.tasks e)
      (
        not_queued,
        λ q. absurd (not_running q),
        λ q. absurd (busy (sym (has_task-without_same id daemon.tasks) ∙ q)),
      )
      (All-without _ id daemon.tasks c.valid)
  where
    busy : false ≡ true → ⊥
    busy q = cc

Step-Consistent : {d e : Daemon} → Step d e → Consistent d → Consistent e
Step-Consistent (call context platform request daemon fresh) c =
    elim (dispatch-Branch context platform daemon request) [
      | inl same ↦ subst Consistent (sym same) c
      | inr (inl (config, applies, e)) ↦
          subst (λ (a : Answered). Consistent a.daemon) (sym e)
            (dry_run_apply-Consistent context daemon c fresh config)
      | inr (inr (config, (format, document, q, parsed), accepted, e)) ↦
          let (text, utf8, decoded, v) =
            (parse_iff context.decoders context.unicode document format config).0 parsed in
          subst (λ (a : Answered). Consistent a.daemon) (sym e)
            (apply_live-Consistent context daemon c fresh config context.unicode v)
    ]
Step-Consistent (finish id execution clock daemon h) c =
    finish_task-Consistent id execution clock daemon h c

-- In every daemon that requests and the ends of tasks can lead to, whatever their order, when a
-- fresh identifier is that of no job: no job is queued, a job is running exactly while a task for it
-- is still to end, every such task has its job, and the configuration that it applies is one that
-- `validate` has accepted.
pub Reachable-Consistent : (daemon : Daemon) → Reachable daemon → Consistent daemon
Reachable-Consistent daemon (start clock) = new-Consistent clock
Reachable-Consistent daemon (after r step) = Step-Consistent step (Reachable-Consistent _ r)
