-- ===== src/Daemon/Finality.antt =====
-- A job that is over stays as it is: crates/netpland/src/main.rs, through every step of the daemon.
use netplan.Base.{
  ℕ, ◌≡◌, ◌≢◌, inl, inr, sym, subst, ◌∙◌, true, Option, none, some, List, Text, text_eq,
  text_eq_sound, Bool-cases,
}
use netplan.Protocol.{running, Request}
use netplan.Daemon.{Daemon, Platform, Context, JobRecord}
use netplan.Daemon.Jobs.{insert, get}
use netplan.Daemon.Dispatch.{dispatch, dry_run_apply, apply_live, finish_task, Execution, Answered}
use netplan.Daemon.Changes.{dispatch-Branch}
use netplan.Daemon.Table.{get-insert_other, get-modify_other, has_task}
use netplan.Daemon.Steps.{Step, call, finish, Reachable, Consistent, Reachable-Consistent}

-- The job has been created, and is over: its record is final.
abbrev pub Final : Text → JobRecord → Daemon → Type 0
Final id job daemon = (get id daemon.jobs ≡ some job) × (job.state ≢ running)

insert-keeps :
    (fresh id : Text) (job other : JobRecord) (jobs : List (Text × JobRecord))
    → get fresh jobs ≡ none
    → get id jobs ≡ some job
    → get id (insert fresh other jobs) ≡ some job
insert-keeps fresh id job other jobs f h = elim (Bool-cases (text_eq id fresh)) [
  | inl e ↦
      absurd (clash (sym (subst (λ i. get i jobs ≡ none) (sym (text_eq_sound id fresh e)) f) ∙ h))
  | inr e ↦ get-insert_other fresh id other jobs e ∙ h
]
  where
    clash : none ≡ some job → ⊥
    clash q = cc

call-Final :
    (context : Context) (platform : Platform) (request : Request) (daemon : Daemon)
    → get context.new_v4 daemon.jobs ≡ none
    → (id : Text) (job : JobRecord) → Final id job daemon
    → Final id job (dispatch context platform request daemon).daemon
unfolding dry_run_apply apply_live
call-Final context platform request daemon fresh id job (found, over) =
    elim (dispatch-Branch context platform daemon request) [
      | inl same ↦ subst (Final id job) (sym same) (found, over)
      | inr (inl (config, applies, e)) ↦
          subst (λ (a : Answered). Final id job a.daemon) (sym e)
            (insert-keeps context.new_v4 id job _ daemon.jobs fresh found, over)
      | inr (inr (config, applies, accepted, e)) ↦
          subst (λ (a : Answered). Final id job a.daemon) (sym e)
            (insert-keeps context.new_v4 id job _ daemon.jobs fresh found, over)
    ]

finish-Final :
    (ended : Text) (execution : Execution) (clock : Option ℕ) (daemon : Daemon)
    → Consistent daemon
    → has_task ended daemon.tasks ≡ true
    → (id : Text) (job : JobRecord) → Final id job daemon
    → Final id job (finish_task ended execution clock daemon)
unfolding finish_task
finish-Final ended execution clock daemon c h id job (found, over) =
    elim (Bool-cases (text_eq id ended)) [
      | inl e ↦
          let busy =
            subst (λ i. has_task i daemon.tasks ≡ true) (sym (text_eq_sound id ended e)) h in
          absurd (over ((c.settled id job found).2 busy))
      | inr e ↦ (get-modify_other _ ended id daemon.jobs e ∙ found, over)
    ]

-- Once a reachable daemon holds a job that is not running, every step leaves that job's record as
-- it is.
pub Step-Final :
    {d e : Daemon}
    → Reachable d
    → Step d e
    → (id : Text) (job : JobRecord) → Final id job d
    → Final id job e
Step-Final r (call context platform request daemon fresh) id job final =
    call-Final context platform request daemon fresh id job final
Step-Final r (finish ended execution clock daemon h) id job final =
    finish-Final ended execution clock daemon (Reachable-Consistent daemon r) h id job final
