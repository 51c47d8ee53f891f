-- ===== src/Daemon/Table.antt =====
-- The table of jobs as a map from identifiers: crates/netpland/src/main.rs, `jobs`.
use netplan.Base.{
  ◌≡◌, refl, ap, inl, inr, Bool, false, not, some, List, [], ◌∷◌, ◌++◌, ◌||◌, any, keep,
  if◌then◌else◌, Text, text_eq, text_eq_sound, text_eq_refl, Bool-cases,
}
use netplan.Daemon.{JobRecord, Task}
use netplan.Daemon.Jobs.{insert, get, modify}

pub get-insert_same :
    (id : Text) (job : JobRecord) (jobs : List (Text × JobRecord))
    → get id (insert id job jobs) ≡ some job
get-insert_same id job [] = rw (text_eq_refl id) refl
get-insert_same id job (entry ∷ jobs) = elim (Bool-cases (text_eq id entry.0)) [
  | inl e ↦ rw (e, text_eq_refl id) refl
  | inr e ↦ rw (e, get, e) (get-insert_same id job jobs)
]

pub get-insert_other :
    (id other : Text) (job : JobRecord) (jobs : List (Text × JobRecord))
    → text_eq other id ≡ false
    → get other (insert id job jobs) ≡ get other jobs
get-insert_other id other job [] h = rw h refl
get-insert_other id other job (entry ∷ jobs) h = elim (Bool-cases (text_eq id entry.0)) [
  | inl e ↦
      let n : text_eq other entry.0 ≡ false = rw (← text_eq_sound id entry.0 e) h in
      rw (e, get, h, n) refl
  | inr e ↦ rw e (
      ap (λ t. if text_eq other entry.0 then some entry.1 else t)
        (get-insert_other id other job jobs h))
]

pub get-modify_same :
    (f : JobRecord → JobRecord) (id : Text) (job : JobRecord) (jobs : List (Text × JobRecord))
    → get id jobs ≡ some job
    → get id (modify f id jobs) ≡ some (f job)
get-modify_same f id job [] h = cc
get-modify_same f id job (entry ∷ jobs) h = elim (Bool-cases (text_eq id entry.0)) [
  | inl e ↦ rw (e, get, e) (some_of entry.1 (rw e at h))
  | inr e ↦ rw (e, get, e) (get-modify_same f id job jobs (rw e at h))
]
  where
    some_of : (a : JobRecord) → some a ≡ some job → some (f a) ≡ some (f job)
    some_of a q = cc

pub get-modify_other :
    (f : JobRecord → JobRecord) (id other : Text) (jobs : List (Text × JobRecord))
    → text_eq other id ≡ false
    → get other (modify f id jobs) ≡ get other jobs
get-modify_other f id other [] h = refl
get-modify_other f id other (entry ∷ jobs) h = elim (Bool-cases (text_eq id entry.0)) [
  | inl e ↦
      let n : text_eq other entry.0 ≡ false = rw (← text_eq_sound id entry.0 e) h in
      rw (e, get, n) refl
  | inr e ↦ rw e (
      ap (λ t. if text_eq other entry.0 then some entry.1 else t)
        (get-modify_other f id other jobs h))
]

-- A task of the job is still to end.
abbrev pub has_task : Text → List Task → Bool
has_task id tasks = any (λ (task : Task). text_eq id task.job_id) tasks

pub has_task-append :
    (id : Text) (tasks more : List Task)
    → has_task id (tasks ++ more) ≡ has_task id tasks || has_task id more
has_task-append id [] more = refl
has_task-append id (task ∷ tasks) more = elim (Bool-cases (text_eq id task.job_id)) [
  | inl e ↦ rw e refl
  | inr e ↦ rw e (has_task-append id tasks more)
]

abbrev pub without : Text → List Task → List Task
without id tasks = keep (λ (task : Task). not (text_eq id task.job_id)) tasks

pub has_task-without_same : (id : Text) (tasks : List Task) → has_task id (without id tasks) ≡ false
has_task-without_same id [] = refl
has_task-without_same id (task ∷ tasks) = elim (Bool-cases (text_eq id task.job_id)) [
  | inl e ↦ rw (ap not e, keep) (has_task-without_same id tasks)
  | inr e ↦ rw (ap not e, keep, any, e) (has_task-without_same id tasks)
]

pub has_task-without_other :
    (id other : Text) (tasks : List Task)
    → text_eq other id ≡ false
    → has_task other (without id tasks) ≡ has_task other tasks
has_task-without_other id other [] h = refl
has_task-without_other id other (task ∷ tasks) h = elim (Bool-cases (text_eq id task.job_id)) [
  | inl e ↦
      let n : text_eq other task.job_id ≡ false = rw (← text_eq_sound id task.job_id e) h in
      rw (ap not e, keep, n) (has_task-without_other id other tasks h)
  | inr e ↦
      rw (ap not e, keep)
        (ap (λ b. text_eq other task.job_id || b) (has_task-without_other id other tasks h))
]
