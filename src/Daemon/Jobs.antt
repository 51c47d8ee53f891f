-- ===== src/Daemon/Jobs.antt =====
-- crates/netpland/src/main.rs: the table of jobs, `daemon_status` and `list_jobs`.
use netplan.Base.{
  ℕ, ◌+◌, min, ◌==◌, ltb, Bool, true, false, ◌&&◌, ◌||◌, Option, none, some, List, [], ◌∷◌, map,
  keep, length, take, if◌then◌else◌, Text, text_eq, bytes,
}
use netplan.Config.Checks.{is_none_or}
use netplan.Protocol
use netplan.Protocol.{
  JobState, queued, running, succeeded, failed, rolled_back, JobSummary, DaemonStatus, Response,
}
use netplan.Protocol.Frames.{protocol_version}
use netplan.Daemon.{JobRecord, Daemon, Context, u64_max, u32_max}

-- `HashMap::insert` and `get`
abbrev pub insert : Text → JobRecord → List (Text × JobRecord) → List (Text × JobRecord)
insert id job [] = (id, job) ∷ []
insert id job (entry ∷ jobs) =
    let rest = insert id job jobs in if text_eq id entry.0 then (id, job) ∷ jobs else entry ∷ rest

abbrev pub get : Text → List (Text × JobRecord) → Option JobRecord
get id [] = none
get id (entry ∷ jobs) = let rest = get id jobs in if text_eq id entry.0 then some entry.1 else rest

-- `if let Some(job) = jobs.get_mut(id) { … }`
abbrev pub modify :
    (JobRecord → JobRecord) → Text → List (Text × JobRecord) → List (Text × JobRecord)
modify f id [] = []
modify f id (entry ∷ jobs) =
    let rest = modify f id jobs in
    if text_eq id entry.0 then (entry.0, f entry.1) ∷ jobs else entry ∷ rest

-- `counter.saturating_add(1)` on a u32
abbrev pub saturating_inc : ℕ → ℕ
saturating_inc n = min (n + 1) u32_max

-- The five counters, queued first.
pub record Counters : Type 0 where
  pub queued_jobs : ℕ
  pub running_jobs : ℕ
  pub succeeded_jobs : ℕ
  pub failed_jobs : ℕ
  pub rolled_back_jobs : ℕ

abbrev pub count : JobState → Counters → Counters
count queued c = record c { queued_jobs = saturating_inc c.queued_jobs }
count running c = record c { running_jobs = saturating_inc c.running_jobs }
count succeeded c = record c { succeeded_jobs = saturating_inc c.succeeded_jobs }
count failed c = record c { failed_jobs = saturating_inc c.failed_jobs }
count rolled_back c = record c { rolled_back_jobs = saturating_inc c.rolled_back_jobs }

abbrev pub count_jobs : Counters → List (Text × JobRecord) → Counters
count_jobs c [] = c
count_jobs c (entry ∷ jobs) = count_jobs (count entry.1.state c) jobs

abbrev pub no_jobs : Counters
no_jobs = record {
  queued_jobs = 0;
  running_jobs = 0;
  succeeded_jobs = 0;
  failed_jobs = 0;
  rolled_back_jobs = 0;
}

unfoldable pub daemon_status : Context → Daemon → Response
daemon_status context daemon =
    let c = count_jobs no_jobs daemon.jobs in
    Protocol.daemon_status_response (record {
      daemon_version = context.daemon_version;
      protocol_version = protocol_version;
      started_at_unix_ms = daemon.started_at_unix_ms;
      uptime_ms = min context.elapsed u64_max;
      total_jobs = min (length daemon.jobs) u32_max;
      queued_jobs = c.queued_jobs;
      running_jobs = c.running_jobs;
      succeeded_jobs = c.succeeded_jobs;
      failed_jobs = c.failed_jobs;
      rolled_back_jobs = c.rolled_back_jobs;
    })

abbrev pub same_state : JobState → JobState → Bool
same_state queued queued = true
same_state running running = true
same_state succeeded succeeded = true
same_state failed failed = true
same_state rolled_back rolled_back = true
same_state a b = false

abbrev pub summary : (Text × JobRecord) → JobSummary
summary (id, job) = record {
  job_id = id;
  state = job.state;
  message = job.message;
  created_at_unix_ms = job.created_at_unix_ms;
  updated_at_unix_ms = job.updated_at_unix_ms;
}

-- `String`'s order: that of the bytes.
abbrev pub bytes_before : List ℕ → List ℕ → Bool
bytes_before xs [] = false
bytes_before [] (y ∷ ys) = true
bytes_before (x ∷ xs) (y ∷ ys) = ltb x y || (x == y && bytes_before xs ys)

-- The newer job comes first, and of two that are as old the one with the smaller identifier.
abbrev pub comes_before : JobSummary → JobSummary → Bool
comes_before left right =
    ltb right.created_at_unix_ms left.created_at_unix_ms
    || (left.created_at_unix_ms == right.created_at_unix_ms
        && bytes_before (bytes left.job_id) (bytes right.job_id))

-- `sort_by`, which is stable: an element goes in front of the first that does not come before it.
abbrev pub insert_sorted : JobSummary → List JobSummary → List JobSummary
insert_sorted x [] = x ∷ []
insert_sorted x (y ∷ ys) =
    let rest = insert_sorted x ys in if comes_before y x then y ∷ rest else x ∷ y ∷ ys

abbrev pub sort : List JobSummary → List JobSummary
sort [] = []
sort (x ∷ xs) = insert_sorted x (sort xs)

abbrev pub has_state : Option JobState → (Text × JobRecord) → Bool
has_state wanted entry = is_none_or (λ state. same_state entry.1.state state) wanted

abbrev pub effective_limit : ℕ → ℕ
effective_limit limit = if limit == 0 then 100 else min limit 1000

unfoldable pub list_jobs : Daemon → Option JobState → ℕ → Response
list_jobs daemon state limit =
    let summaries = sort (map summary (keep (has_state state) daemon.jobs)) in
    Protocol.jobs (take (effective_limit limit) summaries) (min (length summaries) u32_max)
