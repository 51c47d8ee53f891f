-- ===== src/Tests/Orders.antt =====
-- A daemon with two jobs: their order, and what requests and an apply make of them.
use netplan.Base.{
  ◌≡◌, AllPairs, refl, List, [], ◌∷◌, map, keep, length, take, min, true, none, some, Option, Text,
  text_eq, codes, ok, err,
}
use mathlib.Core.List.{Perm, Permᴰ}
use netplan.Protocol
use netplan.Protocol.{JobState, JobSummary, running}
use netplan.Platform.{PlatformError}
use netplan.Daemon.{Daemon, JobRecord, u32_max}
use netplan.Daemon.Jobs.{list_jobs, summary, has_state}
use netplan.Daemon.Dispatch.{new_record, dispatch, apply_live, finish_task}
use netplan.Daemon.Unordered.{Distinct, Alike, dispatch-Alike}
use netplan.Daemon.Listing.{NewerFirst, list_jobs-Lists}
use netplan.Daemon.Effects.{Change, dispatch-Change}
use netplan.Daemon.Calls.{Told, apply_live-job_status}
use netplan.Tests.{office}
use netplan.Tests.Jobs.{context, willing, single, live, failure}

abbrev job : JobRecord
job = new_record running (codes "live apply is running") 1700

abbrev two_jobs : Daemon
two_jobs = record single { jobs = (codes "b", job) ∷ (codes "a", job) ∷ [] }

abbrev turned : List (Text × JobRecord)
turned = (codes "a", job) ∷ (codes "b", job) ∷ []

turned-same : Permᴰ two_jobs.jobs turned
turned-same = Permᴰ.swap refl refl

two_jobs-Distinct : AllPairs Distinct two_jobs.jobs
two_jobs-Distinct = (((λ e. cc), tt), (tt, tt))

dispatch-Alike_example :
    Alike (context (codes "c")) willing two_jobs turned (Protocol.list_jobs none 1)
dispatch-Alike_example =
    dispatch-Alike two_jobs turned turned-same two_jobs-Distinct (context (codes "c")) willing
      (Protocol.list_jobs none 1)

-- The job that was created later stands behind the other.
abbrev earlier : JobRecord
earlier = record job { created_at_unix_ms = 1600 }

abbrev two_ages : Daemon
two_ages = record single { jobs = (codes "a", earlier) ∷ (codes "b", job) ∷ [] }

list_jobs-Lists_example :
    (sorted : List JobSummary) × Perm sorted (map summary (keep (has_state none) two_ages.jobs))
    × AllPairs NewerFirst sorted
    × (list_jobs two_ages none 0
        ≡ Protocol.jobs
            (take 100 sorted)
            (min (length (keep (has_state none) two_ages.jobs)) u32_max))
list_jobs-Lists_example = list_jobs-Lists two_ages none 0

newest_first :
    list_jobs two_ages none 0
    ≡ Protocol.jobs (summary (codes "b", job) ∷ summary (codes "a", earlier) ∷ []) 2
unfolding list_jobs
newest_first = refl

dispatch-Change_example :
    Change
      (context (codes "c"))
      two_jobs
      (λ other. dispatch (context (codes "c")) other live two_jobs)
      willing
      live
dispatch-Change_example = dispatch-Change (context (codes "c")) two_jobs willing live

abbrev undone : PlatformError
undone = record failure { rolled_back = true }

abbrev accepted : Daemon
accepted = (apply_live (context (codes "c")) office two_jobs).daemon

abbrev ended : Daemon
ended = finish_task (codes "c") (ok (err undone)) none accepted

apply_live-job_status_example :
    ((dispatch (context (codes "d")) willing (Protocol.job_status (codes "c")) accepted).response
      ≡ Protocol.job_status_response (codes "c") running (some (codes "live apply is running")))
    × ((state : JobState) × (message : Option Text) × Told (ok (err undone)) state message
        × ((dispatch (context (codes "d")) willing (Protocol.job_status (codes "c")) ended).response
            ≡ Protocol.job_status_response (codes "c") state message))
    × ((dispatch (context (codes "d")) willing (Protocol.job_status (codes "a")) ended).response
        ≡ (dispatch
            (context (codes "d"))
            willing
            (Protocol.job_status (codes "a"))
            two_jobs).response)
unfolding text_eq
apply_live-job_status_example =
    apply_live-job_status (context (codes "c")) (context (codes "d")) willing office two_jobs
      (ok (err undone)) none (codes "a") refl
