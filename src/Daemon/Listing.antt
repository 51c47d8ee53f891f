-- ===== src/Daemon/Listing.antt =====
-- What `list_jobs` and `daemon_status` of crates/netpland/src/main.rs answer.
use netplan.Base.{
  if◌then◌else◌, ◌==◌, ltb, ℕ, suc, ◌+◌, ◌≤◌, ◌<◌, ◌⊎◌, min, ◌≡◌, inl, inr, refl, ap, ◌∙◌, arith,
  true, false, Option, List, [], ◌∷◌, map, keep, length, take, All, AllPairs, All-map, Bool-cases,
  Text, bytes,
}
use mathlib.Core.List.{Perm}
use mathlib.Core.List.Perm
use netplan.Protocol
use netplan.Protocol.{
  JobState, queued, running, succeeded, failed, rolled_back, JobSummary, DaemonStatus, Response,
}
use netplan.Daemon.{Daemon, Context, JobRecord, u32_max}
use netplan.Daemon.Jobs.{
  Counters, count, count_jobs, no_jobs, daemon_status, list_jobs, sort, insert_sorted, comes_before,
  bytes_before, has_state, summary, effective_limit,
}

total : Counters → ℕ
total c = c.queued_jobs + c.running_jobs + c.succeeded_jobs + c.failed_jobs + c.rolled_back_jobs

count-total :
    (s : JobState) (c : Counters) (n : ℕ)
    → total c + suc n ≤ u32_max
    → total (count s c) ≡ suc (total c)
unfolding total
count-total queued c n h = ground arith
count-total running c n h = ground arith
count-total succeeded c n h = ground arith
count-total failed c n h = ground arith
count-total rolled_back c n h = ground arith

count_jobs-total :
    (c : Counters) (jobs : List (Text × JobRecord))
    → total c + length jobs ≤ u32_max
    → total (count_jobs c jobs) ≡ total c + length jobs
count_jobs-total c [] h = omega arith
count_jobs-total c (entry ∷ jobs) h =
    let one = count-total entry.1.state c (length jobs) h in
    let rest = count_jobs-total (count entry.1.state c) jobs (omega (arith, one, h)) in
    omega (arith, one, rest)

-- Of two jobs that are listed, the later one does not come before the earlier.
abbrev pub InOrder : JobSummary → JobSummary → Type 0
InOrder a b = comes_before b a ≡ false

pub bytes_before-asym : (xs ys : List ℕ) → bytes_before xs ys ≡ true → bytes_before ys xs ≡ false
bytes_before-asym xs [] h = cc
bytes_before-asym [] (y ∷ ys) h = refl
bytes_before-asym (x ∷ xs) (y ∷ ys) h = ground (arith, bytes_before-asym xs ys)

bytes_before_trans :
    (xs ys zs : List ℕ)
    → bytes_before ys xs ≡ false
    → bytes_before zs ys ≡ false
    → bytes_before zs xs ≡ false
bytes_before_trans [] ys zs h k = refl
bytes_before_trans (x ∷ xs) [] zs h k = cc
bytes_before_trans (x ∷ xs) (y ∷ ys) [] h k = cc
bytes_before_trans (x ∷ xs) (y ∷ ys) (z ∷ zs) h k = ground (arith, bytes_before_trans xs ys zs)

pub comes_before-asym : (a b : JobSummary) → comes_before a b ≡ true → comes_before b a ≡ false
comes_before-asym a b h = ground (arith, bytes_before-asym (bytes a.job_id) (bytes b.job_id))

pub comes_before_trans : (a b c : JobSummary) → InOrder a b → InOrder b c → InOrder a c
comes_before_trans a b c h k =
    ground (arith, bytes_before_trans (bytes a.job_id) (bytes b.job_id) (bytes c.job_id))

insert_sorted-All :
    (P : JobSummary → Type 0) (x : JobSummary) (ys : List JobSummary)
    → P x
    → All P ys
    → All P (insert_sorted x ys)
insert_sorted-All P x [] p h = (p, tt)
insert_sorted-All P x (y ∷ ys) p h = elim (Bool-cases (comes_before y x)) [
  | inl e ↦ rw e (h.0, insert_sorted-All P x ys p h.1)
  | inr e ↦ rw e (p, h)
]

length-insert_sorted :
    (x : JobSummary) (ys : List JobSummary) → length (insert_sorted x ys) ≡ suc (length ys)
length-insert_sorted x [] = refl
length-insert_sorted x (y ∷ ys) = elim (Bool-cases (comes_before y x)) [
  | inl e ↦ rw e (ap suc (length-insert_sorted x ys))
  | inr e ↦ rw e refl
]

length-sort : (xs : List JobSummary) → length (sort xs) ≡ length xs
length-sort [] = refl
length-sort (x ∷ xs) = length-insert_sorted x (sort xs) ∙ ap suc (length-sort xs)

insert_sorted-InOrder :
    (x : JobSummary) (ys : List JobSummary)
    → AllPairs InOrder ys
    → AllPairs InOrder (insert_sorted x ys)
insert_sorted-InOrder x [] h = (tt, tt)
insert_sorted-InOrder x (y ∷ ys) h = elim (Bool-cases (comes_before y x)) [
  | inl e ↦ rw e (
    insert_sorted-All (InOrder y) x ys (comes_before-asym y x e) h.0,
    insert_sorted-InOrder x ys h.1,
  )
  | inr e ↦ rw e ((e, All-map (InOrder y) (InOrder x) (λ z. comes_before_trans x y z e) ys h.0), h)
]

sort-InOrder : (xs : List JobSummary) → AllPairs InOrder (sort xs)
sort-InOrder [] = tt
sort-InOrder (x ∷ xs) = insert_sorted-InOrder x (sort xs) (sort-InOrder xs)

insert_sorted-Perm : (x : JobSummary) (ys : List JobSummary) → Perm (insert_sorted x ys) (x ∷ ys)
insert_sorted-Perm x [] = Perm.refl (x ∷ [])
insert_sorted-Perm x (y ∷ ys) = elim (Bool-cases (comes_before y x)) [
  | inl e ↦ rw e (Perm.trans (Perm.cons y (insert_sorted-Perm x ys)) (Perm.swap x y ys))
  | inr e ↦ rw e (Perm.refl (x ∷ y ∷ ys))
]

sort-Perm : (xs : List JobSummary) → Perm (sort xs) xs
sort-Perm [] = Perm.refl []
sort-Perm (x ∷ xs) = Perm.trans (insert_sorted-Perm x (sort xs)) (Perm.cons x (sort-Perm xs))

-- The order of the bytes, as a dictionary has it
abbrev pub UpTo : List ℕ → List ℕ → Type 0
UpTo [] ys = Unit
UpTo (x ∷ xs) [] = ⊥
UpTo (x ∷ xs) (y ∷ ys) = (x < y) ⊎ ((x ≡ y) × UpTo xs ys)

-- The first is the newer job, or as old and of no later identifier.
abbrev pub NewerFirst : JobSummary → JobSummary → Type 0
NewerFirst a b =
    (b.created_at_unix_ms < a.created_at_unix_ms)
    ⊎ ((a.created_at_unix_ms ≡ b.created_at_unix_ms) × UpTo (bytes a.job_id) (bytes b.job_id))

bytes_before-UpTo : (xs ys : List ℕ) → bytes_before ys xs ≡ false → UpTo xs ys
bytes_before-UpTo [] ys h = tt
bytes_before-UpTo (x ∷ xs) [] h = cc
bytes_before-UpTo (x ∷ xs) (y ∷ ys) h = elim (Bool-cases (ltb x y)) [
  | inl e ↦ inl (ground arith)
  | inr e ↦ let same : x ≡ y = ground arith in inr (same, bytes_before-UpTo xs ys (ground arith))
]

InOrder-NewerFirst : (a b : JobSummary) → InOrder a b → NewerFirst a b
InOrder-NewerFirst a b h = elim (Bool-cases (ltb b.created_at_unix_ms a.created_at_unix_ms)) [
  | inl e ↦ inl (ground arith)
  | inr e ↦
      let same : a.created_at_unix_ms ≡ b.created_at_unix_ms = ground arith in
      inr (same, bytes_before-UpTo (bytes a.job_id) (bytes b.job_id) (ground arith))
]

AllPairs-NewerFirst : (xs : List JobSummary) → AllPairs InOrder xs → AllPairs NewerFirst xs
AllPairs-NewerFirst [] h = tt
AllPairs-NewerFirst (x ∷ xs) h =
    (All-map (InOrder x) (NewerFirst x) (InOrder-NewerFirst x) xs h.0, AllPairs-NewerFirst xs h.1)

length-map : (xs : List (Text × JobRecord)) → length (map summary xs) ≡ length xs
length-map [] = refl
length-map (x ∷ xs) = ap suc (length-map xs)

-- `list_jobs` sorts the summaries of the retained jobs that have the state asked for, the newest
-- first and those of one age by the bytes of their identifiers; it answers with the first of them, as many as the
-- limit allows, which is 100 for 0 and never more than 1,000, and with the number that there are
-- before the limit, up to the largest u32.
pub list_jobs-Lists :
    (daemon : Daemon) (state : Option JobState) (limit : ℕ)
    → let matching = keep (has_state state) daemon.jobs in
      (sorted : List JobSummary) × Perm sorted (map summary matching)
      × AllPairs NewerFirst sorted
      × (list_jobs daemon state limit
          ≡ Protocol.jobs
              (take (if limit == 0 then 100 else min limit 1000) sorted)
              (min (length matching) u32_max))
unfolding list_jobs
list_jobs-Lists daemon state limit =
    let matching = keep (has_state state) daemon.jobs in
    let summaries = sort (map summary matching) in
    let size : length summaries ≡ length matching =
      length-sort (map summary matching) ∙ length-map matching in
    (
      summaries,
      sort-Perm (map summary matching),
      AllPairs-NewerFirst summaries (sort-InOrder (map summary matching)),
      ap (λ n. Protocol.jobs (take (effective_limit limit) summaries) (min n u32_max)) size,
    )

-- With no more jobs than a u32 can count, the counters of `daemon_status` add up to its total,
-- which is the number of retained jobs.
daemon_status-total :
    (context : Context) (daemon : Daemon)
    → length daemon.jobs ≤ u32_max
    → (status : DaemonStatus) × (daemon_status context daemon
        ≡ Protocol.daemon_status_response status)
      × (status.total_jobs ≡ length daemon.jobs)
      × (status.queued_jobs + status.running_jobs + status.succeeded_jobs + status.failed_jobs
            + status.rolled_back_jobs
          ≡ status.total_jobs)
unfolding daemon_status total
daemon_status-total context daemon h =
    let sum = count_jobs-total no_jobs daemon.jobs (omega (arith, h)) in
    (_, refl, omega (arith, h), omega (arith, h, sum))
