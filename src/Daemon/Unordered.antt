-- ===== src/Daemon/Unordered.antt =====
-- crates/netpland/src/main.rs: no answer depends on the order in which the table of jobs is gone
-- through.
use netplan.Base.{
  ℕ, ◌+◌, ◌≡◌, ◌≢◌, refl, sym, ap, ◌∙◌, arith, Bool, true, false, Bool-cases, inl, inr, Option,
  none, some, List, [], ◌∷◌, AllPairs, map, keep, length, if◌then◌else◌, Text, text_eq,
  text_eq_sound, bytes, ok, Result-cases,
}
use mathlib.Core.List.{Permᴰ, foldr}
use mathlib.Core.List.Permᴰ
use netplan.Config.{ConfigFormat, NetplanConfig}
use netplan.Config.Parse.{parse}
use netplan.Protocol
use netplan.Protocol.{
  Request, Response, ConfigAction, validate_only, plan_only, apply_config, JobState, JobSummary,
  queued, running, succeeded, failed, rolled_back,
}
use netplan.Daemon.{Daemon, Context, JobRecord, Platform}
use netplan.Daemon.Jobs.{
  Counters, count, count_jobs, no_jobs, daemon_status, list_jobs, insert_sorted, sort, summary,
  has_state, get, insert,
}
use netplan.Daemon.Dispatch.{dispatch, config_action, config_request, apply_live, dry_run_apply}
use netplan.Daemon.Reordering.{AllPairs-Permᴰ, foldr-Permᴰ, insert_sorted_comm}

-- Entries of different jobs
abbrev pub Distinct : Text × JobRecord → Text × JobRecord → Type 0
Distinct a b = bytes a.0 ≢ bytes b.0

Distinct-sym : (a b : Text × JobRecord) → Distinct a b → Distinct b a
Distinct-sym a b h e = h (sym e)

module _ (state : Option JobState) where
  abbrev listed : Text × JobRecord → List JobSummary → List JobSummary
  listed entry rest = if has_state state entry then insert_sorted (summary entry) rest else rest

  sort-listed :
      (jobs : List (Text × JobRecord))
      → sort (map summary (keep (has_state state) jobs)) ≡ foldr listed [] jobs
  sort-listed [] = refl
  sort-listed (entry ∷ jobs) = elim (Bool-cases (has_state state entry)) [
    | inl e ↦ rw (e, keep) (ap (insert_sorted (summary entry)) (sort-listed jobs))
    | inr e ↦ rw (e, keep) (sort-listed jobs)
  ]

  listed_comm :
      (a b : Text × JobRecord) (rest : List JobSummary)
      → Distinct a b
      → listed a (listed b rest) ≡ listed b (listed a rest)
  listed_comm a b rest apart = elim (Bool-cases (has_state state a)) [
    | inl p ↦ elim (Bool-cases (has_state state b)) [
      | inl q ↦ rw (p, q) (insert_sorted_comm (summary a) (summary b) rest apart)
      | inr q ↦ rw (p, q) refl
    ]
    | inr p ↦ rw p refl
  ]

one_id :
    (id : Text) (a b : Text × JobRecord)
    → Distinct a b
    → text_eq id a.0 ≡ true
    → text_eq id b.0 ≡ false
one_id id a b apart p = elim (Bool-cases (text_eq id b.0)) [
  | inl q ↦ absurd (apart (ap bytes (sym (text_eq_sound id a.0 p) ∙ text_eq_sound id b.0 q)))
  | inr q ↦ q
]

swapped :
    (id : Text) (job : JobRecord) (a b : Text × JobRecord) (l : List (Text × JobRecord))
    → Distinct a b
    → Permᴰ (insert id job (a ∷ b ∷ l)) (insert id job (b ∷ a ∷ l))
swapped id job a b l apart = elim (Bool-cases (text_eq id a.0)) [
  | inl p ↦ rw (p, one_id id a b apart p) (Permᴰ.swap refl refl)
  | inr p ↦ elim (Bool-cases (text_eq id b.0)) [
    | inl q ↦ rw (p, q) (Permᴰ.swap refl refl)
    | inr q ↦ rw (p, q) (Permᴰ.swap refl refl)
  ]
]

insert-Permᴰ :
    (id : Text) (job : JobRecord) {xs ys : List (Text × JobRecord)}
    → Permᴰ xs ys
    → AllPairs Distinct xs
    → Permᴰ (insert id job xs) (insert id job ys)
insert-Permᴰ id job Permᴰ.nil h = Permᴰ.refl _
insert-Permᴰ id job (Permᴰ.cons {a = a} e p) h = elim (Bool-cases (text_eq id a.0)) [
  | inl same ↦ rw (← e, same) (Permᴰ.cons refl p)
  | inr other ↦ rw (← e, other) (Permᴰ.cons refl (insert-Permᴰ id job p h.1))
]
insert-Permᴰ id job (Permᴰ.swap {a = a} {b = b} {l = l} e f) h =
    rw (← e, ← f) (swapped id job a b l h.0.0)
insert-Permᴰ id job (Permᴰ.trans p q) h =
    Permᴰ.trans (insert-Permᴰ id job p h)
      (insert-Permᴰ id job q (AllPairs-Permᴰ Distinct Distinct-sym p h))

found : Text → Text × JobRecord → Option JobRecord → Option JobRecord
found id entry rest = if text_eq id entry.0 then some entry.1 else rest

get-found : (id : Text) (jobs : List (Text × JobRecord)) → get id jobs ≡ foldr (found id) none jobs
unfolding found
get-found id [] = refl
get-found id (entry ∷ jobs) =
    ap (λ rest. if text_eq id entry.0 then some entry.1 else rest) (get-found id jobs)

found_comm :
    (id : Text) (a b : Text × JobRecord) (rest : Option JobRecord)
    → Distinct a b
    → found id a (found id b rest) ≡ found id b (found id a rest)
unfolding found
found_comm id a b rest apart = elim (Bool-cases (text_eq id a.0)) [
  | inl p ↦ rw (p, one_id id a b apart p) refl
  | inr p ↦ rw p refl
]

count_comm : (s t : JobState) (c : Counters) → count s (count t c) ≡ count t (count s c)
count_comm queued t c = elim t as (λ t. count queued (count t c) ≡ count t (count queued c)) [
  | queued ↦ refl
  | running ↦ refl
  | succeeded ↦ refl
  | failed ↦ refl
  | rolled_back ↦ refl
]
count_comm running t c = elim t as (λ t. count running (count t c) ≡ count t (count running c)) [
  | queued ↦ refl
  | running ↦ refl
  | succeeded ↦ refl
  | failed ↦ refl
  | rolled_back ↦ refl
]
count_comm succeeded t c =
    elim t as (λ t. count succeeded (count t c) ≡ count t (count succeeded c)) [
      | queued ↦ refl
      | running ↦ refl
      | succeeded ↦ refl
      | failed ↦ refl
      | rolled_back ↦ refl
    ]
count_comm failed t c = elim t as (λ t. count failed (count t c) ≡ count t (count failed c)) [
  | queued ↦ refl
  | running ↦ refl
  | succeeded ↦ refl
  | failed ↦ refl
  | rolled_back ↦ refl
]
count_comm rolled_back t c =
    elim t as (λ t. count rolled_back (count t c) ≡ count t (count rolled_back c)) [
      | queued ↦ refl
      | running ↦ refl
      | succeeded ↦ refl
      | failed ↦ refl
      | rolled_back ↦ refl
    ]

count_jobs-after :
    (s : JobState) (c : Counters) (jobs : List (Text × JobRecord))
    → count_jobs (count s c) jobs ≡ count s (count_jobs c jobs)
count_jobs-after s c [] = refl
count_jobs-after s c (entry ∷ jobs) =
    ap (λ d. count_jobs d jobs) (count_comm entry.1.state s c)
    ∙ count_jobs-after s (count entry.1.state c) jobs

count_jobs-foldr :
    (c : Counters) (jobs : List (Text × JobRecord))
    → count_jobs c jobs ≡ foldr (λ entry. count entry.1.state) c jobs
count_jobs-foldr c [] = refl
count_jobs-foldr c (entry ∷ jobs) =
    count_jobs-after entry.1.state c jobs ∙ ap (count entry.1.state) (count_jobs-foldr c jobs)

-- The daemon with its table in another order
abbrev pub reordered : List (Text × JobRecord) → Daemon → Daemon
reordered jobs daemon = record daemon { jobs = jobs }

-- The answers to a request are the same, and what is left differs in the order of the table alone.
abbrev pub Alike : Context → Platform → Daemon → List (Text × JobRecord) → Request → Type 0
Alike context platform daemon jobs request =
    let left = dispatch context platform request daemon in
    let right = dispatch context platform request (reordered jobs daemon) in
    (right.response ≡ left.response)
    × Permᴰ left.daemon.jobs right.daemon.jobs
    × (right.daemon ≡ reordered right.daemon.jobs left.daemon)

module _ (daemon : Daemon) (jobs : List (Text × JobRecord)) (same : Permᴰ daemon.jobs jobs)
    (distinct : AllPairs Distinct daemon.jobs) where
  get-reordered : (id : Text) → get id daemon.jobs ≡ get id jobs
  get-reordered id =
      get-found id daemon.jobs
      ∙ foldr-Permᴰ Distinct Distinct-sym (found id) none (found_comm id) same distinct
      ∙ sym (get-found id jobs)

  sort-reordered :
      (state : Option JobState)
      → sort (map summary (keep (has_state state) daemon.jobs))
        ≡ sort (map summary (keep (has_state state) jobs))
  sort-reordered state =
      sort-listed state daemon.jobs
      ∙ foldr-Permᴰ Distinct Distinct-sym (listed state) [] (listed_comm state) same distinct
      ∙ sym (sort-listed state jobs)

  count_jobs-reordered : count_jobs no_jobs daemon.jobs ≡ count_jobs no_jobs jobs
  count_jobs-reordered =
      count_jobs-foldr no_jobs daemon.jobs
      ∙ foldr-Permᴰ Distinct Distinct-sym (λ (entry : Text × JobRecord). count entry.1.state)
          no_jobs (λ a b c apart. count_comm a.1.state b.1.state c) same distinct
      ∙ sym (count_jobs-foldr no_jobs jobs)

  length-foldr :
      (entries : List (Text × JobRecord)) → length entries ≡ foldr (λ entry n. n + 1) 0 entries
  length-foldr [] = refl
  length-foldr (entry ∷ entries) = let rest = length-foldr entries in omega (arith, rest)

  length-reordered : length daemon.jobs ≡ length jobs
  length-reordered =
      length-foldr daemon.jobs
      ∙ foldr-Permᴰ Distinct Distinct-sym (λ (entry : Text × JobRecord) n. n + 1) 0
          (λ a b n apart. refl) same distinct
      ∙ sym (length-foldr jobs)

  module _ (context : Context) (platform : Platform) where
    valid_config-Alike :
        (action : ConfigAction) (format : ConfigFormat) (document : List ℕ) (dry_run : Bool)
        (config : NetplanConfig)
        → parse context.decoders context.unicode document format ≡ ok config
        → Alike context platform daemon jobs (Protocol.config action format document dry_run)
    unfolding dispatch config_action apply_live dry_run_apply
    valid_config-Alike validate_only format document dry_run config e = rw e (refl, same, refl)
    valid_config-Alike plan_only format document dry_run config e = rw e (refl, same, refl)
    valid_config-Alike apply_config format document true config e =
        rw e (refl, insert-Permᴰ context.new_v4 _ same distinct, refl)
    valid_config-Alike apply_config format document false config e =
        elim (Result-cases (platform.preflight config)) [
          | inl (u, p) ↦
              rw (e, config_request, p) (refl, insert-Permᴰ context.new_v4 _ same distinct, refl)
          | inr (error, p) ↦ rw (e, config_request, p) (refl, same, refl)
        ]

    -- Where the identifiers in the table of jobs differ, a request has the same answer in whatever
    -- order the table holds its jobs, and leaves the same but for the order of that table.
    pub dispatch-Alike : (request : Request) → Alike context platform daemon jobs request
    unfolding dispatch list_jobs daemon_status
    dispatch-Alike Protocol.ping = (refl, same, refl)
    dispatch-Alike Protocol.daemon_status =
        (rw (count_jobs-reordered, length-reordered) refl, same, refl)
    dispatch-Alike Protocol.capabilities = (refl, same, refl)
    dispatch-Alike Protocol.list_adapters = (refl, same, refl)
    dispatch-Alike (Protocol.config action format document dry_run) =
        elim (Result-cases (parse context.decoders context.unicode document format)) [
          | inl (config, e) ↦ valid_config-Alike action format document dry_run config e
          | inr (error, e) ↦ rw e (refl, same, refl)
        ]
    dispatch-Alike (Protocol.job_status job_id) = (rw (get-reordered job_id) refl, same, refl)
    dispatch-Alike (Protocol.list_jobs state limit) = (rw (sort-reordered state) refl, same, refl)
    dispatch-Alike Protocol.network_status = (refl, same, refl)
    dispatch-Alike (Protocol.wifi_status if_index) = (refl, same, refl)
    dispatch-Alike (Protocol.wifi_scan if_index refresh timeout_ms) = (refl, same, refl)
    dispatch-Alike Protocol.shutdown = (refl, same, refl)
