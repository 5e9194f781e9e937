-- ===== src/FixedThreadPool/Ledger.antt =====
-- What becomes of the jobs of a FixedThreadPool, and of the runnables that it owns.
use flinter.Base.{
  ℕ, ◌+◌, ◌≡◌, refl, ap, ◌∙◌, ◌&&◌, Bool, false, ◌==◌, if◌then◌else◌, Option, none, some, List, [],
  ◌∷◌, ◌++◌, arith, Bool-cases, inl, inr,
}
use flinter.Base.Map.{
  find, IsSorted, IsSorted-put, IsSorted-erase, total, total-put_new, total-erase_found,
}
use flinter.FixedThreadPool.{
  ThreadJob, FixedThreadPool, spawn, initialize, purge, shutdown_pool, shutdown_threads,
  shutdown_joined, request_job, request_pending, drop_active, append_runnable, job_done,
}
use flinter.FixedThreadPool.Calls.{World, accepting, purging, begin, Step, Reach}

-- How many of the jobs a test picks.
unfoldable pub tally : (ThreadJob → ℕ) → List ThreadJob → ℕ
tally weight [] = 0
tally weight (job ∷ jobs) = weight job + tally weight jobs

-- A job of runnable `r`, and one that owns it.
abbrev pub job_for : ℕ → ThreadJob → ℕ
job_for r job = if job.runnable == r then 1 else 0

abbrev pub owner_of : ℕ → ThreadJob → ℕ
owner_of r job = if job.runnable == r && job.auto_release then 1 else 0

unfoldable pub times : ℕ → List ℕ → ℕ
times r [] = 0
times r (x ∷ xs) = (if x == r then 1 else 0) + times r xs

tally-append :
    (weight : ThreadJob → ℕ) (xs ys : List ThreadJob)
    → tally weight (xs ++ ys) ≡ tally weight xs + tally weight ys
unfolding tally
tally-append weight [] ys = omega arith
tally-append weight (x ∷ xs) ys = omega (arith, tally-append weight xs ys)

times-append : (r : ℕ) (xs ys : List ℕ) → times r (xs ++ ys) ≡ times r xs + times r ys
unfolding times
times-append r [] ys = omega arith
times-append r (x ∷ xs) ys = omega (arith, times-append r xs ys)

times-purge : (r : ℕ) (jobs : List ThreadJob) → times r (purge jobs) ≡ tally (owner_of r) jobs
unfolding times purge tally
times-purge r [] = refl
times-purge r (job ∷ jobs) = ground (arith, times-purge r jobs)

-- Each job that was accepted waits, runs, or has ended in one of three ways; each runnable that a job owns
-- was deleted for each of its jobs that were finished or purged.
pub record IsLedger (w : World) : Type 0 where
  pub sorted : IsSorted w.running
  pub even :
      (weight : ThreadJob → ℕ)
      → tally weight w.accepted
        ≡ tally weight w.pool.pending_jobs
          + (total (λ t job. weight job) w.running
              + (tally weight w.finished + (tally weight w.purged + tally weight w.cancelled)))
  pub freed :
      (r : ℕ) → times r w.pool.deleted ≡ tally (owner_of r) w.finished + tally (owner_of r) w.purged

-- How many jobs a pool has pending, and how often it has deleted a runnable.
abbrev waits : (ThreadJob → ℕ) → FixedThreadPool → ℕ
waits weight p = tally weight p.pending_jobs

initialize-frame :
    (new : List ℕ) (p : FixedThreadPool)
    → ((initialize new p).1.pending_jobs ≡ p.pending_jobs)
      × ((initialize new p).1.deleted ≡ p.deleted)
unfolding initialize
initialize-frame [] p = (refl, refl)
initialize-frame (t ∷ ts) p = elim (Bool-cases p.initializing) [
  | inl busy ↦ simp busy (refl, refl)
  | inr free ↦ simp free (by_threads p.threads)
]
  where
    by_threads :
        (old : List ℕ)
        → ((spawn old (t ∷ ts) p).1.pending_jobs ≡ p.pending_jobs)
          × ((spawn old (t ∷ ts) p).1.deleted ≡ p.deleted)
    by_threads [] = (refl, refl)
    by_threads (u ∷ us) = (refl, refl)

append-waits :
    (weight : ThreadJob → ℕ) (r : Option ℕ) (auto : Bool) (p : FixedThreadPool)
    → (waits weight (append_runnable r auto p).1
        ≡ waits weight p + tally weight (accepting (append_runnable r auto p).0 r auto))
      × ((append_runnable r auto p).1.deleted ≡ p.deleted)
unfolding append_runnable accepting tally
append-waits weight none auto p = (omega arith, refl)
append-waits weight (some r) auto p = elim (Bool-cases p.initializing) [
  | inl busy ↦ simp busy (omega arith, refl)
  | inr free ↦ simp free (
    omega (
      arith,
      tally-append weight p.pending_jobs (record { runnable = r; auto_release = auto } ∷ []),
    ),
    refl,
  )
]

request-waits :
    (weight : ThreadJob → ℕ) (t : ℕ) (p : FixedThreadPool) (running : List (ℕ × ThreadJob))
    → find t running ≡ none
    → IsSorted running
    → (waits weight (request_job t p).1
          + total (λ u job. weight job) (begin (request_job t p).0 t running)
        ≡ waits weight p + total (λ u job. weight job) running)
      × (IsSorted (begin (request_job t p).0 t running) × ((request_job t p).1.deleted ≡ p.deleted))
unfolding request_job begin tally
request-waits weight t p running e s = elim (Bool-cases p.initializing) [
  | inl busy ↦ simp busy (refl, (s, refl))
  | inr free ↦ simp free (by_pending p.pending_jobs refl)
]
  where
    p' : FixedThreadPool
    p' = record p { initializing = false; actives = drop_active t p.actives }

    by_pending :
        (jobs : List ThreadJob)
        → p.pending_jobs ≡ jobs
        → (waits weight (request_pending t jobs p').1
              + total (λ u job. weight job) (begin (request_pending t jobs p').0 t running)
            ≡ waits weight p + total (λ u job. weight job) running)
          × (IsSorted (begin (request_pending t jobs p').0 t running)
              × ((request_pending t jobs p').1.deleted ≡ p.deleted))
    by_pending [] q = (refl, (s, refl))
    by_pending (job ∷ jobs) q = (
      omega (arith, ap (tally weight) q, total-put_new (λ u x. weight x) t job running s e),
      (IsSorted-put t job running s, refl),
    )

shutdown-waits :
    (wait : Bool) (p : FixedThreadPool)
    → ((weight : ThreadJob → ℕ)
        → waits weight p
          ≡ waits weight (shutdown_pool wait p).1
            + tally weight (purging (shutdown_pool wait p).0 p.pending_jobs))
      × ((r : ℕ)
          → times r (shutdown_pool wait p).1.deleted
            ≡ times r p.deleted
              + tally (owner_of r) (purging (shutdown_pool wait p).0 p.pending_jobs))
unfolding shutdown_pool shutdown_threads purging tally
shutdown-waits wait p = elim (Bool-cases p.initializing) [
  | inl busy ↦ simp busy ((λ weight. omega arith), λ r. omega arith)
  | inr free ↦ simp free (by_threads p.threads)
]
  where
    by_threads :
        (ts : List ℕ)
        → ((weight : ThreadJob → ℕ)
            → waits weight p
              ≡ waits weight (shutdown_threads wait ts p).1
                + tally weight (purging (shutdown_threads wait ts p).0 p.pending_jobs))
          × ((r : ℕ)
              → times r (shutdown_threads wait ts p).1.deleted
                ≡ times r p.deleted
                  + tally (owner_of r) (purging (shutdown_threads wait ts p).0 p.pending_jobs))
    by_threads [] = ((λ weight. omega arith), λ r. omega arith)
    by_threads (t ∷ ts) = (
      (λ weight. omega arith),
      λ r.
          omega
            (arith, times-append r (purge p.pending_jobs) p.deleted, times-purge r p.pending_jobs),
    )

step-IsLedger : {w w' : World} → Step w w' → IsLedger w → IsLedger w'
unfolding shutdown_joined job_done tally times
step-IsLedger {w = w} (Step.initialize_step new) k =
    let (same, kept) = initialize-frame new w.pool in
    record {
      sorted = k.sorted;
      even = λ weight. omega (arith, k.even weight, ap (tally weight) same);
      freed = λ r. ap (times r) kept ∙ k.freed r;
    }
step-IsLedger {w = w} (Step.append_step r auto) k = record {
  sorted = k.sorted;
  even = λ weight. omega (
    arith,
    k.even weight,
    (append-waits weight r auto w.pool).0,
    tally-append weight (accepting (append_runnable r auto w.pool).0 r auto) w.accepted,
  );
  freed = λ x. ap (times x) (append-waits (job_for x) r auto w.pool).1 ∙ k.freed x;
}
step-IsLedger {w = w} (Step.request_step t e) k = record {
  sorted = (request-waits (job_for 0) t w.pool w.running e k.sorted).1.0;
  even = λ weight.
      omega (arith, k.even weight, (request-waits weight t w.pool w.running e k.sorted).0);
  freed =
      λ x. ap (times x) (request-waits (job_for 0) t w.pool w.running e k.sorted).1.1 ∙ k.freed x;
}
step-IsLedger {w = w} (Step.done_step t job e) k = record {
  sorted = IsSorted-erase t w.running k.sorted;
  even = λ weight. omega (arith, k.even weight, total-erase_found (λ u x. weight x) t w.running e);
  freed = λ x. ground (arith, k.freed x);
}
step-IsLedger {w = w} (Step.cancel_step t job e) k = record {
  sorted = IsSorted-erase t w.running k.sorted;
  even = λ weight. omega (arith, k.even weight, total-erase_found (λ u x. weight x) t w.running e);
  freed = k.freed;
}
step-IsLedger {w = w} (Step.shutdown_step wait) k =
    let (moved, dropped) = shutdown-waits wait w.pool in
    let jobs = purging (shutdown_pool wait w.pool).0 w.pool.pending_jobs in
    record {
      sorted = k.sorted;
      even =
          λ weight. omega (arith, k.even weight, moved weight, tally-append weight jobs w.purged);
      freed = λ x. omega (arith, k.freed x, dropped x, tally-append (owner_of x) jobs w.purged);
    }
step-IsLedger {w = w} (Step.joined_step e) k = record {
  sorted = k.sorted;
  even = k.even;
  freed = k.freed;
}

Reach-IsLedger : {w : World} → Reach w → IsLedger w
unfolding tally times total
Reach-IsLedger Reach.start = record {
  sorted = tt;
  even = λ weight. omega arith;
  freed = λ r. omega arith;
}
Reach-IsLedger (Reach.after r step) = step-IsLedger step (Reach-IsLedger r)

-- In every order of the steps of threads and users, each job that AppendJob() accepted is pending, runs in one
-- thread, was run to its end, was purged by Shutdown(), or ended with its cancelled thread, and only one of these; and a
-- runnable is deleted once for each of its jobs with automatic release that was run to its end or purged.
pub Reach-ledger :
    {w : World}
    → Reach w
    → (r : ℕ)
    → (tally (job_for r) w.accepted
        ≡ tally (job_for r) w.pool.pending_jobs
          + (total (λ t job. job_for r job) w.running
              + (tally (job_for r) w.finished
                  + (tally (job_for r) w.purged + tally (job_for r) w.cancelled))))
      × (times r w.pool.deleted ≡ tally (owner_of r) w.finished + tally (owner_of r) w.purged)
Reach-ledger reach r = let k = Reach-IsLedger reach in (k.even (job_for r), k.freed r)
