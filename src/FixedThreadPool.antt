-- ===== src/FixedThreadPool.antt =====
-- class FixedThreadPool of flinter/thread/fixed_thread_pool.cpp, with Purge() of abstract_thread_pool.cpp and
-- ThreadDaemon() of thread.cpp. Threads and runnables are numbers. A function is what a thread does
-- under the mutex; waiting for a job, and for a thread that ends, is a call that may be made later.
pub mod Calls
pub mod Ledger
mod Tests
use flinter.Base.{
  ℕ, Bool, true, false, ◌==◌, if◌then◌else◌, Option, none, some, List, [], ◌∷◌, ◌++◌,
}

pub record ThreadJob : Type 0 where
  pub runnable : ℕ
  pub auto_release : Bool

-- The fields of the pool, and the runnables that were deleted.
pub record FixedThreadPool : Type 0 where
  pub initializing : Bool
  pub threads : List ℕ
  pub actives : List ℕ
  pub pending_jobs : List ThreadJob
  pub deleted : List ℕ

-- Initialize() and Spawn(), of the threads that they create.
unfoldable pub spawn : List ℕ → List ℕ → FixedThreadPool → Bool × FixedThreadPool
spawn [] new p = (true, record p { threads = new })
spawn (t ∷ ts) new p = (false, p)

unfoldable pub initialize : List ℕ → FixedThreadPool → Bool × FixedThreadPool
unfolding spawn
initialize [] p = (false, p)
initialize (t ∷ ts) p = if p.initializing then (false, p) else spawn p.threads (t ∷ ts) p

-- What Purge() deletes, but for the jobs themselves.
unfoldable pub purge : List ThreadJob → List ℕ
purge [] = []
purge (job ∷ jobs) = let rest = purge jobs in if job.auto_release then job.runnable ∷ rest else rest

-- Shutdown() returns at once, or it has terminated some threads, and waits for some to end.
pub data Shutting : Type 0 where
  returned : Bool → Shutting
  joining : List ℕ → List ℕ → Shutting

unfoldable pub shutdown_threads : Bool → List ℕ → FixedThreadPool → Shutting × FixedThreadPool
unfolding purge
shutdown_threads wait_for_jobs_done [] p = (Shutting.returned true, p)
shutdown_threads wait_for_jobs_done (t ∷ ts) p = (
  Shutting.joining (if wait_for_jobs_done then [] else p.actives) (t ∷ ts),
  record p {
    initializing = true;
    threads = [];
    actives = [];
    pending_jobs = [];
    deleted = purge p.pending_jobs ++ p.deleted;
  },
)

-- Shutdown(), up to its wait for the threads, and behind it.
unfoldable pub shutdown_pool : Bool → FixedThreadPool → Shutting × FixedThreadPool
unfolding shutdown_threads
shutdown_pool wait_for_jobs_done p =
    if p.initializing
    then (Shutting.returned false, p)
    else shutdown_threads wait_for_jobs_done p.threads p

unfoldable pub shutdown_joined : FixedThreadPool → FixedThreadPool
shutdown_joined p = record p { initializing = false }

unfoldable pub drop_active : ℕ → List ℕ → List ℕ
drop_active t [] = []
drop_active t (u ∷ us) = let rest = drop_active t us in if u == t then rest else u ∷ rest

-- RequestJob() gives a job, or NULL, which ends the thread, or waits.
pub data Requested : Type 0 where
  job_of : ThreadJob → Requested
  ended : Requested
  waiting : Requested

-- TryRequestJob() of the jobs that are pending.
unfoldable pub request_pending : ℕ → List ThreadJob → FixedThreadPool → Requested × FixedThreadPool
request_pending t [] p = (Requested.waiting, p)
request_pending t (job ∷ jobs) p =
    (Requested.job_of job, record p { pending_jobs = jobs; actives = t ∷ p.actives })

-- RequestJob() of thread `t`, with TryRequestJob().
unfoldable pub request_job : ℕ → FixedThreadPool → Requested × FixedThreadPool
unfolding drop_active request_pending
request_job t p =
    let p' = record p { actives = drop_active t p.actives } in
    if p.initializing then (Requested.ended, p') else request_pending t p.pending_jobs p'

-- AppendJob(); `none` is a null pointer.
unfoldable pub append_runnable : Option ℕ → Bool → FixedThreadPool → Bool × FixedThreadPool
append_runnable none auto p = (false, p)
append_runnable (some r) auto p = if p.initializing then (false, p) else (
  true,
  record p { pending_jobs = p.pending_jobs ++ record { runnable = r; auto_release = auto } ∷ [] },
)

-- ThreadDaemon(), behind the run of its job.
unfoldable pub job_done : ThreadJob → FixedThreadPool → FixedThreadPool
job_done job p = record p {
  deleted = if job.auto_release then job.runnable ∷ p.deleted else p.deleted;
}
