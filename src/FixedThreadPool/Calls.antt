-- ===== src/FixedThreadPool/Calls.antt =====
-- The threads and the users of a FixedThreadPool, one step after another, with what becomes of each job.
use flinter.Base.{ℕ, ◌≡◌, Bool, false, if◌then◌else◌, Option, none, some, List, [], ◌∷◌, ◌++◌}
use flinter.Base.Map.{find, put, erase}
use flinter.FixedThreadPool.{
  ThreadJob, FixedThreadPool, initialize, Shutting, shutdown_pool, shutdown_joined, Requested,
  request_job, append_runnable, job_done,
}

-- The pool; the job of each thread that runs one; the jobs that were accepted, that were run to their end, that Shutdown()
-- purged, and that ended with their terminated thread.
pub record World : Type 0 where
  pub pool : FixedThreadPool
  pub running : List (ℕ × ThreadJob)
  pub accepted : List ThreadJob
  pub finished : List ThreadJob
  pub purged : List ThreadJob
  pub cancelled : List ThreadJob

unfoldable pub accepting : Bool → Option ℕ → Bool → List ThreadJob
accepting ok none auto = []
accepting ok (some r) auto = if ok then record { runnable = r; auto_release = auto } ∷ [] else []

unfoldable pub purging : Shutting → List ThreadJob → List ThreadJob
purging (Shutting.returned b) jobs = []
purging (Shutting.joining terminated threads) jobs = jobs

unfoldable pub begin : Requested → ℕ → List (ℕ × ThreadJob) → List (ℕ × ThreadJob)
begin (Requested.job_of job) t running = put t job running
begin Requested.ended t running = running
begin Requested.waiting t running = running

pub data Step (w : World) : World → Type 0 where
  initialize_step : (new : List ℕ) → Step w (record w { pool = (initialize new w.pool).1 })
  append_step :
      (r : Option ℕ) (auto : Bool)
      → Step w (record w {
        pool = (append_runnable r auto w.pool).1;
        accepted = accepting (append_runnable r auto w.pool).0 r auto ++ w.accepted;
      })
  request_step :
      (t : ℕ)
      → find t w.running ≡ none
      → Step w (record w {
        pool = (request_job t w.pool).1;
        running = begin (request_job t w.pool).0 t w.running;
      })
  done_step :
      (t : ℕ) (job : ThreadJob)
      → find t w.running ≡ some job
      → Step w (record w {
        pool = job_done job w.pool;
        running = erase t w.running;
        finished = job ∷ w.finished;
      })
  cancel_step :
      (t : ℕ) (job : ThreadJob)
      → find t w.running ≡ some job
      → Step w (record w { running = erase t w.running; cancelled = job ∷ w.cancelled })
  shutdown_step :
      (wait_for_jobs_done : Bool)
      → Step w (record w {
        pool = (shutdown_pool wait_for_jobs_done w.pool).1;
        purged =
            purging (shutdown_pool wait_for_jobs_done w.pool).0 w.pool.pending_jobs ++ w.purged;
      })
  joined_step : w.running ≡ [] → Step w (record w { pool = shutdown_joined w.pool })

abbrev pub new_world : World
new_world = record {
  pool = record {
    initializing = false;
    threads = [];
    actives = [];
    pending_jobs = [];
    deleted = [];
  };
  running = [];
  accepted = [];
  finished = [];
  purged = [];
  cancelled = [];
}

pub data Reach : World → Type 0 where
  start : Reach new_world
  after : {w w' : World} → Reach w → Step w w' → Reach w'
