-- ===== src/EasyServer/Jobs.antt =====
-- The jobs of an EasyServer for its job workers, flinter/linkage/easy_server.cpp: one queue for all and one for each
-- worker. A job stands at an address, and NULL, which ends a worker, is `none`. A call holds the global mutex.
pub mod Order
use flinter.Base.{ℕ, zero, suc, ◌%◌, ◌==◌, if◌then◌else◌, Option, none, some, List, [], ◌∷◌, ◌++◌}
use flinter.Base.Int.{ℤ, pos, negsuc}

-- _jobs, _hashjobs and its size, and what was deleted without a run.
pub record JobQueues : Type 0 where
  pub jobs : List (Option ℕ)
  pub hashjobs : ℕ → List (Option ℕ)
  pub workers : ℕ
  pub dumped : List (Option ℕ)

-- DoAppendJob().
unfoldable pub append_job : Option ℕ → ℤ → JobQueues → JobQueues
append_job job (negsuc _) q = record q { jobs = q.jobs ++ job ∷ [] }
append_job job (pos hash) q = record q {
  hashjobs = λ i. if hash % q.workers == i then q.hashjobs i ++ job ∷ [] else q.hashjobs i;
}

-- The job that GetJob() takes from the global queue, or none where it waits.
unfoldable pub get_global : List (Option ℕ) → JobQueues → Option (Option ℕ) × JobQueues
get_global [] q = (none, q)
get_global (job ∷ rest) q = (some job, record q { jobs = rest })

-- Behind the test of the worker's own queue.
unfoldable pub get_own : List (Option ℕ) → ℕ → JobQueues → Option (Option ℕ) × JobQueues
unfolding get_global
get_own [] id q = get_global q.jobs q
get_own (job ∷ rest) id q =
    (some job, record q { hashjobs = λ i. if id == i then rest else q.hashjobs i })

-- GetJob(); `none` is a worker that waits for a change of the queues.
unfoldable pub get_job : ℕ → JobQueues → Option (Option ℕ) × JobQueues
unfolding get_own
get_job id q = get_own (q.hashjobs id) id q

-- The queues of the workers below `n`, one behind the other.
unfoldable pub all_hashed : ℕ → JobQueues → List (Option ℕ)
all_hashed zero q = []
all_hashed (suc n) q = all_hashed n q ++ q.hashjobs n

-- DoDumpJobs().
unfoldable pub dump_jobs : JobQueues → JobQueues
unfolding all_hashed
dump_jobs q = record q {
  jobs = [];
  hashjobs = λ i. [];
  dumped = q.dumped ++ q.jobs ++ all_hashed q.workers q;
}

-- The first loop of DoShutdown(), for the workers below `n`.
unfoldable pub append_ends : ℕ → JobQueues → JobQueues
unfolding append_job
append_ends zero q = q
append_ends (suc n) q = append_job none (pos n) (append_ends n q)

-- DoShutdown(), up to the end of its critical section.
unfoldable pub shutdown_jobs : JobQueues → JobQueues
unfolding dump_jobs append_ends
shutdown_jobs q = append_ends q.workers (dump_jobs q)

pub data Call : Type 0 where
  append : Option ℕ → ℤ → Call
  get : ℕ → Call

unfoldable pub step : Call → JobQueues → JobQueues
unfolding append_job get_job
step (Call.append job hash) q = append_job job hash q
step (Call.get id) q = (get_job id q).1

unfoldable pub run : List Call → JobQueues → JobQueues
unfolding step
run [] q = q
run (c ∷ cs) q = run cs (step c q)

-- The jobs that the calls append for worker `t`.
unfoldable pub sent : ℕ → ℕ → List Call → List (Option ℕ)
sent t workers [] = []
sent t workers (Call.append job (negsuc _) ∷ cs) = sent t workers cs
sent t workers (Call.append job (pos hash) ∷ cs) =
    let rest = sent t workers cs in if hash % workers == t then job ∷ rest else rest
sent t workers (Call.get id ∷ cs) = sent t workers cs

-- What GetJob() returns, to a worker whose own queue is not empty.
unfoldable pub from_own : List (Option ℕ) → Option (Option ℕ) → List (Option ℕ)
from_own [] got = []
from_own (x ∷ xs) none = []
from_own (x ∷ xs) (some job) = job ∷ []

-- The jobs that GetJob() returns to worker `t` from its own queue in the calls.
unfoldable pub taken : ℕ → List Call → JobQueues → List (Option ℕ)
unfolding step get_job from_own
taken t [] q = []
taken t (Call.append job hash ∷ cs) q = taken t cs (step (Call.append job hash) q)
taken t (Call.get id ∷ cs) q =
    let rest = taken t cs (step (Call.get id) q) in
    if id == t then from_own (q.hashjobs t) (get_job t q).0 ++ rest else rest
