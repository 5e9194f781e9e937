-- ===== src/FixedThreadPool/Tests.antt =====
-- A run of a FixedThreadPool.
use flinter.Base.{◌+◌, ◌≡◌, refl, true, some, [], ◌∷◌}
use flinter.Base.Map.{find, put, erase, total}
use flinter.FixedThreadPool.{ThreadJob, initialize, append_runnable, request_job, job_done}
use flinter.FixedThreadPool.Calls.{World, new_world, accepting, begin, Step, Reach}
use flinter.FixedThreadPool.Ledger.{tally, job_for, owner_of, times, Reach-ledger}

-- Thread 1 has run job 7 to its end, and owned it.
abbrev job_7 : ThreadJob
job_7 = record { runnable = 7; auto_release = true }

abbrev one_done : World
one_done = record new_world {
  pool = record new_world.pool { threads = 1 ∷ []; actives = 1 ∷ []; deleted = 7 ∷ [] };
  accepted = job_7 ∷ [];
  finished = job_7 ∷ [];
}

one_done-Reach : Reach one_done
unfolding initialize append_runnable request_job job_done accepting begin find put erase
one_done-Reach =
    Reach.after
      (Reach.after
        (Reach.after (Reach.after Reach.start (Step.initialize_step (1 ∷ [])))
          (Step.append_step (some 7) true))
        (Step.request_step 1 refl))
      (Step.done_step 1 job_7 refl)

Reach-ledger_example :
    (tally (job_for 7) one_done.accepted
      ≡ tally (job_for 7) one_done.pool.pending_jobs
        + (total (λ t job. job_for 7 job) one_done.running
            + (tally (job_for 7) one_done.finished
                + (tally (job_for 7) one_done.purged + tally (job_for 7) one_done.cancelled))))
    × (times 7 one_done.pool.deleted
        ≡ tally (owner_of 7) one_done.finished + tally (owner_of 7) one_done.purged)
Reach-ledger_example = Reach-ledger one_done-Reach 7
