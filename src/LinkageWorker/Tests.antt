-- ===== src/LinkageWorker/Tests.antt =====
-- Runs of a LinkageWorker.
use flinter.Base.{ℕ, ◌+◌, ◌==◌, ◌||◌, ◌≡◌, refl, Bool, true, false, none, some, [], ◌∷◌, ◌++◌}
use flinter.Base.Int.{pos}
use flinter.Base.Map.{find, put, erase}
use flinter.LinkageWorker.{
  attach_client, set_client_wanna_write, on_event_returned, health_check, run_end, on_command,
  pointers,
}
use flinter.LinkageWorker.Calls.{History, new_worker, joining, Step, Reach}
use flinter.LinkageWorker.Release.{outlives}
use flinter.LinkageWorker.Watchers.{wanted, Reach-watched}
use flinter.LinkageWorker.Ledger.{times, present, Reach-balanced, health_check-drops}
use flinter.LinkageWorker.Commands.{queued, on_command-cases}

-- Linkages 3 and 4 are attached, 4 wants to write, and 3 is disconnected.
abbrev busy : History
busy = record {
  worker = record new_worker {
    events = (4, record { auto_release = true; running_r = true; running_w = true; fd = 8 }) ∷ [];
    watching_r = (4, tt) ∷ [];
    watching_w = (4, tt) ∷ [];
    disconnected = 3 ∷ [];
  };
  attached = 4 ∷ 3 ∷ [];
  detached = [];
}

busy-Reach : Reach busy
unfolding joining find attach_client set_client_wanna_write on_event_returned put erase
busy-Reach =
    Reach.after
      (Reach.after
        (Reach.after (Reach.after Reach.start (Step.attach_step (some 3) 7 true false false))
          (Step.attach_step (some 4) 8 true false true))
        (Step.wanna_write_step 4 true))
      (Step.event_step true (pos 0) 3
        (record { auto_release = false; running_r = true; running_w = false; fd = 7 }) refl)

Reach-watched_example :
    (find 4 busy.worker.watching_r ≡ wanted (λ c. c.running_r) (find 4 busy.worker.events))
    × (find 4 busy.worker.watching_w ≡ wanted (λ c. c.running_w) (find 4 busy.worker.events))
Reach-watched_example = Reach-watched busy-Reach 4

Reach-balanced_example :
    (times 3 busy.attached
      ≡ times 3 busy.detached
        + times 3 busy.worker.disconnected
        + present (find 3 busy.worker.events))
    × (times 3 busy.attached ≡ times 3 busy.detached + times 3 (run_end busy.worker).disconnected)
Reach-balanced_example = Reach-balanced busy-Reach 3

health_check-drops_example :
    (find 4 (health_check (λ l. false) busy.worker).events
      ≡ outlives false (find 4 busy.worker.events))
    × (times 4 (health_check (λ l. false) busy.worker).disconnected
          + present (outlives false (find 4 busy.worker.events))
        ≡ times 4 busy.worker.disconnected + present (find 4 busy.worker.events))
health_check-drops_example = health_check-drops busy-Reach (λ l. false) 4

-- The commands from 5 fail.
abbrev runs : ℕ → Bool
runs c = (c == 1) || (c == 2)

on_command-cases_example :
    (on_command runs (record busy.worker { commands = queued (1 ∷ 2 ∷ []) ++ none ∷ none ∷ [] })
      ≡ (1 ∷ 2 ∷ [], record busy.worker { commands = []; quit = true }))
    × (on_command runs (record busy.worker { commands = queued (1 ∷ 2 ∷ []) ++ some 5 ∷ none ∷ [] })
        ≡ (
          (1 ∷ 2 ∷ []) ++ 5 ∷ [],
          record busy.worker {
            commands = [];
            deleted = ((1 ∷ 2 ∷ []) ++ 5 ∷ pointers (none ∷ [])) ++ busy.worker.deleted;
          },
        ))
    × (on_command runs (record busy.worker { commands = queued (1 ∷ 2 ∷ []) }) ≡ (
      1 ∷ 2 ∷ [],
      record busy.worker { commands = []; deleted = (1 ∷ 2 ∷ []) ++ busy.worker.deleted },
    ))
on_command-cases_example =
    on_command-cases runs (1 ∷ 2 ∷ []) 5 (none ∷ []) busy.worker (refl, (refl, tt)) refl
