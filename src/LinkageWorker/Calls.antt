-- ===== src/LinkageWorker/Calls.antt =====
-- The calls of a LinkageWorker, one after another, with what was attached and what was detached.
use flinter.Base.{ℕ, ◌≡◌, Bool, false, Option, none, some, List, [], ◌∷◌, ◌++◌}
use flinter.Base.Int.{ℤ}
use flinter.Base.Map.{find}
use flinter.LinkageWorker.{
  Attached, Timer, LinkageWorker, attach_client, detach_client, on_event_returned, set_client_wanna,
  set_client_wanna_read, set_client_wanna_write, health_check, register_timer, on_timer, run_end,
  send_command, on_command,
}

-- The worker, the linkages that entered its table and those that Detach() took out.
pub record History : Type 0 where
  pub worker : LinkageWorker
  pub attached : List ℕ
  pub detached : List ℕ

abbrev pub new_worker : LinkageWorker
new_worker = record {
  events = [];
  timers = [];
  commands = [];
  quit = false;
  watching_r = [];
  watching_w = [];
  disconnected = [];
  errors = [];
  deleted = [];
}

-- The linkage that Attach() puts into the table, and the one that Detach() takes out.
unfoldable pub joining : Option ℕ → LinkageWorker → List ℕ
joining none k = []
joining (some l) k = elim (find l k.events) [ none ↦ l ∷ [] | some _ ↦ [] ]

unfoldable pub leaving : Option ℕ → LinkageWorker → List ℕ
leaving none k = []
leaving (some l) k = elim (find l k.events) [ none ↦ [] | some _ ↦ l ∷ [] ]

pub data Step (h : History) : History → Type 0 where
  attach_step :
      (l : Option ℕ) (fd : ℕ) (r w auto : Bool)
      → Step h (record {
        worker = (attach_client l fd r w auto h.worker).1;
        attached = joining l h.worker ++ h.attached;
        detached = h.detached;
      })
  detach_step :
      (l : Option ℕ)
      → Step h (record {
        worker = (detach_client l h.worker).1;
        attached = h.attached;
        detached = leaving l h.worker ++ h.detached;
      })
  event_step :
      (reading : Bool) (ret : ℤ) (l : ℕ) (c : Attached)
      → find l h.worker.events ≡ some c
      → Step h (record h { worker = on_event_returned reading ret l c h.worker })
  wanna_step :
      (l : ℕ) (r w : Bool) → Step h (record h { worker = (set_client_wanna l r w h.worker).1 })
  wanna_read_step :
      (l : ℕ) (r : Bool) → Step h (record h { worker = (set_client_wanna_read l r h.worker).1 })
  wanna_write_step :
      (l : ℕ) (w : Bool) → Step h (record h { worker = (set_client_wanna_write l w h.worker).1 })
  health_step : (keeps : ℕ → Bool) → Step h (record h { worker = health_check keeps h.worker })
  timer_step :
      (after repeat : ℤ) (r : Option ℕ) (auto : Bool) (p : ℕ)
      → Step h (record h { worker = (register_timer after repeat r auto p h.worker).1 })
  alarm_step :
      (ran : Bool) (p : ℕ) (t : Timer)
      → find p h.worker.timers ≡ some t
      → Step h (record h { worker = on_timer ran p t h.worker })
  send_step : (c : Option ℕ) → Step h (record h { worker = send_command c h.worker })
  command_step : (runs : ℕ → Bool) → Step h (record h { worker = (on_command runs h.worker).1 })
  end_step : Step h (record h { worker = run_end h.worker })

pub data Reach : History → Type 0 where
  start : Reach (record { worker = new_worker; attached = []; detached = [] })
  after : {h h' : History} → Reach h → Step h h' → Reach h'
