-- ===== src/LinkageWorker.antt =====
-- class LinkageWorker of flinter/linkage/linkage_worker.cpp: the table of attached linkages, the timers,
-- the commands, and what is asked of libev. A linkage, a runnable and a file descriptor are numbers. The
-- loop of libev is the environment: here stand the watchers that are started in it. OnReadable() and
-- OnWritable() of a linkage may call these functions before they return; its Cleanup(), OnError() and
-- OnDisconnected() do not here. The tables stand in an order of the keys that nothing depends on.
pub mod Calls
pub mod Release
pub mod Watchers
pub mod Ledger
pub mod Commands
mod Tests
use flinter.Base.{
  ℕ, zero, suc, Bool, true, false, not, ◌||◌, ◌==◌, if◌then◌else◌, Option, none, some, List, [],
  ◌∷◌, ◌++◌,
}
use flinter.Base.Int.{ℤ, pos, negsuc, ltb_ℤ}
use flinter.Base.Map.{find, put, erase}

-- The structure client_t; its linkage is the key of the table.
pub record Attached : Type 0 where
  pub auto_release : Bool
  pub running_r : Bool
  pub running_w : Bool
  pub fd : ℕ

-- The structure timer_t.
pub record Timer : Type 0 where
  pub runnable : ℕ
  pub auto_release : Bool

abbrev pub Watching : Type 0
Watching = List (ℕ × Unit {0})

-- The fields of the worker; the watchers started for reading and for writing; and what was called:
-- OnDisconnected() and OnError() of linkages, with the newest first, and what was deleted.
pub record LinkageWorker : Type 0 where
  pub events : List (ℕ × Attached)
  pub timers : List (ℕ × Timer)
  pub commands : List (Option ℕ)
  pub quit : Bool
  pub watching_r : Watching
  pub watching_w : Watching
  pub disconnected : List ℕ
  pub errors : List (ℕ × Bool)
  pub deleted : List ℕ

-- ev_io_start() and ev_io_stop().
unfoldable pub start_if : Bool → ℕ → Watching → Watching
start_if b l ws = if b then put l tt ws else ws

unfoldable pub stop_if : Bool → ℕ → Watching → Watching
stop_if b l ws = if b then erase l ws else ws

-- Attach(); `none` is a null pointer.
unfoldable pub attach_client :
    Option ℕ → ℕ → Bool → Bool → Bool → LinkageWorker → Bool × LinkageWorker
unfolding start_if
attach_client none fd r w auto k = (false, k)
attach_client (some l) fd r w auto k = elim (find l k.events) [
  | some _ ↦ (true, k)
  | none ↦ (
    true,
    record k {
      events =
          put l (record { auto_release = auto; running_r = r; running_w = w; fd = fd }) k.events;
      watching_r = start_if r l k.watching_r;
      watching_w = start_if w l k.watching_w;
    },
  )
]

-- Detach().
unfoldable pub detach_client : Option ℕ → LinkageWorker → Bool × LinkageWorker
unfolding stop_if
detach_client none k = (false, k)
detach_client (some l) k = elim (find l k.events) [
  | none ↦ (true, k)
  | some c ↦ (
    true,
    record k {
      events = erase l k.events;
      watching_r = stop_if c.running_r l k.watching_r;
      watching_w = stop_if c.running_w l k.watching_w;
    },
  )
]

-- DoRelease() of a client.
unfoldable pub release_client : ℕ → Attached → Bool → LinkageWorker → LinkageWorker
unfolding stop_if
release_client l c erase_container k = record k {
  events = if erase_container then erase l k.events else k.events;
  watching_r = stop_if c.running_r l k.watching_r;
  watching_w = stop_if c.running_w l k.watching_w;
  disconnected = l ∷ k.disconnected;
  deleted = if c.auto_release then l ∷ k.deleted else k.deleted;
}

-- OnReadable() and OnWritable(), behind the linkage's own, which has returned `ret`.
unfoldable pub on_event_returned : Bool → ℤ → ℕ → Attached → LinkageWorker → LinkageWorker
unfolding release_client
on_event_returned reading (negsuc _) l c k =
    release_client l c true (record k { errors = (l, reading) ∷ k.errors })
on_event_returned reading (pos zero) l c k = release_client l c true k
on_event_returned reading (pos (suc _)) l c k = k

-- A watcher that changes from one state to another.
unfoldable pub switch_to : Bool → Bool → ℕ → Watching → Watching
unfolding start_if stop_if
switch_to wanted running l ws = if wanted then start_if (not running) l ws else stop_if running l ws

-- SetWanna().
unfoldable pub set_client_wanna : ℕ → Bool → Bool → LinkageWorker → Bool × LinkageWorker
unfolding switch_to
set_client_wanna l r w k = elim (find l k.events) [
  | none ↦ (false, k)
  | some c ↦ (
    true,
    record k {
      events = put l (record c { running_r = r; running_w = w }) k.events;
      watching_r = switch_to r c.running_r l k.watching_r;
      watching_w = switch_to w c.running_w l k.watching_w;
    },
  )
]

unfoldable pub set_client_wanna_read : ℕ → Bool → LinkageWorker → Bool × LinkageWorker
unfolding switch_to
set_client_wanna_read l r k = elim (find l k.events) [
  | none ↦ (false, k)
  | some c ↦ (
    true,
    record k {
      events = put l (record c { running_r = r }) k.events;
      watching_r = switch_to r c.running_r l k.watching_r;
    },
  )
]

unfoldable pub set_client_wanna_write : ℕ → Bool → LinkageWorker → Bool × LinkageWorker
unfolding switch_to
set_client_wanna_write l w k = elim (find l k.events) [
  | none ↦ (false, k)
  | some c ↦ (
    true,
    record k {
      events = put l (record c { running_w = w }) k.events;
      watching_w = switch_to w c.running_w l k.watching_w;
    },
  )
]

-- The first loop of OnHealthCheck(); `keeps` is what Cleanup() of a linkage returns.
unfoldable pub health_drops : (ℕ → Bool) → List (ℕ × Attached) → List (ℕ × Attached)
health_drops keeps [] = []
health_drops keeps ((l, c) ∷ events) =
    if keeps l then health_drops keeps events else (l, c) ∷ health_drops keeps events

-- DoRelease() of one client after another.
unfoldable pub release_all : Bool → List (ℕ × Attached) → LinkageWorker → LinkageWorker
unfolding release_client
release_all erase_container [] k = k
release_all erase_container ((l, c) ∷ clients) k =
    release_all erase_container clients (release_client l c erase_container k)

unfoldable pub health_check : (ℕ → Bool) → LinkageWorker → LinkageWorker
unfolding health_drops release_all
health_check keeps k = release_all true (health_drops keeps k.events) k

-- RegisterTimer(); `p` is where the new timer stands, and `none` is a null pointer.
unfoldable pub register_timer : ℤ → ℤ → Option ℕ → Bool → ℕ → LinkageWorker → Bool × LinkageWorker
register_timer after repeat none auto p k = (false, k)
register_timer after repeat (some runnable) auto p k =
    if ltb_ℤ after (pos 0) || not (ltb_ℤ (pos 0) repeat) then (false, k) else (
      true,
      record k { timers = put p (record { runnable = runnable; auto_release = auto }) k.timers },
    )

-- DoRelease() of a timer.
unfoldable pub release_timer : ℕ → Timer → Bool → LinkageWorker → LinkageWorker
release_timer p t erase_container k = record k {
  timers = if erase_container then erase p k.timers else k.timers;
  deleted = if t.auto_release then t.runnable ∷ k.deleted else k.deleted;
}

-- OnTimer(), where the runnable has returned `ran`.
unfoldable pub on_timer : Bool → ℕ → Timer → LinkageWorker → LinkageWorker
unfolding release_timer
on_timer ran p t k = if ran then k else release_timer p t true k

unfoldable pub release_timers : List (ℕ × Timer) → LinkageWorker → LinkageWorker
unfolding release_timer
release_timers [] k = k
release_timers ((p, t) ∷ timers) k = release_timers timers (release_timer p t false k)

-- The end of Run(), behind its loop.
unfoldable pub run_end : LinkageWorker → LinkageWorker
unfolding release_all release_timers
run_end k = record (release_timers k.timers (release_all false k.events k)) {
  events = [];
  timers = [];
}

-- SendCommand(), and Shutdown() for `none`.
unfoldable pub send_command : Option ℕ → LinkageWorker → LinkageWorker
send_command c k = record k { commands = k.commands ++ c ∷ [] }

-- What OnCommand() does to the commands that it has taken: those it runs, those it
-- deletes, and whether it ends the loop.
pub record Commanded : Type 0 where
  pub ran : List ℕ
  pub ends : Bool

-- The first loop of OnCommand(); `runs` is what Run() of a command returns.
unfoldable pub run_commands : (ℕ → Bool) → List (Option ℕ) → Commanded
run_commands runs [] = record { ran = []; ends = false }
run_commands runs (none ∷ q) = record { ran = []; ends = true }
run_commands runs (some c ∷ q) =
    let rest = run_commands runs q in
    if runs c then record rest { ran = c ∷ rest.ran } else record { ran = c ∷ []; ends = false }

-- The second loop: deleting a null pointer does nothing.
unfoldable pub pointers : List (Option ℕ) → List ℕ
pointers [] = []
pointers (none ∷ q) = pointers q
pointers (some c ∷ q) = c ∷ pointers q

unfoldable pub on_command : (ℕ → Bool) → LinkageWorker → List ℕ × LinkageWorker
unfolding run_commands pointers
on_command runs k =
    let q = k.commands in
    let done = run_commands runs q in
    if done.ends
    then (done.ran, record k { commands = []; quit = true })
    else (done.ran, record k { commands = []; deleted = pointers q ++ k.deleted })
