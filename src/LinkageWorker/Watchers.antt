-- ===== src/LinkageWorker/Watchers.antt =====
-- The watchers of the event loop, against the table of a LinkageWorker.
use flinter.Base.{
  ℕ, ◌≡◌, refl, zero, suc, ◌||◌, Bool, true, false, not, if◌then◌else◌, Option, none, some, List,
  ◌∷◌, arith, Bool-cases, Option-cases, inl, inr,
}
use flinter.Base.Int.{ℤ, pos, negsuc, ltb_ℤ}
use flinter.Base.Map.{
  find, put, erase, IsSorted, IsSorted-put, IsSorted-erase, find-put, find-erase,
}
use flinter.LinkageWorker.{
  Attached, Timer, Watching, LinkageWorker, start_if, stop_if, switch_to, attach_client,
  detach_client, release_client, on_event_returned, set_client_wanna, set_client_wanna_read,
  set_client_wanna_write, register_timer, on_timer, run_commands, release_timer, send_command,
  on_command,
}
use flinter.LinkageWorker.Calls.{History, Step, Reach}
use flinter.LinkageWorker.Release.{health_check-induct, run_end-induct}

-- What stands in the loop for a client.
unfoldable pub wanted : (Attached → Bool) → Option Attached → Option (Unit {0})
wanted sel none = none
wanted sel (some c) = if sel c then some tt else none

abbrev pub Shows : (Attached → Bool) → List (ℕ × Attached) → Watching → Type 0
Shows sel events ws = (j : ℕ) → find j ws ≡ wanted sel (find j events)

module _ (sel : Attached → Bool) (l : ℕ) (events : List (ℕ × Attached)) (ws : Watching)
    (shows : Shows sel events ws) where
  Shows-start :
      (c : Attached) → find l events ≡ none → Shows sel (put l c events) (start_if (sel c) l ws)
  unfolding start_if wanted
  Shows-start c e j = ground (arith, find-put j l c events, find-put j l tt ws, shows j)

  Shows-stop :
      (c : Attached)
      → IsSorted events
      → IsSorted ws
      → find l events ≡ some c
      → Shows sel (erase l events) (stop_if (sel c) l ws)
  unfolding stop_if wanted
  Shows-stop c p q e j = ground (arith, find-erase j l events p, find-erase j l ws q, shows j)

  Shows-switch :
      (c d : Attached)
      → IsSorted ws
      → find l events ≡ some c
      → Shows sel (put l d events) (switch_to (sel d) (sel c) l ws)
  unfolding switch_to start_if stop_if wanted
  Shows-switch c d q e j =
      ground (arith, find-put j l d events, find-erase j l ws q, find-put j l tt ws, shows j)

  Shows-same :
      (c d : Attached) → find l events ≡ some c → sel d ≡ sel c → Shows sel (put l d events) ws
  unfolding wanted
  Shows-same c d e s j = ground (arith, find-put j l d events, shows j)

IsSorted-start_if : (b : Bool) (l : ℕ) (ws : Watching) → IsSorted ws → IsSorted (start_if b l ws)
unfolding start_if
IsSorted-start_if true l ws p = IsSorted-put l tt ws p
IsSorted-start_if false l ws p = p

IsSorted-stop_if : (b : Bool) (l : ℕ) (ws : Watching) → IsSorted ws → IsSorted (stop_if b l ws)
unfolding stop_if
IsSorted-stop_if true l ws p = IsSorted-erase l ws p
IsSorted-stop_if false l ws p = p

IsSorted-switch_to :
    (b r : Bool) (l : ℕ) (ws : Watching) → IsSorted ws → IsSorted (switch_to b r l ws)
unfolding switch_to
IsSorted-switch_to true r l ws p = IsSorted-start_if (not r) l ws p
IsSorted-switch_to false r l ws p = IsSorted-stop_if r l ws p

pub record IsWatched (k : LinkageWorker) : Type 0 where
  pub sorted : IsSorted k.events
  pub sorted_r : IsSorted k.watching_r
  pub sorted_w : IsSorted k.watching_w
  pub reads : Shows (λ c. c.running_r) k.events k.watching_r
  pub writes : Shows (λ c. c.running_w) k.events k.watching_w

release_client-IsWatched :
    (l : ℕ) (c : Attached) (k : LinkageWorker)
    → find l k.events ≡ some c
    → IsWatched k
    → IsWatched (release_client l c true k)
unfolding release_client
release_client-IsWatched l c k e s = record {
  sorted = IsSorted-erase l k.events s.sorted;
  sorted_r = IsSorted-stop_if c.running_r l k.watching_r s.sorted_r;
  sorted_w = IsSorted-stop_if c.running_w l k.watching_w s.sorted_w;
  reads = Shows-stop _ l k.events k.watching_r s.reads c s.sorted s.sorted_r e;
  writes = Shows-stop _ l k.events k.watching_w s.writes c s.sorted s.sorted_w e;
}

attach_client-IsWatched :
    (l : Option ℕ) (fd : ℕ) (r w auto : Bool) (k : LinkageWorker)
    → IsWatched k
    → IsWatched (attach_client l fd r w auto k).1
unfolding attach_client
attach_client-IsWatched none fd r w auto k s = s
attach_client-IsWatched (some l) fd r w auto k s = elim (Option-cases (find l k.events)) [
  | inl e ↦
      let c : Attached = record { auto_release = auto; running_r = r; running_w = w; fd = fd } in
      rw (e, attach_client)
        (record {
          sorted = IsSorted-put l c k.events s.sorted;
          sorted_r = IsSorted-start_if r l k.watching_r s.sorted_r;
          sorted_w = IsSorted-start_if w l k.watching_w s.sorted_w;
          reads = Shows-start (λ x. x.running_r) l k.events k.watching_r s.reads c e;
          writes = Shows-start (λ x. x.running_w) l k.events k.watching_w s.writes c e;
        })
  | inr (c, e) ↦ rw (e, attach_client) s
]

detach_client-IsWatched :
    (l : Option ℕ) (k : LinkageWorker) → IsWatched k → IsWatched (detach_client l k).1
unfolding detach_client erase release_client
detach_client-IsWatched none k s = s
detach_client-IsWatched (some l) k s = elim (Option-cases (find l k.events)) [
  | inl e ↦ rw (e, detach_client) s
  | inr (c, e) ↦
      let d = release_client-IsWatched l c k e s in
      rw (e, detach_client)
        (record {
          sorted = d.sorted;
          sorted_r = d.sorted_r;
          sorted_w = d.sorted_w;
          reads = d.reads;
          writes = d.writes;
        })
]

set_client_wanna-IsWatched :
    (l : ℕ) (r w : Bool) (k : LinkageWorker) → IsWatched k → IsWatched (set_client_wanna l r w k).1
unfolding set_client_wanna
set_client_wanna-IsWatched l r w k s = elim (Option-cases (find l k.events)) [
  | inl e ↦ rw (e, set_client_wanna) s
  | inr (c, e) ↦
      let d : Attached = record c { running_r = r; running_w = w } in
      rw (e, set_client_wanna)
        (record {
          sorted = IsSorted-put l d k.events s.sorted;
          sorted_r = IsSorted-switch_to r c.running_r l k.watching_r s.sorted_r;
          sorted_w = IsSorted-switch_to w c.running_w l k.watching_w s.sorted_w;
          reads = Shows-switch (λ x. x.running_r) l k.events k.watching_r s.reads c d s.sorted_r e;
          writes =
              Shows-switch (λ x. x.running_w) l k.events k.watching_w s.writes c d s.sorted_w e;
        })
]

set_client_wanna_read-IsWatched :
    (l : ℕ) (r : Bool) (k : LinkageWorker) → IsWatched k → IsWatched (set_client_wanna_read l r k).1
unfolding set_client_wanna_read
set_client_wanna_read-IsWatched l r k s = elim (Option-cases (find l k.events)) [
  | inl e ↦ rw (e, set_client_wanna_read) s
  | inr (c, e) ↦
      let d : Attached = record c { running_r = r } in
      rw (e, set_client_wanna_read)
        (record {
          sorted = IsSorted-put l d k.events s.sorted;
          sorted_r = IsSorted-switch_to r c.running_r l k.watching_r s.sorted_r;
          sorted_w = s.sorted_w;
          reads = Shows-switch (λ x. x.running_r) l k.events k.watching_r s.reads c d s.sorted_r e;
          writes = Shows-same (λ x. x.running_w) l k.events k.watching_w s.writes c d e refl;
        })
]

set_client_wanna_write-IsWatched :
    (l : ℕ) (w : Bool) (k : LinkageWorker)
    → IsWatched k
    → IsWatched (set_client_wanna_write l w k).1
unfolding set_client_wanna_write
set_client_wanna_write-IsWatched l w k s = elim (Option-cases (find l k.events)) [
  | inl e ↦ rw (e, set_client_wanna_write) s
  | inr (c, e) ↦
      let d : Attached = record c { running_w = w } in
      rw (e, set_client_wanna_write)
        (record {
          sorted = IsSorted-put l d k.events s.sorted;
          sorted_r = s.sorted_r;
          sorted_w = IsSorted-switch_to w c.running_w l k.watching_w s.sorted_w;
          reads = Shows-same (λ x. x.running_r) l k.events k.watching_r s.reads c d e refl;
          writes =
              Shows-switch (λ x. x.running_w) l k.events k.watching_w s.writes c d s.sorted_w e;
        })
]

-- Only the table and the watchers count.
IsWatched-cong :
    (k k' : LinkageWorker)
    → k.events ≡ k'.events
    → k.watching_r ≡ k'.watching_r
    → k.watching_w ≡ k'.watching_w
    → IsWatched k
    → IsWatched k'
IsWatched-cong k k' e r w s = record {
  sorted = (rw e at s.sorted);
  sorted_r = (rw r at s.sorted_r);
  sorted_w = (rw w at s.sorted_w);
  reads = (rw (e, r) at s.reads);
  writes = (rw (e, w) at s.writes);
}

on_event_returned-IsWatched :
    (reading : Bool) (ret : ℤ) (l : ℕ) (c : Attached) (k : LinkageWorker)
    → find l k.events ≡ some c
    → IsWatched k
    → IsWatched (on_event_returned reading ret l c k)
unfolding on_event_returned
on_event_returned-IsWatched reading (negsuc n) l c k e s =
    let k' = record k { errors = (l, reading) ∷ k.errors } in
    release_client-IsWatched l c k' e (IsWatched-cong k k' refl refl refl s)
on_event_returned-IsWatched reading (pos zero) l c k e s = release_client-IsWatched l c k e s
on_event_returned-IsWatched reading (pos (suc n)) l c k e s = s

timers-IsWatched :
    (ts : List (ℕ × Timer)) (d : List ℕ) (k : LinkageWorker)
    → IsWatched k
    → IsWatched (record k { timers = ts; deleted = d })
timers-IsWatched ts d k s = IsWatched-cong k _ refl refl refl s

on_timer-IsWatched :
    (ran : Bool) (p : ℕ) (t : Timer) (k : LinkageWorker)
    → IsWatched k
    → IsWatched (on_timer ran p t k)
unfolding on_timer release_timer
on_timer-IsWatched true p t k s = s
on_timer-IsWatched false p t k s = timers-IsWatched _ _ k s

register_timer-IsWatched :
    (after repeat : ℤ) (r : Option ℕ) (auto : Bool) (p : ℕ) (k : LinkageWorker)
    → IsWatched k
    → IsWatched (register_timer after repeat r auto p k).1
unfolding register_timer
register_timer-IsWatched after repeat none auto p k s = s
register_timer-IsWatched after repeat (some r) auto p k s =
    elim (Bool-cases (ltb_ℤ after (pos 0) || not (ltb_ℤ (pos 0) repeat))) [
      | inl bad ↦ rw bad s
      | inr good ↦ rw good (timers-IsWatched _ k.deleted k s)
    ]

on_command-IsWatched :
    (runs : ℕ → Bool) (k : LinkageWorker) → IsWatched k → IsWatched (on_command runs k).1
unfolding on_command
on_command-IsWatched runs k s = elim (Bool-cases (run_commands runs k.commands).ends) [
  | inl ends ↦ rw ends (IsWatched-cong k _ refl refl refl s)
  | inr goes ↦ rw goes (IsWatched-cong k _ refl refl refl s)
]

step-IsWatched : {h h' : History} → Step h h' → IsWatched h.worker → IsWatched h'.worker
unfolding send_command
step-IsWatched {h = h} (Step.attach_step l fd r w auto) s =
    attach_client-IsWatched l fd r w auto h.worker s
step-IsWatched {h = h} (Step.detach_step l) s = detach_client-IsWatched l h.worker s
step-IsWatched {h = h} (Step.event_step reading ret l c e) s =
    on_event_returned-IsWatched reading ret l c h.worker e s
step-IsWatched {h = h} (Step.wanna_step l r w) s = set_client_wanna-IsWatched l r w h.worker s
step-IsWatched {h = h} (Step.wanna_read_step l r) s = set_client_wanna_read-IsWatched l r h.worker s
step-IsWatched {h = h} (Step.wanna_write_step l w) s =
    set_client_wanna_write-IsWatched l w h.worker s
step-IsWatched {h = h} (Step.health_step keeps) s =
    health_check-induct IsWatched release_client-IsWatched keeps h.worker s.sorted s
step-IsWatched {h = h} (Step.timer_step after repeat r auto p) s =
    register_timer-IsWatched after repeat r auto p h.worker s
step-IsWatched {h = h} (Step.alarm_step ran p t e) s = on_timer-IsWatched ran p t h.worker s
step-IsWatched {h = h} (Step.send_step c) s = IsWatched-cong h.worker _ refl refl refl s
step-IsWatched {h = h} (Step.command_step runs) s = on_command-IsWatched runs h.worker s
step-IsWatched {h = h} Step.end_step s =
    run_end-induct IsWatched release_client-IsWatched timers-IsWatched h.worker s.sorted s

pub Reach-IsWatched : {h : History} → Reach h → IsWatched h.worker
unfolding wanted find
Reach-IsWatched Reach.start = record {
  sorted = tt;
  sorted_r = tt;
  sorted_w = tt;
  reads = λ j. refl;
  writes = λ j. refl;
}
Reach-IsWatched (Reach.after r step) = step-IsWatched step (Reach-IsWatched r)

-- In every order of the calls, a linkage is watched for reading, and for writing, if and only if it is in
-- the table and wants it there: no watcher outlives its client, and none that is wanted is missing.
pub Reach-watched :
    {h : History}
    → Reach h
    → (l : ℕ)
    → (find l h.worker.watching_r ≡ wanted (λ c. c.running_r) (find l h.worker.events))
      × (find l h.worker.watching_w ≡ wanted (λ c. c.running_w) (find l h.worker.events))
Reach-watched reach l = let s = Reach-IsWatched reach in (s.reads l, s.writes l)
