-- ===== src/LinkageWorker/Ledger.antt =====
-- Each linkage that enters the table of a LinkageWorker leaves it once.
use flinter.Base.{
  ℕ, zero, suc, ◌+◌, ◌≡◌, refl, Bool, true, false, not, ◌||◌, ◌==◌, if◌then◌else◌, Option, none,
  some, List, [], ◌∷◌, ◌++◌, arith, Bool-cases, Option-cases, inl, inr,
}
use flinter.Base.Int.{ℤ, pos, negsuc, ltb_ℤ}
use flinter.Base.Map.{find, put, IsSorted, IsSorted-put, IsSorted-erase, find-put, find-erase}
use flinter.LinkageWorker.{
  Attached, Timer, LinkageWorker, attach_client, detach_client, release_client, on_event_returned,
  set_client_wanna, set_client_wanna_read, set_client_wanna_write, health_check, register_timer,
  on_timer, release_timer, run_end, send_command, on_command, run_commands,
}
use flinter.LinkageWorker.Calls.{History, joining, leaving, Step, Reach}
use flinter.LinkageWorker.Release.{
  outlives, health_check-find, health_check-induct, run_end-induct, run_end-empty,
}

unfoldable pub times : ℕ → List ℕ → ℕ
times l [] = 0
times l (j ∷ js) = (if j == l then 1 else 0) + times l js

unfoldable pub present : Option Attached → ℕ
present none = 0
present (some c) = 1

-- Those that entered, against those that Detach() took out and the rest.
record IsBalanced (attached detached : List ℕ) (k : LinkageWorker) : Type 0 where
  sorted : IsSorted k.events
  even :
      (j : ℕ)
      → times j attached ≡ times j detached + times j k.disconnected + present (find j k.events)

module _ (a d : List ℕ) where
  IsBalanced-cong :
      (k k' : LinkageWorker)
      → k.events ≡ k'.events
      → k.disconnected ≡ k'.disconnected
      → IsBalanced a d k
      → IsBalanced a d k'
  IsBalanced-cong k k' e f s = record { sorted = (rw e at s.sorted); even = (rw (e, f) at s.even) }

  release_client-IsBalanced :
      (l : ℕ) (c : Attached) (k : LinkageWorker)
      → find l k.events ≡ some c
      → IsBalanced a d k
      → IsBalanced a d (release_client l c true k)
  unfolding release_client times present
  release_client-IsBalanced l c k e s = record {
    sorted = IsSorted-erase l k.events s.sorted;
    even = λ j. ground (arith, find-erase j l k.events s.sorted, s.even j);
  }

  -- A change of a client that stays.
  put-IsBalanced :
      (l : ℕ) (c c' : Attached) (k : LinkageWorker)
      → find l k.events ≡ some c
      → IsBalanced a d k
      → IsBalanced a d (record k { events = put l c' k.events })
  unfolding present
  put-IsBalanced l c c' k e s = record {
    sorted = IsSorted-put l c' k.events s.sorted;
    even = λ j. ground (arith, find-put j l c' k.events, s.even j);
  }

  set_client_wanna-IsBalanced :
      (l : ℕ) (r w : Bool) (k : LinkageWorker)
      → IsBalanced a d k
      → IsBalanced a d (set_client_wanna l r w k).1
  unfolding set_client_wanna
  set_client_wanna-IsBalanced l r w k s = elim (Option-cases (find l k.events)) [
    | inl e ↦ rw (e, set_client_wanna) s
    | inr (c, e) ↦
        rw (e, set_client_wanna) (IsBalanced-cong _ _ refl refl (put-IsBalanced l c _ k e s))
  ]

  set_client_wanna_read-IsBalanced :
      (l : ℕ) (r : Bool) (k : LinkageWorker)
      → IsBalanced a d k
      → IsBalanced a d (set_client_wanna_read l r k).1
  unfolding set_client_wanna_read
  set_client_wanna_read-IsBalanced l r k s = elim (Option-cases (find l k.events)) [
    | inl e ↦ rw (e, set_client_wanna_read) s
    | inr (c, e) ↦
        rw (e, set_client_wanna_read) (IsBalanced-cong _ _ refl refl (put-IsBalanced l c _ k e s))
  ]

  set_client_wanna_write-IsBalanced :
      (l : ℕ) (w : Bool) (k : LinkageWorker)
      → IsBalanced a d k
      → IsBalanced a d (set_client_wanna_write l w k).1
  unfolding set_client_wanna_write
  set_client_wanna_write-IsBalanced l w k s = elim (Option-cases (find l k.events)) [
    | inl e ↦ rw (e, set_client_wanna_write) s
    | inr (c, e) ↦
        rw (e, set_client_wanna_write) (IsBalanced-cong _ _ refl refl (put-IsBalanced l c _ k e s))
  ]

  on_event_returned-IsBalanced :
      (reading : Bool) (ret : ℤ) (l : ℕ) (c : Attached) (k : LinkageWorker)
      → find l k.events ≡ some c
      → IsBalanced a d k
      → IsBalanced a d (on_event_returned reading ret l c k)
  unfolding on_event_returned
  on_event_returned-IsBalanced reading (negsuc n) l c k e s =
      let k' = record k { errors = (l, reading) ∷ k.errors } in
      release_client-IsBalanced l c k' e (IsBalanced-cong k k' refl refl s)
  on_event_returned-IsBalanced reading (pos zero) l c k e s = release_client-IsBalanced l c k e s
  on_event_returned-IsBalanced reading (pos (suc n)) l c k e s = s

  timers-IsBalanced :
      (ts : List (ℕ × Timer)) (x : List ℕ) (k : LinkageWorker)
      → IsBalanced a d k
      → IsBalanced a d (record k { timers = ts; deleted = x })
  timers-IsBalanced ts x k s = IsBalanced-cong k _ refl refl s

attach_client-IsBalanced :
    (a d : List ℕ) (l : Option ℕ) (fd : ℕ) (r w auto : Bool) (k : LinkageWorker)
    → IsBalanced a d k
    → IsBalanced (joining l k ++ a) d (attach_client l fd r w auto k).1
unfolding attach_client joining times present
attach_client-IsBalanced a d none fd r w auto k s = s
attach_client-IsBalanced a d (some l) fd r w auto k s = elim (Option-cases (find l k.events)) [
  | inl e ↦
      let c : Attached = record { auto_release = auto; running_r = r; running_w = w; fd = fd } in
      rw (e, attach_client, joining)
        (record {
          sorted = IsSorted-put l c k.events s.sorted;
          even = λ j. ground (arith, find-put j l c k.events, s.even j);
        })
  | inr (c, e) ↦ rw (e, attach_client, joining) s
]

detach_client-IsBalanced :
    (a d : List ℕ) (l : Option ℕ) (k : LinkageWorker)
    → IsBalanced a d k
    → IsBalanced a (leaving l k ++ d) (detach_client l k).1
unfolding detach_client leaving times present
detach_client-IsBalanced a d none k s = s
detach_client-IsBalanced a d (some l) k s = elim (Option-cases (find l k.events)) [
  | inl e ↦ rw (e, detach_client, leaving) s
  | inr (c, e) ↦
      rw (e, detach_client, leaving)
        (record {
          sorted = IsSorted-erase l k.events s.sorted;
          even = λ j. ground (arith, find-erase j l k.events s.sorted, s.even j);
        })
]

on_timer-IsBalanced :
    (a d : List ℕ) (ran : Bool) (p : ℕ) (t : Timer) (k : LinkageWorker)
    → IsBalanced a d k
    → IsBalanced a d (on_timer ran p t k)
unfolding on_timer release_timer
on_timer-IsBalanced a d true p t k s = s
on_timer-IsBalanced a d false p t k s = timers-IsBalanced a d _ _ k s

register_timer-IsBalanced :
    (a d : List ℕ) (after repeat : ℤ) (r : Option ℕ) (auto : Bool) (p : ℕ) (k : LinkageWorker)
    → IsBalanced a d k
    → IsBalanced a d (register_timer after repeat r auto p k).1
unfolding register_timer
register_timer-IsBalanced a d after repeat none auto p k s = s
register_timer-IsBalanced a d after repeat (some r) auto p k s =
    elim (Bool-cases (ltb_ℤ after (pos 0) || not (ltb_ℤ (pos 0) repeat))) [
      | inl bad ↦ rw bad s
      | inr good ↦ rw good (timers-IsBalanced a d _ k.deleted k s)
    ]

on_command-IsBalanced :
    (a d : List ℕ) (runs : ℕ → Bool) (k : LinkageWorker)
    → IsBalanced a d k
    → IsBalanced a d (on_command runs k).1
unfolding on_command
on_command-IsBalanced a d runs k s = elim (Bool-cases (run_commands runs k.commands).ends) [
  | inl ends ↦ rw ends (IsBalanced-cong a d k _ refl refl s)
  | inr goes ↦ rw goes (IsBalanced-cong a d k _ refl refl s)
]

abbrev Balanced : History → Type 0
Balanced h = IsBalanced h.attached h.detached h.worker

step-IsBalanced : {h h' : History} → Step h h' → Balanced h → Balanced h'
unfolding send_command
step-IsBalanced {h = h} (Step.attach_step l fd r w auto) s =
    attach_client-IsBalanced h.attached h.detached l fd r w auto h.worker s
step-IsBalanced {h = h} (Step.detach_step l) s =
    detach_client-IsBalanced h.attached h.detached l h.worker s
step-IsBalanced {h = h} (Step.event_step reading ret l c e) s =
    on_event_returned-IsBalanced h.attached h.detached reading ret l c h.worker e s
step-IsBalanced {h = h} (Step.wanna_step l r w) s =
    set_client_wanna-IsBalanced h.attached h.detached l r w h.worker s
step-IsBalanced {h = h} (Step.wanna_read_step l r) s =
    set_client_wanna_read-IsBalanced h.attached h.detached l r h.worker s
step-IsBalanced {h = h} (Step.wanna_write_step l w) s =
    set_client_wanna_write-IsBalanced h.attached h.detached l w h.worker s
step-IsBalanced {h = h} (Step.health_step keeps) s =
    health_check-induct (IsBalanced h.attached h.detached)
      (release_client-IsBalanced h.attached h.detached) keeps h.worker s.sorted s
step-IsBalanced {h = h} (Step.timer_step after repeat r auto p) s =
    register_timer-IsBalanced h.attached h.detached after repeat r auto p h.worker s
step-IsBalanced {h = h} (Step.alarm_step ran p t e) s =
    on_timer-IsBalanced h.attached h.detached ran p t h.worker s
step-IsBalanced {h = h} (Step.send_step c) s =
    IsBalanced-cong h.attached h.detached h.worker _ refl refl s
step-IsBalanced {h = h} (Step.command_step runs) s =
    on_command-IsBalanced h.attached h.detached runs h.worker s
step-IsBalanced {h = h} Step.end_step s =
    run_end-induct (IsBalanced h.attached h.detached)
      (release_client-IsBalanced h.attached h.detached) (timers-IsBalanced h.attached h.detached)
      h.worker s.sorted s

Reach-IsBalanced : {h : History} → Reach h → Balanced h
unfolding times present find
Reach-IsBalanced Reach.start = record { sorted = tt; even = λ j. refl }
Reach-IsBalanced (Reach.after r step) = step-IsBalanced step (Reach-IsBalanced r)

-- In every order of the calls, a linkage that was attached so many times was detached or was told that it
-- is disconnected as many times, but for once if it is in the table. Where the loop ends, the table is empty,
-- and each linkage that was attached has been detached or told, once each time.
pub Reach-balanced :
    {h : History}
    → Reach h
    → (l : ℕ)
    → (times l h.attached
        ≡ times l h.detached + times l h.worker.disconnected + present (find l h.worker.events))
      × (times l h.attached ≡ times l h.detached + times l (run_end h.worker).disconnected)
unfolding present find
Reach-balanced {h = h} reach l =
    let e =
      (rw (run_end-empty h.worker) at
        ((Reach-IsBalanced (Reach.after reach Step.end_step)).even l)) in
    ((Reach-IsBalanced reach).even l, omega (arith, e))

-- In every order of the calls before, OnHealthCheck() leaves in the table those clients whose linkages it is told
-- to keep, as they are, and tells each of the others once that it is disconnected.
pub health_check-drops :
    {h : History}
    → Reach h
    → (keeps : ℕ → Bool) (l : ℕ)
    → (find l (health_check keeps h.worker).events ≡ outlives (keeps l) (find l h.worker.events))
      × (times l (health_check keeps h.worker).disconnected
            + present (outlives (keeps l) (find l h.worker.events))
          ≡ times l h.worker.disconnected + present (find l h.worker.events))
health_check-drops {h = h} reach keeps l =
    let before = Reach-IsBalanced reach in
    let after = Reach-IsBalanced (Reach.after reach (Step.health_step keeps)) in
    let left = health_check-find keeps l h.worker before.sorted in
    (left, omega (arith, before.even l, (rw left at (after.even l))))
