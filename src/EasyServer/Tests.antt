-- ===== src/EasyServer/Tests.antt =====
-- Runs of an EasyServer.
use flinter.Base.{
  Bool, ◌==◌, ℕ, ◌-◌, ◌<◌, ◌≤◌, ◌≡◌, refl, ◌&&◌, ◌||◌, true, false, none, some, arith,
}
use flinter.Base.Map.{find, put}
use flinter.EasyServer.{
  EasyServer, thread_of, is_outgoing, as_outgoing, insert_new, allocate_channel, accept_channel,
  connect_channel, release_channel, reconnect, send_channel, real_send, disconnect_channel,
  real_disconnect,
}
use flinter.EasyServer.Calls.{new_server, Step, Reach}
use flinter.EasyServer.Kept.{has}
use flinter.EasyServer.Counts.{sum_to, ins, outs}
use flinter.EasyServer.Reached.{Reach-counted, Reach-handlers, Reach-releases, Reach-new_channel}
use flinter.EasyServer.Sends.{target, disconnect_target, call-job}
use flinter.Base.{List, [], ◌∷◌}
use flinter.Base.Int.{pos, negsuc}
use flinter.EasyServer.Jobs.{
  JobQueues, append_job, get_global, get_own, get_job, shutdown_jobs, Call, step, run, from_own,
  taken,
}
use flinter.EasyServer.Jobs.Order.{shutdown-ends}

-- Two threads. The second one has an outgoing channel, which is connected by the first bytes sent; the
-- first one has an incoming one.
abbrev known : ℕ
known = 9223372036854775811

abbrev dialled : EasyServer
dialled = (connect_channel 1 50 (new_server 2 8)).1

abbrev linked : EasyServer
linked = (real_send known true (some 70) dialled).1

abbrev both : EasyServer
both = (accept_channel 0 true 71 linked).1

known_called : (connect_channel 1 50 (new_server 2 8)).0 ≡ known
unfolding connect_channel new_server allocate_channel as_outgoing
known_called = refl

accepted_2 : (accept_channel 0 true 71 linked).0 ≡ some 2
unfolding connect_channel new_server allocate_channel as_outgoing accept_channel real_send reconnect
    thread_of insert_new find put
accepted_2 = refl

both-Reach : Reach 2 8 both
unfolding connect_channel new_server allocate_channel as_outgoing accept_channel real_send reconnect
    thread_of insert_new find put
both-Reach =
    Reach.after
      (Reach.after (Reach.after Reach.start (Step.connect_step 1 50 (omega arith) (omega arith)))
        (Step.real_send_step known true (some 70) (omega arith)))
      (Step.accept_step 0 true 71 (omega arith) (omega arith) (omega arith))

Reach-counted_example :
    (both.incoming ≡ sum_to both.slots (λ t. ins (both.contexts t)))
    × ((both.outgoing ≡ sum_to both.slots (λ t. outs (both.contexts t)))
        × (both.incoming ≤ both.maximum - 1))
Reach-counted_example = Reach-counted (omega arith) (omega arith) both-Reach

Reach-handlers_example : has (find known (both.contexts (thread_of both.slots known)).handlers) ≡ (
    is_outgoing known
    && (has (find known (both.contexts (thread_of both.slots known)).informations)
        || has (find known (both.contexts (thread_of both.slots known)).linkages)))
Reach-handlers_example = Reach-handlers (omega arith) (omega arith) both-Reach known

known_linked : find known (both.contexts (thread_of both.slots known)).linkages ≡ some 70
unfolding connect_channel new_server allocate_channel as_outgoing accept_channel real_send reconnect
    thread_of insert_new find put
known_linked = refl

Reach-releases_example : (s' : EasyServer) × ((release_channel known both ≡ some s') × Reach 2 8 s')
Reach-releases_example = Reach-releases (omega arith) (omega arith) both-Reach known 70 known_linked

Reach-new_channel_example :
    let c = (allocate_channel both.slots false (both.contexts 0)).0 in
    (thread_of both.slots c ≡ 0)
    × ((is_outgoing c ≡ true)
        × ((u : ℕ)
            → u < both.slots
            → (find c (both.contexts u).linkages ≡ none)
              × ((find c (both.contexts u).informations ≡ none)
                  × (find c (both.contexts u).handlers ≡ none))))
unfolding connect_channel new_server allocate_channel as_outgoing accept_channel real_send reconnect
    thread_of insert_new find put
Reach-new_channel_example =
    Reach-new_channel (omega arith) (omega arith) both-Reach 0 false (omega arith) (omega arith)

dialled-Reach : Reach 2 8 dialled
unfolding new_server
dialled-Reach = Reach.after Reach.start (Step.connect_step 1 50 (omega arith) (omega arith))

-- The calling thread runs the worker of thread 1 only.
abbrev in_1 : ℕ → Bool
in_1 t = t == 1

in_1_channel : in_1 (thread_of dialled.slots known) ≡ true
unfolding connect_channel new_server thread_of
in_1_channel = refl

call-job_example :
    (target (send_channel in_1 known true (some 72) dialled).0
      ≡ (real_send known true (some 72) dialled).0)
    × (((send_channel in_1 known true (some 72) dialled).1
          ≡ (real_send known true (some 72) dialled).1)
        × (disconnect_target (disconnect_channel in_1 known dialled)
            ≡ real_disconnect known dialled))
call-job_example =
    call-job (omega arith) (omega arith) dialled-Reach in_1 known (some 72) in_1_channel

-- Two workers; job 7 and then 9 are of worker 1.
abbrev two_workers : JobQueues
two_workers = record { jobs = []; hashjobs = λ i. []; workers = 2; dumped = [] }

abbrev calls : List Call
calls =
    Call.append (some 7) (pos 3)
    ∷ Call.append (some 8) (negsuc 0)
    ∷ Call.append (some 9) (pos 1)
    ∷ Call.get 1
    ∷ Call.get 0
    ∷ []

takes_7 : taken 1 calls two_workers ≡ some 7 ∷ []
unfolding taken step append_job get_job get_own get_global from_own
takes_7 = refl

shutdown-ends_example :
    (get_job 1 (run (Call.append (some 7) (pos 3) ∷ Call.get 0 ∷ []) (shutdown_jobs two_workers))).0
    ≡ some none
shutdown-ends_example =
    shutdown-ends 1 (Call.append (some 7) (pos 3) ∷ Call.get 0 ∷ []) two_workers (omega arith)
      (refl, tt)
