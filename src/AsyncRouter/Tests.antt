-- ===== src/AsyncRouter/Tests.antt =====
-- Runs of the router of flinter/linkage/async_router.h.
use flinter.Base.{◌+◌, ◌<◌, ◌≡◌, refl, arith, true, some}
use flinter.Base.Int.{pos}
use flinter.Base.Map.{find, put, total}
use flinter.ObjectMap.{add, get_next, may_return, next_entry, inc, dec, release}
use flinter.ObjectMap.Accounts.{times, entries_with}
use flinter.ObjectMap.Totals.{refs_of, entries_of}
use flinter.TimeoutPool.Weights.{stored_weight}
use flinter.TimeoutPool.Ledger.{stored}
use flinter.AsyncRouter.{AsyncRouter, create, get, shutdown, add_host}
use flinter.AsyncRouter.Calls.{Step, Runs, pending}
use flinter.AsyncRouter.Pending.{Runs-refs, shutdown-may_return}

-- Host 1 gets context 100, and call 5 goes to it.
abbrev one_host : AsyncRouter
one_host = add_host 1 (some 100) (create (pos 0))

abbrev one_call : AsyncRouter
one_call = (get 5 50 (pos 0) (pos 7) 200 one_host).1

call_goes_to_100 : (get 5 50 (pos 0) (pos 7) 200 one_host).0 ≡ some 100
unfolding get add_host create add release find put get_next next_entry inc dec
call_goes_to_100 = refl

one_call-Runs : Runs (pos 0) one_call
unfolding create pending stored_weight stored entries_of total add_host add
one_call-Runs =
    Runs.after
      (Runs.after Runs.start
        (Step.add_step 1 (some 100) (λ o gone made. refl) (λ k x. ground arith)))
      (Step.get_step 5 50 (pos 0) (pos 7) 200 refl (λ k x. ground arith))

Runs-refs_example :
    (refs_of 1 100 one_call.map ≡ pending 1 100 one_call)
    × (0 < pending 1 100 one_call
        → (entries_of 1 100 one_call.map ≡ 1)
          × (times 100 one_call.map.destroyed < times 100 one_call.map.made))
    × (times 100 one_call.map.made
        ≡ entries_with 100 one_call.map + times 100 one_call.map.destroyed)
Runs-refs_example = Runs-refs one_call-Runs 1 100

shutdown-may_return_example : may_return true (shutdown one_call).map ≡ true
shutdown-may_return_example = shutdown-may_return one_call-Runs
