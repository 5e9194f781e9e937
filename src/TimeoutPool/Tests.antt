-- ===== src/TimeoutPool/Tests.antt =====
-- Runs of the pool of flinter/timeout_pool.h.
use flinter.Base.{◌≡◌, refl, true, ◌+◌, ◌≤◌, ◌<◌, arith, none, some, List, [], ◌∷◌}
use flinter.Base.Int.{pos}
use flinter.Base.Map.{find, IsSorted}
use flinter.TimeoutPool.{TimeoutPool, insert, take_out, is_over, check}
use flinter.TimeoutPool.Lookup.{lookup_laws}
use flinter.TimeoutPool.Ledger.{Call, fresh, run, step, run-ledger, count, stored}
use flinter.TimeoutPool.Weights.{weigh}

-- Key 1 is set twice, and its first value goes; key 2 has run out at time 30, key 1 has not.
abbrev calls : List Call
calls =
    Call.call_insert 1 11 (pos 0) (pos 0)
    ∷ Call.call_insert 2 12 (pos 5) (pos 10)
    ∷ Call.call_insert 1 13 (pos 50) (pos 20)
    ∷ Call.call_check (pos 30)
    ∷ Call.call_erase 1
    ∷ []

run-ledger_example :
    let r = run calls (fresh (pos 60)) in
    (count 13 r.given ≡ count 13 r.returned + stored 13 r.t.pool + count 13 r.t.deleted)
    × (count 13 r.given ≤ 1
        → (count 13 r.returned + count 13 r.t.deleted ≤ 1)
          × (0 < stored 13 r.t.pool → count 13 r.returned + count 13 r.t.deleted ≡ 0))
run-ledger_example = run-ledger (pos 60) calls 13

-- One pointer that is set twice under one key goes to the destructor at the second Insert(), and again when its time
-- has come.
twice_deleted :
    count 11
      (run
        (Call.call_insert 1 11 (pos 5) (pos 0)
          ∷ Call.call_insert 1 11 (pos 5) (pos 0)
          ∷ Call.call_check (pos 30)
          ∷ [])
        (fresh (pos 60))).t.deleted
    ≡ 2
unfolding count weigh run step insert check flinter.Base.Map.put flinter.Base.Int.◌+ℤ◌ find
twice_deleted = refl

abbrev two : TimeoutPool
two = record {
  default_timeout = pos 60;
  auto_release = true;
  pool =
      (1, record { deadline = pos 70; value = 13 })
      ∷ (2, record { deadline = pos 15; value = 12 })
      ∷ [];
  deleted = 11 ∷ [];
}

lookup_laws_example :
    (find 2 (insert 1 9 (pos 0) (pos 30) two).pool ≡ find 2 two.pool)
    × (find 2 (take_out 1 two).1.pool ≡ find 2 two.pool)
    × ((take_out 1 two).0 ≡ some 13)
    × (find 2 (check (pos 30) two).pool ≡ none)
    × IsSorted (insert 1 9 (pos 0) (pos 30) two).pool
    × IsSorted (take_out 1 two).1.pool
    × IsSorted (check (pos 30) two).pool
unfolding is_over find
lookup_laws_example = lookup_laws 1 2 9 (pos 0) (pos 30) two (ground arith)
