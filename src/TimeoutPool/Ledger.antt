-- ===== src/TimeoutPool/Ledger.antt =====
-- What becomes of the values that a TimeoutPool is given.
use flinter.Base.{
  ℕ, ◌+◌, ◌<◌, ◌≤◌, ◌≡◌, refl, ap, ◌∙◌, Bool, true, false, ◌==◌, List, [], ◌∷◌, arith,
}
use flinter.Base.Int.{ℤ, pos}
use flinter.Base.Map.{IsSorted}
use flinter.TimeoutPool.{Value, TimeoutPool, insert, take_out, check, clear}
use flinter.TimeoutPool.Lookup.{lookup_laws}
use flinter.TimeoutPool.Weights.{
  weigh, stored_weight, push_some, insert-stored, take_out-stored, check-stored, clear-stored,
  take_out-deleted, insert-auto_release, take_out-auto_release, check-auto_release,
  clear-auto_release,
}

abbrev pub one_if : Bool → ℕ
one_if true = 1
one_if false = 0

-- How often an address stands in a list, and in a pool.
unfoldable pub count : ℕ → List ℕ → ℕ
count x l = weigh (λ v. one_if (v == x)) l

unfoldable pub stored : ℕ → List (ℕ × Value) → ℕ
stored x pool = stored_weight (λ v. one_if (v == x)) pool

-- A call of a method, with the time at which it is made.
pub data Call : Type 0 where
  call_insert : ℕ → ℕ → ℤ → ℤ → Call
  call_erase : ℕ → Call
  call_check : ℤ → Call
  call_clear : Call

-- The pool, the values that Insert() was given, and those that Erase() returned.
pub record Run : Type 0 where
  pub t : TimeoutPool
  pub given : List ℕ
  pub returned : List ℕ

unfoldable pub step : Call → Run → Run
step (call_insert k v timeout now) r = record r {
  t = insert k v timeout now r.t;
  given = v ∷ r.given;
}
step (call_erase k) r =
    let (v, t) = take_out k r.t in record r { t = t; returned = push_some v r.returned }
step (call_check now) r = record r { t = check now r.t }
step call_clear r = record r { t = clear r.t }

unfoldable pub run : List Call → Run → Run
run [] r = r
run (c ∷ calls) r = run calls (step c r)

-- The pool has been told to delete, its keys ascend, and each value given is in one place.
IsBalanced : Run → Type 0
IsBalanced r =
    (r.t.auto_release ≡ true)
    × IsSorted r.t.pool
    × ((x : ℕ) → count x r.given ≡ count x r.returned + stored x r.t.pool + count x r.t.deleted)

step-IsBalanced : (c : Call) (r : Run) → IsBalanced r → IsBalanced (step c r)
unfolding IsBalanced step count stored weigh
step-IsBalanced (call_insert k v timeout now) r (auto, p, same) = (
  insert-auto_release k v timeout now r.t ∙ auto,
  (lookup_laws k k v timeout now r.t p).4,
  λ x. omega (arith, same x, insert-stored (λ v. one_if (v == x)) k v timeout now r.t auto p),
)
step-IsBalanced (call_erase k) r (auto, p, same) = (
  take_out-auto_release k r.t ∙ auto,
  (lookup_laws k k 0 (pos 0) (pos 0) r.t p).5,
  λ x. omega (
    arith,
    same x,
    take_out-stored (λ v. one_if (v == x)) k r.t r.returned,
    ap (count x) (take_out-deleted k r.t),
  ),
)
step-IsBalanced (call_check now) r (auto, p, same) = (
  check-auto_release now r.t ∙ auto,
  (lookup_laws 0 0 0 (pos 0) now r.t p).6,
  λ x. omega (arith, same x, check-stored (λ v. one_if (v == x)) now r.t auto p),
)
step-IsBalanced call_clear r (auto, p, same) =
    let (kept, empty) = clear-auto_release r.t in
    (
      kept ∙ auto,
      rw empty tt,
      λ x. omega (arith, same x, clear-stored (λ v. one_if (v == x)) r.t auto),
    )

run-IsBalanced : (calls : List Call) (r : Run) → IsBalanced r → IsBalanced (run calls r)
unfolding run
run-IsBalanced [] r b = b
run-IsBalanced (c ∷ calls) r b = run-IsBalanced calls (step c r) (step-IsBalanced c r b)

-- A pool that is told to delete what it drops, with nothing in it.
abbrev pub fresh : ℤ → Run
fresh default_timeout = record {
  t = record { default_timeout = default_timeout; auto_release = true; pool = []; deleted = [] };
  given = [];
  returned = [];
}

-- Behind any calls of a pool that deletes what it drops, a value has been returned by Erase(), is in the
-- pool, and was deleted, all together just as often as Insert() was given it: none is lost. One that was
-- given once at most has therefore been returned or deleted once at most, and neither as long as it is in the pool.
pub run-ledger :
    (default_timeout : ℤ) (calls : List Call) (x : ℕ)
    → let r = run calls (fresh default_timeout) in
      (count x r.given ≡ count x r.returned + stored x r.t.pool + count x r.t.deleted)
      × (count x r.given ≤ 1
          → (count x r.returned + count x r.t.deleted ≤ 1)
            × (0 < stored x r.t.pool → count x r.returned + count x r.t.deleted ≡ 0))
unfolding IsBalanced count stored weigh stored_weight
run-ledger default_timeout calls x =
    let r = run calls (fresh default_timeout) in
    let even = (run-IsBalanced calls (fresh default_timeout) (refl, tt, λ y. refl)).2 x in
    (even, λ once. (once_at_most _ _ _ _ even once, λ there. gone_never _ _ _ _ even once there))
  where
    once_at_most : (g r s d : ℕ) → g ≡ r + s + d → g ≤ 1 → r + d ≤ 1
    once_at_most g r s d e h = omega arith

    gone_never : (g r s d : ℕ) → g ≡ r + s + d → g ≤ 1 → 0 < s → r + d ≡ 0
    gone_never g r s d e h t = omega arith
