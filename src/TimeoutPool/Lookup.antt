-- ===== src/TimeoutPool/Lookup.antt =====
-- The TimeoutPool as a partial map from keys to values and deadlines.
use flinter.Base.{
  ℕ, ◌≡◌, refl, sym, ◌∙◌, Bool, ◌==◌, if◌then◌else◌, none, some, List, [], ◌∷◌, ◌++◌, arith,
  Bool-cases, Option-cases, append_assoc, append-nil, inl, inr, ◌>>=◌,
}
use flinter.Base.Int.{ℤ}
use flinter.Base.Map.{
  find, erase, IsSorted, IsAbove, IsAbove-lower, IsSorted-tail, IsSorted-put, IsSorted-erase,
  find-put, find-erase, erase_missing, find_least,
}
use flinter.TimeoutPool.{
  Value, TimeoutPool, deadline_of, insert, take_out, is_over, expire_loop, erase_all, check,
}

-- The keys that Check() drops.
pub over_keys : ℤ → List (ℕ × Value) → List ℕ
over_keys now [] = []
over_keys now ((k, v) ∷ pool) = if is_over now v then k ∷ over_keys now pool else over_keys now pool

-- The entries that Check() leaves.
unfoldable pub alive : ℤ → List (ℕ × Value) → List (ℕ × Value)
alive now [] = []
alive now ((k, v) ∷ pool) = if is_over now v then alive now pool else (k, v) ∷ alive now pool

expire_loop-keys :
    (auto : Bool) (now : ℤ) (pool : List (ℕ × Value)) (drop deleted : List ℕ)
    → (expire_loop auto now pool drop deleted).0 ≡ drop ++ over_keys now pool
unfolding expire_loop over_keys
expire_loop-keys auto now [] drop deleted = sym (append-nil drop)
expire_loop-keys auto now ((k, v) ∷ pool) drop deleted = elim (Bool-cases (is_over now v)) [
  | inl over ↦
      rw (over, expire_loop, over_keys)
        (expire_loop-keys auto now pool (drop ++ k ∷ []) _
          ∙ append_assoc drop (k ∷ []) (over_keys now pool))
  | inr left ↦ rw (left, expire_loop, over_keys) (expire_loop-keys auto now pool drop deleted)
]

-- Keys above the first one of a pool pass it by.
erase_all-over :
    (now : ℤ) (j : ℕ) (v : Value) (more pool : List (ℕ × Value))
    → IsAbove j more
    → erase_all (over_keys now more) ((j, v) ∷ pool) ≡ (j, v) ∷ erase_all (over_keys now more) pool
unfolding erase_all over_keys erase
erase_all-over now j v [] pool p = refl
erase_all-over now j v ((k, w) ∷ more) pool (q, p) = ground (
  arith,
  erase_all-over now j v more (erase k pool) (IsAbove-lower j k more q p),
  erase_all-over now j v more pool (IsAbove-lower j k more q p),
)

erase_all-alive :
    (now : ℤ) (pool : List (ℕ × Value))
    → IsSorted pool
    → erase_all (over_keys now pool) pool ≡ alive now pool
unfolding erase_all over_keys alive erase
erase_all-alive now [] p = refl
erase_all-alive now ((k, v) ∷ pool) p =
    ground
      (arith, erase_all-alive now pool (IsSorted-tail k pool p), erase_all-over now k v pool pool p)

find-alive :
    (now : ℤ) (k : ℕ) (pool : List (ℕ × Value))
    → IsSorted pool
    → find k (alive now pool) ≡ (find k pool >>= λ v. if is_over now v then none else some v)
unfolding find alive
find-alive now k [] p = refl
find-alive now k ((j, v) ∷ pool) p =
    let ih = find-alive now k pool (IsSorted-tail j pool p) in
    elim (Bool-cases (is_over now v)) [
      | inl over ↦
          rw (over, alive)
            (elim (Bool-cases (j == k)) [
              | inl same ↦ ground (arith, ih, find_least j pool p, over)
              | inr other ↦ ground (arith, ih)
            ])
      | inr left ↦ rw (left, alive) (ground (arith, ih, left))
    ]

pub check-alive :
    (now : ℤ) (t : TimeoutPool) → IsSorted t.pool → (check now t).pool ≡ alive now t.pool
unfolding check
check-alive now t p =
    rw (expire_loop-keys t.auto_release now t.pool [] t.deleted) (erase_all-alive now t.pool p)

IsAbove-alive :
    (now : ℤ) (k : ℕ) (pool : List (ℕ × Value)) → IsAbove k pool → IsAbove k (alive now pool)
unfolding alive
IsAbove-alive now k [] p = tt
IsAbove-alive now k ((j, v) ∷ pool) (q, p) =
    ground
      (arith, IsAbove-alive now j pool p, IsAbove-alive now k pool (IsAbove-lower k j pool q p))

IsSorted-alive : (now : ℤ) (pool : List (ℕ × Value)) → IsSorted pool → IsSorted (alive now pool)
unfolding alive
IsSorted-alive now [] p = tt
IsSorted-alive now ((j, v) ∷ pool) p =
    ground (arith, IsAbove-alive now j pool p, IsSorted-alive now pool (IsSorted-tail j pool p))

take_out-pool : (k : ℕ) (t : TimeoutPool) → (take_out k t).1.pool ≡ erase k t.pool
unfolding take_out
take_out-pool k t = elim (Option-cases (find k t.pool)) [
  | inl gone ↦ rw (gone, take_out) (sym (erase_missing k t.pool gone))
  | inr (v, found) ↦ rw (found, take_out)
]

take_out-value :
    (k : ℕ) (t : TimeoutPool) → (take_out k t).0 ≡ (find k t.pool >>= λ x. some x.value)
unfolding take_out
take_out-value k t = elim (Option-cases (find k t.pool)) [
  | inl gone ↦ rw (gone, take_out)
  | inr (v, found) ↦ rw (found, take_out)
]

-- In a pool whose keys ascend, Insert() sets its own key to the value and the deadline, an Erase()
-- clears its own key and returns what a lookup found there, and Check() clears exactly the keys whose deadline
-- has come; other keys are left as they are, and the keys ascend afterwards.
pub lookup_laws :
    (k j v : ℕ) (timeout now : ℤ) (t : TimeoutPool)
    → IsSorted t.pool
    → (find j (insert k v timeout now t).pool ≡ (
        if j == k
        then some (record { deadline = deadline_of now timeout t; value = v })
        else find j t.pool))
      × (find j (take_out k t).1.pool ≡ (if j == k then none else find j t.pool))
      × ((take_out k t).0 ≡ (find k t.pool >>= λ x. some x.value))
      × (find j (check now t).pool
          ≡ (find j t.pool >>= λ x. if is_over now x then none else some x))
      × IsSorted (insert k v timeout now t).pool
      × IsSorted (take_out k t).1.pool
      × IsSorted (check now t).pool
unfolding insert
lookup_laws k j v timeout now t p = (
  find-put j k _ t.pool,
  rw (take_out-pool k t) (find-erase j k t.pool p),
  take_out-value k t,
  rw (check-alive now t p) (find-alive now j t.pool p),
  IsSorted-put k _ t.pool p,
  rw (take_out-pool k t) (IsSorted-erase k t.pool p),
  rw (check-alive now t p) (IsSorted-alive now t.pool p),
)
