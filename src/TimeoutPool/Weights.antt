-- ===== src/TimeoutPool/Weights.antt =====
-- How the operations of a TimeoutPool move the weights of its values.
use flinter.Base.{
  ℕ, ◌+◌, ◌≡◌, refl, true, ◌==◌, Option, none, some, List, [], ◌∷◌, ◌++◌, arith, Bool-cases,
  Option-cases, inl, inr,
}
use flinter.Base.Int.{ℤ}
use flinter.Base.Map.{find, put, erase, IsSorted, IsSorted-tail, erase_missing, find_below}
use flinter.TimeoutPool.{
  Value, TimeoutPool, delete_if, deadline_of, insert, take_out, is_over, expire_loop, check,
  delete_all, clear,
}
use flinter.TimeoutPool.Lookup.{alive, check-alive}

-- The sum of a weight over addresses, and over the values of a pool.
unfoldable pub weigh : (ℕ → ℕ) → List ℕ → ℕ
weigh g [] = 0
weigh g (v ∷ l) = g v + weigh g l

unfoldable pub stored_weight : (ℕ → ℕ) → List (ℕ × Value) → ℕ
stored_weight g [] = 0
stored_weight g ((k, v) ∷ pool) = g v.value + stored_weight g pool

-- The weight of an optional value.
is_value : (ℕ → ℕ) → Option Value → ℕ
is_value g none = 0
is_value g (some v) = g v.value

stored-put :
    (g : ℕ → ℕ) (k : ℕ) (w : Value) (pool : List (ℕ × Value))
    → IsSorted pool
    → stored_weight g (put k w pool) + is_value g (find k pool) ≡ g w.value + stored_weight g pool
unfolding stored_weight put find is_value
stored-put g k w [] p = omega arith
stored-put g k w ((j, v) ∷ pool) p = elim (Bool-cases (j == k)) [
  | inl same ↦ ground arith
  | inr other ↦ ground (arith, stored-put g k w pool (IsSorted-tail j pool p), find_below k j pool)
]

stored-erase :
    (g : ℕ → ℕ) (k : ℕ) (pool : List (ℕ × Value))
    → stored_weight g (erase k pool) + is_value g (find k pool) ≡ stored_weight g pool
unfolding stored_weight erase find is_value
stored-erase g k [] = refl
stored-erase g k ((j, v) ∷ pool) = ground (arith, stored-erase g k pool)

expire_loop-alive :
    (g : ℕ → ℕ) (now : ℤ) (pool : List (ℕ × Value)) (drop deleted : List ℕ)
    → weigh g (expire_loop true now pool drop deleted).1 + stored_weight g (alive now pool)
      ≡ weigh g deleted + stored_weight g pool
unfolding expire_loop weigh stored_weight alive delete_if
expire_loop-alive g now [] drop deleted = refl
expire_loop-alive g now ((k, v) ∷ pool) drop deleted = elim (Bool-cases (is_over now v)) [
  | inl over ↦ ground (arith, expire_loop-alive g now pool (drop ++ k ∷ []) (v.value ∷ deleted))
  | inr left ↦ ground (arith, expire_loop-alive g now pool drop deleted)
]

delete_all-stored :
    (g : ℕ → ℕ) (pool : List (ℕ × Value)) (deleted : List ℕ)
    → weigh g (delete_all true pool deleted) ≡ weigh g deleted + stored_weight g pool
unfolding delete_all weigh stored_weight delete_if
delete_all-stored g [] deleted = omega arith
delete_all-stored g ((k, v) ∷ pool) deleted =
    omega (arith, delete_all-stored g pool (v.value ∷ deleted))

unfoldable pub push_some : Option ℕ → List ℕ → List ℕ
push_some none l = l
push_some (some v) l = v ∷ l

pub insert-stored :
    (g : ℕ → ℕ) (k v : ℕ) (timeout now : ℤ) (t : TimeoutPool)
    → t.auto_release ≡ true
    → IsSorted t.pool
    → stored_weight g (insert k v timeout now t).pool + weigh g (insert k v timeout now t).deleted
      ≡ g v + stored_weight g t.pool + weigh g t.deleted
unfolding insert delete_if weigh is_value
insert-stored g k v timeout now t auto p =
    let put_one =
      stored-put g k (record { deadline = deadline_of now timeout t; value = v }) t.pool p in
    elim (Option-cases (find k t.pool)) [
      | inl gone ↦ ground (arith, put_one, gone, auto)
      | inr (old, found) ↦ ground (arith, put_one, found, auto)
    ]

pub take_out-stored :
    (g : ℕ → ℕ) (k : ℕ) (t : TimeoutPool) (l : List ℕ)
    → stored_weight g (take_out k t).1.pool + weigh g (push_some (take_out k t).0 l)
      ≡ stored_weight g t.pool + weigh g l
unfolding take_out push_some weigh is_value
take_out-stored g k t l =
    let erase_one = stored-erase g k t.pool in
    elim (Option-cases (find k t.pool)) [
      | inl gone ↦ ground (arith, erase_one, erase_missing k t.pool gone)
      | inr (old, found) ↦ ground (arith, erase_one)
    ]

check-deleted :
    (g : ℕ → ℕ) (now : ℤ) (t : TimeoutPool)
    → t.auto_release ≡ true
    → weigh g (check now t).deleted + stored_weight g (alive now t.pool)
      ≡ weigh g t.deleted + stored_weight g t.pool
unfolding check
check-deleted g now t auto = rw auto (expire_loop-alive g now t.pool [] t.deleted)

pub check-stored :
    (g : ℕ → ℕ) (now : ℤ) (t : TimeoutPool)
    → t.auto_release ≡ true
    → IsSorted t.pool
    → stored_weight g (check now t).pool + weigh g (check now t).deleted
      ≡ stored_weight g t.pool + weigh g t.deleted
check-stored g now t auto p = rw (check-alive now t p) (omega (arith, check-deleted g now t auto))

pub insert-auto_release :
    (k v : ℕ) (timeout now : ℤ) (t : TimeoutPool)
    → (insert k v timeout now t).auto_release ≡ t.auto_release
unfolding insert
insert-auto_release k v timeout now t = refl

pub check-auto_release : (now : ℤ) (t : TimeoutPool) → (check now t).auto_release ≡ t.auto_release
unfolding check
check-auto_release now t = refl

pub clear-auto_release :
    (t : TimeoutPool) → ((clear t).auto_release ≡ t.auto_release) × ((clear t).pool ≡ [])
unfolding clear
clear-auto_release t = (refl, refl)

pub take_out-auto_release :
    (k : ℕ) (t : TimeoutPool) → (take_out k t).1.auto_release ≡ t.auto_release
unfolding take_out
take_out-auto_release k t = ground arith

pub take_out-deleted : (k : ℕ) (t : TimeoutPool) → (take_out k t).1.deleted ≡ t.deleted
unfolding take_out
take_out-deleted k t = ground arith

pub clear-stored :
    (g : ℕ → ℕ) (t : TimeoutPool)
    → t.auto_release ≡ true
    → stored_weight g (clear t).pool + weigh g (clear t).deleted
      ≡ stored_weight g t.pool + weigh g t.deleted
unfolding clear stored_weight
clear-stored g t auto = rw auto (omega (arith, delete_all-stored g t.pool t.deleted))
