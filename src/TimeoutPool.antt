-- ===== src/TimeoutPool.antt =====
-- class TimeoutPool of flinter/timeout_pool.h, one function for each method, which is under the
-- pool's mutex as a whole. A value is a pointer; what goes to `delete` is in `deleted`, the newest
-- first. get_monotonic_timestamp() is the argument `now`. int64_t is ℤ: no sum comes near its bounds,
-- with nanoseconds since the system's start and timeouts of less than a century.
pub mod Lookup
pub mod Weights
pub mod Ledger
mod Tests
use flinter.Base.{ℕ, Bool, true, false, not, if◌then◌else◌, Option, none, some, List, [], ◌∷◌, ◌++◌}
use flinter.Base.Int.{ℤ, pos, ◌+ℤ◌, ltb_ℤ}
use flinter.Base.Map.{find, put, erase}

-- TimeoutPool::Value.
pub record Value : Type 0 where
  pub deadline : ℤ
  pub value : ℕ

pub record TimeoutPool : Type 0 where
  pub default_timeout : ℤ
  pub auto_release : Bool
  pub pool : List (ℕ × Value)
  pub deleted : List ℕ

unfoldable pub delete_if : Bool → ℕ → List ℕ → List ℕ
delete_if auto v deleted = if auto then v ∷ deleted else deleted

unfoldable pub deadline_of : ℤ → ℤ → TimeoutPool → ℤ
deadline_of now timeout t = now +ℤ (if ltb_ℤ (pos 0) timeout then timeout else t.default_timeout)

-- The old value of the key is deleted.
unfoldable pub insert : ℕ → ℕ → ℤ → ℤ → TimeoutPool → TimeoutPool
unfolding delete_if deadline_of
insert k v timeout now t = record t {
  pool = put k (record { deadline = deadline_of now timeout t; value = v }) t.pool;
  deleted = elim (find k t.pool) [
    | none ↦ t.deleted
    | some old ↦ delete_if t.auto_release old.value t.deleted
  ];
}

-- Erase(): `none` is NULL. The value is the caller's from now on.
unfoldable pub take_out : ℕ → TimeoutPool → Option ℕ × TimeoutPool
take_out k t = elim (find k t.pool) [
  | none ↦ (none, t)
  | some v ↦ (some v.value, record t { pool = erase k t.pool })
]

unfoldable pub is_over : ℤ → Value → Bool
is_over now v = not (ltb_ℤ now v.deadline)

-- The first loop of Check(): the keys to drop, and what was deleted.
pub expire_loop : Bool → ℤ → List (ℕ × Value) → List ℕ → List ℕ → List ℕ × List ℕ
unfolding is_over delete_if
expire_loop auto now [] drop deleted = (drop, deleted)
expire_loop auto now ((k, v) ∷ pool) drop deleted =
    if is_over now v
    then expire_loop auto now pool (drop ++ k ∷ []) (delete_if auto v.value deleted)
    else expire_loop auto now pool drop deleted

-- The second loop.
pub erase_all : List ℕ → List (ℕ × Value) → List (ℕ × Value)
erase_all [] pool = pool
erase_all (k ∷ drop) pool = erase_all drop (erase k pool)

unfoldable pub check : ℤ → TimeoutPool → TimeoutPool
unfolding expire_loop erase_all
check now t =
    let (drop, deleted) = expire_loop t.auto_release now t.pool [] t.deleted in
    record t { pool = erase_all drop t.pool; deleted = deleted }

pub delete_all : Bool → List (ℕ × Value) → List ℕ → List ℕ
unfolding delete_if
delete_all auto [] deleted = deleted
delete_all auto ((k, v) ∷ pool) deleted = delete_all auto pool (delete_if auto v.value deleted)

-- Clear(), which is the destructor too.
unfoldable pub clear : TimeoutPool → TimeoutPool
unfolding delete_all
clear t = record t { pool = []; deleted = delete_all t.auto_release t.pool t.deleted }
